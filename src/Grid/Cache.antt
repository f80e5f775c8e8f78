-- ===== src/Grid/Cache.antt =====
-- GeometryCache.cpp and the calls of it in BaseDataReader.cpp and readCache.cpp,
-- src/callInterface/core/wciRead/extractGridData: the geometries of grid positions, the positions
-- of geometries and the texts of geometries that are kept from call to call.
use wdb.Base.{
  ℕ, ◌==◌, Bool, ◌&&◌, List, [], ◌∷◌, Bytes, bytes_eq, Option, none, some, ℤ, Outcome, ok, fail,
  if◌then◌else◌,
}
use wdb.Read.Places.{PlaceSpecification, eq_int64}
use wdb.Grid.Doubles.{Doubles}
use wdb.Grid.Projection.{Point, Proj}
use wdb.Grid.Polygon.{Grid}
use wdb.Grid.Transform.{wdb_transform, r_transform}

-- `ltPlaceSpecification` leaves two places in either order. It does not look at `srid_`. Words that
-- are the same number are the same here.
unfoldable pub same_place : PlaceSpecification → PlaceSpecification → Bool
same_place a b =
    (a.start_x_ == b.start_x_)
    && ((a.start_y_ == b.start_y_)
        && ((a.x_number_ == b.x_number_)
            && ((a.y_number_ == b.y_number_)
                && ((a.x_increment_ == b.x_increment_)
                    && ((a.y_increment_ == b.y_increment_)
                        && bytes_eq a.proj_definition_ b.proj_definition_)))))

-- A `GeometryCache`.
pub record Entry (d : Doubles) : Type 0 where
  pub lon_lat_to_geom : List ((ℤ × ℤ) × ℕ)
  pub geom_to_lon_lat : List (ℕ × Point d)

-- `cache` and `geomToWkt`, and the projections that are kept.
pub record Caches (d : Doubles) : Type 0 where
  pub cache : List (PlaceSpecification × Entry d)
  pub geom_to_wkt : List (ℕ × Bytes)
  pub projections : List Bytes

-- What the caches take from GEOS.
pub record Geometries (d : Doubles) : Type 0 where
  -- `GEOSGeomCmp` leaves the two in either order
  pub same_geometry : ℕ → ℕ → Bool
  pub coordinates_of : ℕ → Point d
  pub create_point : Point d → ℕ

-- Removes every entry; `purgeAllCaches`.
unfoldable pub clear : {d : Doubles} → Caches d → Caches d
clear c = record c { cache = []; geom_to_wkt = [] }

module _ (d : Doubles) (proj : Proj d) (default_projection : Bytes)
    (geometries : Geometries d) where
  open geometries use {same_geometry, coordinates_of, create_point}

  abbrev pub grid_at : PlaceSpecification → Grid d
  grid_at ps = record {
    start_x = d.of_float ps.start_x_;
    start_y = d.of_float ps.start_y_;
    x_increment = d.of_float ps.x_increment_;
    y_increment = d.of_float ps.y_increment_;
    proj_definition = ps.proj_definition_;
  }

  abbrev no_entry : Entry d
  no_entry = record { lon_lat_to_geom = []; geom_to_lon_lat = [] }

  -- `GeometryCache::get`: an entry that is missing is added.
  unfoldable pub get_entry : PlaceSpecification → List (PlaceSpecification × Entry d) → Entry d
  get_entry ps [] = no_entry
  get_entry ps ((key, entry) ∷ cache) = if same_place key ps then entry else get_entry ps cache

  -- The cache with another entry for a place.
  unfoldable pub put_entry :
      PlaceSpecification
      → Entry d
      → List (PlaceSpecification × Entry d)
      → List (PlaceSpecification × Entry d)
  put_entry ps entry [] = (ps, entry) ∷ []
  put_entry ps entry ((key, old) ∷ cache) =
      let rest = put_entry ps entry cache in
      if same_place key ps then (key, entry) ∷ cache else (key, old) ∷ rest

  unfoldable pub get_geom : ℤ → ℤ → List ((ℤ × ℤ) × ℕ) → Option ℕ
  get_geom x y [] = none
  get_geom x y (((a, b), geom) ∷ geoms) =
      if eq_int64 a x && eq_int64 b y then some geom else get_geom x y geoms

  unfoldable pub get_lon_lat : ℕ → List (ℕ × Point d) → Option (Point d)
  get_lon_lat geom [] = none
  get_lon_lat geom ((key, p) ∷ points) =
      if same_geometry key geom then some p else get_lon_lat geom points

  unfoldable pub get_wkt : ℕ → List (ℕ × Bytes) → Option Bytes
  get_wkt geom [] = none
  get_wkt geom ((key, wkt) ∷ texts) =
      if same_geometry key geom then some wkt else get_wkt geom texts

  -- `setWkt`: the caller has not found a text for the geometry.
  unfoldable pub set_wkt : ℕ → Bytes → Caches d → Caches d
  set_wkt geom wkt c = record c { geom_to_wkt = (geom, wkt) ∷ c.geom_to_wkt }

  -- `getGeometry`, for positions that are whole.
  unfoldable pub get_geometry : PlaceSpecification → ℤ → ℤ → Caches d → Outcome ℕ × Caches d
  get_geometry ps x y c =
      let entry = get_entry ps c.cache in
      elim (get_geom x y entry.lon_lat_to_geom) [
        | some geom ↦ (ok geom, c)
        | none ↦
            let (transformed, kept) =
              wdb_transform d proj default_projection (grid_at ps) (d.of_int x) (d.of_int y)
                c.projections in
            elim transformed [
              | fail e ↦
                  (fail e, record c { cache = put_entry ps entry c.cache; projections = kept })
              | ok p ↦
                  let geom = create_point p in
                  let entry' = record entry {
                    lon_lat_to_geom = ((x, y), geom) ∷ entry.lon_lat_to_geom;
                  } in
                  (ok geom, record c { cache = put_entry ps entry' c.cache; projections = kept })
            ]
      ]

  -- `getExactIndex`
  unfoldable pub get_exact_index : PlaceSpecification → ℕ → Caches d → Outcome (Point d) × Caches d
  get_exact_index ps location c =
      let entry = get_entry ps c.cache in
      elim (get_lon_lat location entry.geom_to_lon_lat) [
        | some p ↦ (ok p, c)
        | none ↦
            let (transformed, kept) =
              r_transform d proj default_projection (grid_at ps) (coordinates_of location)
                c.projections in
            elim transformed [
              | fail e ↦
                  (fail e, record c { cache = put_entry ps entry c.cache; projections = kept })
              | ok p ↦
                  let entry' = record entry {
                    geom_to_lon_lat = (location, p) ∷ entry.geom_to_lon_lat;
                  } in
                  (ok p, record c { cache = put_entry ps entry' c.cache; projections = kept })
            ]
      ]
