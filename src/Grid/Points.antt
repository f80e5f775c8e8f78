-- ===== src/Grid/Points.antt =====
-- The points of a field at a location: readPoints.cpp of
-- src/callInterface/core/wciRead/extractGridData, over its readers, and `getValues` of
-- src/callInterface/core/wciRead/getData.c.
use wdb.Base.{
  ℕ, List, [], Bytes, codes, Option, none, some, ℤ, Outcome, ok, fail, runtime_error,
  data_exception, catch_as, ◌>>=◌,
}
use wdb.Spec.Place.{InterpolationType}
use wdb.Read.Store.{GridPointData}
use wdb.Read.Places.{PlaceSpecification, get_place_specification}
use wdb.Grid.{GridReader}
use wdb.Grid.Doubles.{Doubles}
use wdb.Grid.Projection.{Point, Proj, wdb_projection}
use wdb.Grid.Single.{read_single}
use wdb.Grid.Polygon.{Geos, Grid, read_in_polygon}

-- `GEOSGeomTypeId`
pub data GeometryType : Type 0 where
  point_type polygon_type multi_polygon_type other_type : GeometryType

-- The libraries that the readers use, the storage of the values, and `getGeometry` and
-- `getExactIndex`, which are in Cache with the caches that they go through.
pub record Source : Type 1 where
  pub d : Doubles
  pub proj : Proj d
  pub default_projection : Bytes
  pub geos : Geos d
  pub geom_type_id : ℕ → GeometryType
  pub get_geometry : PlaceSpecification → ℤ → ℤ → Outcome ℕ
  pub get_exact_index : PlaceSpecification → ℕ → Outcome (Point d)
  pub read_float_from_file : ℤ → ℤ → Outcome ℕ

module _ (source : Source) where
  open source use {
    d, proj, default_projection, geos, geom_type_id, get_geometry, get_exact_index,
    read_float_from_file,
  }

  -- A place as its reader sees it. The numbers of the place are the bits of `float`s.
  abbrev pub grid_of : PlaceSpecification → Grid d
  grid_of ps = record {
    start_x = d.of_float ps.start_x_;
    start_y = d.of_float ps.start_y_;
    x_increment = d.of_float ps.x_increment_;
    y_increment = d.of_float ps.y_increment_;
    proj_definition = ps.proj_definition_;
  }

  abbrev pub reader_of : PlaceSpecification → GridReader
  reader_of ps = record {
    x_number = ps.x_number_;
    y_number = ps.y_number_;
    get_geometry = get_geometry ps;
    read_float_from_file = read_float_from_file;
  }

  -- `BaseDataReader::getInstance`: a reader, kept or new, depends on its place alone.
  unfoldable pub get_instance : PlaceSpecification → Outcome GridReader
  unfolding wdb_projection
  get_instance ps =
      wdb_projection d proj default_projection ps.proj_definition_ >>= λ prj. ok (reader_of ps)

  -- The guarded block of `readPoints`.
  unfoldable pub points_at :
      PlaceSpecification
      → GridReader
      → Option ℕ
      → InterpolationType
      → ℤ
      → ℤ
      → Outcome (List GridPointData)
  unfolding read_single read_in_polygon
  points_at ps r none interpolation interpolation_param data_id = ok []
  points_at ps r (some location) interpolation interpolation_param data_id =
      elim (geom_type_id location) [
        | point_type ↦
            read_single d r (get_exact_index ps location) location interpolation interpolation_param
              data_id
        | polygon_type ↦
            read_in_polygon d proj default_projection geos (grid_of ps) r location data_id
        | multi_polygon_type ↦
            read_in_polygon d proj default_projection geos (grid_of ps) r location data_id
        | other_type ↦ fail (runtime_error (codes "This geometry type is not supported"))
      ]

  -- `readPoints`: `getInstance` is called in front of the guarded block.
  unfoldable pub read_points :
      PlaceSpecification → Option ℕ → InterpolationType → ℤ → ℤ → Outcome (List GridPointData)
  unfolding get_instance points_at catch_as
  read_points ps location interpolation interpolation_param data_id = get_instance ps >>= λ r.
      catch_as data_exception (points_at ps r location interpolation interpolation_param data_id)

  -- `getValues`, for a place that `getPlaceSpecification` looks up: the points, and the table of
  -- places behind the call.
  unfoldable pub get_values :
      (ℤ → Outcome (Option PlaceSpecification))
      → List (ℤ × PlaceSpecification)
      → Option ℕ
      → InterpolationType
      → ℤ
      → (placeid dataid : ℤ) → Outcome (Option (List GridPointData)) × List (ℤ × PlaceSpecification)
  unfolding get_place_specification read_points
  get_values database table location interpolation interpolation_param placeid dataid =
      let (found, kept) = get_place_specification database placeid table in
      (
        found >>= elim [
          | none ↦ ok none
          | some ps ↦ read_points ps location interpolation interpolation_param dataid >>= λ points.
              ok (some points)
        ],
        kept,
      )
