-- ===== src/Grid/Transform.antt =====
-- src/callInterface/core/projTransform.cpp: grid positions to longitude and latitude, and back;
-- with `round` of src/common/math/wdbMath.cpp.
use wdb.Base.{
  ℕ, zero, suc, ◌+◌, ◌*◌, ◌%◌, ◌^◌, not, List, [], ◌∷◌, ◌++◌, map, Bytes, codes, is_nil, pos,
  Outcome, ok, fail, undefined, ◌>>=◌, if◌then◌else◌,
}
use wdb.Grid.{x_from_index, y_from_index}
use wdb.Grid.Doubles.{Doubles}
use wdb.Grid.Projection.{Point, Proj, transform, scale, is_metric, get_wdb_projection}
use wdb.Grid.Polygon.{Grid}

-- `getProjDefinition`
unfoldable pub get_proj_definition : Bytes → Bytes → Bytes → Bytes
get_proj_definition proj earth_shape extra =
    codes "+proj="
    ++ proj
    ++ (if not (is_nil extra) then codes " " ++ extra else [])
    ++ codes " "
    ++ earth_shape
    ++ codes " +no_defs"

abbrev pub longlat_wgs84 : Bytes
longlat_wgs84 = get_proj_definition (codes "longlat") (codes "+ellps=WGS84") []

module _ (d : Doubles) where
  open d use {Double, add, sub, mul, div, lt, of_int, modf, deg_to_rad, rad_to_deg}

  -- `wdb::round`
  unfoldable pub round_decimals : Double → ℕ → Double
  round_decimals v precision =
      let complete5 = mul v (of_int (pos (10 ^ (precision + 1)))) in
      let shifted =
        if lt v (of_int (pos 0))
        then sub complete5 (of_int (pos 5))
        else add complete5 (of_int (pos 5)) in
      div (modf (div shifted (of_int (pos 10)))) (of_int (pos (10 ^ precision)))

  module _ (proj : Proj d) (default_projection : Bytes) (grid : Grid d) where
    open grid use {start_x, start_y, x_increment, y_increment, proj_definition}

    -- `from->transform(* to, …)` with the projections of two definitions, and the projections that
    -- are kept behind the calls.
    abbrev pub project :
        Bytes → Bytes → List (Point d) → List Bytes → Outcome (List (Point d)) × List Bytes
    project from to points projections =
        let (source, kept) = get_wdb_projection proj default_projection from projections in
        elim source [
          | fail e ↦ (fail e, kept)
          | ok f ↦
              let (target, kept') = get_wdb_projection proj default_projection to kept in
              (target >>= λ t. transform d proj default_projection f t points, kept')
        ]

    abbrev rounded : Point d → Point d
    rounded p = (round_decimals (mul p.0 rad_to_deg) 4, round_decimals (mul p.1 rad_to_deg) 4)

    unfoldable pub transform_ : List (Point d) → List Bytes → Outcome (List (Point d)) × List Bytes
    unfolding round_decimals transform get_wdb_projection get_proj_definition
    transform_ points projections =
        let radians =
          if not (is_metric proj_definition)
          then map (scale d proj default_projection deg_to_rad) points
          else points in
        let (transformed, kept) = project proj_definition longlat_wgs84 radians projections in
        (transformed >>= λ ps. ok (map rounded ps), kept)

    -- The position of an index in the projection of the grid.
    abbrev pub on_grid : Double → Double → Point d
    on_grid i j = (add start_x (mul i x_increment), add start_y (mul j y_increment))

    abbrev pub only_point : Outcome (List (Point d)) → Outcome (Point d)
    only_point m = m >>= elim [ [] ↦ fail (undefined (codes "no point")) | p ∷ more ↦ ok p ]

    unfoldable pub wdb_transform : Double → Double → List Bytes → Outcome (Point d) × List Bytes
    unfolding transform_
    wdb_transform i j projections =
        let (points, kept) = transform_ (on_grid i j ∷ []) projections in (only_point points, kept)

    -- The indices below `elements`, from `index` on.
    abbrev plain_points : (left : ℕ) → ℕ → ℕ → List (Point d)
    plain_points zero index x_number = []
    plain_points (suc left) index x_number =
        on_grid (of_int (x_from_index (pos index) x_number))
          (of_int (y_from_index (pos index) x_number))
        ∷ plain_points left (suc index) x_number

    -- `elements` is a product of `unsigned`s.
    unfoldable pub transform_all : ℕ → ℕ → List Bytes → Outcome (List (Point d)) × List Bytes
    unfolding transform_ x_from_index y_from_index
    transform_all x_number y_number projections =
        transform_ (plain_points (x_number * y_number % 2 ^ 32) 0 x_number) projections

    unfoldable pub r_transform : Point d → List Bytes → Outcome (Point d) × List Bytes
    unfolding transform get_wdb_projection get_proj_definition
    r_transform coords projections =
        let (points, kept) =
          project longlat_wgs84 proj_definition
            (scale d proj default_projection deg_to_rad coords ∷ []) projections in
        (
          only_point points >>= λ p.
              let q =
                if not (is_metric proj_definition)
                then scale d proj default_projection rad_to_deg p
                else p in
              ok (div (sub q.0 start_x) x_increment, div (sub q.1 start_y) y_increment),
          kept,
        )
