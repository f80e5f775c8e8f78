-- ===== src/Grid/Polygon.antt =====
-- src/callInterface/core/wciRead/extractGridData/PolygonReader.cpp: the values of a field inside
-- polygons. The geometries of GEOS are a parameter.
use wdb.Base.{
  ℕ, zero, suc, ◌+◌, ◌-◌, ltb, Bool, not, List, [], ◌∷◌, ◌++◌, Bytes, codes, show_ℕ, Option, none,
  some, ℤ, pos, negsuc, ◌+ℤ◌, pos_part, neg_part, Outcome, ok, fail, runtime_error, undefined,
  ◌>>=◌, if◌then◌else◌,
}
use wdb.Read.Store.{GridPointData}
use wdb.Grid.{GridReader, to_unsigned, to_int, index_refers_to_point_outside_file, read_point}
use wdb.Grid.Doubles.{Doubles}
use wdb.Grid.Projection.{
  Point, Proj, wdb_projection, transform_to_default, transform_from_default, scale, is_metric,
}

-- What GEOS has of one of the geometries of a location, up to the coordinates of its outer ring.
pub data Outline {ℓ} (A : Type ℓ) : Type ℓ where
  null_geometry null_ring null_sequence no_size : Outline A
  coordinates : List A → Outline A

pub record Geos (d : Doubles) : Type 0 where
  pub geometries : ℕ → List (Outline (Point d))
  -- `GEOSIntersects` of a geometry and a point is 1
  pub intersects : ℕ → Point d → Bool

-- The rest of `struct PlaceSpecification`.
pub record Grid (d : Doubles) : Type 0 where
  pub start_x : d.Double
  pub start_y : d.Double
  pub x_increment : d.Double
  pub y_increment : d.Double
  pub proj_definition : Bytes

-- The bits of four `float`s.
pub record BoundingBox : Type 0 where
  pub left_ : ℕ
  pub bottom_ : ℕ
  pub top_ : ℕ
  pub right_ : ℕ

-- The rounds of `for (i = a; i < b; i++)`.
abbrev pub rounds_below : ℤ → ℤ → ℕ
rounds_below a b = pos_part b + neg_part a - (pos_part a + neg_part b)

module _ (d : Doubles) (proj : Proj d) (default_projection : Bytes) (geos : Geos d)
    (grid : Grid d) where
  open d use {
    Double, add, sub, mul, div, lt, truncate, of_int, of_float, to_float, one, deg_to_rad,
    rad_to_deg,
  }
  open grid use {start_x, start_y, x_increment, y_increment, proj_definition}

  -- The only point of a transformation of one point.
  abbrev one_point : Outcome (List (Point d)) → Outcome (Point d)
  one_point m = m >>= elim [ [] ↦ fail (undefined (codes "no point")) | p ∷ more ↦ ok p ]

  -- A coordinate in the projection of the grid.
  unfoldable pub to_grid : Point d → Outcome (Point d)
  unfolding wdb_projection transform_from_default
  to_grid p =
      let p1 =
        if not (is_metric default_projection)
        then scale d proj default_projection deg_to_rad p
        else p in
      one_point (transform_from_default d proj default_projection proj_definition (p1 ∷ []))
      >>= λ p2. ok (
          if not (is_metric proj_definition)
          then scale d proj default_projection rad_to_deg p2
          else p2)

  abbrev pub extend : BoundingBox → Point d → BoundingBox
  extend box (lon, lat) = record {
    left_ = if lt lon (of_float box.left_) then to_float lon else box.left_;
    right_ =
        if lt lon (of_float box.left_)
        then box.right_
        else if lt (of_float box.right_) lon
        then to_float lon
        else box.right_;
    bottom_ = if lt lat (of_float box.bottom_) then to_float lat else box.bottom_;
    top_ =
        if lt lat (of_float box.bottom_)
        then box.top_
        else if lt (of_float box.top_) lat
        then to_float lat
        else box.top_;
  }

  -- The loop over the coordinates of a ring behind its first.
  unfoldable pub extend_all : BoundingBox → List (Point d) → Outcome BoundingBox
  unfolding to_grid
  extend_all box [] = ok box
  extend_all box (p ∷ ps) = to_grid p >>= λ q. extend_all (extend box q) ps

  abbrev around : Point d → BoundingBox
  around (lon, lat) = record {
    left_ = to_float lon;
    top_ = to_float lat;
    right_ = to_float lon;
    bottom_ = to_float lat;
  }

  -- The body of the loop over the geometries, with the box of those before, if there are any.
  unfoldable pub ring_bounds : Option BoundingBox → Outline (Point d) → Outcome BoundingBox
  unfolding wdb_projection extend_all
  ring_bounds box null_geometry = fail (runtime_error (codes "Multigeometry returned is NULL"))
  ring_bounds box null_ring = fail (runtime_error (codes "Outer ring of polygon/shape is NULL."))
  ring_bounds box null_sequence =
      fail (runtime_error (codes "Coordinate sequence of polygon/shape returned NULL"))
  ring_bounds box no_size =
      fail (runtime_error (codes "Error when getting size of outer ring of polygon/shape"))
  ring_bounds box (coordinates ps) =
      wdb_projection d proj default_projection proj_definition >>= λ prj. elim ps [
        | [] ↦ fail (undefined (codes "no coordinate"))
        | p ∷ rest ↦ to_grid p >>= λ q. extend_all (elim box [ none ↦ around q | some b ↦ b ]) rest
      ]

  -- `getBounds`: without geometries the box is not initialized.
  unfoldable pub get_bounds : Option BoundingBox → List (Outline (Point d)) → Outcome BoundingBox
  unfolding ring_bounds
  get_bounds none [] = fail (undefined (codes "bounds not initialized"))
  get_bounds (some box) [] = ok box
  get_bounds box (g ∷ gs) = ring_bounds box g >>= λ b. get_bounds (some b) gs

  -- `startI`, and `startJ` with the other axis.
  abbrev pub window_start : ℕ → Double → Double → ℤ
  window_start bound start increment =
      elim (truncate (div (sub (of_float bound) start) increment)) [
        | pos n ↦ pos n
        | negsuc n ↦ pos 0
      ]

  -- `endI`: the comparison with the `unsigned` number of columns is unsigned.
  abbrev pub window_end : ℕ → Double → Double → ℕ → ℤ
  window_end bound start increment number =
      let end = truncate (add (div (sub (of_float bound) start) increment) one) in
      if ltb number (to_unsigned end) then to_int number else end

  -- The position of a column and a row in the default projection.
  unfoldable pub grid_point : ℤ → ℤ → Outcome (Point d)
  unfolding wdb_projection transform_to_default
  grid_point i j =
      let p : Point d =
        (add start_x (mul (of_int i) x_increment), add start_y (mul (of_int j) y_increment)) in
      wdb_projection d proj default_projection proj_definition >>= λ prj.
      one_point (
        transform_to_default d proj default_projection prj (
          (if not (is_metric proj_definition)
            then scale d proj default_projection deg_to_rad p
            else p)
          ∷ []))
      >>= λ q. ok (
          if not (is_metric default_projection)
          then scale d proj default_projection rad_to_deg q
          else q)

  unfoldable pub points_in_row : ℕ → (left : ℕ) → ℤ → ℤ → Outcome (List (ℤ × ℤ))
  unfolding grid_point
  points_in_row location zero i j = ok []
  points_in_row location (suc left) i j = grid_point i j >>= λ q.
      points_in_row location left (i +ℤ pos 1) j >>= λ rest.
      ok (if geos.intersects location q then (i, j) ∷ rest else rest)

  unfoldable pub points_in_rows : ℕ → (columns left : ℕ) → ℤ → ℤ → Outcome (List (ℤ × ℤ))
  unfolding points_in_row
  points_in_rows location columns zero i j = ok []
  points_in_rows location columns (suc left) i j = points_in_row location columns i j >>= λ row.
      points_in_rows location columns left i (j +ℤ pos 1) >>= λ rest. ok (row ++ rest)

  -- `gridPointsInPolygon`
  unfoldable pub grid_points_in_polygon : GridReader → ℕ → Outcome (List (ℤ × ℤ))
  unfolding get_bounds points_in_rows to_unsigned to_int
  grid_points_in_polygon r location = get_bounds none (geos.geometries location) >>= λ bounds.
      let start_i = window_start bounds.left_ start_x x_increment in
      let end_i = window_end bounds.right_ start_x x_increment r.x_number in
      let start_j = window_start bounds.bottom_ start_y y_increment in
      let end_j = window_end bounds.top_ start_y y_increment r.y_number in
      points_in_rows location (rounds_below start_i end_i) (rounds_below start_j end_j) start_i
        start_j

module _ (r : GridReader) where
  unfoldable pub count_inside : List (ℤ × ℤ) → ℕ
  unfolding index_refers_to_point_outside_file
  count_inside [] = 0
  count_inside ((x, y) ∷ points) =
      if index_refers_to_point_outside_file r x y
      then count_inside points
      else suc (count_inside points)

  -- The loop that fills the list, with `left` entries to go.
  unfoldable pub fill : ℤ → (left : ℕ) → List (ℤ × ℤ) → Outcome (List GridPointData)
  unfolding read_point
  fill data_id left [] = ok []
  fill data_id zero (p ∷ points) = ok []
  fill data_id (suc left) ((x, y) ∷ points) = read_point r x y data_id >>= elim [
    | none ↦ fill data_id (suc left) points
    | some p ↦ fill data_id left points >>= λ rest. ok (p ∷ rest)
  ]

  abbrev pub too_many : ℕ → Bytes
  too_many n =
      codes "Too many rows to return! A single field will return "
      ++ show_ℕ n
      ++ codes " rows, but maximum is "
      ++ show_ℕ 100000

  unfoldable pub read_polygon : List (ℤ × ℤ) → ℤ → Outcome (List GridPointData)
  unfolding count_inside fill
  read_polygon points data_id =
      let n = count_inside points in
      if ltb 100000 n then fail (runtime_error (too_many n)) else fill data_id n points

-- `PolygonReader::read`
unfoldable pub read_in_polygon :
    (d : Doubles)
    → Proj d
    → Bytes
    → Geos d
    → Grid d
    → GridReader
    → ℕ
    → ℤ
    → Outcome (List GridPointData)
unfolding grid_points_in_polygon read_polygon
read_in_polygon d proj default_projection geos grid r location data_id =
    grid_points_in_polygon d proj default_projection geos grid r location
    >>= elim [ [] ↦ ok [] | p ∷ points ↦ read_polygon r (p ∷ points) data_id ]
