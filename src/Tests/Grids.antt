-- ===== src/Tests/Grids.antt =====
-- Small grids, with numbers that are not negative counted in halves.
use wdb.Base.{
  ℕ, ◌+◌, ◌-◌, ◌*◌, ◌/◌, ◌%◌, ◌<◌, ◌==◌, ltb, leb, List, [], ◌∷◌, length, All, Bytes, codes, show_ℕ,
  true, false, some, ℤ, pos, ◌+ℤ◌, ◌-ℤ◌, pos_part, ok, fail, runtime_error, if◌then◌else◌, ◌≡◌, ◌≢◌,
  refl, ap, arith, int_laws, eq_of_parts,
}
use wdb.Read.Store.{GridPointData}
use wdb.Grid.{GridReader, index_from_xy, read_point}
use wdb.Grid.Doubles.{Doubles, RoundsWell}
use wdb.Grid.Projection.{Proj}
use wdb.Grid.Single.{read_surround, read_bilinear}
use wdb.Grid.Positions.{rectangle, read_all}
use wdb.Grid.Surround.{low, read_surround-read_all}
use wdb.Grid.Bilinear.{between, read_bilinear-between}
use wdb.Grid.Polygon.{coordinates, Geos, Grid, grid_points_in_polygon, read_in_polygon, too_many}
use wdb.Grid.Window.{IsInside, read_in_polygon-read_all}

abbrev pub halves : Doubles
halves = record {
  Double = ℕ;
  add = λ a b. a + b;
  neg = λ a. 0;
  sub = λ a b. a - b;
  mul = λ a b. a * b / 2;
  div = λ a b. a * 2 / b;
  lt = ltb;
  eq = λ a b. a == b;
  abs = λ a. a;
  floor = λ a. a / 2 * 2;
  ceil = λ a. (a + 1) / 2 * 2;
  of_int = λ z. pos_part z * 2;
  truncate = λ a. pos (a / 2 % 2147483648);
  of_float = λ bits. bits * 2;
  to_float = λ a. a / 2;
  half = 1;
  thousandth = 0;
  one = 2;
  modf = λ a. a / 2 * 2;
  deg_to_rad = 2;
  rad_to_deg = 2;
  huge_val = 1000;
  show = show_ℕ;
}

even : (v w : ℕ) → (v == w) ≡ true → v ≡ w
even v w h = ground arith

odd : (v w : ℕ) → (v == w) ≡ false → v ≢ w
odd v w h = ground arith

halves-RoundsWell : RoundsWell halves (λ v. v < 1000000)
halves-RoundsWell = record {
  floor_whole = λ v small h. ap pos (omega (arith, even v (v / 2 % 2147483648 * 2) h));
  ceil_whole = λ v small h. eq_of_parts _ _ (omega (int_laws, even v (v / 2 % 2147483648 * 2) h));
  ceil_between = λ v small h. eq_of_parts _ _ (omega (int_laws, odd v (v / 2 % 2147483648 * 2) h));
}

abbrev counting : GridReader
counting = record {
  x_number = 4;
  y_number = 3;
  get_geometry = λ x y. ok 77;
  read_float_from_file = λ data_id position. ok (pos_part position * 10);
}

read_surround-read_all_example :
    read_surround halves counting 3 2 (pos 1) (pos 9)
    ≡ read_all counting (pos 9) (
        rectangle 2 2
          (low halves counting 3 -ℤ (pos 1 -ℤ pos 1))
          (low halves counting 2 -ℤ (pos 1 -ℤ pos 1)))
read_surround-read_all_example =
    read_surround-read_all halves counting halves-RoundsWell 3 2 1 (pos 9) (omega arith)
      (omega arith) (omega arith) (omega arith)

abbrev corner : ℤ → ℤ → ℕ → GridPointData
corner x y value = record { location = some 77; value = value; x = x; y = y }

read_bilinear-between_example :
    read_bilinear halves counting 78 3 2 (pos 9)
    ≡ ok (
        between halves counting 78 3 2
          (some (corner (pos 1) (pos 1) 50))
          (some (corner (pos 2) (pos 1) 60))
          (some (corner (pos 1) (pos 2) 90))
          (some (corner (pos 2) (pos 2) 100)))
unfolding read_point index_from_xy ◌+ℤ◌
read_bilinear-between_example =
    read_bilinear-between halves counting halves-RoundsWell 78 3 2 (pos 9) _ _ _ _ (omega arith)
      (omega arith) refl refl refl refl

-- The triangle of the coordinates (1, 1), (3, 1) and (3, 3), with what lies on or above its long
-- side.
abbrev pub triangle : Geos halves
triangle = record {
  geometries = λ location. coordinates ((2, 2) ∷ (6, 2) ∷ (6, 6) ∷ (2, 2) ∷ []) ∷ [];
  intersects = λ location p. leb p.1 p.0;
}

abbrev pub plain : Proj halves
plain = record {
  accepts = λ definition. true;
  pj_transform = λ from to points. (pos 0, points);
  pj_strerrno = λ error. [];
}

abbrev pub utm : Grid halves
utm = record {
  start_x = 0;
  start_y = 0;
  x_increment = 2;
  y_increment = 2;
  proj_definition = codes "+proj=utm";
}

abbrev pub longlat : Bytes
longlat = codes "+proj=longlat"

abbrev in_triangle : List (ℤ × ℤ)
in_triangle =
    (pos 1, pos 1) ∷ (pos 2, pos 1) ∷ (pos 3, pos 1) ∷ (pos 2, pos 2) ∷ (pos 3, pos 2) ∷ []

points_in_triangle :
    grid_points_in_polygon halves plain longlat triangle utm counting 78 ≡ ok in_triangle
unfolding grid_points_in_polygon ◌+ℤ◌
points_in_triangle = refl

read_in_polygon-read_all_example :
    All (IsInside counting) in_triangle
    × (read_in_polygon halves plain longlat triangle utm counting 78 (pos 9) ≡ (
        if ltb 100000 (length in_triangle)
        then fail (runtime_error (too_many counting (length in_triangle)))
        else read_all counting (pos 9) in_triangle))
read_in_polygon-read_all_example =
    read_in_polygon-read_all halves plain longlat triangle utm counting 78 (pos 9) in_triangle
      (λ v. omega arith) (omega arith) (omega arith) points_in_triangle
