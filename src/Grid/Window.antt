-- ===== src/Grid/Window.antt =====
-- The positions that src/callInterface/core/wciRead/extractGridData/PolygonReader.cpp visits lie in
-- the grid, and their points are read in order.
use wdb.Base.{
  ℕ, zero, suc, ◌-◌, ◌<◌, ◌≤◌, ltb, Bool, true, false, List, [], ◌∷◌, ◌++◌, length, Bytes, All,
  All-append, none, some, ℤ, pos, negsuc, ◌+ℤ◌, pos_part, Failure, ◌⊎◌, Outcome, Outcome-cases, ok,
  fail, runtime_error, ◌>>=◌, bind-eq-ok, if◌then◌else◌, ◌≡◌, refl, ◌∙◌, sym, arith, inl, inr,
  int_laws, eq_of_parts,
}
use wdb.Read.Store.{GridPointData}
use wdb.Grid.{
  GridReader, to_unsigned, to_int, index_refers_to_point_outside_file, read_point, index_from_xy,
}
use wdb.Grid.Doubles.{Doubles}
use wdb.Grid.Projection.{Proj}
use wdb.Grid.Positions.{read_all}
use wdb.Grid.Polygon.{
  Geos, Grid, rounds_below, window_end, get_bounds, grid_point, points_in_row, points_in_rows,
  grid_points_in_polygon, count_inside, fill, read_polygon, too_many, read_in_polygon,
}

-- A position inside the grid.
abbrev pub IsInside : GridReader → ℤ × ℤ → Type 0
IsInside r (x, y) = index_refers_to_point_outside_file r x y ≡ false

module _ (r : GridReader) (data_id : ℤ) where
  read_point-inside :
      (x y : ℤ)
      → index_refers_to_point_outside_file r x y ≡ false
      → ((p : GridPointData) × (read_point r x y data_id ≡ ok (some p)))
        ⊎ ((f : Failure) × (read_point r x y data_id ≡ fail f))
  unfolding read_point
  read_point-inside x y h = elim (Outcome-cases (r.get_geometry x y)) [
    | inr (f, e) ↦ inr (f, rw (h, e) refl)
    | inl (g, e) ↦
        elim (Outcome-cases (r.read_float_from_file data_id (index_from_xy x y r.x_number))) [
          | inr (f, e') ↦ inr (f, rw (h, e, ◌>>=◌, e') refl)
          | inl (v, e') ↦
              inl (record { location = some g; value = v; x = x; y = y }, rw (h, e, ◌>>=◌, e') refl)
        ]
  ]

  fill-read_all :
      (points : List (ℤ × ℤ))
      → All (IsInside r) points
      → fill r data_id (length points) points ≡ read_all r data_id points
  unfolding fill read_all
  fill-read_all [] h = refl
  fill-read_all ((x, y) ∷ points) (h, hs) = elim (read_point-inside x y h) [
    | inr (f, e) ↦ rw e refl
    | inl (p, e) ↦ rw (e, fill-read_all points hs) refl
  ]

  count_inside-length :
      (points : List (ℤ × ℤ)) → All (IsInside r) points → count_inside r points ≡ length points
  unfolding count_inside
  count_inside-length [] h = refl
  count_inside-length ((x, y) ∷ points) (h, hs) = rw (h, count_inside-length points hs) refl

next_pos : (a : ℕ) → pos a +ℤ pos 1 ≡ pos (suc a)
next_pos a = eq_of_parts _ _ (omega int_laws)

clip_start : (z : ℤ) → (a : ℕ) × (elim z as (λ x. ℤ) [ pos n ↦ pos n | negsuc n ↦ pos 0 ] ≡ pos a)
clip_start (pos n) = (n, refl)
clip_start (negsuc n) = (0, refl)

clip_end :
    (z : ℤ) (number : ℕ)
    → number < 2147483648
    → pos_part z < 2147483648
    → pos_part (if ltb number (to_unsigned z) then to_int number else z) ≤ number
unfolding to_unsigned to_int
clip_end (pos n) number h h' = ground arith
clip_end (negsuc n) number h h' = ground arith

rounds_below-bound :
    (a number : ℕ) (z : ℤ) → pos_part z ≤ number → rounds_below (pos a) z ≤ number - a
rounds_below-bound a number z h = omega arith

module _ (d : Doubles) (proj : Proj d) (default_projection : Bytes) (geos : Geos d) (grid : Grid d)
    (r : GridReader) where
  both-IsInside : (a b : ℕ) → a < r.x_number → b < r.y_number → IsInside r (pos a, pos b)
  unfolding index_refers_to_point_outside_file
  both-IsInside a b p q = ground arith

  chosen-IsInside :
      (chosen : Bool) (p : ℤ × ℤ) (rest points : List (ℤ × ℤ))
      → IsInside r p
      → All (IsInside r) rest
      → ok (if chosen then p ∷ rest else rest) ≡ ok points
      → All (IsInside r) points
  chosen-IsInside true p rest points h hs e =
      let same : p ∷ rest ≡ points = cc in rw (sym same) (h, hs)
  chosen-IsInside false p rest points h hs e = let same : rest ≡ points = cc in rw (sym same) hs

  points_in_row-IsInside :
      (location left a b : ℕ) (points : List (ℤ × ℤ))
      → left ≤ r.x_number - a
      → b < r.y_number
      → points_in_row d proj default_projection geos grid location left (pos a) (pos b) ≡ ok points
      → All (IsInside r) points
  unfolding points_in_row
  points_in_row-IsInside location zero a b points p q h = let e : [] ≡ points = cc in rw (sym e) tt
  points_in_row-IsInside location (suc left) a b points p q h =
      let (point, _, h1) =
        bind-eq-ok (grid_point d proj default_projection geos grid (pos a) (pos b)) _ h in
      let (rest, later, h2) =
        bind-eq-ok
          (points_in_row d proj default_projection geos grid location left (pos a +ℤ pos 1) (pos b))
          _ h1 in
      let inside =
        points_in_row-IsInside location left (suc a) b rest (omega arith) q
          (rw (sym (next_pos a)) later) in
      chosen-IsInside (geos.intersects location point) (pos a, pos b) rest points
        (both-IsInside a b (omega arith) q) inside h2

  points_in_rows-IsInside :
      (location columns left a b : ℕ) (points : List (ℤ × ℤ))
      → columns ≤ r.x_number - a
      → left ≤ r.y_number - b
      → points_in_rows d proj default_projection geos grid location columns left (pos a) (pos b)
        ≡ ok points
      → All (IsInside r) points
  unfolding points_in_rows
  points_in_rows-IsInside location columns zero a b points p q h =
      let e : [] ≡ points = cc in rw (sym e) tt
  points_in_rows-IsInside location columns (suc left) a b points p q h =
      let (row, here, h1) =
        bind-eq-ok
          (points_in_row d proj default_projection geos grid location columns (pos a) (pos b)) _
          h in
      let (rest, later, h2) =
        bind-eq-ok
          (points_in_rows d proj default_projection geos grid location columns left (pos a)
            (pos b +ℤ pos 1))
          _ h1 in
      let inside =
        points_in_rows-IsInside location columns left a (suc b) rest p (omega arith)
          (rw (sym (next_pos b)) later) in
      let first = points_in_row-IsInside location columns a b row p (omega arith) here in
      let same : row ++ rest ≡ points = cc in
      rw (sym same) (All-append (IsInside r) row rest first inside)

  -- The window lies within the grid, where the conversion to `int` gives an `int`.
  grid_points_in_polygon-IsInside :
      (location : ℕ) (points : List (ℤ × ℤ))
      → ((v : d.Double) → pos_part (d.truncate v) < 2147483648)
      → r.x_number < 2147483648
      → r.y_number < 2147483648
      → grid_points_in_polygon d proj default_projection geos grid r location ≡ ok points
      → All (IsInside r) points
  unfolding grid_points_in_polygon
  grid_points_in_polygon-IsInside location points is_int x_small y_small h =
      let (bounds, _, h1) =
        bind-eq-ok (get_bounds d proj default_projection geos grid none (geos.geometries location))
          _ h in
      let (a, ea) =
        clip_start
          (d.truncate (d.div (d.sub (d.of_float bounds.left_) grid.start_x) grid.x_increment)) in
      let (b, eb) =
        clip_start
          (d.truncate (d.div (d.sub (d.of_float bounds.bottom_) grid.start_y) grid.y_increment)) in
      let end_i =
        window_end d proj default_projection geos grid bounds.right_ grid.start_x grid.x_increment
          r.x_number in
      let end_j =
        window_end d proj default_projection geos grid bounds.top_ grid.start_y grid.y_increment
          r.y_number in
      points_in_rows-IsInside location (rounds_below (pos a) end_i) (rounds_below (pos b) end_j) a b
        points (rounds_below-bound a r.x_number end_i (clip_end _ r.x_number x_small (is_int _)))
        (rounds_below-bound b r.y_number end_j (clip_end _ r.y_number y_small (is_int _)))
        (rw (ea, eb) at h1)

read_polygon-read_all :
    (r : GridReader) (data_id : ℤ) (points : List (ℤ × ℤ))
    → All (IsInside r) points
    → read_polygon r points data_id ≡ (
        if ltb 100000 (length points)
        then fail (runtime_error (too_many r (length points)))
        else read_all r data_id points)
unfolding read_polygon
read_polygon-read_all r data_id points inside =
    rw (count_inside-length r data_id points inside, fill-read_all r data_id points inside) refl

-- No points are read as those of the empty list are.
read_polygon-any :
    (r : GridReader) (data_id : ℤ) (points : List (ℤ × ℤ))
    → (elim points as (λ ps. Outcome (List GridPointData)) [
      | [] ↦ ok []
      | p ∷ ps ↦ read_polygon r (p ∷ ps) data_id
    ])
      ≡ read_polygon r points data_id
unfolding read_polygon
read_polygon-any r data_id [] = refl
read_polygon-any r data_id (p ∷ ps) = refl

-- The positions that a polygon asks for all lie inside the grid, where converting a number to an
-- `int` gives one below 2^31 and the grid has less than 2^31 columns and rows: so, if they are
-- found, reading a polygon fails when they are more than 100000, with their number in the
-- message, and otherwise reads the points at all of them in their order.
pub read_in_polygon-read_all :
    (d : Doubles) (proj : Proj d) (default_projection : Bytes) (geos : Geos d) (grid : Grid d)
    (r : GridReader) (location : ℕ) (data_id : ℤ) (points : List (ℤ × ℤ))
    → ((v : d.Double) → pos_part (d.truncate v) < 2147483648)
    → r.x_number < 2147483648
    → r.y_number < 2147483648
    → grid_points_in_polygon d proj default_projection geos grid r location ≡ ok points
    → All (IsInside r) points
      × (read_in_polygon d proj default_projection geos grid r location data_id ≡ (
          if ltb 100000 (length points)
          then fail (runtime_error (too_many r (length points)))
          else read_all r data_id points))
unfolding read_in_polygon
read_in_polygon-read_all d proj default_projection geos grid r location data_id points is_int
      x_small y_small h =
    let inside =
      grid_points_in_polygon-IsInside d proj default_projection geos grid r location points is_int
        x_small y_small h in
    (
      inside,
      rw (h, ◌>>=◌)
          (read_polygon-any r data_id points ∙ read_polygon-read_all r data_id points inside),
    )
