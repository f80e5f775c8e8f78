-- ===== src/Grid/Index.antt =====
-- The index functions of src/common/projection/wdbProjectionCInterface.h: positions in a grid and
-- in its file.
use wdb.Base.{ℕ, ◌+◌, ◌*◌, ◌/◌, ◌%◌, ltb, true, ◌≡◌, refl, ◌<◌, ◌≤◌, arith, pos, lt→ltb}
use wdb.Grid.{x_from_index, y_from_index, index_from_xy}

row_bound :
    (x y x_number y_number : ℕ)
    → x < x_number
    → y < y_number
    → y * x_number + x < x_number * y_number
row_bound x y x_number y_number p q = grind arith

row_column : (x y x_number : ℕ) → x < x_number → (y * x_number + x) % x_number ≡ x
row_column x y x_number h = grind arith

row_row : (x y x_number : ℕ) → x < x_number → (y * x_number + x) / x_number ≡ y
row_row x y x_number h = grind arith

y-le : (x y x_number : ℕ) → x < x_number → y ≤ y * x_number
y-le x y x_number h = grind arith

pub index_from_xy-pos :
    (x y x_number y_number : ℕ)
    → x < x_number
    → y < y_number
    → x_number * y_number ≤ 2147483648
    → index_from_xy (pos x) (pos y) x_number ≡ pos (y * x_number + x)
unfolding index_from_xy
index_from_xy-pos x y x_number y_number p q small =
    let bound = row_bound x y x_number y_number p q in
    let ey : y % 4294967296 ≡ y = omega (arith, y-le x y x_number p) in
    let ex : x % 4294967296 ≡ x = omega arith in
    let e : (y * x_number + x) % 4294967296 ≡ y * x_number + x = omega arith in
    let below : ltb (y * x_number + x) 2147483648 ≡ true = lt→ltb _ _ (omega arith) in
    rw (ey, ex, e, below) refl

-- In a grid of at most 2^31 points, each position has an index below the number of points, and the
-- position is computed back from its index.
pub x_y_from_index-index_from_xy :
    (x y x_number y_number : ℕ)
    → x < x_number
    → y < y_number
    → x_number * y_number ≤ 2147483648
    → (i : ℕ) × (index_from_xy (pos x) (pos y) x_number ≡ pos i)
      × (i < x_number * y_number)
      × (x_from_index (pos i) x_number ≡ pos x)
      × (y_from_index (pos i) x_number ≡ pos y)
unfolding x_from_index y_from_index
x_y_from_index-index_from_xy x y x_number y_number p q small =
    let i = y * x_number + x in
    let bound = row_bound x y x_number y_number p q in
    let e : i % 4294967296 ≡ i = omega arith in
    let px : ltb x 2147483648 ≡ true = lt→ltb _ _ (omega arith) in
    let py : ltb y 2147483648 ≡ true = lt→ltb _ _ (omega (arith, y-le x y x_number p)) in
    (
      i,
      index_from_xy-pos x y x_number y_number p q small,
      bound,
      rw (e, row_column x y x_number p, px) refl,
      rw (e, row_row x y x_number p, py) refl,
    )
