-- ===== src/Grid.antt =====
-- Reading points out of a field on a grid, src/callInterface/core/wciRead/extractGridData. Here:
-- the index functions of src/common/projection/WdbProjection.h and wdbProjectionCInterface.h, and
-- BaseDataReader.cpp.
pub mod Index
pub mod Doubles
pub mod Projection
pub mod Single
pub mod Positions
pub mod Surround
pub mod Bilinear
pub mod Fields
pub mod Polygon
pub mod Window
pub mod Transform
pub mod Points
pub mod Stored
pub mod Kept
pub mod Rotate
pub mod Geometry
pub mod Corners
pub mod Cache
pub mod Remembered
use wdb.Base.{
  ℕ, zero, suc, ◌+◌, ◌-◌, ◌*◌, ◌/◌, ◌%◌, ◌^◌, ltb, leb, Bool, true, false, not, ◌||◌, Option, none,
  some, if◌then◌else◌, ℤ, pos, negsuc, Outcome, ok, fail, ◌>>=◌,
}
use wdb.Read.Store.{GridPointData}

-- The bits of an `int` as an `unsigned`, and back.
unfoldable pub to_unsigned : ℤ → ℕ
to_unsigned (pos n) = n % 2 ^ 32
to_unsigned (negsuc n) = 2 ^ 32 - 1 - n % 2 ^ 32

unfoldable pub to_int : ℕ → ℤ
to_int n = if ltb n (2 ^ 31) then pos n else negsuc (2 ^ 32 - 1 - n)

-- `x_from_index`, `y_from_index` and `index_from_xy` with the numbers of points, which are
-- `unsigned`, so that the arithmetic is. A division by zero is undefined; here it gives 0.
unfoldable pub x_from_index : ℤ → ℕ → ℤ
unfolding to_unsigned to_int
x_from_index index x_number = to_int (to_unsigned index % x_number)

unfoldable pub y_from_index : ℤ → ℕ → ℤ
unfolding to_unsigned to_int
y_from_index index x_number = to_int (to_unsigned index / x_number)

unfoldable pub index_from_xy : ℤ → ℤ → ℕ → ℤ
unfolding to_unsigned to_int
index_from_xy x y x_number = to_int ((to_unsigned y * x_number + to_unsigned x) % 2 ^ 32)

-- What BaseDataReader has of a place: the size of its grid, and the other parts that it reads by.
pub record GridReader : Type 0 where
  pub x_number : ℕ
  pub y_number : ℕ
  -- `getGeometry`: the point of a grid position
  pub get_geometry : ℤ → ℤ → Outcome ℕ
  -- `readFloatFromFile`
  pub read_float_from_file : ℤ → ℤ → Outcome ℕ

-- `c < 0 or c >= number`
abbrev pub outside : ℤ → ℕ → Bool
outside (pos n) number = leb number n
outside (negsuc n) number = true

module _ (r : GridReader) where
  -- `indexRefersToPointOutsideFile`, for indices that are whole.
  unfoldable pub index_refers_to_point_outside_file : ℤ → ℤ → Bool
  index_refers_to_point_outside_file x y = outside x r.x_number || outside y r.y_number

  -- `readPoint`: `none` is false, and the point is `out`.
  unfoldable pub read_point : ℤ → ℤ → ℤ → Outcome (Option GridPointData)
  unfolding index_refers_to_point_outside_file
  read_point x y data_id =
      if index_refers_to_point_outside_file x y
      then ok none
      else r.get_geometry x y >>= λ location.
          r.read_float_from_file data_id (index_from_xy x y r.x_number) >>= λ value.
          ok (some (record { location = some location; value = value; x = x; y = y }))
