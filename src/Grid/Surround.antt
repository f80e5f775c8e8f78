-- ===== src/Grid/Surround.antt =====
-- The square of grid points around a place, `readSurround_` of
-- src/callInterface/core/wciRead/extractGridData/SinglePointReader.cpp.
use wdb.Base.{
  ℕ, ◌*◌, ◌≤◌, ◌<◌, [], ℤ, pos, ◌+ℤ◌, ◌-ℤ◌, rounds_to, ◌>>=◌, bind_ok, ◌≡◌, refl, arith, int_laws,
  inl, inr, lt→ltb, Bool-cases, if◌then◌else◌,
}
use wdb.Grid.{GridReader}
use wdb.Grid.Doubles.{Doubles, RoundsWell, is_whole}
use wdb.Grid.Positions.{rectangle, read_all, read_rows-read_all}
use wdb.Grid.Single.{off_line, read_surround, surround_size}

square_rounds :
    (a : ℤ) (n : ℕ)
    → 1 ≤ n
    → rounds_to (a -ℤ (pos n -ℤ pos 1)) ((a +ℤ pos 1) +ℤ (pos n -ℤ pos 1)) ≡ 2 * n
square_rounds a n h = omega int_laws

square_bound : (n : ℕ) → n ≤ 23170 → n * 2 * (n * 2) < 2147483648
square_bound n h = grind arith

module _ (d : Doubles) (r : GridReader) where
  open d use {Double, floor, ceil, truncate}

  -- The grid line below a position, or that it is on.
  abbrev pub low : Double → ℤ
  low v = if is_whole d v then truncate v else truncate (floor v)

  module _ {IsSmall : Double → Type 0} (rounds : RoundsWell d IsSmall) where
    floor-off_line : (v : Double) → IsSmall v → truncate (floor (off_line d r v)) ≡ low v
    floor-off_line v small = elim (Bool-cases (is_whole d v)) [
      | inl h ↦ rw h (rounds.floor_whole v small h)
      | inr h ↦ rw h refl
    ]

    ceil-off_line : (v : Double) → IsSmall v → truncate (ceil (off_line d r v)) ≡ low v +ℤ pos 1
    ceil-off_line v small = elim (Bool-cases (is_whole d v)) [
      | inl h ↦ rw h (rounds.ceil_whole v small h)
      | inr h ↦ rw h (rounds.ceil_between v small h)
    ]

    -- Surrounding a place by `n` lines to each side, at least one and at most 23170, with a position
    -- whose parts are small enough for the doubles to round well: the points are those of the
    -- square of 2 n columns and 2 n rows that starts n - 1 lines below the lines that the place
    -- lies above or on, row by row, without those outside the grid. The array that
    -- `readSurround_` collects them in has room for all, and its size does not overflow.
    pub read_surround-read_all :
        (exact_x exact_y : Double) (n : ℕ) (data_id : ℤ)
        → IsSmall exact_x
        → IsSmall exact_y
        → 1 ≤ n
        → n ≤ 23170
        → read_surround d r exact_x exact_y (pos n) data_id
          ≡ read_all r data_id (
              rectangle
                (2 * n)
                (2 * n)
                (low exact_x -ℤ (pos n -ℤ pos 1))
                (low exact_y -ℤ (pos n -ℤ pos 1)))
    unfolding read_surround surround_size
    read_surround-read_all exact_x exact_y n data_id small_x small_y positive bound =
        let wide = square_rounds (low exact_x) n positive in
        let high = square_rounds (low exact_y) n positive in
        rw
          (
            lt→ltb _ _ (square_bound n bound),
            ◌>>=◌,
            floor-off_line exact_x small_x,
            ceil-off_line exact_x small_x,
            floor-off_line exact_y small_y,
            ceil-off_line exact_y small_y,
            wide,
            high,
            read_rows-read_all r data_id (n * 2 * (n * 2)) (2 * n) (2 * n)
                (low exact_x -ℤ (pos n -ℤ pos 1)) (low exact_y -ℤ (pos n -ℤ pos 1)) []
                (grind arith),
          )
          (bind_ok _)
