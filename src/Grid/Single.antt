-- ===== src/Grid/Single.antt =====
-- src/callInterface/core/wciRead/extractGridData/SinglePointReader.cpp: the values of a field at one
-- place. The place is given by its exact position in the grid, as `getExactIndex` finds it.
use wdb.Base.{
  ℕ, zero, suc, ◌*◌, ◌^◌, ltb, true, false, ◌||◌, List, [], ◌∷◌, ◌++◌, codes, length, none, some,
  if◌then◌else◌, ℤ, pos, negsuc, ◌+ℤ◌, ◌-ℤ◌, rounds_to, Outcome, ok, fail, ◌>>=◌, undefined,
}
use wdb.Spec.Place.{InterpolationType, exact, nearest, surround, bilinear}
use wdb.Read.Store.{GridPointData}
use wdb.Grid.{GridReader, read_point}
use wdb.Grid.Doubles.{Doubles, is_whole}

-- `(interpolationParam * 2) * (interpolationParam * 2)` in `int`; more than 2^31 - 1 overflows.
unfoldable pub surround_size : ℤ → Outcome ℕ
surround_size (pos n) =
    if ltb (n * 2 * (n * 2)) (2 ^ 31)
    then ok (n * 2 * (n * 2))
    else fail (undefined (codes "overflow"))
surround_size (negsuc n) =
    if ltb (suc n * 2 * (suc n * 2)) (2 ^ 31)
    then ok (suc n * 2 * (suc n * 2))
    else fail (undefined (codes "overflow"))

module _ (r : GridReader) (data_id : ℤ) where
  -- The inner loop of `readSurround_`, at `x` with `left` columns to go: `out` has room for `size`
  -- points, and holds `count` of them.
  unfoldable pub read_columns :
      (size : ℕ) (left : ℕ) (x y : ℤ) (out : List GridPointData) → Outcome (List GridPointData)
  unfolding read_point
  read_columns size zero x y out = ok out
  read_columns size (suc left) x y out = read_point r x y data_id >>= elim [
    | none ↦ read_columns size left (x +ℤ pos 1) y out
    | some p ↦ elim (ltb (length out) size) [
      | true ↦ read_columns size left (x +ℤ pos 1) y (out ++ p ∷ [])
      | false ↦ fail (undefined (codes "write behind the array"))
    ]
  ]

  unfoldable pub read_rows :
      (size columns : ℕ) (left : ℕ) (x y : ℤ) (out : List GridPointData)
      → Outcome (List GridPointData)
  unfolding read_columns
  read_rows size columns zero x y out = ok out
  read_rows size columns (suc left) x y out =
      read_columns size columns x y out >>= read_rows size columns left x (y +ℤ pos 1)

module _ (d : Doubles) (r : GridReader) where
  open d use {
    Double, add, sub, mul, lt, abs, floor, ceil, of_int, truncate, of_float, to_float, half,
    thousandth, one,
  }

  -- `math::round` and `math::distanceToNearestInteger`
  abbrev pub round : Double → ℤ
  round v = truncate (floor (add v half))

  abbrev pub distance_to_nearest_integer : Double → Double
  distance_to_nearest_integer v = abs (sub v (of_int (round v)))

  unfoldable pub read_nearest : Double → Double → ℤ → Outcome (List GridPointData)
  unfolding read_point
  read_nearest exact_x exact_y data_id =
      read_point r (round exact_x) (round exact_y) data_id >>= λ point.
      ok (elim point [ none ↦ [] | some p ↦ p ∷ [] ])

  unfoldable pub read_exact : Double → Double → ℤ → Outcome (List GridPointData)
  unfolding read_nearest
  read_exact exact_x exact_y data_id =
      if lt thousandth (distance_to_nearest_integer exact_x)
        || lt thousandth (distance_to_nearest_integer exact_y)
      then ok []
      else read_nearest exact_x exact_y data_id

  -- "We cheat to be able to return four points".
  abbrev pub off_line : Double → Double
  off_line v = if is_whole d v then add v half else v

  -- The sums and differences of `startX` to `endY` are those of whole numbers, so they are exact.
  unfoldable pub read_surround : Double → Double → ℤ → ℤ → Outcome (List GridPointData)
  unfolding surround_size read_rows
  read_surround exact_x exact_y interpolation_param data_id =
      let x = off_line exact_x in
      let y = off_line exact_y in
      let more = interpolation_param -ℤ pos 1 in
      let start_x = truncate (floor x) -ℤ more in
      let end_x = truncate (ceil x) +ℤ more in
      let start_y = truncate (floor y) -ℤ more in
      let end_y = truncate (ceil y) +ℤ more in
      surround_size interpolation_param >>= λ size.
      read_rows r data_id size (rounds_to start_x end_x) (rounds_to start_y end_y) start_x start_y
        []

  -- `interpolate::linear`: a `float`.
  unfoldable pub linear : ℕ → ℕ → Double → ℕ
  linear low high position =
      to_float (add (mul (of_float low) (sub one position)) (mul (of_float high) position))

  -- "Remove everything before comma".
  abbrev pub fraction : Double → Double
  fraction v = sub v (of_int (truncate v))

  -- `interpolate::bilinear`, which reads the first four points.
  unfoldable pub interpolate_bilinear : List GridPointData → Double → Double → Outcome ℕ
  unfolding linear
  interpolate_bilinear (a ∷ b ∷ c ∷ e ∷ more) exact_x exact_y = ok (
      linear (linear a.value b.value (fraction exact_x)) (linear c.value e.value (fraction exact_x))
        (fraction exact_y))
  interpolate_bilinear _ exact_x exact_y = fail (undefined (codes "read behind the array"))

  -- `location` is the place, which is returned as a copy.
  unfoldable pub read_bilinear : ℕ → Double → Double → ℤ → Outcome (List GridPointData)
  unfolding read_surround interpolate_bilinear
  read_bilinear location exact_x exact_y data_id =
      read_surround exact_x exact_y (pos 1) data_id >>= λ surrounding_points.
      elim (ltb (length surrounding_points) 4) [
        | true ↦ ok []
        | false ↦ interpolate_bilinear surrounding_points exact_x exact_y >>= λ value. ok (
            record {
              location = some location;
              value = value;
              x = truncate exact_x;
              y = truncate exact_y;
            }
            ∷ [])
      ]

  -- `SinglePointReader::read`, with the position that `getExactIndex` gives or fails to give.
  unfoldable pub read_single :
      Outcome (Double × Double) → ℕ → InterpolationType → ℤ → ℤ → Outcome (List GridPointData)
  unfolding read_exact read_nearest read_surround read_bilinear
  read_single exact_index location interpolation interpolation_param data_id = exact_index >>= λ at.
      elim interpolation [
        | exact ↦ read_exact at.0 at.1 data_id
        | nearest ↦ read_nearest at.0 at.1 data_id
        | surround ↦ read_surround at.0 at.1 interpolation_param data_id
        | bilinear ↦ read_bilinear location at.0 at.1 data_id
      ]
