-- ===== src/Grid/Bilinear.antt =====
-- The value between four grid points, `readBilinear_` of
-- src/callInterface/core/wciRead/extractGridData/SinglePointReader.cpp.
use wdb.Base.{
  ℕ, suc, ◌≤◌, ltb, lt→ltb, true, false, List, [], ◌∷◌, length, Option, none, some, ℤ, pos, ◌+ℤ◌,
  Outcome, ok, ◌>>=◌, ◌≡◌, refl, arith, sub_zero,
}
use wdb.Read.Store.{GridPointData}
use wdb.Grid.{GridReader, read_point}
use wdb.Grid.Doubles.{Doubles, RoundsWell, is_whole}
use wdb.Grid.Positions.{read_all, found}
use wdb.Grid.Surround.{low, read_surround-read_all}
use wdb.Grid.Single.{read_bilinear, interpolate_bilinear, linear}

module _ (d : Doubles) (r : GridReader) where
  open d use {Double, add, sub, mul, of_int, truncate, of_float, to_float, one}

  -- The part of a position behind the point is the weight of the higher value, and the rest of one
  -- that of the lower.
  abbrev pub weighted : (low high : ℕ) → Double → ℕ
  weighted low high v =
      let part = sub v (of_int (truncate v)) in
      to_float (add (mul (of_float low) (sub one part)) (mul (of_float high) part))

  -- One point with the value between four, if all four are there: first along x, then along y.
  abbrev pub between :
      ℕ
      → Double
      → Double
      → (low_low high_low low_high high_high : Option GridPointData) → List GridPointData
  between location exact_x exact_y (some a) (some b) (some c) (some e) =
      record {
        location = some location;
        value =
            weighted (weighted a.value b.value exact_x) (weighted c.value e.value exact_x) exact_y;
        x = truncate exact_x;
        y = truncate exact_y;
      }
      ∷ []
  between location exact_x exact_y _ _ _ _ = []

  length-found :
      (p : Option GridPointData) (points : List GridPointData)
      → length (found p points) ≤ suc (length points)
  length-found none points = omega arith
  length-found (some p) points = omega arith

  few : (q s t : Option GridPointData) → ltb (length (found q (found s (found t [])))) 4 ≡ true
  few q s t = lt→ltb _ _ (
      omega (
        arith,
        length-found q (found s (found t [])),
        length-found s (found t []),
        length-found t [],
      ))

  few_after :
      (a : GridPointData) (s t : Option GridPointData)
      → ltb (length (a ∷ found s (found t []))) 4 ≡ true
  few_after a s t = lt→ltb _ _ (omega (arith, length-found s (found t []), length-found t []))

  -- The end of `readBilinear_`, after the reads of the corners.
  corners :
      (location : ℕ) (exact_x exact_y : Double) (p q s t : Option GridPointData)
      → (elim (ltb (length (found p (found q (found s (found t []))))) 4)
          as (λ b. Outcome (List GridPointData)) [
            | true ↦ ok []
            | false ↦
                interpolate_bilinear d r (found p (found q (found s (found t [])))) exact_x exact_y
                >>= λ value. ok (
                    record {
                      location = some location;
                      value = value;
                      x = truncate exact_x;
                      y = truncate exact_y;
                    }
                    ∷ [])
          ])
        ≡ ok (between location exact_x exact_y p q s t)
  unfolding interpolate_bilinear linear
  corners location exact_x exact_y none q s t = rw (few q s t) refl
  corners location exact_x exact_y (some a) none s t = rw (few_after a s t) refl
  corners location exact_x exact_y (some a) (some b) none none = refl
  corners location exact_x exact_y (some a) (some b) none (some e) = refl
  corners location exact_x exact_y (some a) (some b) (some c) none = refl
  corners location exact_x exact_y (some a) (some b) (some c) (some e) = refl

  module _ {IsSmall : Double → Type 0} (rounds : RoundsWell d IsSmall) where
    -- With a position whose parts are small enough for the doubles to round well: if the reads of
    -- the four grid points around it succeed, then the result is the one point at the given
    -- location whose value is weighted along x, and then along y: the part of the position behind
    -- the point is the weight of the higher column or row, and the rest of one that of the lower.
    -- The result is empty as soon as one of the four lies outside the grid.
    pub read_bilinear-between :
        (location : ℕ) (exact_x exact_y : Double) (data_id : ℤ)
        (low_low high_low low_high high_high : Option GridPointData)
        → IsSmall exact_x
        → IsSmall exact_y
        → read_point r (low d r exact_x) (low d r exact_y) data_id ≡ ok low_low
        → read_point r (low d r exact_x +ℤ pos 1) (low d r exact_y) data_id ≡ ok high_low
        → read_point r (low d r exact_x) (low d r exact_y +ℤ pos 1) data_id ≡ ok low_high
        → read_point r (low d r exact_x +ℤ pos 1) (low d r exact_y +ℤ pos 1) data_id ≡ ok high_high
        → read_bilinear d r location exact_x exact_y data_id
          ≡ ok (between location exact_x exact_y low_low high_low low_high high_high)
    unfolding read_bilinear read_all interpolate_bilinear linear
    read_bilinear-between location exact_x exact_y data_id p q s t small_x small_y hp hq hs ht =
        rw
          (
            read_surround-read_all d r rounds exact_x exact_y 1 data_id small_x small_y
                (omega arith) (omega arith),
            sub_zero (low d r exact_x),
            sub_zero (low d r exact_y),
            hp,
            hq,
            hs,
            ht,
          )
          (corners location exact_x exact_y p q s t)

-- What IEEE 754 says of values that are finite and not the negative zero: `IsPlain` says which.
pub record Weighs (d : Doubles) (IsPlain : ℕ → Type 0) : Type 0 where
  pub zero_ : d.Double
  pub no_part : (v : d.Double) → is_whole d v ≡ true → d.sub v (d.of_int (d.truncate v)) ≡ zero_
  pub one_left : d.sub d.one zero_ ≡ d.one
  pub times_one : (a : ℕ) → d.mul (d.of_float a) d.one ≡ d.of_float a
  pub plus_nothing :
      (a b : ℕ)
      → IsPlain a
      → IsPlain b
      → d.to_float (d.add (d.of_float a) (d.mul (d.of_float b) zero_)) ≡ a
