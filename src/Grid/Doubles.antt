-- ===== src/Grid/Doubles.antt =====
-- What the grid readers do with a `double`, as a parameter, and what IEEE 754 says of it.
use wdb.Base.{ℕ, Bytes, Bool, true, false, ◌≡◌, ℤ, pos, ◌+ℤ◌}

pub record Doubles : Type 1 where
  pub Double : Type 0
  pub add : Double → Double → Double
  pub neg : Double → Double
  pub sub : Double → Double → Double
  pub mul : Double → Double → Double
  pub div : Double → Double → Double
  pub lt : Double → Double → Bool
  pub eq : Double → Double → Bool
  pub abs : Double → Double
  pub floor : Double → Double
  pub ceil : Double → Double
  -- the conversions: of an `int`, to an `int`, and from and to the bits of a `float`
  pub of_int : ℤ → Double
  pub truncate : Double → ℤ
  pub of_float : ℕ → Double
  pub to_float : Double → ℕ
  -- the literals 0.5, 0.001 and 1
  pub half : Double
  pub thousandth : Double
  pub one : Double
  -- the whole part that `modf` stores
  pub modf : Double → Double
  -- the constants DEG_TO_RAD, RAD_TO_DEG and HUGE_VAL, and how a stream shows a number
  pub deg_to_rad : Double
  pub rad_to_deg : Double
  pub huge_val : Double
  pub show : Double → Bytes

module _ (d : Doubles) where
  open d use {Double, add, eq, floor, ceil, of_int, truncate, half}

  -- `exactX == int(exactX)`
  abbrev pub is_whole : Double → Bool
  is_whole v = eq v (of_int (truncate v))

  -- What holds of the values whose parts fit an `int`: `IsSmall` says which these are. Adding 0.5 to
  -- a whole number is exact, and a number that is not whole lies between its floor and the next
  -- whole number.
  pub record RoundsWell (IsSmall : Double → Type 0) : Type 0 where
    pub floor_whole :
        (v : Double) → IsSmall v → is_whole v ≡ true → truncate (floor (add v half)) ≡ truncate v
    pub ceil_whole :
        (v : Double)
        → IsSmall v
        → is_whole v ≡ true
        → truncate (ceil (add v half)) ≡ truncate v +ℤ pos 1
    pub ceil_between :
        (v : Double)
        → IsSmall v
        → is_whole v ≡ false
        → truncate (ceil v) ≡ truncate (floor v) +ℤ pos 1
