-- ===== src/Grid/Rotate.antt =====
-- src/common/projection/gridRotate.h: the rows of a grid of values in the opposite order.
use wdb.Base.{
  ℕ, zero, suc, ◌+◌, ◌-◌, ◌*◌, ◌/◌, ◌<◌, ◌≤◌, List, [], ◌∷◌, ◌++◌, length, length-append, get_elem?,
  drop, take, ◌≡◌, refl, ◌∙◌, ap, arith,
}

-- The rows of `x_length` values below row `y`, from the last on.
unfoldable pub rows_down : {A : Type 0} → ℕ → List A → ℕ → List A
rows_down x_length grid zero = []
rows_down x_length grid (suc y) =
    take x_length (drop (y * x_length) grid) ++ rows_down x_length grid y

-- `swapUpperLowerOrientation`; a row length of 0 divides by zero, which here gives no rows.
unfoldable pub swap_upper_lower_orientation : {A : Type 0} → List A → ℕ → List A
unfolding rows_down
swap_upper_lower_orientation grid x_length = rows_down x_length grid (length grid / x_length)

suc_add : (n i : ℕ) → suc n + i ≡ suc (n + i)
suc_add n i = omega arith

module _ {A : Type 0} where
  get_elem?-drop : (n i : ℕ) (xs : List A) → get_elem? (drop n xs) i ≡ get_elem? xs (n + i)
  get_elem?-drop zero i xs = ap (get_elem? xs) (omega arith)
  get_elem?-drop (suc n) i [] = refl
  get_elem?-drop (suc n) i (x ∷ xs) = rw (suc_add n i) (get_elem?-drop n i xs)

  get_elem?-take : (n i : ℕ) (xs : List A) → i < n → get_elem? (take n xs) i ≡ get_elem? xs i
  get_elem?-take zero i xs h = absurd (omega arith)
  get_elem?-take (suc n) i [] h = refl
  get_elem?-take (suc n) zero (x ∷ xs) h = refl
  get_elem?-take (suc n) (suc i) (x ∷ xs) h = get_elem?-take n i xs (omega arith)

  length-take : (n : ℕ) (xs : List A) → n ≤ length xs → length (take n xs) ≡ n
  length-take zero xs h = refl
  length-take (suc n) [] h = absurd (omega arith)
  length-take (suc n) (x ∷ xs) h = ap suc (length-take n xs (omega arith))

  length-drop : (n : ℕ) (xs : List A) → length (drop n xs) ≡ length xs - n
  length-drop zero xs = omega arith
  length-drop (suc n) [] = omega arith
  length-drop (suc n) (x ∷ xs) = length-drop n xs ∙ omega arith

  get_elem?-append_below :
      (xs ys : List A) (i : ℕ) → i < length xs → get_elem? (xs ++ ys) i ≡ get_elem? xs i
  get_elem?-append_below [] ys i h = absurd (omega arith)
  get_elem?-append_below (x ∷ xs) ys zero h = refl
  get_elem?-append_below (x ∷ xs) ys (suc i) h = get_elem?-append_below xs ys i (omega arith)

  get_elem?-append_above :
      (xs ys : List A) (i : ℕ) → get_elem? (xs ++ ys) (length xs + i) ≡ get_elem? ys i
  get_elem?-append_above [] ys i = ap (get_elem? ys) (omega arith)
  get_elem?-append_above (x ∷ xs) ys i = rw (suc_add (length xs) i) (get_elem?-append_above xs ys i)

  -- The last row of those that are left comes first.
  length-row :
      (x_length y : ℕ) (grid : List A)
      → suc y * x_length ≤ length grid
      → length (take x_length (drop (y * x_length) grid)) ≡ x_length
  length-row x_length y grid h =
      length-take x_length (drop (y * x_length) grid)
        (rw (length-drop (y * x_length) grid) (grind arith))

  length-rows_down :
      (x_length y : ℕ) (grid : List A)
      → y * x_length ≤ length grid
      → length (rows_down x_length grid y) ≡ y * x_length
  unfolding rows_down
  length-rows_down x_length zero grid h = omega arith
  length-rows_down x_length (suc y) grid h =
      length-append (take x_length (drop (y * x_length) grid)) (rows_down x_length grid y)
      ∙ rw (length-row x_length y grid h, length-rows_down x_length y grid (grind arith))
          (grind arith)

  get_elem?-rows_down :
      (x_length y r x : ℕ) (grid : List A)
      → y * x_length ≤ length grid
      → x < x_length
      → r < y
      → get_elem? (rows_down x_length grid y) (r * x_length + x)
        ≡ get_elem? grid ((y - 1 - r) * x_length + x)
  unfolding rows_down
  get_elem?-rows_down x_length zero r x grid h p q = absurd (omega arith)
  get_elem?-rows_down x_length (suc y) zero x grid h p q =
      let row = take x_length (drop (y * x_length) grid) in
      let same : length row ≡ x_length = length-row x_length y grid h in
      let e : zero * x_length + x ≡ x = omega arith in
      let e' : suc y - 1 - zero ≡ y = omega arith in
      rw (e, e')
        (get_elem?-append_below row (rows_down x_length grid y) x (omega arith)
          ∙ get_elem?-take x_length x (drop (y * x_length) grid) p
          ∙ get_elem?-drop (y * x_length) x grid)
  get_elem?-rows_down x_length (suc y) (suc r) x grid h p q =
      let row = take x_length (drop (y * x_length) grid) in
      let same : length row ≡ x_length = length-row x_length y grid h in
      let e : suc r * x_length + x ≡ length row + (r * x_length + x) = grind arith in
      let e' : suc y - 1 - suc r ≡ y - 1 - r = omega arith in
      rw (e, e')
        (get_elem?-append_above row (rows_down x_length grid y) (r * x_length + x)
          ∙ get_elem?-rows_down x_length y r x grid (grind arith) p (omega arith))

rows_of : (x_length y_length x : ℕ) → x < x_length → y_length * x_length / x_length ≡ y_length
rows_of x_length y_length x h = grind arith

-- In a grid of x_length columns and y_length rows, turning keeps the number of values, puts the
-- value of each column in row y into row y_length - 1 - y, and turning twice gives back each value.
pub get_elem?-swap_upper_lower_orientation :
    {A : Type 0} (grid : List A) (x_length y_length x y : ℕ)
    → length grid ≡ y_length * x_length
    → x < x_length
    → y < y_length
    → (length (swap_upper_lower_orientation grid x_length) ≡ length grid)
      × (get_elem? (swap_upper_lower_orientation grid x_length) (y * x_length + x)
          ≡ get_elem? grid ((y_length - 1 - y) * x_length + x))
      × (get_elem?
            (swap_upper_lower_orientation (swap_upper_lower_orientation grid x_length) x_length)
            (y * x_length + x)
          ≡ get_elem? grid (y * x_length + x))
unfolding swap_upper_lower_orientation
get_elem?-swap_upper_lower_orientation grid x_length y_length x y size p q =
    let rows : length grid / x_length ≡ y_length = rw size (rows_of x_length y_length x p) in
    let same = length-rows_down x_length y_length grid (omega arith) in
    let rows' : length (rows_down x_length grid y_length) / x_length ≡ y_length =
      rw same (rows_of x_length y_length x p) in
    let back : y_length - 1 - (y_length - 1 - y) ≡ y = omega arith in
    rw (rows, rows')
      (
        omega (arith, same),
        get_elem?-rows_down x_length y_length y x grid (omega arith) p q,
        get_elem?-rows_down x_length y_length y x (rows_down x_length grid y_length)
              (omega (arith, same)) p q
            ∙ get_elem?-rows_down x_length y_length (y_length - 1 - y) x grid (omega arith) p
                (omega arith)
            ∙ ap (λ r. get_elem? grid (r * x_length + x)) back,
      )
