-- ===== src/Base/Lists.antt =====
-- Lists measured and indexed by native numbers, under the library's names.
use Prim.Native.Nat.{ℕ, zero, suc, ◌+◌}
use mathlib.Core.Path.{◌≡◌, refl}
use mathlib.Core.List.{List, [], ◌∷◌, ◌++◌}
use mathlib.Core.Bool.{Bool, true, false}
use mathlib.Core.Option.{Option, none, some}
use wdb.Base.Tests.{leb}
use native.Mathlib.Omega.{arith}

module _ {ℓ} {A : Type ℓ} where
  abbrev pub length : List A → ℕ
  length [] = 0
  length (x ∷ xs) = suc (length xs)

  abbrev pub get_elem? : List A → ℕ → Option A
  get_elem? [] i = none
  get_elem? (x ∷ xs) zero = some x
  get_elem? (x ∷ xs) (suc i) = get_elem? xs i

  abbrev pub drop : ℕ → List A → List A
  drop zero xs = xs
  drop (suc n) [] = []
  drop (suc n) (x ∷ xs) = drop n xs

  abbrev pub take : ℕ → List A → List A
  take zero xs = []
  take (suc n) [] = []
  take (suc n) (x ∷ xs) = x ∷ take n xs

  abbrev pub is_nil : List A → Bool
  is_nil [] = true
  is_nil (x ∷ xs) = false

  pub length-append : (xs ys : List A) → length (xs ++ ys) ≡ length xs + length ys
  length-append [] ys = omega arith
  length-append (x ∷ xs) ys = omega (arith, length-append xs ys)

-- A predicate on every element, by recursion.
abbrev pub All {ℓ κ} : {A : Type ℓ} → (A → Type κ) → List A → Type κ
All P [] = Unit
All P (x ∷ xs) = P x × All P xs

pub All-append {ℓ κ} :
    {A : Type ℓ} (P : A → Type κ) (xs ys : List A) → All P xs → All P ys → All P (xs ++ ys)
All-append P [] ys _ h = h
All-append P (x ∷ xs) ys (px, hx) h = (px, All-append P xs ys hx h)

pub drop-end {ℓ} : {A : Type ℓ} (xs : List A) (n : ℕ) → leb (length xs) n ≡ true → drop n xs ≡ []
drop-end [] zero h = refl
drop-end [] (suc n) h = refl
drop-end (x ∷ xs) zero h = ground arith
drop-end (x ∷ xs) (suc n) h = drop-end xs n (ground arith)

pub drop-more {ℓ} :
    {A : Type ℓ} (xs : List A) (n : ℕ)
    → leb (length xs) n ≡ false
    → (x : A) × (get_elem? xs n ≡ some x) × (drop n xs ≡ x ∷ drop (suc n) xs)
drop-more [] n h = ground arith
drop-more (x ∷ xs) zero h = (x, refl, refl)
drop-more (x ∷ xs) (suc n) h = drop-more xs n (ground arith)

pub drop-next {ℓ} :
    {A : Type ℓ} (xs : List A) (n : ℕ) {x : A} {ys : List A}
    → drop n xs ≡ x ∷ ys
    → drop (suc n) xs ≡ ys
drop-next [] zero h = cc
drop-next [] (suc n) h = cc
drop-next (x ∷ xs) zero h = cc
drop-next (x ∷ xs) (suc n) h = drop-next xs n h

pub drop-get {ℓ} : {A : Type ℓ} (xs : List A) (n : ℕ) → drop n xs ≡ [] → get_elem? xs n ≡ none
drop-get [] zero h = refl
drop-get [] (suc n) h = refl
drop-get (x ∷ xs) zero h = cc
drop-get (x ∷ xs) (suc n) h = drop-get xs n h

pub drop-get-some {ℓ} :
    {A : Type ℓ} (xs : List A) (n : ℕ) {x : A} {ys : List A}
    → drop n xs ≡ x ∷ ys
    → get_elem? xs n ≡ some x
drop-get-some [] zero h = cc
drop-get-some [] (suc n) h = cc
drop-get-some (x ∷ xs) zero h = cc
drop-get-some (x ∷ xs) (suc n) h = drop-get-some xs n h
