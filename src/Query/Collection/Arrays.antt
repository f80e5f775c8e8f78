-- ===== src/Query/Collection/Arrays.antt =====
-- Reading the arrays of a call, and reading their SQL text back.
use wdb.Base.{
  ℕ, zero, suc, ◌==◌, Bool, true, false, ◌&&◌, bytes_eq, take, drop, Bool-cases, inl, inr, List, [],
  ◌∷◌, ◌++◌, append_assoc, ◌≡◌, ◌↔◌, refl, arith, Bytes, codes, map, length, if◌then◌else◌, Option,
  none, some, ok, bind-eq-ok,
}
use mathlib.Core.Option
use wdb.Query.Quote.{BoostString, quote}
use wdb.Query.Quote.Literal.{read_literal, read_literal-quote}
use wdb.Query.Collection.{
  ArrayType, array_elements, array_from_datum, string_array_from_datum, string_from_string_array,
  more_strings,
}

array_elements-inv :
    {A : Type 0} (es : List (Option A)) (xs : List A) → array_elements es ≡ ok xs → es ≡ map some xs
unfolding array_elements
array_elements-inv [] xs h = ground arith
array_elements-inv (none ∷ es) xs h = cc
array_elements-inv (some a ∷ es) xs h =
    let (rest, e, f) = bind-eq-ok (array_elements es) _ h in
    let ih = array_elements-inv es rest e in ground arith

array_elements-map : {A : Type 0} (xs : List A) → array_elements (map some xs) ≡ ok xs
unfolding array_elements
array_elements-map [] = refl
array_elements-map (x ∷ xs) = rw (array_elements-map xs)

-- An array of strings is taken over exactly if it has one dimension and no NULL; its strings then
-- are the elements, in order.
string_array_from_datum_iff :
    (array : ArrayType Bytes) (xs : List Bytes)
    → (string_array_from_datum (some array) ≡ ok (some xs))
      ↔ ((array.ndim ≡ 1) × (array.elements ≡ map some xs))
unfolding string_array_from_datum array_from_datum
string_array_from_datum_iff array xs = (
  λ h. elim (Bool-cases (array.ndim == 1)) [
    | inl one ↦
        let (es, e, f) = bind-eq-ok (array_elements array.elements) _ (rw one at h) in
        let same : es ≡ xs = ground arith in
        (ground arith, array_elements-inv array.elements xs (rw same at e))
    | inr other ↦ cc (rw other at h)
  ],
  λ h. rw (h.0, h.1) (rw (array_elements-map xs)),
)

-- What stands behind a string of an array: a comma and another string, or the end.
separator : Bytes → Option (Bool × Bytes)
separator [] = none
separator (c ∷ []) = if c == b']' then some (false, []) else none
separator (c ∷ d ∷ r) =
    if c == b']'
    then some (false, d ∷ r)
    else if c == b',' && d == b' '
    then some (true, r)
    else none

-- Strings up to the closing bracket, and what stands behind it. The fuel bounds their number.
read_items : ℕ → Bytes → Option (List Bytes × Bytes)
unfolding separator
read_items zero t = none
read_items (suc fuel) t = elim (read_literal t) [
  | none ↦ none
  | some (s, r) ↦ elim (separator r) [
    | none ↦ none
    | some (more, r') ↦ elim more [
      | true ↦ Option.map (λ x. (s ∷ x.0, x.1)) (read_items fuel r')
      | false ↦ some (s ∷ [], r')
    ]
  ]
]

-- An array of string literals at the start of a text, `ARRAY[…]`.
pub read_array : ℕ → Bytes → Option (List Bytes × Bytes)
unfolding read_items
read_array fuel t =
    if bytes_eq (take 7 t) (codes "ARRAY[]")
    then some ([], drop 7 t)
    else if bytes_eq (take 6 t) (codes "ARRAY[")
    then read_items fuel (drop 6 t)
    else none

separator_end : (rest : Bytes) → separator (b']' ∷ rest) ≡ some (false, rest)
unfolding separator
separator_end [] = refl
separator_end (c ∷ rest) = refl

read_items-more_strings :
    (boost : BoostString) (s : Bytes) (ss : List Bytes) (rest : Bytes)
    → read_items (suc (length ss)) (quote boost s ++ (more_strings boost ss ++ (codes "]" ++ rest)))
      ≡ some (s ∷ ss, rest)
unfolding read_items
read_items-more_strings boost s [] rest =
    rw (read_literal-quote boost s (b']' ∷ rest) (λ e. absurd (omega arith)), read_items)
      (rw (separator_end rest) refl)
read_items-more_strings boost s (x ∷ ss) rest =
    let tail = quote boost x ++ (more_strings boost ss ++ (codes "]" ++ rest)) in
    rw (append_assoc (quote boost x) (more_strings boost ss) (codes "]" ++ rest)) (
      rw (read_literal-quote boost s (b',' ∷ b' ' ∷ tail) (λ e. absurd (omega arith)), read_items)
        (rw (read_items-more_strings boost x ss rest) refl))

-- The SQL text of an array of strings, with anything behind it, is read back as the strings,
-- whatever bytes they hold.
pub read_array-string_from_string_array :
    (boost : BoostString) (ss : List Bytes) (rest : Bytes)
    → read_array (length ss) (string_from_string_array boost (some ss) ++ rest) ≡ some (ss, rest)
unfolding read_array string_from_string_array bytes_eq quote
read_array-string_from_string_array boost [] rest = refl
read_array-string_from_string_array boost (s ∷ ss) rest =
    rw
      (
        append_assoc (quote boost s) (more_strings boost ss ++ codes "]") rest,
        append_assoc (more_strings boost ss) (codes "]") rest,
      )
      (read_items-more_strings boost s ss rest)
