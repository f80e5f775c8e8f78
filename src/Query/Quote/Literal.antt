-- ===== src/Query/Quote/Literal.antt =====
-- How PostgreSQL reads a string literal, and that quoted values are read back whole.
use wdb.Base.{
  ℕ, [], ◌∷◌, ◌++◌, append_assoc, Option, none, some, ◌≡◌, ◌≢◌, refl, ◌∙◌, arith, Bytes, to_lower,
  ◌==◌, if◌then◌else◌, Bool-cases, inl, inr,
}
use mathlib.Core.List.{cons-ne-nil}
use mathlib.Core.Option
use wdb.Query.Quote.{BoostString, apostrophe, quote, lquote}

-- The text behind an opening apostrophe: the value of the literal and what stands behind it. Two
-- apostrophes stand for one; a literal that is not closed has no value.
unfoldable pub read_body : Bytes → Option (Bytes × Bytes)
read_body [] = none
read_body (c ∷ []) = if c == apostrophe then some ([], []) else none
read_body (c ∷ d ∷ s) =
    let pair = Option.map (λ r. (apostrophe ∷ r.0, r.1)) (read_body s) in
    let plain = Option.map (λ r. (c ∷ r.0, r.1)) (read_body (d ∷ s)) in
    if c == apostrophe then (if d == apostrophe then pair else some ([], d ∷ s)) else plain

-- A literal at the start of a text.
unfoldable pub read_literal : Bytes → Option (Bytes × Bytes)
unfolding read_body
read_literal [] = none
read_literal (c ∷ s) = if c == apostrophe then read_body s else none

-- What may stand behind a literal, so that its closing apostrophe is not doubled.
abbrev NoApostrophe : Bytes → Type 0
NoApostrophe [] = Unit
NoApostrophe (c ∷ s) = c ≢ apostrophe

-- The body that both functions write, with `escaped` for the replaced text.
escaped : Bytes → Bytes
escaped [] = []
escaped (c ∷ s) = (if c == apostrophe then apostrophe ∷ apostrophe ∷ [] else c ∷ []) ++ escaped s

read_body-close :
    (rest : Bytes) → NoApostrophe rest → read_body (apostrophe ∷ rest) ≡ some ([], rest)
unfolding read_body
read_body-close [] h = refl
read_body-close (c ∷ rest) h = ground arith

append-ne-nil : (xs : Bytes) (y : ℕ) (ys : Bytes) → xs ++ y ∷ ys ≢ []
append-ne-nil [] y ys = cons-ne-nil y ys
append-ne-nil (x ∷ xs) y ys = cons-ne-nil x _

abbrev put_back : ℕ → Bytes × Bytes → Bytes × Bytes
put_back c r = (c ∷ r.0, r.1)

read_body_plain :
    (c : ℕ) (t : Bytes)
    → c ≢ apostrophe
    → t ≢ []
    → read_body (c ∷ t) ≡ Option.map (put_back c) (read_body t)
unfolding read_body
read_body_plain c [] h n = absurd (n refl)
read_body_plain c (d ∷ t) h n = ground arith

read_body_pair :
    (t : Bytes)
    → read_body (apostrophe ∷ apostrophe ∷ t) ≡ Option.map (put_back apostrophe) (read_body t)
unfolding read_body
read_body_pair t = refl

read_body-escaped :
    (s rest : Bytes)
    → NoApostrophe rest
    → read_body (escaped s ++ apostrophe ∷ rest) ≡ some (s, rest)
unfolding escaped
read_body-escaped [] rest h = read_body-close rest h
read_body-escaped (c ∷ s) rest h = elim (Bool-cases (c == apostrophe)) [
  | inl e ↦ rw e (rw read_body_pair (rw (read_body-escaped s rest h) (ground arith)))
  | inr e ↦ rw e (
      rw (read_body_plain c _ (ground arith) (append-ne-nil (escaped s) apostrophe rest))
        (rw (read_body-escaped s rest h) refl))
]

replace_all-escaped :
    (boost : BoostString) (s : Bytes)
    → boost.replace_all_copy s (apostrophe ∷ []) (apostrophe ∷ apostrophe ∷ []) ≡ escaped s
unfolding escaped
replace_all-escaped boost [] = boost.replace_all-nil _ _
replace_all-escaped boost (c ∷ s) =
    boost.replace_all-cons c s _ _ ∙ rw (replace_all-escaped boost s)

-- A quoted value, with anything behind it but an apostrophe, is one literal, and that literal
-- stands for exactly the value: no byte of the value ends it or reaches the statement around it.
pub read_literal-quote :
    (boost : BoostString) (raw rest : Bytes)
    → NoApostrophe rest
    → read_literal (quote boost raw ++ rest) ≡ some (raw, rest)
unfolding read_literal quote
read_literal-quote boost raw rest h =
    rw (replace_all-escaped boost raw, append_assoc) (read_body-escaped raw rest h)

to_lower-append : (a b : Bytes) → to_lower (a ++ b) ≡ to_lower a ++ to_lower b
to_lower-append [] b = refl
to_lower-append (x ∷ a) b = rw (to_lower-append a b)

to_lower-escaped : (s : Bytes) → to_lower (escaped s) ≡ escaped (to_lower s)
unfolding escaped
to_lower-escaped [] = refl
to_lower-escaped (c ∷ s) = ground (arith, to_lower-escaped s)

-- A value that `lquote` has quoted, with anything behind it but an apostrophe, is one literal, and
-- that literal stands for the value in lower case.
read_literal-lquote :
    (boost : BoostString) (raw rest : Bytes)
    → NoApostrophe rest
    → read_literal (lquote boost raw ++ rest) ≡ some (to_lower raw, rest)
unfolding read_literal lquote
read_literal-lquote boost raw rest h =
    rw
      (
        boost.to_lower_copy-to_lower,
        replace_all-escaped boost raw,
        to_lower-append,
        to_lower-escaped,
        append_assoc,
      )
      (read_body-escaped (to_lower raw) rest h)
