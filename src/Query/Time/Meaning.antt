-- ===== src/Query/Time/Meaning.antt =====
-- Which rows the time conditions select: an interval of valid times is compared with the interval
-- that the caller names; a reference time counts as an interval of one instant.
use wdb.Base.{
  ℕ, ◌≤◌, ◌<◌, List, [], ◌∷◌, ◌++◌, append_assoc, append-nil, ◌≡◌, ◌↔◌, ◌≢◌, refl, sym, arith,
  Bytes, codes, bytes_eq, some, ok, if◌then◌else◌, Bool-cases, inl, inr, bytes_eq_iff, Option, ◌∙◌,
}
use wdb.Spec.Time.{TimeSpecification, TimeRegex, time_specification}
use wdb.Query.Builder.{Builder, add_where}
use wdb.Query.Condition.{Comparison, eq, lt, gt, le, ge, print_all, Holds}
use wdb.Query.Time.Operand.{Clock, operand_value}
use wdb.Query.Time.{
  reference_time_to, reference_time_condition, add_reference_time_query, quote_time, valid_time_to,
  valid_time_condition, add_valid_time_query,
}

-- The codes that the expression of a time specification accepts, and `any`.
pub data TimeCode : Type 0 where
  exact inside contains before after any : TimeCode

abbrev code_text : TimeCode → Bytes
code_text exact = codes "exact"
code_text inside = codes "inside"
code_text contains = codes "contains"
code_text before = codes "before"
code_text after = codes "after"
code_text any = codes "any"

-- How a row's interval from `f` to `t` lies to the named one from `a` to `b`.
abbrev pub Related : TimeCode → ℕ → ℕ → ℕ → ℕ → Type 0
Related exact f t a b = (f ≡ a) × (t ≡ b)
Related inside f t a b = (x : ℕ) → f ≤ x → x ≤ t → (a ≤ x) × (x ≤ b)
Related contains f t a b = (x : ℕ) → a ≤ x → x ≤ b → (f ≤ x) × (x ≤ t)
Related before f t a b = f < a
Related after f t a b = b < t
Related any f t a b = Unit

-- The comparisons for a code, between the columns `from` and `to` and the values `low` and `high`.
abbrev pub comparisons : TimeCode → Bytes → Bytes → Bytes → Bytes → List Comparison
comparisons exact from to low high =
    record { column = from; op = eq; operand = low }
    ∷ record { column = to; op = eq; operand = high }
    ∷ []
comparisons inside from to low high =
    record { column = from; op = ge; operand = low }
    ∷ record { column = to; op = le; operand = high }
    ∷ []
comparisons contains from to low high =
    record { column = from; op = le; operand = low }
    ∷ record { column = to; op = ge; operand = high }
    ∷ []
comparisons before from to low high = record { column = from; op = lt; operand = low } ∷ []
comparisons after from to low high = record { column = to; op = gt; operand = high } ∷ []
comparisons any from to low high = []

module _ (row : Bytes → ℕ) (value : Bytes → Option ℕ) (from to low high : Bytes) (a b : ℕ) where
  pub Holds-Related :
      (k : TimeCode)
      → row from ≤ row to
      → value low ≡ some a
      → value high ≡ some b
      → a ≤ b
      → Holds row value (comparisons k from to low high) ↔ Related k (row from) (row to) a b
  Holds-Related exact r la hb v = rw (la, hb) (λ h. (h.0, h.1.0), λ h. (h.0, (h.1, tt)))
  Holds-Related inside r la hb v =
      rw (la, hb)
        (
          λ h x p q. (omega arith, omega arith),
          λ h. ((h (row from) (omega arith) r).0, ((h (row to) r (omega arith)).1, tt)),
        )
  Holds-Related contains r la hb v =
      rw (la, hb)
        (
          λ h x p q. (omega arith, omega arith),
          λ h. ((h a (omega arith) v).0, ((h b v (omega arith)).1, tt)),
        )
  Holds-Related before r la hb v = rw la (λ h. h.0, λ h. (h, tt))
  Holds-Related after r la hb v = rw hb (λ h. h.0, λ h. (h, tt))
  Holds-Related any r la hb v = (λ _. tt, λ _. tt)

abbrev valid_comparisons : TimeCode → TimeSpecification → List Comparison
valid_comparisons k ts =
    comparisons k (codes "validtimefrom") (codes "validtimeto") (quote_time ts.from_)
      (valid_time_to ts)

valid_time_condition-print_all :
    (k : TimeCode) (ts : TimeSpecification)
    → ts.indeterminate_ ≡ code_text k
    → valid_time_condition ts ≡ ok (print_all (valid_comparisons k ts))
unfolding valid_time_condition bytes_eq
valid_time_condition-print_all exact ts e = rw (e, valid_time_condition) (simp append-nil)
valid_time_condition-print_all inside ts e = rw (e, valid_time_condition) (simp append-nil)
valid_time_condition-print_all contains ts e = rw (e, valid_time_condition) (simp append-nil)
valid_time_condition-print_all before ts e =
    rw (e, valid_time_condition) (simp (append_assoc, append-nil))
valid_time_condition-print_all after ts e = rw (e, valid_time_condition) (simp append-nil)
valid_time_condition-print_all any ts e = rw (e, valid_time_condition)

-- The condition that is added for a valid time whose code is one of the known ones is a
-- conjunction of comparisons. Where PostgreSQL reads the texts for both ends as times, which the
-- reader of literals decides, and the intervals end no earlier than they begin, it holds of a row
-- exactly if the row's valid times lie to the named interval as the code says: `before` asks that
-- they begin before its first end, and `after` that they end after its last.
pub add_valid_time_query-Related :
    (regex : TimeRegex) (spec : Bytes) (ts : TimeSpecification) (k : TimeCode) (builder : Builder)
    (row : Bytes → ℕ) (clock : Clock) (a b : ℕ)
    → time_specification regex spec ≡ ok ts
    → ts.indeterminate_ ≡ code_text k
    → row (codes "validtimefrom") ≤ row (codes "validtimeto")
    → operand_value clock (row (codes "referencetime")) (quote_time ts.from_) ≡ some a
    → operand_value clock (row (codes "referencetime")) (valid_time_to ts) ≡ some b
    → a ≤ b
    → (cs : List Comparison) × (add_valid_time_query regex (some spec) builder
        ≡ ok (add_where (codes "(" ++ (print_all cs ++ codes ")")) builder))
      × (Holds row (operand_value clock (row (codes "referencetime"))) cs
          ↔ Related k (row (codes "validtimefrom")) (row (codes "validtimeto")) a b)
unfolding add_valid_time_query
add_valid_time_query-Related regex spec ts k builder row clock a b e code r la hb v = (
  valid_comparisons k ts,
  rw (e, valid_time_condition-print_all k ts code) refl,
  Holds-Related row _ _ _ _ _ a b k r la hb v,
)

abbrev pub quoted : Bytes → Bytes
quoted s = codes "'" ++ (s ++ codes "'")

-- An instant contains an interval only if it is both ends of it, so `contains` is written as `exact`.
abbrev reference_code : TimeCode → TimeCode
reference_code contains = exact
reference_code k = k

abbrev reference_comparisons : TimeCode → TimeSpecification → List Comparison
reference_comparisons k ts =
    comparisons (reference_code k) (codes "referencetime") (codes "referencetime") (quoted ts.from_)
      (quoted (reference_time_to ts))

-- With one text for both ends, `exact` writes one comparison.
abbrev one_instant : TimeSpecification → List Comparison
one_instant ts = record { column = codes "referencetime"; op = eq; operand = quoted ts.from_ } ∷ []

reference_exact :
    (ts : TimeSpecification)
    → ts.indeterminate_ ≡ codes "exact"
    → reference_time_condition ts
      ≡ print_all (
          if bytes_eq ts.from_ (reference_time_to ts)
          then one_instant ts
          else reference_comparisons exact ts)
unfolding reference_time_condition bytes_eq reference_time_to
reference_exact ts e = elim (Bool-cases (bytes_eq ts.from_ (reference_time_to ts))) [
  | inl same ↦ rw (e, reference_time_condition) (rw same (simp append-nil))
  | inr other ↦ rw (e, reference_time_condition) (rw other (simp (append_assoc, append-nil)))
]

reference_time_condition-print_all :
    (k : TimeCode) (ts : TimeSpecification)
    → ts.indeterminate_ ≡ code_text k
    → k ≢ exact
    → reference_time_condition ts ≡ print_all (reference_comparisons k ts)
unfolding reference_time_condition bytes_eq
reference_time_condition-print_all exact ts e n = absurd (n refl)
reference_time_condition-print_all inside ts e n =
    rw (e, reference_time_condition) (simp (append_assoc, append-nil))
reference_time_condition-print_all contains ts e n =
    rw (e, reference_time_condition) (simp (append_assoc, append-nil))
reference_time_condition-print_all before ts e n =
    rw (e, reference_time_condition) (simp append-nil)
reference_time_condition-print_all after ts e n = rw (e, reference_time_condition) (simp append-nil)
reference_time_condition-print_all any ts e n = rw (e, reference_time_condition)

abbrev referencetime : Bytes
referencetime = codes "referencetime"

module _ (ts : TimeSpecification) (row : Bytes → ℕ) (value : Bytes → Option ℕ) (low high : ℕ)
    (is_low : value (quoted ts.from_) ≡ some low)
    (is_high : value (quoted (reference_time_to ts)) ≡ some high) where
  abbrev reference_time : ℕ
  reference_time = row (codes "referencetime")

  reference-Holds :
      (k : TimeCode)
      → low ≤ high
      → Holds row value (
          comparisons k referencetime referencetime
            (quoted ts.from_)
            (quoted (reference_time_to ts)))
        ↔ Related k reference_time reference_time low high
  reference-Holds k v =
      Holds-Related row value referencetime referencetime _ _ low high k (omega arith) is_low
        is_high v

  one_instant-Holds :
      reference_time_to ts ≡ ts.from_
      → Holds row value (one_instant ts) ↔ Related exact reference_time reference_time low high
  one_instant-Holds t =
      let both : some low ≡ some high = sym is_low ∙ rw t at is_high in
      let same : low ≡ high = cc in rw is_low (λ h. (h.0, h.0 ∙ same), λ h. (h.0, tt))

  reference_meaning :
      (k : TimeCode)
      → ts.indeterminate_ ≡ code_text k
      → low ≤ high
      → (cs : List Comparison) × (reference_time_condition ts ≡ print_all cs)
        × (Holds row value cs ↔ Related k reference_time reference_time low high)
  reference_meaning exact e v = elim (Bool-cases (bytes_eq ts.from_ (reference_time_to ts))) [
    | inl same ↦ (
      one_instant ts,
      rw same at (reference_exact ts e),
      one_instant-Holds (sym ((bytes_eq_iff _ _).0 same)),
    )
    | inr other ↦ (
      reference_comparisons exact ts,
      rw other at (reference_exact ts e),
      reference-Holds exact v,
    )
  ]
  reference_meaning contains e v = (
    reference_comparisons contains ts,
    reference_time_condition-print_all contains ts e (cc),
    rw (is_low, is_high)
        (
          λ h x p q. (omega arith, omega arith),
          λ h.
              let (a, b) = h low (omega arith) v in
              let (c, d) = h high v (omega arith) in (omega arith, (omega arith, tt)),
        ),
  )
  reference_meaning inside e v = (
    reference_comparisons inside ts,
    reference_time_condition-print_all inside ts e (cc),
    reference-Holds inside v,
  )
  reference_meaning before e v = (
    reference_comparisons before ts,
    reference_time_condition-print_all before ts e (cc),
    reference-Holds before v,
  )
  reference_meaning after e v = (
    reference_comparisons after ts,
    reference_time_condition-print_all after ts e (cc),
    reference-Holds after v,
  )
  reference_meaning any e v = (
    reference_comparisons any ts,
    reference_time_condition-print_all any ts e (cc),
    (λ _. tt, λ _. tt),
  )

-- The condition that is added for a reference time whose code is one of the known ones is a
-- conjunction of comparisons. Where PostgreSQL reads the texts for both ends as times, which the
-- reader of literals decides, and the named interval ends no earlier than it begins, it holds of a
-- row exactly if the interval that begins and ends at the row's reference time lies to the named
-- interval as the code says.
pub add_reference_time_query-Related :
    (regex : TimeRegex) (spec : Bytes) (ts : TimeSpecification) (k : TimeCode) (builder : Builder)
    (row : Bytes → ℕ) (clock : Clock) (a b : ℕ)
    → time_specification regex spec ≡ ok ts
    → ts.indeterminate_ ≡ code_text k
    → operand_value clock (row (codes "referencetime")) (quoted ts.from_) ≡ some a
    → operand_value clock (row (codes "referencetime")) (quoted (reference_time_to ts)) ≡ some b
    → a ≤ b
    → (cs : List Comparison) × (add_reference_time_query regex (some spec) builder
        ≡ ok (add_where (codes "(" ++ (print_all cs ++ codes ") ")) builder))
      × (Holds row (operand_value clock (row (codes "referencetime"))) cs
          ↔ Related k (row (codes "referencetime")) (row (codes "referencetime")) a b)
unfolding add_reference_time_query
add_reference_time_query-Related regex spec ts k builder row clock a b e code la hb v =
    let value = operand_value clock (row (codes "referencetime")) in
    let (cs, text, meaning) = reference_meaning ts row value a b la hb k code v in
    (cs, rw (e, text) refl, meaning)
