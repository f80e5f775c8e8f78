-- ===== src/Spec/Time.antt =====
-- src/callInterface/types/TimeSpecification.cpp: a reference time or valid time as the caller
-- writes it. Boost's regular expressions are a parameter.
use wdb.Base.{
  Bool, true, false, ◌||◌, List, [], ◌∷◌, ereport, ◌++◌, ◌≡◌, arith, Bytes, codes, bytes_eq, is_nil,
  if◌then◌else◌, Option, none, some, Outcome, ok, fail, logic_error, catch_as,
  invalid_text_representation, ◌>>=◌, inl, inr, ◌⊎◌, bytes_eq_iff,
}

-- The groups of a match that the constructor reads; a group that did not take part is empty.
pub record TimeMatch : Type 0 where
  pub group_1 : Bytes
  pub group_2 : Bytes
  pub group_4 : Bytes
  pub group_5 : Bytes

-- `regex_match` with the constructor's expression, which ignores case.
abbrev pub TimeRegex : Type 0
TimeRegex = Bytes → Option TimeMatch

pub record TimeSpecification : Type 0 where
  pub indeterminate_ : Bytes
  pub from_ : Bytes
  pub other_ : Bytes
  pub duration_instead_of_to_ : Bool

abbrev pub exact : Bytes
exact = codes "exact"

-- `rangeQualifier`: whether `other_` is a duration.
unfoldable pub range_qualifier : Bytes → Outcome Bool
range_qualifier qualifier =
    if bytes_eq qualifier (codes "FOR")
    then ok true
    else if bytes_eq qualifier (codes "TO") || is_nil qualifier
    then ok false
    else fail (logic_error (codes "Invalid time range qualifier: " ++ qualifier))

unfoldable of_match : TimeMatch → Outcome TimeSpecification
of_match m = elim (range_qualifier m.group_4) [
  | fail e ↦ fail e
  | ok duration ↦ ok (record {
    indeterminate_ = if is_nil m.group_1 then exact else m.group_1;
    from_ = m.group_2;
    other_ = if is_nil m.group_5 then m.group_2 else m.group_5;
    duration_instead_of_to_ = duration;
  })
]

-- `TimeSpecification(spec)`
unfoldable pub time_specification : TimeRegex → Bytes → Outcome TimeSpecification
unfolding of_match
time_specification regex spec = elim (regex spec) [
  | none ↦ fail (logic_error (codes "Invalid time specification"))
  | some m ↦ of_match m
]

unfoldable pub to : TimeSpecification → Bytes
to ts = if ts.duration_instead_of_to_ then [] else ts.other_

unfoldable pub interval : TimeSpecification → Bytes
interval ts = if ts.duration_instead_of_to_ then ts.other_ else []

abbrev row : TimeSpecification → List (Option Bytes)
row ts =
    some ts.indeterminate_
    ∷ some ts.from_
    ∷ (if ts.duration_instead_of_to_ then none else some (to ts))
    ∷ (if ts.duration_instead_of_to_ then some (interval ts) else none)
    ∷ []

-- `timeSpec` of src/callInterface/types/timeSpec.cpp: the columns of the row that it makes, with
-- `none` for a null pointer.
unfoldable pub time_spec : TimeRegex → Bytes → Outcome (List (Option Bytes))
unfolding time_specification to interval
time_spec regex spec =
    catch_as invalid_text_representation (time_specification regex spec >>= λ ts. ok (row ts))

-- The range words that the code accepts.
abbrev IsRange : Bytes → Type 0
IsRange q = (q ≡ codes "FOR") ⊎ ((q ≡ codes "TO") ⊎ (q ≡ []))

range_qualifier-IsRange :
    (q : Bytes) (r : IsRange q) → range_qualifier q ≡ ok (elim r [ inl _ ↦ true | inr _ ↦ false ])
unfolding range_qualifier bytes_eq
range_qualifier-IsRange q (inl e) = rw e
range_qualifier-IsRange q (inr (inl e)) = rw e
range_qualifier-IsRange q (inr (inr e)) = rw e

range_qualifier-fail :
    (q : Bytes)
    → ¬ IsRange q
    → range_qualifier q ≡ fail (logic_error (codes "Invalid time range qualifier: " ++ q))
unfolding range_qualifier
range_qualifier-fail q n =
    ground (arith, bytes_eq_iff q (codes "FOR"), bytes_eq_iff q (codes "TO"), n)

-- The second part of a specification: the end and the duration, of which one is NULL.
abbrev second_part : (m : TimeMatch) → IsRange m.group_4 → Option Bytes × Option Bytes
second_part m (inl _) = (none, some (if is_nil m.group_5 then m.group_2 else m.group_5))
second_part m (inr _) = (some (if is_nil m.group_5 then m.group_2 else m.group_5), none)

-- A match whose range word is FOR, TO or left out gives a row: the code, which is `exact` if it is
-- left out, the start, and either the end or the duration, the other being NULL. Without a second
-- part the start is repeated.
time_spec-IsRange :
    (regex : TimeRegex) (spec : Bytes) (m : TimeMatch)
    → regex spec ≡ some m
    → (r : IsRange m.group_4)
    → time_spec regex spec
      ≡ ok (
          some (if is_nil m.group_1 then exact else m.group_1)
          ∷ some m.group_2
          ∷ (second_part m r).0
          ∷ (second_part m r).1
          ∷ [])
unfolding time_spec catch_as
time_spec-IsRange regex spec m e (inl f) = ground (arith, range_qualifier-IsRange m.group_4 (inl f))
time_spec-IsRange regex spec m e (inr f) = ground (arith, range_qualifier-IsRange m.group_4 (inr f))

-- A match with any other spelling of the range word is an error with that word in its message.
time_spec-fail :
    (regex : TimeRegex) (spec : Bytes) (m : TimeMatch)
    → regex spec ≡ some m
    → ¬ IsRange m.group_4
    → time_spec regex spec
      ≡ fail (
          ereport invalid_text_representation (codes "Invalid time range qualifier: " ++ m.group_4))
unfolding time_spec catch_as
time_spec-fail regex spec m e n = ground (arith, range_qualifier-fail m.group_4 n)
