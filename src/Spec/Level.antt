-- ===== src/Spec/Level.antt =====
-- src/callInterface/types/LevelSpecification.cpp and levelSpec.cpp: a vertical level as the caller
-- writes it. Boost's regular expressions and `lexical_cast<float>` are parameters; a `float` is its
-- bit pattern, which the code only copies.
use wdb.Base.{
  ℕ, ◌++◌, Bytes, codes, is_nil, if◌then◌else◌, Option, none, some, Outcome, ok, fail, logic_error,
  ◌>>=◌, catch_as, invalid_text_representation, ℤ,
}
use wdb.Spec.NamedInteger.{index, level_indet_types}

-- The groups of a match that the constructor reads; a group that did not take part is empty.
pub record LevelMatch : Type 0 where
  pub group_2 : Bytes
  pub group_3 : Bytes
  pub group_5 : Bytes
  pub group_6 : Bytes

pub record LevelBoost : Type 0 where
  -- `regex_match` with the constructor's expression, which ignores case
  pub regex_match : Bytes → Option LevelMatch
  -- `lexical_cast<float>`; `none` is `bad_lexical_cast`
  pub lexical_cast : Bytes → Option ℕ
  -- `to_lower` of the string algorithms
  pub lower_case : Bytes → Bytes

pub record LevelSpecification : Type 0 where
  pub from_ : ℕ
  pub to_ : ℕ
  pub parameter_ : Bytes
  pub indeterminate_ : Bytes

module _ (boost : LevelBoost) where
  abbrev uninterpretable {ℓ} : {A : Type ℓ} → Bytes → Outcome A
  uninterpretable spec =
      fail (logic_error (codes "Unable to interpret level specification: " ++ spec))

  unfoldable level_of_match : Bytes → LevelMatch → Outcome LevelSpecification
  level_of_match spec m =
      let code = boost.lower_case m.group_2 in
      elim (boost.lexical_cast m.group_3) [
        | none ↦ uninterpretable spec
        | some lower_end ↦
            elim (if is_nil m.group_5 then some lower_end else boost.lexical_cast m.group_5) [
              | none ↦ uninterpretable spec
              | some upper_end ↦ ok (record {
                from_ = lower_end;
                to_ = upper_end;
                parameter_ = boost.lower_case m.group_6;
                indeterminate_ = if is_nil code then codes "exact" else code;
              })
            ]
      ]

  -- `LevelSpecification(spec)`
  unfoldable pub level_specification : Bytes → Outcome LevelSpecification
  unfolding level_of_match
  level_specification spec = elim (boost.regex_match spec) [
    | none ↦ fail (logic_error (codes "Invalid level specification: " ++ spec))
    | some m ↦ level_of_match spec m
  ]

  -- `levelSpec`: the columns of the row that it makes.
  unfoldable pub level_spec : Bytes → Outcome (ℕ × ℕ × Bytes × ℤ)
  level_spec spec = catch_as invalid_text_representation (
      level_specification spec >>= λ ls. index level_indet_types ls.indeterminate_ >>= λ code.
      ok (ls.from_, ls.to_, ls.parameter_, code))
