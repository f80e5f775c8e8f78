-- ===== src/Query/Time/Operand.antt =====
-- How PostgreSQL reads what src/callInterface/core/wciRead/query/timeQuery.cpp writes behind a
-- comparison with a time: a literal, the column referencetime or NULL, perhaps with an interval.
use wdb.Base.{ℕ, [], ◌∷◌, Bytes, codes, Option, none, some, ◌==◌, if◌then◌else◌}
use wdb.Query.Quote.Literal.{read_literal}

-- The text behind a prefix.
unfoldable pub behind_prefix : (prefix text : Bytes) → Option Bytes
behind_prefix [] text = some text
behind_prefix (p ∷ prefix) [] = none
behind_prefix (p ∷ prefix) (c ∷ text) =
    let rest = behind_prefix prefix text in if p == c then rest else none

-- What PostgreSQL makes of the texts of times and intervals.
pub record Clock : Type 0 where
  pub time : Bytes → ℕ
  pub later : ℕ → Bytes → ℕ

abbrev shifted_by : Clock → ℕ → Option (Bytes × Bytes) → Option ℕ
shifted_by clock t (some (interval, [])) = some (clock.later t interval)
shifted_by clock t _ = none

-- A time with what stands behind it: nothing, or a cast and the addition of an interval.
abbrev shifted : Clock → ℕ → Bytes → Option ℕ
shifted clock t [] = some t
shifted clock t (c ∷ rest) = elim (behind_prefix (codes "::timestamp with time zone+") (c ∷ rest)) [
  | none ↦ none
  | some interval ↦ shifted_by clock t (read_literal interval)
]

-- The value of an operand as a whole: `none` for NULL, for a text with anything behind its literal,
-- and for one that PostgreSQL does not accept. `referencetime` is the row's.
unfoldable pub operand_value : Clock → (referencetime : ℕ) → Bytes → Option ℕ
unfolding behind_prefix
operand_value clock referencetime text = elim (behind_prefix (codes "referencetime") text) [
  | some rest ↦ shifted clock referencetime rest
  | none ↦ elim (read_literal text) [
    | none ↦ none
    | some literal ↦ shifted clock (clock.time literal.0) literal.1
  ]
]
