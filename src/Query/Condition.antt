-- ===== src/Query/Condition.antt =====
-- Conjunctions of comparisons between a column and a value, as SQL text and as a condition on a
-- row. The theorems on the query functions say which of these texts the functions write.
use wdb.Base.{ℕ, ◌≤◌, ◌<◌, List, [], ◌∷◌, ◌++◌, ◌≡◌, Bytes, codes, All, Option, none, some}

pub data Op : Type 0 where
  eq lt gt le ge : Op

pub record Comparison : Type 0 where
  pub column : Bytes
  pub op : Op
  pub operand : Bytes

abbrev op_text : Op → Bytes
op_text eq = codes " = "
op_text lt = codes " < "
op_text gt = codes " > "
op_text le = codes " <= "
op_text ge = codes " >= "

abbrev pub print : Comparison → Bytes
print c = c.column ++ (op_text c.op ++ c.operand)

-- The comparisons behind another condition.
abbrev pub print_rest : List Comparison → Bytes
print_rest [] = []
print_rest (c ∷ cs) = codes " AND " ++ (print c ++ print_rest cs)

-- The conjunction as the SQL text that stands for it; an empty one is TRUE.
abbrev pub print_all : List Comparison → Bytes
print_all [] = codes "TRUE"
print_all (c ∷ cs) = print c ++ print_rest cs

-- A comparison with NULL holds of no row.
abbrev pub Compares : Op → ℕ → Option ℕ → Type 0
Compares op a none = ⊥
Compares eq a (some b) = a ≡ b
Compares lt a (some b) = a < b
Compares gt a (some b) = b < a
Compares le a (some b) = a ≤ b
Compares ge a (some b) = b ≤ a

-- What the conjunction says of a row: `row` gives each column's value, `value` each operand's, with
-- `none` for NULL and for a text that is no operand.
abbrev pub Holds : (Bytes → ℕ) → (Bytes → Option ℕ) → List Comparison → Type 0
Holds row value = All (λ c. Compares c.op (row c.column) (value c.operand))
