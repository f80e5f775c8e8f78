-- ===== src/Config/File.antt =====
-- src/common/configuration/WdbConfigFile.cpp: a file of keys and values. Boost's expressions and
-- `trim` are a parameter; `std::invalid_argument` is the `std::logic_error` that it is. The table is
-- a list of pairs, the newest first. 33, 35 and 61 are the bytes of `!`, `#` and `=`.
pub mod Spaces
pub mod Lines
pub mod Entries
use wdb.Base.{
  ℕ, Bool, true, false, List, [], ◌∷◌, ◌++◌, Bytes, codes, bytes_eq, is_nil, Option, none, some,
  Outcome, ok, fail, logic_error, ◌>>=◌, ◌==◌, if◌then◌else◌,
}

-- `regex_replace(_, "(\s+)", " ")`, `regex_replace(_, "(\s+,)", ",")` and `trim`
pub record FileBoost : Type 0 where
  pub one_space : Bytes → Bytes
  pub before_comma : Bytes → Bytes
  pub trim : Bytes → Bytes

abbrev pub Table : Type 0
Table = List (Bytes × Bytes)

-- `configTable_.find(key)`
unfoldable pub find_key : Bytes → Table → Option Bytes
find_key key [] = none
find_key key ((k, value) ∷ table) = if bytes_eq k key then some value else find_key key table

-- What `get` answers: a value, or one of its two exceptions with the text in it.
pub data Answer : Type 0 where
  value : Bytes → Answer
  ignored : Bytes → Answer
  not_defined : Bytes → Answer

-- The answer for a key, by what stands for it and for the key behind `! `.
abbrev pub answer : Bytes → (found marked : Option Bytes) → Answer
answer key (some text) marked = value text
answer key none (some text) = ignored (codes "Key value " ++ (key ++ codes " is ignored."))
answer key none none =
    not_defined (codes "Key value " ++ (key ++ codes " is not defined in configuration file."))

-- `get`
unfoldable pub get : Table → Bytes → Answer
get table key = answer key (find_key key table) (find_key (codes "! " ++ key) table)

-- The text in front of the first `c`, or all of it.
unfoldable pub up_to : ℕ → Bytes → Bytes
up_to c [] = []
up_to c (x ∷ s) = let rest = up_to c s in if x == c then [] else x ∷ rest

-- `substr(find_first_of(c) + 1)`: the text behind the first `c`. Where there is none, `npos + 1` is
-- 0, and the text is all of it.
unfoldable pub behind : ℕ → Bytes → Option Bytes
behind c [] = none
behind c (x ∷ s) = let rest = behind c s in if x == c then some s else rest

abbrev pub or_all : Bytes → Option Bytes → Bytes
or_all s none = s
or_all s (some rest) = rest

-- A line that begins with `!` has no value to load.
abbrev pub is_loaded : Bytes → Bool
is_loaded [] = true
is_loaded (c ∷ s) = if c == 33 then false else true

module _ (boost : FileBoost) (file_name : Bytes) where
  abbrev pub lacking : Bytes → Bytes → Bytes
  lacking what specification =
      codes "Specification in file "
      ++ (file_name ++ (codes " does not contain a " ++ (what ++ (codes ": " ++ specification))))

  abbrev pub present : Bytes → Bytes → Bytes → Outcome Bytes
  present what specification text =
      if is_nil text then fail (logic_error (lacking what specification)) else ok text

  -- `extractKey`
  unfoldable pub extract_key : Bytes → Outcome Bytes
  extract_key specification =
      present (codes "key") specification (boost.trim (up_to 61 specification))

  -- `extractValue`
  unfoldable pub extract_value : Bytes → Outcome Bytes
  extract_value specification =
      present (codes "value") specification
        (boost.trim (or_all specification (behind 61 specification)))

  -- What `parse` makes of a line without its comment.
  unfoldable pub parse_specification : Bytes → Table → Outcome Table
  parse_specification text table =
      let specification = boost.trim (boost.before_comma (boost.one_space text)) in
      extract_key specification >>= λ key.
      (if is_loaded text then extract_value specification else ok (codes "NULL")) >>= λ value.
      ok ((key, value) ∷ table)

  -- `parse`
  unfoldable pub parse : Bytes → Table → Outcome Table
  parse line table =
      let text = up_to 35 line in if is_nil text then ok table else parse_specification text table

  unfoldable pub parse_lines : List Bytes → Table → Outcome Table
  unfolding parse
  parse_lines [] table = ok table
  parse_lines (line ∷ lines) table = parse line table >>= λ table'. parse_lines lines table'

  -- `open`, on the lines that `getline` gives; `none` is a file that cannot be opened.
  unfoldable pub open_file : Option (List Bytes) → Table → Outcome Table
  unfolding parse_lines
  open_file none table = fail (logic_error (codes "Could not open file " ++ file_name))
  open_file (some lines) table = parse_lines lines table
