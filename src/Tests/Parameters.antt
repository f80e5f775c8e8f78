-- ===== src/Tests/Parameters.antt =====
-- Concrete instances of the parameters that stand for Boost and for the other external code.
use wdb.Base.{
  ℕ, [], ◌∷◌, ◌++◌, refl, Bytes, codes, bytes_eq, to_lower, ◌==◌, if◌then◌else◌, Option, none, some,
  true, false, ◌≡◌, ◌≢◌, arith, bytes_eq_iff,
}
use wdb.Query.Quote.{BoostString}
use wdb.Query.Externals.{Externals}
use wdb.Spec.Time.{TimeMatch}
use wdb.Spec.Level.{LevelBoost}
use wdb.Spec.Place.{Grammar}

abbrev replace_one : Bytes → ℕ → Bytes → Bytes
replace_one [] c by = []
replace_one (x ∷ s) c by = (if x == c then by else x ∷ []) ++ replace_one s c by

-- Texts are replaced only where the search text is one character, as in the sources.
abbrev replace_all : Bytes → Bytes → Bytes → Bytes
replace_all s (c ∷ []) by = replace_one s c by
replace_all s _ by = s

abbrev pub boost : BoostString
boost = record {
  replace_all_copy = replace_all;
  to_lower_copy = to_lower;
  replace_all-nil = λ c by. refl;
  replace_all-cons = λ x s c by. refl;
  to_lower_copy-to_lower = λ s. refl;
}

abbrev pub january : Bytes
january = codes "2008-01-01"

abbrev pub february : Bytes
february = codes "2008-02-01"

abbrev pub inside_spec : Bytes
inside_spec = codes "inside 2008-01-01 TO 2008-02-01"

abbrev pub lower_case_spec : Bytes
lower_case_spec = codes "inside 2008-01-01 to 2008-02-01"

abbrev pub range_match : Bytes → TimeMatch
range_match word = record {
  group_1 = codes "inside";
  group_2 = january;
  group_4 = word;
  group_5 = february;
}

-- What the expression answers for two specifications, and for no other.
abbrev pub time_regex : Bytes → Option TimeMatch
time_regex s =
    if bytes_eq s inside_spec
    then some (range_match (codes "TO"))
    else if bytes_eq s lower_case_spec
    then some (range_match (codes "to"))
    else none

abbrev pub level_text : Bytes
level_text = codes "inside 0 TO 10 HEIGHT"

-- What the expression and the conversion answer for one level, its ends having the bits 0 and 10.
abbrev pub level_boost : LevelBoost
level_boost = record {
  regex_match = λ s.
      if bytes_eq s level_text
      then some (record {
        group_2 = codes "inside";
        group_3 = codes "0";
        group_5 = codes "10";
        group_6 = codes "HEIGHT";
      })
      else none;
  lexical_cast = λ s.
      if bytes_eq s (codes "0") then some 0 else if bytes_eq s (codes "10") then some 10 else none;
  lower_case = to_lower;
}

-- What the grammar answers for a name of a place.
abbrev pub grammar : Grammar
grammar s l = if bytes_eq s (codes "Oslo") then (true, record l { place_name_ = s }) else (false, l)

abbrev pub externals : Externals
externals = record {
  boost = boost;
  time_regex = time_regex;
  level_boost = level_boost;
  grammar = grammar;
  show_float = λ bits. if bits == 0 then codes "0" else codes "10";
  wci_schema = codes "wci_int";
}

-- Two texts differ if their test says so.
pub differ : (a b : Bytes) → bytes_eq a b ≡ false → a ≢ b
differ a b h e = ground (arith, bytes_eq_iff a b)
