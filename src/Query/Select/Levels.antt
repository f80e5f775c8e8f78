-- ===== src/Query/Select/Levels.antt =====
-- Which levels the condition on levels selects.
use wdb.Base.{List, Bytes, codes}
use wdb.Query.Externals.{Externals}
use wdb.Query.Builder.{Builder}
use wdb.Query.Condition.{Comparison}
use wdb.Query.Time.Meaning.{TimeCode, comparisons}

-- The codes that the expression of a level specification accepts.
pub data LevelCode : Type 0 where
  exact inside below above any : LevelCode

abbrev level_code_text : LevelCode → Bytes
level_code_text exact = codes "exact"
level_code_text inside = codes "inside"
level_code_text below = codes "below"
level_code_text above = codes "above"
level_code_text any = codes "any"

-- How the row's range of levels lies to the named one: the relations are those of times.
abbrev pub relation : LevelCode → TimeCode
relation exact = TimeCode.exact
relation inside = TimeCode.inside
relation below = TimeCode.before
relation above = TimeCode.after
relation any = TimeCode.any

abbrev level_comparisons : LevelCode → Bytes → Bytes → List Comparison
level_comparisons k low high =
    comparisons (relation k) (codes "levelfrom") (codes "levelto") low high
