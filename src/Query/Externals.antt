-- ===== src/Query/Externals.antt =====
-- What the query functions use of Boost, of the C++ library's float output and of the build's
-- configuration: the parameters of the query model.
use wdb.Base.{ℕ, Bytes}
use wdb.Query.Quote.{BoostString}
use wdb.Spec.Time.{TimeRegex}
use wdb.Spec.Level.{LevelBoost}
use wdb.Spec.Place.{Grammar}

pub record Externals : Type 0 where
  pub boost : BoostString
  pub time_regex : TimeRegex
  pub level_boost : LevelBoost
  pub grammar : Grammar
  -- `stream << f` for the `float` with this bit pattern
  pub show_float : ℕ → Bytes
  -- the macro WCI_SCHEMA
  pub wci_schema : Bytes
