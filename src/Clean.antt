-- ===== src/Clean.antt =====
-- src/cleaningProgram/cleanDb.c: the function that runs the cleaning functions of a database. SPI is
-- a parameter, with the state of the database behind it; debug messages are left out.
pub mod Trace
use wdb.Base.{
  ℕ, ltb, leb, Bool, true, false, not, ◌&&◌, ◌||◌, List, [], ◌∷◌, ◌++◌, Bytes, codes, Option, none,
  some, Outcome, ok, fail, ereport, internal_error, null_dereference, Failure, ◌==◌, if◌then◌else◌,
}

-- `is_valid_function_name`
unfoldable pub is_valid_function_name : Bytes → Bool
is_valid_function_name [] = true
is_valid_function_name (letter ∷ name) =
    let rest = is_valid_function_name name in
    if (ltb letter b'a' || ltb b'z' letter)
      && ((ltb letter b'A' || ltb b'Z' letter) && not (letter == b'_'))
    then false
    else rest

-- What SPI_execute does with a statement: it returns with the first column of the tuples that are
-- selected, with `none` for NULL, or without a selection, or the statement raises an error, and
-- then it does not return.
pub data Answer : Type 0 where
  selected : List (Option Bytes) → Answer
  not_selected : Answer
  raised : Failure → Answer

pub record Spi : Type 1 where
  pub Database : Type 0
  pub execute : Bytes → Database → Answer × Database

-- The statements that were executed, the warnings, and the database, behind a call.
pub record Run (spi : Spi) : Type 0 where
  pub executed : List Bytes
  pub warnings : List Bytes
  pub database : spi.Database

abbrev pub strategies : Bytes
strategies = codes "SELECT function FROM clean.strategies ORDER BY call_order"

abbrev pub query_of : Bytes → Bytes
query_of function = codes "SELECT clean." ++ function ++ codes "()"

-- `WDB_SCHEMA` is a text of the build's configuration.
abbrev pub final_cleanup : Bytes → Bytes
final_cleanup schema =
    codes "SELECT "
    ++ schema
    ++ codes ".vacuum_file_blob(); SELECT "
    ++ schema
    ++ codes ".remove_unreferenced_files()"

module _ (spi : Spi) where
  abbrev pub Step : Type 0
  Step = Outcome (Unit {0}) × Run spi

  -- What follows is left out after an error.
  abbrev pub and_then : Step → (Run spi → Step) → Step
  and_then (ok _, r) k = k r
  and_then (fail e, r) k = (fail e, r)

  -- A statement whose result is only looked at for a warning.
  abbrev pub execute_for_effect : Bytes → Bytes → Run spi → Step
  execute_for_effect query warning r =
      let (answer, database') = spi.execute query r.database in
      let run = record r { executed = r.executed ++ query ∷ []; database = database' } in
      elim answer [
        | selected rows ↦ (ok tt, run)
        | not_selected ↦ (ok tt, record run { warnings = r.warnings ++ warning ∷ [] })
        | raised e ↦ (fail e, run)
      ]

  -- The round of the loop for a name, where a NULL is a null pointer.
  unfoldable pub call_function : Option Bytes → Run spi → Step
  unfolding is_valid_function_name
  call_function none r = (fail null_dereference, r)
  call_function (some function) r =
      if is_valid_function_name function
      then execute_for_effect (query_of function)
          (codes "Cleaner: Error when executing function " ++ function ++ codes "()") r
      else (
        ok tt,
        record r {
          warnings =
              r.warnings
              ++ (codes "Invalid cleaning function name (in table cleaning_strategies): "
                  ++ function)
                ∷ [];
        },
      )

  -- The loop over the names.
  unfoldable pub call_functions : List (Option Bytes) → Run spi → Step
  unfolding call_function
  call_functions [] r = (ok tt, r)
  call_functions (function ∷ functions) r =
      and_then (call_function function r) (λ r. call_functions functions r)

  -- The end of `cleanupdb`, behind the query for the table.
  unfoldable pub cleanup_with : Bytes → Answer → Run spi → Step
  unfolding call_functions
  cleanup_with schema (raised e) r = (fail e, r)
  cleanup_with schema not_selected r =
      (fail (ereport internal_error (codes "Cleaner: Unable to locate cleaning table")), r)
  cleanup_with schema (selected functions) r = and_then (call_functions functions r) (λ r.
      execute_for_effect (final_cleanup schema)
        (codes "Cleaner: Error when executing function final cleanup") r)

  -- `connects` is what `SPI_connect` answers.
  unfoldable pub cleanupdb : (connects : Bool) → Bytes → spi.Database → Step
  unfolding cleanup_with
  cleanupdb connects schema database =
      if not connects
      then (
        fail (ereport internal_error (codes "Cleaner: Unable to initialize SPI")),
        record { executed = []; warnings = []; database = database },
      )
      else let (answer, database') = spi.execute strategies database in
        cleanup_with schema answer
          (record { executed = strategies ∷ []; warnings = []; database = database' })
