-- ===== src/Admin/Output.antt =====
-- src/admin/ui/cmdLine/adminCommandLineOutput.cpp: the operations, with what they print. 9 is a tab
-- and 10 the end of a line.
pub mod Ends
use mathlib.Core.Option
use wdb.Base.{
  ℕ, zero, suc, ◌-◌, ◌+◌, Bool, true, false, ◌&&◌, List, [], ◌∷◌, ◌++◌, Bytes, codes, bytes_eq,
  is_nil, length, get_elem?, Option, none, some, Outcome, ok, fail, message, if◌then◌else◌, show_ℤ,
}
use wdb.Admin.{is_exception, Performer}
use wdb.Admin.Commands.{Rights}
use wdb.Admin.Transactions.{Result, Pqxx, and_then, ◌>>=◌, ◌>>◌, return, throw}
use wdb.Admin.Jobs.{Setup}
use wdb.Admin.Operations.{
  Console, perform_create_user, perform_change_user, perform_drop_user, list_tables, list_indexes,
  list_io, perform_test_clean, perform_clean, perform_vacuum,
}
use wdb.Admin.Operations

abbrev pub spaces : ℕ → Bytes
spaces zero = []
spaces (suc n) = 32 ∷ spaces n

-- `setw(width) << text`
unfoldable pub padded : ℕ → Bytes → Bytes
padded width text = spaces (width - length text) ++ text

-- The text of a field; that of NULL is empty.
abbrev pub c_str : Option Bytes → Bytes
c_str none = []
c_str (some text) = text

module _ (Q : Pqxx) (setup : Setup) where
  -- What writes on the screen, and can throw in between.
  abbrev pub Print : Type 0 → Type 0
  Print A = Console Q → Outcome A × Console Q

  unfoldable pub write : Bytes → Print (Unit {0})
  write text c = (ok tt, record c { screen = c.screen ++ text })

  unfoldable pub info : Bytes → Console Q → Console Q
  info what c = record c { screen = c.screen ++ (what ++ (10 ∷ [])) }

  -- `createUser`
  unfoldable pub create_user : Bytes → (admin read write : Bool) → Print Bool
  create_user user a r w = do
    done ← perform_create_user Q setup user (record { admin = a; read = r; write = w })
    write (
        if done
        then codes "User " ++ (user ++ (codes " created" ++ (10 ∷ [])))
        else codes "Error when attempting to create user " ++ (user ++ (10 ∷ [])))
    return done

  -- `changeUser`
  unfoldable pub change_user : Bytes → (admin read write : Bool) → Print Bool
  change_user user a r w = do
    done ← perform_change_user Q setup user (record { admin = a; read = r; write = w })
    write (
        if done
        then codes "User " ++ (user ++ (codes " modified" ++ (10 ∷ [])))
        else codes "Error when attempting to change user" ++ (10 ∷ []))
    return done

  -- `dropUser`
  unfoldable pub drop_user : Bytes → Print Bool
  drop_user user = do
    done ← perform_drop_user Q setup user
    write (
        if done
        then codes "User " ++ (user ++ (codes " deleted" ++ (10 ∷ [])))
        else codes "Unable to drop user " ++ (user ++ (10 ∷ [])))
    return done

  -- What is asked for by its number, or an exception.
  abbrev pub found : ℕ → Option Bytes → Print Bytes
  found i none = throw (Q.no_such_column i)
  found i (some text) = return text

  -- `R.column_name(i)`
  unfoldable pub column_name : Result → ℕ → Print Bytes
  column_name r i = found i (get_elem? r.columns i)

  -- `it.at(i).c_str()`
  unfoldable pub field_at : List (Option Bytes) → ℕ → Print Bytes
  field_at row i = found i (Option.map c_str (get_elem? row i))

  -- `for (i = from; i < columns; i++)`, with the rounds that are left.
  unfoldable pub print_cells : (ℕ → Print Bytes) → (rounds from : ℕ) → Print (Unit {0})
  print_cells cell zero i = return tt
  print_cells cell (suc rounds) i = do
    text ← cell i
    write (padded 10 text ++ (9 ∷ []))
    print_cells cell rounds (i + 1)

  -- A line of the table: the first cell, the others, and the end of the line.
  unfoldable pub print_line : (ℕ → Print Bytes) → ℕ → Print (Unit {0})
  print_line cell columns = do
    text ← cell 0
    write (padded 30 text ++ (9 ∷ []))
    print_cells cell (columns - 1) 1
    write (10 ∷ [])

  unfoldable pub print_rows : ℕ → List (List (Option Bytes)) → Print (Unit {0})
  print_rows columns [] = return tt
  print_rows columns (row ∷ rows) = do print_line (field_at row) columns; print_rows columns rows

  -- What `listStats` does with a result.
  unfoldable pub print_result : Result → Print Bool
  print_result r = do
    (if setup.print_additional_info
        then print_line (column_name r) (length r.columns)
        else return tt)
    (if setup.print_additional_info && is_nil r.rows
        then write (codes "<No data>" ++ (10 ∷ []))
        else print_rows (length r.columns) r.rows)
    return true

  -- `listStats`
  unfoldable pub list_stats : Bytes → Print Bool
  list_stats option =
      if bytes_eq option (codes "table")
      then list_tables Q setup >>= print_result
      else if bytes_eq option (codes "index")
      then list_indexes Q setup >>= print_result
      else if bytes_eq option (codes "io")
      then list_io Q setup >>= print_result
      else (write (codes "Usage: stats <table|index|io>" ++ (10 ∷ [])) >>= λ _. return false)

  -- A line that is written only if `printAdditionalInfo()` holds.
  unfoldable pub additional : Bytes → Print (Unit {0})
  additional text = if setup.print_additional_info then write (text ++ (10 ∷ [])) else return tt

  -- `testClean`
  unfoldable pub test_clean : Print Bool
  test_clean = do
    rows ← perform_test_clean Q setup
    write (codes "Database cleaned. " ++ (show_ℤ rows ++ (codes " rows removed." ++ (10 ∷ []))))
    return true

  -- `vacuum`
  unfoldable pub vacuum : Print Bool
  vacuum = do
    additional (codes "Cleaning WDB system...")
    rows ← perform_clean Q setup
    additional (show_ℤ rows ++ codes " data objects were cleaned from the database.")
    additional (codes "Starting database vacuum...")
    done ← perform_vacuum Q setup
    (if done then additional (codes "Vacuum completed.") else return tt)
    return true

  -- The handler of `createDatabase` and `dropDatabase`.
  abbrev pub or_print : Outcome (Unit {0}) × Console Q → Outcome Bool × Console Q
  or_print (ok _, c) = (ok true, c)
  or_print (fail e, c) = if is_exception e then (ok false, info (message e) c) else (fail e, c)

  -- The guarded block of `createDatabase`.
  abbrev pub creation : Bytes → Print (Unit {0})
  creation name = do
    additional (codes "Attempting to create database <" ++ (name ++ codes ">..."))
    Operations.create_database Q setup name
    write (codes "Successfully created wdb database <" ++ (name ++ (codes ">" ++ (10 ∷ []))))

  -- `createDatabase`
  unfoldable pub create_database : Bytes → Print Bool
  create_database name c = or_print (creation name c)

  -- The guarded block of `dropDatabase`.
  abbrev pub removal : Bytes → Print (Unit {0})
  removal name = do
    Operations.drop_database Q setup name
    write (codes "Successfully dropped wdb database <" ++ (name ++ (codes ">" ++ (10 ∷ []))))

  -- `dropDatabase`
  unfoldable pub drop_database : Bytes → Print Bool
  drop_database name c = or_print (removal name c)

  -- The class, as the interpreter uses it.
  unfoldable pub output : Performer
  output = record {
    Console = Console Q;
    info = info;
    create_user = create_user;
    change_user = change_user;
    drop_user = drop_user;
    list_stats = list_stats;
    test_clean = test_clean;
    vacuum = vacuum;
    create_database = create_database;
    drop_database = drop_database;
  }
