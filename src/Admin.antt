-- ===== src/Admin.antt =====
-- src/admin: the administration program `wdb`. This file has what its parts share: how a command
-- ends, and what the command line interpreter needs of the class that performs and prints.
pub mod Words
pub mod Table
pub mod Commands
pub mod Loop
pub mod Transactions
pub mod Users
pub mod Jobs
pub mod Operations
pub mod Output
use wdb.Base.{
  Bool, true, false, Bytes, Outcome, ok, fail, Failure, invalid_query, logic_error, runtime_error,
  out_of_range,
}

-- What `catch (std::exception & e)` takes.
abbrev pub is_exception : Failure → Bool
is_exception invalid_query = true
is_exception (logic_error m) = true
is_exception (runtime_error m) = true
is_exception (out_of_range m) = true
is_exception _ = false

-- What a command answers: its truth value, `throw EndOfFileInput()`, or a C++ exception.
pub data Answer : Type 0 where
  returned : Bool → Answer
  end_of_file_input : Answer
  thrown : Failure → Answer

abbrev pub answer_of : Outcome Bool → Answer
answer_of (ok done) = returned done
answer_of (fail e) = thrown e

-- `AdminCommandLineOutput`, as the interpreter uses it: each operation changes what stands behind
-- it (the text on the screen, the log, the database).
pub record Performer : Type 1 where
  pub Console : Type 0
  pub info : Bytes → Console → Console
  pub create_user : Bytes → (admin read write : Bool) → Console → Outcome Bool × Console
  pub change_user : Bytes → (admin read write : Bool) → Console → Outcome Bool × Console
  pub drop_user : Bytes → Console → Outcome Bool × Console
  pub list_stats : Bytes → Console → Outcome Bool × Console
  pub test_clean : Console → Outcome Bool × Console
  pub vacuum : Console → Outcome Bool × Console
  pub create_database : Bytes → Console → Outcome Bool × Console
  pub drop_database : Bytes → Console → Outcome Bool × Console
