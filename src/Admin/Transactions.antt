-- ===== src/Admin/Transactions.antt =====
-- libpqxx, as the transactors of src/admin/operations use it: a parameter. A job is the functor of a
-- transactor, `operator () (argument_type & T)`.
use wdb.Base.{ℕ, List, Bytes, Option, Outcome, ok, fail, Failure, ℤ}

-- `pqxx::result`; a field is `none` for NULL.
pub record Result : Type 0 where
  pub columns : List Bytes
  pub rows : List (List (Option Bytes))

-- A transaction executes a statement or throws. `perform` runs a job in a transaction, as often as
-- it sees fit, and gives what the last run that came to its end has written through the references
-- of the transactor.
pub record Pqxx : Type 1 where
  pub Database : Type 0
  pub Transaction : Type 0
  pub exec : Bytes → Transaction → Outcome Result × Transaction
  pub esc : Bytes → Bytes
  pub to_int : Bytes → Outcome ℤ
  pub no_such_column : ℕ → Failure
  pub no_such_row : ℕ → Failure
  pub connect : Bytes → Database → Outcome (Unit {0}) × Database
  pub perform :
      (A : Type 0)
      → (Transaction → Outcome A × Transaction)
      → Database
      → Outcome (Unit {0}) × Option A × Database
  pub nontransaction : Bytes → Database → Outcome Transaction × Database
  pub commit : Transaction → Outcome (Unit {0}) × Transaction
  pub close : Transaction → Database
  -- `std::system`
  pub system : Bytes → Database → ℤ × Database

abbrev pub Job : Pqxx → Type 0 → Type 0
Job Q A = Q.Transaction → Outcome A × Q.Transaction

abbrev pub and_then : {T A B : Type 0} → Outcome A × T → (A → T → Outcome B × T) → Outcome B × T
and_then (ok a, t) f = f a t
and_then (fail e, t) f = (fail e, t)

module _ {T A B : Type 0} where
  infixl 5 ◌>>=◌ ◌>>◌
  abbrev pub ◌>>=◌ : (T → Outcome A × T) → (A → T → Outcome B × T) → T → Outcome B × T
  ◌>>=◌ m f t = and_then (m t) f

  abbrev pub ◌>>◌ : (T → Outcome A × T) → (T → Outcome B × T) → T → Outcome B × T
  ◌>>◌ m k t = and_then (m t) (λ _. k)

abbrev pub return : {T A : Type 0} → A → T → Outcome A × T
return a t = (ok a, t)

abbrev pub throw : {T A : Type 0} → Failure → T → Outcome A × T
throw e t = (fail e, t)
