-- ===== src/Admin/Operations.antt =====
-- src/admin/operations/adminOperations.cpp with the transactors listTables.h, listIndexes.h,
-- listIo.h, performClean.h and performTestClean.h. `cerr` and `clog` are one log.
pub mod Steady
pub mod Safe
use wdb.Base.{
  ℕ, Bool, true, false, List, [], ◌∷◌, ◌++◌, Bytes, codes, Option, none, some, Outcome, ok, fail,
  runtime_error, undefined, message, ◌==◌, if◌then◌else◌, ℤ, pos, negsuc, ◌-ℤ◌,
}
use wdb.Admin.{is_exception}
use wdb.Admin.Commands.{Rights}
use wdb.Admin.Jobs.{
  Setup, clean_job, test_clean_job, list_tables_job, list_indexes_job, list_io_job,
}
use wdb.Admin.Transactions.{Result, Pqxx, Job, and_then, ◌>>=◌, ◌>>◌, return, throw}
use wdb.Admin.Users.{execute, create_user, change_user, drop_user}

pub record Console (Q : Pqxx) : Type 0 where
  pub screen : Bytes
  pub log : Bytes
  -- `connection_` is set
  pub connected : Bool
  pub database : Q.Database

abbrev pub silent : Bytes → Bytes
silent what = []

abbrev pub test_clean_report : Bytes → Bytes
test_clean_report what =
    codes "Unexpected exception throw in WDB testclean: " ++ (what ++ (10 ∷ []))

abbrev pub clean_report : Bytes → Bytes
clean_report what = codes "Unexpected exception throw in WDB clean: " ++ (what ++ (10 ∷ []))

abbrev pub vacuum_report : Bytes → Bytes
vacuum_report what = codes "Unexpected exception throw in WDB vacuum: " ++ (what ++ (10 ∷ []))

module _ (Q : Pqxx) where
  abbrev pub vacuum_job : Job Q (Unit {0})
  vacuum_job = do execute Q (codes "VACUUM ANALYZE"); Q.commit

  module _ (setup : Setup) where
    abbrev pub opened : Console Q → Outcome (Unit {0}) × Q.Database → Outcome (Unit {0}) × Console Q
    opened c (ok _, database) = (ok tt, record c { connected = true; database = database })
    opened c (fail e, database) = (fail e, record c { database = database })

    abbrev pub connection_if : Bool → Console Q → Outcome (Unit {0}) × Console Q
    connection_if true c = (ok tt, c)
    connection_if false c = opened c (Q.connect setup.connection_text c.database)

    -- `connection()`
    unfoldable pub connection : Console Q → Outcome (Unit {0}) × Console Q
    connection c = connection_if c.connected c

    abbrev pub perform_on :
        {A : Type 0}
        → Job Q A
        → Outcome (Unit {0}) × Console Q
        → (Outcome (Unit {0}) × Option A) × Console Q
    perform_on job (fail e, c) = ((fail e, none), c)
    perform_on {A} job (ok _, c) =
        let (ending, written, database) = Q.perform A job c.database in
        ((ending, written), record c { database = database })

    -- `connection().perform(job)`: how it ends, and what the job has written.
    unfoldable pub perform :
        {A : Type 0} → Job Q A → Console Q → (Outcome (Unit {0}) × Option A) × Console Q
    unfolding connection
    perform job c = perform_on job (connection c)

    abbrev pub log_line : Bytes → Console Q → Console Q
    log_line text c = record c { log = c.log ++ text }

    -- The handler `catch (std::exception & e)` around a job: what was written stays written, and
    -- the text goes to the log.
    abbrev pub caught :
        {A : Type 0}
        → (Bytes → Bytes)
        → (Outcome (Unit {0}) × Option A) × Console Q
        → Outcome (Bool × Option A) × Console Q
    caught report ((ok _, written), c) = (ok (true, written), c)
    caught report ((fail e, written), c) =
        if is_exception e
        then (ok (false, written), log_line (report (message e)) c)
        else (fail e, c)

    abbrev pub succeeded :
        {A : Type 0} → Outcome (Bool × Option A) × Console Q → Outcome Bool × Console Q
    succeeded (ok (done, written), c) = (ok done, c)
    succeeded (fail e, c) = (fail e, c)

    -- What stands in a variable that had a value before the call.
    abbrev pub left_in :
        {A : Type 0} → A → Outcome (Bool × Option A) × Console Q → Outcome A × Console Q
    left_in a (ok (done, none), c) = (ok a, c)
    left_in a (ok (done, some a'), c) = (ok a', c)
    left_in a (fail e, c) = (fail e, c)

    -- `performCreateUser`
    unfoldable pub perform_create_user : Bytes → Rights → Console Q → Outcome Bool × Console Q
    unfolding perform
    perform_create_user username asked c = succeeded (
        caught (λ what. what ++ (10 ∷ []))
          (perform (create_user Q setup.wci_user (setup.to_lower_copy username) asked) c))

    -- `performChangeUser`
    unfoldable pub perform_change_user : Bytes → Rights → Console Q → Outcome Bool × Console Q
    unfolding perform
    perform_change_user username asked c =
        succeeded (caught silent (perform (change_user Q (setup.to_lower_copy username) asked) c))

    -- `performDropUser`
    unfoldable pub perform_drop_user : Bytes → Console Q → Outcome Bool × Console Q
    unfolding perform
    perform_drop_user username c =
        succeeded (caught silent (perform (drop_user Q (setup.to_lower_copy username)) c))

    -- `listTables`, `listIndexes` and `listIo`; the result is empty unless the job fills it.
    abbrev pub listed : Bytes → Job Q Result → Console Q → Outcome Result × Console Q
    listed report job c =
        left_in (record { columns = []; rows = [] }) (caught (λ what. report) (perform job c))

    unfoldable pub list_tables : Console Q → Outcome Result × Console Q
    unfolding perform list_tables_job
    list_tables =
        listed (codes "Unexpected exception throw in list tables query") (list_tables_job Q setup)

    unfoldable pub list_indexes : Console Q → Outcome Result × Console Q
    unfolding perform list_indexes_job
    list_indexes =
        listed (codes "Unexpected exception throw in list indexes query") (list_indexes_job Q setup)

    unfoldable pub list_io : Console Q → Outcome Result × Console Q
    unfolding perform list_io_job
    list_io = listed (codes "Unexpected exception throw in list io query") (list_io_job Q setup)

    -- `performTestClean`
    unfoldable pub perform_test_clean : Console Q → Outcome ℤ × Console Q
    unfolding perform test_clean_job
    perform_test_clean c =
        left_in (pos 0) (caught test_clean_report (perform (test_clean_job Q setup.wci_user) c))

    -- `performClean`
    unfoldable pub perform_clean : Console Q → Outcome ℤ × Console Q
    unfolding perform clean_job
    perform_clean c = left_in (pos 0) (caught clean_report (perform (clean_job Q) c))

    -- The guarded block of `performVacuum` on its transaction.
    abbrev pub vacuum_in : Console Q → Q.Transaction → Outcome Bool × Console Q
    vacuum_in c t =
        let (result, t') = vacuum_job t in
        succeeded {A = Unit {0}}
          (caught vacuum_report ((result, none), record c { database = Q.close t' }))

    abbrev pub vacuum_opened :
        Console Q → Outcome Q.Transaction × Q.Database → Outcome Bool × Console Q
    vacuum_opened c (fail e, database) = (fail e, record c { database = database })
    vacuum_opened c (ok t, database) = vacuum_in (record c { database = database }) t

    -- `performVacuum`: the transaction is opened outside the `try`.
    unfoldable pub perform_vacuum : Console Q → Outcome Bool × Console Q
    unfolding connection
    perform_vacuum =
        ◌>>=◌ connection (λ _ c. vacuum_opened c (Q.nontransaction (codes "Vacuum Job") c.database))

    abbrev pub by_status : Bytes → ℤ → Outcome (Unit {0})
    by_status error (pos n) = if n == 0 then ok tt else fail (runtime_error error)
    by_status error (negsuc n) = fail (runtime_error error)

    abbrev pub system_call : Bytes → Bytes → Console Q → Outcome (Unit {0}) × Console Q
    system_call command error c =
        let (status, database) = Q.system command c.database in
        (by_status error status, record c { database = database })

    -- `createDatabase`
    unfoldable pub create_database : Bytes → Console Q → Outcome (Unit {0}) × Console Q
    create_database name =
        system_call (setup.pkglibdir ++ (codes "/install_database -d " ++ name))
          (codes "Error when creating database")

    -- `dropDatabase`
    unfoldable pub drop_database : Bytes → Console Q → Outcome (Unit {0}) × Console Q
    drop_database name =
        system_call (setup.pkglibdir ++ (codes "/uninstall_database -d " ++ name))
          (codes "Error when dropping database")
