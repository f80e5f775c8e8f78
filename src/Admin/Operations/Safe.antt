-- ===== src/Admin/Operations/Safe.antt =====
-- src/admin/operations/adminOperations.cpp: its operations end in a value or in an exception.
use wdb.Base.{
  Bool, true, false, [], ◌∷◌, ◌++◌, Bytes, codes, Option, none, some, Outcome, ok, fail, Failure,
  runtime_error, ◌==◌, ◌≡◌, refl, inl, inr, ℤ, pos, negsuc, Bool-cases, arith,
}
use wdb.Admin.{is_exception}
use wdb.Admin.Commands.{Rights}
use wdb.Admin.Transactions.{Result, Pqxx, Job}
use wdb.Admin.Operations
use wdb.Admin.Jobs.{Setup, list_tables_job, list_indexes_job, list_io_job}
use wdb.Admin.Operations.{
  Console, opened, connection_if, connection, perform_on, perform, caught, succeeded, left_in,
  perform_create_user, perform_change_user, perform_drop_user, listed, list_tables, list_indexes,
  list_io, by_status, system_call, perform_test_clean, perform_clean, perform_vacuum, vacuum_opened,
  vacuum_job, vacuum_report, test_clean_report, clean_report, silent,
}
use wdb.Admin.Operations.Steady.{
  Safe, bind-Safe, then-Safe, thrown_is_exception, Throws, execute-Safe, create_user-Safe,
  change_user-Safe, drop_user-Safe, clean_job-Safe, test_clean_job-Safe,
}

module _ (Q : Pqxx) (setup : Setup) (throws : Throws Q) where
  opened-Safe :
      (c : Console Q) (p : Outcome (Unit {0}) × Q.Database)
      → ((e : Failure) → p.0 ≡ fail e → is_exception e ≡ true)
      → (e : Failure) → (opened Q setup c p).0 ≡ fail e
      → is_exception e ≡ true
  opened-Safe c (ok _, database) hp e h = cc
  opened-Safe c (fail e', database) hp e h = hp e h

  connection_if-Safe :
      (b : Bool) (c : Console Q) (e : Failure)
      → (connection_if Q setup b c).0 ≡ fail e
      → is_exception e ≡ true
  connection_if-Safe true c e h = cc
  connection_if-Safe false c e h =
      opened-Safe c _ ((throws.connects setup.connection_text).ends c.database) e h

  connection-Safe : Safe (connection Q setup)
  unfolding connection
  connection-Safe = record { ends = λ c. connection_if-Safe c.connected c }

  perform_on-Safe :
      {A : Type 0} (job : Job Q A) (p : Outcome (Unit {0}) × Console Q)
      → Safe job
      → ((e : Failure) → p.0 ≡ fail e → is_exception e ≡ true)
      → (e : Failure) → (perform_on Q setup job p).0.0 ≡ fail e
      → is_exception e ≡ true
  perform_on-Safe {A} job (ok _, c) hj hp e h = throws.performs A job c.database e h hj
  perform_on-Safe job (fail e', c) hj hp e h = hp e h

  perform-Safe :
      {A : Type 0} (job : Job Q A) (c : Console Q)
      → Safe job
      → (e : Failure) → (perform Q setup job c).0.0 ≡ fail e
      → is_exception e ≡ true
  unfolding perform
  perform-Safe job c hj = perform_on-Safe job (connection Q setup c) hj (connection-Safe.ends c)

  caught-Safe :
      {A : Type 0} (report : Bytes → Bytes) (p : (Outcome (Unit {0}) × Option A) × Console Q)
      → ((e : Failure) → p.0.0 ≡ fail e → is_exception e ≡ true)
      → (e : Failure) → (caught Q setup report p).0 ≡ fail e
      → is_exception e ≡ true
  caught-Safe report ((ok _, written), c) hp e h = cc
  caught-Safe report ((fail e', written), c) hp e h = let fine = hp e' refl in ground arith

  succeeded-Safe :
      {A : Type 0} (p : Outcome (Bool × Option A) × Console Q)
      → ((e : Failure) → p.0 ≡ fail e → is_exception e ≡ true)
      → (e : Failure) → (succeeded Q setup p).0 ≡ fail e
      → is_exception e ≡ true
  succeeded-Safe (ok (done, written), c) hp e h = cc
  succeeded-Safe (fail e', c) hp e h = hp e (let same : e' ≡ e = cc in rw same)

  left_in-Safe :
      {A : Type 0} (a : A) (p : Outcome (Bool × Option A) × Console Q)
      → ((e : Failure) → p.0 ≡ fail e → is_exception e ≡ true)
      → (e : Failure) → (left_in Q setup a p).0 ≡ fail e
      → is_exception e ≡ true
  left_in-Safe a (ok (done, none), c) hp e h = cc
  left_in-Safe a (ok (done, some a'), c) hp e h = cc
  left_in-Safe a (fail e', c) hp e h = hp e (let same : e' ≡ e = cc in rw same)

  -- An operation that performs a job and answers whether it went well.
  performs-Safe :
      {A : Type 0} (report : Bytes → Bytes) {job : Job Q A}
      → Safe job
      → Safe (λ c. succeeded Q setup (caught Q setup report (perform Q setup job c)))
  performs-Safe report {job} hj = record {
    ends = λ c. succeeded-Safe _ (caught-Safe report _ (perform-Safe job c hj));
  }

  -- An operation that performs a job and gives what it leaves.
  leaves-Safe :
      {A : Type 0} (a : A) (report : Bytes → Bytes) {job : Job Q A}
      → Safe job
      → Safe (λ c. left_in Q setup a (caught Q setup report (perform Q setup job c)))
  leaves-Safe a report {job} hj = record {
    ends = λ c. left_in-Safe a _ (caught-Safe report _ (perform-Safe job c hj));
  }

  vacuum_opened-Safe :
      (c : Console Q) (p : Outcome Q.Transaction × Q.Database)
      → ((e : Failure) → p.0 ≡ fail e → is_exception e ≡ true)
      → (e : Failure) → (vacuum_opened Q setup c p).0 ≡ fail e
      → is_exception e ≡ true
  vacuum_opened-Safe c (fail e', database) hp e h = hp e (let same : e' ≡ e = cc in rw same)
  vacuum_opened-Safe c (ok t, database) hp e h =
      let done : Safe (vacuum_job Q) =
        then-Safe (execute-Safe Q throws (codes "VACUUM ANALYZE")) throws.commits in
      succeeded-Safe
        (caught Q setup {A = Unit {0}} vacuum_report
          (((vacuum_job Q t).0, none), record c { database = Q.close (vacuum_job Q t).1 }))
        (caught-Safe vacuum_report _ (done.ends t)) e h

  pub perform_vacuum-Safe : Safe (perform_vacuum Q setup)
  unfolding perform_vacuum
  perform_vacuum-Safe = bind-Safe connection-Safe (λ _. record {
    ends = λ c. vacuum_opened-Safe c _ (throws.opens (codes "Vacuum Job") c.database);
  })

  pub perform_create_user-Safe :
      (user : Bytes) (asked : Rights) → Safe (perform_create_user Q setup user asked)
  unfolding perform_create_user
  perform_create_user-Safe user asked =
      performs-Safe (λ what. what ++ (10 ∷ []))
        (create_user-Safe Q throws setup.wci_user (setup.to_lower_copy user) asked)

  pub perform_change_user-Safe :
      (user : Bytes) (asked : Rights) → Safe (perform_change_user Q setup user asked)
  unfolding perform_change_user
  perform_change_user-Safe user asked =
      performs-Safe silent (change_user-Safe Q throws (setup.to_lower_copy user) asked)

  pub perform_drop_user-Safe : (user : Bytes) → Safe (perform_drop_user Q setup user)
  unfolding perform_drop_user
  perform_drop_user-Safe user =
      performs-Safe silent (drop_user-Safe Q throws (setup.to_lower_copy user))

  pub perform_test_clean-Safe : Safe (perform_test_clean Q setup)
  unfolding perform_test_clean
  perform_test_clean-Safe =
      leaves-Safe (pos 0) test_clean_report (test_clean_job-Safe Q throws setup.wci_user)

  pub perform_clean-Safe : Safe (perform_clean Q setup)
  unfolding perform_clean
  perform_clean-Safe = leaves-Safe (pos 0) clean_report (clean_job-Safe Q throws)

  by_status-Safe :
      (error : Bytes) (status : ℤ) (e : Failure)
      → by_status Q setup error status ≡ fail e
      → is_exception e ≡ true
  by_status-Safe error (pos n) e h = elim (Bool-cases (n == 0)) [
    | inl z ↦ let impossible : ok tt ≡ fail e = rw z at h in absurd cc
    | inr nz ↦
        let thrown : ◌≡◌ {A = Outcome (Unit {0})} (fail (runtime_error error)) (fail e) =
          rw nz at h in
        thrown_is_exception (runtime_error error) e refl thrown
  ]
  by_status-Safe error (negsuc n) e h = thrown_is_exception (runtime_error error) e refl h

  system_call-Safe : (command error : Bytes) → Safe (system_call Q setup command error)
  system_call-Safe command error = record {
    ends = λ c. by_status-Safe error (Q.system command c.database).0;
  }

  pub create_database-Safe : (name : Bytes) → Safe (Operations.create_database Q setup name)
  unfolding Operations.create_database
  create_database-Safe name = system_call-Safe _ (codes "Error when creating database")

  pub drop_database-Safe : (name : Bytes) → Safe (Operations.drop_database Q setup name)
  unfolding Operations.drop_database
  drop_database-Safe name = system_call-Safe _ (codes "Error when dropping database")

  listed-Safe : (report : Bytes) (job : Job Q Result) → Safe job → Safe (listed Q setup report job)
  listed-Safe report job h = leaves-Safe _ (λ what. report) h

  pub list_tables-Safe : Safe (list_tables Q setup)
  unfolding list_tables list_tables_job
  list_tables-Safe = listed-Safe _ (list_tables_job Q setup) (throws.execs _)

  pub list_indexes-Safe : Safe (list_indexes Q setup)
  unfolding list_indexes list_indexes_job
  list_indexes-Safe = listed-Safe _ (list_indexes_job Q setup) (throws.execs _)

  pub list_io-Safe : Safe (list_io Q setup)
  unfolding list_io list_io_job
  list_io-Safe = listed-Safe _ (list_io_job Q setup) (throws.execs _)
