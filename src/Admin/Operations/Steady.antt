-- ===== src/Admin/Operations/Steady.antt =====
-- src/admin: the operations behind the command line end in a value or in an exception, as the loop
-- of the interpreter needs it.
use wdb.Base.{
  ℕ, Bool, true, false, not, ◌&&◌, List, ◌∷◌, Bytes, is_nil, length, Option, some, Outcome, ok,
  fail, Failure, ◌==◌, ◌≡◌, refl, if◌then◌else◌,
}
use wdb.Admin.{is_exception}
use wdb.Admin.Commands.{Rights}
use wdb.Admin.Transactions.{Result, Pqxx, Job, and_then, ◌>>=◌, ◌>>◌, return, throw}
use wdb.Admin.Jobs.{
  count_blobs, count_provided, clean_statement, test_clean_statement, first_int, count_around,
  clean_job, test_clean_job,
}
use wdb.Admin.Users.{
  read_role, write_role, admin_role, execute, when, role_exists, has_role, check_roles, revoke_role,
  grant_role, revoke_roles, grant_roles, change_user, ensure_role, create_role, create_user,
  create_data_provider, drop_user,
}

-- A step of a program that can fail ends in a value or in an exception of C++.
pub record Safe {T A : Type 0} (m : T → Outcome A × T) : Type 0 where
  pub ends : (t : T) (e : Failure) → (m t).0 ≡ fail e → is_exception e ≡ true

and_then-Safe :
    {T A B : Type 0} (p : Outcome A × T) (f : A → T → Outcome B × T)
    → ((e : Failure) → p.0 ≡ fail e → is_exception e ≡ true)
    → ((a : A) → p.0 ≡ ok a → Safe (f a))
    → (e : Failure) → (and_then p f).0 ≡ fail e
    → is_exception e ≡ true
and_then-Safe (ok a, t) f hp hf e h = (hf a refl).ends t e h
and_then-Safe (fail e', t) f hp hf e h = hp e (let same : e' ≡ e = cc in rw same)

pub thrown_is_exception :
    {A : Type 0} (f e : Failure)
    → is_exception f ≡ true
    → ◌≡◌ {A = Outcome A} (fail f) (fail e)
    → is_exception e ≡ true
thrown_is_exception f e hf h = let same : f ≡ e = cc in rw (← same) hf

module _ {T : Type 0} where
  -- A step may use that the value came from the one before it.
  bind_from-Safe :
      {A B : Type 0} {m : T → Outcome A × T} {f : A → T → Outcome B × T}
      → Safe m
      → ((a : A) (t : T) → (m t).0 ≡ ok a → Safe (f a))
      → Safe (m >>= f)
  bind_from-Safe {m} {f} hm hf = record {
    ends = λ t. and_then-Safe (m t) f (hm.ends t) (λ a. hf a t);
  }

  pub bind-Safe :
      {A B : Type 0} {m : T → Outcome A × T} {f : A → T → Outcome B × T}
      → Safe m
      → ((a : A) → Safe (f a))
      → Safe (m >>= f)
  bind-Safe hm hf = bind_from-Safe hm (λ a t h. hf a)

  pub then-Safe :
      {A B : Type 0} {m : T → Outcome A × T} {k : T → Outcome B × T}
      → Safe m
      → Safe k
      → Safe (m >> k)
  then-Safe {m} {k} hm hk = record {
    ends = λ t. and_then-Safe (m t) (λ _. k) (hm.ends t) (λ a h. hk);
  }

  pub return-Safe : {A : Type 0} (a : A) → Safe {T = T} (return a)
  return-Safe a = record { ends = λ t e h. cc }

  pub throw-Safe :
      {A : Type 0} (f : Failure) → is_exception f ≡ true → Safe {T = T} {A = A} (throw f)
  throw-Safe f hf = record { ends = λ t e h. thrown_is_exception f e hf h }

  pub if-Safe :
      {A : Type 0} (b : Bool) {m k : T → Outcome A × T}
      → Safe m
      → Safe k
      → Safe (if b then m else k)
  if-Safe true hm hk = hm
  if-Safe false hm hk = hk

-- The documented behaviour of libpqxx and of the count in a statement: what is thrown is an
-- exception, a transaction throws what its job throws or an exception of its own, and a count is one
-- row with a number in it.
pub record Throws (Q : Pqxx) : Type 1 where
  pub execs : (statement : Bytes) → Safe (Q.exec statement)
  pub connects : (text : Bytes) → Safe (Q.connect text)
  pub opens :
      (name : Bytes) (d : Q.Database) (e : Failure)
      → (Q.nontransaction name d).0 ≡ fail e
      → is_exception e ≡ true
  pub commits : Safe Q.commit
  pub reads : (text : Bytes) (e : Failure) → Q.to_int text ≡ fail e → is_exception e ≡ true
  pub columns : (i : ℕ) → is_exception (Q.no_such_column i) ≡ true
  pub counts_blobs :
      (t : Q.Transaction) (r : Result)
      → (Q.exec count_blobs t).0 ≡ ok r
      → (text : Bytes) × (rest : List (Option Bytes)) × (rows : List (List (Option Bytes)))
        × (r.rows ≡ (some text ∷ rest) ∷ rows)
  pub counts_provided :
      (t : Q.Transaction) (r : Result)
      → (Q.exec count_provided t).0 ≡ ok r
      → (text : Bytes) × (rest : List (Option Bytes)) × (rows : List (List (Option Bytes)))
        × (r.rows ≡ (some text ∷ rest) ∷ rows)
  pub performs :
      (A : Type 0) (job : Job Q A) (d : Q.Database) (e : Failure)
      → (Q.perform A job d).0 ≡ fail e
      → Safe job
      → is_exception e ≡ true

module _ (Q : Pqxx) (throws : Throws Q) where
  pub execute-Safe : (statement : Bytes) → Safe (execute Q statement)
  execute-Safe statement = bind-Safe (throws.execs statement) (λ r. return-Safe tt)

  when-Safe : (b : Bool) (job : Job Q (Unit {0})) → Safe job → Safe (when Q b job)
  when-Safe true job h = h
  when-Safe false job h = return-Safe tt

  role_exists-Safe : (user : Bytes) → Safe (role_exists Q user)
  unfolding role_exists
  role_exists-Safe user = bind-Safe (throws.execs _) (λ r.
      if-Safe (is_nil r.rows) (return-Safe false)
        (if-Safe (length r.rows == 1) (return-Safe true) (throw-Safe _ refl)))

  has_role-Safe : (user role : Bytes) → Safe (has_role Q user role)
  has_role-Safe user role = bind-Safe (throws.execs _) (λ r. return-Safe _)

  pub change_user-Safe : (user : Bytes) (asked : Rights) → Safe (change_user Q user asked)
  unfolding change_user check_roles revoke_roles grant_roles revoke_role grant_role
  change_user-Safe user asked =
      bind-Safe
        (bind-Safe (has_role-Safe user read_role) (λ r.
          bind-Safe (has_role-Safe user write_role)
            (λ w. bind-Safe (has_role-Safe user admin_role) (λ a. return-Safe _))))
        (λ has.
          then-Safe
            (then-Safe (when-Safe (not asked.admin && has.admin) _ (execute-Safe _)) (
              then-Safe (when-Safe (not asked.read && has.read) _ (execute-Safe _))
                (when-Safe (not asked.write && has.write) _ (execute-Safe _))))
            (then-Safe (when-Safe (asked.admin && not has.admin) _ (execute-Safe _)) (
              then-Safe (when-Safe (asked.read && not has.read) _ (execute-Safe _))
                (when-Safe (asked.write && not has.write) _ (execute-Safe _)))))

  ensure_role-Safe : (user : Bytes) → Safe (ensure_role Q user)
  unfolding ensure_role create_role
  ensure_role-Safe user = bind-Safe (role_exists-Safe user) (λ exists.
      if-Safe exists (return-Safe tt) (
        then-Safe (execute-Safe _) (
          bind-Safe (role_exists-Safe user)
            (λ created. if-Safe created (return-Safe tt) (throw-Safe _ refl)))))

  pub create_user-Safe :
      (my_user user : Bytes) (asked : Rights) → Safe (create_user Q my_user user asked)
  unfolding create_user create_data_provider
  create_user-Safe my_user user asked =
      then-Safe (execute-Safe _) (
        then-Safe (ensure_role-Safe user)
          (then-Safe (change_user-Safe user asked) (execute-Safe _)))

  pub drop_user-Safe : (user : Bytes) → Safe (drop_user Q user)
  unfolding drop_user
  drop_user-Safe user = bind-Safe (role_exists-Safe user) (λ exists.
      if-Safe exists
        (then-Safe (execute-Safe _) (
          bind-Safe (role_exists-Safe user)
            (λ remains. if-Safe remains (throw-Safe _ refl) (return-Safe tt))))
        (throw-Safe _ refl))

  -- A count has a value.
  first_int-Safe :
      (text : Bytes) (rest : List (Option Bytes)) (rows : List (List (Option Bytes))) (r : Result)
      → r.rows ≡ (some text ∷ rest) ∷ rows
      → (e : Failure) → first_int Q r ≡ fail e
      → is_exception e ≡ true
  unfolding first_int
  first_int-Safe text rest rows r h e = rw h (throws.reads text e)

  count_around-Safe :
      (count statement : Bytes)
      → ((t : Q.Transaction) (r : Result)
          → (Q.exec count t).0 ≡ ok r
          → (e : Failure) → first_int Q r ≡ fail e
          → is_exception e ≡ true)
      → Safe (count_around Q count statement)
  unfolding count_around
  count_around-Safe count statement h = bind_from-Safe (throws.execs count) (λ r1 t1 e1.
      then-Safe (execute-Safe statement) (
        bind_from-Safe (throws.execs count) (λ r2 t2 e2.
          bind-Safe (record { ends = λ t. h t1 r1 e1 })
            (λ c1. bind-Safe (record { ends = λ t. h t2 r2 e2 }) (λ c2. return-Safe _)))))

  pub clean_job-Safe : Safe (clean_job Q)
  unfolding clean_job
  clean_job-Safe = count_around-Safe count_blobs clean_statement (λ t r o.
      let (text, rest, rows, h) = throws.counts_blobs t r o in first_int-Safe text rest rows r h)

  pub test_clean_job-Safe : (wci_user : Bytes) → Safe (test_clean_job Q wci_user)
  unfolding test_clean_job
  test_clean_job-Safe wci_user = then-Safe (execute-Safe _) (
      count_around-Safe count_provided test_clean_statement (λ t r o.
        let (text, rest, rows, h) = throws.counts_provided t r o in
        first_int-Safe text rest rows r h))
