-- ===== src/Clean/Trace.antt =====
-- The statements that `cleanupdb` of src/cleaningProgram/cleanDb.c executes.
use wdb.Base.{
  ℕ, ltb, true, false, not, ◌&&◌, ◌||◌, List, [], ◌∷◌, ◌++◌, map, append_assoc, append-nil, Bytes,
  codes, Option, some, Outcome, ok, fail, Failure, ◌==◌, if◌then◌else◌, All, ◌≡◌, ◌≤◌, ◌⊎◌, refl,
  sym, ◌∙◌, arith, inl, inr, Bool-cases,
}
use wdb.Clean.{
  is_valid_function_name, Spi, Answer, selected, not_selected, raised, Run, Step, and_then,
  call_function, cleanup_with, strategies, query_of, final_cleanup, execute_for_effect,
  call_functions, cleanupdb,
}

-- A letter or an underscore.
abbrev pub IsPlain : ℕ → Type 0
IsPlain c = ((b'a' ≤ c) × (c ≤ b'z')) ⊎ (((b'A' ≤ c) × (c ≤ b'Z')) ⊎ (c ≡ b'_'))

-- The names of the table that may be called.
abbrev pub valid_names : List Bytes → List Bytes
valid_names [] = []
valid_names (name ∷ names) =
    let rest = valid_names names in if is_valid_function_name name then name ∷ rest else rest

IsPlain-letter :
    (c : ℕ)
    → ((ltb c b'a' || ltb b'z' c) && ((ltb c b'A' || ltb b'Z' c) && not (c == b'_'))) ≡ false
    → IsPlain c
IsPlain-letter c h = ground arith

is_valid_function_name-IsPlain :
    (name : Bytes) → is_valid_function_name name ≡ true → All IsPlain name
unfolding is_valid_function_name
is_valid_function_name-IsPlain [] h = tt
is_valid_function_name-IsPlain (c ∷ name) h =
    elim (Bool-cases
      ((ltb c b'a' || ltb b'z' c) && ((ltb c b'A' || ltb b'Z' c) && not (c == b'_')))) [
        | inl e ↦ let impossible : false ≡ true = rw e at h in absurd cc
        | inr e ↦ (IsPlain-letter c e, is_valid_function_name-IsPlain name (rw e at h))
      ]

valid_names-IsPlain : (names : List Bytes) → All (All IsPlain) (valid_names names)
valid_names-IsPlain [] = tt
valid_names-IsPlain (name ∷ names) = elim (Bool-cases (is_valid_function_name name)) [
  | inl e ↦ rw e (is_valid_function_name-IsPlain name e, valid_names-IsPlain names)
  | inr e ↦ rw e (valid_names-IsPlain names)
]

Answer-cases :
    (a : Answer)
    → ((rows : List (Option Bytes)) × (a ≡ selected rows))
      ⊎ ((a ≡ not_selected) ⊎ ((e : Failure) × (a ≡ raised e)))
Answer-cases (selected rows) = inl (rows, refl)
Answer-cases not_selected = inr (inl refl)
Answer-cases (raised e) = inr (inr (e, refl))

module _ (spi : Spi) where
  -- Statements in their order, up to the first that raises an error: those that are executed, and
  -- how they end.
  abbrev pub until_error : List Bytes → spi.Database → List Bytes × Outcome (Unit {0})
  until_error [] database = ([], ok tt)
  until_error (query ∷ queries) database =
      let (answer, database') = spi.execute query database in
      let rest = until_error queries database' in
      elim answer [
        | selected rows ↦ (query ∷ rest.0, rest.1)
        | not_selected ↦ (query ∷ rest.0, rest.1)
        | raised e ↦ (query ∷ [], fail e)
      ]

  -- What a step executes and how it ends are those of a list of statements.
  abbrev Executes : Step spi → Run spi → List Bytes → Type 0
  Executes step r queries =
      (step.1.executed ≡ r.executed ++ (until_error queries r.database).0)
      × (step.0 ≡ (until_error queries r.database).1)

  Executes-effect :
      (query warning : Bytes) (queries : List Bytes) (k : Run spi → Step spi) (r : Run spi)
      → ((r : Run spi) → Executes (k r) r queries)
      → Executes (and_then spi (execute_for_effect spi query warning r) k) r (query ∷ queries)
  Executes-effect query warning queries k r next =
      let database = (spi.execute query r.database).1 in
      let run : Run spi = record {
        executed = r.executed ++ query ∷ [];
        warnings = r.warnings;
        database = database;
      } in
      elim (Answer-cases (spi.execute query r.database).0) [
        | inl (rows, e) ↦
            let (trace, ended) = next run in
            rw (execute_for_effect, and_then, until_error, e)
              (trace ∙ append_assoc r.executed (query ∷ []) _, ended)
        | inr (inl e) ↦
            let (trace, ended) = next (record run { warnings = r.warnings ++ warning ∷ [] }) in
            rw (execute_for_effect, and_then, until_error, e)
              (trace ∙ append_assoc r.executed (query ∷ []) _, ended)
        | inr (inr (f, e)) ↦ rw (execute_for_effect, and_then, until_error, e) (refl, refl)
      ]

  then_done : (step : Step spi) → and_then spi step (λ r. (ok tt, r)) ≡ step
  then_done (ok u, r) = refl
  then_done (fail e, r) = refl

  then_then :
      (step : Step spi) (f k : Run spi → Step spi)
      → and_then spi (and_then spi step f) k ≡ and_then spi step (λ r. and_then spi (f r) k)
  then_then (ok u, r) f k = refl
  then_then (fail e, r) f k = refl

  Executes-call_functions :
      (names queries : List Bytes) (k : Run spi → Step spi) (r : Run spi)
      → ((r : Run spi) → Executes (k r) r queries)
      → Executes
          (and_then spi (call_functions spi (map some names) r) k)
          r
          (map query_of (valid_names names) ++ queries)
  unfolding call_functions call_function
  Executes-call_functions [] queries k r next = next r
  Executes-call_functions (name ∷ names) queries k r next =
      let rest : (r : Run spi) → Step spi = λ r. call_functions spi (map some names) r in
      elim (Bool-cases (is_valid_function_name name)) [
        | inl e ↦
            rw (e, then_then _ rest k)
              (Executes-effect (query_of name)
                (codes "Cleaner: Error when executing function " ++ name ++ codes "()")
                (map query_of (valid_names names) ++ queries) (λ r. and_then spi (rest r) k) r
                (λ r. Executes-call_functions names queries k r next))
        | inr e ↦ rw (e) (Executes-call_functions names queries k _ next)
      ]

  Executes-final :
      (schema : Bytes) (r : Run spi)
      → Executes
          (execute_for_effect spi
            (final_cleanup schema)
            (codes "Cleaner: Error when executing function final cleanup")
            r)
          r
          (final_cleanup schema ∷ [])
  Executes-final schema r = rw (then_done _) at (
      Executes-effect (final_cleanup schema)
        (codes "Cleaner: Error when executing function final cleanup") [] (λ r. (ok tt, r)) r
        (λ r. (sym (append-nil r.executed), refl)))

-- Where SPI connects and the table of cleaning functions is read without NULL, `cleanupdb` executes
-- the query for the table and then these statements, up to the first that raises an error: a
-- call of each function of the table whose name is valid, in the table's order, and the final
-- clean-up. It ends by that error, or else normally, also where a statement only fails to
-- select; and a valid name consists of letters and underscores.
pub cleanupdb-executed :
    (spi : Spi) (schema : Bytes) (database : spi.Database) (names : List Bytes)
    → (spi.execute strategies database).0 ≡ selected (map some names)
    → ((cleanupdb spi true schema database).1.executed
        ≡ strategies
          ∷ (until_error spi
              (map query_of (valid_names names) ++ final_cleanup schema ∷ [])
              (spi.execute strategies database).1).0)
      × ((cleanupdb spi true schema database).0
          ≡ (until_error spi
              (map query_of (valid_names names) ++ final_cleanup schema ∷ [])
              (spi.execute strategies database).1).1)
      × All (All IsPlain) (valid_names names)
unfolding cleanupdb cleanup_with
cleanupdb-executed spi schema database names table =
    let (trace, ended) =
      Executes-call_functions spi names (final_cleanup schema ∷ [])
        (λ r.
          execute_for_effect spi (final_cleanup schema)
            (codes "Cleaner: Error when executing function final cleanup") r)
        (record {
          executed = strategies ∷ [];
          warnings = [];
          database = (spi.execute strategies database).1;
        })
        (Executes-final spi schema) in
    (rw table trace, rw table ended, valid_names-IsPlain names)
