-- ===== src/Read/Sequence.antt =====
-- All calls of `wciReadFloat` (src/callInterface/core/wciRead/wciReadFloat.c) for one statement.
use wdb.Base.{
  drop-get, drop-get-some, ℕ, suc, ◌+◌, Bool, true, false, List, [], ◌∷◌, ◌++◌, map, Bytes, length,
  get_elem?, drop-next, Option, none, some, Option-cases, Outcome, ok, fail, ◌>>=◌, Outcome-cases,
  catch_as, data_exception, if◌then◌else◌, ◌≡◌, refl, sym, arith, inl, inr, Failure, invalid_query,
  logic_error, runtime_error, out_of_range, ereport, null_dereference, undefined, bind-eq-ok,
}
use wdb.Spec.Place.{parse_location, has_geometry}
use wdb.Query.Collection.{Arguments, parse_read_parameters}
use wdb.Query.Build.{build_query, grid_table, float_table, output_float}
use wdb.Read.Store.{
  HeapTuple, Row, ReadStore, returning_from_float_table, returning_from_grid_table,
  float_return_init, set_read_store_geometry, grid_return_init,
}
use wdb.Read.Rows.{
  get_location_string, get_common_values, current_tuples, get_next_row_from_float_table,
  get_next_row_from_grid_table,
}
use wdb.Read.Field.{float_field_row, float_row-common_row}
use wdb.Read.Pending.{pending, Answers, get_next_row_from_grid_table-Answers}
use wdb.Read.Calls.{
  Server, what_grid, what_float, wci_read_float_init, run_wci_read_float_query_float,
  run_wci_read_float_query_grid, from_grid, wci_read_float, collect,
}

-- The store behind `getNextRowFromFloatTable` for a tuple.
abbrev after_float : HeapTuple → ReadStore → ReadStore
after_float t s = record s {
  values = float_field_row t;
  current_tuple_index = suc s.current_tuple_index;
}

module _ (v : Server) (a : Arguments) where
  found-collect :
      (n : ℕ) (s s' : ReadStore) (rest : List Row)
      → wci_read_float v a s ≡ ok (true, s')
      → collect v n a s' ≡ ok (some rest)
      → collect v (suc n) a s ≡ ok (some (s'.values ∷ rest))
  unfolding collect
  found-collect n s s' rest call later = rw (call, later) refl

  done-collect :
      (n : ℕ) (s s' : ReadStore)
      → wci_read_float v a s ≡ ok (false, s')
      → collect v (suc n) a s ≡ ok (some [])
  unfolding collect
  done-collect n s s' call = rw call refl

  grid-call :
      (s : ReadStore)
      → s.return_mode ≡ returning_from_grid_table
      → wci_read_float v a s ≡ get_next_row_from_grid_table v.backend s
  unfolding wci_read_float
  grid-call s mode = simp (mode, wci_read_float) (simp (mode, from_grid) refl)

  -- From a store in the grid mode, or from the answer that a store in the float mode goes on to.
  collect-answer :
      (rows : List Row) (s : ReadStore) (answer : Outcome (Bool × ReadStore))
      → wci_read_float v a s ≡ answer
      → Answers v.backend returning_from_grid_table (ok rows) answer
      → collect v (suc (length rows)) a s ≡ ok (some rows)
  collect-answer rows s (fail f) call h = elim h [ ]
  collect-answer [] s (ok (found, s')) call h = done-collect 0 s s' (rw (call, h) refl)
  collect-answer (row ∷ rows) s (ok (found, s')) call (true_, here, left, mode) =
      let later : collect v (suc (length rows)) a s' ≡ ok (some rows) =
        collect-answer rows s' (get_next_row_from_grid_table v.backend s') (grid-call s' mode)
          (rw (sym left, sym mode) (get_next_row_from_grid_table-Answers v.backend s')) in
      rw (sym here) (found-collect (suc (length rows)) s s' rows (rw (call, true_) refl) later)

  float_row-call :
      (t : HeapTuple) (s : ReadStore)
      → s.location_string ≡ none
      → s.return_mode ≡ returning_from_float_table
      → get_elem? s.tuples s.current_tuple_index ≡ some t
      → wci_read_float v a s ≡ ok (true, after_float t s)
  unfolding wci_read_float get_next_row_from_float_table get_common_values get_location_string
  float_row-call t s name mode here =
      let next : s.current_tuple_index + 1 ≡ suc s.current_tuple_index = omega arith in
      simp (mode, wci_read_float)
        (rw (here, get_next_row_from_float_table)
          (rw (name, float_row-common_row v.backend t s.values, next, mode) refl))

  float_end-call :
      (s : ReadStore)
      → s.return_mode ≡ returning_from_float_table
      → get_elem? s.tuples s.current_tuple_index ≡ none
      → wci_read_float v a s ≡ (run_wci_read_float_query_grid v a s >>= from_grid v)
  unfolding wci_read_float get_next_row_from_float_table
  float_end-call s mode here =
      simp (mode, wci_read_float) (rw (here, get_next_row_from_float_table) refl)

  -- Two results of `runWciReadFloatQueryGrid` that give the same rows.
  abbrev Like : Outcome ReadStore → Outcome ReadStore → Type 0
  Like (ok g) (ok g') =
      (pending v.backend g ≡ pending v.backend g') × (g.return_mode ≡ returning_from_grid_table)
  Like (ok g) (fail f) = ⊥
  Like (fail f) (fail f') = Unit
  Like (fail f) (ok g') = ⊥

  Like-Answers :
      (g g' : Outcome ReadStore) (rows : List Row)
      → Like g g'
      → g' >>= pending v.backend ≡ ok rows
      → Answers v.backend returning_from_grid_table (ok rows) (g >>= from_grid v)
  Like-Answers (ok g) (ok g') rows (same, mode) left =
      simp (mode, from_grid)
        (rw (sym left, sym same, sym mode) (get_next_row_from_grid_table-Answers v.backend g))
  Like-Answers (ok g) (fail f) rows h left = elim h [ ]
  Like-Answers (fail f) (fail f') rows h left = cc
  Like-Answers (fail f) (ok g') rows h left = elim h [ ]

  catch_as-Like :
      (f : Failure) → Like (catch_as data_exception (fail f)) (catch_as data_exception (fail f))
  unfolding catch_as
  catch_as-Like invalid_query = tt
  catch_as-Like (logic_error m) = tt
  catch_as-Like (runtime_error m) = tt
  catch_as-Like (out_of_range m) = tt
  catch_as-Like (ereport c m) = tt
  catch_as-Like null_dereference = tt
  catch_as-Like (undefined m) = tt

  grid_return_init-Like :
      (tuples : List HeapTuple) (location : Option Bytes) (s : ReadStore)
      → Like
          (grid_return_init v.externals.grammar v.geom_from_wkt v.named_geometry tuples location s)
          (grid_return_init v.externals.grammar v.geom_from_wkt v.named_geometry tuples location
            float_return_init)
  unfolding grid_return_init set_read_store_geometry catch_as pending
  grid_return_init-Like tuples none s = (refl, refl)
  grid_return_init-Like tuples (some location) s =
      elim (Outcome-cases (parse_location v.externals.grammar location)) [
        | inr (f, h) ↦ rw h (catch_as-Like f)
        | inl (loc, h) ↦
            rw h
              (elim (Option-cases (
                if has_geometry loc
                then some loc.geometry_
                else v.named_geometry loc.place_name_)) [
                  | inl g ↦ rw (g, ◌>>=◌) (refl, refl)
                  | inr (wkt, g) ↦ rw (g, ◌>>=◌) (refl, refl)
                ])
      ]

  run_wci_read_float_query_grid-Like :
      (s : ReadStore)
      → Like
          (run_wci_read_float_query_grid v a s)
          (run_wci_read_float_query_grid v a float_return_init)
  unfolding run_wci_read_float_query_grid
  run_wci_read_float_query_grid-Like s = elim (Outcome-cases (parse_read_parameters a)) [
    | inr (f, h) ↦ rw h tt
    | inl (p, h) ↦
        rw h
          (elim (Outcome-cases
            (build_query v.externals (some p) grid_table output_float what_grid none none)) [
              | inr (f, g) ↦ rw g tt
              | inl (query, g) ↦ rw g (elim (Outcome-cases (v.execute query)) [
                | inr (f, r) ↦ rw r tt
                | inl (tuples, r) ↦ rw r (grid_return_init-Like tuples a.location s)
              ])
            ])
  ]

  collect-float :
      (grid : List Row) (ts : List HeapTuple) (s : ReadStore)
      → s.location_string ≡ none
      → s.return_mode ≡ returning_from_float_table
      → current_tuples s ≡ ts
      → run_wci_read_float_query_grid v a float_return_init >>= pending v.backend ≡ ok grid
      → collect v (suc (length (map float_field_row ts ++ grid))) a s
        ≡ ok (some (map float_field_row ts ++ grid))
  collect-float grid [] s name mode here left =
      collect-answer grid s (run_wci_read_float_query_grid v a s >>= from_grid v)
        (float_end-call s mode (drop-get s.tuples s.current_tuple_index here))
        (Like-Answers (run_wci_read_float_query_grid v a s)
          (run_wci_read_float_query_grid v a float_return_init) grid
          (run_wci_read_float_query_grid-Like s) left)
  collect-float grid (t ∷ ts) s name mode here left =
      let later = drop-next s.tuples s.current_tuple_index here in
      found-collect (suc (length (map float_field_row ts ++ grid))) s (after_float t s)
        (map float_field_row ts ++ grid)
        (float_row-call t s name mode (drop-get-some s.tuples s.current_tuple_index here))
        (collect-float grid ts (after_float t s) name mode later left)

  wci_read_float_init-fresh :
      (s : ReadStore)
      → wci_read_float_init v a ≡ ok s
      → (tuples : List HeapTuple) × (record float_return_init { tuples = tuples } ≡ s)
  unfolding wci_read_float_init run_wci_read_float_query_float
  wci_read_float_init-fresh s h =
      let (p, _, h1) = bind-eq-ok (parse_read_parameters a) _ h in
      let (query, _, h2) =
        bind-eq-ok (build_query v.externals (some p) float_table output_float what_float none none)
          _ h1 in
      let (tuples, _, h3) = bind-eq-ok (v.execute query) _ h2 in (tuples, cc)

-- If the first call's query of the float table succeeds, and the query of the grid table with all
-- fields, places and names behind it can be read, then calling wciReadFloat again and again returns
-- one row for each tuple of the float table, then one row for each point of each tuple's field, all
-- in the order of the tuples, and then says that it is done, after one call more than there are
-- rows.
pub wci_read_float-rows :
    (v : Server) (a : Arguments) (s : ReadStore) (grid : List Row)
    → wci_read_float_init v a ≡ ok s
    → (run_wci_read_float_query_grid v a float_return_init >>= pending v.backend) ≡ ok grid
    → collect v (suc (length (map float_field_row s.tuples ++ grid))) a s
      ≡ ok (some (map float_field_row s.tuples ++ grid))
unfolding float_return_init
wci_read_float-rows v a s grid first rest =
    let (tuples, fresh) = wci_read_float_init-fresh v a s first in
    rw (sym fresh) (
      collect-float v a grid tuples (record float_return_init { tuples = tuples }) refl refl refl
        rest)
