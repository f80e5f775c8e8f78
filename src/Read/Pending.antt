-- ===== src/Read/Pending.antt =====
-- The rows that a store has still to give from the grid table, described without the calls of
-- src/callInterface/core/wciRead/getData.c, and that the calls give them.
use wdb.Base.{
  ℕ, suc, ◌+◌, Bool, true, false, List, [], ◌∷◌, ◌++◌, map, Bytes, drop, drop-end, drop-more,
  drop-next, Option, none, some, ℤ, Outcome, ok, fail, null_dereference, ◌>>=◌, ◌≡◌, refl, arith,
  Outcome-cases, Option-cases, sym, Bool-cases, inl, inr,
}
use wdb.Spec.Place.{InterpolationType}
use wdb.Read.Store.{
  HeapTuple, GridPointData, Iterator, iterator_new, iterator_at_end, iterator_next, Row, ReadStore,
  ReadStoreMode,
}
use wdb.Read.Field.{field_row, row_on, row_on-common_row, row_on-point_row}
use wdb.Read.Rows.{
  Backend, int64_of, get_location_string, get_common_values, get_next_set_of_values, next_point,
  next_field, current_tuples, get_next_row_from_grid_table,
}

-- The rows of a list of tuples, for a location, an interpolation and the location's text: the
-- points of each tuple's field in order, the tuples in order. It fails if a tuple's place has no
-- grid, if a field cannot be read, or if a place has no name to show.
module _ (e : Backend) (location : Option ℕ) (interpolation : InterpolationType) (parameter : ℤ)
    (name : Option Bytes) where
  unfoldable pub tuple_rows : HeapTuple → Outcome (List Row)
  tuple_rows t =
      e.get_values location interpolation parameter (int64_of (t 21)) (int64_of (t 1)) >>= elim [
        | none ↦ fail null_dereference
        | some points ↦
            get_location_string e name t >>= λ place. ok (map (field_row e t place) points)
      ]

  unfoldable pub all_rows : List HeapTuple → Outcome (List Row)
  unfolding tuple_rows
  all_rows [] = ok []
  all_rows (t ∷ ts) = tuple_rows t >>= λ rows. all_rows ts >>= λ rest. ok (rows ++ rest)

abbrev points_left : Option Iterator → List GridPointData
points_left none = []
points_left (some i) = drop i.current_position i.list

module _ (e : Backend) where
  -- The rest of the current field, and the fields of the tuples that are left.
  unfoldable pub pending : ReadStore → Outcome (List Row)
  unfolding all_rows
  pending s =
      all_rows e s.location s.interpolation s.interpolation_parameter s.location_string
        (current_tuples s)
      >>= λ rest. ok (map (row_on e s.values) (points_left s.point_data) ++ rest)

  -- What a call of `getNextRowFromGridTable` must answer when these rows are left; nothing is said
  -- if one of them cannot be read.
  abbrev pub Answers : ReadStoreMode → Outcome (List Row) → Outcome (Bool × ReadStore) → Type 0
  Answers mode (fail f) answer = Unit
  Answers mode (ok rows) (fail f) = ⊥
  Answers mode (ok []) (ok (found, s)) = found ≡ false
  Answers mode (ok (row ∷ rows)) (ok (found, s)) =
      (found ≡ true) × (s.values ≡ row) × (pending s ≡ ok rows) × (s.return_mode ≡ mode)

  -- The rows of tuples, for a store's location.
  abbrev rows_for : ReadStore → List HeapTuple → Outcome (List Row)
  rows_for s = all_rows e s.location s.interpolation s.interpolation_parameter s.location_string

  pending-end :
      (i : Iterator) (s : ReadStore)
      → s.point_data ≡ some i
      → iterator_at_end i ≡ true
      → pending s ≡ rows_for s (current_tuples s)
  unfolding iterator_at_end pending
  pending-end i s at end = elim (Outcome-cases (rows_for s (current_tuples s))) [
    | inl (rest, h) ↦ rw (h, at, drop-end i.list i.current_position end) refl
    | inr (f, h) ↦ rw h refl
  ]

  next_point-Answers :
      (i : Iterator) (s : ReadStore)
      → s.point_data ≡ some i
      → iterator_at_end i ≡ false
      → Answers s.return_mode (pending s) (next_point e i s)
  unfolding iterator_at_end next_point iterator_next pending
  next_point-Answers i s at more =
      let (p, here, left) = drop-more i.list i.current_position more in
      let next : i.current_position + 1 ≡ suc i.current_position = omega arith in
      let taken : iterator_next i
          ≡ (some p, record i { current_position = suc i.current_position }) =
        rw (more, iterator_next) (rw (here, next) refl) in
      rw (at, pending)
        (rw (left, pending)
          (rw (taken, next_point)
            (elim (Outcome-cases (rows_for s (current_tuples s))) [
              | inr (f, h) ↦ rw h tt
              | inl (rest, h) ↦
                  rw h (refl, refl, rw (taken, h, row_on-point_row e p s.values) refl, refl)
            ])))

  next_field-more :
      (ts : List HeapTuple) (i : Iterator) (s : ReadStore)
      → s.point_data ≡ some i
      → iterator_at_end i ≡ false
      → next_field e ts s ≡ next_point e i s
  unfolding next_field
  next_field-more [] i s at more = rw (at, next_field) (rw more refl)
  next_field-more (t ∷ ts) i s at more = rw (at, next_field) (rw more refl)

  -- What `getNextSetOfValues` leaves, as an answer to the rows of the tuple and of those behind it.
  abbrev Loads : ReadStoreMode → List HeapTuple → Outcome (List Row) → Outcome ReadStore → Type 0
  Loads mode ts (fail f) loaded = Unit
  Loads mode ts (ok rows) (fail f) = ⊥
  Loads mode ts (ok rows) (ok s) =
      (i : Iterator) × (s.point_data ≡ some i)
      × (current_tuples s ≡ ts)
      × (pending s ≡ ok rows)
      × (s.return_mode ≡ mode)

  get_next_set_of_values-Loads :
      (t : HeapTuple) (ts : List HeapTuple) (s : ReadStore)
      → current_tuples s ≡ t ∷ ts
      → Loads s.return_mode ts (rows_for s (t ∷ ts)) (get_next_set_of_values e t s)
  unfolding get_next_set_of_values all_rows tuple_rows get_common_values pending iterator_new
  get_next_set_of_values-Loads t ts s here =
      elim (Outcome-cases (
        e.get_values s.location s.interpolation s.interpolation_parameter (int64_of (t 21))
          (int64_of (t 1)))) [
            | inr (f, h) ↦ rw h tt
            | inl (none, h) ↦ rw h tt
            | inl (some points, h) ↦
                rw h (elim (Outcome-cases (get_location_string e s.location_string t)) [
                  | inr (f, g) ↦ rw g tt
                  | inl (place, g) ↦ rw g (elim (Outcome-cases (rows_for s ts)) [
                    | inr (f, r) ↦ rw r tt
                    | inl (rest, r) ↦ rw r (
                        let later = drop-next s.tuples s.current_tuple_index here in
                        let next : s.current_tuple_index + 1 ≡ suc s.current_tuple_index =
                          omega arith in
                        (
                          iterator_new points,
                          refl,
                          rw (next, later) refl,
                          rw (next, later) (rw (r, row_on-common_row e t place s.values) refl),
                          refl,
                        ))
                  ])
                ])
          ]

  load-Answers :
      (mode : ReadStoreMode) (ts : List HeapTuple) (rows : Outcome (List Row))
      (loaded : Outcome ReadStore)
      (next : (i : Iterator) (s : ReadStore)
        → s.point_data ≡ some i
        → current_tuples s ≡ ts
        → Answers s.return_mode (pending s) (next_field e ts s))
      → Loads mode ts rows loaded
      → Answers mode rows (loaded >>= next_field e ts)
  load-Answers mode ts (fail f) loaded next h = tt
  load-Answers mode ts (ok rows) (fail f) next h = elim h [ ]
  load-Answers mode ts (ok rows) (ok s) next (i, at, here, left, same) =
      rw (sym left, sym same) (next i s at here)

  next_field-Answers :
      (ts : List HeapTuple) (i : Iterator) (s : ReadStore)
      → s.point_data ≡ some i
      → current_tuples s ≡ ts
      → Answers s.return_mode (pending s) (next_field e ts s)
  unfolding next_field all_rows
  next_field-Answers [] i s at here = elim (Bool-cases (iterator_at_end i)) [
    | inl end ↦ rw (pending-end i s at end, here) (rw (at, next_field) (rw end refl))
    | inr more ↦ rw (next_field-more [] i s at more) (next_point-Answers i s at more)
  ]
  next_field-Answers (t ∷ ts) i s at here = elim (Bool-cases (iterator_at_end i)) [
    | inl end ↦
        rw (pending-end i s at end, here)
          (rw (at, next_field)
            (rw end (
              load-Answers s.return_mode ts (rows_for s (t ∷ ts)) (get_next_set_of_values e t s)
                (next_field-Answers ts) (get_next_set_of_values-Loads t ts s here))))
    | inr more ↦ rw (next_field-more (t ∷ ts) i s at more) (next_point-Answers i s at more)
  ]

  start-Answers :
      (mode : ReadStoreMode) (ts : List HeapTuple) (rows : Outcome (List Row))
      (loaded : Outcome ReadStore)
      → Loads mode ts rows loaded
      → Answers mode rows (
          loaded >>= λ s'. elim s'.point_data [
            | none ↦ ok (false, s')
            | some i ↦ next_field e (current_tuples s') s'
          ])
  start-Answers mode ts (fail f) loaded h = tt
  start-Answers mode ts (ok rows) (fail f) h = elim h [ ]
  start-Answers mode ts (ok rows) (ok s) (i, at, here, left, same) =
      rw at (rw (sym left, sym same) (next_field-Answers (current_tuples s) i s at refl))

  pending-fresh : (s : ReadStore) → s.point_data ≡ none → pending s ≡ rows_for s (current_tuples s)
  unfolding pending
  pending-fresh s at = elim (Outcome-cases (rows_for s (current_tuples s))) [
    | inl (rest, h) ↦ rw (h, at) refl
    | inr (f, h) ↦ rw h refl
  ]

  first-Answers :
      (ts : List HeapTuple) (s : ReadStore)
      → s.point_data ≡ none
      → current_tuples s ≡ ts
      → Answers s.return_mode (pending s) (get_next_row_from_grid_table e s)
  unfolding get_next_row_from_grid_table all_rows
  first-Answers [] s at here =
      rw (pending-fresh s at, here) (rw (at, get_next_row_from_grid_table) (rw here refl))
  first-Answers (t ∷ ts) s at here =
      rw (pending-fresh s at, here)
        (rw (at, get_next_row_from_grid_table)
          (rw here (
            start-Answers s.return_mode ts (rows_for s (t ∷ ts)) (get_next_set_of_values e t s)
              (get_next_set_of_values-Loads t ts s here))))

  -- A call of `getNextRowFromGridTable`, if the rows that are left can all be read: when there are
  -- none it answers `false`, and else it answers `true` with the first of them as the store's
  -- values, leaves exactly the others, and keeps the store's mode.
  pub get_next_row_from_grid_table-Answers :
      (s : ReadStore) → Answers s.return_mode (pending s) (get_next_row_from_grid_table e s)
  unfolding get_next_row_from_grid_table
  get_next_row_from_grid_table-Answers s = elim (Option-cases s.point_data) [
    | inr (i, at) ↦
        simp (at, get_next_row_from_grid_table) (next_field-Answers (current_tuples s) i s at refl)
    | inl at ↦ first-Answers (current_tuples s) s at refl
  ]
