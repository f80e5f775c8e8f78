-- ===== src/Read/NoGrid.antt =====
-- src/callInterface/core/wciRead/getData.c: a tuple whose place has no grid.
use wdb.Base.{true, false, List, [], ◌∷◌, none, some, ok, fail, null_dereference, ◌≡◌, refl}
use wdb.Read.Store.{HeapTuple, Iterator, iterator_at_end, ReadStore}
use wdb.Read.Rows.{
  Backend, int64_of, get_next_set_of_values, next_field, current_tuples,
  get_next_row_from_grid_table,
}

module _ (e : Backend) where
  next_field-null :
      (ts : List HeapTuple) (s : ReadStore)
      → next_field e ts (record s { point_data = none }) ≡ fail null_dereference
  unfolding next_field
  next_field-null [] s = refl
  next_field-null (t ∷ ts) s = refl

  get_next_set_of_values-none :
      (t : HeapTuple) (s : ReadStore)
      → e.get_values s.location s.interpolation s.interpolation_parameter
          (int64_of (t 21))
          (int64_of (t 1))
        ≡ ok none
      → get_next_set_of_values e t s ≡ ok (record s { point_data = none })
  unfolding get_next_set_of_values
  get_next_set_of_values-none t s h = rw h refl

  later_tuple :
      (s : ReadStore) (i : Iterator) (t : HeapTuple) (ts : List HeapTuple)
      → s.point_data ≡ some i
      → iterator_at_end i ≡ true
      → current_tuples s ≡ t ∷ ts
      → get_next_set_of_values e t s ≡ ok (record s { point_data = none })
      → get_next_row_from_grid_table e s ≡ fail null_dereference
  unfolding get_next_row_from_grid_table next_field
  later_tuple s i t ts at end here loaded =
      simp (at, get_next_row_from_grid_table)
        (rw here (simp (at, next_field) (rw end (rw loaded (next_field-null ts s)))))

  first_tuple :
      (s : ReadStore) (t : HeapTuple) (ts : List HeapTuple)
      → s.point_data ≡ none
      → current_tuples s ≡ t ∷ ts
      → get_next_set_of_values e t s ≡ ok (record s { point_data = none })
      → get_next_row_from_grid_table e s ≡ ok (false, record s { point_data = none })
  unfolding get_next_row_from_grid_table
  first_tuple s t ts at here loaded =
      simp (at, get_next_row_from_grid_table) (rw here (rw loaded refl))

-- If no field is open and the place of the current tuple has no grid, a call answers that there are
-- no rows left, whatever tuples stand behind it.
get_next_row_from_grid_table-ends :
    (e : Backend) (s : ReadStore) (t : HeapTuple) (ts : List HeapTuple)
    → s.point_data ≡ none
    → current_tuples s ≡ t ∷ ts
    → e.get_values s.location s.interpolation s.interpolation_parameter
        (int64_of (t 21))
        (int64_of (t 1))
      ≡ ok none
    → get_next_row_from_grid_table e s ≡ ok (false, record s { point_data = none })
get_next_row_from_grid_table-ends e s t ts at here h =
    first_tuple e s t ts at here (get_next_set_of_values-none e t s h)

-- If a field has been read to its end and the place of the next tuple has no grid, a call uses the
-- null pointer that it is given for that tuple.
get_next_row_from_grid_table-crashes :
    (e : Backend) (s : ReadStore) (i : Iterator) (t : HeapTuple) (ts : List HeapTuple)
    → s.point_data ≡ some i
    → iterator_at_end i ≡ true
    → current_tuples s ≡ t ∷ ts
    → e.get_values s.location s.interpolation s.interpolation_parameter
        (int64_of (t 21))
        (int64_of (t 1))
      ≡ ok none
    → get_next_row_from_grid_table e s ≡ fail null_dereference
get_next_row_from_grid_table-crashes e s i t ts at end here h =
    later_tuple e s i t ts at end here (get_next_set_of_values-none e t s h)
