-- ===== src/Read/Rows.antt =====
-- src/callInterface/core/wciRead/getData.c: the next row from the float table and from the grid
-- table.
use wdb.Base.{
  ℕ, ◌+◌, Bool, true, false, List, [], ◌∷◌, ◌++◌, Bytes, codes, get_elem?, drop, if◌then◌else◌,
  Option, none, some, ℤ, Outcome, ok, fail, ◌>>=◌, null_dereference,
}
use wdb.Spec.Place.{InterpolationType}
use wdb.Read.Store.{
  Datum, Cell, HeapTuple, GridPointData, Iterator, iterator_new, iterator_at_end, iterator_next,
  value, dataprovidername, placename, placegeometry, referencetime, validtimefrom, validtimeto,
  validtimeindeterminatecode, valueparametername, valueparameterunit, levelparametername,
  levelunitname, levelfrom, levelto, levelindeterminatecode, dataversion, confidencecode, storetime,
  valueid, valuetype, Row, ReadStore,
}

-- What the rows take from PostgreSQL, GEOS and the other parts of the program.
pub record Backend : Type 0 where
  -- `getValues`: the points of a field at the store's location; `none` if the place has no grid
  pub get_values :
      Option ℕ
      → InterpolationType
      → ℤ
      → (placeid : ℕ) → (dataid : ℕ) → Outcome (Option (List GridPointData))
  -- `SPI_getvalue`: a cell as text
  pub cell_text : Datum → Bytes
  -- a text as a cell
  pub text_datum : Bytes → Datum
  -- `Float8GetDatum`, and `ret->value != ret->value`
  pub float_datum : ℕ → Datum
  pub is_nan : ℕ → Bool
  -- the WKT of a geometry, from the cache or not
  pub wkt_datum : ℕ → Datum

-- `DatumGetInt64` of a cell; the word under a NULL is 0.
abbrev pub int64_of : Cell → ℕ
int64_of none = 0
int64_of (some d) = d

abbrev pub current_tuples : ReadStore → List HeapTuple
current_tuples s = drop s.current_tuple_index s.tuples

module _ (e : Backend) where
  -- `getLocationString`. A NULL name is passed to `strlen`.
  unfoldable pub get_location_string : Option Bytes → HeapTuple → Outcome Cell
  get_location_string none tuple = ok (tuple 3)
  get_location_string (some location) tuple = elim (tuple 3) [
    | none ↦ fail null_dereference
    | some name ↦ ok (some (e.text_datum (location ++ (codes " " ++ (e.cell_text name ++ 0 ∷ [])))))
  ]

  -- The cells that `getCommonValues` sets, beside those that it leaves.
  abbrev pub common_row : HeapTuple → Cell → Row → Row
  common_row t place old value = old value
  common_row t place old dataprovidername = t 2
  common_row t place old placename = place
  common_row t place old placegeometry = old placegeometry
  common_row t place old referencetime = t 5
  common_row t place old validtimefrom = t 6
  common_row t place old validtimeto = t 7
  common_row t place old validtimeindeterminatecode = t 8
  common_row t place old valueparametername = t 9
  common_row t place old valueparameterunit = t 10
  common_row t place old levelparametername = t 11
  common_row t place old levelunitname = t 12
  common_row t place old levelfrom = t 13
  common_row t place old levelto = t 14
  common_row t place old levelindeterminatecode = t 15
  common_row t place old dataversion = t 16
  common_row t place old confidencecode = t 17
  common_row t place old storetime = t 18
  common_row t place old valueid = t 19
  common_row t place old valuetype = t 20

  -- `getCommonValues`, for the current tuple.
  unfoldable pub get_common_values : HeapTuple → ReadStore → Outcome ReadStore
  unfolding get_location_string
  get_common_values tuple s = get_location_string s.location_string tuple >>= λ place.
      ok (record s { values = common_row tuple place s.values })

  -- `getNextSetOfValues`, for the current tuple.
  unfoldable pub get_next_set_of_values : HeapTuple → ReadStore → Outcome ReadStore
  unfolding get_common_values
  get_next_set_of_values tuple s =
      e.get_values s.location s.interpolation s.interpolation_parameter (int64_of (tuple 21))
        (int64_of (tuple 1))
      >>= elim [
        | none ↦ ok (record s { point_data = none })
        | some points ↦
            get_common_values tuple (record s { point_data = some (iterator_new points) }) >>= λ s'.
            ok (record s' { current_tuple_index = s'.current_tuple_index + 1 })
      ]

  -- The value and the geometry of a row.
  abbrev pub point_row : GridPointData → Row → Row
  point_row p old value = if e.is_nan p.value then none else some (e.float_datum p.value)
  point_row p old placegeometry = elim p.location [ none ↦ none | some g ↦ some (e.wkt_datum g) ]
  point_row p old c = old c

  -- The end of `getNextRowFromGridTable`: the row of the iterator's next point.
  unfoldable pub next_point : Iterator → ReadStore → Outcome (Bool × ReadStore)
  unfolding iterator_next
  next_point i s =
      let (p, i') = iterator_next i in
      elim p [
        | none ↦ fail null_dereference
        | some point ↦
            ok (true, record s { values = point_row point s.values; point_data = some i' })
      ]

  -- The loop of `getNextRowFromGridTable`, over the tuples from the current one on. It calls
  -- `GridPointDataListIteratorAtEnd` on whatever `getNextSetOfValues` has left in `pointData`.
  unfoldable pub next_field : List HeapTuple → ReadStore → Outcome (Bool × ReadStore)
  unfolding next_point
  next_field [] s = elim s.point_data [
    | none ↦ fail null_dereference
    | some i ↦ if iterator_at_end i then ok (false, s) else next_point i s
  ]
  next_field (tuple ∷ rest) s = elim s.point_data [
    | none ↦ fail null_dereference
    | some i ↦ elim (iterator_at_end i) [
      | false ↦ next_point i s
      | true ↦ get_next_set_of_values tuple s >>= next_field rest
    ]
  ]

  -- `getNextRowFromGridTable`
  unfoldable pub get_next_row_from_grid_table : ReadStore → Outcome (Bool × ReadStore)
  unfolding next_field
  get_next_row_from_grid_table s = elim s.point_data [
    | some i ↦ next_field (current_tuples s) s
    | none ↦ elim (current_tuples s) [
      | [] ↦ ok (false, s)
      | tuple ∷ rest ↦ get_next_set_of_values tuple s >>= λ s'. elim s'.point_data [
        | none ↦ ok (false, s')
        | some i ↦ next_field (current_tuples s') s'
      ]
    ]
  ]

  -- The value and the geometry of a row from the float table.
  abbrev pub float_row : HeapTuple → Row → Row
  float_row t old value = t 1
  float_row t old placegeometry = t 4
  float_row t old c = old c

  -- `getNextRowFromFloatTable`
  unfoldable pub get_next_row_from_float_table : ReadStore → Outcome (Bool × ReadStore)
  unfolding get_common_values
  get_next_row_from_float_table s = elim (get_elem? s.tuples s.current_tuple_index) [
    | none ↦ ok (false, s)
    | some tuple ↦ get_common_values tuple s >>= λ s'. ok (
      true,
      record s' {
        values = float_row tuple s'.values;
        current_tuple_index = s'.current_tuple_index + 1;
      },
    )
  ]
