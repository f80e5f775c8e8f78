-- ===== src/Read/Store.antt =====
-- `struct ReadStore` and its functions, src/callInterface/core/wciRead/ReadStore.{h,cpp}, with the
-- data that pass through it. A `Datum` is a machine word, and a geometry its address; neither is
-- looked into here.
use wdb.Base.{
  ℕ, ◌+◌, ltb, leb, Bool, List, [], ◌∷◌, Bytes, bytes_eq, length, get_elem?, if◌then◌else◌, Option,
  none, some, ℤ, pos, Outcome, ok, ◌>>=◌, catch_as, data_exception,
}
use wdb.Spec.Place.{InterpolationType, exact, Grammar, parse_location, has_geometry}

abbrev pub Datum : Type 0
Datum = ℕ

-- A column of a result row, or of a tuple: `none` is NULL.
abbrev pub Cell : Type 0
Cell = Option Datum

-- A tuple of the query's result: the cell of each column, counted from 1 (`SPI_getbinval`).
abbrev pub HeapTuple : Type 0
HeapTuple = ℕ → Cell

-- `struct GridPointData`, as far as the rows need it: the value is the bit pattern of the `float`,
-- and `location` may be null.
pub record GridPointData : Type 0 where
  pub location : Option ℕ
  pub value : ℕ
  pub x : ℤ
  pub y : ℤ

-- `struct GridPointDataListIterator` with its list.
pub record Iterator : Type 0 where
  pub list : List GridPointData
  pub current_position : ℕ

-- src/callInterface/core/wciRead/extractGridData/GridPointData.c
unfoldable pub iterator_new : List GridPointData → Iterator
iterator_new list = record { list = list; current_position = 0 }

unfoldable pub iterator_at_end : Iterator → Bool
iterator_at_end i = leb (length i.list) i.current_position

unfoldable pub iterator_next : Iterator → Option GridPointData × Iterator
unfolding iterator_at_end
iterator_next i = if iterator_at_end i then (none, i) else (
  get_elem? i.list i.current_position,
  record i { current_position = i.current_position + 1 },
)

-- `enum WciReadFloatReturnType`
pub data Column : Type 0 where
  value dataprovidername placename placegeometry referencetime validtimefrom validtimeto : Column
  validtimeindeterminatecode valueparametername valueparameterunit levelparametername : Column
  levelunitname levelfrom levelto levelindeterminatecode dataversion confidencecode : Column
  storetime valueid valuetype : Column

-- `values` and `isNull`.
abbrev pub Row : Type 0
Row = Column → Cell

pub data ReadStoreMode : Type 0 where
  returning_from_float_table returning_from_grid_table : ReadStoreMode

-- The tuple table and its count are one list.
pub record ReadStore : Type 0 where
  pub tuples : List HeapTuple
  pub current_tuple_index : ℕ
  pub return_mode : ReadStoreMode
  pub interpolation : InterpolationType
  pub interpolation_parameter : ℤ
  pub location_string : Option Bytes
  pub location : Option ℕ
  pub values : Row
  pub point_data : Option Iterator

-- `ReadStoreFloatReturnInit`: all bytes zero, and the mode.
unfoldable pub float_return_init : ReadStore
float_return_init = record {
  tuples = [];
  current_tuple_index = 0;
  return_mode = returning_from_float_table;
  interpolation = exact;
  interpolation_parameter = pos 0;
  location_string = none;
  location = none;
  values = λ c. some 0;
  point_data = none;
}

-- `geometryFromLocation`: the map `locationNames`, which keeps each name's geometry. The entry of a
-- name that is looked up in vain stays empty, and is looked up again.
unfoldable pub known_location : Bytes → List (Bytes × Bytes) → Option Bytes
known_location name [] = none
known_location name ((n, wkt) ∷ names) =
    if bytes_eq n name then some wkt else known_location name names

unfoldable pub geometry_from_location :
    (Bytes → Option Bytes) → Bytes → List (Bytes × Bytes) → Option Bytes × List (Bytes × Bytes)
unfolding known_location
geometry_from_location database name names = elim (known_location name names) [
  | some wkt ↦ (some wkt, names)
  | none ↦ elim (database name) [
    | some wkt ↦ (some wkt, (name, wkt) ∷ names)
    | none ↦ (none, names)
  ]
]

-- `setReadStoreGeometry`. `geom_from_wkt` is GEOSGeomFromWKT, whose result may be null;
-- `named_geometry` is `geometryFromLocation`, where `none` is `NoSuchGeometryName`.
unfoldable pub set_read_store_geometry :
    Grammar
    → (Bytes → Option ℕ)
    → (Bytes → Option Bytes)
    → Option Bytes
    → ReadStore
    → Outcome ReadStore
set_read_store_geometry grammar geom_from_wkt named_geometry none s =
    ok (record s { location = none; interpolation = exact; interpolation_parameter = pos 1 })
set_read_store_geometry grammar geom_from_wkt named_geometry (some location) s =
    parse_location grammar location >>= λ loc.
    elim (if has_geometry loc then some loc.geometry_ else named_geometry loc.place_name_) [
      | none ↦
          ok (record s { location = none; interpolation = exact; interpolation_parameter = pos 1 })
      | some wkt ↦ ok (record s {
        location = geom_from_wkt wkt;
        interpolation = loc.interpolation_type_;
        interpolation_parameter = loc.interpolation_parameter_;
      })
    ]

-- `ReadStoreGridReturnInit`
unfoldable pub grid_return_init :
    Grammar
    → (Bytes → Option ℕ)
    → (Bytes → Option Bytes)
    → List HeapTuple
    → Option Bytes
    → ReadStore
    → Outcome ReadStore
unfolding set_read_store_geometry
grid_return_init grammar geom_from_wkt named_geometry tuples location s = catch_as data_exception (
    set_read_store_geometry grammar geom_from_wkt named_geometry location (record s {
      tuples = tuples;
      current_tuple_index = 0;
      return_mode = returning_from_grid_table;
      location_string = location;
      point_data = none;
    }))

-- `ReadStoreHasMoreTuples`
unfoldable has_more_tuples : ReadStore → Bool
has_more_tuples s = ltb s.current_tuple_index (length s.tuples)
