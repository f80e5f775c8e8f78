-- ===== src/Tests/Rows.antt =====
-- The rows of src/callInterface/core/wciRead, for two float values and two fields.
use wdb.Base.{
  ℕ, suc, List, [], ◌∷◌, ◌++◌, refl, ◌≡◌, Bytes, codes, bytes_eq, Outcome, ok, some, none, pos, ℤ,
  Option, length, if◌then◌else◌, map, take, ◌==◌, ◌>>=◌,
}
use wdb.Spec.Place.{InterpolationType}
use wdb.Query.Collection.{Arguments}
use wdb.Query.Build.{build_query}
use wdb.Read.Store.{HeapTuple, GridPointData, iterator_new, Row, ReadStore, float_return_init}
use wdb.Read.Rows.{Backend, get_next_row_from_grid_table}
use wdb.Read.Field.{field_row, float_field_row}
use wdb.Read.Pending.{pending, Answers, get_next_row_from_grid_table-Answers}
use wdb.Read.Calls.{Server, wci_read_float_init, run_wci_read_float_query_grid, collect}
use wdb.Read.Gid.{gid_answers, gid_answers-tuples}
use wdb.Read.Calls.{run_wci_read_gid_base_query}
use wdb.Read.Places.{
  PlaceSpecification, get_place_specification_from_database, place_results, place_results-database,
}
use wdb.Query.Build.{build_place_spec_query}
use wdb.Read.Sequence.{wci_read_float-rows}
use wdb.Query.Build.{build, add_parameters, add_location_query}
use wdb.Query.Builder.{
  statement, str, write_what, write_from, write_where, write_with, write_order_by, write_group_by,
}
use wdb.Query.Select.{
  add_data_provider_query, add_parameter_query, add_level_query, add_data_version_query,
}
use wdb.Query.Time.{add_reference_time_query, add_valid_time_query}
use wdb.Query.Collection.{
  parse_read_parameters, string_array_from_datum, int_array_from_datum, array_from_datum,
}
use wdb.Read.Store.{grid_return_init, set_read_store_geometry, returning_from_grid_table}
use wdb.Read.Rows.{get_location_string}
use wdb.Read.Pending.{all_rows, tuple_rows}
use wdb.Tests.Parameters.{externals}
use wdb.Query.Collection.{int_array_from_datum, parse_read_parameters, string_array_from_datum}
use wdb.Base.{catch_as}
use wdb.Query.Build.{add_location_query, add_parameters}
use wdb.Query.Select.{
  add_data_provider_query, add_data_version_query, add_level_query, add_parameter_query,
}
use wdb.Query.Time.{add_reference_time_query, add_valid_time_query}
use wdb.Query.Builder.{statement, str}

-- A tuple whose cells hold its number, with a place.
abbrev tuple : ℕ → ℕ → HeapTuple
tuple place field column = if column == 21 then some place else some field

abbrev point : ℕ → GridPointData
point bits = record { location = some bits; value = bits; x = pos 0; y = pos 0 }

-- Place 1 has a grid of two points, place 2 one of one, and no other place has a grid.
abbrev fields : Option ℕ → InterpolationType → ℤ → ℕ → ℕ → Outcome (Option (List GridPointData))
fields location interpolation parameter place field = ok (
    if place == 1
    then some (point field ∷ point 5 ∷ [])
    else if place == 2
    then some (point 6 ∷ [])
    else none)

abbrev backend : Backend
backend = record {
  get_values = fields;
  cell_text = λ d. codes "text";
  text_datum = length;
  float_datum = λ bits. bits;
  is_nan = λ bits. bits == 5;
  wkt_datum = λ g. g;
}

abbrev all_null : Arguments
all_null = record {
  data_provider = none;
  location = none;
  reference_time = none;
  valid_time = none;
  parameter = none;
  level = none;
  data_version = none;
}

abbrev float_tuples : List HeapTuple
float_tuples = tuple 0 40 ∷ tuple 0 41 ∷ []

abbrev grid_tuples : List HeapTuple
grid_tuples = tuple 1 42 ∷ tuple 2 43 ∷ []

-- The float table's query does not begin as the grid table's does.
abbrev execute : Bytes → Outcome (List HeapTuple)
execute query =
    if bytes_eq (take 15 query) (codes "SELECT value::f") then ok float_tuples else ok grid_tuples

abbrev server : Server
server = record {
  externals = externals;
  execute = execute;
  geom_from_wkt = λ wkt. none;
  named_geometry = λ name. none;
  backend = backend;
}

abbrev opened : ReadStore
opened = record float_return_init { tuples = float_tuples }

abbrev grid_rows : List Row
grid_rows =
    field_row backend (tuple 1 42) (some 42) (point 42)
    ∷ field_row backend (tuple 1 42) (some 42) (point 5)
    ∷ field_row backend (tuple 2 43) (some 43) (point 6)
    ∷ []

opened-init : wci_read_float_init server all_null ≡ ok opened
unfolding wci_read_float_init parse_read_parameters string_array_from_datum int_array_from_datum
    build_query catch_as add_parameters add_data_provider_query add_reference_time_query
    add_valid_time_query add_parameter_query add_level_query add_location_query str
    add_data_version_query bytes_eq statement
opened-init = refl

abbrev grid_opened : ReadStore
grid_opened = record float_return_init {
  tuples = grid_tuples;
  return_mode = returning_from_grid_table;
  interpolation_parameter = pos 1;
}

grid_opened-run : run_wci_read_float_query_grid server all_null float_return_init ≡ ok grid_opened
unfolding run_wci_read_float_query_grid float_return_init parse_read_parameters
    string_array_from_datum int_array_from_datum array_from_datum build_query build catch_as
    add_parameters add_data_provider_query add_reference_time_query add_valid_time_query
    add_parameter_query add_level_query add_location_query str add_data_version_query bytes_eq
    statement write_what write_from write_where write_with write_order_by write_group_by
    grid_return_init set_read_store_geometry
grid_opened-run = refl

grid_opened-pending : pending backend grid_opened ≡ ok grid_rows
unfolding pending all_rows tuple_rows get_location_string float_return_init
grid_opened-pending = refl

grid_rows-pending :
    (run_wci_read_float_query_grid server all_null float_return_init >>= pending backend)
    ≡ ok grid_rows
grid_rows-pending = rw grid_opened-run grid_opened-pending

wci_read_float-rows_example :
    collect server (suc (length (map float_field_row float_tuples ++ grid_rows))) all_null opened
    ≡ ok (some (map float_field_row float_tuples ++ grid_rows))
wci_read_float-rows_example =
    wci_read_float-rows server all_null opened grid_rows opened-init grid_rows-pending

abbrev reading : ReadStore
reading = record float_return_init {
  tuples = grid_tuples;
  point_data = some (iterator_new (point 1 ∷ []));
}

get_next_row_from_grid_table-Answers_example :
    Answers backend reading.return_mode
      (pending backend reading)
      (get_next_row_from_grid_table backend reading)
get_next_row_from_grid_table-Answers_example = get_next_row_from_grid_table-Answers backend reading

abbrev gid_opened : ReadStore
gid_opened = record float_return_init {
  tuples = grid_tuples;
  return_mode = returning_from_grid_table;
}

gid_opened-run : run_wci_read_gid_base_query server all_null float_return_init ≡ ok gid_opened
unfolding run_wci_read_gid_base_query float_return_init parse_read_parameters
    string_array_from_datum int_array_from_datum array_from_datum build_query build catch_as
    add_parameters add_data_provider_query add_reference_time_query add_valid_time_query
    add_parameter_query add_level_query add_location_query str add_data_version_query bytes_eq
    statement write_what write_from write_where write_with write_order_by write_group_by
gid_opened-run = refl

gid_answers-tuples_example :
    gid_answers server 3 gid_opened ≡ some (tuple 1 42) ∷ some (tuple 2 43) ∷ none ∷ []
gid_answers-tuples_example =
    gid_answers-tuples server all_null float_return_init gid_opened gid_opened-run

-- A database that knows one place.
abbrev database : Bytes → Option Bytes
database name = if bytes_eq name (codes "oslo") then some (codes "POINT(10 60)") else none

-- A database with a grid for place 7 only.
abbrev grids : Bytes → ℕ → Option (List HeapTuple)
grids query limit =
    if bytes_eq query (build_place_spec_query (codes "wci_int") (pos 7))
    then some (tuple 7 3 ∷ [])
    else some []

abbrev place_database : ℤ → Outcome (Option PlaceSpecification)
place_database =
    get_place_specification_from_database (codes "wci_int") grids (λ d. codes "+proj=longlat")

place_results-database_example :
    place_results place_database (pos 7 ∷ pos 8 ∷ pos 7 ∷ []) []
    ≡ map place_database (pos 7 ∷ pos 8 ∷ pos 7 ∷ [])
place_results-database_example = place_results-database place_database (pos 7 ∷ pos 8 ∷ pos 7 ∷ [])
