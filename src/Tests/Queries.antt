-- ===== src/Tests/Queries.antt =====
-- The statements of src/callInterface/core/wciRead/query, for concrete calls.
use wdb.Base.{Outcome, fail, ereport, internal_error}
use wdb.Base.{
  ℕ, List, [], ◌∷◌, ◌++◌, refl, ◌≡◌, ◌≤◌, ◌↔◌, Option, Bytes, codes, bytes_eq, ok, some, none, pos,
  negsuc, arith, length, if◌then◌else◌, false, leb→le,
}
use wdb.Spec.Time.{TimeSpecification, time_specification}
use wdb.Spec.Level.{LevelSpecification}
use wdb.Query.Condition.{Comparison, Holds, print_all}
use wdb.Query.Builder.{Builder, on_table, add_where}
use wdb.Query.Quote.{quote}
use wdb.Query.Quote.Literal.{read_literal, read_body, read_literal-quote}
use wdb.Query.Collection.{ArrayType, string_from_string_array}
use wdb.Query.Collection.Arrays.{read_array, read_array-string_from_string_array}
use wdb.Query.Plan.{max_cached_plan_size, serve, prepared, serve-prepared}
use wdb.Query.Time.{
  add_valid_time_query, add_reference_time_query, quote_time, valid_time_to, reference_time_to,
}
use wdb.Query.Time.Meaning.{
  TimeCode, Related, quoted, add_valid_time_query-Related, add_reference_time_query-Related,
}
use wdb.Query.Time.Operand.{Clock, operand_value}
use wdb.Query.Select.{add_data_version_query}
use wdb.Query.Select.Versions.{Condition, print, Selects, Asked, add_data_version_query-Asked}
use wdb.Query.Build.{WciReadParameterCollection, build_query, float_table, output_float}
use wdb.Query.Build.Specs.{Succeeds, Accepts}
use wdb.Query.Build.Total.{build_query_iff}
use wdb.Tests.Parameters.{boost, time_regex, externals, january, february, inside_spec, level_text}
use wdb.Spec.Time.{range_qualifier}

abbrev view : Builder
view = on_table (codes "wci_int.floatvalue_v v")

abbrev interval_of_two : TimeSpecification
interval_of_two = record {
  indeterminate_ = codes "inside";
  from_ = january;
  other_ = february;
  duration_instead_of_to_ = false;
}

-- A row whose times and levels are all 1.
abbrev ones : Bytes → ℕ
ones column = 1

-- January is 0, February 2 and any other time 1.
abbrev clock : Clock
clock = record {
  time = λ s. if bytes_eq s january then 0 else if bytes_eq s february then 2 else 1;
  later = λ t interval. t;
}

inside_spec_read : time_specification time_regex inside_spec ≡ ok interval_of_two
unfolding time_specification bytes_eq range_qualifier
inside_spec_read = refl

january_read : operand_value clock 1 (quoted january) ≡ some 0
unfolding operand_value bytes_eq read_literal read_body
january_read = refl

february_read : operand_value clock 1 (quoted february) ≡ some 2
unfolding operand_value bytes_eq read_literal read_body
february_read = refl

valid_times_quoted :
    (quote_time january ≡ quoted january) × (valid_time_to interval_of_two ≡ quoted february)
unfolding valid_time_to quote_time bytes_eq
valid_times_quoted = (refl, refl)

reference_time_quoted : reference_time_to interval_of_two ≡ february
unfolding reference_time_to
reference_time_quoted = refl

-- The apostrophe ends the literal, and the text is no operand.
injected_unread : operand_value clock 1 (quoted (codes "2008' OR 'a'='a")) ≡ none
unfolding operand_value read_literal read_body
injected_unread = refl

-- An interval behind a time, and NULL.
shifted_read :
    (operand_value clock 1 (codes "'2008-02-01'::timestamp with time zone+'1 day'") ≡ some 2)
    × (operand_value clock 1 (codes "NULL") ≡ none)
    × (operand_value clock 1 (codes "referencetime") ≡ some 1)
unfolding operand_value bytes_eq read_literal read_body
shifted_read = (refl, refl, refl)

add_valid_time_query-Related_example :
    (cs : List Comparison) × (add_valid_time_query time_regex (some inside_spec) view
      ≡ ok (add_where (codes "(" ++ (print_all cs ++ codes ")")) view))
    × (Holds ones (operand_value clock 1) cs ↔ Related TimeCode.inside 1 1 0 2)
add_valid_time_query-Related_example =
    add_valid_time_query-Related time_regex inside_spec interval_of_two TimeCode.inside view ones
      clock 0 2 inside_spec_read refl (leb→le 1 1 refl) (rw valid_times_quoted.0 january_read)
      (rw valid_times_quoted.1 february_read) (leb→le 0 2 refl)

add_reference_time_query-Related_example :
    (cs : List Comparison) × (add_reference_time_query time_regex (some inside_spec) view
      ≡ ok (add_where (codes "(" ++ (print_all cs ++ codes ") ")) view))
    × (Holds ones (operand_value clock 1) cs ↔ Related TimeCode.inside 1 1 0 2)
add_reference_time_query-Related_example =
    add_reference_time_query-Related time_regex inside_spec interval_of_two TimeCode.inside view
      ones clock 0 2 inside_spec_read refl january_read (rw reference_time_quoted february_read)
      (leb→le 0 2 refl)

abbrev ten_metres : LevelSpecification
ten_metres = record {
  from_ = 0;
  to_ = 10;
  parameter_ = codes "height";
  indeterminate_ = codes "inside";
}

abbrev level_value : Bytes → ℕ
level_value s = if bytes_eq s (codes "0") then 0 else 10

add_data_version_query-Asked_example :
    (c : Condition) × (add_data_version_query (some (pos 3 ∷ negsuc 0 ∷ [])) view
      ≡ add_where (print c) view)
    × (Selects 3 7 c ↔ Asked 3 7 (pos 3 ∷ negsuc 0 ∷ []))
add_data_version_query-Asked_example =
    add_data_version_query-Asked 3 7 (pos 3 ∷ negsuc 0 ∷ []) view (λ e. cc)
      (tt, (leb→le 1 2147483647 refl, tt))

read_literal-quote_example :
    read_literal (quote boost (codes "O'Hara") ++ codes ")") ≡ some (codes "O'Hara", codes ")")
read_literal-quote_example =
    read_literal-quote boost (codes "O'Hara") (codes ")") (λ e. absurd (omega arith))

abbrev two_providers : ArrayType Bytes
two_providers = record { ndim = 1; elements = some (codes "met") ∷ some (codes "ecmwf") ∷ [] }

read_array-string_from_string_array_example :
    read_array 2
      (string_from_string_array boost (some (codes "met" ∷ codes "a', 'b" ∷ [])) ++ codes ", ")
    ≡ some (codes "met" ∷ codes "a', 'b" ∷ [], codes ", ")
read_array-string_from_string_array_example =
    read_array-string_from_string_array boost (codes "met" ∷ codes "a', 'b" ∷ []) (codes ", ")

abbrev lookups : List (Option Bytes)
lookups =
    some (codes "SELECT 1")
    ∷ some []
    ∷ none
    ∷ some (codes "SELECT 1")
    ∷ some (codes "SELECT 1")
    ∷ []

-- A query for nothing cannot be prepared.
abbrev prepare_length : Bytes → Outcome ℕ
prepare_length [] = fail (ereport internal_error (codes "syntax error"))
prepare_length (c ∷ query) = ok (length query)

serve-prepared_example :
    ((serve prepare_length lookups []).0 ≡ prepared prepare_length lookups)
    × (length (serve prepare_length lookups []).1 ≤ max_cached_plan_size)
serve-prepared_example = serve-prepared prepare_length lookups

abbrev one_parameter : WciReadParameterCollection
one_parameter = record {
  data_provider = some (codes "met" ∷ []);
  location = some (codes "Oslo");
  reference_time = some inside_spec;
  valid_time = some inside_spec;
  parameter = some (codes "air temperature" ∷ []);
  level = some level_text;
  data_version = some (pos 0 ∷ []);
}

build_query_iff_example :
    Succeeds (
      build_query externals (some one_parameter) float_table output_float (codes "value") none none)
    ↔ Accepts externals one_parameter
build_query_iff_example =
    build_query_iff externals one_parameter float_table output_float (codes "value") none none
