-- ===== src/Query/Build/Reads.antt =====
-- A part of `build_query` that returns has read its specification
-- (src/callInterface/core/wciRead/query/{timeQuery,parameterQuery,levelQuery}.cpp, location.cpp).
use wdb.Base.{
  List, [], ◌∷◌, ◌≡◌, ◌≢◌, arith, Bytes, Option, none, some, ok, bind-eq-ok, catch_as,
  catch_as-eq-ok, data_exception, All,
}
use wdb.Spec.Time.{TimeRegex, time_specification}
use wdb.Spec.Level.{level_specification}
use wdb.Spec.Place.{parse_location}
use wdb.Query.Quote.{BoostString}
use wdb.Query.Externals.{Externals}
use wdb.Query.Builder.{Builder}
use wdb.Query.Time.{add_reference_time_query, valid_time_condition, add_valid_time_query}
use wdb.Query.Select.{
  prep_parameter, parameter_alternatives, add_parameter_query, add_data_provider_query,
  add_level_query,
}
use wdb.Query.Build.{
  DataSource, OutputType, WciReadParameterCollection, add_location_query, add_parameters,
}
use wdb.Query.Build.Specs.{
  AcceptsTime, AcceptsValidTime, AcceptsParameters, AcceptsLevel, AcceptsLocation, Accepts,
}

add_reference_time_query-Accepts :
    (regex : TimeRegex) (o : Option Bytes) (b : Builder) {b' : Builder}
    → add_reference_time_query regex o b ≡ ok b'
    → AcceptsTime regex o
unfolding add_reference_time_query
add_reference_time_query-Accepts regex none b e = tt
add_reference_time_query-Accepts regex (some s) b e =
    let (ts, f, _) = bind-eq-ok (time_specification regex s) _ e in (ts, f)

add_valid_time_query-Accepts :
    (regex : TimeRegex) (o : Option Bytes) (b : Builder) {b' : Builder}
    → add_valid_time_query regex o b ≡ ok b'
    → AcceptsValidTime regex o
unfolding add_valid_time_query
add_valid_time_query-Accepts regex none b e = tt
add_valid_time_query-Accepts regex (some s) b e =
    let (ts, f, g) = bind-eq-ok (time_specification regex s) _ e in
    let (q, h, _) = bind-eq-ok (valid_time_condition ts) _ g in (ts, f, (q, h))

prep_parameter-ne-nil :
    (boost : BoostString) (p : Bytes) {s : Bytes} → prep_parameter boost p ≡ ok s → p ≢ []
unfolding prep_parameter
prep_parameter-ne-nil boost p e = ground arith

parameter_alternatives-All :
    (boost : BoostString) (ps : List Bytes) (q : Bytes) {r : Bytes}
    → parameter_alternatives boost ps q ≡ ok r
    → All (λ p. p ≢ []) ps
unfolding parameter_alternatives
parameter_alternatives-All boost [] q e = tt
parameter_alternatives-All boost (p ∷ ps) q e =
    let (s, f, g) = bind-eq-ok (prep_parameter boost p) _ e in
    (prep_parameter-ne-nil boost p f, parameter_alternatives-All boost ps _ g)

add_parameter_query-Accepts :
    (boost : BoostString) (o : Option (List Bytes)) (b : Builder) {b' : Builder}
    → add_parameter_query boost o b ≡ ok b'
    → AcceptsParameters o
unfolding add_parameter_query
add_parameter_query-Accepts boost none b e = tt
add_parameter_query-Accepts boost (some []) b e = tt
add_parameter_query-Accepts boost (some (p ∷ ps)) b e =
    let (s, f, g) = bind-eq-ok (prep_parameter boost p) _ e in
    let (q, h, _) = bind-eq-ok (parameter_alternatives boost ps _) _ g in
    (prep_parameter-ne-nil boost p f, parameter_alternatives-All boost ps _ h)

add_level_query-Accepts :
    (x : Externals) (o : Option Bytes) (b : Builder) {b' : Builder}
    → add_level_query x o b ≡ ok b'
    → AcceptsLevel x o
unfolding add_level_query
add_level_query-Accepts x none b e = tt
add_level_query-Accepts x (some s) b e =
    let (lvl, f, _) = bind-eq-ok (level_specification x.level_boost s) _ e in (lvl, f)

add_location_query-Accepts :
    (x : Externals) (o : Option Bytes) (source : DataSource) (output : OutputType) (b : Builder)
    {b' : Builder}
    → add_location_query x o source output b ≡ ok b'
    → AcceptsLocation x o
unfolding add_location_query
add_location_query-Accepts x none source output b e = tt
add_location_query-Accepts x (some s) source output b e =
    let (l, f, _) = bind-eq-ok (catch_as data_exception (parse_location x.grammar s)) _ e in
    (l, catch_as-eq-ok data_exception _ f)

pub add_parameters-Accepts :
    (x : Externals) (p : WciReadParameterCollection) (source : DataSource) (output : OutputType)
    (b : Builder) {b' : Builder}
    → add_parameters x p source output b ≡ ok b'
    → Accepts x p
unfolding add_parameters
add_parameters-Accepts x p source output b e =
    let (b₁, _, e₁) = bind-eq-ok (add_data_provider_query x p.data_provider b) _ e in
    let (b₂, f₂, e₂) =
      bind-eq-ok (add_reference_time_query x.time_regex p.reference_time b₁) _ e₁ in
    let (b₃, f₃, e₃) = bind-eq-ok (add_valid_time_query x.time_regex p.valid_time b₂) _ e₂ in
    let (b₄, f₄, e₄) = bind-eq-ok (add_parameter_query x.boost p.parameter b₃) _ e₃ in
    let (b₅, f₅, e₅) = bind-eq-ok (add_level_query x p.level b₄) _ e₄ in
    record {
      reference_time = add_reference_time_query-Accepts x.time_regex p.reference_time b₁ f₂;
      valid_time = add_valid_time_query-Accepts x.time_regex p.valid_time b₂ f₃;
      parameter = add_parameter_query-Accepts x.boost p.parameter b₃ f₄;
      level = add_level_query-Accepts x p.level b₄ f₅;
      location = add_location_query-Accepts x p.location source output _ e₅;
    }
