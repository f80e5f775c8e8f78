-- ===== src/Query/Build/Steps.antt =====
-- Each part of `build_query` keeps a table in the builder, if it can read its specification
-- (src/callInterface/core/wciRead/query/{timeQuery,parameterQuery,levelQuery}.cpp, location.cpp).
use wdb.Base.{
  List, [], ◌∷◌, ◌++◌, ◌≡◌, ◌≢◌, refl, arith, Bytes, codes, Option, none, some, ok, catch_as, All,
  Bool-cases, ℤ, inl, inr,
}
use mathlib.Core.List.{cons-ne-nil, concat-ne-nil}
use wdb.Spec.Time.{TimeRegex}
use wdb.Spec.Place.{
  Location, InterpolationType, exact, nearest, surround, bilinear, has_geometry, has_place_name,
}
use wdb.Query.Quote.{BoostString, lquote}
use wdb.Query.Externals.{Externals}
use wdb.Query.Builder.{Builder, empty}
use wdb.Query.Builder.Str.{with-eq-ok}
use wdb.Query.Time.{add_reference_time_query, add_valid_time_query}
use wdb.Query.Select.{
  prep_parameter, parameter_alternatives, add_parameter_query, provider_subquery,
  add_data_provider_query, add_level_query, add_data_version_query,
}
use wdb.Query.Location.Surround.{
  named_geometries-from_, wanted_location-from_, original_query-from_,
}
use wdb.Query.Location.{
  named_geometries, add_exact, wanted_location, original_query, add_surround, add_float_table_query,
  add_grid_table_query,
}
use wdb.Query.Build.{
  DataSource, float_table, grid_table, OutputType, output_float, output_gid,
  WciReadParameterCollection, add_location_query, add_parameters,
}
use wdb.Query.Build.Specs.{
  Succeeds, Builds, Builds-bind, AcceptsTime, AcceptsValidTime, AcceptsParameters, AcceptsLevel,
  AcceptsLocation, Accepts,
}

provider_subquery-from_ :
    (x : Externals) (p : Bytes) (ps : List Bytes) → (provider_subquery x p ps).from_ ≢ []
unfolding provider_subquery
provider_subquery-from_ x p ps = cons-ne-nil _ _

add_data_provider_query-Builds :
    (x : Externals) (o : Option (List Bytes)) (b : Builder)
    → b.from_ ≢ []
    → Builds (add_data_provider_query x o b)
unfolding add_data_provider_query
add_data_provider_query-Builds x none b h = h
add_data_provider_query-Builds x (some []) b h = h
add_data_provider_query-Builds x (some (p ∷ ps)) b h =
    rw
      (with-eq-ok (provider_subquery x p ps) (codes "dataprovider") b
        (provider_subquery-from_ x p ps))
      (concat-ne-nil _ _)

add_reference_time_query-Builds :
    (regex : TimeRegex) (o : Option Bytes) (b : Builder)
    → b.from_ ≢ []
    → AcceptsTime regex o
    → Builds (add_reference_time_query regex o b)
unfolding add_reference_time_query
add_reference_time_query-Builds regex none b h a = h
add_reference_time_query-Builds regex (some s) b h (ts, e) = rw e h

add_valid_time_query-Builds :
    (regex : TimeRegex) (o : Option Bytes) (b : Builder)
    → b.from_ ≢ []
    → AcceptsValidTime regex o
    → Builds (add_valid_time_query regex o b)
unfolding add_valid_time_query
add_valid_time_query-Builds regex none b h a = h
add_valid_time_query-Builds regex (some s) b h (ts, e, (q, f)) = rw (e, f) h

prep_parameter-eq-ok :
    (boost : BoostString) (p : Bytes) → p ≢ [] → prep_parameter boost p ≡ ok (lquote boost p)
unfolding prep_parameter
prep_parameter-eq-ok boost p h = ground arith

parameter_alternatives-Succeeds :
    (boost : BoostString) (ps : List Bytes) (q : Bytes)
    → All (λ p. p ≢ []) ps
    → Succeeds (parameter_alternatives boost ps q)
unfolding parameter_alternatives
parameter_alternatives-Succeeds boost [] q h = (q, refl)
parameter_alternatives-Succeeds boost (p ∷ ps) q (hp, hs) =
    rw (prep_parameter-eq-ok boost p hp) (parameter_alternatives-Succeeds boost ps _ hs)

add_parameter_query-Builds :
    (boost : BoostString) (o : Option (List Bytes)) (b : Builder)
    → b.from_ ≢ []
    → AcceptsParameters o
    → Builds (add_parameter_query boost o b)
unfolding add_parameter_query
add_parameter_query-Builds boost none b h a = h
add_parameter_query-Builds boost (some []) b h a = h
add_parameter_query-Builds boost (some (p ∷ ps)) b h (hp, hs) =
    let (q, e) =
      parameter_alternatives-Succeeds boost ps (codes "(valueparametername LIKE " ++ lquote boost p)
        hs in
    rw (prep_parameter-eq-ok boost p hp, e) h

add_level_query-Builds :
    (x : Externals) (o : Option Bytes) (b : Builder)
    → b.from_ ≢ []
    → AcceptsLevel x o
    → Builds (add_level_query x o b)
unfolding add_level_query
add_level_query-Builds x none b h a = h
add_level_query-Builds x (some s) b h (lvl, e) = rw e h

add_data_version_query-from_ :
    (o : Option (List ℤ)) (b : Builder) → (add_data_version_query o b).from_ ≡ b.from_
unfolding add_data_version_query
add_data_version_query-from_ none b = refl
add_data_version_query-from_ (some []) b = refl
add_data_version_query-from_ (some (v ∷ vs)) b = refl

add_exact-Builds :
    (schema : Bytes) (l : Location) (b : Builder) → b.from_ ≢ [] → Builds (add_exact schema l b)
unfolding add_exact
add_exact-Builds schema l b h = elim (Bool-cases (has_place_name l)) [
  | inl e ↦ rw e (
      rw
        (with-eq-ok (named_geometries schema l.place_name_) (codes "geometries") _
          (named_geometries-from_ schema l.place_name_))
        (concat-ne-nil _ _))
  | inr e ↦ rw e (elim (Bool-cases (has_geometry l)) [ inl f ↦ rw f h | inr f ↦ rw f h ])
]

add_surround-Builds : (l : Location) (b : Builder) → b.from_ ≢ [] → Builds (add_surround l b)
unfolding add_surround
add_surround-Builds l b h =
    rw (with-eq-ok (original_query b) (codes "floatvalue") empty (rw (original_query-from_ b) h))
      (elim (Bool-cases (has_geometry l)) [
        | inl f ↦ rw f (cons-ne-nil _ _)
        | inr f ↦ rw f (
            rw
              (with-eq-ok (wanted_location l.place_name_) (codes "wanted_location") _
                (wanted_location-from_ l.place_name_))
              (cons-ne-nil _ _))
      ])

add_float_table_query-Builds :
    (k : InterpolationType) (schema : Bytes) (l : Location) (b : Builder)
    → l.interpolation_type_ ≡ k
    → b.from_ ≢ []
    → Builds (add_float_table_query schema l b)
unfolding add_float_table_query
add_float_table_query-Builds exact schema l b e h =
    rw (e, add_float_table_query) (add_exact-Builds schema l b h)
add_float_table_query-Builds nearest schema l b e h =
    rw (e, add_float_table_query) (add_surround-Builds l b h)
add_float_table_query-Builds surround schema l b e h =
    rw (e, add_float_table_query) (add_surround-Builds l b h)
add_float_table_query-Builds bilinear schema l b e h = rw (e, add_float_table_query) h

add_grid_table_query-from_ :
    (schema : Bytes) (l : Location) (b : Builder)
    → (add_grid_table_query schema l b).from_ ≡ b.from_
unfolding add_grid_table_query
add_grid_table_query-from_ schema l b = refl

add_location_query-Builds :
    (x : Externals) (o : Option Bytes) (source : DataSource) (output : OutputType) (b : Builder)
    → b.from_ ≢ []
    → AcceptsLocation x o
    → Builds (add_location_query x o source output b)
unfolding add_location_query catch_as
add_location_query-Builds x none source output b h a = h
add_location_query-Builds x (some s) float_table output b h (l, e) =
    rw e (add_float_table_query-Builds l.interpolation_type_ x.wci_schema l b refl h)
add_location_query-Builds x (some s) grid_table output_float b h (l, e) = rw e h
add_location_query-Builds x (some s) grid_table output_gid b h (l, e) =
    rw e (rw (add_grid_table_query-from_ x.wci_schema l b) h)

pub add_parameters-Builds :
    (x : Externals) (p : WciReadParameterCollection) (source : DataSource) (output : OutputType)
    (b : Builder)
    → b.from_ ≢ []
    → Accepts x p
    → Builds (add_parameters x p source output b)
unfolding add_parameters
add_parameters-Builds x p source output b h a =
    Builds-bind _ _ (add_data_provider_query-Builds x p.data_provider b h) λ b h.
      Builds-bind _ _
        (add_reference_time_query-Builds x.time_regex p.reference_time b h a.reference_time)
        λ b h.
          Builds-bind _ _ (add_valid_time_query-Builds x.time_regex p.valid_time b h a.valid_time)
            λ b h.
              Builds-bind _ _ (add_parameter_query-Builds x.boost p.parameter b h a.parameter)
                λ b h. Builds-bind _ _ (add_level_query-Builds x p.level b h a.level) λ b h.
                  add_location_query-Builds x p.location source output _
                    (rw (add_data_version_query-from_ p.data_version b) h) a.location
