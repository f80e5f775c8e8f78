-- ===== src/Query/Build/Total.antt =====
-- When `build_query` returns a statement.
use wdb.Base.{
  ◌++◌, ◌≡◌, ◌↔◌, refl, Bytes, Option, none, some, Outcome, ok, fail, ◌>>=◌, bind-eq-ok, catch_as,
  catch_as-eq-ok, data_exception,
}
use mathlib.Core.List.{cons-ne-nil}
use wdb.Query.Externals.{Externals}
use wdb.Query.Builder.{Builder, order_by, group_by, empty, str, statement, what, from}
use wdb.Query.Builder.Str.{str-eq-ok}
use wdb.Query.Build.{
  DataSource, OutputType, WciReadParameterCollection, add_parameters, build, build_query, if_given,
  source_table,
}
use wdb.Query.Build.Specs.{Succeeds, Builds, Accepts}
use wdb.Query.Build.Steps.{add_parameters-Builds}
use wdb.Query.Build.Reads.{add_parameters-Accepts}

Builds-str :
    (m : Outcome Builder) (f : Builder → Builder)
    → Builds m
    → ((b : Builder) → (f b).from_ ≡ b.from_)
    → Succeeds (m >>= λ b. str (f b))
Builds-str (ok b) f h k = (statement (f b), str-eq-ok (f b) (rw (k b) h))
Builds-str (fail e) f h k = absurd h

if_given-from_ :
    (ordering groupby : Option Bytes) (b : Builder)
    → (if_given group_by groupby (if_given order_by ordering b)).from_ ≡ b.from_
if_given-from_ none none b = refl
if_given-from_ none (some g) b = refl
if_given-from_ (some o) none b = refl
if_given-from_ (some o) (some g) b = refl

-- If every specification of the call can be read, a statement is returned, whatever the source,
-- the output, the selected columns, the ordering and the grouping.
build_query-Succeeds :
    (x : Externals) (p : WciReadParameterCollection) (source : DataSource) (output : OutputType)
    (select_what : Bytes) (ordering groupby : Option Bytes)
    → Accepts x p
    → Succeeds (build_query x (some p) source output select_what ordering groupby)
unfolding build_query catch_as
build_query-Succeeds x p source output select_what ordering groupby a =
    let start = what select_what (from (x.wci_schema ++ source_table source) empty) in
    let finish : Builder → Builder =
      λ b. if_given group_by groupby (if_given order_by ordering b) in
    let (t, e) =
      Builds-str (add_parameters x p source output start) finish
        (add_parameters-Builds x p source output start (cons-ne-nil _ _) a)
        (if_given-from_ ordering groupby) in
    (t, rw e refl)

-- A statement is returned exactly if the reference time, the valid time with its code, the level
-- and the location can be read and no parameter name is empty, whatever the source, the output, the
-- selected columns, the ordering and the grouping are. In particular a table is always named.
pub build_query_iff :
    (x : Externals) (p : WciReadParameterCollection) (source : DataSource) (output : OutputType)
    (select_what : Bytes) (ordering groupby : Option Bytes)
    → Succeeds (build_query x (some p) source output select_what ordering groupby) ↔ Accepts x p
unfolding build_query build
build_query_iff x p source output select_what ordering groupby = (
  λ h.
      let start = what select_what (from (x.wci_schema ++ source_table source) empty) in
      let (b, e, _) =
        bind-eq-ok (add_parameters x p source output start) _
          (catch_as-eq-ok data_exception _ h.1) in
      add_parameters-Accepts x p source output start e,
  build_query-Succeeds x p source output select_what ordering groupby,
)
