-- ===== src/Query/Build/Specs.antt =====
-- The calls that the query functions can read, of src/callInterface/core/wciRead/query/buildQuery.cpp:
-- what each specification must be, and what a builder must have.
use wdb.Base.{List, [], ◌≡◌, ◌≢◌, Bytes, Option, none, some, Outcome, ok, fail, ◌>>=◌, All}
use wdb.Spec.Time.{TimeRegex, TimeSpecification, time_specification}
use wdb.Spec.Level.{level_specification}
use wdb.Spec.Place.{parse_location}
use wdb.Query.Externals.{Externals}
use wdb.Query.Builder.{Builder}
use wdb.Query.Time.{valid_time_condition}
use wdb.Query.Build.{WciReadParameterCollection}

abbrev pub Succeeds {ℓ} : {A : Type ℓ} → Outcome A → Type ℓ
Succeeds {A} m = (a : A) × (m ≡ ok a)

-- A call that returns a builder with a table.
abbrev pub Builds : Outcome Builder → Type 0
Builds (ok b) = b.from_ ≢ []
Builds (fail e) = ⊥

pub Builds-bind :
    (m : Outcome Builder) (f : Builder → Outcome Builder)
    → Builds m
    → ((b : Builder) → b.from_ ≢ [] → Builds (f b))
    → Builds (m >>= f)
Builds-bind (ok b) f h k = k b h
Builds-bind (fail e) f h k = absurd h

abbrev pub AcceptsTime : TimeRegex → Option Bytes → Type 0
AcceptsTime regex none = Unit
AcceptsTime regex (some s) = Succeeds (time_specification regex s)

abbrev pub AcceptsValidTime : TimeRegex → Option Bytes → Type 0
AcceptsValidTime regex none = Unit
AcceptsValidTime regex (some s) =
    (ts : TimeSpecification) × (time_specification regex s ≡ ok ts)
    × Succeeds (valid_time_condition ts)

abbrev pub AcceptsParameters : Option (List Bytes) → Type 0
AcceptsParameters none = Unit
AcceptsParameters (some ps) = All (λ p. p ≢ []) ps

abbrev pub AcceptsLevel : Externals → Option Bytes → Type 0
AcceptsLevel x none = Unit
AcceptsLevel x (some s) = Succeeds (level_specification x.level_boost s)

abbrev pub AcceptsLocation : Externals → Option Bytes → Type 0
AcceptsLocation x none = Unit
AcceptsLocation x (some s) = Succeeds (parse_location x.grammar s)

-- The parameters of a call that can be read.
pub record Accepts (x : Externals) (p : WciReadParameterCollection) : Type 0 where
  pub reference_time : AcceptsTime x.time_regex p.reference_time
  pub valid_time : AcceptsValidTime x.time_regex p.valid_time
  pub parameter : AcceptsParameters p.parameter
  pub level : AcceptsLevel x p.level
  pub location : AcceptsLocation x p.location
