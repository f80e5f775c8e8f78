-- ===== src/Base/Errors.antt =====
-- How a call ends: with a value, with a C++ exception, with `ereport(ERROR, …)`, which leaves
-- every frame of the backend call, or with undefined behaviour.
use mathlib.Core.Path.{◌≡◌, refl}
use mathlib.Core.Logic.{◌⊎◌, inl, inr}
use wdb.Base.Text.{Bytes, codes}

-- The PostgreSQL error codes that the sources report.
pub data ErrCode : Type 0 where
  data_exception null_value_not_allowed invalid_text_representation : ErrCode
  invalid_binary_representation invalid_role_specification raise_exception : ErrCode
  connection_exception internal_error feature_not_supported : ErrCode

pub data Failure : Type 0 where
  -- `query::Builder::InvalidQuery`
  invalid_query : Failure
  logic_error : Bytes → Failure
  runtime_error : Bytes → Failure
  out_of_range : Bytes → Failure
  ereport : ErrCode → Bytes → Failure
  -- the call dereferences a null pointer
  null_dereference : Failure
  -- any other undefined behaviour, and what it is
  undefined : Bytes → Failure

pub data Outcome {ℓ} (A : Type ℓ) : Type ℓ where
  ok : A → Outcome A
  fail : Failure → Outcome A

module _ {ℓ κ} {A : Type ℓ} {B : Type κ} where
  infixl 5 ◌>>=◌
  abbrev pub ◌>>=◌ : Outcome A → (A → Outcome B) → Outcome B
  ok a >>= f = f a
  fail e >>= f = fail e

  pub bind-eq-ok :
      (m : Outcome A) (f : A → Outcome B) {b : B}
      → (m >>= f) ≡ ok b
      → (a : A) × (m ≡ ok a) × (f a ≡ ok b)
  bind-eq-ok (ok a) f h = (a, refl, h)
  bind-eq-ok (fail e) f h = cc

pub Outcome-cases {ℓ} :
    {A : Type ℓ} (m : Outcome A) → ((a : A) × (m ≡ ok a)) ⊎ ((f : Failure) × (m ≡ fail f))
Outcome-cases (ok a) = inl (a, refl)
Outcome-cases (fail f) = inr (f, refl)

pub bind_ok {ℓ} : {A : Type ℓ} (m : Outcome A) → (m >>= λ a. ok a) ≡ m
bind_ok (ok a) = refl
bind_ok (fail e) = refl

-- `e.what()` of a C++ exception.
abbrev pub message : Failure → Bytes
message invalid_query = codes "Object is not complete"
message (logic_error m) = m
message (runtime_error m) = m
message (out_of_range m) = m
message (ereport c m) = m
message null_dereference = codes ""
message (undefined m) = codes ""

-- `catch (std::exception & e) { ereport(ERROR, (errcode(code), errmsg("%s", e.what()))); }`: an
-- `ereport` in the guarded block is no C++ exception, and undefined behaviour is not caught.
unfoldable pub catch_as {ℓ} : {A : Type ℓ} → ErrCode → Outcome A → Outcome A
catch_as code (ok a) = ok a
catch_as code (fail (ereport c m)) = fail (ereport c m)
catch_as code (fail null_dereference) = fail null_dereference
catch_as code (fail (undefined m)) = fail (undefined m)
catch_as code (fail e) = fail (ereport code (message e))

pub catch_as-eq-ok {ℓ} :
    {A : Type ℓ} (code : ErrCode) (m : Outcome A) {a : A} → catch_as code m ≡ ok a → m ≡ ok a
unfolding catch_as
catch_as-eq-ok code (ok a) h = h
catch_as-eq-ok code (fail invalid_query) h = cc
catch_as-eq-ok code (fail _) h = cc
