-- ===== src/Prelude/Results.antt =====
-- The framework's exceptions (packages/agentforge-core/src/agentforge_core/production/exceptions.py)
-- and the result of code that may raise.
use mathlib.Core.Path.{◌≡◌, refl}
use mathlib.Core.Logic.{◌⊎◌, inl, inr}
use mathlib.Core.Bool.{Bool, true, false}
use Prim.Native.String.{String}

-- The exception classes. `builtin` is a class that Python or another package defines directly below
-- `Exception`, by its name; `subclass` is one that extends another class, such as `JSONDecodeError`
-- below `ValueError`. `base_exception` is one outside `Exception`, such as `CancelledError`. The message
-- of an exception is not kept.
pub data Error : Type 0 where
  agent_forge_error : Error
  budget_exceeded : Error
  guardrail_violation : Error
  module_error : Error
  provider_error : Error
  rate_limit_error : Error
  authentication_error : Error
  model_not_found_error : Error
  service_error : Error
  timeout_error : Error
  tool_name_invalid_error : Error
  capability_not_supported : Error
  a2a_call_error : Error
  a2a_auth_error : Error
  a2a_timeout : Error
  builtin : String → Error
  base_exception : String → Error
  subclass : String → Error → Error

abbrev pub value_error : Error
value_error = builtin "ValueError"

abbrev pub runtime_error : Error
runtime_error = builtin "RuntimeError"

pub data Result {ℓ} (A : Type ℓ) : Type ℓ where
  ok : A → Result A
  err : Error → Result A

infixl 5 ◌>>=◌
abbrev pub ◌>>=◌ {ℓ κ} : {X : Type ℓ} {Y : Type κ} → Result X → (X → Result Y) → Result Y
err e >>= next = err e
ok x >>= next = next x

-- One step after another, without a value in between.
infixl 5 ◌>>◌
abbrev pub ◌>>◌ {ℓ} : {X : Type ℓ} → Result (Unit {0}) → Result X → Result X
first >> next = first >>= λ _. next

-- `if b: raise e`
abbrev pub raise_if : Bool → Error → Result (Unit {0})
raise_if true e = err e
raise_if false e = ok tt

-- To split on a computed result and keep the equation.
pub Result-cases {ℓ} :
    {A : Type ℓ} (r : Result A) → ((a : A) × (r ≡ ok a)) ⊎ ((e : Error) × (r ≡ err e))
Result-cases (ok a) = inl (a, refl)
Result-cases (err e) = inr (e, refl)
