-- ===== src/Guardrails/Engine.antt =====
-- `GuardrailEngine` of packages/agentforge/src/agentforge/guardrails/engine.py, with the policy of
-- packages/agentforge-core/src/agentforge_core/config/schema.py and the result type of
-- packages/agentforge-core/src/agentforge_core/values/guardrails.py. Validators and gates are
-- functions of their input; the hash and the context type are parameters. A score is kept in
-- thousandths, and the free-form metadata of a result is left out.
use agentforge_py.Prelude.{
  ℕ, Bool, true, false, Option, none, some, List, [], ◌∷◌, ◌++◌, String, ◌==◌, if◌then◌else◌, Error,
  Result, ok, err, guardrail_violation, module_error, runtime_error, value_error,
}
use agentforge_py.Production.Errors.{caught_by}

pub data Action : Type 0 where
  block redact warn allow : Action

pub record GuardrailPolicy : Type 0 where
  pub on_input_violation : Action
  pub on_output_violation : Action
  pub on_tool_violation : Action
  pub fail_open : Bool

pub record ValidationResult : Type 0 where
  pub passed : Bool
  pub score : ℕ
  pub violations : List String
  pub redacted_content : Option String

-- `ValidationResult.ok()`
abbrev pub passing : ValidationResult
passing = record { passed = true; score = 1000; violations = []; redacted_content = none }

-- What `_safe_invoke` makes of an exception when the engine fails closed.
abbrev pub validator_error : ValidationResult
validator_error = record {
  passed = false;
  score = 0;
  violations = "validator_error" ∷ [];
  redacted_content = none;
}

pub record Validator (C : Type 0) : Type 0 where
  pub name : String
  pub validate : String → C → Result ValidationResult

-- A gate sees the tool's name, its capabilities, the arguments and the context.
pub record Gate (A C : Type 0) : Type 0 where
  pub name : String
  pub authorize : String → List String → A → C → Result ValidationResult

pub record Event : Type 0 where
  pub stage : String
  pub validator : String
  pub passed : Bool
  pub violations : List String
  pub score : ℕ
  pub action : Action
  pub content_hash : String

abbrev handled : List Error
handled = runtime_error ∷ module_error ∷ value_error ∷ []

unfoldable pub safe_invoke : Bool → Result ValidationResult → Result ValidationResult
safe_invoke fail_open (ok r) = ok r
safe_invoke fail_open (err e) =
    if caught_by handled e then (if fail_open then ok passing else ok validator_error) else err e

violated : Action → Option String → String → Option String
violated Action.block redacted current = none
violated Action.redact (some redacted) current = some redacted
violated Action.redact none current = some current
violated Action.warn redacted current = some current
violated Action.allow redacted current = some current

-- The content that the next validator sees; `none` is the raise of a blocking action.
unfoldable pub next_content : Action → ValidationResult → String → Option String
unfolding violated
next_content action r current =
    if r.passed then some current else violated action r.redacted_content current

module _ (hash : String → String) where
  unfoldable pub event_of : String → String → ValidationResult → String → Action → Event
  event_of stage name r content action = record {
    stage = stage;
    validator = name;
    passed = r.passed;
    violations = r.violations;
    score = r.score;
    action = action;
    content_hash = hash content;
  }

  -- The loop over the validators, with the events recorded so far.
  unfoldable pub run_stage :
      {C : Type 0}
      → String
      → Bool
      → Action
      → List (Validator C)
      → C
      → String
      → List Event
      → Result String × List Event
  run_stage stage fail_open action [] ctx current events = (ok current, events)
  run_stage stage fail_open action (v ∷ vs) ctx current events =
      elim (safe_invoke fail_open (v.validate current ctx)) [
        | err e ↦ (err e, events)
        | ok r ↦
            let events' = events ++ event_of stage v.name r current action ∷ [] in
            elim (next_content action r current) [
              | none ↦ (err guardrail_violation, events')
              | some next ↦ run_stage stage fail_open action vs ctx next events'
            ]
      ]

  -- The loop over the gates. The content that is hashed, the tool's name and its argument names, is
  -- given by `shown`.
  unfoldable pub run_gates :
      {A C : Type 0}
      → (String → A → String)
      → Bool
      → Action
      → List (Gate A C)
      → String
      → List String
      → A
      → C
      → List Event
      → Result (Unit {0}) × List Event
  run_gates shown fail_open action [] tool caps args ctx events = (ok tt, events)
  run_gates shown fail_open action (g ∷ gs) tool caps args ctx events =
      elim (safe_invoke fail_open (g.authorize tool caps args ctx)) [
        | err e ↦ (err e, events)
        | ok r ↦
            let events' = events ++ event_of "tool" g.name r (shown tool args) action ∷ [] in
            elim (next_content action r "") [
              | none ↦ (err guardrail_violation, events')
              | some next ↦ run_gates shown fail_open action gs tool caps args ctx events'
            ]
      ]

pub record GuardrailEngine (A C : Type 0) : Type 0 where
  pub inputs : List (Validator C)
  pub outputs : List (Validator C)
  pub gates : List (Gate A C)
  pub policy : GuardrailPolicy
  pub events : List Event

pub record LlmResponse : Type 0 where
  pub content : String
  pub tool_calls : List String

-- A tool of the program: its own work changes the world `W` and may raise.
pub record Tool (A W : Type 0) : Type 0 where
  pub name : String
  pub capabilities : List String
  pub run : A → W → Result String × W

validated_response : LlmResponse → Result String → Result LlmResponse
validated_response response (err e) = err e
validated_response response (ok text) = ok (record response { content = text })

-- The real tool runs only if the gates let it.
run_if : {W : Type 0} → Result (Unit {0}) → (W → Result String × W) → W → Result String × W
run_if (err e) run w = (err e, w)
run_if (ok u) run w = run w

module _ {A C : Type 0} (hash : String → String) (shown : String → A → String) where
  unfoldable pub check_input :
      String → C → GuardrailEngine A C → Result String × GuardrailEngine A C
  check_input content ctx g =
      let (r, events) =
        run_stage hash "input" g.policy.fail_open g.policy.on_input_violation g.inputs ctx content
          g.events in
      (r, record g { events = events })

  unfoldable pub check_output :
      String → C → GuardrailEngine A C → Result String × GuardrailEngine A C
  check_output content ctx g =
      let (r, events) =
        run_stage hash "output" g.policy.fail_open g.policy.on_output_violation g.outputs ctx
          content g.events in
      (r, record g { events = events })

  unfoldable pub authorize_tool :
      String → List String → A → C → GuardrailEngine A C → Result (Unit {0}) × GuardrailEngine A C
  authorize_tool tool caps args ctx g =
      let (r, events) =
        run_gates hash shown g.policy.fail_open g.policy.on_tool_violation g.gates tool caps args
          ctx g.events in
      (r, record g { events = events })

  -- `_GuardedLLMClient.call`, on the response of the real client
  unfoldable pub guarded_call :
      Result LlmResponse → C → GuardrailEngine A C → Result LlmResponse × GuardrailEngine A C
  unfolding validated_response
  guarded_call (err e) ctx g = (err e, g)
  guarded_call (ok response) ctx g =
      if response.content == ""
      then (ok response, g)
      else (let (r, g') = check_output response.content ctx g in
          (validated_response response r, g'))

  -- `_run` of the wrapper that `_wrap_tool` builds
  unfoldable pub guarded_run :
      {W : Type 0}
      → Tool A W
      → A
      → C
      → GuardrailEngine A C
      → W
      → (Result String × W) × GuardrailEngine A C
  unfolding run_if
  guarded_run tool args ctx g w =
      let (r, g') = authorize_tool tool.name tool.capabilities args ctx g in
      (run_if r (tool.run args) w, g')
