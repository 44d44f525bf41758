-- ===== src/Guardrails/Tests.antt =====
-- A small engine, and the theorems about stages and tools at it.
use agentforge_py.Prelude.{
  ℕ, ◌+◌, Bool, true, false, some, [], ◌∷◌, String, ◌≡◌, ◌⊎◌, ◌↔◌, refl, all, guardrail_violation,
  Error, ok, err, runtime_error, ◌==◌, ◌||◌,
}
use agentforge_py.Guardrails.Engine.{
  block, redact, ValidationResult, passing, Validator, Tool, GuardrailEngine, run_stage,
  safe_invoke, next_content, guarded_run, guarded_call, authorize_tool, run_gates, check_output,
  LlmResponse,
}
use agentforge_py.Production.Errors.{caught_by}
use agentforge_py.Guardrails.Stage.{lets_through, run_stage-block}
use agentforge_py.Guardrails.Audit.{recorded, run_stage-recorded}
use agentforge_py.Guardrails.Tools.{gates_let, guarded_run-gated, guarded_call-block}
use agentforge_py.Guardrails.Gates.{allowlist, capability_check}

abbrev judge : Bool → ValidationResult
judge true = record {
  passed = false;
  score = 0;
  violations = "secret" ∷ [];
  redacted_content = some "***";
}
judge false = passing

-- Replaces one secret word.
abbrev secrets : Validator ℕ
secrets = record { name = "secrets"; validate = λ s ctx. ok (judge (s == "secret")) }

abbrev broken : Validator ℕ
broken = record { name = "broken"; validate = λ s ctx. err runtime_error }

abbrev plain : String → String
plain s = s

run_stage-block_example :
    ((run_stage plain "input" true block (broken ∷ secrets ∷ []) 0 "hello" []).0 ≡ ok "hello") ↔ (
      ("hello" ≡ plain "hello")
      × (all (λ v. lets_through true (v.validate "hello" 0)) (broken ∷ secrets ∷ []) ≡ true))
run_stage-block_example =
    run_stage-block plain "input" true 0 (broken ∷ secrets ∷ []) "hello" "hello" []

run_stage-recorded_example :
    recorded (run_stage plain "input" true redact (broken ∷ secrets ∷ []) 0 "secret" []).1
    ≡ "broken" ∷ "secrets" ∷ []
unfolding run_stage safe_invoke next_content caught_by
run_stage-recorded_example =
    run_stage-recorded plain "input" true 0 redact (broken ∷ secrets ∷ []) "secret" "***" [] refl

abbrev engine : GuardrailEngine ℕ ℕ
engine = record {
  inputs = [];
  outputs = secrets ∷ [];
  gates = allowlist ("rm" ∷ "ls" ∷ []) ∷ capability_check [] ∷ [];
  policy = record {
    on_input_violation = block;
    on_output_violation = block;
    on_tool_violation = block;
    fail_open = false;
  };
  events = [];
}

-- A destructive tool that counts its runs.
abbrev rm : Tool ℕ ℕ
rm = record { name = "rm"; capabilities = "destructive" ∷ []; run = λ args w. (ok "gone", w + 1) }

abbrev shown : String → ℕ → String
shown tool args = tool

guarded_run-gated_example :
    let out = (guarded_run plain shown rm 0 0 engine 5).0 in
    let pass = gates_let plain shown engine.gates false "rm" ("destructive" ∷ []) 0 0 in
    ((pass ≡ true) × (out ≡ rm.run 0 5))
    ⊎ ((pass ≡ false) × (out.1 ≡ 5) × (e : Error) × (out.0 ≡ err e))
guarded_run-gated_example = guarded_run-gated plain shown rm 0 0 engine 5 refl

-- The destructive tool was not run.
guarded_run-rm : (guarded_run plain shown rm 0 0 engine 5).0 ≡ (err guardrail_violation, 5)
unfolding guarded_run authorize_tool run_gates safe_invoke next_content allowlist capability_check
guarded_run-rm = refl

abbrev answer : LlmResponse
answer = record { content = "fine"; tool_calls = [] }

guarded_call-block_example :
    (answer ≡ answer)
    × (((answer.content == "")
          || all (λ (v : Validator ℕ). lets_through false (v.validate "fine" 0)) (secrets ∷ []))
        ≡ true)
unfolding guarded_call check_output run_stage safe_invoke next_content
guarded_call-block_example = guarded_call-block plain shown answer answer 0 engine refl refl
