-- ===== src/Strategies/Base.antt =====
-- `StrategyBase` of packages/agentforge/src/agentforge/strategies/_base.py, with the messages of
-- packages/agentforge-core/src/agentforge_core/values/messages.py. The model and the tools are the
-- program's surroundings: a model answers the n-th call of a run from the messages it is given, and
-- a tool checks its arguments and runs. Spans, durations and tool specs have no effect on the state
-- and are left out.
pub mod Laws
use text.Mathlib.Text.{starts_with}
use agentforge_py.Prelude.{
  ℕ, suc, ◌+◌, Bool, true, false, Option, none, some, List, [], ◌∷◌, ◌++◌, String, ◌==◌,
  if◌then◌else◌, Error, builtin, subclass, Result, ok, err, ◌>>=◌,
}
use agentforge_py.Prelude.Int.{pos}
use agentforge_py.Production.Errors.{is_exception, caught_by}
use agentforge_py.Production.Budget.{BudgetPolicy, check, commit, increment_iteration}

pub record ToolCall : Type 0 where
  pub id : String
  pub name : String
  pub arguments : String

pub record LlmResponse : Type 0 where
  pub content : String
  pub tool_calls : List ToolCall
  pub tokens_in : ℕ
  pub tokens_out : ℕ
  pub cost_usd : ℕ

pub data Message : Type 0 where
  user_message : String → Message
  assistant_message : String → List ToolCall → Message
  tool_message : String → String → Message

pub data StepKind : Type 0 where
  think act observe plan branch synthesize : StepKind

-- A text, or the dict that a step of that kind records.
pub data Content : Type 0 where
  text_of : String → Content
  call_of : String → String → Content
  branch_of : String → String → ℕ → String → Content

pub record Step : Type 0 where
  pub iteration : ℕ
  pub kind : StepKind
  pub content : Content
  pub tokens_in : ℕ
  pub tokens_out : ℕ
  pub cost_usd : ℕ
  pub tool_call : Option ToolCall

-- What a run changes: the shared budget, the trace, and how many calls the model has had and how
-- many tools have run.
pub record RunState : Type 0 where
  pub budget : BudgetPolicy
  pub steps : List Step
  pub llm_calls : ℕ
  pub tool_runs : ℕ

abbrev pub Llm : Type 0
Llm = List Message → ℕ → Result LlmResponse

-- `validate` is the input schema: the keyword arguments, or a validation error.
pub record Tool : Type 0 where
  pub name : String
  pub validate : String → Option String
  pub run : String → ℕ → Result String

unfoldable pub check_guardrails : RunState → Result (Unit {0})
unfolding check
check_guardrails s = check s.budget

unfoldable pub record_step : Step → RunState → RunState
record_step step s = record s { steps = s.steps ++ step ∷ [] }

-- The step that an LLM call leaves.
abbrev pub llm_step : ℕ → StepKind → LlmResponse → Step
llm_step iteration kind r = record {
  iteration = iteration;
  kind = kind;
  content = text_of r.content;
  tokens_in = r.tokens_in;
  tokens_out = r.tokens_out;
  cost_usd = r.cost_usd;
  tool_call = none;
}

-- A step without cost.
abbrev pub plain_step : ℕ → StepKind → Content → Option ToolCall → Step
plain_step iteration kind content call = record {
  iteration = iteration;
  kind = kind;
  content = content;
  tokens_in = 0;
  tokens_out = 0;
  cost_usd = 0;
  tool_call = call;
}

-- The cost and the tokens of a response are validated not to be negative.
unfoldable pub after_response :
    ℕ → StepKind → LlmResponse → RunState → Result LlmResponse × RunState
after_response iteration kind r s =
    elim (commit (pos r.cost_usd) (pos (r.tokens_in + r.tokens_out)) s.budget) [
      | err e ↦ (err e, s)
      | ok b ↦ (
        ok r,
        record_step (llm_step iteration kind r) (record s { budget = increment_iteration b }),
      )
    ]

unfoldable pub called : ℕ → StepKind → Result LlmResponse → RunState → Result LlmResponse × RunState
unfolding after_response
called iteration kind (err e) s = (err e, s)
called iteration kind (ok r) s = after_response iteration kind r s

-- Check, call, record the cost, record the step.
unfoldable pub call_llm :
    Llm → ℕ → StepKind → List Message → RunState → Result LlmResponse × RunState
unfolding called
call_llm llm iteration kind messages s = elim (check_guardrails s) [
  | err e ↦ (err e, s)
  | ok u ↦
      called iteration kind (llm messages s.llm_calls) (record s { llm_calls = s.llm_calls + 1 })
]

-- An observation made of an error starts with "Error:"; its details are left out.
pub data Observation : Type 0 where
  not_registered invalid_arguments timed_out raised : Observation
  returned : String → Observation

-- `observation.startswith("Error:")`
unfoldable pub is_error : Observation → Bool
is_error (returned s) = starts_with "Error:" s
is_error not_registered = true
is_error invalid_arguments = true
is_error timed_out = true
is_error raised = true

abbrev pub observation_text : Observation → String
observation_text not_registered = "Error: tool is not registered on this agent."
observation_text invalid_arguments = "Error: invalid arguments"
observation_text timed_out = "Error: tool exceeded timeout_s."
observation_text raised = "Error: exception"
observation_text (returned s) = s

-- Python's `TimeoutError`, which extends `OSError`.
abbrev python_timeout : Error
python_timeout = subclass "TimeoutError" (builtin "OSError")

-- `except TimeoutError`, `except Exception`; a cancellation gets out.
observed : Result String → Result Observation
observed (ok raw) = ok (returned raw)
observed (err e) =
    if caught_by (python_timeout ∷ []) e
    then ok timed_out
    else if is_exception e
    then ok raised
    else err e

run_tool : Tool → Option String → ℕ → Result Observation
unfolding observed
run_tool t none n = ok invalid_arguments
run_tool t (some kwargs) n = observed (t.run kwargs n)

unfoldable pub dispatch_tool : Option Tool → String → ℕ → Result Observation
unfolding run_tool
dispatch_tool none arguments n = ok not_registered
dispatch_tool (some t) arguments n = run_tool t (t.validate arguments) n

unfoldable pub find_tool : List Tool → String → Option Tool
find_tool [] name = none
find_tool (t ∷ ts) name = if t.name == name then some t else find_tool ts name
