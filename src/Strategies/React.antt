-- ===== src/Strategies/React.antt =====
-- `ReActLoop` of packages/agentforge/src/agentforge/strategies/react.py. The `while True` loop takes
-- fuel, and `none` means that it ran out; `Termination` has how much is enough.
pub mod Laws
pub mod Termination
pub mod Transcript
pub mod Stream
pub mod Yields
mod Tests
use agentforge_py.Prelude.{
  ℕ, zero, suc, ◌+◌, Bool, true, false, Option, none, some, List, [], ◌∷◌, ◌++◌, String,
  if◌then◌else◌, Error, Result, ok, err,
}
use agentforge_py.Production.Budget.{BudgetPolicy, record_error, record_success}
use agentforge_py.Strategies.Base.{
  ToolCall, LlmResponse, Message, user_message, assistant_message, tool_message, think, act,
  observe, text_of, call_of, plain_step, RunState, Llm, Tool, record_step, check_guardrails,
  call_llm, Observation, observation_text, is_error, dispatch_tool, find_tool,
}

-- Where a run, or a part of one, stands: what it returns or raises, the state, and the messages.
pub record Turn : Type 0 where
  pub result : Result (Unit {0})
  pub state : RunState
  pub messages : List Message

unfoldable pub act_step : ℕ → ToolCall → RunState → RunState
act_step iteration c = record_step (plain_step iteration act (call_of c.name c.arguments) (some c))

-- The streak counter, and the `observe` step
unfoldable pub observe_step : ℕ → ToolCall → Observation → RunState → RunState
observe_step iteration c o s =
    record_step (plain_step iteration observe (text_of (observation_text o)) (some c)) (record s {
      budget = if is_error o then record_error s.budget else record_success s.budget;
      tool_runs = s.tool_runs + 1;
    })

-- `for tool_call in response.tool_calls`
unfoldable pub dispatch_calls : List Tool → ℕ → List ToolCall → RunState → List Message → Turn
dispatch_calls tools iteration [] s messages = record {
  result = ok tt;
  state = s;
  messages = messages;
}
dispatch_calls tools iteration (c ∷ cs) s messages =
    let acted = act_step iteration c s in
    elim (dispatch_tool (find_tool tools c.name) c.arguments s.tool_runs) [
      | err e ↦ record { result = err e; state = acted; messages = messages }
      | ok o ↦
          dispatch_calls tools iteration cs (observe_step iteration c o acted)
            (messages ++ tool_message (observation_text o) c.id ∷ [])
    ]

unfoldable pub no_calls : List ToolCall → Bool
no_calls [] = true
no_calls (c ∷ cs) = false

-- What follows a response with tool calls, up to the end of the loop's body.
unfoldable pub act_on : List Tool → ℕ → LlmResponse → RunState → List Message → Turn
act_on tools iteration r s messages =
    dispatch_calls tools iteration r.tool_calls s
      (messages ++ assistant_message r.content r.tool_calls ∷ [])

unfoldable pub react_loop : Llm → List Tool → ℕ → ℕ → RunState → List Message → Option Turn
react_loop llm tools zero iteration s messages = none
react_loop llm tools (suc fuel) iteration s messages = elim (check_guardrails s) [
  | err e ↦ some (record { result = err e; state = s; messages = messages })
  | ok u ↦
      let (answer, s') = call_llm llm iteration think messages s in
      elim answer [
        | err e ↦ some (record { result = err e; state = s'; messages = messages })
        | ok r ↦ elim (no_calls r.tool_calls) [
          | true ↦ some (record { result = ok tt; state = s'; messages = messages })
          | false ↦
              let t = act_on tools iteration r s' messages in
              elim t.result [
                | err e ↦ some t
                | ok v ↦ react_loop llm tools fuel (iteration + 1) t.state t.messages
              ]
        ]
      ]
]

-- `runtime.budget.max_iterations = override`, which the model validates to be at least 1
unfoldable pub override_iterations : Option ℕ → RunState → Result RunState
override_iterations none s = ok s
override_iterations (some zero) s = err (package.agentforge_py.Prelude.value_error)
override_iterations (some (suc n)) s =
    ok (record s { budget = record s.budget { max_iterations = suc n } })

unfoldable pub run : Llm → List Tool → Option ℕ → String → ℕ → RunState → Option Turn
unfolding override_iterations
run llm tools override task fuel s = elim (override_iterations override s) [
  | err e ↦ some (record { result = err e; state = s; messages = [] })
  | ok s' ↦ react_loop llm tools fuel 0 s' (user_message task ∷ [])
]
