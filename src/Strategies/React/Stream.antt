-- ===== src/Strategies/React/Stream.antt =====
-- `stream` of packages/agentforge/src/agentforge/strategies/react.py: the events it yields, and the
-- state it leaves. An exception ends the stream after the events already yielded.
use agentforge_py.Prelude.{
  ℕ, zero, suc, ◌+◌, true, false, Option, none, some, List, [], ◌∷◌, ◌++◌, String, length, Result,
  ok, err,
}
use agentforge_py.Strategies.Base.{
  ToolCall, Message, user_message, assistant_message, tool_message, think, RunState, Llm, Tool,
  check_guardrails, call_llm, observation_text, dispatch_tool, find_tool,
}
use agentforge_py.Strategies.Events.{StreamingEvent, done_event, events_for_new_steps}
use agentforge_py.Strategies.React.{act_step, observe_step, no_calls, override_iterations}

-- How a part of a stream ends; after each flush `before` is the length of the trace.
pub record Streamed : Type 0 where
  pub result : Result (Unit {0})
  pub state : RunState
  pub messages : List Message
  pub events : List StreamingEvent

abbrev pub yielding : List StreamingEvent → Streamed → Streamed
yielding events out = record out { events = events ++ out.events }

-- The loop over the tool calls: one flush after the `act` step and one after the `observe` step.
unfoldable pub stream_calls : List Tool → ℕ → List ToolCall → ℕ → RunState → List Message → Streamed
stream_calls tools iteration [] before s messages = record {
  result = ok tt;
  state = s;
  messages = messages;
  events = [];
}
stream_calls tools iteration (c ∷ cs) before s messages =
    let acted = act_step iteration c s in
    let first = events_for_new_steps acted.steps before in
    elim (dispatch_tool (find_tool tools c.name) c.arguments s.tool_runs) [
      | err e ↦ record { result = err e; state = acted; messages = messages; events = first }
      | ok o ↦
          let observed = observe_step iteration c o acted in
          yielding (first ++ events_for_new_steps observed.steps (length acted.steps)) (
            stream_calls tools iteration cs (length observed.steps) observed
              (messages ++ tool_message (observation_text o) c.id ∷ []))
    ]

-- `while True`; `none` means that the fuel ran out.
unfoldable pub stream_loop : Llm → List Tool → ℕ → ℕ → ℕ → RunState → List Message → Option Streamed
stream_loop llm tools zero iteration before s messages = none
stream_loop llm tools (suc fuel) iteration before s messages = elim (check_guardrails s) [
  | err e ↦ some (record { result = err e; state = s; messages = messages; events = [] })
  | ok u ↦
      let (answer, s') = call_llm llm iteration think messages s in
      elim answer [
        | err e ↦ some (record { result = err e; state = s'; messages = messages; events = [] })
        | ok r ↦
            let first = events_for_new_steps s'.steps before in
            elim (no_calls r.tool_calls) [
              | true ↦
                  some (record { result = ok tt; state = s'; messages = messages; events = first })
              | false ↦
                  let t =
                    stream_calls tools iteration r.tool_calls (length s'.steps) s'
                      (messages ++ assistant_message r.content r.tool_calls ∷ []) in
                  elim t.result [
                    | err e ↦ some (yielding first t)
                    | ok v ↦
                        elim (stream_loop llm tools fuel (iteration + 1) (length t.state.steps)
                          t.state t.messages) [
                            | none ↦ none
                            | some rest ↦ some (yielding (first ++ t.events) rest)
                          ]
                  ]
            ]
      ]
]

-- `done` comes only when the loop ends without an exception.
unfoldable pub with_done : Streamed → Streamed
with_done out = elim out.result [
  | err e ↦ out
  | ok v ↦ record out { events = out.events ++ done_event out.state.budget.spent_usd ∷ [] }
]

unfoldable pub stream : Llm → List Tool → Option ℕ → String → ℕ → RunState → Option Streamed
stream llm tools override task fuel s = elim (override_iterations override s) [
  | err e ↦ some (record { result = err e; state = s; messages = []; events = [] })
  | ok s' ↦ elim (stream_loop llm tools fuel 0 (length s'.steps) s' (user_message task ∷ [])) [
    | none ↦ none
    | some out ↦ some (with_done out)
  ]
]
