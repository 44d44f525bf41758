-- ===== src/Strategies/React/Yields.antt =====
-- What `stream` of packages/agentforge/src/agentforge/strategies/react.py yields.
use mathlib.Core.List.{append-nil}
use agentforge_py.Prelude.{
  ℕ, zero, suc, ◌+◌, none, some, List, [], ◌∷◌, ◌++◌, String, ◌≡◌, refl, ap, sym, ◌∙◌, subst, arith,
  length, ok, Result-cases, Bool-cases, inl, inr,
}
use agentforge_py.Strategies.Base.{
  ToolCall, LlmResponse, Message, user_message, assistant_message, tool_message, think, act,
  observe, call_of, text_of, plain_step, llm_step, Step, RunState, Llm, Tool, check_guardrails,
  call_llm, record_step, observation_text, dispatch_tool, find_tool, Observation,
}
use agentforge_py.Strategies.Base.Laws.{call_llm-Answered}
use agentforge_py.Strategies.Events.{
  StreamingEvent, done_event, events_for_new_steps, flushes, nothing_new,
}
use agentforge_py.Strategies.React.{
  Turn, act_step, observe_step, dispatch_calls, no_calls, act_on, react_loop, override_iterations,
  run,
}
use agentforge_py.Strategies.React.Stream.{
  Streamed, yielding, stream_calls, stream_loop, with_done, stream,
}

-- A streamed part does what the part does, has yielded one event for each step since `s`, and the
-- trace has only grown.
record Yields (s : RunState) (t : Turn) (out : Streamed) : Type 0 where
  result : out.result ≡ ok tt
  state : out.state ≡ t.state
  messages : out.messages ≡ t.messages
  events : out.events ≡ events_for_new_steps t.state.steps (length s.steps)
  grown : (new : List Step) × (t.state.steps ≡ s.steps ++ new)

-- A part whose events stand before those of a later part.
then_Yields :
    (s u : RunState) (t : Turn) (first : List StreamingEvent) (out : Streamed)
    → first ≡ events_for_new_steps u.steps (length s.steps)
    → (new : List Step) × (u.steps ≡ s.steps ++ new)
    → Yields u t out
    → Yields s t (yielding first out)
then_Yields s u t first out flushed grew y =
    let joined = flushes s.steps u.steps t.state.steps grew y.grown in
    record {
      result = y.result;
      state = y.state;
      messages = y.messages;
      events = rw (flushed, y.events) joined.0;
      grown = joined.1;
    }

act_step-grown :
    (iteration : ℕ) (c : ToolCall) (s : RunState)
    → (new : List Step) × ((act_step iteration c s).steps ≡ s.steps ++ new)
unfolding act_step record_step
act_step-grown iteration c s =
    (plain_step iteration act (call_of c.name c.arguments) (some c) ∷ [], refl)

observe_step-grown :
    (iteration : ℕ) (c : ToolCall) (o : Observation) (s : RunState)
    → (new : List Step) × ((observe_step iteration c o s).steps ≡ s.steps ++ new)
unfolding observe_step record_step
observe_step-grown iteration c o s =
    (plain_step iteration observe (text_of (observation_text o)) (some c) ∷ [], refl)

stream_calls-Yields :
    (tools : List Tool) (iteration : ℕ) (cs : List ToolCall) (s : RunState)
    (messages : List Message)
    → (dispatch_calls tools iteration cs s messages).result ≡ ok tt
    → Yields s
        (dispatch_calls tools iteration cs s messages)
        (stream_calls tools iteration cs (length s.steps) s messages)
unfolding dispatch_calls stream_calls
stream_calls-Yields tools iteration [] s messages h = record {
  result = refl;
  state = refl;
  messages = refl;
  events = nothing_new s.steps;
  grown = ([], sym (append-nil s.steps));
}
stream_calls-Yields tools iteration (c ∷ cs) s messages h =
    elim (Result-cases (dispatch_tool (find_tool tools c.name) c.arguments s.tool_runs)) [
      | inr (x, raised) ↦ ground arith
      | inl (o, observed) ↦
          let acted = act_step iteration c s in
          let later = observe_step iteration c o acted in
          let answer = messages ++ tool_message (observation_text o) c.id ∷ [] in
          let ih = stream_calls-Yields tools iteration cs later answer (ground arith) in
          let grew = observe_step-grown iteration c o acted in
          let two = flushes s.steps acted.steps later.steps (act_step-grown iteration c s) grew in
          let whole = then_Yields s later _ _ _ two.0 two.1 ih in
          rw (dispatch_calls, stream_calls, observed) whole
    ]

call_llm-grown :
    (llm : Llm) (iteration : ℕ) (messages : List Message) (s : RunState) (r : LlmResponse)
    → (call_llm llm iteration think messages s).0 ≡ ok r
    → (new : List Step) × ((call_llm llm iteration think messages s).1.steps ≡ s.steps ++ new)
call_llm-grown llm iteration messages s r answered = (
  llm_step iteration think r ∷ [],
  (call_llm-Answered llm iteration think messages r s answered).steps,
)

stream_loop-Yields :
    (llm : Llm) (tools : List Tool) (fuel iteration : ℕ) (s : RunState) (messages : List Message)
    (t : Turn)
    → react_loop llm tools fuel iteration s messages ≡ some t
    → t.result ≡ ok tt
    → (out : Streamed) × (stream_loop llm tools fuel iteration (length s.steps) s messages
        ≡ some out)
      × Yields s t out
unfolding react_loop stream_loop act_on
stream_loop-Yields llm tools zero iteration s messages t h returned = cc
stream_loop-Yields llm tools (suc fuel) iteration s messages t h returned =
    elim (Result-cases (check_guardrails s)) [
      | inr (x, stop) ↦ ground arith
      | inl (u, on) ↦ elim (Result-cases (call_llm llm iteration think messages s).0) [
        | inr (x, failed) ↦ ground arith
        | inl (r, answered) ↦
            let s' = (call_llm llm iteration think messages s).1 in
            let first = events_for_new_steps s'.steps (length s.steps) in
            let grew = call_llm-grown llm iteration messages s r answered in
            let asked = messages ++ assistant_message r.content r.tool_calls ∷ [] in
            let d = dispatch_calls tools iteration r.tool_calls s' asked in
            let c = stream_calls tools iteration r.tool_calls (length s'.steps) s' asked in
            elim (Bool-cases (no_calls r.tool_calls)) [
              | inl last ↦
                  let is_t : record { result = ok tt; state = s'; messages = messages } ≡ t =
                    ground arith in
                  (
                    record { result = ok tt; state = s'; messages = messages; events = first },
                    ground arith,
                    subst
                        (λ (v : Turn). Yields s v (record {
                          result = ok tt;
                          state = s';
                          messages = messages;
                          events = first;
                        }))
                        is_t
                        (record {
                          result = refl;
                          state = refl;
                          messages = refl;
                          events = refl;
                          grown = grew;
                        }),
                  )
              | inr more ↦ elim (Result-cases d.result) [
                | inr (x, raised) ↦ ground arith
                | inl (v, dispatched) ↦
                    let y = stream_calls-Yields tools iteration r.tool_calls s' asked dispatched in
                    let onwards : react_loop llm tools fuel (iteration + 1) d.state d.messages
                        ≡ some t =
                      ground arith in
                    let (rest, runs, z) =
                      stream_loop-Yields llm tools fuel (iteration + 1) d.state d.messages t onwards
                        returned in
                    let same_state : c.state ≡ d.state = y.state in
                    let same_messages : c.messages ≡ d.messages = y.messages in
                    let same_result : c.result ≡ ok tt = y.result in
                    let two = flushes s.steps s'.steps d.state.steps grew y.grown in
                    (
                      yielding (first ++ c.events) rest,
                      ground arith,
                      then_Yields s d.state t (first ++ c.events) rest
                          (ap (λ l. first ++ l) y.events ∙ two.0) two.1 z,
                    )
              ]
            ]
      ]
    ]

-- If a run without an override returns without an exception, then its stream leaves the same state
-- and messages, and yields one event for each step that the run recorded, in order, and then `done`
-- with the money spent.
pub react_stream-run :
    (llm : Llm) (tools : List Tool) (task : String) (fuel : ℕ) (s : RunState) (t : Turn)
    → run llm tools none task fuel s ≡ some t
    → t.result ≡ ok tt
    → stream llm tools none task fuel s
      ≡ some (record {
        result = ok tt;
        state = t.state;
        messages = t.messages;
        events =
            events_for_new_steps t.state.steps (length s.steps)
            ++ done_event t.state.budget.spent_usd ∷ [];
      })
unfolding run stream override_iterations with_done
react_stream-run llm tools task fuel s t h returned =
    let (out, runs, y) =
      stream_loop-Yields llm tools fuel 0 s (user_message task ∷ []) t h returned in
    let same_result : out.result ≡ ok tt = y.result in
    let same_state : out.state ≡ t.state = y.state in
    let same_messages : out.messages ≡ t.messages = y.messages in
    let same_events : out.events ≡ events_for_new_steps t.state.steps (length s.steps) = y.events in
    ground arith
