-- ===== src/Strategies/React/Transcript.antt =====
-- The messages that the model is given: every tool call of an assistant message is answered, in
-- order (packages/agentforge/src/agentforge/strategies/react.py).
use agentforge_py.Prelude.{
  ℕ, zero, suc, ◌+◌, ◌==◌, eq_refl, Bool-cases, if◌then◌else◌, Option, some, none, String, List, [],
  ◌∷◌, ◌++◌, ◌≡◌, refl, arith, ok, Result-cases, inl, inr,
}
use agentforge_py.Strategies.Base.{
  LlmResponse, Message, user_message, assistant_message, tool_message, ToolCall, think, RunState,
  Llm, Tool, check_guardrails, call_llm, find_tool, dispatch_tool, observation_text,
}
use agentforge_py.Strategies.React.{
  Turn, dispatch_calls, act_step, observe_step, no_calls, act_on, react_loop, run,
}
use agentforge_py.Strategies.React.Laws.{dispatch_step}

-- Reads messages from left to right, given the tool calls that still want an answer, and returns
-- those that do at the end; `none` if an answer is missing, or answers another call.
abbrev pub unanswered : List ToolCall → List Message → Option (List ToolCall)
unanswered calls [] = some calls
unanswered [] (user_message t ∷ ms) = unanswered [] ms
unanswered [] (assistant_message t cs ∷ ms) = unanswered cs ms
unanswered [] (tool_message t id ∷ ms) = none
unanswered (c ∷ cs) (user_message t ∷ ms) = none
unanswered (c ∷ cs) (assistant_message t ds ∷ ms) = none
unanswered (c ∷ cs) (tool_message t id ∷ ms) =
    let rest = unanswered cs ms in if id == c.id then rest else none

unanswered-append :
    (calls left : List ToolCall) (xs ys : List Message)
    → unanswered calls xs ≡ some left
    → unanswered calls (xs ++ ys) ≡ unanswered left ys
unanswered-append calls left [] ys h = ground arith
unanswered-append [] left (user_message t ∷ ms) ys h = unanswered-append [] left ms ys h
unanswered-append [] left (assistant_message t cs ∷ ms) ys h = unanswered-append cs left ms ys h
unanswered-append [] left (tool_message t id ∷ ms) ys h = cc
unanswered-append (c ∷ cs) left (user_message t ∷ ms) ys h = cc
unanswered-append (c ∷ cs) left (assistant_message t ds ∷ ms) ys h = cc
unanswered-append (c ∷ cs) left (tool_message t id ∷ ms) ys h =
    ground (arith, unanswered-append cs left ms ys)

dispatch_calls-answered :
    (tools : List Tool) (iteration : ℕ) (cs : List ToolCall) (s : RunState)
    (messages : List Message)
    → unanswered [] messages ≡ some cs
    → (dispatch_calls tools iteration cs s messages).result ≡ ok tt
    → unanswered [] (dispatch_calls tools iteration cs s messages).messages ≡ some []
unfolding dispatch_calls
dispatch_calls-answered tools iteration [] s messages h e = h
dispatch_calls-answered tools iteration (c ∷ cs) s messages h e =
    elim (Result-cases (dispatch_tool (find_tool tools c.name) c.arguments s.tool_runs)) [
      | inr (x, raised) ↦ ground arith
      | inl (o, returned) ↦
          let answer = tool_message (observation_text o) c.id in
          let step = dispatch_step tools iteration c cs o s messages returned in
          let answered = unanswered-append [] (c ∷ cs) messages (answer ∷ []) h in
          let state = observe_step iteration c o (act_step iteration c s) in
          rw step (
            dispatch_calls-answered tools iteration cs state (messages ++ answer ∷ [])
              (ground (arith, eq_refl c.id)) (rw step at e))
    ]

act_on-answered :
    (tools : List Tool) (iteration : ℕ) (r : LlmResponse) (s : RunState) (messages : List Message)
    → unanswered [] messages ≡ some []
    → (act_on tools iteration r s messages).result ≡ ok tt
    → unanswered [] (act_on tools iteration r s messages).messages ≡ some []
unfolding act_on
act_on-answered tools iteration r s messages h e =
    dispatch_calls-answered tools iteration r.tool_calls s _
      (unanswered-append [] [] messages (assistant_message r.content r.tool_calls ∷ []) h) e

react_loop-answered :
    (llm : Llm) (tools : List Tool) (fuel iteration : ℕ) (s : RunState) (messages : List Message)
    (t : Turn)
    → unanswered [] messages ≡ some []
    → react_loop llm tools fuel iteration s messages ≡ some t
    → t.result ≡ ok tt
    → unanswered [] t.messages ≡ some []
unfolding react_loop
react_loop-answered llm tools zero iteration s messages t h runs e = cc
react_loop-answered llm tools (suc fuel) iteration s messages t h runs e =
    let s' = (call_llm llm iteration think messages s).1 in
    elim (Result-cases (check_guardrails s)) [
      | inr (x, refused) ↦ ground arith
      | inl (u, passed) ↦ elim (Result-cases (call_llm llm iteration think messages s).0) [
        | inr (x, failed) ↦ ground arith
        | inl (r, answered) ↦ elim (Bool-cases (no_calls r.tool_calls)) [
          | inl final ↦ ground arith
          | inr calls ↦
              let turn = act_on tools iteration r s' messages in
              elim (Result-cases turn.result) [
                | inr (x, raised) ↦ ground arith
                | inl (v, returned) ↦
                    react_loop-answered llm tools fuel (iteration + 1) turn.state turn.messages t
                      (act_on-answered tools iteration r s' messages h returned) (ground arith) e
              ]
        ]
      ]
    ]

-- When a run returns without an exception, its messages answer every tool call of every assistant
-- message before the next message that is not an answer, in the order of the calls and under their
-- ids.
pub run-answered :
    (llm : Llm) (tools : List Tool) (override : Option ℕ) (task : String) (fuel : ℕ) (s : RunState)
    (t : Turn)
    → run llm tools override task fuel s ≡ some t
    → t.result ≡ ok tt
    → unanswered [] t.messages ≡ some []
unfolding run
run-answered llm tools none task fuel s t runs e =
    react_loop-answered llm tools fuel 0 s (user_message task ∷ []) t refl runs e
run-answered llm tools (some zero) task fuel s t runs e = ground arith
run-answered llm tools (some (suc n)) task fuel s t runs e =
    react_loop-answered llm tools fuel 0 _ (user_message task ∷ []) t refl runs e
