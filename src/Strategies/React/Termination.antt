-- ===== src/Strategies/React/Termination.antt =====
-- The loop ends, within the iterations that the budget allows, and its spend is the spend of its
-- steps (packages/agentforge/src/agentforge/strategies/react.py).
use agentforge_py.Prelude.{
  ℕ, zero, suc, ◌+◌, ◌-◌, ◌<◌, ◌≤◌, Bool-cases, some, none, String, List, [], ◌∷◌, ◌≡◌, arith, ok,
  err, Result-cases, inl, inr,
}
use agentforge_py.Strategies.Base.{
  LlmResponse, Message, think, RunState, Llm, Tool, llm_step, check_guardrails, call_llm,
  user_message,
}
use agentforge_py.Strategies.Base.Laws.{call_llm-Answered, call_llm-Failed}
use agentforge_py.Strategies.React.{Turn, no_calls, act_on, react_loop, run}
use agentforge_py.Strategies.React.Laws.{
  step_costs, step_costs-append, Dispatched, dispatch_calls-Dispatched,
}

-- From `s` to `t` no cap changed, the model was called at most as often as iterations were left,
-- and what was spent is the cost of the steps that were recorded.
pub record IsAccounted (s t : RunState) : Type 0 where
  pub max_iterations : t.budget.max_iterations ≡ s.budget.max_iterations
  pub llm_calls : t.llm_calls ≤ s.llm_calls + (s.budget.max_iterations - s.budget.iteration)
  pub costs : t.budget.spent_usd + step_costs s.steps ≡ s.budget.spent_usd + step_costs t.steps

-- One round: the state after a call that answers, and after the dispatch of its tool calls.
answered-costs :
    (llm : Llm) (tools : List Tool) (iteration : ℕ) (r : LlmResponse) (s : RunState)
    (messages : List Message)
    → (call_llm llm iteration think messages s).0 ≡ ok r
    → let s' = (call_llm llm iteration think messages s).1 in
      (s.budget.iteration < s.budget.max_iterations)
      × (s'.budget.max_iterations ≡ s.budget.max_iterations)
      × (s'.budget.iteration ≡ s.budget.iteration + 1)
      × (s'.llm_calls ≡ s.llm_calls + 1)
      × (s'.budget.spent_usd + step_costs s.steps ≡ s.budget.spent_usd + step_costs s'.steps)
answered-costs llm tools iteration r s messages e =
    let a = call_llm-Answered llm iteration think messages r s e in
    ground (arith, step_costs-append s.steps (llm_step iteration think r ∷ []))

act_on-Dispatched :
    (tools : List Tool) (iteration : ℕ) (r : LlmResponse) (s : RunState) (messages : List Message)
    → Dispatched s (act_on tools iteration r s messages).state
unfolding act_on
act_on-Dispatched tools iteration r s messages =
    dispatch_calls-Dispatched tools iteration r.tool_calls s _

react_loop-IsAccounted :
    (llm : Llm) (tools : List Tool) (fuel iteration : ℕ) (s : RunState) (messages : List Message)
    → s.budget.max_iterations - s.budget.iteration < fuel
    → (t : Turn) × (react_loop llm tools fuel iteration s messages ≡ some t) × IsAccounted s t.state
unfolding react_loop
react_loop-IsAccounted llm tools zero iteration s messages h = absurd (omega arith)
react_loop-IsAccounted llm tools (suc fuel) iteration s messages h =
    elim (Result-cases (check_guardrails s)) [
      | inr (x, e) ↦
          (record { result = err x; state = s; messages = messages }, ground arith, omega arith)
      | inl (u, e) ↦ elim (Result-cases (call_llm llm iteration think messages s).0) [
        | inr (x, failed) ↦
            let f = call_llm-Failed llm iteration think messages x s failed in
            (
              record {
                result = err x;
                state = (call_llm llm iteration think messages s).1;
                messages = messages;
              },
              ground arith,
              ground arith,
            )
        | inl (r, answered) ↦
            let s' = (call_llm llm iteration think messages s).1 in
            let costs = answered-costs llm tools iteration r s messages answered in
            let t = act_on tools iteration r s' messages in
            let d = act_on-Dispatched tools iteration r s' messages in
            elim (Bool-cases (no_calls r.tool_calls)) [
              | inl final ↦ (
                record { result = ok tt; state = s'; messages = messages },
                ground arith,
                ground arith,
              )
              | inr calls ↦ elim (Result-cases t.result) [
                | inr (x, raised) ↦ (t, ground arith, ground arith)
                | inl (v, returned) ↦
                    let (last, runs, accounted) =
                      react_loop-IsAccounted llm tools fuel (iteration + 1) t.state t.messages
                        (ground arith) in
                    (last, ground arith, ground arith)
              ]
            ]
      ]
    ]

-- A run without an override ends, with a result or an exception, for any model and tools, if its
-- fuel is more than the iterations that its budget has left: the model is called at most that often,
-- and what was spent is the cost of the recorded steps.
pub run-IsAccounted :
    (llm : Llm) (tools : List Tool) (task : String) (fuel : ℕ) (s : RunState)
    → s.budget.max_iterations - s.budget.iteration < fuel
    → (t : Turn) × (run llm tools none task fuel s ≡ some t) × IsAccounted s t.state
unfolding run
run-IsAccounted llm tools task fuel s h =
    react_loop-IsAccounted llm tools fuel 0 s (user_message task ∷ []) h
