-- ===== src/Strategies/React/Laws.antt =====
-- What dispatching the tool calls of one response does
-- (packages/agentforge/src/agentforge/strategies/react.py).
use agentforge_py.Prelude.{
  ℕ, ◌+◌, List, [], ◌∷◌, ◌++◌, some, sym, subst, ◌≡◌, arith, ok, Result-cases, inl, inr,
}
use agentforge_py.Production.Budget.{record_error, record_success}
use agentforge_py.Strategies.Base.{
  ToolCall, Tool, Message, act, observe, text_of, call_of, plain_step, Observation, Step, RunState,
  find_tool, dispatch_tool, observation_text, tool_message, record_step,
}
use agentforge_py.Strategies.React.{Turn, dispatch_calls, act_step, observe_step}

-- The spend of the steps recorded so far.
abbrev pub step_costs : List Step → ℕ
step_costs [] = 0
step_costs (s ∷ ss) = s.cost_usd + step_costs ss

pub step_costs-append : (xs ys : List Step) → step_costs (xs ++ ys) ≡ step_costs xs + step_costs ys
step_costs-append [] ys = omega arith
step_costs-append (x ∷ xs) ys = omega (arith, step_costs-append xs ys)

-- Dispatching changes neither the caps nor the spend, the tokens, the iterations or the number of
-- LLM calls, and its steps cost nothing.
pub record Dispatched (s t : RunState) : Type 0 where
  pub usd : t.budget.usd ≡ s.budget.usd
  pub max_tokens : t.budget.max_tokens ≡ s.budget.max_tokens
  pub max_iterations : t.budget.max_iterations ≡ s.budget.max_iterations
  pub error_streak_limit : t.budget.error_streak_limit ≡ s.budget.error_streak_limit
  pub spent_usd : t.budget.spent_usd ≡ s.budget.spent_usd
  pub consumed_tokens : t.budget.consumed_tokens ≡ s.budget.consumed_tokens
  pub iteration : t.budget.iteration ≡ s.budget.iteration
  pub llm_calls : t.llm_calls ≡ s.llm_calls
  pub costs : step_costs t.steps ≡ step_costs s.steps

Dispatched-trans : {s t u : RunState} → Dispatched s t → Dispatched t u → Dispatched s u
Dispatched-trans h k = ground arith

act_step-Dispatched :
    (iteration : ℕ) (c : ToolCall) (s : RunState) → Dispatched s (act_step iteration c s)
unfolding act_step record_step
act_step-Dispatched iteration c s = ground (
  arith,
  step_costs-append s.steps (plain_step iteration act (call_of c.name c.arguments) (some c) ∷ []),
)

observe_step-Dispatched :
    (iteration : ℕ) (c : ToolCall) (o : Observation) (s : RunState)
    → Dispatched s (observe_step iteration c o s)
unfolding observe_step record_step record_error record_success
observe_step-Dispatched iteration c o s = ground (
  arith,
  step_costs-append s.steps
      (plain_step iteration observe (text_of (observation_text o)) (some c) ∷ []),
)

pub dispatch_step :
    (tools : List Tool) (iteration : ℕ) (c : ToolCall) (cs : List ToolCall) (o : Observation)
    (s : RunState) (messages : List Message)
    → dispatch_tool (find_tool tools c.name) c.arguments s.tool_runs ≡ ok o
    → dispatch_calls tools iteration (c ∷ cs) s messages
      ≡ dispatch_calls tools iteration cs
          (observe_step iteration c o (act_step iteration c s))
          (messages ++ tool_message (observation_text o) c.id ∷ [])
unfolding dispatch_calls
dispatch_step tools iteration c cs o s messages e = ground arith

pub dispatch_calls-Dispatched :
    (tools : List Tool) (iteration : ℕ) (cs : List ToolCall) (s : RunState)
    (messages : List Message)
    → Dispatched s (dispatch_calls tools iteration cs s messages).state
unfolding dispatch_calls
dispatch_calls-Dispatched tools iteration [] s messages = ground arith
dispatch_calls-Dispatched tools iteration (c ∷ cs) s messages =
    let acted = act_step iteration c s in
    let first = act_step-Dispatched iteration c s in
    elim (Result-cases (dispatch_tool (find_tool tools c.name) c.arguments s.tool_runs)) [
      | inl (o, e) ↦
          let second = observe_step-Dispatched iteration c o acted in
          let rest =
            dispatch_calls-Dispatched tools iteration cs (observe_step iteration c o acted)
              (messages ++ tool_message (observation_text o) c.id ∷ []) in
          let whole = Dispatched-trans first (Dispatched-trans second rest) in
          subst (λ (t : Turn). Dispatched s t.state)
            (sym (dispatch_step tools iteration c cs o s messages e)) whole
      | inr (x, e) ↦ ground arith
    ]
