-- ===== src/Strategies/Base/Laws.antt =====
-- What one LLM call does to the state of a run
-- (packages/agentforge/src/agentforge/strategies/_base.py).
use agentforge_py.Prelude.{ℕ, ◌+◌, ◌<◌, List, [], ◌∷◌, ◌++◌, ◌≡◌, arith, Error, ◌⊎◌, ok, err}
use agentforge_py.Production.Budget.{commit, increment_iteration}
use agentforge_py.Strategies.Base.{
  LlmResponse, Message, StepKind, RunState, Llm, llm_step, record_step, check_guardrails, call_llm,
}

-- What a call that answers with `r` does: the caps held before it, its cost, tokens and one
-- iteration are added to the budget, whose caps and streak stay, and its step to the trace.
pub record Answered (iteration : ℕ) (kind : StepKind) (r : LlmResponse) (s t : RunState)
    : Type 0 where
  pub under_usd : s.budget.spent_usd < s.budget.usd
  pub under_tokens : s.budget.consumed_tokens < s.budget.max_tokens
  pub under_iterations : s.budget.iteration < s.budget.max_iterations
  pub under_streak : s.budget.error_streak < s.budget.error_streak_limit
  pub budget : t.budget ≡ record s.budget {
    spent_usd = s.budget.spent_usd + r.cost_usd;
    consumed_tokens = s.budget.consumed_tokens + (r.tokens_in + r.tokens_out);
    iteration = s.budget.iteration + 1;
  }
  pub steps : t.steps ≡ s.steps ++ llm_step iteration kind r ∷ []
  pub llm_calls : t.llm_calls ≡ s.llm_calls + 1
  pub tool_runs : t.tool_runs ≡ s.tool_runs

pub call_llm-Answered :
    (llm : Llm) (iteration : ℕ) (kind : StepKind) (messages : List Message) (r : LlmResponse)
    (s : RunState)
    → (call_llm llm iteration kind messages s).0 ≡ ok r
    → Answered iteration kind r s (call_llm llm iteration kind messages s).1
unfolding call_llm check_guardrails commit increment_iteration record_step
call_llm-Answered llm iteration kind messages r s h = ground arith

-- A call that raises leaves the budget and the trace alone, and has reached the model only if the
-- caps held.
pub record Failed (s t : RunState) : Type 0 where
  pub budget : t.budget ≡ s.budget
  pub steps : t.steps ≡ s.steps
  pub llm_calls :
      (t.llm_calls ≡ s.llm_calls)
      ⊎ ((t.llm_calls ≡ s.llm_calls + 1) × (s.budget.iteration < s.budget.max_iterations))

pub call_llm-Failed :
    (llm : Llm) (iteration : ℕ) (kind : StepKind) (messages : List Message) (e : Error)
    (s : RunState)
    → (call_llm llm iteration kind messages s).0 ≡ err e
    → Failed s (call_llm llm iteration kind messages s).1
unfolding call_llm check_guardrails commit increment_iteration record_step
call_llm-Failed llm iteration kind messages e s h = ground arith
