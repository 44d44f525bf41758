-- ===== src/Strategies/Tot/Calls.antt =====
-- How often a run of packages/agentforge/src/agentforge/strategies/tot.py calls the model, and what
-- it spends.
use agentforge_py.Prelude.{
  ℕ, ◌+◌, ◌-◌, ◌≤◌, none, some, List, [], ◌∷◌, String, ◌≡◌, refl, arith, Result, ok, Result-cases,
  Option-cases, inl, inr,
}
use agentforge_py.Strategies.Base.{
  LlmResponse, Message, StepKind, think, branch, synthesize, branch_of, plain_step, llm_step,
  RunState, Llm, call_llm, record_step,
}
use agentforge_py.Strategies.Base.Laws.{call_llm-Answered, call_llm-Failed}
use agentforge_py.Strategies.React.Laws.{step_costs, step_costs-append}
use agentforge_py.Strategies.React.Termination.{IsAccounted}
use agentforge_py.Strategies.Tot.Tree.{
  Thought, Node, Tree, TreeOfThoughts, add_child, add_children, path_to_root, best,
}
use agentforge_py.Strategies.Tot.Search.{
  Surroundings, with_state, root_of, planted, explore, synthesise, run, told,
}
use agentforge_py.Strategies.Tot.Keeps.{Holds, keeps-level_loop}

-- Since `s` every call of the model has counted one iteration of the budget.
record IsCounted (s t : RunState) : Type 0 where
  max_iterations : t.budget.max_iterations ≡ s.budget.max_iterations
  onwards : s.budget.iteration ≤ t.budget.iteration
  counted : t.llm_calls ≤ s.llm_calls + (t.budget.iteration - s.budget.iteration)
  capped : t.budget.iteration - s.budget.iteration ≤ s.budget.max_iterations - s.budget.iteration
  costs : t.budget.spent_usd + step_costs s.steps ≡ s.budget.spent_usd + step_costs t.steps

weaken : (s t : RunState) → IsCounted s t → IsAccounted s t
weaken s t h = record {
  max_iterations = h.max_iterations;
  llm_calls = omega (arith, h.counted, h.capped);
  costs = h.costs;
}

call_llm-IsCounted :
    (llm : Llm) (i : ℕ) (kind : StepKind) (messages : List Message) (s t : RunState)
    (r : LlmResponse)
    → IsCounted s t
    → (call_llm llm i kind messages t).0 ≡ ok r
    → IsCounted s (call_llm llm i kind messages t).1
call_llm-IsCounted llm i kind messages s t r h answered =
    let a = call_llm-Answered llm i kind messages r t answered in
    ground (arith, step_costs-append t.steps (llm_step i kind r ∷ []))

call_llm-IsAccounted :
    (llm : Llm) (i : ℕ) (kind : StepKind) (messages : List Message) (s t : RunState)
    → IsCounted s t
    → IsAccounted s (call_llm llm i kind messages t).1
call_llm-IsAccounted llm i kind messages s t h =
    elim (Result-cases (call_llm llm i kind messages t).0) [
      | inl (r, answered) ↦ weaken s _ (call_llm-IsCounted llm i kind messages s t r h answered)
      | inr (x, failed) ↦ let f = call_llm-Failed llm i kind messages x t failed in ground arith
    ]

add_children-IsCounted :
    (s : RunState) (parent : Node) (d : ℕ) (cs : List (Thought × ℕ)) (t : Tree)
    → IsCounted s t.state
    → IsCounted s (add_children parent d cs t).state
unfolding add_children add_child record_step
add_children-IsCounted s parent d [] t h = h
add_children-IsCounted s parent d ((c, n) ∷ cs) t h =
    let branched = plain_step (d + 1) branch (branch_of c.id parent.id n c.content) none in
    add_children-IsCounted s parent d cs (add_child parent d (c, n) t) (record {
      max_iterations = h.max_iterations;
      onwards = h.onwards;
      counted = h.counted;
      capped = h.capped;
      costs = omega (arith, h.costs, step_costs-append t.state.steps (branched ∷ []));
    })

asked-Holds :
    (e : Surroundings) (s : RunState) (i : ℕ) (messages : List Message) (t : Tree)
    → IsCounted s t.state
    → Holds
        (λ u. IsCounted s u.state)
        (λ u. IsAccounted s u.state)
        (call_llm e.llm i think messages t.state).0
        (with_state (call_llm e.llm i think messages t.state).1 t)
asked-Holds e s i messages t h = elim (Result-cases (call_llm e.llm i think messages t.state).0) [
  | inl (r, answered) ↦
      rw answered (call_llm-IsCounted e.llm i think messages s t.state r h answered)
  | inr (x, failed) ↦ rw failed (call_llm-IsAccounted e.llm i think messages s t.state h)
]

explore-Holds :
    (e : Surroundings) (tot : TreeOfThoughts) (id : String) (s : RunState)
    → Holds
        (λ u. IsCounted s u.state)
        (λ u. IsAccounted s u.state)
        (explore e tot id s).0
        (explore e tot id s).1
unfolding explore
explore-Holds e tot id s =
    keeps-level_loop e tot (λ u. IsCounted s u.state) (λ u. IsAccounted s u.state)
      (λ t h. weaken s t.state h) (λ i messages t h. asked-Holds e s i messages t h)
      (λ parent d text answer t said h. add_children-IsCounted s parent d _ t h) tot.depth 0
      (root_of e tot id ∷ []) (planted e tot (root_of e tot id) s)
      (record {
        max_iterations = refl;
        onwards = omega arith;
        counted = omega arith;
        capped = omega arith;
        costs = refl;
      })

-- However a run ends, it has called the model at most as often as iterations were left in the
-- budget, the final answer included, has changed no iteration cap, and has spent what its steps cost.
pub tot_run-IsAccounted :
    (e : Surroundings) (tot : TreeOfThoughts) (depth_text : ℕ → String) (fuel : ℕ) (id : String)
    (s s' : RunState) (r : Result LlmResponse)
    → run e tot depth_text fuel id s ≡ some (r, s')
    → IsAccounted s s'
unfolding run synthesise
tot_run-IsAccounted e tot depth_text fuel id s s' r h =
    let kept = explore-Holds e tot id s in
    elim (Result-cases (explore e tot id s).0) [
      | inr (x, stopped) ↦ ground arith
      | inl (d, reached) ↦
          let t' = (explore e tot id s).1 in
          elim (Option-cases (path_to_root fuel (best (root_of e tot id) t'.by_id) t'.by_id)) [
            | inl lost ↦ ground arith
            | inr (path, walked) ↦ ground (
              arith,
              call_llm-IsAccounted e.llm (d + 1) synthesize (told e tot depth_text path) s t'.state,
            )
          ]
    ]
