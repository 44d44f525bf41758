-- ===== src/Chat/Session/Keeps.antt =====
-- What a chat session's stages leave as it is, whether they raise or not.
use agentforge_py.Prelude.{
  ℕ, Bool, true, false, ◌≡◌, refl, ◌∙◌, Option, none, some, List, [], ◌∷◌, String, Result, ok, err,
  Result-cases, Bool-cases, inl, inr, keep, not, ◌==◌, ◌||◌,
}
use agentforge_py.Guardrails.Engine.{Event, check_input, check_output}
use agentforge_py.Chat.Truncation.{ChatTurn, select}
use agentforge_py.Chat.History.{load, everything}
use agentforge_py.Strategies.Base.{Step}
use agentforge_py.Chat.Session.{
  RunResult, Surroundings, Settings, ChatSession, Chatting, and_then, guard_input, guard_output,
  read_clock, add_turn, add_some, step_turn, build_user_turn, compose_task, run_agent, step_loop,
}
use agentforge_py.Chat.Session.Run.{
  over, raise_if_set, conclude, run_turn, persist_steps, enforce_budgets,
}

module _ {V : Type 0} (view : ChatSession → V) where
  abbrev pub Keeps : {X : Type 0} → Chatting X → Type 0
  Keeps m = (s : ChatSession) → view (m s).1 ≡ view s

  pub and_then-Keeps :
      {X Y : Type 0} (r : Result X × ChatSession) (next : X → Chatting Y)
      → ((x : X) → Keeps (next x))
      → view (and_then r next).1 ≡ view r.1
  and_then-Keeps (ok x, s) next h = h x s
  and_then-Keeps (err e, s) next h = refl

  pub chain-Keeps :
      {X Y : Type 0} (m : Chatting X) (next : X → Chatting Y)
      → Keeps m
      → ((x : X) → Keeps (next x))
      → Keeps (λ s. and_then (m s) next)
  chain-Keeps m next first rest s = and_then-Keeps (m s) next rest ∙ first s

module _ (env : Surroundings) (cfg : Settings) {V : Type 0} (view : ChatSession → V)
    (of_engine : (s : ChatSession) (events : List Event)
      → view (record s { engine = record s.engine { events = events } }) ≡ view s)
    (of_ticks : (s : ChatSession) (n : ℕ) → view (record s { ticks = n }) ≡ view s) where
  pub guard_input-Keeps : (message : String) → Keeps view (guard_input env cfg message)
  unfolding guard_input check_input
  guard_input-Keeps message s = of_engine s _

  pub guard_output-Keeps : (message : String) → Keeps view (guard_output env cfg message)
  unfolding guard_output check_output
  guard_output-Keeps message s = of_engine s _

  pub raise_if_set-Keeps : (set : Bool) → Keeps view (raise_if_set env cfg set)
  raise_if_set-Keeps true s = refl
  raise_if_set-Keeps false s = refl

  pub compose_task-Keeps : (t : ChatTurn) → Keeps view (compose_task env cfg t)
  unfolding compose_task
  compose_task-Keeps t s =
      elim (Result-cases (
        select cfg.truncation t.content
          (keep (λ u. not (u.id == t.id)) (load cfg.session_id everything s.history)))) [
            | inl (kept, chosen) ↦ rw (chosen, compose_task) refl
            | inr (e, failed) ↦ rw (failed, compose_task) refl
          ]

  pub read_clock-Keeps : Keeps view (read_clock env cfg)
  unfolding read_clock
  read_clock-Keeps s = of_ticks s _

  module _ (of_runs : (s : ChatSession) (n : ℕ) → view (record s { runs = n }) ≡ view s)
      (of_turn : (s : ChatSession) (t : ChatTurn) → view (add_turn env cfg t s) ≡ view s) where
    pub build_user_turn-Keeps : (text : String) → Keeps view (build_user_turn env cfg text)
    unfolding build_user_turn
    build_user_turn-Keeps text s = of_turn s _

    run_agent-Keeps : (task : String) → Keeps view (run_agent env cfg task)
    unfolding run_agent
    run_agent-Keeps task s = of_runs s _

    pub step_loop-keeps :
        (run : String) (steps : List Step) (s : ChatSession)
        → view (step_loop env cfg run steps s).1 ≡ view s
    unfolding step_loop
    step_loop-keeps run [] s = refl
    step_loop-keeps run (step ∷ steps) s =
        step_loop-keeps run steps (add_some env cfg (step_turn env cfg run step s) s)
        ∙ added (step_turn env cfg run step s) s
      where
        added : (t : Option ChatTurn) (s : ChatSession) → view (add_some env cfg t s) ≡ view s
        added none s = refl
        added (some t) s = of_turn s t

    pub persist_steps-Keeps : (result : RunResult) → Keeps view (persist_steps env cfg result)
    unfolding persist_steps
    persist_steps-Keeps result s = elim (Bool-cases cfg.persist_steps) [
      | inl on ↦ simp (on) (step_loop-keeps result.run_id result.steps s)
      | inr off ↦ simp (off) refl
    ]

    -- A turn keeps what its last stage keeps.
    pub run_turn-Keeps :
        ((result : RunResult) (d : ℕ) (text : String) → Keeps view (conclude env cfg result d text))
        → (message : String) (cancelled : Bool) → Keeps view (run_turn env cfg message cancelled)
    unfolding run_turn
    run_turn-Keeps last message cancelled =
        chain-Keeps view (guard_input env cfg message) _ (guard_input-Keeps message) (λ validated.
          chain-Keeps view (build_user_turn env cfg validated) _ (build_user_turn-Keeps validated)
            (λ current.
              chain-Keeps view (raise_if_set env cfg cancelled) _ (raise_if_set-Keeps cancelled)
                (λ _.
                  chain-Keeps view (compose_task env cfg current) _ (compose_task-Keeps current)
                    (λ task. chain-Keeps view (read_clock env cfg) _ read_clock-Keeps (λ start.
                      chain-Keeps view (run_agent env cfg task) _ (run_agent-Keeps task) (λ result.
                        chain-Keeps view (read_clock env cfg) _ read_clock-Keeps (λ end.
                          chain-Keeps view (guard_output env cfg result.output) _
                            (guard_output-Keeps result.output) (λ text. last result _ text))))))))

-- A check of the budgets changes nothing.
pub enforce_budgets_same :
    (env : Surroundings) (cfg : Settings) (cost : ℕ) (s : ChatSession)
    → (enforce_budgets env cfg cost s).1 ≡ s
unfolding enforce_budgets
enforce_budgets_same env cfg cost s =
    elim (Bool-cases (over cfg.per_turn_budget cost || over cfg.per_session_budget s.total_cost)) [
      | inl above ↦ simp (above) refl
      | inr within ↦ simp (within) refl
    ]
