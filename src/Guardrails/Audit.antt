-- ===== src/Guardrails/Audit.antt =====
-- The audit trail of a stage (packages/agentforge/src/agentforge/guardrails/engine.py).
use mathlib.Core.List.{append_assoc, append-nil}
use agentforge_py.Prelude.{
  Bool, List, [], ◌∷◌, ◌++◌, String, ◌≡◌, refl, sym, ap, ◌∙◌, arith, inl, inr, some, Option-cases,
  ok, Result-cases,
}
use agentforge_py.Guardrails.Engine.{
  Action, ValidationResult, Validator, Event, safe_invoke, next_content, event_of, run_stage,
}

-- The validators that the events name, in order.
abbrev pub recorded : List Event → List String
recorded [] = []
recorded (e ∷ es) = e.validator ∷ recorded es

abbrev pub names : {C : Type 0} → List (Validator C) → List String
names [] = []
names (v ∷ vs) = v.name ∷ names vs

recorded-append : (xs ys : List Event) → recorded (xs ++ ys) ≡ recorded xs ++ recorded ys
recorded-append [] ys = refl
recorded-append (x ∷ xs) ys = rw (recorded-append xs ys)

recorded_snoc :
    (events : List Event) (e : Event) (rest : List String)
    → recorded (events ++ e ∷ []) ++ rest ≡ recorded events ++ (e.validator ∷ rest)
recorded_snoc events e rest =
    rw (recorded-append events (e ∷ [])) (append_assoc (recorded events) (e.validator ∷ []) rest)

module _ (hash : String → String) {C : Type 0} (stage : String) (fail_open : Bool) (ctx : C) where
  run_stage_step :
      (action : Action) (v : Validator C) (vs : List (Validator C)) (content text : String)
      (r : ValidationResult) (events : List Event)
      → safe_invoke fail_open (v.validate content ctx) ≡ ok r
      → next_content action r content ≡ some text
      → run_stage hash stage fail_open action (v ∷ vs) ctx content events
        ≡ run_stage hash stage fail_open action vs ctx text
            (events ++ event_of hash stage v.name r content action ∷ [])
  unfolding run_stage
  run_stage_step action v vs content text r events e go = ground arith

  -- A stage that returns has recorded one more event for each of its validators, in their order,
  -- whatever the action is and however they judged.
  pub run_stage-recorded :
      (action : Action) (vs : List (Validator C)) (content result : String) (events : List Event)
      → (run_stage hash stage fail_open action vs ctx content events).0 ≡ ok result
      → recorded (run_stage hash stage fail_open action vs ctx content events).1
        ≡ recorded events ++ names vs
  unfolding run_stage event_of
  run_stage-recorded action [] content result events h = sym (append-nil (recorded events))
  run_stage-recorded action (v ∷ vs) content result events h =
      elim (Result-cases (safe_invoke fail_open (v.validate content ctx))) [
        | inl (r, e) ↦ elim (Option-cases (next_content action r content)) [
          | inl blocked ↦ ground arith
          | inr (text, go) ↦
              let step = run_stage_step action v vs content text r events e go in
              let events' = events ++ event_of hash stage v.name r content action ∷ [] in
              rw step (
                run_stage-recorded action vs text result events' (ap (λ x. x.0) (sym step) ∙ h)
                ∙ recorded_snoc events (event_of hash stage v.name r content action) (names vs))
        ]
        | inr (x, e) ↦ ground arith
      ]
