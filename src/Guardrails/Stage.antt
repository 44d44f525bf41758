-- ===== src/Guardrails/Stage.antt =====
-- What a stage returns under each action (packages/agentforge/src/agentforge/guardrails/engine.py).
use agentforge_py.Prelude.{
  Bool, true, false, none, some, List, [], ◌∷◌, ◌++◌, String, ◌≡◌, ◌↔◌, refl, arith, all, inl, inr,
  if◌then◌else◌, ◌&&◌, Error, runtime_error, module_error, value_error, Result, ok, err,
  Result-cases,
}
use agentforge_py.Production.Errors.{caught_by}
use agentforge_py.Guardrails.Engine.{
  block, redact, ValidationResult, Validator, Event, safe_invoke, next_content, run_stage, event_of,
}

-- A validator or a gate lets its input through if its result says that it passed, or if it raised an
-- error that is taken for a pass: a `RuntimeError`, `ModuleError` or `ValueError` while the policy
-- fails open.
abbrev pub lets_through : Bool → Result ValidationResult → Bool
lets_through fail_open (ok r) = r.passed
lets_through fail_open (err e) =
    fail_open && caught_by (runtime_error ∷ module_error ∷ value_error ∷ []) e

-- What the engine makes of an answer that it does not raise again.
pub safe_invoke-lets_through :
    (fail_open : Bool) (answer : Result ValidationResult) (r : ValidationResult)
    → safe_invoke fail_open answer ≡ ok r
    → lets_through fail_open answer ≡ r.passed
unfolding safe_invoke
safe_invoke-lets_through fail_open (ok r') r h = ground (arith, h)
safe_invoke-lets_through fail_open (err e) r h = ground (arith, h)

-- An answer that it raises again is not let through.
pub safe_invoke-raised :
    (fail_open : Bool) (answer : Result ValidationResult) (x : Error)
    → safe_invoke fail_open answer ≡ err x
    → lets_through fail_open answer ≡ false
unfolding safe_invoke
safe_invoke-raised fail_open (ok r) x h = absurd (cc h)
safe_invoke-raised fail_open (err e) x h = ground (arith, h)

module _ (hash : String → String) {C : Type 0} (stage : String) (fail_open : Bool) (ctx : C) where
  block_of_ok :
      (vs : List (Validator C)) (content result : String) (events : List Event)
      → (run_stage hash stage fail_open block vs ctx content events).0 ≡ ok result
      → (result ≡ content) × (all (λ v. lets_through fail_open (v.validate content ctx)) vs ≡ true)
  unfolding run_stage next_content
  block_of_ok [] content result events h = ground arith
  block_of_ok (v ∷ vs) content result events h =
      elim (Result-cases (safe_invoke fail_open (v.validate content ctx))) [
        | inl (r, e) ↦ ground (
          arith,
          safe_invoke-lets_through fail_open (v.validate content ctx) r e,
          block_of_ok vs content result (events ++ event_of hash stage v.name r content block ∷ []),
        )
        | inr (x, e) ↦ ground (arith, safe_invoke-raised fail_open (v.validate content ctx) x e)
      ]

  ok_of_block :
      (vs : List (Validator C)) (content : String) (events : List Event)
      → all (λ v. lets_through fail_open (v.validate content ctx)) vs ≡ true
      → (run_stage hash stage fail_open block vs ctx content events).0 ≡ ok content
  unfolding run_stage next_content
  ok_of_block [] content events h = refl
  ok_of_block (v ∷ vs) content events h =
      elim (Result-cases (safe_invoke fail_open (v.validate content ctx))) [
        | inl (r, e) ↦ ground (
          arith,
          safe_invoke-lets_through fail_open (v.validate content ctx) r e,
          ok_of_block vs content (events ++ event_of hash stage v.name r content block ∷ []),
        )
        | inr (x, e) ↦ ground (arith, safe_invoke-raised fail_open (v.validate content ctx) x e)
      ]

  -- Under `block` a stage returns a text exactly when that text is the content it was given and
  -- every validator lets it through: its result says that it passed, or it raised a `RuntimeError`,
  -- `ModuleError` or `ValueError`, or a class below one of them, and the policy fails open.
  pub run_stage-block :
      (vs : List (Validator C)) (content result : String) (events : List Event)
      → ((run_stage hash stage fail_open block vs ctx content events).0 ≡ ok result) ↔ (
          (result ≡ content)
          × (all (λ v. lets_through fail_open (v.validate content ctx)) vs ≡ true))
  run_stage-block vs content result events =
      (block_of_ok vs content result events, λ h. rw h.0 (ok_of_block vs content events h.1))

  -- What `redact` makes of the content: each validator in turn sees the text as the ones before it
  -- left it, and replaces it if it does not pass it and has a redaction to offer.
  abbrev pub redacted_by : Result ValidationResult → String → String
  redacted_by (ok r) current =
      if r.passed then current else elim r.redacted_content [ none ↦ current | some text ↦ text ]
  redacted_by (err e) current = current

  abbrev pub redactions : List (Validator C) → String → String
  redactions [] current = current
  redactions (v ∷ vs) current =
      redactions vs (redacted_by (safe_invoke fail_open (v.validate current ctx)) current)

  -- No validator raises an exception that `_safe_invoke` lets through.
  abbrev pub AllHandled : List (Validator C) → Type 0
  AllHandled [] = Unit
  AllHandled (v ∷ vs) =
      ((s : String) → (r : ValidationResult) × (safe_invoke fail_open (v.validate s ctx) ≡ ok r))
      × AllHandled vs

  -- If no validator raises an exception that `_safe_invoke` lets through, then under `redact` a
  -- stage never blocks: it returns the content after every validator's redaction, in their order.
  pub run_stage-redact :
      (vs : List (Validator C)) (content : String) (events : List Event)
      → AllHandled vs
      → (run_stage hash stage fail_open redact vs ctx content events).0 ≡ ok (redactions vs content)
  unfolding run_stage next_content
  run_stage-redact [] content events h = refl
  run_stage-redact (v ∷ vs) content events h =
      let (r, e) = h.0 content in
      ground (
        arith,
        run_stage-redact vs (redacted_by (ok r) content)
            (events ++ event_of hash stage v.name r content redact ∷ []) h.1,
      )
