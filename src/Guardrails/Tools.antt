-- ===== src/Guardrails/Tools.antt =====
-- What the gates let a wrapped tool do (packages/agentforge/src/agentforge/guardrails/engine.py,
-- allowlist.py and capability_check.py).
use agentforge_py.Prelude.{
  Bool, true, false, not, ◌&&◌, ◌||◌, List, [], ◌∷◌, ◌++◌, String, ◌≡◌, ◌⊎◌, inl, inr, refl, arith,
  all, member, ◌==◌, Error, Result, ok, err, Result-cases,
}
use agentforge_py.Guardrails.Engine.{
  block, Gate, Event, Tool, GuardrailEngine, LlmResponse, check_output, guarded_call, safe_invoke,
  next_content, event_of, run_gates, run_stage, authorize_tool, guarded_run,
}
use agentforge_py.Guardrails.Stage.{
  lets_through, safe_invoke-lets_through, safe_invoke-raised, run_stage-block,
}
use agentforge_py.Guardrails.Gates.{allowlist, capability_check}

-- Whether a call ended without a raise.
abbrev returned : {X : Type 0} → Result X → Bool
returned (ok x) = true
returned (err e) = false

module _ {A C : Type 0} (hash : String → String) (shown : String → A → String) where
  run_gates-block :
      (fail_open : Bool) (gs : List (Gate A C)) (tool : String) (caps : List String) (args : A)
      (ctx : C) (events : List Event)
      → returned (run_gates hash shown fail_open block gs tool caps args ctx events).0
        ≡ all (λ g. lets_through fail_open (g.authorize tool caps args ctx)) gs
  unfolding run_gates next_content
  run_gates-block fail_open [] tool caps args ctx events = refl
  run_gates-block fail_open (g ∷ gs) tool caps args ctx events =
      elim (Result-cases (safe_invoke fail_open (g.authorize tool caps args ctx))) [
        | inl (r, e) ↦ ground (
          arith,
          safe_invoke-lets_through fail_open (g.authorize tool caps args ctx) r e,
          run_gates-block fail_open gs tool caps args ctx
              (events ++ event_of hash "tool" g.name r (shown tool args) block ∷ []),
        )
        | inr (x, e) ↦
            ground (arith, safe_invoke-raised fail_open (g.authorize tool caps args ctx) x e)
      ]

  abbrev pub gates_let : List (Gate A C) → Bool → String → List String → A → C → Bool
  gates_let gs fail_open tool caps args ctx =
      all (λ g. lets_through fail_open (g.authorize tool caps args ctx)) gs

  -- Under a blocking policy the real tool runs exactly when every gate lets the call through: its
  -- result says that it passed, or it raised a `RuntimeError`, `ModuleError` or `ValueError`, or a
  -- class below one of them, and the policy fails open. Then the wrapper's outcome is the tool's own; otherwise the wrapper raises and
  -- the world is untouched.
  pub guarded_run-gated :
      {W : Type 0} (t : Tool A W) (args : A) (ctx : C) (g : GuardrailEngine A C) (w : W)
      → g.policy.on_tool_violation ≡ block
      → let out = (guarded_run hash shown t args ctx g w).0 in
        let pass = gates_let g.gates g.policy.fail_open t.name t.capabilities args ctx in
        ((pass ≡ true) × (out ≡ t.run args w))
        ⊎ ((pass ≡ false) × (out.1 ≡ w) × (e : Error) × (out.0 ≡ err e))
  unfolding guarded_run authorize_tool
  guarded_run-gated t args ctx g w h =
      let loop =
        run_gates hash shown g.policy.fail_open block g.gates t.name t.capabilities args ctx
          g.events in
      let judged =
        run_gates-block g.policy.fail_open g.gates t.name t.capabilities args ctx g.events in
      elim (Result-cases loop.0) [
        | inl (u, e) ↦ inl (ground arith, ground arith)
        | inr (x, e) ↦ inr (ground arith, ground arith, x, ground arith)
      ]

  -- Behind the two built-in gates, in this order, a call passes exactly when its tool is on the
  -- allowlist and is either not destructive or on the list of destructive tools.
  pub builtin_gates-let :
      (allowed destructive_allow : List String) (fail_open : Bool) (tool : String)
      (caps : List String) (args : A) (ctx : C)
      → gates_let
          (allowlist allowed ∷ capability_check destructive_allow ∷ [])
          fail_open
          tool
          caps
          args
          ctx
        ≡ (member tool allowed
            && (not (member "destructive" caps) || member tool destructive_allow))
  unfolding allowlist capability_check safe_invoke
  builtin_gates-let allowed destructive_allow fail_open tool caps args ctx = ground arith

  -- Under a blocking output policy the wrapped client returns a response only as the real client
  -- gave it, and only if its text is empty or every output validator lets that text through: its
  -- result says that it passed, or it raised a `RuntimeError`, `ModuleError` or `ValueError`, or a
  -- class below one of them, and the policy fails open.
  pub guarded_call-block :
      (r r' : LlmResponse) (ctx : C) (g : GuardrailEngine A C)
      → g.policy.on_output_violation ≡ block
      → (guarded_call hash shown (ok r) ctx g).0 ≡ ok r'
      → (r' ≡ r)
        × (((r.content == "")
              || all (λ v. lets_through g.policy.fail_open (v.validate r.content ctx)) g.outputs)
            ≡ true)
  unfolding guarded_call check_output
  guarded_call-block r r' ctx g h returned =
      let loop =
        run_stage hash "output" g.policy.fail_open block g.outputs ctx r.content g.events in
      elim (Result-cases loop.0) [
        | inl (text, e) ↦
            let judged =
              (run_stage-block hash "output" g.policy.fail_open ctx g.outputs r.content text
                  g.events).0
                e in
            ground arith
        | inr (x, e) ↦ ground arith
      ]
