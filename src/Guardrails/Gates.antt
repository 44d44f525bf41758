-- ===== src/Guardrails/Gates.antt =====
-- The two built-in tool gates (packages/agentforge/src/agentforge/guardrails/allowlist.py and
-- packages/agentforge/src/agentforge/guardrails/capability_check.py).
use agentforge_py.Prelude.{false, none, List, [], ◌∷◌, String, member, if◌then◌else◌, ok}
use agentforge_py.Guardrails.Engine.{ValidationResult, passing, Gate}

abbrev refusal : String → ValidationResult
refusal rule = record { passed = false; score = 0; violations = rule ∷ []; redacted_content = none }

module _ {A C : Type 0} where
  unfoldable pub allowlist : List String → Gate A C
  allowlist allowed = record {
    name = "allowlist";
    authorize = λ tool caps args ctx.
        if member tool allowed then ok passing else ok (refusal "not_in_allowlist");
  }

  unfoldable pub capability_check : List String → Gate A C
  capability_check destructive_allow = record {
    name = "capability_check";
    authorize = λ tool caps args ctx.
        if member "destructive" caps
        then (if member tool destructive_allow
            then ok passing
            else ok (refusal "destructive_not_allowlisted"))
        else ok passing;
  }
