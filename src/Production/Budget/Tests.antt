-- ===== src/Production/Budget/Tests.antt =====
-- A budget with a reservation, and the theorems at it.
use agentforge_py.Prelude.{◌≡◌, ◌↔◌, ◌<◌, refl, ok}
use agentforge_py.Prelude.Int.{pos}
use agentforge_py.Production.Budget.{BudgetPolicy, check, reserve}
use agentforge_py.Production.Budget.Laws.{check_iff}

abbrev busy : BudgetPolicy
busy = record {
  usd = 100;
  max_tokens = 1000;
  max_iterations = 5;
  error_streak_limit = 3;
  spent_usd = 30;
  reserved_usd = 20;
  consumed_tokens = 40;
  iteration = 2;
  error_streak = 0;
}

check_iff_example :
    (check busy ≡ ok tt)
    ↔ (busy.spent_usd < busy.usd)
      × (busy.consumed_tokens < busy.max_tokens)
      × (busy.iteration < busy.max_iterations)
      × (busy.error_streak < busy.error_streak_limit)
check_iff_example = check_iff busy

-- 50 is exactly what remains.
granted : reserve (pos 50) busy ≡ ok (record busy { reserved_usd = 70 })
unfolding reserve
granted = refl
