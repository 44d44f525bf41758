-- ===== src/Production/Budget.antt =====
-- `BudgetPolicy` of packages/agentforge-core/src/agentforge_core/production/budget.py. Amounts of
-- money are whole numbers of a fixed small unit, added exactly (the code's floats may round); an
-- argument may be negative, so it is a signed number.
pub mod Laws
mod Tests
use agentforge_py.Prelude.{
  ℕ, ◌+◌, ◌-◌, leb, ltb, if◌then◌else◌, Result, ok, err, raise_if, ◌>>=◌, ◌>>◌, budget_exceeded,
  guardrail_violation, value_error,
}
use agentforge_py.Prelude.Int.{ℤ, pos, negsuc}

pub record BudgetPolicy : Type 0 where
  pub usd : ℕ
  pub max_tokens : ℕ
  pub max_iterations : ℕ
  pub error_streak_limit : ℕ
  pub spent_usd : ℕ
  pub reserved_usd : ℕ
  pub consumed_tokens : ℕ
  pub iteration : ℕ
  pub error_streak : ℕ

-- `max(0.0, usd - spent - reserved)`, which is the truncated subtraction
unfoldable pub remaining_usd : BudgetPolicy → ℕ
remaining_usd b = b.usd - b.spent_usd - b.reserved_usd

unfoldable pub check : BudgetPolicy → Result (Unit {0})
check b = do
  raise_if (leb b.usd b.spent_usd) budget_exceeded
  raise_if (leb b.max_tokens b.consumed_tokens) budget_exceeded
  raise_if (leb b.max_iterations b.iteration) guardrail_violation
  raise_if (leb b.error_streak_limit b.error_streak) guardrail_violation

unfoldable pub reserve : ℤ → BudgetPolicy → Result BudgetPolicy
reserve (negsuc n) b = err value_error
reserve (pos amount) b =
    if ltb b.usd (b.spent_usd + b.reserved_usd + amount)
    then err budget_exceeded
    else ok (record b { reserved_usd = b.reserved_usd + amount })

unfoldable pub commit : ℤ → ℤ → BudgetPolicy → Result BudgetPolicy
commit (negsuc n) tokens b = err value_error
commit (pos actual) (negsuc n) b = err value_error
commit (pos actual) (pos tokens) b =
    ok (record b { spent_usd = b.spent_usd + actual; consumed_tokens = b.consumed_tokens + tokens })

-- `max(0.0, reserved - usd)`
unfoldable pub release_reservation : ℤ → BudgetPolicy → Result BudgetPolicy
release_reservation (negsuc n) b = err value_error
release_reservation (pos amount) b = ok (record b { reserved_usd = b.reserved_usd - amount })

unfoldable pub increment_iteration : BudgetPolicy → BudgetPolicy
increment_iteration b = record b { iteration = b.iteration + 1 }

unfoldable pub record_error : BudgetPolicy → BudgetPolicy
record_error b = record b { error_streak = b.error_streak + 1 }

unfoldable pub record_success : BudgetPolicy → BudgetPolicy
record_success b = record b { error_streak = 0 }
