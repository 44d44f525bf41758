-- ===== src/Production/Budget/Laws.antt =====
-- What `check` admits, what `reserve` admits, and that spend and reservations stay within the cap.
use agentforge_py.Prelude.{
  ℕ, ◌+◌, ◌≤◌, ◌<◌, ◌≡◌, ◌↔◌, arith, ok, err, leb, if◌then◌else◌, budget_exceeded,
}
use agentforge_py.Prelude.Int.{ℤ, pos, negsuc}
use agentforge_py.Production.Budget.{BudgetPolicy, remaining_usd, check, reserve}

-- Committed spend and reservations together stay within the cap.
abbrev pub IsWithin : BudgetPolicy → Type 0
IsWithin b = b.spent_usd + b.reserved_usd ≤ b.usd

-- `check` passes exactly when no cap is reached: money, tokens, iterations and the error streak.
pub check_iff :
    (b : BudgetPolicy)
    → (check b ≡ ok tt)
      ↔ (b.spent_usd < b.usd)
        × (b.consumed_tokens < b.max_tokens)
        × (b.iteration < b.max_iterations)
        × (b.error_streak < b.error_streak_limit)
unfolding check
check_iff b = (λ h. ground arith, λ h. ground arith)

-- Within the cap, a reservation of a non-negative amount is granted exactly when the amount is at
-- most what remains; a refusal leaves the policy alone, and a grant adds the amount to the
-- reservations.
pub reserve_lem :
    (amount : ℕ) (b : BudgetPolicy)
    → IsWithin b
    → reserve (pos amount) b ≡ (
        if leb amount (remaining_usd b)
        then ok (record b { reserved_usd = b.reserved_usd + amount })
        else err budget_exceeded)
unfolding reserve remaining_usd
reserve_lem amount b h = ground arith

-- A granted reservation keeps spend and reservations within the cap, whatever its sign.
pub reserve-IsWithin : (amount : ℤ) (b c : BudgetPolicy) → reserve amount b ≡ ok c → IsWithin c
unfolding reserve
reserve-IsWithin (pos n) b c h = ground arith
reserve-IsWithin (negsuc n) b c h = cc
