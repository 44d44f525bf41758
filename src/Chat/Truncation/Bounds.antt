-- ===== src/Chat/Truncation/Bounds.antt =====
-- What a token budget keeps (packages/agentforge-chat/src/agentforge_chat/truncation.py).
use mathlib.Core.List.{append_assoc, append-nil, reverse-reverse, reverse-cons}
use agentforge_py.Prelude.{
  ℕ, ◌+◌, ◌-◌, ◌≤◌, ◌<◌, Option, none, some, String, true, false, List, [], ◌∷◌, ◌++◌, reverse, ◌≡◌,
  subst, sym, inl, inr, refl, arith, Bool-cases,
}
use agentforge_py.Prelude.Int.{ℤ, pos, pos_part, ◌-ℤ◌, ltb_ℤ}
use agentforge_py.Chat.Truncation.{
  Role, ChatTurn, keep_from, keep_pair_atomic, Tokeniser, tokens_for_text, tokens_for_turn,
  approx_tokens, budget_loop, select_budget,
}

module _ (cost : ChatTurn → ℕ) where
  abbrev pub sum_tokens : List ChatTurn → ℕ
  sum_tokens [] = 0
  sum_tokens (t ∷ ts) = cost t + sum_tokens ts

  sum-keep_from-le :
      (last : Option Role) (ts : List ChatTurn) → sum_tokens (keep_from last ts) ≤ sum_tokens ts
  unfolding keep_from
  sum-keep_from-le last [] = omega arith
  sum-keep_from-le last (t ∷ ts) =
      ground (arith, sum-keep_from-le last ts, sum-keep_from-le (some t.role) ts)

  -- The next older turn, if there is one, would not have fitted in `room`.
  abbrev pub Stops : ℕ → List ChatTurn → List ChatTurn → Type 0
  Stops room [] chosen = Unit
  Stops room (t ∷ ts) chosen = room < cost t + sum_tokens chosen

  -- `chosen` is what is left of `turns`, newest first, after an older part; it fits in `room`, and
  -- no more would.
  abbrev pub Fills : ℕ → List ChatTurn → List ChatTurn → Type 0
  Fills room turns chosen =
      (older : List ChatTurn) × (reverse older ++ chosen ≡ turns)
      × (sum_tokens chosen ≤ room)
      × Stops room older chosen

  budget_loop_full :
      (t : ChatTurn) (ts : List ChatTurn) (remaining : ℤ) (chosen : List ChatTurn)
      → ltb_ℤ remaining (pos (cost t)) ≡ true
      → budget_loop cost (t ∷ ts) remaining chosen ≡ chosen
  unfolding budget_loop
  budget_loop_full t ts remaining chosen h = ground arith

  budget_loop_fits :
      (t : ChatTurn) (ts : List ChatTurn) (remaining : ℤ) (chosen : List ChatTurn)
      → ltb_ℤ remaining (pos (cost t)) ≡ false
      → budget_loop cost (t ∷ ts) remaining chosen
        ≡ budget_loop cost ts (remaining -ℤ pos (cost t)) (t ∷ chosen)
  unfolding budget_loop
  budget_loop_fits t ts remaining chosen h = ground arith

  budget_loop-Fills :
      ((t : ChatTurn) → 0 < cost t)
      → (ts : List ChatTurn) (remaining : ℤ) (chosen : List ChatTurn) (room : ℕ)
      → sum_tokens chosen + pos_part remaining ≡ room
      → Fills room (reverse ts ++ chosen) (budget_loop cost ts remaining chosen)
  unfolding budget_loop
  budget_loop-Fills positive [] remaining chosen room h = ([], refl, omega arith, tt)
  budget_loop-Fills positive (t ∷ ts) remaining chosen room h =
      elim (Bool-cases (ltb_ℤ remaining (pos (cost t)))) [
        | inl full ↦
            let some_cost = positive t in
            subst (Fills room (reverse (t ∷ ts) ++ chosen))
              (sym (budget_loop_full t ts remaining chosen full))
              (t ∷ ts, refl, omega arith, ground arith)
        | inr fits ↦
            let rest =
              budget_loop-Fills positive ts (remaining -ℤ pos (cost t)) (t ∷ chosen) room
                (ground arith) in
            let order : reverse ts ++ (t ∷ chosen) ≡ reverse (t ∷ ts) ++ chosen =
              rw (reverse-cons t ts) (sym (append_assoc (reverse ts) (t ∷ []) chosen)) in
            subst (Fills room (reverse (t ∷ ts) ++ chosen))
              (sym (budget_loop_fits t ts remaining chosen fits)) (rw order at rest)
      ]

tokens_for_turn_pos : (tokenise : Option Tokeniser) (t : ChatTurn) → 0 < tokens_for_turn tokenise t
unfolding tokens_for_turn approx_tokens
tokens_for_turn_pos none t = omega arith
tokens_for_turn_pos (some f) t = omega arith

-- A token budget selects from the newest turns that fit, beside the next message, in the budget,
-- as many as fit: the history is an older part, whose newest turn would not fit any more, and the
-- chosen part, of which only orphaned tool turns are dropped. The tokens of the result and of the
-- message stay within the budget, unless the message alone exceeds it and nothing is selected.
pub select_budget-Fills :
    (max_tokens : ℕ) (tokenise : Option Tokeniser) (next : String) (turns : List ChatTurn)
    → let room = max_tokens - tokens_for_text tokenise next in
      (chosen : List ChatTurn) × Fills (tokens_for_turn tokenise) room turns chosen
      × (select_budget max_tokens tokenise next turns ≡ keep_pair_atomic chosen)
      × (sum_tokens (tokens_for_turn tokenise) (select_budget max_tokens tokenise next turns)
          ≤ room)
unfolding select_budget keep_pair_atomic
select_budget-Fills max_tokens tokenise next turns =
    let cost = tokens_for_turn tokenise in
    let remaining = pos max_tokens -ℤ pos (tokens_for_text tokenise next) in
    let chosen = budget_loop cost (reverse turns) remaining [] in
    let fills =
      budget_loop-Fills cost (tokens_for_turn_pos tokenise) (reverse turns) remaining []
        (max_tokens - tokens_for_text tokenise next) (ground arith) in
    let whole : reverse (reverse turns) ++ [] ≡ turns =
      rw (append-nil (reverse (reverse turns))) (reverse-reverse turns) in
    (chosen, rw whole at fills, refl, omega (arith, sum-keep_from-le cost none chosen, fills.2))
