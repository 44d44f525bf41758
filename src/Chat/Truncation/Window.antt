-- ===== src/Chat/Truncation/Window.antt =====
-- What a sliding window keeps (packages/agentforge-chat/src/agentforge_chat/truncation.py).
use agentforge_py.Prelude.{
  ℕ, zero, suc, ◌-◌, ◌≤◌, Option, some, none, Bool, true, false, List, [], ◌∷◌, ◌≡◌, ◌⊎◌, inl, inr,
  refl, arith, length, drop, length-drop,
}
use agentforge_py.Chat.Truncation.{
  Role, ChatTurn, orphan, keep_from, keep_pair_atomic, last_turns, select_window,
}

-- `xs` is a subsequence of `ys`.
abbrev pub SubOf : List ChatTurn → List ChatTurn → Type 0
SubOf xs [] = xs ≡ []
SubOf [] (y ∷ ys) = Unit
SubOf (x ∷ xs) (y ∷ ys) = ((x ≡ y) × SubOf xs ys) ⊎ SubOf (x ∷ xs) ys

SubOf-nil : (ys : List ChatTurn) → SubOf [] ys
SubOf-nil [] = refl
SubOf-nil (y ∷ ys) = tt

SubOf-skip :
    (xs : List ChatTurn) (y : ChatTurn) (ys : List ChatTurn) → SubOf xs ys → SubOf xs (y ∷ ys)
SubOf-skip [] y ys h = tt
SubOf-skip (x ∷ xs) y ys h = inr h

SubOf-drop : (n : ℕ) (xs ys : List ChatTurn) → SubOf xs (drop n ys) → SubOf xs ys
SubOf-drop zero xs ys h = h
SubOf-drop (suc n) xs [] h = h
SubOf-drop (suc n) xs (y ∷ ys) h = SubOf-skip xs y ys (SubOf-drop n xs ys h)

keep_from-SubOf : (last : Option Role) (ts : List ChatTurn) → SubOf (keep_from last ts) ts
unfolding keep_from
keep_from-SubOf last [] = refl
keep_from-SubOf last (t ∷ ts) =
    choose (orphan t.role last) (keep_from-SubOf last ts) (keep_from-SubOf (some t.role) ts)
  where
    choose :
        (b : Bool)
        → SubOf (keep_from last ts) ts
        → SubOf (keep_from (some t.role) ts) ts
        → SubOf
            (elim b [ true ↦ keep_from last ts | false ↦ t ∷ keep_from (some t.role) ts ])
            (t ∷ ts)
    choose true dropped held = SubOf-skip (keep_from last ts) t ts dropped
    choose false dropped held = inl (refl, held)

length-keep_from-le :
    (last : Option Role) (ts : List ChatTurn) → length (keep_from last ts) ≤ length ts
unfolding keep_from
length-keep_from-le last [] = omega arith
length-keep_from-le last (t ∷ ts) =
    ground (arith, length-keep_from-le last ts, length-keep_from-le (some t.role) ts)

-- A sliding window returns a subsequence of the history, of at most its number of turns.
pub select_window-SubOf :
    (n : ℕ) (turns : List ChatTurn)
    → SubOf (select_window n turns) turns × (length (select_window n turns) ≤ n)
unfolding select_window keep_pair_atomic
select_window-SubOf n turns =
    let kept = last_turns n turns in
    (
      SubOf-drop (length turns - n) (keep_from none kept) turns (keep_from-SubOf none kept),
      omega (arith, length-keep_from-le none kept, length-drop (length turns - n) turns),
    )
