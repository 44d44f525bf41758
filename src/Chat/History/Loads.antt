-- ===== src/Chat/History/Loads.antt =====
-- What `load` of the in-memory chat history returns.
use mathlib.Core.List.{Perm}
use mathlib.Core.List.Perm
use agentforge_py.Prelude.{
  ℕ, ◌≤◌, Bool, true, ◌&&◌, ◌≡◌, refl, arith, ap, ◌∙◌, none, List, [], ◌∷◌, ◌++◌, String, leb,
  leb→le, keep, All, Bool-cases, inl, inr,
}
use agentforge_py.Chat.Truncation.{ChatTurn}
use agentforge_py.Chat.History.{
  InMemoryChatHistory, turns_of, Query, everything, is_before, is_after, has_role, insert_by,
  sort_by, limited, load,
}

module _ {X : Type 0} (key : X → ℕ) where
  -- Each element is at most as late as all that follow it.
  pub InOrder : List X → Type 0
  InOrder [] = Unit
  InOrder (x ∷ xs) = All (λ y. key x ≤ key y) xs × InOrder xs

  All-le : (a b : ℕ) (xs : List X) → a ≤ b → All (λ y. b ≤ key y) xs → All (λ y. a ≤ key y) xs
  All-le a b [] h all = tt
  All-le a b (x ∷ xs) h all = (omega (arith, h, all.0), All-le a b xs h all.1)

  insert_by-All :
      (a : ℕ) (x : X) (xs : List X)
      → a ≤ key x
      → All (λ y. a ≤ key y) xs
      → All (λ y. a ≤ key y) (insert_by key x xs)
  unfolding insert_by
  insert_by-All a x [] h all = (h, tt)
  insert_by-All a x (y ∷ ys) h all = elim (Bool-cases (leb (key x) (key y))) [
    | inl first ↦ rw (first, All) (h, all)
    | inr later ↦ rw (later, All) (all.0, insert_by-All a x ys h all.1)
  ]

  insert_by-InOrder : (x : X) (xs : List X) → InOrder xs → InOrder (insert_by key x xs)
  unfolding insert_by InOrder
  insert_by-InOrder x [] h = (tt, tt)
  insert_by-InOrder x (y ∷ ys) h = elim (Bool-cases (leb (key x) (key y))) [
    | inl first ↦
        rw (first, InOrder)
          (
            (
              leb→le (key x) (key y) first,
              All-le (key x) (key y) ys (leb→le (key x) (key y) first) h.0,
            ),
            h,
          )
    | inr later ↦
        rw (later, InOrder)
          (insert_by-All (key y) x ys (ground (arith, later)) h.0, insert_by-InOrder x ys h.1)
  ]

  sort_by-InOrder : (xs : List X) → InOrder (sort_by key xs)
  unfolding sort_by InOrder
  sort_by-InOrder [] = tt
  sort_by-InOrder (x ∷ xs) = insert_by-InOrder x (sort_by key xs) (sort_by-InOrder xs)

  insert_by-first :
      (x : X) (xs : List X) → All (λ y. key x ≤ key y) xs → insert_by key x xs ≡ x ∷ xs
  unfolding insert_by
  insert_by-first x [] h = refl
  insert_by-first x (y ∷ ys) h = ground (arith, h.0)

  -- A list in order is its own sort.
  sort_by-of_InOrder : (xs : List X) → InOrder xs → sort_by key xs ≡ xs
  unfolding sort_by InOrder
  sort_by-of_InOrder [] h = refl
  sort_by-of_InOrder (x ∷ xs) h =
      ap (insert_by key x) (sort_by-of_InOrder xs h.1) ∙ insert_by-first x xs h.0

  insert_by-Perm : (x : X) (xs : List X) → Perm (insert_by key x xs) (x ∷ xs)
  unfolding insert_by
  insert_by-Perm x [] = Perm.refl (x ∷ [])
  insert_by-Perm x (y ∷ ys) = elim (Bool-cases (leb (key x) (key y))) [
    | inl first ↦ rw first (Perm.refl (x ∷ y ∷ ys))
    | inr later ↦ rw later (Perm.trans (Perm.cons y (insert_by-Perm x ys)) (Perm.swap x y ys))
  ]

  sort_by-Perm : (xs : List X) → Perm (sort_by key xs) xs
  unfolding sort_by
  sort_by-Perm [] = Perm.refl []
  sort_by-Perm (x ∷ xs) =
      Perm.trans (insert_by-Perm x (sort_by key xs)) (Perm.cons x (sort_by-Perm xs))

  All-snoc :
      (a : ℕ) (xs : List X) (t : X)
      → All (λ y. a ≤ key y) xs
      → a ≤ key t
      → All (λ y. a ≤ key y) (xs ++ t ∷ [])
  All-snoc a [] t all h = (h, tt)
  All-snoc a (x ∷ xs) t all h = (all.0, All-snoc a xs t all.1 h)

  pub InOrder-snoc :
      (xs : List X) (t : X) → InOrder xs → All (λ y. key y ≤ key t) xs → InOrder (xs ++ t ∷ [])
  unfolding InOrder
  InOrder-snoc [] t h before = (tt, tt)
  InOrder-snoc (x ∷ xs) t h before =
      (All-snoc (key x) xs t h.0 before.0, InOrder-snoc xs t h.1 before.1)

abbrev stamp_of : ChatTurn → ℕ
stamp_of t = t.timestamp

-- The turn passes the three filters of a query.
abbrev pub passes : Query → ChatTurn → Bool
passes q t = is_before q.before t && (is_after q.after t && has_role q.roles t)

keep-keep :
    {X : Type 0} (p q r : X → Bool) (xs : List X)
    → keep r (keep q (keep p xs)) ≡ keep (λ x. p x && (q x && r x)) xs
keep-keep p q r [] = refl
keep-keep p q r (x ∷ xs) = ground (arith, keep-keep p q r xs)

-- A load returns the first `limit` of the session's turns that pass the filters, oldest first: the
-- list that the limit cuts is in the order of the timestamps and a permutation of those turns.
load-lem :
    (s : String) (q : Query) (h : InMemoryChatHistory)
    → (load s q h ≡ limited q.limit (load s (record q { limit = none }) h))
      × (InOrder stamp_of (load s (record q { limit = none }) h)
          × Perm (load s (record q { limit = none }) h) (keep (passes q) (turns_of s h)))
unfolding load
load-lem s q h =
    let same =
      keep-keep (is_before q.before) (is_after q.after) (has_role q.roles) (turns_of s h) in
    (refl, (sort_by-InOrder stamp_of _, rw (← same) (sort_by-Perm stamp_of _)))

keep-all : {X : Type 0} (xs : List X) → keep (λ x. true) xs ≡ xs
keep-all [] = refl
keep-all (x ∷ xs) = ap (λ t. x ∷ t) (keep-all xs)

-- A session whose turns were appended in the order of their timestamps is loaded as it was appended.
pub load-of_InOrder :
    (s : String) (h : InMemoryChatHistory)
    → InOrder stamp_of (turns_of s h)
    → load s everything h ≡ turns_of s h
unfolding load
load-of_InOrder s h ordered =
    rw (keep-all (turns_of s h), keep-all (turns_of s h), keep-all (turns_of s h))
      (sort_by-of_InOrder stamp_of (turns_of s h) ordered)
