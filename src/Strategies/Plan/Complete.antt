-- ===== src/Strategies/Plan/Complete.antt =====
-- The batches hold each step of the plan once
-- (packages/agentforge/src/agentforge/strategies/_plan.py).
use mathlib.Core.List.{Perm, perm_middle, append_assoc, append-nil}
use mathlib.Core.List.Perm
use agentforge_py.Prelude.{
  ℕ, zero, suc, Bool, true, false, not, some, List, [], ◌∷◌, ◌++◌, String, ◌==◌, ◌≡◌, refl, sym,
  subst, arith, keep, member, any, ok, Bool-cases, eq_iff, length, inl, inr, ◌||◌,
}
use agentforge_py.Prelude.Dict.{Dict, insert}
use agentforge_py.Strategies.Plan.{
  PlanStep, ids, values, keys, is_ready, ready_of, waiting_of, round, batch_loop, index_onto,
  topological_batches, Batches, unique,
}
use agentforge_py.Strategies.Plan.Order.{round_ok}

abbrev pub flatten : Batches → List PlanStep
flatten [] = []
flatten (b ∷ bs) = b ++ flatten bs

-- A split of the entries by a test loses none and doubles none.
values-split :
    (p : String × PlanStep → Bool) (d : Dict PlanStep)
    → Perm (values (keep p d) ++ values (keep (λ e. not (p e)) d)) (values d)
values-split p [] = Perm.refl []
values-split p ((k, s) ∷ d) = elim (Bool-cases (p (k, s))) [
  | inl yes_p ↦ rw yes_p (Perm.cons s (values-split p d))
  | inr no_p ↦ rw no_p (
      Perm.trans (perm_middle (values (keep p d)) (values (keep (λ e. not (p e)) d)))
        (Perm.cons s (values-split p d)))
]

batch_loop-Perm :
    (fuel : ℕ) (remaining : Dict PlanStep) (completed : List String) (bs : Batches)
    → batch_loop fuel remaining completed ≡ some (ok bs)
    → Perm (flatten bs) (values remaining)
unfolding batch_loop round ready_of waiting_of
batch_loop-Perm zero remaining completed bs e = cc
batch_loop-Perm (suc fuel) [] completed [] e = Perm.refl []
batch_loop-Perm (suc fuel) [] completed (b ∷ bs) e = cc
batch_loop-Perm (suc fuel) (x ∷ remaining) completed bs e =
    let ready = ready_of completed (x ∷ remaining) in
    let (later, split, rest) = round_ok ready _ bs e in
    let ih =
      batch_loop-Perm fuel (waiting_of completed (x ∷ remaining)) (completed ++ keys ready) later
        rest in
    subst (λ (l : Batches). Perm (flatten l) (values (x ∷ remaining))) (sym split)
      (Perm.trans (Perm.append_left (values ready) ih)
        (values-split (is_ready completed) (x ∷ remaining)))

-- `insert` of a new key appends.
values-insert :
    (s : PlanStep) (d : Dict PlanStep)
    → member s.id (keys d) ≡ false
    → (values (insert s.id s d) ≡ values d ++ s ∷ [])
      × (keys (insert s.id s d) ≡ keys d ++ s.id ∷ [])
unfolding insert
values-insert s [] h = (refl, refl)
values-insert s ((k, t) ∷ d) h = ground (arith, values-insert s d)

pub any-append :
    (p : String → Bool) (xs ys : List String) → any p (xs ++ ys) ≡ (any p xs || any p ys)
any-append p [] ys = refl
any-append p (x ∷ xs) ys = ground (arith, any-append p xs ys)

fresh_of_unique :
    (y : String) (xs ys : List String) → unique (xs ++ y ∷ ys) ≡ true → member y xs ≡ false
unfolding unique
fresh_of_unique y [] ys h = refl
fresh_of_unique y (x ∷ xs) ys h = ground (
  arith,
  fresh_of_unique y xs ys,
  any-append (λ (z : String). z == x) xs (y ∷ ys),
  eq_iff x y,
  eq_iff y x,
)

pub values-index_onto :
    (d : Dict PlanStep) (steps : List PlanStep)
    → unique (keys d ++ ids steps) ≡ true
    → values (index_onto d steps) ≡ values d ++ steps
unfolding index_onto
values-index_onto d [] h = sym (append-nil (values d))
values-index_onto d (s ∷ ss) h =
    let added = values-insert s d (fresh_of_unique s.id (keys d) (ids ss) h) in
    let ih =
      values-index_onto (insert s.id s d) ss
        (rw (added.1, append_assoc (keys d) (s.id ∷ []) (ids ss)) h) in
    rw (ih, added.0, append_assoc (values d) (s ∷ []) ss) refl

-- If the ids of the steps are distinct, then the batches that the sort returns hold each step
-- once, and nothing else.
pub topological_batches-Perm :
    (steps : List PlanStep) (bs : Batches)
    → unique (ids steps) ≡ true
    → topological_batches steps ≡ some (ok bs)
    → Perm (flatten bs) steps
unfolding topological_batches
topological_batches-Perm steps bs distinct h =
    rw (sym (values-index_onto [] steps distinct))
      (batch_loop-Perm (suc (length steps)) (index_onto [] steps) [] bs h)
