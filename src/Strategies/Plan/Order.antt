-- ===== src/Strategies/Plan/Order.antt =====
-- The batches respect the dependencies, and the sort ends
-- (packages/agentforge/src/agentforge/strategies/_plan.py).
use agentforge_py.Prelude.{
  ℕ, zero, suc, ◌+◌, ◌<◌, ◌≤◌, Bool, true, not, Option, none, some, List, [], ◌∷◌, ◌++◌, String,
  ◌≡◌, refl, arith, length, length-split, List-cases, ap, sym, ◌∙◌, subst, keep, all, member,
  Result, ok, err, Error, ◌⊎◌, eq_iff, value_error, All, inl, inr,
}
use agentforge_py.Prelude.Dict.{Dict, insert}
use agentforge_py.Strategies.Plan.{
  PlanStep, ids, values, keys, is_ready, ready_of, waiting_of, round, batch_loop, index_onto,
  topological_batches, Batches,
}

-- An entry that is ready leaves fewer entries.
waiting-lt :
    (completed : List String) (remaining : Dict PlanStep) (r : String × PlanStep)
    (ready : Dict PlanStep)
    → ready_of completed remaining ≡ r ∷ ready
    → length (waiting_of completed remaining) < length remaining
unfolding ready_of waiting_of
waiting-lt completed remaining r ready e =
    let split = length-split (is_ready completed) remaining in omega (arith, split, ap length e)

round_ends :
    (ready : Dict PlanStep) (rest : Result Batches)
    → (r : Result Batches) × (round ready (some rest) ≡ some r)
unfolding round
round_ends [] rest = (err value_error, refl)
round_ends (e ∷ ready) (ok later) = (ok (values (e ∷ ready) ∷ later), refl)
round_ends (e ∷ ready) (err x) = (err x, refl)

batch_loop_ends :
    (fuel : ℕ) (remaining : Dict PlanStep) (completed : List String)
    → length remaining < fuel
    → (r : Result Batches) × (batch_loop fuel remaining completed ≡ some r)
unfolding batch_loop round
batch_loop_ends zero remaining completed h = absurd (omega arith)
batch_loop_ends (suc fuel) [] completed h = (ok [], refl)
batch_loop_ends (suc fuel) (e ∷ remaining) completed h =
    let ready = ready_of completed (e ∷ remaining) in
    elim (List-cases ready) [
      | inl cycle ↦ (
        err value_error,
        ap
            (λ d.
              round d
                (batch_loop fuel (waiting_of completed (e ∷ remaining)) (completed ++ keys ready)))
            cycle,
      )
      | inr (r, more, some_ready) ↦
          let smaller = waiting-lt completed (e ∷ remaining) r more some_ready in
          let (rest, runs) =
            batch_loop_ends fuel (waiting_of completed (e ∷ remaining)) (completed ++ keys ready)
              (omega arith) in
          let (x, ends) = round_ends ready rest in (x, ap (round ready) runs ∙ ends)
    ]

-- Every dependency of a step stands in `done`, or in a batch before the step's own.
abbrev pub Ordered : List String → Batches → Type 0
Ordered done [] = Unit
Ordered done (b ∷ bs) =
    All (λ (s : PlanStep). all (λ d. member d done) s.depends_on ≡ true) b
    × Ordered (done ++ ids b) bs

-- Every entry stands under its step's id.
abbrev pub IsKeyed : Dict PlanStep → Type 0
IsKeyed [] = Unit
IsKeyed ((k, s) ∷ d) = (s.id ≡ k) × IsKeyed d

insert-IsKeyed : (s : PlanStep) (d : Dict PlanStep) → IsKeyed d → IsKeyed (insert s.id s d)
unfolding insert
insert-IsKeyed s [] h = (refl, tt)
insert-IsKeyed s ((k, t) ∷ d) h = ground (arith, eq_iff k s.id, insert-IsKeyed s d h.1)

pub keep-IsKeyed :
    (p : String × PlanStep → Bool) (d : Dict PlanStep) → IsKeyed d → IsKeyed (keep p d)
keep-IsKeyed p [] h = tt
keep-IsKeyed p ((k, s) ∷ d) h = ground (arith, keep-IsKeyed p d h.1)

pub keys-ids : (d : Dict PlanStep) → IsKeyed d → keys d ≡ ids (values d)
keys-ids [] h = refl
keys-ids ((k, s) ∷ d) h = ground (arith, keys-ids d h.1)

ready-All :
    (completed : List String) (d : Dict PlanStep)
    → All
        (λ (s : PlanStep). all (λ x. member x completed) s.depends_on ≡ true)
        (values (ready_of completed d))
unfolding ready_of
ready-All completed [] = tt
ready-All completed ((k, s) ∷ d) = ground (arith, ready-All completed d)

-- What a round that returns has returned, and what a round that raises has met.
pub round_ok :
    (ready : Dict PlanStep) (rest : Option (Result Batches)) (bs : Batches)
    → round ready rest ≡ some (ok bs)
    → (later : Batches) × (bs ≡ values ready ∷ later) × (rest ≡ some (ok later))
unfolding round
round_ok [] rest bs h = cc
round_ok (r ∷ ready) none bs h = cc
round_ok (r ∷ ready) (some (err x)) bs h = cc
round_ok (r ∷ ready) (some (ok later)) bs h = (later, cc, refl)

pub round_err :
    (ready : Dict PlanStep) (rest : Option (Result Batches)) (x : Error)
    → round ready rest ≡ some (err x)
    → (ready ≡ []) ⊎ (rest ≡ some (err x))
unfolding round
round_err [] rest x h = inl refl
round_err (r ∷ ready) none x h = cc
round_err (r ∷ ready) (some (err y)) x h = inr h
round_err (r ∷ ready) (some (ok later)) x h = cc

batch_loop-Ordered :
    (fuel : ℕ) (remaining : Dict PlanStep) (completed : List String) (bs : Batches)
    → IsKeyed remaining
    → batch_loop fuel remaining completed ≡ some (ok bs)
    → Ordered completed bs
unfolding batch_loop round ready_of waiting_of
batch_loop-Ordered zero remaining completed bs h e = cc
batch_loop-Ordered (suc fuel) [] completed [] h e = tt
batch_loop-Ordered (suc fuel) [] completed (b ∷ bs) h e = cc
batch_loop-Ordered (suc fuel) (x ∷ remaining) completed bs h e =
    let ready = ready_of completed (x ∷ remaining) in
    let (later, split, rest) = round_ok ready _ bs e in
    let named = keys-ids ready (keep-IsKeyed (is_ready completed) (x ∷ remaining) h) in
    let ordered =
      batch_loop-Ordered fuel (waiting_of completed (x ∷ remaining)) (completed ++ keys ready) later
        (keep-IsKeyed (λ y. not (is_ready completed y)) (x ∷ remaining) h) rest in
    subst (Ordered completed) (sym split) (
      ready-All completed (x ∷ remaining),
      subst (λ k. Ordered (completed ++ k) later) named ordered,
    )

pub index_onto-IsKeyed :
    (d : Dict PlanStep) (steps : List PlanStep) → IsKeyed d → IsKeyed (index_onto d steps)
unfolding index_onto
index_onto-IsKeyed d [] h = h
index_onto-IsKeyed d (s ∷ ss) h = index_onto-IsKeyed (insert s.id s d) ss (insert-IsKeyed s d h)

length-insert-le :
    (k : String) (s : PlanStep) (d : Dict PlanStep) → length (insert k s d) ≤ length d + 1
unfolding insert
length-insert-le k s [] = omega arith
length-insert-le k s ((j, t) ∷ d) = ground (arith, length-insert-le k s d)

length-index_onto-le :
    (d : Dict PlanStep) (steps : List PlanStep)
    → length (index_onto d steps) ≤ length d + length steps
unfolding index_onto
length-index_onto-le d [] = omega arith
length-index_onto-le d (s ∷ ss) =
    omega (arith, length-index_onto-le (insert s.id s d) ss, length-insert-le s.id s d)

-- The sort ends with batches or an exception: one round for each step, and one more, are enough.
pub topological_batches_ends :
    (steps : List PlanStep) → (r : Result Batches) × (topological_batches steps ≡ some r)
unfolding topological_batches
topological_batches_ends steps =
    batch_loop_ends (suc (length steps)) (index_onto [] steps) []
      (omega (arith, length-index_onto-le [] steps))

-- In the batches that the sort returns, every dependency of a step stands in a batch before the
-- step's own.
pub topological_batches-Ordered :
    (steps : List PlanStep) (bs : Batches)
    → topological_batches steps ≡ some (ok bs)
    → Ordered [] bs
unfolding topological_batches
topological_batches-Ordered steps bs h =
    batch_loop-Ordered (suc (length steps)) (index_onto [] steps) [] bs
      (index_onto-IsKeyed [] steps tt) h
