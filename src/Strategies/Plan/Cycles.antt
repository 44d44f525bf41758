-- ===== src/Strategies/Plan/Cycles.antt =====
-- What the sort has found when it raises
-- (packages/agentforge/src/agentforge/strategies/_plan.py).
use mathlib.Core.List.{Mem, mem-cons_self, mem-cons_of_mem}
use agentforge_py.Prelude.{
  ℕ, zero, suc, Bool, true, false, not, ◌||◌, some, List, [], ◌∷◌, ◌++◌, String, ◌≡◌, ◌≢◌, refl, ap,
  subst, arith, keep, member, any, length, Option, Result, ◌==◌, all, All, err, Error, value_error,
  List-cases, Bool-cases, inl, inr,
}
use agentforge_py.Prelude.Dict.{Dict}
use agentforge_py.Strategies.Plan.{
  PlanStep, ids, values, keys, is_ready, ready_of, waiting_of, round, batch_loop, index_onto,
  Batches, topological_batches, unique,
}
use agentforge_py.Strategies.Plan.Order.{
  IsKeyed, keys-ids, keep-IsKeyed, index_onto-IsKeyed, round_err,
}
use agentforge_py.Strategies.Plan.Complete.{values-index_onto, any-append}

-- Every known id is done or stands among the steps.
abbrev Covers : List String → List String → List String → Type 0
Covers known done waiting =
    (d : String) → member d known ≡ true → (member d done || member d waiting) ≡ true

member-split :
    (x : String) (p : String × PlanStep → Bool) (d : Dict PlanStep)
    → member x (keys d) ≡ (member x (keys (keep p d)) || member x (keys (keep (λ e. not (p e)) d)))
member-split x p [] = refl
member-split x p ((k, s) ∷ d) = ground (arith, member-split x p d)

keep-All :
    (P : PlanStep → Type 0) (p : String × PlanStep → Bool) (d : Dict PlanStep)
    → All P (values d)
    → All P (values (keep p d))
keep-All P p [] h = tt
keep-All P p ((k, s) ∷ d) h = elim (Bool-cases (p (k, s))) [
  | inl e ↦ rw e (h.0, keep-All P p d h.1)
  | inr e ↦ rw e (keep-All P p d h.1)
]

none_ready :
    (completed : List String) (d : Dict PlanStep)
    → ready_of completed d ≡ []
    → All (λ (s : PlanStep). all (λ x. member x completed) s.depends_on ≡ false) (values d)
unfolding ready_of
none_ready completed [] h = tt
none_ready completed ((k, s) ∷ d) h = ground (arith, none_ready completed d)

waiting-IsKeyed :
    (completed : List String) (d : Dict PlanStep) → IsKeyed d → IsKeyed (waiting_of completed d)
unfolding waiting_of
waiting-IsKeyed completed d h = keep-IsKeyed (λ y. not (is_ready completed y)) d h

waiting-All :
    (P : PlanStep → Type 0) (completed : List String) (d : Dict PlanStep)
    → All P (values d)
    → All P (values (waiting_of completed d))
unfolding waiting_of
waiting-All P completed d h = keep-All P (λ y. not (is_ready completed y)) d h

-- The round moves the ready entries from the one side to the other.
moved :
    (y : String) (completed : List String) (d : Dict PlanStep)
    → (member y completed || member y (keys d)) ≡ true
    → (member y (completed ++ keys (ready_of completed d))
        || member y (keys (waiting_of completed d)))
      ≡ true
unfolding ready_of waiting_of
moved y completed d h = ground (
  arith,
  member-split y (is_ready completed) d,
  any-append (λ (z : String). z == y) completed (keys (keep (is_ready completed) d)),
)

stopped :
    {ready : Dict PlanStep} (rest : Option (Result Batches)) {x : Error}
    → ready ≡ []
    → round ready rest ≡ some (err x)
    → x ≡ value_error
unfolding round
stopped {ready} rest {x} cycle e = cc (ap (λ (r : Dict PlanStep). round r rest) cycle)

goes_on :
    {r : String × PlanStep} {ready more : Dict PlanStep} (rest : Option (Result Batches))
    {x : Error}
    → ready ≡ r ∷ more
    → round ready rest ≡ some (err x)
    → rest ≡ some (err x)
goes_on {r} {ready} {more} rest {x} some_ready e = elim (round_err ready rest x e) [
  | inl cycle ↦ cc
  | inr h ↦ h
]

-- Steps of which none is ready.
record Stuck (P : PlanStep → Type 0) (known : List String) (x : Error) : Type 0 where
  raised : x ≡ value_error
  steps : List PlanStep
  some_steps : steps ≢ []
  kept : All P steps
  done : List String
  waits : All (λ (s : PlanStep). all (λ d. member d done) s.depends_on ≡ false) steps
  covers : Covers known done (ids steps)

batch_loop-Stuck :
    (P : PlanStep → Type 0) (known : List String) (fuel : ℕ) (remaining : Dict PlanStep)
    (completed : List String) (x : Error)
    → IsKeyed remaining
    → All P (values remaining)
    → Covers known completed (keys remaining)
    → batch_loop fuel remaining completed ≡ some (err x)
    → Stuck P known x
unfolding batch_loop
batch_loop-Stuck P known zero remaining completed x keyed kept covers e = cc
batch_loop-Stuck P known (suc fuel) [] completed x keyed kept covers e = cc
batch_loop-Stuck P known (suc fuel) (r ∷ remaining) completed x keyed kept covers e =
    let d = r ∷ remaining in
    let ready = ready_of completed d in
    elim (List-cases ready) [
      | inl cycle ↦ record {
        raised = stopped _ cycle e;
        steps = values d;
        some_steps = λ h. cc;
        kept = kept;
        done = completed;
        waits = none_ready completed d cycle;
        covers = λ y h.
            subst (λ (l : List String). (member y completed || member y l) ≡ true)
              (keys-ids d keyed) (covers y h);
      }
      | inr (f, more, some_ready) ↦
          batch_loop-Stuck P known fuel (waiting_of completed d) (completed ++ keys ready) x
            (waiting-IsKeyed completed d keyed) (waiting-All P completed d kept)
            (λ y h. moved y completed d (covers y h)) (goes_on _ some_ready e)
    ]

-- A step of the plan, whose dependencies are ids of the plan.
abbrev IsKnown : List PlanStep → PlanStep → Type 0
IsKnown steps s = Mem s steps × (all (λ d. member d (ids steps)) s.depends_on ≡ true)

IsKnown-All :
    (steps ss : List PlanStep)
    → ((s : PlanStep) → Mem s ss → Mem s steps)
    → All (λ (s : PlanStep). all (λ d. member d (ids steps)) s.depends_on ≡ true) ss
    → All (IsKnown steps) ss
IsKnown-All steps [] m h = tt
IsKnown-All steps (s ∷ ss) m h =
    ((m s (mem-cons_self), h.0), IsKnown-All steps ss (λ t n. m t (mem-cons_of_mem s n)) h.1)

known-Mem :
    (steps ss : List PlanStep) → All (IsKnown steps) ss → All (λ (s : PlanStep). Mem s steps) ss
known-Mem steps [] h = tt
known-Mem steps (s ∷ ss) h = (h.0.0, known-Mem steps ss h.1)

-- Of known dependencies that are not all done, one is waiting.
blocked :
    (known done waiting deps : List String)
    → Covers known done waiting
    → all (λ d. member d known) deps ≡ true
    → all (λ d. member d done) deps ≡ false
    → any (λ d. member d waiting) deps ≡ true
blocked known done waiting [] c h w = cc
blocked known done waiting (d ∷ deps) c h w = ground (arith, c d, blocked known done waiting deps c)

blocked_each :
    (steps : List PlanStep) (done waiting : List String)
    → Covers (ids steps) done waiting
    → (ss : List PlanStep) → All (IsKnown steps) ss
    → All (λ (s : PlanStep). all (λ d. member d done) s.depends_on ≡ false) ss
    → All (λ (s : PlanStep). any (λ d. member d waiting) s.depends_on ≡ true) ss
blocked_each steps done waiting c [] h w = tt
blocked_each steps done waiting c (s ∷ ss) h w = (
  blocked (ids steps) done waiting s.depends_on c h.0.1 w.0,
  blocked_each steps done waiting c ss h.1 w.1,
)

-- If the ids of the steps are distinct and each dependency is the id of a step, and the sort
-- raises, then it raises `ValueError`, and some of the steps depend each on one of them: a cycle.
pub topological_batches_cycle :
    (steps : List PlanStep) (x : Error)
    → unique (ids steps) ≡ true
    → All (λ (s : PlanStep). all (λ d. member d (ids steps)) s.depends_on ≡ true) steps
    → topological_batches steps ≡ some (err x)
    → (x ≡ value_error)
      × (stuck : List PlanStep) × (stuck ≢ [])
      × All (λ (s : PlanStep). Mem s steps) stuck
      × All (λ (s : PlanStep). any (λ d. member d (ids stuck)) s.depends_on ≡ true) stuck
unfolding topological_batches
topological_batches_cycle steps x distinct known h =
    let d = index_onto [] steps in
    let keyed = index_onto-IsKeyed [] steps tt in
    let same = values-index_onto [] steps distinct in
    let found =
      batch_loop-Stuck (IsKnown steps) (ids steps) (suc (length steps)) d [] x keyed
        (rw same (IsKnown-All steps steps (λ s m. m) known)) (λ y m. rw (keys-ids d keyed, same) m)
        h in
    (
      found.raised,
      found.steps,
      found.some_steps,
      known-Mem steps found.steps found.kept,
      blocked_each steps found.done (ids found.steps) found.covers found.steps found.kept
          found.waits,
    )
