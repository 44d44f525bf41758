-- ===== src/Strategies/Plan.antt =====
-- `PlanStep`, `Plan` and the topological sort of packages/agentforge/src/agentforge/strategies/_plan.py.
-- The `while` loop takes fuel, and `none` means that it ran out.
pub mod Order
pub mod Complete
pub mod Cycles
mod Tests
use agentforge_py.Prelude.{
  ℕ, zero, suc, ◌+◌, Bool, true, false, not, ◌||◌, ◌&&◌, Option, none, some, List, [], ◌∷◌, ◌++◌,
  String, ◌==◌, if◌then◌else◌, length, keep, all, any, member, Error, Result, ok, err, value_error,
  raise_if, ◌>>=◌, ◌>>◌,
}
use agentforge_py.Prelude.Dict.{Dict, insert}

pub record PlanStep : Type 0 where
  pub id : String
  pub description : String
  pub tool : Option String
  pub arguments : String
  pub depends_on : List String

abbrev pub ids : List PlanStep → List String
ids [] = []
ids (s ∷ ss) = s.id ∷ ids ss

-- `{step.id: step for step in steps}`; the steps carry their dependencies with them
unfoldable pub index_onto : Dict PlanStep → List PlanStep → Dict PlanStep
index_onto d [] = d
index_onto d (s ∷ ss) = index_onto (insert s.id s d) ss

abbrev pub values : Dict PlanStep → List PlanStep
values [] = []
values ((k, s) ∷ d) = s ∷ values d

abbrev pub keys : Dict PlanStep → List String
keys [] = []
keys ((k, s) ∷ d) = k ∷ keys d

-- `deps.issubset(completed)`
abbrev pub is_ready : List String → String × PlanStep → Bool
is_ready completed (k, s) = all (λ d. member d completed) s.depends_on

abbrev pub Batches : Type 0
Batches = List (List PlanStep)

abbrev pub with_batch : List PlanStep → Option (Result Batches) → Option (Result Batches)
with_batch batch none = none
with_batch batch (some (err e)) = some (err e)
with_batch batch (some (ok rest)) = some (ok (batch ∷ rest))

-- The entries whose dependencies are completed, and the others.
unfoldable pub ready_of : List String → Dict PlanStep → Dict PlanStep
ready_of completed = keep (is_ready completed)

unfoldable pub waiting_of : List String → Dict PlanStep → Dict PlanStep
waiting_of completed = keep (λ e. not (is_ready completed e))

-- The body of the loop, once it is known which entries are ready: with none, a cycle is reported.
unfoldable pub round : Dict PlanStep → Option (Result Batches) → Option (Result Batches)
round [] rest = some (err value_error)
round (r ∷ ready) rest = with_batch (values (r ∷ ready)) rest

-- `while remaining`; the source appends the batches to a list, here they come back in that order.
unfoldable pub batch_loop : ℕ → Dict PlanStep → List String → Option (Result Batches)
batch_loop zero remaining completed = none
batch_loop (suc fuel) [] completed = some (ok [])
batch_loop (suc fuel) (e ∷ remaining) completed =
    let ready = ready_of completed (e ∷ remaining) in
    let rest = batch_loop fuel (waiting_of completed (e ∷ remaining)) (completed ++ keys ready) in
    round ready rest

unfoldable pub topological_batches : List PlanStep → Option (Result Batches)
unfolding index_onto
topological_batches steps = batch_loop (suc (length steps)) (index_onto [] steps) []

unfoldable pub unique : List String → Bool
unique [] = true
unique (x ∷ xs) = not (member x xs) && unique xs

-- The checks of one step against the plan's ids.
unfoldable pub step_is_valid : List String → PlanStep → Bool
step_is_valid known s = all (λ d. member d known) s.depends_on && not (member s.id s.depends_on)

unfoldable pub is_empty : List PlanStep → Bool
is_empty [] = true
is_empty (s ∷ ss) = false

-- `Plan(steps=...)`: the field constraints, and `_validate`
unfoldable pub validate : List PlanStep → Option (Result (List PlanStep))
unfolding unique step_is_valid is_empty
validate steps =
    if is_empty steps || any (λ (s : PlanStep). s.id == "") steps
    then some (err value_error)
    else if not (unique (ids steps))
    then some (err value_error)
    else if not (all (step_is_valid (ids steps)) steps)
    then some (err value_error)
    else elim (topological_batches steps) [
      | none ↦ none
      | some (err e) ↦ some (err e)
      | some (ok batches) ↦ some (ok steps)
    ]
