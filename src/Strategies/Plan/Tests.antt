-- ===== src/Strategies/Plan/Tests.antt =====
-- A diamond of four steps and a cycle of two, and the theorems at them.
use mathlib.Core.List.{Mem, Perm}
use agentforge_py.Prelude.{
  List, [], ◌∷◌, String, ◌≡◌, ◌≢◌, refl, none, some, ok, err, value_error, All, any, member, true,
}
use agentforge_py.Prelude.Dict.{insert}
use agentforge_py.Strategies.Plan.{
  PlanStep, ids, ready_of, waiting_of, round, batch_loop, index_onto, topological_batches, unique,
  Batches,
}
use agentforge_py.Strategies.Plan.Order.{Ordered, topological_batches-Ordered}
use agentforge_py.Strategies.Plan.Complete.{flatten, topological_batches-Perm}
use agentforge_py.Strategies.Plan.Cycles.{topological_batches_cycle}

abbrev plan_step : String → List String → PlanStep
plan_step id deps = record {
  id = id;
  description = "";
  tool = none;
  arguments = "";
  depends_on = deps;
}

abbrev diamond : List PlanStep
diamond =
    plan_step "d" ("b" ∷ "c" ∷ [])
    ∷ plan_step "b" ("a" ∷ [])
    ∷ plan_step "c" ("a" ∷ [])
    ∷ plan_step "a" []
    ∷ []

abbrev diamond_batches : Batches
diamond_batches =
    (plan_step "a" [] ∷ [])
    ∷ (plan_step "b" ("a" ∷ []) ∷ plan_step "c" ("a" ∷ []) ∷ [])
    ∷ (plan_step "d" ("b" ∷ "c" ∷ []) ∷ [])
    ∷ []

abbrev circle : List PlanStep
circle = plan_step "a" [] ∷ plan_step "b" ("c" ∷ []) ∷ plan_step "c" ("b" ∷ "a" ∷ []) ∷ []

batches_of_diamond : topological_batches diamond ≡ some (ok diamond_batches)
unfolding topological_batches batch_loop index_onto insert ready_of waiting_of round
batches_of_diamond = refl

circle_raises : topological_batches circle ≡ some (err value_error)
unfolding topological_batches batch_loop index_onto insert ready_of waiting_of round
circle_raises = refl

topological_batches-Ordered_example : Ordered [] diamond_batches
topological_batches-Ordered_example =
    topological_batches-Ordered diamond diamond_batches batches_of_diamond

topological_batches-Perm_example : Perm (flatten diamond_batches) diamond
unfolding unique
topological_batches-Perm_example =
    topological_batches-Perm diamond diamond_batches refl batches_of_diamond

topological_batches_cycle_example :
    (value_error ≡ value_error)
    × (stuck : List PlanStep) × (stuck ≢ [])
    × All (λ (s : PlanStep). Mem s circle) stuck
    × All (λ (s : PlanStep). any (λ d. member d (ids stuck)) s.depends_on ≡ true) stuck
unfolding unique
topological_batches_cycle_example =
    topological_batches_cycle circle value_error refl (refl, (refl, (refl, tt))) circle_raises
