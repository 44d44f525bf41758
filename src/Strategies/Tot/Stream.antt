-- ===== src/Strategies/Tot/Stream.antt =====
-- `stream` of packages/agentforge/src/agentforge/strategies/tot.py: the events it yields, and the
-- state it leaves. An exception ends the stream after the events already yielded.
use agentforge_py.Prelude.{
  ℕ, zero, suc, ◌+◌, true, false, Option, none, some, List, [], ◌∷◌, ◌++◌, String, length, Result,
  ok, err,
}
use agentforge_py.Strategies.Base.{LlmResponse, RunState, check_guardrails}
use agentforge_py.Strategies.Events.{StreamingEvent, done_event, events_for_new_steps}
use agentforge_py.Strategies.Tot.Tree.{
  Node, Tree, TreeOfThoughts, can_afford_next_level, path_to_root, best,
}
use agentforge_py.Strategies.Tot.Search.{Surroundings, root_of, planted, iterate_depth, synthesise}

-- How a loop over the levels ends: the depth and `before`, or an exception.
pub record Streamed : Type 0 where
  pub result : Result (ℕ × ℕ)
  pub tree : Tree
  pub events : List StreamingEvent

pub record Output : Type 0 where
  pub result : Result LlmResponse
  pub state : RunState
  pub events : List StreamingEvent

module _ (e : Surroundings) (tot : TreeOfThoughts) where
  unfoldable pub level_stream : ℕ → ℕ → List Node → ℕ → Tree → Streamed
  level_stream zero d survivors before tree = record {
    result = ok (d, before);
    tree = tree;
    events = [];
  }
  level_stream (suc levels) d [] before tree = record {
    result = ok (d, before);
    tree = tree;
    events = [];
  }
  level_stream (suc levels) d (n ∷ ns) before tree = elim (check_guardrails tree.state) [
    | err x ↦ record { result = err x; tree = tree; events = [] }
    | ok u ↦ elim (can_afford_next_level e.floor tree.state.budget (length (n ∷ ns))) [
      | false ↦ record { result = ok (d, before); tree = tree; events = [] }
      | true ↦
          let (survivors, tree') = iterate_depth e tot d (n ∷ ns) tree in
          elim survivors [
            | err x ↦ record { result = err x; tree = tree'; events = [] }
            | ok ms ↦
                let rest = level_stream levels (d + 1) ms (length tree'.state.steps) tree' in
                record rest {
                  events = events_for_new_steps tree'.state.steps before ++ rest.events;
                }
          ]
    ]
  ]

  -- The `synthesize` step and `done`.
  unfoldable pub finish : ℕ → List StreamingEvent → Result LlmResponse × RunState → Output
  finish before events (err x, s) = record { result = err x; state = s; events = events }
  finish before events (ok r, s) = record {
    result = ok r;
    state = s;
    events = events ++ (events_for_new_steps s.steps before ++ done_event s.budget.spent_usd ∷ []);
  }

  unfoldable pub stream : (ℕ → String) → ℕ → String → RunState → Option Output
  unfolding finish
  stream depth_text fuel id s =
      let root = root_of e tot id in
      let searched = level_stream tot.depth 0 (root ∷ []) (length s.steps) (planted e tot root s) in
      elim searched.result [
        | err x ↦
            some (record { result = err x; state = searched.tree.state; events = searched.events })
        | ok (d, before) ↦
            elim (path_to_root fuel (best root searched.tree.by_id) searched.tree.by_id) [
              | none ↦ none
              | some path ↦ some (
                  finish before searched.events
                    (synthesise e tot depth_text d path searched.tree.state))
            ]
      ]
