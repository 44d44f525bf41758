-- ===== src/Strategies/Tot/Search.antt =====
-- The beam search of packages/agentforge/src/agentforge/strategies/tot.py. What stands outside the
-- code is a parameter: `parse_thoughts` and `parse_scores` are pydantic's reading of a JSON answer
-- (code fences stripped), `shown` is the printing of a score, and `floor` is 0.001 USD in the
-- budget's unit.
use Prim.Native.String.{◌++◌ as string_append}
use agentforge_py.Prelude.{
  ℕ, zero, suc, ◌+◌, true, false, Option, none, some, List, [], ◌∷◌, ◌++◌, String, ltb,
  if◌then◌else◌, length, Result, ok, err,
}
use agentforge_py.Strategies.Base.{
  LlmResponse, Message, user_message, assistant_message, think, synthesize, RunState, Llm,
  check_guardrails, call_llm,
}
use agentforge_py.Strategies.Tot.Tree.{
  Thought, Node, Tree, TreeOfThoughts, thoughts_of, score_of, scored_with, add_children, above,
  sort_by_score, truncate, can_afford_next_level, path_to_root, best,
}

-- `"\n".join`
abbrev pub join_lines : List String → String
join_lines [] = ""
join_lines (l ∷ []) = l
join_lines (l ∷ m ∷ ls) = string_append l (string_append "\n" (join_lines (m ∷ ls)))

abbrev candidate_lines : List Thought → List String
candidate_lines [] = []
candidate_lines (t ∷ ts) =
    string_append "- " (string_append t.id (string_append ": " t.content)) ∷ candidate_lines ts

abbrev pub with_state : RunState → Tree → Tree
with_state s tree = record tree { state = s }

pub record Surroundings : Type 0 where
  pub llm : Llm
  pub parse_thoughts : String → Option (List Thought)
  pub parse_scores : String → Option (List (String × ℕ))
  pub shown : ℕ → String
  pub floor : ℕ
  pub task : String

module _ (e : Surroundings) (tot : TreeOfThoughts) where
  abbrev prior_thought : Node → List Message
  prior_thought parent =
      if ltb 0 parent.depth
      then assistant_message
          (string_append "Building on prior thought (score "
            (string_append (e.shown parent.score) (string_append "): " parent.content)))
          []
        ∷ []
      else []

  abbrev pub generate_messages : Node → List Message
  generate_messages parent = user_message e.task ∷ prior_thought parent

  abbrev pub score_messages : List Thought → List Message
  score_messages candidates =
      let listed =
        string_append "Candidate thoughts:\n" (join_lines (candidate_lines candidates)) in
      user_message e.task ∷ assistant_message listed [] ∷ []

  unfoldable pub generate : Node → ℕ → RunState → Result (List Thought) × RunState
  generate parent current_depth s =
      let (answer, s') = call_llm e.llm (current_depth + 1) think (generate_messages parent) s in
      elim answer [
        | err x ↦ (err x, s')
        | ok r ↦ (ok (thoughts_of (e.parse_thoughts r.content)), s')
      ]

  unfoldable pub score : List Thought → ℕ → RunState → Result (List (Thought × ℕ)) × RunState
  score candidates current_depth s =
      let (answer, s') = call_llm e.llm (current_depth + 1) think (score_messages candidates) s in
      elim answer [
        | err x ↦ (err x, s')
        | ok r ↦ (ok (scored_with (score_of (e.parse_scores r.content)) candidates), s')
      ]

  -- The children of one parent, above the threshold and within the beam.
  unfoldable pub grow : Node → ℕ → List (Thought × ℕ) → Tree → List Node × Tree
  grow parent current_depth scored tree =
      let tree' = add_children parent current_depth scored tree in
      (
        truncate tot.beam_width (sort_by_score (above tot.score_threshold tree'.by_id scored)),
        tree',
      )

  unfoldable pub score_and_grow : Node → ℕ → List Thought → Tree → Result (List Node) × Tree
  unfolding grow
  score_and_grow parent current_depth [] tree = (ok [], tree)
  score_and_grow parent current_depth (c ∷ cs) tree =
      let (scored, s) = score (c ∷ cs) current_depth tree.state in
      elim scored [
        | err x ↦ (err x, with_state s tree)
        | ok pairs ↦
            let (kept, tree') = grow parent current_depth pairs (with_state s tree) in
            (ok kept, tree')
      ]

  -- The body of `for parent in survivors`.
  unfoldable pub expand : Node → ℕ → Tree → Result (List Node) × Tree
  unfolding score_and_grow
  expand parent current_depth tree = elim (check_guardrails tree.state) [
    | err x ↦ (err x, tree)
    | ok u ↦
        let (candidates, s) = generate parent current_depth tree.state in
        elim candidates [
          | err x ↦ (err x, with_state s tree)
          | ok ts ↦ score_and_grow parent current_depth ts (with_state s tree)
        ]
  ]

  unfoldable pub survivor_loop : ℕ → List Node → Tree → Result (List Node) × Tree
  survivor_loop current_depth [] tree = (ok [], tree)
  survivor_loop current_depth (p ∷ ps) tree =
      let (kept, tree') = expand p current_depth tree in
      elim kept [
        | err x ↦ (err x, tree')
        | ok ns ↦
            let (more, tree'') = survivor_loop current_depth ps tree' in
            elim more [ err x ↦ (err x, tree'') | ok ms ↦ (ok (ns ++ ms), tree'') ]
      ]

  unfoldable pub iterate_depth : ℕ → List Node → Tree → Result (List Node) × Tree
  iterate_depth current_depth survivors tree =
      let (new_survivors, tree') = survivor_loop current_depth survivors tree in
      elim new_survivors [
        | err x ↦ (err x, tree')
        | ok ns ↦ (ok (truncate tot.beam_width (sort_by_score ns)), tree')
      ]

  -- `while current_depth < depth and survivors`, by the levels that are left; the result is the
  -- depth at which the loop stops.
  unfoldable pub level_loop : ℕ → ℕ → List Node → Tree → Result ℕ × Tree
  level_loop zero current_depth survivors tree = (ok current_depth, tree)
  level_loop (suc levels) current_depth [] tree = (ok current_depth, tree)
  level_loop (suc levels) current_depth (n ∷ ns) tree = elim (check_guardrails tree.state) [
    | err x ↦ (err x, tree)
    | ok u ↦ elim (can_afford_next_level e.floor tree.state.budget (length (n ∷ ns))) [
      | false ↦ (ok current_depth, tree)
      | true ↦
          let (survivors, tree') = iterate_depth current_depth (n ∷ ns) tree in
          elim survivors [
            | err x ↦ (err x, tree')
            | ok ms ↦ level_loop levels (current_depth + 1) ms tree'
          ]
    ]
  ]

  abbrev pub root_of : String → Node
  root_of id = record { id = id; parent_id = none; depth = 0; content = e.task; score = 1000 }

  abbrev pub planted : Node → RunState → Tree
  planted root s = record { by_id = (root.id, root) ∷ []; state = s }

  -- The search before the final answer, from a root with a given id.
  unfoldable pub explore : String → RunState → Result ℕ × Tree
  explore id s = level_loop tot.depth 0 (root_of id ∷ []) (planted (root_of id) s)

  abbrev path_lines : (ℕ → String) → List Node → List String
  path_lines depth_text [] = []
  path_lines depth_text (n ∷ ns) =
      string_append "  depth=" (
        string_append (depth_text n.depth) (
          string_append " score=" (string_append (e.shown n.score) (string_append ": " n.content))))
      ∷ path_lines depth_text ns

  abbrev pub told : (ℕ → String) → List Node → List Message
  told depth_text path =
      let best_path =
        string_append "Best path explored:\n" (join_lines (path_lines depth_text path)) in
      user_message e.task ∷ assistant_message best_path [] ∷ []

  -- The final answer, from the best path.
  unfoldable pub synthesise :
      (ℕ → String) → ℕ → List Node → RunState → Result LlmResponse × RunState
  synthesise depth_text current_depth path s =
      call_llm e.llm (current_depth + 1) synthesize (told depth_text path) s

  -- `none`: the walk to the root ran out of fuel.
  unfoldable pub run : (ℕ → String) → ℕ → String → RunState → Option (Result LlmResponse × RunState)
  run depth_text fuel id s =
      let (reached, tree) = explore id s in
      elim reached [
        | err x ↦ some (err x, tree.state)
        | ok depth ↦ elim (path_to_root fuel (best (root_of id) tree.by_id) tree.by_id) [
          | none ↦ none
          | some path ↦ some (synthesise depth_text depth path tree.state)
        ]
      ]
