-- ===== src/Strategies/Tot/Tree.antt =====
-- The tree, the pruning and the path of
-- packages/agentforge/src/agentforge/strategies/tot.py. Scores are thousandths, so that the root's
-- 1.0 is 1000. A node's `children` are never read and are left out.
use agentforge_py.Prelude.{
  ℕ, zero, suc, ◌+◌, ◌*◌, Bool, false, not, ◌||◌, ◌&&◌, Option, none, some, List, [], ◌∷◌, ◌++◌,
  String, ◌==◌, ltb, leb, eqb, if◌then◌else◌, take, all, Result, ok, value_error, raise_if, ◌>>◌,
}
use agentforge_py.Prelude.Dict.{Dict, lookup, insert}
use agentforge_py.Production.Budget.{BudgetPolicy, remaining_usd}
use agentforge_py.Strategies.Base.{branch, branch_of, plain_step, RunState, record_step}

pub record Thought : Type 0 where
  pub id : String
  pub content : String

pub record Node : Type 0 where
  pub id : String
  pub parent_id : Option String
  pub depth : ℕ
  pub content : String
  pub score : ℕ

abbrev pub parent_of : Dict Node → Option String → Option Node
parent_of by_id none = none
parent_of by_id (some p) = if p == "" then none else lookup p by_id

-- The walk takes fuel, since ids that repeat can make it go round; `none` means that it ran out.
unfoldable pub walk : ℕ → Dict Node → Option Node → Option (List Node)
walk fuel by_id none = some []
walk zero by_id (some cursor) = none
walk (suc fuel) by_id (some cursor) = elim (walk fuel by_id (parent_of by_id cursor.parent_id)) [
  | none ↦ none
  | some above ↦ some (above ++ cursor ∷ [])
]

-- From the root down to `leaf`.
unfoldable pub path_to_root : ℕ → Node → Dict Node → Option (List Node)
path_to_root fuel leaf by_id = walk fuel by_id (some leaf)

pub record TreeOfThoughts : Type 0 where
  pub branch_factor : ℕ
  pub depth : ℕ
  pub score_threshold : ℕ
  pub scorer : String
  pub beam_width : Option ℕ

abbrev width_is_bad : Option ℕ → Bool
width_is_bad none = false
width_is_bad (some w) = ltb w 1

unfoldable pub make : TreeOfThoughts → Result TreeOfThoughts
make t = do
  raise_if (ltb t.branch_factor 1) value_error
  raise_if (ltb t.depth 1) value_error
  raise_if (ltb 1000 t.score_threshold) value_error
  raise_if (not (t.scorer == "self" || t.scorer == "judge")) value_error
  raise_if (width_is_bad t.beam_width) value_error
  ok t

-- `sort(key=score, reverse=True)`, which keeps the order of equal scores
abbrev pub place : Node → List Node → List Node
place n [] = n ∷ []
place n (m ∷ ms) = if leb m.score n.score then n ∷ m ∷ ms else m ∷ place n ms

unfoldable pub sort_by_score : List Node → List Node
sort_by_score [] = []
sort_by_score (n ∷ ns) = place n (sort_by_score ns)

-- `kept[:beam_width]`
unfoldable pub truncate : Option ℕ → List Node → List Node
truncate none ns = ns
truncate (some w) ns = take w ns

abbrev is_valid : Thought → Bool
is_valid t = not (t.id == "") && not (t.content == "")

-- The field constraints of `_Thought` and `_ThoughtList`, and the empty list when parsing fails.
unfoldable pub thoughts_of : Option (List Thought) → List Thought
thoughts_of none = []
thoughts_of (some ts) = if all is_valid ts then ts else []

-- `score_by_id`: of two scores for one branch the later one counts.
unfoldable pub score_by_id : List (String × ℕ) → Dict ℕ → Dict ℕ
score_by_id [] d = d
score_by_id ((b, s) ∷ scores) d = score_by_id scores (insert b s d)

abbrev pub score_or_zero : Option ℕ → ℕ
score_or_zero none = 0
score_or_zero (some s) = s

-- What each id scores: 0.5 when the scoring does not parse or a score is above 1, and 0 for an id
-- that was not scored.
unfoldable pub score_of : Option (List (String × ℕ)) → String → ℕ
score_of none id = 500
score_of (some scores) id =
    if all (λ (p : String × ℕ). leb p.1 1000) scores
    then score_or_zero (lookup id (score_by_id scores []))
    else 500

abbrev pub scored_with : (String → ℕ) → List Thought → List (Thought × ℕ)
scored_with f [] = []
scored_with f (t ∷ ts) = (t, f t.id) ∷ scored_with f ts

abbrev pub child_of : Node → ℕ → Thought → ℕ → Node
child_of parent current_depth t score = record {
  id = t.id;
  parent_id = some parent.id;
  depth = current_depth + 1;
  content = t.content;
  score = score;
}

pub record Tree : Type 0 where
  pub by_id : Dict Node
  pub state : RunState

-- One child node, and its `branch` step.
unfoldable pub add_child : Node → ℕ → Thought × ℕ → Tree → Tree
add_child parent current_depth (t, score) tree = record {
  by_id = insert t.id (child_of parent current_depth t score) tree.by_id;
  state =
      record_step
        (plain_step (current_depth + 1) branch (branch_of t.id parent.id score t.content) none)
        tree.state;
}

unfoldable pub add_children : Node → ℕ → List (Thought × ℕ) → Tree → Tree
add_children parent current_depth [] tree = tree
add_children parent current_depth (c ∷ cs) tree =
    add_children parent current_depth cs (add_child parent current_depth c tree)

-- `[by_id[t.id] for (t, s) in scored if s >= threshold]`; each id was inserted just before.
unfoldable pub above : ℕ → Dict Node → List (Thought × ℕ) → List Node
above threshold by_id [] = []
above threshold by_id ((t, s) ∷ cs) =
    let rest = above threshold by_id cs in
    if leb threshold s then elim (lookup t.id by_id) [ none ↦ rest | some n ↦ n ∷ rest ] else rest

unfoldable pub can_afford_next_level : ℕ → BudgetPolicy → ℕ → Bool
can_afford_next_level floor b n_survivors =
    if eqb b.iteration 0
    then leb (n_survivors * 2 * floor) (remaining_usd b)
    else leb (n_survivors * 2 * b.spent_usd) (remaining_usd b * b.iteration)

unfoldable pub best_from : Node → Dict Node → Node
best_from n [] = n
best_from n ((k, m) ∷ d) = best_from (if ltb n.score m.score then m else n) d

-- `max(by_id.values(), key=score)`: the first one among the highest
unfoldable pub best : Node → Dict Node → Node
unfolding best_from
best root [] = root
best root ((k, n) ∷ d) = best_from n d
