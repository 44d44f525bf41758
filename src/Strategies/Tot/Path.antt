-- ===== src/Strategies/Tot/Path.antt =====
-- Which path the final answer of packages/agentforge/src/agentforge/strategies/tot.py is made from.
use agentforge_py.Prelude.{
  ℕ, suc, ◌≤◌, true, false, leb, Option, none, some, List, [], ◌∷◌, String, ◌==◌, ◌≡◌, refl, arith,
  All, all, Result, ok, err, Result-cases, Bool-cases, inl, inr, eq_iff,
}
use agentforge_py.Prelude.Dict.{Dict, lookup, insert}
use agentforge_py.Strategies.Base.{LlmResponse, think, RunState, call_llm}
use agentforge_py.Strategies.Tot.Tree.{
  Thought, Node, Tree, TreeOfThoughts, thoughts_of, score_of, score_by_id, score_or_zero,
  scored_with, child_of, add_child, add_children, best, best_from, walk, path_to_root,
}
use agentforge_py.Strategies.Tot.Search.{
  Surroundings, with_state, root_of, planted, explore, synthesise, run,
}
use agentforge_py.Strategies.Tot.Keeps.{Said, Holds, keeps-level_loop}

-- The root was inserted first, and no other node scores more than 1.0.
record IsRooted (root : Node) (by_id : Dict Node) : Type 0 where
  others : Dict Node
  first : by_id ≡ (root.id, root) ∷ others
  scores : All (λ (p : String × Node). p.1.score ≤ 1000) others

insert-scores :
    (k : String) (n : Node) (d : Dict Node)
    → n.score ≤ 1000
    → All (λ (p : String × Node). p.1.score ≤ 1000) d
    → All (λ (p : String × Node). p.1.score ≤ 1000) (insert k n d)
unfolding insert
insert-scores k n [] h hs = (h, tt)
insert-scores k n ((j, m) ∷ d) h hs = elim (Bool-cases (j == k)) [
  | inl e ↦ rw e (h, hs.1)
  | inr e ↦ rw e (hs.0, insert-scores k n d h hs.1)
]

insert-IsRooted :
    (root n : Node) (by_id : Dict Node)
    → (n.id == root.id) ≡ false
    → n.score ≤ 1000
    → IsRooted root by_id
    → IsRooted root (insert n.id n by_id)
unfolding insert
insert-IsRooted root n by_id other h r = record {
  others = insert n.id n r.others;
  first = rw r.first (ground (arith, eq_iff root.id n.id, eq_iff n.id root.id));
  scores = insert-scores n.id n r.others h r.scores;
}

add_children-IsRooted :
    (root parent : Node) (d : ℕ) (f : String → ℕ) (ts : List Thought) (t : Tree)
    → ((id : String) → f id ≤ 1000)
    → All (λ (x : Thought). (x.id == root.id) ≡ false) ts
    → IsRooted root t.by_id
    → IsRooted root (add_children parent d (scored_with f ts) t).by_id
unfolding add_children add_child
add_children-IsRooted root parent d f [] t h others r = r
add_children-IsRooted root parent d f (c ∷ cs) t h others r =
    add_children-IsRooted root parent d f cs _ h others.1
      (insert-IsRooted root (child_of parent d c (f c.id)) t.by_id others.0 (h c.id) r)

-- Scores.
insert-le :
    (k : String) (s : ℕ) (d : Dict ℕ)
    → s ≤ 1000
    → All (λ (p : String × ℕ). p.1 ≤ 1000) d
    → All (λ (p : String × ℕ). p.1 ≤ 1000) (insert k s d)
unfolding insert
insert-le k s [] h hs = (h, tt)
insert-le k s ((j, m) ∷ d) h hs = elim (Bool-cases (j == k)) [
  | inl e ↦ rw e (h, hs.1)
  | inr e ↦ rw e (hs.0, insert-le k s d h hs.1)
]

score_by_id-le :
    (scores : List (String × ℕ)) (d : Dict ℕ)
    → all (λ (p : String × ℕ). leb p.1 1000) scores ≡ true
    → All (λ (p : String × ℕ). p.1 ≤ 1000) d
    → All (λ (p : String × ℕ). p.1 ≤ 1000) (score_by_id scores d)
unfolding score_by_id
score_by_id-le [] d h hs = hs
score_by_id-le ((b, s) ∷ scores) d h hs =
    score_by_id-le scores (insert b s d) (ground arith) (insert-le b s d (ground arith) hs)

lookup-le :
    (k : String) (d : Dict ℕ)
    → All (λ (p : String × ℕ). p.1 ≤ 1000) d
    → score_or_zero (lookup k d) ≤ 1000
unfolding lookup
lookup-le k [] h = omega arith
lookup-le k ((j, s) ∷ d) h = ground (arith, lookup-le k d h.1)

score_of-le : (o : Option (List (String × ℕ))) (id : String) → score_of o id ≤ 1000
unfolding score_of
score_of-le none id = omega arith
score_of-le (some scores) id = elim (Bool-cases (all (λ (p : String × ℕ). leb p.1 1000) scores)) [
  | inl h ↦ rw h (lookup-le id (score_by_id scores []) (score_by_id-le scores [] h tt))
  | inr h ↦ rw h (omega arith)
]

best_from-first :
    (n : Node) (d : Dict Node)
    → n.score ≡ 1000
    → All (λ (p : String × Node). p.1.score ≤ 1000) d
    → best_from n d ≡ n
unfolding best_from
best_from-first n [] h hs = refl
best_from-first n ((k, m) ∷ d) h hs = ground (arith, best_from-first n d h hs.1)

best-root :
    (root : Node) (by_id : Dict Node)
    → root.score ≡ 1000
    → IsRooted root by_id
    → best root by_id ≡ root
unfolding best
best-root root by_id h r = rw r.first (best_from-first root r.others h r.scores)

explore-IsRooted :
    (e : Surroundings) (tot : TreeOfThoughts) (id : String) (s : RunState)
    → ((text : String)
        → Said e text
        → All (λ (x : Thought). (x.id == id) ≡ false) (thoughts_of (e.parse_thoughts text)))
    → Holds
        (λ t. IsRooted (root_of e tot id) t.by_id)
        (λ t. Unit)
        (explore e tot id s).0
        (explore e tot id s).1
unfolding explore
explore-IsRooted e tot id s fresh =
    keeps-level_loop e tot (λ t. IsRooted (root_of e tot id) t.by_id) (λ t. Unit) (λ t h. tt)
      (λ i messages t h. asked_keeps (call_llm e.llm i think messages t.state).0 t _ h)
      (λ parent d text answer t said h.
        add_children-IsRooted (root_of e tot id) parent d (score_of (e.parse_scores answer))
          (thoughts_of (e.parse_thoughts text)) t (score_of-le (e.parse_scores answer))
          (fresh text said) h)
      tot.depth 0 (root_of e tot id ∷ []) (planted e tot (root_of e tot id) s)
      (record { others = []; first = refl; scores = tt })
  where
    asked_keeps :
        (r : Result LlmResponse) (t : Tree) (s' : RunState)
        → IsRooted (root_of e tot id) t.by_id
        → Holds (λ u. IsRooted (root_of e tot id) u.by_id) (λ u. Unit) r (with_state s' t)
    asked_keeps (ok a) t s' h = h
    asked_keeps (err x) t s' h = tt

-- What a run does after the search when its best node is the root.
abbrev pub answer_from_root :
    (e : Surroundings) (tot : TreeOfThoughts) (depth_text : ℕ → String) (id : String)
    → Result ℕ × Tree
    → Result LlmResponse × RunState
answer_from_root e tot depth_text id (ok depth, tree) =
    synthesise e tot depth_text depth (root_of e tot id ∷ []) tree.state
answer_from_root e tot depth_text id (err x, tree) = (err x, tree.state)

-- If no thought read from a text that the model answers with has the id of the root, then a run with
-- fuel for a round or more ends. An
-- exception of the search is its outcome; otherwise, whatever the search has found, it makes the
-- final answer from the path that holds the root alone: the root scores 1.0, and no thought more.
pub run-answer_from_root :
    (e : Surroundings) (tot : TreeOfThoughts) (depth_text : ℕ → String) (fuel : ℕ) (id : String)
    (s : RunState)
    → ((text : String)
        → Said e text
        → All (λ (x : Thought). (x.id == id) ≡ false) (thoughts_of (e.parse_thoughts text)))
    → run e tot depth_text (suc fuel) id s
      ≡ some (answer_from_root e tot depth_text id (explore e tot id s))
unfolding run path_to_root walk
run-answer_from_root e tot depth_text fuel id s fresh =
    let rooted = explore-IsRooted e tot id s fresh in
    elim (Result-cases (explore e tot id s).0) [
      | inl (depth, reached) ↦
          ground (arith, best-root (root_of e tot id) (explore e tot id s).1.by_id)
      | inr (x, stopped) ↦ ground arith
    ]
