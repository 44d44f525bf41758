-- ===== src/Strategies/Tot/Events.antt =====
-- What `stream` of packages/agentforge/src/agentforge/strategies/tot.py yields.
use mathlib.Core.List.{append_assoc, append-nil}
use agentforge_py.Prelude.{
  ℕ, zero, suc, ◌+◌, none, some, List, [], ◌∷◌, ◌++◌, String, ◌≡◌, refl, ap, sym, ◌∙◌, subst, arith,
  length, Result, ok, err, Result-cases, Bool-cases, Option-cases, inl, inr,
}
use agentforge_py.Strategies.Base.{
  LlmResponse, Message, think, branch, branch_of, plain_step, llm_step, synthesize, Step, RunState,
  check_guardrails, call_llm, record_step,
}
use agentforge_py.Strategies.Base.Laws.{call_llm-Answered, call_llm-Failed}
use agentforge_py.Strategies.Events.{
  StreamingEvent, done_event, events_for_new_steps, extend, flushes, nothing_new,
}
use agentforge_py.Strategies.Tot.Tree.{
  Thought, Node, Tree, TreeOfThoughts, add_child, add_children, can_afford_next_level, path_to_root,
  best,
}
use agentforge_py.Strategies.Tot.Search.{
  Surroundings, with_state, root_of, planted, iterate_depth, level_loop, explore, synthesise, run,
}
use agentforge_py.Strategies.Tot.Stream.{level_stream, finish, stream}
use agentforge_py.Strategies.Tot.Keeps.{Holds, keeps-iterate_depth}

-- The trace only grows.
abbrev Grown : List Step → RunState → Type 0
Grown xs s = (new : List Step) × (s.steps ≡ xs ++ new)

call_llm-Grown :
    (xs : List Step) (e : Surroundings) (i : ℕ) (messages : List Message) (s : RunState)
    → Grown xs s
    → Grown xs (call_llm e.llm i think messages s).1
call_llm-Grown xs e i messages s h = elim (Result-cases (call_llm e.llm i think messages s).0) [
  | inl (r, answered) ↦
      rw (call_llm-Answered e.llm i think messages r s answered).steps
        (extend xs s.steps (llm_step i think r ∷ []) h)
  | inr (x, failed) ↦ (h.0, (call_llm-Failed e.llm i think messages x s failed).steps ∙ h.1)
]

add_children-Grown :
    (xs : List Step) (parent : Node) (d : ℕ) (cs : List (Thought × ℕ)) (t : Tree)
    → Grown xs t.state
    → Grown xs (add_children parent d cs t).state
unfolding add_children add_child record_step
add_children-Grown xs parent d [] t h = h
add_children-Grown xs parent d ((c, n) ∷ cs) t h =
    add_children-Grown xs parent d cs (add_child parent d (c, n) t) (
      extend xs t.state.steps
        (plain_step (d + 1) branch (branch_of c.id parent.id n c.content) none ∷ []) h)

either {ℓ} : {A : Type ℓ} (P : Tree → Type 0) (r : Result A) (t : Tree) → P t → Holds P P r t
either P (ok a) t h = h
either P (err x) t h = h

either_way {ℓ} : {A : Type ℓ} (P : Tree → Type 0) (r : Result A) (t : Tree) → Holds P P r t → P t
either_way P (ok a) t h = h
either_way P (err x) t h = h

iterate_depth-Grown :
    (e : Surroundings) (tot : TreeOfThoughts) (d : ℕ) (ps : List Node) (t : Tree)
    → Grown t.state.steps (iterate_depth e tot d ps t).1.state
iterate_depth-Grown e tot d ps t =
    let P = λ (u : Tree). Grown t.state.steps u.state in
    either_way P (iterate_depth e tot d ps t).0 (iterate_depth e tot d ps t).1 (
      keeps-iterate_depth e tot P P (λ u h. h)
        (λ i messages u h.
          either P (call_llm e.llm i think messages u.state).0 (with_state _ u)
            (call_llm-Grown t.state.steps e i messages u.state h))
        (λ parent i text answer u said h. add_children-Grown t.state.steps parent i _ u h) d ps t
        ([], sym (append-nil t.state.steps)))

stopped_at :
    (t : Tree) (d d' : ℕ)
    → ok d ≡ ok d'
    → (◌≡◌ {A = Result (ℕ × ℕ)} (ok (d, length t.state.steps)) (ok (d', length t.state.steps)))
      × (t ≡ t)
      × (◌≡◌ {A = List StreamingEvent} []
          (events_for_new_steps t.state.steps (length t.state.steps)))
      × Grown t.state.steps t.state
stopped_at t d d' h = (cc h, refl, nothing_new t.state.steps, ([], sym (append-nil t.state.steps)))

-- The streamed loop over the levels does what the loop does, and has yielded the new steps.
level_stream-level_loop :
    (e : Surroundings) (tot : TreeOfThoughts) (levels d : ℕ) (ps : List Node) (t : Tree) (d' : ℕ)
    → (level_loop e tot levels d ps t).0 ≡ ok d'
    → let t' = (level_loop e tot levels d ps t).1 in
      let out = level_stream e tot levels d ps (length t.state.steps) t in
      (out.result ≡ ok (d', length t'.state.steps))
      × (out.tree ≡ t')
      × (out.events ≡ events_for_new_steps t'.state.steps (length t.state.steps))
      × Grown t.state.steps t'.state
unfolding level_loop level_stream
level_stream-level_loop e tot zero d ps t d' h = stopped_at t d d' h
level_stream-level_loop e tot (suc levels) d [] t d' h = stopped_at t d d' h
level_stream-level_loop e tot (suc levels) d (p ∷ ps) t d' h =
    elim (Result-cases (check_guardrails t.state)) [
      | inr (x, stop) ↦ ground arith
      | inl (u, on) ↦
          elim (Bool-cases (can_afford_next_level e.floor t.state.budget (length (p ∷ ps)))) [
            | inr poor ↦ ground (arith, stopped_at t d d')
            | inl rich ↦ elim (Result-cases (iterate_depth e tot d (p ∷ ps) t).0) [
              | inr (x, stop) ↦ ground arith
              | inl (ms, grew) ↦
                  let t1 = (iterate_depth e tot d (p ∷ ps) t).1 in
                  let (same, tree, yielded, later) =
                    level_stream-level_loop e tot levels (d + 1) ms t1 d' (ground arith) in
                  let joined =
                    flushes t.state.steps t1.state.steps
                      (level_loop e tot levels (d + 1) ms t1).1.state.steps
                      (iterate_depth-Grown e tot d (p ∷ ps) t) later in
                  let goes_on : level_loop e tot (suc levels) d (p ∷ ps) t
                      ≡ level_loop e tot levels (d + 1) ms t1 =
                    ground arith in
                  (
                    ground arith,
                    ground arith,
                    ground arith,
                    subst (λ (o : Result ℕ × Tree). Grown t.state.steps o.1.state) (sym goes_on)
                        joined.1,
                  )
            ]
          ]
    ]

synthesise-Grown :
    (e : Surroundings) (tot : TreeOfThoughts) (depth_text : ℕ → String) (d : ℕ) (path : List Node)
    (s s' : RunState) (r : LlmResponse)
    → synthesise e tot depth_text d path s ≡ (ok r, s')
    → Grown s.steps s'
unfolding synthesise
synthesise-Grown e tot depth_text d path s s' r h =
    let a = call_llm-Answered e.llm (d + 1) synthesize _ r s (ap (λ o. o.0) h) in
    (
      llm_step (d + 1) synthesize r ∷ [],
      ap (λ (o : Result LlmResponse × RunState). o.1.steps) (sym h) ∙ a.steps,
    )

-- If a run reaches a final answer, then its stream leaves the same state, and yields one event for
-- each step that the run recorded, in order, and then `done` with the money spent.
pub stream-run :
    (e : Surroundings) (tot : TreeOfThoughts) (depth_text : ℕ → String) (fuel : ℕ) (id : String)
    (s s' : RunState) (r : LlmResponse)
    → run e tot depth_text fuel id s ≡ some (ok r, s')
    → stream e tot depth_text fuel id s
      ≡ some (record {
        result = ok r;
        state = s';
        events =
            events_for_new_steps s'.steps (length s.steps) ++ done_event s'.budget.spent_usd ∷ [];
      })
unfolding run stream finish explore
stream-run e tot depth_text fuel id s s' r h =
    let root = root_of e tot id in
    elim (Result-cases (explore e tot id s).0) [
      | inr (x, stopped) ↦ ground arith
      | inl (d, reached) ↦
          let t' = (explore e tot id s).1 in
          let (same, tree, yielded, grown) =
            level_stream-level_loop e tot tot.depth 0 (root ∷ []) (planted e tot root s) d
              reached in
          elim (Option-cases (path_to_root fuel (best root t'.by_id) t'.by_id)) [
            | inl lost ↦ ground arith
            | inr (path, walked) ↦
                let answered : synthesise e tot depth_text d path t'.state ≡ (ok r, s') =
                  ground arith in
                let joined =
                  flushes s.steps t'.state.steps s'.steps grown
                    (synthesise-Grown e tot depth_text d path t'.state s' r answered) in
                let told = sym (
                  append_assoc (events_for_new_steps t'.state.steps (length s.steps))
                    (events_for_new_steps s'.steps (length t'.state.steps))
                    (done_event s'.budget.spent_usd ∷ [])) in
                ground arith
          ]
    ]
