-- ===== src/Strategies/Tot/Keeps.antt =====
-- What holds of the tree throughout the beam search of
-- packages/agentforge/src/agentforge/strategies/tot.py: a property that every model call and every
-- added level of children keeps.
use agentforge_py.Prelude.{
  ℕ, zero, suc, ◌+◌, List, [], ◌∷◌, String, ◌≡◌, refl, arith, Result, ok, err, Result-cases, inl,
  inr,
}
use agentforge_py.Strategies.Base.{
  RunState, LlmResponse, called, after_response, Message, think, check_guardrails, call_llm,
}
use agentforge_py.Strategies.Tot.Tree.{
  Thought, Node, Tree, TreeOfThoughts, thoughts_of, score_of, scored_with, add_children,
}
use agentforge_py.Strategies.Tot.Search.{
  Surroundings, with_state, generate_messages, score_messages, generate, score, grow,
  score_and_grow, expand, survivor_loop, iterate_depth, level_loop,
}

-- `P` of the tree when the code returns, `Q` when it raises.
abbrev pub Holds {ℓ} : {A : Type ℓ} (P Q : Tree → Type 0) → Result A → Tree → Type 0
Holds P Q (ok a) t = P t
Holds P Q (err x) t = Q t

-- A text that the model can answer with.
abbrev pub Said : Surroundings → String → Type 0
Said e text =
    (messages : List Message) × (n : ℕ) × (r : LlmResponse) × (e.llm messages n ≡ ok r)
    × (text ≡ r.content)

-- A call that returns a response returns an answer of the model.
call_llm-Said :
    (e : Surroundings) (i : ℕ) (messages : List Message) (s : RunState) (r : LlmResponse)
    → (call_llm e.llm i think messages s).0 ≡ ok r
    → Said e r.content
unfolding call_llm called after_response
call_llm-Said e i messages s r h = (messages, s.llm_calls, r, ground (arith, h), refl)

module _ (e : Surroundings) (tot : TreeOfThoughts) (P Q : Tree → Type 0)
    (weaken : (t : Tree) → P t → Q t)
    (asked : (i : ℕ) (messages : List Message) (t : Tree)
      → P t
      → Holds P Q
          (call_llm e.llm i think messages t.state).0
          (with_state (call_llm e.llm i think messages t.state).1 t))
    (grown : (parent : Node) (d : ℕ) (text answer : String) (t : Tree)
      → Said e text
      → P t
      → P (
          add_children parent d
            (scored_with (score_of (e.parse_scores answer)) (thoughts_of (e.parse_thoughts text)))
            t)) where
  keeps-score_and_grow :
      (parent : Node) (d : ℕ) (text : String) (ts : List Thought) (t : Tree)
      → Said e text
      → thoughts_of (e.parse_thoughts text) ≡ ts
      → P t
      → Holds P Q (score_and_grow e tot parent d ts t).0 (score_and_grow e tot parent d ts t).1
  unfolding score_and_grow score grow
  keeps-score_and_grow parent d text [] t said same h = h
  keeps-score_and_grow parent d text (c ∷ cs) t said same h =
      let a = asked (d + 1) (score_messages e tot (c ∷ cs)) t h in
      elim (Result-cases (call_llm e.llm (d + 1) think (score_messages e tot (c ∷ cs)) t.state).0) [
        | inl (r, answered) ↦ ground (
          arith,
          grown parent d text r.content
              (with_state (call_llm e.llm (d + 1) think (score_messages e tot (c ∷ cs)) t.state).1
                t)
              said,
        )
        | inr (x, failed) ↦ ground arith
      ]

  keeps-expand :
      (parent : Node) (d : ℕ) (t : Tree)
      → P t
      → Holds P Q (expand e tot parent d t).0 (expand e tot parent d t).1
  unfolding expand generate
  keeps-expand parent d t h =
      let a = asked (d + 1) (generate_messages e tot parent) t h in
      elim (Result-cases (check_guardrails t.state)) [
        | inr (x, stop) ↦ ground (arith, weaken t h)
        | inl (u, on) ↦
            elim (Result-cases
              (call_llm e.llm (d + 1) think (generate_messages e tot parent) t.state).0) [
                | inl (r, answered) ↦ ground (
                  arith,
                  keeps-score_and_grow parent d r.content (thoughts_of (e.parse_thoughts r.content))
                      (with_state
                        (call_llm e.llm (d + 1) think (generate_messages e tot parent) t.state).1 t)
                      (call_llm-Said e (d + 1) (generate_messages e tot parent) t.state r answered),
                )
                | inr (x, failed) ↦ ground arith
              ]
      ]

  keeps-survivor_loop :
      (d : ℕ) (ps : List Node) (t : Tree)
      → P t
      → Holds P Q (survivor_loop e tot d ps t).0 (survivor_loop e tot d ps t).1
  unfolding survivor_loop
  keeps-survivor_loop d [] t h = h
  keeps-survivor_loop d (p ∷ ps) t h =
      ground (arith, keeps-expand p d t h, keeps-survivor_loop d ps (expand e tot p d t).1)

  pub keeps-iterate_depth :
      (d : ℕ) (ps : List Node) (t : Tree)
      → P t
      → Holds P Q (iterate_depth e tot d ps t).0 (iterate_depth e tot d ps t).1
  unfolding iterate_depth
  keeps-iterate_depth d ps t h = ground (arith, keeps-survivor_loop d ps t h)

  pub keeps-level_loop :
      (levels d : ℕ) (ps : List Node) (t : Tree)
      → P t
      → Holds P Q (level_loop e tot levels d ps t).0 (level_loop e tot levels d ps t).1
  unfolding level_loop
  keeps-level_loop zero d ps t h = h
  keeps-level_loop (suc levels) d [] t h = h
  keeps-level_loop (suc levels) d (p ∷ ps) t h =
      let kept = keeps-iterate_depth d (p ∷ ps) t h in
      elim (Result-cases (iterate_depth e tot d (p ∷ ps) t).0) [
        | inl (ms, on) ↦ ground (
          arith,
          weaken t h,
          keeps-level_loop levels (d + 1) ms (iterate_depth e tot d (p ∷ ps) t).1,
        )
        | inr (x, stop) ↦ ground (arith, weaken t h)
      ]
