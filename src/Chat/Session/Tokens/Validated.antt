-- ===== src/Chat/Session/Tokens/Validated.antt =====
-- Which pieces `_stream_per_token` of packages/agentforge-chat/src/agentforge_chat/session.py sends
-- when it is buffered.
use agentforge_py.Prelude.{
  ℕ, suc, Bool, true, ◌≡◌, refl, sym, subst, ◌∙◌, ap, arith, Option, none, some, List, [], ◌∷◌,
  ◌++◌, String, Error, Result, ok, Result-cases, Option-cases, inl, inr,
}
use agentforge_py.Guardrails.Engine.{
  Action, Validator, GuardrailPolicy, Event, run_stage, safe_invoke, event_of, next_content,
  check_output,
}
use agentforge_py.Chat.Texts.{Text}
use agentforge_py.Chat.Truncation.{ChatTurn}
use agentforge_py.Chat.Window.{push, flush}
use agentforge_py.Chat.Session.{
  Surroundings, Settings, ChatSession, Chatting, GuardContext, guard_context, guard_input,
  guard_output, add_turn, build_user_turn, compose_task,
}
use agentforge_py.Chat.Session.Keeps.{
  guard_input-Keeps, guard_output-Keeps, raise_if_set-Keeps, compose_task-Keeps,
  build_user_turn-Keeps,
}
use agentforge_py.Chat.Session.Exchange.{and_then-ok}
use agentforge_py.Chat.Session.Run.{raise_if_set, account, enforce_budgets}
use agentforge_py.Chat.Session.Tokens.{
  RunSummary, AgentEvent, done_event, step_event, text_event, other_event, TokenChunk, piece_chunk,
  event_chunk, summary_chunk, Codec, Progress, no_progress, send_piece, send_sentences, on_event,
  event_loop, flush_window, residual_of, summary_of, fresh_uuid, stream_turn, validated_text,
  persist_events, persist_stream, stream_per_token,
}
use agentforge_py.Chat.Session.Tokens.Keeps.{on_event-Keeps, event_loop-Keeps}

-- What a stage returns does not depend on the events recorded before.
run_stage_result :
    (hash : String → String) {C : Type 0} (stage : String) (fail_open : Bool) (action : Action)
    (vs : List (Validator C)) (ctx : C) (content : String) (before others : List Event)
    → (run_stage hash stage fail_open action vs ctx content before).0
      ≡ (run_stage hash stage fail_open action vs ctx content others).0
unfolding run_stage
run_stage_result hash stage fail_open action [] ctx content before others = refl
run_stage_result hash stage fail_open action (v ∷ vs) ctx content before others =
    elim (Result-cases (safe_invoke fail_open (v.validate content ctx))) [
      | inr (x, raised) ↦ ground arith
      | inl (r, judged) ↦ elim (Option-cases (next_content action r content)) [
        | inl blocked ↦ ground arith
        | inr (next, passed) ↦ ground (
          arith,
          run_stage_result hash stage fail_open action vs ctx next
              (before ++ event_of hash stage v.name r content action ∷ [])
              (others ++ event_of hash stage v.name r content action ∷ []),
        )
      ]
    ]

-- The output validators and the policy of a session.
abbrev Rules : Type 0
Rules = List (Validator GuardContext) × GuardrailPolicy

abbrev rules : ChatSession → Rules
rules s = (s.engine.outputs, s.engine.policy)

module _ (env : Surroundings) (cfg : Settings) (codec : Codec) (start : ChatSession) where
  -- The text is what the output stage of the session at the start returns for some text.
  abbrev pub Validated : Text → Type 0
  Validated t =
      (raw : String) × (validated : String) × (codec.codes validated ≡ t)
      × ((run_stage env.hash "output" start.engine.policy.fail_open
            start.engine.policy.on_output_violation start.engine.outputs (guard_context cfg) raw
            []).0
          ≡ ok validated)

  -- So is every piece among the chunks.
  abbrev pub AllValidated : List TokenChunk → Type 0
  AllValidated [] = Unit
  AllValidated (piece_chunk t sofar ∷ chunks) = Validated t × AllValidated chunks
  AllValidated (event_chunk e ∷ chunks) = AllValidated chunks
  AllValidated (summary_chunk summary ∷ chunks) = AllValidated chunks

  AllValidated-append :
      (xs ys : List TokenChunk) → AllValidated xs → AllValidated ys → AllValidated (xs ++ ys)
  AllValidated-append [] ys h g = g
  AllValidated-append (piece_chunk t sofar ∷ xs) ys h g = (h.0, AllValidated-append xs ys h.1 g)
  AllValidated-append (event_chunk e ∷ xs) ys h g = AllValidated-append xs ys h g
  AllValidated-append (summary_chunk summary ∷ xs) ys h g = AllValidated-append xs ys h g

  -- What the output stage returns under some rules, after some events.
  abbrev staged : String → Rules → List Event → Result String
  staged raw (outputs, policy) events =
      (run_stage env.hash "output" policy.fail_open policy.on_output_violation outputs
        (guard_context cfg) raw events).0

  guard_output-Validated :
      (raw : String) (s : ChatSession) (v : String)
      → rules s ≡ rules start
      → (guard_output env cfg raw s).0 ≡ ok v
      → Validated (codec.codes v)
  unfolding guard_output check_output
  guard_output-Validated raw s v same h = (
    raw,
    v,
    refl,
    sym (
          run_stage_result env.hash "output" s.engine.policy.fail_open
            s.engine.policy.on_output_violation s.engine.outputs (guard_context cfg) raw
            s.engine.events []
          ∙ ap (λ r. staged raw r []) same)
        ∙ h,
  )

  -- Code that sends validated pieces only, from a session with the rules of the start.
  abbrev Sending : Chatting Progress → Type 0
  Sending m =
      (s : ChatSession)
      → rules s ≡ rules start
      → (q : Progress) → (m s).0 ≡ ok q
      → AllValidated q.sent

  sent_same : (p q : Progress) → AllValidated p.sent → ok p ≡ ok q → AllValidated q.sent
  sent_same p q h e = subst (λ (r : Progress). AllValidated r.sent) (unwrap e) h
    where
      unwrap : ok p ≡ ok q → p ≡ q
      unwrap e = cc e

  send_sentences-Sending :
      (ts : List Text) (p : Progress)
      → AllValidated p.sent
      → Sending (send_sentences env cfg codec ts p)
  unfolding send_sentences
  send_sentences-Sending [] p h s same = λ q done. sent_same p q h done
  send_sentences-Sending (t ∷ ts) p h s same =
      and_then-ok (guard_output env cfg (codec.str t) s) _ (λ q _. AllValidated q.sent)
        (λ v checked q done.
          send_sentences-Sending ts (send_piece env cfg codec v p)
            (AllValidated-append p.sent _ h
              (guard_output-Validated (codec.str t) s v same checked, tt))
            (guard_output env cfg (codec.str t) s).1
            (guard_output-Keeps env cfg rules (λ s g. refl) (λ s n. refl) (codec.str t) s ∙ same) q
            done)

  on_event-Sending :
      (e : AgentEvent) (p : Progress)
      → AllValidated p.sent
      → Sending (on_event env cfg codec true e p)
  unfolding on_event
  on_event-Sending (done_event none) p h s same q done = sent_same p q h done
  on_event-Sending (done_event (some summary)) p h s same q done =
      sent_same (record p { summary = some summary }) q h done
  on_event-Sending (step_event kind call content) p h s same q done =
      sent_same _ q (AllValidated-append p.sent _ h tt) done
  on_event-Sending (text_event t) p h s same q done =
      send_sentences-Sending (push (codec.codes t) p.window).0
        (record p { window = (push (codec.codes t) p.window).1 }) h s same q done
  on_event-Sending (other_event kind) p h s same q done =
      sent_same _ q (AllValidated-append p.sent _ h tt) done

  event_loop-Sending :
      (es : List AgentEvent) (last : Option Error) (p : Progress)
      → AllValidated p.sent
      → Sending (event_loop env cfg codec true es last p)
  unfolding event_loop
  event_loop-Sending [] none p h s same = λ q done. sent_same p q h done
  event_loop-Sending [] (some e) p h s same = λ q done. absurd (cc done)
  event_loop-Sending (e ∷ es) last p h s same =
      and_then-ok (on_event env cfg codec true e p s) _ (λ q _. AllValidated q.sent)
        (λ p' handled q done.
          event_loop-Sending es last p' (on_event-Sending e p h s same p' handled)
            (on_event env cfg codec true e p s).1
            (on_event-Keeps env cfg codec rules (λ s g. refl) (λ s n. refl) true e p s ∙ same) q
            done)

  flush_window-Sending :
      (p : Progress) → AllValidated p.sent → Sending (flush_window env cfg codec true p)
  unfolding flush_window flush
  flush_window-Sending p h =
      send_sentences-Sending (residual_of env cfg codec p.window) (record p { window = [] }) h

  persist_stream-Sending :
      (turn_id : String) (summary : RunSummary) (p : Progress) (text : String) (s : ChatSession)
      (chunks : List TokenChunk)
      → AllValidated p.sent
      → (persist_stream env cfg codec turn_id summary p text s).0 ≡ ok chunks
      → AllValidated chunks
  unfolding persist_stream
  persist_stream-Sending turn_id summary p text s chunks h done =
      let steps = persist_events env cfg codec summary.run_id p.steps s in
      let turn = stream_turn env cfg codec turn_id summary text steps in
      let after = account env cfg summary.cost_usd (add_turn env cfg turn steps) in
      and_then-ok (enforce_budgets env cfg summary.cost_usd after) _ (λ cs _. AllValidated cs)
        (λ _ _ cs returned.
          subst AllValidated (unwrap cs returned) (AllValidated-append p.sent _ h tt))
        chunks done
    where
      unwrap :
          (cs : List TokenChunk)
          → ok (p.sent ++ summary_chunk summary ∷ []) ≡ ok cs
          → p.sent ++ summary_chunk summary ∷ [] ≡ cs
      unwrap cs e = cc e

module _ (env : Surroundings) (cfg : Settings) (codec : Codec) where
  of_turn : (s : ChatSession) (t : ChatTurn) → rules (add_turn env cfg t s) ≡ rules s
  unfolding add_turn
  of_turn s t = refl

  pub stream_per_token-validated :
      (agent : ℕ → String → List AgentEvent × Option Error) (message : String) (cancelled : Bool)
      (s : ChatSession) (chunks : List TokenChunk)
      → (stream_per_token env cfg codec agent true message cancelled s).0 ≡ ok chunks
      → AllValidated env cfg codec s chunks
  unfolding stream_per_token validated_text
  stream_per_token-validated agent message cancelled s =
      let R : List TokenChunk → ChatSession → Type 0 = λ cs _. AllValidated env cfg codec s cs in
      let p1 = guard_input env cfg message s in
      let k1 = guard_input-Keeps env cfg rules (λ s g. refl) (λ s n. refl) message s in
      and_then-ok p1 _ R (λ v _.
        let p2 = build_user_turn env cfg v p1.1 in
        let k2 =
          build_user_turn-Keeps env cfg rules (λ s g. refl) (λ s n. refl) (λ s n. refl) of_turn v
            p1.1
          ∙ k1 in
        and_then-ok p2 _ R (λ current _.
          let p3 = raise_if_set env cfg cancelled p2.1 in
          let k3 =
            raise_if_set-Keeps env cfg rules (λ s g. refl) (λ s n. refl) cancelled p2.1 ∙ k2 in
          and_then-ok p3 _ R (λ _ _.
            let p4 = compose_task env cfg current p3.1 in
            let k4 =
              compose_task-Keeps env cfg rules (λ s g. refl) (λ s n. refl) current p3.1 ∙ k3 in
            and_then-ok p4 _ R (λ task _.
              let s5 = (fresh_uuid env cfg codec p4.1).1 in
              let run = agent s5.runs task in
              let s6 = record s5 { runs = suc s5.runs } in
              let p7 = event_loop env cfg codec true run.0 run.1 no_progress s6 in
              let k7 =
                event_loop-Keeps env cfg codec rules (λ s g. refl) (λ s n. refl) true run.0 run.1
                  no_progress s6
                ∙ k4 in
              and_then-ok p7 _ R (λ p streamed.
                let p8 = flush_window env cfg codec true p p7.1 in
                and_then-ok p8 _ R (λ q flushed chunks done.
                  persist_stream-Sending env cfg codec s (env.uuid p4.1.ids)
                    (summary_of env cfg codec q (env.uuid p8.1.ids)) q (codec.str q.cumulative)
                    (fresh_uuid env cfg codec p8.1).1 chunks
                    (flush_window-Sending env cfg codec s p
                      (event_loop-Sending env cfg codec s run.0 run.1 no_progress tt s6 k4 p
                        streamed)
                      p7.1 k7 q flushed)
                    done))))))
