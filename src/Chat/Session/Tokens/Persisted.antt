-- ===== src/Chat/Session/Tokens/Persisted.antt =====
-- The text that a buffered stream persists against the text that it sends.
use agentforge_py.Prelude.{
  ℕ, suc, Bool, true, ◌≡◌, refl, sym, subst, ◌∙◌, ap, Option, none, some, List, [], ◌∷◌, ◌++◌,
  String, Error, ok,
}
use mathlib.Core.List.{append_assoc, append-nil}
use agentforge_py.Chat.Texts.{Text}
use agentforge_py.Chat.Truncation.{Role, assistant}
use agentforge_py.Chat.Window.{push, flush}
use agentforge_py.Chat.Session.{
  Surroundings, Settings, ChatSession, Chatting, guard_input, guard_output, add_turn, new_turn,
  build_user_turn, compose_task,
}
use agentforge_py.Chat.Session.Keeps.{enforce_budgets_same}
use agentforge_py.Chat.Session.Turns.{transcript, transcript-add_turn, transcript-account}
use agentforge_py.Chat.Session.Exchange.{and_then-ok}
use agentforge_py.Chat.Session.Run.{raise_if_set, assistant_turn, account, enforce_budgets}
use agentforge_py.Chat.Session.Tokens.Validated.{AllValidated, stream_per_token-validated}
use agentforge_py.Chat.Session.Tokens.{
  RunSummary, AgentEvent, done_event, step_event, text_event, other_event, TokenChunk, piece_chunk,
  event_chunk, summary_chunk, Codec, Progress, no_progress, send_piece, send_sentences, on_event,
  event_loop, flush_window, residual_of, summary_of, fresh_uuid, stream_turn, validated_text,
  persist_events, persist_stream, stream_per_token,
}

-- The text of the validated pieces.
unfoldable pub pieces_of : List TokenChunk → Text
pieces_of [] = []
pieces_of (piece_chunk t sofar ∷ chunks) = t ++ pieces_of chunks
pieces_of (event_chunk e ∷ chunks) = pieces_of chunks
pieces_of (summary_chunk summary ∷ chunks) = pieces_of chunks

pieces_of-append : (xs ys : List TokenChunk) → pieces_of (xs ++ ys) ≡ pieces_of xs ++ pieces_of ys
unfolding pieces_of
pieces_of-append [] ys = refl
pieces_of-append (piece_chunk t sofar ∷ xs) ys =
    ap (λ u. t ++ u) (pieces_of-append xs ys) ∙ sym (append_assoc t (pieces_of xs) (pieces_of ys))
pieces_of-append (event_chunk e ∷ xs) ys = pieces_of-append xs ys
pieces_of-append (summary_chunk summary ∷ xs) ys = pieces_of-append xs ys

-- The cumulative text is that of the pieces that were sent.
abbrev Agrees : Progress → Type 0
Agrees p = pieces_of p.sent ≡ p.cumulative

no_progress-Agrees : Agrees no_progress
unfolding pieces_of
no_progress-Agrees = refl

Agrees-event :
    (p : Progress) (e : AgentEvent)
    → Agrees p
    → pieces_of (p.sent ++ event_chunk e ∷ []) ≡ p.cumulative
unfolding pieces_of
Agrees-event p e h =
    pieces_of-append p.sent (event_chunk e ∷ []) ∙ append-nil (pieces_of p.sent) ∙ h

module _ (env : Surroundings) (cfg : Settings) (codec : Codec) where
  -- Code that ends with an agreeing progress, whenever it ends without an exception.
  abbrev Agreeing : Chatting Progress → Type 0
  Agreeing m = (s : ChatSession) (q : Progress) → (m s).0 ≡ ok q → Agrees q

  same_progress : (p q : Progress) → ok p ≡ ok q → Agrees p → Agrees q
  same_progress p q h agrees = subst Agrees (unwrap h) agrees
    where
      unwrap : ok p ≡ ok q → p ≡ q
      unwrap e = cc e

  send_piece-Agrees :
      (validated : String) (p : Progress) → Agrees p → Agrees (send_piece env cfg codec validated p)
  unfolding pieces_of
  send_piece-Agrees validated p h =
      pieces_of-append p.sent _
      ∙ ap (λ t. pieces_of p.sent ++ t) (append-nil (codec.codes validated))
      ∙ ap (λ t. t ++ codec.codes validated) h

  send_sentences-Agrees :
      (ts : List Text) (p : Progress) → Agrees p → Agreeing (send_sentences env cfg codec ts p)
  unfolding send_sentences
  send_sentences-Agrees [] p h s = λ q done. same_progress p q done h
  send_sentences-Agrees (t ∷ ts) p h s =
      and_then-ok (guard_output env cfg (codec.str t) s) _ (λ q _. Agrees q)
        (λ validated checked q done.
          send_sentences-Agrees ts (send_piece env cfg codec validated p)
            (send_piece-Agrees validated p h) (guard_output env cfg (codec.str t) s).1 q done)

  on_event-Agrees :
      (e : AgentEvent) (p : Progress) → Agrees p → Agreeing (on_event env cfg codec true e p)
  unfolding on_event
  on_event-Agrees (done_event none) p h s q done = same_progress p q done h
  on_event-Agrees (done_event (some summary)) p h s q done =
      same_progress (record p { summary = some summary }) q done h
  on_event-Agrees (step_event kind call content) p h s q done =
      same_progress _ q done (Agrees-event p (step_event kind call content) h)
  on_event-Agrees (text_event t) p h s q done =
      send_sentences-Agrees (push (codec.codes t) p.window).0
        (record p { window = (push (codec.codes t) p.window).1 }) h s q done
  on_event-Agrees (other_event kind) p h s q done =
      same_progress _ q done (Agrees-event p (other_event kind) h)

  event_loop-Agrees :
      (es : List AgentEvent) (last : Option Error) (p : Progress)
      → Agrees p
      → Agreeing (event_loop env cfg codec true es last p)
  unfolding event_loop
  event_loop-Agrees [] none p h s = λ q done. same_progress p q done h
  event_loop-Agrees [] (some e) p h s = λ q done. absurd (cc done)
  event_loop-Agrees (e ∷ es) last p h s =
      and_then-ok (on_event env cfg codec true e p s) _ (λ q _. Agrees q)
        (λ p' handled q done.
          event_loop-Agrees es last p' (on_event-Agrees e p h s p' handled)
            (on_event env cfg codec true e p s).1 q done)

  flush_window-Agrees : (p : Progress) → Agrees p → Agreeing (flush_window env cfg codec true p)
  unfolding flush_window flush
  flush_window-Agrees p h =
      send_sentences-Agrees (residual_of env cfg codec p.window) (record p { window = [] }) h

  -- The last turn of the session is the assistant's, with the text of the pieces that were sent.
  abbrev pub EndsWithSent : List TokenChunk → ChatSession → Type 0
  EndsWithSent chunks t =
      (before : List (Role × String)) × (transcript env cfg t
        ≡ before ++ (assistant, codec.str (pieces_of chunks)) ∷ [])

  sent_text_of :
      (p : Progress) (summary : RunSummary) (chunks : List TokenChunk)
      → Agrees p
      → ok (p.sent ++ summary_chunk summary ∷ []) ≡ ok chunks
      → pieces_of chunks ≡ p.cumulative
  unfolding pieces_of
  sent_text_of p summary chunks h done =
      ap pieces_of (unwrap done)
      ∙ pieces_of-append p.sent (summary_chunk summary ∷ [])
      ∙ append-nil (pieces_of p.sent)
      ∙ h
    where
      unwrap :
          ok (p.sent ++ summary_chunk summary ∷ []) ≡ ok chunks
          → chunks ≡ p.sent ++ summary_chunk summary ∷ []
      unwrap e = cc e

  persist_stream-sent :
      (turn_id : String) (summary : RunSummary) (p : Progress)
      → Agrees p
      → (s : ChatSession) (chunks : List TokenChunk)
      → (persist_stream env cfg codec turn_id summary p (codec.str p.cumulative) s).0 ≡ ok chunks
      → EndsWithSent chunks
          (persist_stream env cfg codec turn_id summary p (codec.str p.cumulative) s).1
  unfolding persist_stream assistant_turn new_turn
  persist_stream-sent turn_id summary p h s =
      let steps = persist_events env cfg codec summary.run_id p.steps s in
      let turn = stream_turn env cfg codec turn_id summary (codec.str p.cumulative) steps in
      let after = account env cfg summary.cost_usd (add_turn env cfg turn steps) in
      and_then-ok (enforce_budgets env cfg summary.cost_usd after) _ EndsWithSent
        (λ _ _ chunks done. (
          transcript env cfg steps,
          ap (transcript env cfg) (enforce_budgets_same env cfg summary.cost_usd after)
              ∙ transcript-account env cfg summary.cost_usd (add_turn env cfg turn steps)
              ∙ transcript-add_turn env cfg turn steps refl
              ∙ ap (λ t. transcript env cfg steps ++ (assistant, codec.str t) ∷ [])
                  (sym (sent_text_of p summary chunks h done)),
        ))

  stream_per_token-ends :
      (agent : ℕ → String → List AgentEvent × Option Error) (message : String) (cancelled : Bool)
      (s : ChatSession) (chunks : List TokenChunk)
      → (stream_per_token env cfg codec agent true message cancelled s).0 ≡ ok chunks
      → EndsWithSent chunks (stream_per_token env cfg codec agent true message cancelled s).1
  unfolding stream_per_token validated_text
  stream_per_token-ends agent message cancelled s =
      let R = EndsWithSent in
      let p1 = guard_input env cfg message s in
      and_then-ok p1 _ R (λ v _.
        let p2 = build_user_turn env cfg v p1.1 in
        and_then-ok p2 _ R (λ current _.
          let p3 = raise_if_set env cfg cancelled p2.1 in
          and_then-ok p3 _ R (λ _ _.
            let p4 = compose_task env cfg current p3.1 in
            and_then-ok p4 _ R (λ task _.
              let s5 = (fresh_uuid env cfg codec p4.1).1 in
              let run = agent s5.runs task in
              let s6 = record s5 { runs = suc s5.runs } in
              let p7 = event_loop env cfg codec true run.0 run.1 no_progress s6 in
              and_then-ok p7 _ R (λ p streamed.
                let p8 = flush_window env cfg codec true p p7.1 in
                and_then-ok p8 _ R (λ q flushed.
                  persist_stream-sent (env.uuid p4.1.ids)
                    (summary_of env cfg codec q (env.uuid p8.1.ids)) q
                    (flush_window-Agrees p
                      (event_loop-Agrees run.0 run.1 no_progress no_progress-Agrees s6 p streamed)
                      p7.1 q flushed)
                    (fresh_uuid env cfg codec p8.1).1))))))

  -- When a buffered stream ends without an exception, every piece that was sent is what the session's
  -- output stage returned for some text, under the validators and the policy that the session had; and
  -- the session's last turn is the assistant's, with the text of those pieces, one behind the other.
  pub stream_per_token-sent :
      (agent : ℕ → String → List AgentEvent × Option Error) (message : String) (cancelled : Bool)
      (s : ChatSession) (chunks : List TokenChunk)
      → (stream_per_token env cfg codec agent true message cancelled s).0 ≡ ok chunks
      → AllValidated env cfg codec s chunks
        × EndsWithSent chunks (stream_per_token env cfg codec agent true message cancelled s).1
  stream_per_token-sent agent message cancelled s chunks done = (
    stream_per_token-validated env cfg codec agent message cancelled s chunks done,
    stream_per_token-ends agent message cancelled s chunks done,
  )
