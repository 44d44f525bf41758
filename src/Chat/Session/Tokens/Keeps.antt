-- ===== src/Chat/Session/Tokens/Keeps.antt =====
-- What the parts of `_stream_per_token` of packages/agentforge-chat/src/agentforge_chat/session.py
-- leave as it was: any view of the session that the events of the engine and the clock do not show in.
use agentforge_py.Prelude.{
  ℕ, Bool, true, false, ◌≡◌, refl, Option, none, some, List, [], ◌∷◌, Error,
}
use agentforge_py.Guardrails.Engine.{Event}
use agentforge_py.Chat.Texts.{Text}
use agentforge_py.Chat.Window.{push}
use agentforge_py.Chat.Session.{Surroundings, Settings, ChatSession, guard_output}
use agentforge_py.Chat.Session.Keeps.{Keeps, chain-Keeps, guard_output-Keeps}
use agentforge_py.Chat.Session.Tokens.{
  RunSummary, AgentEvent, done_event, step_event, text_event, other_event, Codec, Progress,
  send_piece, send_sentences, on_event, event_loop, flush_window, validated_text,
}

module _ (env : Surroundings) (cfg : Settings) (codec : Codec) {V : Type 0} (view : ChatSession → V)
    (of_engine : (s : ChatSession) (events : List Event)
      → view (record s { engine = record s.engine { events = events } }) ≡ view s)
    (of_ticks : (s : ChatSession) (n : ℕ) → view (record s { ticks = n }) ≡ view s) where
  send_sentences-Keeps :
      (ts : List Text) (p : Progress) → Keeps view (send_sentences env cfg codec ts p)
  unfolding send_sentences
  send_sentences-Keeps [] p = λ s. refl
  send_sentences-Keeps (t ∷ ts) p =
      chain-Keeps view (guard_output env cfg (codec.str t)) _
        (guard_output-Keeps env cfg view of_engine of_ticks (codec.str t))
        (λ v. send_sentences-Keeps ts (send_piece env cfg codec v p))

  pub on_event-Keeps :
      (buffered : Bool) (e : AgentEvent) (p : Progress)
      → Keeps view (on_event env cfg codec buffered e p)
  unfolding on_event
  on_event-Keeps buffered (done_event none) p = λ s. refl
  on_event-Keeps buffered (done_event (some summary)) p = λ s. refl
  on_event-Keeps buffered (step_event kind call content) p = λ s. refl
  on_event-Keeps true (text_event t) p = send_sentences-Keeps (push (codec.codes t) p.window).0 _
  on_event-Keeps false (text_event t) p = λ s. refl
  on_event-Keeps buffered (other_event kind) p = λ s. refl

  pub event_loop-Keeps :
      (buffered : Bool) (es : List AgentEvent) (last : Option Error) (p : Progress)
      → Keeps view (event_loop env cfg codec buffered es last p)
  unfolding event_loop
  event_loop-Keeps buffered [] none p = λ s. refl
  event_loop-Keeps buffered [] (some e) p = λ s. refl
  event_loop-Keeps buffered (e ∷ es) last p =
      chain-Keeps view (on_event env cfg codec buffered e p) _ (on_event-Keeps buffered e p)
        (λ q. event_loop-Keeps buffered es last q)

  pub flush_window-Keeps :
      (buffered : Bool) (p : Progress) → Keeps view (flush_window env cfg codec buffered p)
  unfolding flush_window
  flush_window-Keeps false p = λ s. refl
  flush_window-Keeps true p = send_sentences-Keeps _ _

  pub validated_text-Keeps :
      (buffered : Bool) (summary : RunSummary) (p : Progress)
      → Keeps view (validated_text env cfg codec buffered summary p)
  unfolding validated_text
  validated_text-Keeps true summary p = λ s. refl
  validated_text-Keeps false summary p = guard_output-Keeps env cfg view of_engine of_ticks _
