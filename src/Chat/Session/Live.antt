-- ===== src/Chat/Session/Live.antt =====
-- `_stream_impl` of packages/agentforge-chat/src/agentforge_chat/session.py for a strategy that has
-- its own stream.
use agentforge_py.Prelude.{
  ℕ, suc, Bool, ◌≡◌, refl, ◌∙◌, ap, Option, none, some, List, String, if◌then◌else◌, Error, Result,
  ok, err, Bool-cases, inl, inr,
}
use agentforge_py.Production.Errors.{caught_by}
use agentforge_py.Strategies.Base.{Step}
use agentforge_py.Chat.Truncation.{ChatTurn}
use agentforge_py.Chat.Idempotency.{IdempotencyCache}
use agentforge_py.Chat.Session.{
  ChatResponse, Surroundings, Settings, ChatSession, Chatting, guard_input, add_turn,
  build_user_turn, compose_task,
}
use agentforge_py.Chat.Session.Keeps.{
  Keeps, chain-Keeps, and_then-Keeps, guard_input-Keeps, raise_if_set-Keeps, compose_task-Keeps,
  build_user_turn-Keeps, step_loop-keeps, enforce_budgets_same,
}
use agentforge_py.Chat.Session.Tokens.Keeps.{
  event_loop-Keeps, flush_window-Keeps, validated_text-Keeps,
}
use agentforge_py.Chat.Session.Run.{
  check_cache, ChatChunk, error_chunk, chunks_for, shown_errors, raise_if_set, enforce_budgets,
  account,
}
use agentforge_py.Chat.Session.Tokens.{
  RunSummary, AgentEvent, TokenChunk, Codec, Progress, no_progress, event_loop, flush_window,
  summary_of, validated_text, persist_events, stream_turn, persist_stream, stream_per_token,
  fresh_uuid,
}

-- How a stream ends: with the chunks of a cached answer, with all of the agent's chunks, or cut short
-- by an exception that is shown as a last chunk. The chunks sent before that one are not kept here.
pub data LiveStream : Type 0 where
  from_cache : List ChatChunk → LiveStream
  complete : List TokenChunk → LiveStream
  cut_short : ChatChunk → LiveStream

module _ (env : Surroundings) (cfg : Settings) (codec : Codec) where
  -- The exceptions that are shown become a chunk.
  abbrev pub live_chunks : Result (List TokenChunk) × ChatSession → Result LiveStream × ChatSession
  live_chunks (ok chunks, s) = (ok (complete chunks), s)
  live_chunks (err e, s) =
      if caught_by shown_errors e
      then (ok (cut_short (error_chunk (env.uuid s.ids) e)), (fresh_uuid env cfg codec s).1)
      else (err e, s)

  abbrev pub live_unless_cached :
      (ℕ → String → List AgentEvent × Option Error)
      → Bool
      → String
      → Bool
      → Option ChatResponse × ChatSession
      → Result LiveStream × ChatSession
  live_unless_cached agent buffered message cancelled (some response, s) =
      (ok (from_cache (chunks_for codec.codes response)), s)
  live_unless_cached agent buffered message cancelled (none, s) =
      live_chunks (stream_per_token env cfg codec agent buffered message cancelled s)

  unfoldable pub stream_live :
      (ℕ → String → List AgentEvent × Option Error)
      → Bool
      → String
      → Option String
      → Bool
      → Chatting LiveStream
  stream_live agent buffered message key cancelled s =
      live_unless_cached agent buffered message cancelled (check_cache env cfg key s)

  abbrev cache_view : ChatSession → IdempotencyCache ChatResponse
  cache_view s = s.idempotency

  add_turn_cache :
      (s : ChatSession) (t : ChatTurn) → cache_view (add_turn env cfg t s) ≡ cache_view s
  unfolding add_turn
  add_turn_cache s t = refl

  persist_events_cache :
      (run : String) (steps : List Step) (s : ChatSession)
      → cache_view (persist_events env cfg codec run steps s) ≡ cache_view s
  unfolding persist_events
  persist_events_cache run steps s = elim (Bool-cases cfg.persist_steps) [
    | inl on ↦ simp (on) (
        step_loop-keeps env cfg cache_view (λ t g. refl) (λ t n. refl) (λ t n. refl) add_turn_cache
          run steps s)
    | inr off ↦ simp (off) refl
  ]

  persist_stream-cache :
      (turn_id : String) (summary : RunSummary) (p : Progress) (text : String)
      → Keeps cache_view (persist_stream env cfg codec turn_id summary p text)
  unfolding persist_stream account add_turn
  persist_stream-cache turn_id summary p text s =
      let steps = persist_events env cfg codec summary.run_id p.steps s in
      let turn = stream_turn env cfg codec turn_id summary text steps in
      let after = account env cfg summary.cost_usd (add_turn env cfg turn steps) in
      and_then-Keeps cache_view (enforce_budgets env cfg summary.cost_usd after) _ (λ _ t. refl)
      ∙ ap cache_view (enforce_budgets_same env cfg summary.cost_usd after)
      ∙ persist_events_cache summary.run_id p.steps s

  stream_per_token-cache :
      (agent : ℕ → String → List AgentEvent × Option Error) (buffered : Bool) (message : String)
      (cancelled : Bool)
      → Keeps cache_view (stream_per_token env cfg codec agent buffered message cancelled)
  unfolding stream_per_token
  stream_per_token-cache agent buffered message cancelled =
      let view = cache_view in
      chain-Keeps view (guard_input env cfg message) _
        (guard_input-Keeps env cfg view (λ s g. refl) (λ s n. refl) message)
        (λ v.
          chain-Keeps view (build_user_turn env cfg v) _
            (build_user_turn-Keeps env cfg view (λ s g. refl) (λ s n. refl) (λ s n. refl)
              add_turn_cache v)
            (λ current.
              chain-Keeps view (raise_if_set env cfg cancelled) _
                (raise_if_set-Keeps env cfg view (λ s g. refl) (λ s n. refl) cancelled)
                (λ _.
                  chain-Keeps view (compose_task env cfg current) _
                    (compose_task-Keeps env cfg view (λ s g. refl) (λ s n. refl) current)
                    (λ task. λ s.
                      let s5 = (fresh_uuid env cfg codec s).1 in
                      let run = agent s5.runs task in
                      let s6 = record s5 { runs = suc s5.runs } in
                      let p7 = event_loop env cfg codec buffered run.0 run.1 no_progress s6 in
                      and_then-Keeps view p7 _ (λ p t.
                        and_then-Keeps view (flush_window env cfg codec buffered p t) _ (λ q u.
                          let fresh = env.uuid u.ids in
                          let u9 = (fresh_uuid env cfg codec u).1 in
                          let summary = summary_of env cfg codec q fresh in
                          and_then-Keeps view (validated_text env cfg codec buffered summary q u9) _
                            (λ text. persist_stream-cache (env.uuid s.ids) summary q text)
                          ∙ validated_text-Keeps env cfg codec cache_view (λ s g. refl)
                              (λ s n. refl) buffered summary q u9)
                        ∙ flush_window-Keeps env cfg codec cache_view (λ s g. refl) (λ s n. refl)
                            buffered p t)
                      ∙ event_loop-Keeps env cfg codec cache_view (λ s g. refl) (λ s n. refl)
                          buffered run.0 run.1 no_progress s6))))

  live_unless_cached-cache :
      (agent : ℕ → String → List AgentEvent × Option Error) (buffered : Bool) (message : String)
      (cancelled : Bool) (p : Option ChatResponse × ChatSession)
      → cache_view (live_unless_cached agent buffered message cancelled p).1 ≡ cache_view p.1
  live_unless_cached-cache agent buffered message cancelled (some response, s) = refl
  live_unless_cached-cache agent buffered message cancelled (none, s) =
      shown (stream_per_token env cfg codec agent buffered message cancelled s)
      ∙ stream_per_token-cache agent buffered message cancelled s
    where
      shown_if :
          (e : Error) (t : ChatSession) → cache_view (live_chunks (err e, t)).1 ≡ cache_view t
      shown_if e t = elim (Bool-cases (caught_by shown_errors e)) [
        | inl caught ↦ rw (caught, live_chunks) refl
        | inr raised ↦ rw (raised, live_chunks) refl
      ]

      shown :
          (r : Result (List TokenChunk) × ChatSession)
          → cache_view (live_chunks r).1 ≡ cache_view r.1
      shown (ok chunks, t) = refl
      shown (err e, t) = shown_if e t

  -- A per-token stream never stores its answer: the cache is what the lookup of the key left, however
  -- the stream ends, so that a key that is not in it runs the agent every time.
  stream_live-cache :
      (agent : ℕ → String → List AgentEvent × Option Error) (buffered : Bool) (message : String)
      (key : Option String) (cancelled : Bool) (s : ChatSession)
      → (stream_live agent buffered message key cancelled s).1.idempotency
        ≡ (check_cache env cfg key s).1.idempotency
  unfolding stream_live
  stream_live-cache agent buffered message key cancelled s =
      live_unless_cached-cache agent buffered message cancelled (check_cache env cfg key s)
