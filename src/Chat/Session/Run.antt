-- ===== src/Chat/Session/Run.antt =====
-- `send`, `reset`, `close` and the buffered chunks of `ChatSession`
-- (packages/agentforge-chat/src/agentforge_chat/session.py).
use agentforge_py.Prelude.{
  ℕ, suc, ◌+◌, ◌-◌, Bool, true, false, ◌||◌, Option, none, some, List, [], ◌∷◌, ◌++◌, String, ltb,
  if◌then◌else◌, Error, Result, ok, err, budget_exceeded, guardrail_violation,
}
use agentforge_py.Production.Errors.{caught_by}
use agentforge_py.Chat.Truncation.{assistant, ChatTurn}
use agentforge_py.Chat.History.{
  MetaValue, no_value, text_value, number_value, delete_session, update_session_metadata,
}
use agentforge_py.Chat.Idempotency.{get, put}
use agentforge_py.Strategies.Base.{ToolCall}
use agentforge_py.Chat.Texts.{Text}
use agentforge_py.Chat.Segment.{segment_for_stream}
use agentforge_py.Chat.Session.{
  RunResult, ChatResponse, Surroundings, Settings, ChatSession, Chatting, ◌>>=◌, return,
  guard_input, guard_output, read_clock, new_turn, add_turn, build_user_turn, compose_task,
  run_agent, step_loop,
}

-- `budget is not None and cost > budget`
abbrev pub over : Option ℕ → ℕ → Bool
over none cost = false
over (some budget) cost = ltb budget cost

abbrev owner_value : Option String → MetaValue
owner_value none = no_value
owner_value (some owner) = text_value owner

abbrev pub cancelled_error : Error
cancelled_error = package.agentforge_py.Prelude.Error.base_exception "CancelledError"

module _ (env : Surroundings) (cfg : Settings) where
  unfoldable pub persist_steps : RunResult → Chatting (List ToolCall)
  persist_steps result s =
      if cfg.persist_steps
      then (let (calls, s') = step_loop env cfg result.run_id result.steps s in (ok calls, s'))
      else (ok [], s)

  unfoldable pub assistant_turn : String → RunResult → ChatSession → ChatTurn
  assistant_turn text result s = record (new_turn env cfg assistant text s) {
    run_id = some result.run_id;
    tokens_in = result.tokens_in;
    tokens_out = result.tokens_out;
    cost_usd = result.cost_usd;
  }

  -- The counters and the session's metadata, after the turn was added.
  unfoldable pub account : ℕ → ChatSession → ChatSession
  account cost s = record s {
    total_cost = s.total_cost + cost;
    turn_count = suc s.turn_count;
    history =
        update_session_metadata (env.utc_now s.ticks) cfg.session_id
          (("owner", owner_value cfg.owner)
            ∷ ("total_cost_usd", number_value (s.total_cost + cost))
            ∷ [])
          s.history;
    ticks = suc s.ticks;
  }

  unfoldable pub persist_assistant : String → RunResult → Chatting ChatTurn
  persist_assistant text result s =
      let t = assistant_turn text result s in (ok t, account result.cost_usd (add_turn env cfg t s))

  unfoldable pub enforce_budgets : ℕ → Chatting (Unit {0})
  enforce_budgets cost s =
      if over cfg.per_turn_budget cost || over cfg.per_session_budget s.total_cost
      then (err budget_exceeded, s)
      else (ok tt, s)

  abbrev pub raise_if_set : Bool → Chatting (Unit {0})
  raise_if_set true s = (err cancelled_error, s)
  raise_if_set false s = (ok tt, s)

  unfoldable pub response_of : List ToolCall → ChatTurn → RunResult → ℕ → String → ChatResponse
  response_of calls turn result duration text = record {
    content = text;
    turn_id = turn.id;
    run_id = result.run_id;
    tool_calls = calls;
    tokens_in = result.tokens_in;
    tokens_out = result.tokens_out;
    cost_usd = result.cost_usd;
    duration = duration;
    finish_reason = result.finish_reason;
  }

  -- From the validated answer on.
  unfoldable pub conclude : RunResult → ℕ → String → Chatting ChatResponse
  conclude result duration text = do
    calls ← persist_steps result
    turn ← persist_assistant text result
    _ ← enforce_budgets result.cost_usd
    return (response_of calls turn result duration text)

  unfoldable pub run_turn : String → Bool → Chatting ChatResponse
  run_turn message cancelled = do
    validated ← guard_input env cfg message
    current ← build_user_turn env cfg validated
    _ ← raise_if_set cancelled
    task ← compose_task env cfg current
    start ← read_clock env cfg
    result ← run_agent env cfg task
    end ← read_clock env cfg
    text ← guard_output env cfg result.output
    conclude result (end - start) text

  -- The clock counts as read also where the key is not there and the code does not look at it.
  unfoldable pub check_cache : Option String → ChatSession → Option ChatResponse × ChatSession
  check_cache none s = (none, s)
  check_cache (some key) s =
      let (cached, cache) = get (env.monotonic s.ticks) cfg.session_id key s.idempotency in
      (cached, record s { idempotency = cache; ticks = suc s.ticks })

  unfoldable pub stash_cache : Option String → ChatResponse → ChatSession → ChatSession
  stash_cache none response s = s
  stash_cache (some key) response s = record s {
    idempotency = put (env.monotonic s.ticks) cfg.session_id key response s.idempotency;
    ticks = suc s.ticks;
  }

  abbrev pub stash_ok :
      Option String → Result ChatResponse × ChatSession → Result ChatResponse × ChatSession
  stash_ok key (err e, s) = (err e, s)
  stash_ok key (ok response, s) = (ok response, stash_cache key response s)

  abbrev pub unless_cached :
      String
      → Option String
      → Bool
      → Option ChatResponse × ChatSession
      → Result ChatResponse × ChatSession
  unless_cached message key cancelled (some response, s) = (ok response, s)
  unless_cached message key cancelled (none, s) = stash_ok key (run_turn message cancelled s)

  unfoldable pub send : String → Option String → Bool → Chatting ChatResponse
  send message key cancelled s = unless_cached message key cancelled (check_cache key s)

  unfoldable pub reset : ChatSession → ChatSession
  reset s = record s {
    history = (delete_session cfg.session_id s.history).1;
    total_cost = 0;
    turn_count = 0;
  }

-- `InMemoryChatHistory.close` does nothing.
unfoldable pub close : ChatSession → ChatSession
close s = if s.closed then s else record s { closed = true }

-- A text chunk with the text so far; the last chunk, with the run, its cost and its tokens; or an
-- exception.
pub data ChatChunk : Type 0 where
  text_chunk : Text → Text → String → ChatChunk
  done_chunk : String → String → ℕ → ℕ → ℕ → ChatChunk
  error_chunk : String → Error → ChatChunk

abbrev pub text_chunks : String → Text → List Text → List ChatChunk
text_chunks turn sent [] = []
text_chunks turn sent (piece ∷ pieces) =
    text_chunk piece (sent ++ piece) turn ∷ text_chunks turn (sent ++ piece) pieces

-- `_chunks_for`; `codes` gives the characters of a text.
unfoldable pub chunks_for : (String → Text) → ChatResponse → List ChatChunk
chunks_for codes r =
    text_chunks r.turn_id [] (segment_for_stream (codes r.content))
    ++ done_chunk r.turn_id r.run_id r.cost_usd r.tokens_in r.tokens_out ∷ []

abbrev pub shown_errors : List Error
shown_errors = budget_exceeded ∷ guardrail_violation ∷ cancelled_error ∷ []

-- `stream` of a strategy without a stream of its own: the chunks of what `send` answers, and the
-- exceptions that become a chunk.
module _ (env : Surroundings) (cfg : Settings) (codes : String → Text) where
  unfoldable pub chunks_of :
      Result ChatResponse × ChatSession → Result (List ChatChunk) × ChatSession
  chunks_of (ok response, s) = (ok (chunks_for codes response), s)
  chunks_of (err e, s) =
      if caught_by shown_errors e
      then (ok (error_chunk (env.uuid s.ids) e ∷ []), record s { ids = suc s.ids })
      else (err e, s)

  abbrev pub stream_unless_cached :
      String
      → Option String
      → Bool
      → Option ChatResponse × ChatSession
      → Result (List ChatChunk) × ChatSession
  stream_unless_cached message key cancelled (some response, s) =
      (ok (chunks_for codes response), s)
  stream_unless_cached message key cancelled (none, s) =
      chunks_of (stash_ok env cfg key (run_turn env cfg message cancelled s))

  unfoldable pub stream : String → Option String → Bool → Chatting (List ChatChunk)
  stream message key cancelled s =
      stream_unless_cached message key cancelled (check_cache env cfg key s)
