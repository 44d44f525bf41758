-- ===== src/Chat/Tests.antt =====
-- A small session, a cache, a history and a buffer, and the theorems at them.
use agentforge_py.Prelude.{
  ◌==◌, eqb, if◌then◌else◌, length, ℕ, ◌+◌, true, false, Option, none, some, List, [], ◌∷◌, ◌++◌,
  String, ◌≡◌, refl, ok, err, All, budget_exceeded, arith, ◌⊎◌,
}
use agentforge_py.Guardrails.Engine.{warn, check_input, check_output, run_stage}
use agentforge_py.Strategies.Base.{ToolCall, Step, Content, text_of, act, observe}
use agentforge_py.Chat.Texts.{Text, visible, concat, is_terminator, is_space}
use agentforge_py.Chat.Segment.{segment_for_stream, split_sentences, split_long}
use agentforge_py.Chat.Segment.Pieces.{IsPiece, segment_for_stream-IsPiece}
use agentforge_py.Chat.Window.{push_all, flush, push, push_loop, find_cut, boundary}
use agentforge_py.Chat.Window.Conserved.{push_all-visible}
use agentforge_py.Chat.Truncation.{
  user, assistant, ChatTurn, sliding_window, select, select_window, keep_pair_atomic, keep_from,
}
use agentforge_py.Chat.History.{
  empty_history, turns_of, append, load, sort_by, insert_by, doomed, expire_before,
  update_session_metadata,
}
use agentforge_py.Chat.History.Sessions.{
  expire_before-lem, append_op, expire_op, apply_all, IsRegistered, apply_all-IsRegistered,
}
use agentforge_py.Chat.Idempotency.{
  Entry, IdempotencyCache, get, put, put_all, find_entry, without_entry, evict,
}
use agentforge_py.Chat.Idempotency.Recency.{get-put_all}
use agentforge_py.Chat.Session.{
  step_text, RunResult, ChatResponse, Surroundings, Settings, ChatSession, guard_input,
  guard_output, read_clock, new_turn, add_turn, build_user_turn, compose_task, run_agent,
  turn_of_step, step_loop,
}
use agentforge_py.Chat.Session.Run.{
  conclude, run_turn, send, reset, check_cache, stash_cache, persist_steps, assistant_turn, account,
  persist_assistant, enforce_budgets, response_of, stream, chunks_of, chunks_for,
}
use agentforge_py.Chat.Session.Caching.{send-again, reset-hit}
use agentforge_py.Chat.Session.Exchange.{Exchanged, run_turn-lem, conclude-lem, facts, exceeded}
use agentforge_py.Chat.Session.Turns.{transcript, shown_result}
use agentforge_py.Chat.Session.Tokens.{
  Codec, TokenChunk, piece_chunk, summary_chunk, text_event, stream_per_token, event_loop, on_event,
  send_sentences, flush_window, validated_text, persist_stream, persist_events,
}
use agentforge_py.Chat.Session.Tokens.Validated.{AllValidated}
use agentforge_py.Chat.Session.Tokens.Persisted.{EndsWithSent, stream_per_token-sent}
use agentforge_py.Chat.Session.Streaming.{sent_text, stream-send}
use agentforge_py.Prelude.Dict.{lookup, insert}

abbrev call : ToolCall
call = record { id = "c"; name = "ls"; arguments = "{}" }

abbrev step_of : package.agentforge_py.Strategies.Base.StepKind → Step
step_of kind = record {
  iteration = 0;
  kind = kind;
  content = text_of "step";
  tokens_in = 1;
  tokens_out = 1;
  cost_usd = 1;
  tool_call = some call;
}

abbrev result : RunResult
result = record {
  output = "done";
  run_id = "r";
  steps = step_of act ∷ step_of observe ∷ [];
  tokens_in = 2;
  tokens_out = 3;
  cost_usd = 4;
  finish_reason = "completed";
}

abbrev env : Surroundings
env = record {
  run = λ n task. ok result;
  uuid = λ n. "id";
  monotonic = λ n. n;
  utc_now = λ n. n;
  hash = λ s. s;
  dumps = λ c. "step";
}

abbrev settings : Option ℕ → Settings
settings budget = record {
  session_id = "s";
  system_prompt = none;
  truncation = sliding_window 50;
  owner = none;
  per_turn_budget = budget;
  per_session_budget = none;
  persist_steps = true;
  has_hook = false;
}

abbrev session : ChatSession
session = record {
  engine = record {
    inputs = [];
    outputs = [];
    gates = [];
    policy = record {
      on_input_violation = warn;
      on_output_violation = warn;
      on_tool_violation = warn;
      fail_open = false;
    };
    events = [];
  };
  history = empty_history;
  idempotency = record { ttl = 60; max_entries = 256; store = [] };
  total_cost = 0;
  turn_count = 0;
  closed = false;
  ids = 0;
  ticks = 0;
  runs = 0;
  hooked = [];
}

abbrev answer : ChatResponse
answer = record {
  content = "done";
  turn_id = "id";
  run_id = "r";
  tool_calls = call ∷ [];
  tokens_in = 2;
  tokens_out = 3;
  cost_usd = 4;
  duration = 1;
  finish_reason = "completed";
}

run_turn-session : (run_turn env (settings none) "hi" false session).0 ≡ ok answer
unfolding run_turn guard_input guard_output check_input check_output run_stage build_user_turn
    add_turn compose_task select select_window keep_pair_atomic keep_from load sort_by insert_by
    turns_of append read_clock run_agent conclude persist_steps step_loop turn_of_step step_text
    new_turn persist_assistant assistant_turn account enforce_budgets response_of
    update_session_metadata lookup insert
run_turn-session = refl

run_turn-lem_example :
    Exchanged env
      (settings none)
      "hi"
      session
      answer
      (run_turn env (settings none) "hi" false session).1
run_turn-lem_example = run_turn-lem env (settings none) "hi" false session answer run_turn-session

abbrev tight : Settings
tight = settings (some 3)

-- The run costs more than the turn may: the answer is recorded all the same.
conclude-lem_example :
    (facts env tight (conclude env tight result 1 "done" session).1 ≡ (
      transcript env tight session ++ (shown_result env tight result ++ (assistant, "done") ∷ []),
      (0 + 4, 1, 0),
    ))
    × ((exceeded env tight 4 (0 + 4) ≡ true
          × (conclude env tight result 1 "done" session).0 ≡ err budget_exceeded)
        ⊎ (exceeded env tight 4 (0 + 4) ≡ false
            × ((r : ChatResponse) × (((conclude env tight result 1 "done" session).0 ≡ ok r)
                  × ((r.content ≡ "done") × (r.cost_usd ≡ 4))))))
conclude-lem_example = conclude-lem env tight result 1 "done" session

abbrev sent : ChatSession → ChatSession
sent s = (send env (settings none) "hi" (some "k") false s).1

send-again_example :
    (send env (settings none) "other" (some "k") false (sent session)).0 ≡ ok answer
unfolding send check_cache stash_cache get put find_entry without_entry evict run_turn guard_input
    guard_output check_input check_output run_stage build_user_turn add_turn compose_task select
    select_window keep_pair_atomic keep_from load sort_by insert_by turns_of append read_clock
    run_agent conclude persist_steps step_loop turn_of_step step_text new_turn persist_assistant
    assistant_turn account enforce_budgets response_of update_session_metadata lookup insert
send-again_example =
    (send-again env (settings none) "hi" "other" "k" false false session (sent session) answer refl
      refl (omega arith) (omega arith)).0

abbrev one_entry : Entry ChatResponse
one_entry = record { session_id = "s"; key = "k"; stamp = 0; value = answer }

abbrev cached : ChatSession
cached = record session {
  idempotency = record { ttl = 60; max_entries = 256; store = one_entry ∷ [] };
}

reset-hit_example :
    (send env (settings none) "hi" (some "k") false (reset env (settings none) cached)).0
    ≡ ok answer
unfolding check_cache get find_entry
reset-hit_example = (reset-hit env (settings none) "hi" "k" false cached answer refl).0

abbrev codes : String → Text
codes t = b'O' ∷ b'k' ∷ b'.' ∷ b' ' ∷ b'G' ∷ b'o' ∷ []

stream-send_example :
    (stream env (settings none) codes "hi" none false session
      ≡ chunks_of env (settings none) codes (send env (settings none) "hi" none false session))
    × (visible (sent_text (chunks_for codes answer)) ≡ visible (codes "done"))
stream-send_example = stream-send env (settings none) codes "hi" none false session answer

-- The space between two sentences is not sent.
chunks-space : sent_text (chunks_for codes answer) ≡ b'O' ∷ b'k' ∷ b'.' ∷ b'G' ∷ b'o' ∷ []
unfolding sent_text chunks_for segment_for_stream split_sentences split_long is_terminator is_space
chunks-space = refl

abbrev small : IdempotencyCache ℕ
small = record { ttl = 5; max_entries = 2; store = [] }

get-put_all_example :
    (get 6 "s" "k" (put_all ((2, ("s", ("j", 8))) ∷ []) (put 1 "s" "k" 7 small))).0 ≡ some 7
get-put_all_example =
    get-put_all 1 6 "s" "k" 7 ((2, ("s", ("j", 8))) ∷ []) small (refl, tt) (omega arith)

abbrev turn_at : String → ℕ → ChatTurn
turn_at s at = record {
  id = "t";
  session_id = s;
  role = user;
  content = "hi";
  timestamp = at;
  run_id = none;
  tool_calls = [];
  tool_call_id = none;
  tokens_in = 0;
  tokens_out = 0;
  cost_usd = 0;
}

expire_before-lem_example :
    turns_of "old"
      (expire_before 3 (append 5 (turn_at "new" 5) (append 1 (turn_at "old" 1) empty_history))).1
    ≡ []
unfolding append turns_of doomed lookup insert
expire_before-lem_example =
    (expire_before-lem 3 "old"
      (append 5 (turn_at "new" 5) (append 1 (turn_at "old" 1) empty_history))).1

apply_all-IsRegistered_example : IsRegistered "s" (
    apply_all
      (append_op 1 (turn_at "s" 1) ∷ expire_op 2 ∷ append_op 3 (turn_at "s" 3) ∷ [])
      empty_history)
apply_all-IsRegistered_example =
    apply_all-IsRegistered
      (append_op 1 (turn_at "s" 1) ∷ expire_op 2 ∷ append_op 3 (turn_at "s" 3) ∷ []) "s"

abbrev pushed : List Text
pushed = (b'H' ∷ b'i' ∷ b'.' ∷ []) ∷ (b' ' ∷ b'Y' ∷ []) ∷ []

push_all-visible_example :
    (visible (concat (push_all pushed []).0) ++ visible (flush (push_all pushed []).1).0
      ≡ visible (b'H' ∷ b'i' ∷ b'.' ∷ b' ' ∷ b'Y' ∷ []))
    × ((flush (push_all pushed []).1).1 ≡ [])
push_all-visible_example = push_all-visible pushed []

segment_for_stream-IsPiece_example : All IsPiece (segment_for_stream (codes "x"))
segment_for_stream-IsPiece_example = segment_for_stream-IsPiece (codes "x")

-- The texts of the stream `Ok. Go` and of its sentences.
abbrev codec : Codec
codec = record {
  codes = λ t.
      if t == "Ok."
      then b'O' ∷ b'k' ∷ b'.' ∷ []
      else (if t == "Go" then b'G' ∷ b'o' ∷ [] else b'O' ∷ b'k' ∷ b'.' ∷ b' ' ∷ b'G' ∷ b'o' ∷ []);
  str = λ t. if eqb (length t) 3 then "Ok." else (if eqb (length t) 2 then "Go" else "Ok.Go");
}

abbrev ok_go : List TokenChunk
ok_go =
    piece_chunk (b'O' ∷ b'k' ∷ b'.' ∷ []) (b'O' ∷ b'k' ∷ b'.' ∷ [])
    ∷ piece_chunk (b'G' ∷ b'o' ∷ []) (b'O' ∷ b'k' ∷ b'.' ∷ b'G' ∷ b'o' ∷ [])
    ∷ summary_chunk (record {
      output = some "Ok.Go";
      run_id = "id";
      tokens_in = 0;
      tokens_out = 0;
      cost_usd = 0;
    })
    ∷ []

stream_per_token-sent_example :
    AllValidated env (settings none) codec session ok_go
    × EndsWithSent env
        (settings none)
        codec
        ok_go
        (stream_per_token env
          (settings none)
          codec
          (λ n task. (text_event "Ok. Go" ∷ [], none))
          true
          "hi"
          false
          session).1
unfolding run_turn guard_input guard_output check_input check_output run_stage build_user_turn
    add_turn compose_task select select_window keep_pair_atomic keep_from load sort_by insert_by
    turns_of append read_clock run_agent conclude persist_steps step_loop turn_of_step step_text
    new_turn persist_assistant assistant_turn account enforce_budgets response_of
    update_session_metadata lookup insert stream_per_token event_loop on_event send_sentences
    flush_window flush push push_loop find_cut boundary validated_text persist_stream persist_events
    is_terminator is_space
stream_per_token-sent_example =
    stream_per_token-sent env (settings none) codec (λ n task. (text_event "Ok. Go" ∷ [], none))
      "hi" false session ok_go refl
