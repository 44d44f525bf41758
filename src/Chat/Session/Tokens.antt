-- ===== src/Chat/Session/Tokens.antt =====
-- `_stream_per_token` of packages/agentforge-chat/src/agentforge_chat/session.py: the stream of a
-- strategy that has its own. The agent's events are a parameter, as a list and what they end with, and
-- so are the code points of a text and the text of code points.
pub mod Keeps
pub mod Validated
pub mod Persisted
use agentforge_py.Prelude.{
  ℕ, suc, Bool, true, false, Option, none, some, List, [], ◌∷◌, ◌++◌, String, if◌then◌else◌, Error,
  Result, ok, err,
}
use agentforge_py.Strategies.Base.{ToolCall, Step, StepKind, Content}
use agentforge_py.Chat.Texts.{Text}
use agentforge_py.Chat.Truncation.{ChatTurn}
use agentforge_py.Chat.Window.{push, flush}
use agentforge_py.Chat.Session.{
  RunResult, Surroundings, Settings, ChatSession, Chatting, and_then, ◌>>=◌, return, guard_input,
  guard_output, add_turn, build_user_turn, compose_task, step_loop,
}
use agentforge_py.Chat.Session.Run.{raise_if_set, assistant_turn, account, enforce_budgets}

-- The content of the last event. `output` is the output if it is a text.
pub record RunSummary : Type 0 where
  pub output : Option String
  pub run_id : String
  pub tokens_in : ℕ
  pub tokens_out : ℕ
  pub cost_usd : ℕ

pub data AgentEvent : Type 0 where
  done_event : Option RunSummary → AgentEvent
  step_event : StepKind → Option ToolCall → Content → AgentEvent
  text_event : String → AgentEvent
  other_event : String → AgentEvent

-- A validated piece with the text so far, an event passed on, or the last chunk with the run's summary.
pub data TokenChunk : Type 0 where
  piece_chunk : Text → Text → TokenChunk
  event_chunk : AgentEvent → TokenChunk
  summary_chunk : RunSummary → TokenChunk

pub record Codec : Type 0 where
  pub codes : String → Text
  pub str : Text → String

-- The local variables of the loop, with the chunks that were yielded.
pub record Progress : Type 0 where
  pub cumulative : Text
  pub summary : Option RunSummary
  pub steps : List Step
  pub window : Text
  pub sent : List TokenChunk

abbrev pub no_progress : Progress
no_progress = record { cumulative = []; summary = none; steps = []; window = []; sent = [] }

abbrev pub pass_on : AgentEvent → Progress → Progress
pass_on e p = record p { sent = p.sent ++ event_chunk e ∷ [] }

-- A step as its event carries it: without tokens and cost.
abbrev pub step_of_event : StepKind → Option ToolCall → Content → Step
step_of_event kind call content = record {
  iteration = 0;
  kind = kind;
  content = content;
  tokens_in = 0;
  tokens_out = 0;
  cost_usd = 0;
  tool_call = call;
}

module _ (env : Surroundings) (cfg : Settings) (codec : Codec) where
  abbrev pub send_piece : String → Progress → Progress
  send_piece validated p =
      let sofar = p.cumulative ++ codec.codes validated in
      record p {
        cumulative = sofar;
        sent = p.sent ++ piece_chunk (codec.codes validated) sofar ∷ [];
      }

  unfoldable pub send_sentences : List Text → Progress → Chatting Progress
  send_sentences [] p = return p
  send_sentences (t ∷ ts) p = do
    validated ← guard_output env cfg (codec.str t)
    send_sentences ts (send_piece validated p)

  -- The body of `async for event in ...`.
  unfoldable pub on_event : Bool → AgentEvent → Progress → Chatting Progress
  on_event buffered (done_event none) p = return p
  on_event buffered (done_event (some summary)) p = return (record p { summary = some summary })
  on_event buffered (step_event kind call content) p =
      return (record (pass_on (step_event kind call content) p) {
        steps = p.steps ++ step_of_event kind call content ∷ [];
      })
  on_event true (text_event t) p =
      let (sentences, rest) = push (codec.codes t) p.window in
      send_sentences sentences (record p { window = rest })
  on_event false (text_event t) p =
      return (record (pass_on (text_event t) p) { cumulative = p.cumulative ++ codec.codes t })
  on_event buffered (other_event kind) p = return (pass_on (other_event kind) p)

  -- The loop, and the exception that the agent's stream ends with, if it does.
  unfoldable pub event_loop : Bool → List AgentEvent → Option Error → Progress → Chatting Progress
  event_loop buffered [] none p = return p
  event_loop buffered [] (some e) p = λ s. (err e, s)
  event_loop buffered (e ∷ es) last p = do
    p' ← on_event buffered e p
    event_loop buffered es last p'

  abbrev pub residual_of : Text → List Text
  residual_of [] = []
  residual_of (c ∷ cs) = (c ∷ cs) ∷ []

  unfoldable pub flush_window : Bool → Progress → Chatting Progress
  flush_window false p = return p
  flush_window true p =
      let (residual, rest) = flush p.window in
      send_sentences (residual_of residual) (record p { window = rest })

  -- `run_summary`, or the one made up when the stream gave none.
  abbrev pub summary_of : Progress → String → RunSummary
  summary_of p fresh_id = elim p.summary [
    | some summary ↦ summary
    | none ↦ record {
      output = some (codec.str p.cumulative);
      run_id = fresh_id;
      tokens_in = 0;
      tokens_out = 0;
      cost_usd = 0;
    }
  ]

  abbrev pub final_text : Option String → Text → String
  final_text (some output) cumulative = output
  final_text none cumulative = codec.str cumulative

  -- A buffered text was validated sentence by sentence.
  unfoldable pub validated_text : Bool → RunSummary → Progress → Chatting String
  validated_text true summary p = return (codec.str p.cumulative)
  validated_text false summary p = guard_output env cfg (final_text summary.output p.cumulative)

  abbrev result_of : RunSummary → RunResult
  result_of summary = record {
    output = final_text summary.output [];
    run_id = summary.run_id;
    steps = [];
    tokens_in = summary.tokens_in;
    tokens_out = summary.tokens_out;
    cost_usd = summary.cost_usd;
    finish_reason = "";
  }

  -- `_persist_steps_from_events`
  unfoldable pub persist_events : String → List Step → ChatSession → ChatSession
  persist_events run steps s = if cfg.persist_steps then (step_loop env cfg run steps s).1 else s

  abbrev pub stream_turn : String → RunSummary → String → ChatSession → ChatTurn
  stream_turn turn_id summary text s = record (assistant_turn env cfg text (result_of summary) s) {
    id = turn_id;
  }

  -- The last part: the turns, the counters, the budgets and the last chunk.
  unfoldable pub persist_stream :
      String → RunSummary → Progress → String → Chatting (List TokenChunk)
  persist_stream turn_id summary p text s =
      let s' = persist_events summary.run_id p.steps s in
      let turn = stream_turn turn_id summary text s' in
      let after = account env cfg summary.cost_usd (add_turn env cfg turn s') in
      and_then (enforce_budgets env cfg summary.cost_usd after)
        (λ _. return (p.sent ++ summary_chunk summary ∷ []))

  -- `uuid4().hex`
  abbrev pub fresh_uuid : Chatting String
  fresh_uuid s = (ok (env.uuid s.ids), record s { ids = suc s.ids })

  -- `agent n task` is the n-th stream of the agent.
  unfoldable pub stream_per_token :
      (ℕ → String → List AgentEvent × Option Error)
      → Bool
      → String
      → Bool
      → Chatting (List TokenChunk)
  stream_per_token agent buffered message cancelled = do
    validated ← guard_input env cfg message
    current ← build_user_turn env cfg validated
    _ ← raise_if_set env cfg cancelled
    task ← compose_task env cfg current
    turn_id ← fresh_uuid
    run ← (λ s. (ok (agent s.runs task), record s { runs = suc s.runs }))
    p ← event_loop buffered run.0 run.1 no_progress
    q ← flush_window buffered p
    fresh_id ← fresh_uuid
    text ← validated_text buffered (summary_of q fresh_id) q
    persist_stream turn_id (summary_of q fresh_id) q text
