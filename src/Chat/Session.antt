-- ===== src/Chat/Session.antt =====
-- `ChatSession` of packages/agentforge-chat/src/agentforge_chat/session.py, on the in-memory history
-- that is its default. The lock makes `send` one step on the state. The agent, the clocks, the
-- identifiers and the JSON of a step's content are parameters, each a function of how often it was
-- used before. `cancelled` is whether the cancellation event is set when the code looks at it.
pub mod Run
pub mod Keeps
pub mod Caching
pub mod Turns
pub mod Exchange
pub mod Streaming
pub mod Tokens
pub mod Live
use Prim.Native.String.{◌++◌ as string_append}
use agentforge_py.Prelude.{
  ℕ, suc, ◌+◌, ◌-◌, ◌/◌, Bool, true, false, not, Option, none, some, List, [], ◌∷◌, ◌++◌, String,
  ltb, ◌==◌, if◌then◌else◌, keep, map, Error, Result, ok, err,
}
use agentforge_py.Prelude.Dict.{Dict}
use agentforge_py.Guardrails.Engine.{GuardrailEngine, check_input, check_output}
use agentforge_py.Strategies.Base.{
  ToolCall, Step, Content, text_of, call_of, branch_of, StepKind, think, act, observe, plan, branch,
  synthesize,
}
use agentforge_py.Chat.Truncation.{Role, system, user, assistant, tool, ChatTurn, Strategy, select}
use agentforge_py.Chat.History.{
  InMemoryChatHistory, MetaValue, no_value, text_value, number_value, append, load, everything,
  delete_session, update_session_metadata,
}
use agentforge_py.Chat.Idempotency.{IdempotencyCache, get, put}

-- What `Agent.run` returns; `output` is the text that `_extract_text` makes of it.
pub record RunResult : Type 0 where
  pub output : String
  pub run_id : String
  pub steps : List Step
  pub tokens_in : ℕ
  pub tokens_out : ℕ
  pub cost_usd : ℕ
  pub finish_reason : String

pub record ChatResponse : Type 0 where
  pub content : String
  pub turn_id : String
  pub run_id : String
  pub tool_calls : List ToolCall
  pub tokens_in : ℕ
  pub tokens_out : ℕ
  pub cost_usd : ℕ
  pub duration : ℕ
  pub finish_reason : String

-- What surrounds a session.
pub record Surroundings : Type 0 where
  pub run : ℕ → String → Result RunResult
  pub uuid : ℕ → String
  pub monotonic : ℕ → ℕ
  pub utc_now : ℕ → ℕ
  pub hash : String → String
  pub dumps : Content → String

pub record Settings : Type 0 where
  pub session_id : String
  pub system_prompt : Option String
  pub truncation : Strategy
  pub owner : Option String
  pub per_turn_budget : Option ℕ
  pub per_session_budget : Option ℕ
  pub persist_steps : Bool
  pub has_hook : Bool

abbrev pub GuardContext : Type 0
GuardContext = Dict String

-- The state, with how often the identifiers, the clocks and the agent were used, and the turns that
-- the hook was called with. The engine's gates are not used here.
pub record ChatSession : Type 0 where
  pub engine : GuardrailEngine String GuardContext
  pub history : InMemoryChatHistory
  pub idempotency : IdempotencyCache ChatResponse
  pub total_cost : ℕ
  pub turn_count : ℕ
  pub closed : Bool
  pub ids : ℕ
  pub ticks : ℕ
  pub runs : ℕ
  pub hooked : List ChatTurn

abbrev tool_calls_of : Option ToolCall → List ToolCall
tool_calls_of none = []
tool_calls_of (some c) = c ∷ []

-- Code that may raise, on the session.
abbrev pub Chatting : Type 0 → Type 0
Chatting X = ChatSession → Result X × ChatSession

abbrev pub and_then :
    {X Y : Type 0} → Result X × ChatSession → (X → Chatting Y) → Result Y × ChatSession
and_then (ok x, s) next = next x s
and_then (err e, s) next = (err e, s)

infixl 5 ◌>>=◌
abbrev pub ◌>>=◌ : {X Y : Type 0} → Chatting X → (X → Chatting Y) → Chatting Y
m >>= next = λ s. and_then (m s) next

abbrev pub return : {X : Type 0} → X → Chatting X
return x s = (ok x, s)

abbrev owner_or_anonymous : Option String → String
owner_or_anonymous none = "anonymous"
owner_or_anonymous (some owner) = if owner == "" then "anonymous" else owner

unfoldable pub guard_context : Settings → GuardContext
guard_context cfg =
    ("session_id", cfg.session_id)
    ∷ ("owner", owner_or_anonymous cfg.owner)
    ∷ ("project", "chat")
    ∷ []

abbrev pub role_name : Role → String
role_name system = "system"
role_name user = "user"
role_name assistant = "assistant"
role_name tool = "tool"

-- `"\n\n".join(lines)`
abbrev pub join_blank : List String → String
join_blank [] = ""
join_blank (line ∷ []) = line
join_blank (line ∷ next ∷ lines) =
    string_append line (string_append "\n\n" (join_blank (next ∷ lines)))

-- The system prompt, if there is one that is not empty.
abbrev pub prompt_lines : Option String → List String
prompt_lines none = []
prompt_lines (some prompt) = if prompt == "" then [] else prompt ∷ []

abbrev pub turn_line : ChatTurn → String
turn_line t = string_append (role_name t.role) (string_append ": " t.content)

-- The text of a task: the prompt, a line for each turn that was kept, and the message.
unfoldable pub task_of : Option String → List ChatTurn → String → String
task_of prompt kept message =
    join_blank (prompt_lines prompt ++ map turn_line kept ++ string_append "user: " message ∷ [])

-- `step.content if isinstance(step.content, str) else json.dumps(step.content)`
unfoldable pub step_text : Surroundings → Content → String
step_text env (text_of text) = text
step_text env (call_of name arguments) = env.dumps (call_of name arguments)
step_text env (branch_of id parent n content) = env.dumps (branch_of id parent n content)

abbrev shown : String → String → String
shown name args = name

module _ (env : Surroundings) (cfg : Settings) where
  unfoldable pub guard_input : String → Chatting String
  guard_input message s =
      let (r, engine) = check_input env.hash shown message (guard_context cfg) s.engine in
      (r, record s { engine = engine })

  unfoldable pub guard_output : String → Chatting String
  guard_output text s =
      let (r, engine) = check_output env.hash shown text (guard_context cfg) s.engine in
      (r, record s { engine = engine })

  -- A reading of the monotonic clock.
  unfoldable pub read_clock : Chatting ℕ
  read_clock s = (ok (env.monotonic s.ticks), record s { ticks = suc s.ticks })

  -- A new turn of the session with a role and a text. The builders below set what else is given.
  unfoldable pub new_turn : Role → String → ChatSession → ChatTurn
  new_turn role content s = record {
    id = env.uuid s.ids;
    session_id = cfg.session_id;
    role = role;
    content = content;
    timestamp = env.utc_now s.ticks;
    run_id = none;
    tool_calls = [];
    tool_call_id = none;
    tokens_in = 0;
    tokens_out = 0;
    cost_usd = 0;
  }

  -- `await self._history.append(turn)`, and the hook. The turn's identifier and time are used up.
  unfoldable pub add_turn : ChatTurn → ChatSession → ChatSession
  add_turn t s = record s {
    history = append (env.utc_now (suc s.ticks)) t s.history;
    hooked = if cfg.has_hook then s.hooked ++ t ∷ [] else s.hooked;
    ids = suc s.ids;
    ticks = suc (suc s.ticks);
  }

  unfoldable pub build_user_turn : String → Chatting ChatTurn
  build_user_turn content s = let t = new_turn user content s in (ok t, add_turn t s)

  -- `_compose_task`: the turns before, cut to size, and the message.
  unfoldable pub compose_task : ChatTurn → Chatting String
  compose_task current s =
      let prior = keep (λ t. not (t.id == current.id)) (load cfg.session_id everything s.history) in
      elim (select cfg.truncation current.content prior) [
        | err e ↦ (err e, s)
        | ok kept ↦ (ok (task_of cfg.system_prompt kept current.content), s)
      ]

  unfoldable pub run_agent : String → Chatting RunResult
  run_agent task s = (env.run s.runs task, record s { runs = suc s.runs })

  -- The turn of an `act` or an `observe` step that has a tool call, if it is one.
  unfoldable pub turn_of_step :
      StepKind → Option ToolCall → String → Step → ChatSession → Option ChatTurn
  turn_of_step act (some c) run step s =
      some (record (new_turn assistant (step_text env step.content) s) {
        run_id = some run;
        tool_calls = c ∷ [];
        tokens_in = step.tokens_in;
        tokens_out = step.tokens_out;
        cost_usd = step.cost_usd;
      })
  turn_of_step observe (some c) run step s =
      some (record (new_turn tool (step_text env step.content) s) {
        run_id = some run;
        tool_call_id = some c.id;
      })
  turn_of_step _ _ run step s = none

  abbrev pub step_turn : String → Step → ChatSession → Option ChatTurn
  step_turn run step s = turn_of_step step.kind step.tool_call run step s

  abbrev pub add_some : Option ChatTurn → ChatSession → ChatSession
  add_some none s = s
  add_some (some t) s = add_turn t s

  abbrev pub act_call : Step → List ToolCall
  act_call step = elim step.kind [ act ↦ tool_calls_of step.tool_call | _ ↦ [] ]

  -- The loop over the steps: the tool calls, and the session with their turns.
  unfoldable pub step_loop : String → List Step → ChatSession → List ToolCall × ChatSession
  step_loop run [] s = ([], s)
  step_loop run (step ∷ steps) s =
      let (calls, s') = step_loop run steps (add_some (step_turn run step s) s) in
      (act_call step ++ calls, s')
