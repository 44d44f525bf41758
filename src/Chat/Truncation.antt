-- ===== src/Chat/Truncation.antt =====
-- The truncation strategies of packages/agentforge-chat/src/agentforge_chat/truncation.py. A
-- tokeniser and a summariser are the program's callbacks, so they are arguments; a text's length is
-- its number of characters.
pub mod Pairs
pub mod Window
pub mod Bounds
mod Tests
use Prim.Native.String.{count}
use agentforge_py.Prelude.{
  ℕ, suc, ◌-◌, ◌/◌, ◌≤◌, max, Bool, true, false, Option, none, some, List, [], ◌∷◌, ◌++◌, String,
  reverse, length, take, drop, leb, if◌then◌else◌, Result, ok, err, ◌>>=◌,
}
use agentforge_py.Prelude.Int.{ℤ, pos, negsuc, pos_part, ◌-ℤ◌, ltb_ℤ}
use agentforge_py.Strategies.Base.{ToolCall}

pub data Role : Type 0 where
  system user assistant tool : Role

pub record ChatTurn : Type 0 where
  pub id : String
  pub session_id : String
  pub role : Role
  pub content : String
  pub timestamp : ℕ
  pub run_id : Option String
  pub tool_calls : List ToolCall
  pub tool_call_id : Option String
  pub tokens_in : ℕ
  pub tokens_out : ℕ
  pub cost_usd : ℕ

-- `len(text)`
abbrev chars_of : String → ℕ
chars_of s = count s

unfoldable pub approx_tokens : String → ℕ
approx_tokens text = max 1 (chars_of text / 4)

-- `t.role == "tool" and last_role != "assistant"`
abbrev pub orphan : Role → Option Role → Bool
orphan tool (some assistant) = false
orphan tool _ = true
orphan system _ = false
orphan user _ = false
orphan assistant _ = false

-- The loop of `_keep_pair_atomic`, with the role of the last turn that was kept.
unfoldable pub keep_from : Option Role → List ChatTurn → List ChatTurn
keep_from last [] = []
keep_from last (t ∷ ts) = elim (orphan t.role last) [
  | true ↦ keep_from last ts
  | false ↦ t ∷ keep_from (some t.role) ts
]

unfoldable pub keep_pair_atomic : List ChatTurn → List ChatTurn
keep_pair_atomic turns = keep_from none turns

-- `turns[-n:]`, for n at least 1
abbrev pub last_turns : ℕ → List ChatTurn → List ChatTurn
last_turns n turns = drop (length turns - n) turns

abbrev pub Tokeniser : Type 0
Tokeniser = String → ℤ

unfoldable pub tokens_for_text : Option Tokeniser → String → ℕ
tokens_for_text none text = approx_tokens text
tokens_for_text (some tokenise) text = pos_part (tokenise text)

unfoldable pub tokens_for_turn : Option Tokeniser → ChatTurn → ℕ
tokens_for_turn none turn = approx_tokens turn.content
tokens_for_turn (some tokenise) turn = max 1 (pos_part (tokenise turn.content))

-- The loop over the turns, newest first, while they fit in what remains. The source appends and
-- reverses at the end; here each chosen turn goes in front.
unfoldable pub budget_loop : (ChatTurn → ℕ) → List ChatTurn → ℤ → List ChatTurn → List ChatTurn
budget_loop cost [] remaining chosen = chosen
budget_loop cost (t ∷ ts) remaining chosen = elim (ltb_ℤ remaining (pos (cost t))) [
  | true ↦ chosen
  | false ↦ budget_loop cost ts (remaining -ℤ pos (cost t)) (t ∷ chosen)
]

-- The turn that stands for the older ones; its id and text are built from theirs.
pub record Summariser : Type 0 where
  pub summarise : List ChatTurn → Result String
  pub summary_id : String → String → String
  pub summary_text : ℕ → String → String

abbrev last_id : ChatTurn → List ChatTurn → String
last_id t [] = t.id
last_id t (u ∷ us) = last_id u us

summary_of : Summariser → ChatTurn → List ChatTurn → String → ChatTurn
summary_of s first rest text = record {
  id = s.summary_id first.id (last_id first rest);
  session_id = first.session_id;
  role = system;
  content = s.summary_text (suc (length rest)) text;
  timestamp = first.timestamp;
  run_id = none;
  tool_calls = [];
  tool_call_id = none;
  tokens_in = 0;
  tokens_out = 0;
  cost_usd = 0;
}

-- With no older turn there is nothing to index; the source only comes here with some.
condense : Summariser → List ChatTurn → List ChatTurn → Result (List ChatTurn)
unfolding summary_of
condense s [] recent = err (package.agentforge_py.Prelude.Error.builtin "IndexError")
condense s (first ∷ rest) recent = do
  text ← s.summarise (first ∷ rest)
  ok (keep_pair_atomic (summary_of s first rest text ∷ recent))

mutual
  pub data Strategy : Type 0 where
    sliding_window : ℕ → Strategy
    token_budget : ℕ → Option (String → ℤ) → Strategy
    summarise_oldest : ℕ → Summariser → Strategy
    hybrid : Strategies → Strategy

  pub data Strategies : Type 0 where
    one : Strategy → Strategies
    more : Strategy → Strategies → Strategies

unfoldable pub select_window : ℕ → List ChatTurn → List ChatTurn
select_window max_turns turns = keep_pair_atomic (last_turns max_turns turns)

unfoldable pub select_budget : ℕ → Option Tokeniser → String → List ChatTurn → List ChatTurn
select_budget max_tokens tokeniser next turns =
    let remaining = pos max_tokens -ℤ pos (tokens_for_text tokeniser next) in
    keep_pair_atomic (budget_loop (tokens_for_turn tokeniser) (reverse turns) remaining [])

unfoldable pub select_summary : ℕ → Summariser → List ChatTurn → Result (List ChatTurn)
unfolding condense
select_summary threshold s turns =
    if leb (length turns) threshold
    then ok (keep_pair_atomic turns)
    else condense s (take (length turns - threshold) turns) (last_turns threshold turns)

unfoldable mutual
  pub select : Strategy → String → List ChatTurn → Result (List ChatTurn)
  select (sliding_window n) next turns = ok (select_window n turns)
  select (token_budget n tokeniser) next turns = ok (select_budget n tokeniser next turns)
  select (summarise_oldest n s) next turns = select_summary n s turns
  select (hybrid ss) next turns = select_each ss next turns

  pub select_each : Strategies → String → List ChatTurn → Result (List ChatTurn)
  select_each (one s) next turns = select s next turns
  select_each (more s ss) next turns = do kept ← select s next turns; select_each ss next kept
