-- ===== src/Chat/Session/Turns.antt =====
-- The turns and the charges of one exchange of a chat session.
use agentforge_py.Prelude.{
  ℕ, suc, ◌≡◌, refl, sym, ◌∙◌, ap, Option, none, some, List, [], ◌∷◌, ◌++◌, String, map, eq_refl,
  if◌then◌else◌, Bool-cases, inl, inr,
}
use mathlib.Core.List.{append_assoc, append-nil, map-append}
use agentforge_py.Strategies.Base.{
  Content, text_of, call_of, branch_of, ToolCall, Step, StepKind, think, act, observe, plan, branch,
  synthesize,
}
use agentforge_py.Chat.Truncation.{Role, assistant, tool, ChatTurn}
use agentforge_py.Chat.History.{turns_of, update_session_metadata}
use agentforge_py.Chat.History.Sessions.{turns_of-append}
use agentforge_py.Chat.Session.{
  RunResult, Surroundings, Settings, ChatSession, new_turn, add_turn, add_some, turn_of_step,
  step_turn, step_loop, step_text,
}
use agentforge_py.Chat.Session.Run.{persist_steps, persist_assistant, assistant_turn, account}

-- What a step leaves in the history, from its kind, its tool call and its text: a role and a text.
pub shown_step : StepKind → Option ToolCall → String → List (Role × String)
shown_step act (some c) text = (assistant, text) ∷ []
shown_step observe (some c) text = (tool, text) ∷ []
shown_step _ _ text = []

-- A text as it is, and anything else as JSON.
abbrev pub shown_content : Surroundings → Content → String
shown_content env (text_of text) = text
shown_content env content = env.dumps content

step_text-shown : (env : Surroundings) (c : Content) → step_text env c ≡ shown_content env c
unfolding step_text
step_text-shown env (text_of text) = refl
step_text-shown env (call_of name arguments) = refl
step_text-shown env (branch_of id parent n content) = refl

pub shown_steps : Surroundings → List Step → List (Role × String)
shown_steps env [] = []
shown_steps env (step ∷ steps) =
    shown_step step.kind step.tool_call (shown_content env step.content) ++ shown_steps env steps

abbrev pub shown_turn : ChatTurn → Role × String
shown_turn t = (t.role, t.content)

module _ (env : Surroundings) (cfg : Settings) where
  -- The roles and texts of the session's turns, oldest first.
  unfoldable pub transcript : ChatSession → List (Role × String)
  transcript s = map shown_turn (turns_of cfg.session_id s.history)

  pub transcript-add_turn :
      (t : ChatTurn) (s : ChatSession)
      → t.session_id ≡ cfg.session_id
      → transcript (add_turn env cfg t s) ≡ transcript s ++ shown_turn t ∷ []
  unfolding transcript add_turn
  transcript-add_turn t s mine =
      ap (map shown_turn) (
        turns_of-append (env.utc_now (suc s.ticks)) t s.history cfg.session_id
        ∙ rw (mine, eq_refl cfg.session_id) refl)
      ∙ map-append shown_turn (turns_of cfg.session_id s.history) (t ∷ [])

  transcript-of_step :
      (kind : StepKind) (call : Option ToolCall) (run : String) (step : Step) (s : ChatSession)
      → transcript (add_some env cfg (turn_of_step env cfg kind call run step s) s)
        ≡ transcript s ++ shown_step kind call (step_text env step.content)
  unfolding turn_of_step shown_step new_turn
  transcript-of_step act (some c) run step s = transcript-add_turn _ s refl
  transcript-of_step observe (some c) run step s = transcript-add_turn _ s refl
  transcript-of_step act none run step s = sym (append-nil (transcript s))
  transcript-of_step observe none run step s = sym (append-nil (transcript s))
  transcript-of_step think call run step s = sym (append-nil (transcript s))
  transcript-of_step plan call run step s = sym (append-nil (transcript s))
  transcript-of_step branch call run step s = sym (append-nil (transcript s))
  transcript-of_step synthesize call run step s = sym (append-nil (transcript s))

  transcript-step_loop :
      (run : String) (steps : List Step) (s : ChatSession)
      → transcript (step_loop env cfg run steps s).1 ≡ transcript s ++ shown_steps env steps
  unfolding step_loop shown_steps
  transcript-step_loop run [] s = sym (append-nil (transcript s))
  transcript-step_loop run (step ∷ steps) s =
      let text = shown_content env step.content in
      transcript-step_loop run steps (add_some env cfg (step_turn env cfg run step s) s)
      ∙ ap (λ t. t ++ shown_steps env steps)
          (transcript-of_step step.kind step.tool_call run step s
            ∙ ap (λ t. transcript s ++ shown_step step.kind step.tool_call t)
                (step_text-shown env step.content))
      ∙ append_assoc (transcript s) (shown_step step.kind step.tool_call text)
          (shown_steps env steps)

  -- What an exchange with the agent's result leaves: the turns of its steps, if they are kept.
  pub shown_result : RunResult → List (Role × String)
  shown_result result = if cfg.persist_steps then shown_steps env result.steps else []

  pub transcript-persist_steps :
      (result : RunResult) (s : ChatSession)
      → transcript (persist_steps env cfg result s).1 ≡ transcript s ++ shown_result result
  unfolding persist_steps shown_result
  transcript-persist_steps result s = elim (Bool-cases cfg.persist_steps) [
    | inl on ↦ simp (on) (transcript-step_loop result.run_id result.steps s)
    | inr off ↦ simp (off) (sym (append-nil (transcript s)))
  ]

  pub transcript-account :
      (cost : ℕ) (s : ChatSession) → transcript (account env cfg cost s) ≡ transcript s
  unfolding transcript account update_session_metadata turns_of
  transcript-account cost s = refl

  pub transcript-persist_assistant :
      (text : String) (result : RunResult) (s : ChatSession)
      → transcript (persist_assistant env cfg text result s).1
        ≡ transcript s ++ (assistant, text) ∷ []
  unfolding persist_assistant assistant_turn new_turn
  transcript-persist_assistant text result s =
      transcript-account result.cost_usd _ ∙ transcript-add_turn _ s refl
