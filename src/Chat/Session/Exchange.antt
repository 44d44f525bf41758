-- ===== src/Chat/Session/Exchange.antt =====
-- One exchange of a chat session from the message to the answer.
use agentforge_py.Prelude.{
  arith, leb, not, ℕ, suc, ◌+◌, ◌-◌, Bool, true, false, ◌||◌, ◌≡◌, refl, subst, sym, ◌∙◌, ap,
  Option, none, some, List, [], ◌∷◌, ◌++◌, String, if◌then◌else◌, Result, ok, err, budget_exceeded,
  Bool-cases, inl, inr, ◌⊎◌,
}
use mathlib.Core.List.{append_assoc}
use agentforge_py.Guardrails.Engine.{Event}
use agentforge_py.Strategies.Base.{ToolCall, Step}
use agentforge_py.Chat.Truncation.{Role, user, assistant, ChatTurn}
use agentforge_py.Chat.Session.{
  RunResult, ChatResponse, Surroundings, Settings, ChatSession, Chatting, and_then, guard_input,
  guard_output, read_clock, add_turn, new_turn, build_user_turn, compose_task, run_agent, step_loop,
  add_some, step_turn,
}
use agentforge_py.Chat.Session.Keeps.{
  guard_input-Keeps, guard_output-Keeps, raise_if_set-Keeps, compose_task-Keeps, read_clock-Keeps,
}
use agentforge_py.Chat.Session.Turns.{
  transcript, shown_result, transcript-add_turn, transcript-persist_steps,
  transcript-persist_assistant,
}
use agentforge_py.Chat.Session.Run.{
  over, raise_if_set, conclude, run_turn, persist_steps, persist_assistant, account,
  enforce_budgets, response_of, assistant_turn,
}

and_then-step :
    {X Y : Type 0} (p : Result X × ChatSession) (x : X) (next : X → Chatting Y)
    → p.0 ≡ ok x
    → and_then p next ≡ next x p.1
and_then-step (ok x', s) x next h = cc h
and_then-step (err e, s) x next h = cc h

pub and_then-ok :
    {X Y : Type 0} (p : Result X × ChatSession) (next : X → Chatting Y)
    (R : Y → ChatSession → Type 0)
    → ((x : X) → p.0 ≡ ok x → (y : Y) → (next x p.1).0 ≡ ok y → R y (next x p.1).1)
    → (y : Y) → (and_then p next).0 ≡ ok y
    → R y (and_then p next).1
and_then-ok (ok x, s) next R step y h = step x refl y h
and_then-ok (err e, s) next R step y h = absurd (cc h)

-- What an exchange changes: the transcript, and the cost, the number of turns and of runs.
abbrev pub Counts : Type 0
Counts = ℕ × ℕ × ℕ

abbrev pub Facts : Type 0
Facts = List (Role × String) × Counts

-- There is a cap, and the amount is more than it.
abbrev pub beyond : Option ℕ → ℕ → Bool
beyond none amount = false
beyond (some cap) amount = not (leb amount cap)

over-beyond : (cap : Option ℕ) (amount : ℕ) → over cap amount ≡ beyond cap amount
over-beyond none amount = refl
over-beyond (some cap) amount = ground arith

module _ (env : Surroundings) (cfg : Settings) where
  pub facts : ChatSession → Facts
  facts s = (transcript env cfg s, (s.total_cost, s.turn_count, s.runs))

  -- The result's cost is above the budget of a turn, or the total above that of the session.
  pub exceeded : ℕ → ℕ → Bool
  exceeded cost total = beyond cfg.per_turn_budget cost || beyond cfg.per_session_budget total

  persist_steps_ok :
      (result : RunResult) (s : ChatSession)
      → (calls : List ToolCall) × ((persist_steps env cfg result s).0 ≡ ok calls)
  unfolding persist_steps
  persist_steps_ok result s = elim (Bool-cases cfg.persist_steps) [
    | inl on ↦ ((step_loop env cfg result.run_id result.steps s).0, simp (on) refl)
    | inr off ↦ ([], simp (off) refl)
  ]

  enforce_budgets_lem :
      (cost : ℕ) (s : ChatSession)
      → enforce_budgets env cfg cost s
        ≡ (if exceeded cost s.total_cost then err budget_exceeded else ok tt, s)
  unfolding enforce_budgets exceeded
  enforce_budgets_lem cost s =
      simp (over-beyond cfg.per_turn_budget cost, over-beyond cfg.per_session_budget s.total_cost)
        (elim (Bool-cases
          (beyond cfg.per_turn_budget cost || beyond cfg.per_session_budget s.total_cost)) [
            | inl above ↦ simp (above) refl
            | inr within ↦ simp (within) refl
          ])

  -- The session after the last stages: the steps' turns, the assistant's turn, the counters.
  abbrev concluded : RunResult → String → ChatSession → ChatSession
  concluded result text s =
      (persist_assistant env cfg text result (persist_steps env cfg result s).1).1

  counted : ChatSession → Counts
  counted s = (s.total_cost, s.turn_count, s.runs)

  step_loop-counted :
      (run : String) (steps : List Step) (s : ChatSession)
      → counted (step_loop env cfg run steps s).1 ≡ counted s
  unfolding counted step_loop add_turn
  step_loop-counted run [] s = refl
  step_loop-counted run (step ∷ steps) s =
      step_loop-counted run steps (add_some env cfg (step_turn env cfg run step s) s)
      ∙ added (step_turn env cfg run step s) s
    where
      added : (t : Option ChatTurn) (s : ChatSession) → counted (add_some env cfg t s) ≡ counted s
      added none s = refl
      added (some t) s = refl

  -- The steps' turns add no cost, no exchange and no run.
  persist_steps-counted :
      (result : RunResult) (s : ChatSession)
      → counted (persist_steps env cfg result s).1 ≡ counted s
  unfolding counted persist_steps
  persist_steps-counted result s = elim (Bool-cases cfg.persist_steps) [
    | inl on ↦ simp (on) (step_loop-counted result.run_id result.steps s)
    | inr off ↦ simp (off) refl
  ]

  counted_concluded :
      (result : RunResult) (text : String) (s : ChatSession)
      → counted (concluded result text s)
        ≡ (s.total_cost + result.cost_usd, suc s.turn_count, s.runs)
  unfolding counted persist_assistant account add_turn
  counted_concluded result text s =
      ap (λ (c : Counts). (c.0 + result.cost_usd, suc c.1, c.2)) (persist_steps-counted result s)

  facts-concluded :
      (result : RunResult) (text : String) (s : ChatSession)
      → facts (concluded result text s) ≡ (
        transcript env cfg s ++ (shown_result env cfg result ++ (assistant, text) ∷ []),
        (s.total_cost + result.cost_usd, suc s.turn_count, s.runs),
      )
  unfolding facts counted
  facts-concluded result text s =
      let steps = (persist_steps env cfg result s).1 in
      let said : transcript env cfg (concluded result text s)
          ≡ transcript env cfg s ++ (shown_result env cfg result ++ (assistant, text) ∷ []) =
        transcript-persist_assistant env cfg text result steps
        ∙ ap (λ t. t ++ (assistant, text) ∷ []) (transcript-persist_steps env cfg result s)
        ∙ append_assoc (transcript env cfg s) (shown_result env cfg result)
            ((assistant, text) ∷ []) in
      ap (λ t. (t, counted (concluded result text s))) said
      ∙ ap
          (λ c.
            (transcript env cfg s ++ (shown_result env cfg result ++ (assistant, text) ∷ []), c))
          (counted_concluded result text s)

  exceeded-concluded :
      (result : RunResult) (text : String) (s : ChatSession)
      → exceeded result.cost_usd (concluded result text s).total_cost
        ≡ exceeded result.cost_usd (s.total_cost + result.cost_usd)
  unfolding counted
  exceeded-concluded result text s =
      ap (λ (c : Counts). exceeded result.cost_usd c.0) (counted_concluded result text s)

  decided :
      (b : Bool) (r : ChatResponse) (s : ChatSession)
      → and_then (if b then err budget_exceeded else ok tt, s) (λ (u : Unit {0}) t. (ok r, t))
        ≡ (if b then err budget_exceeded else ok r, s)
  decided true r s = refl
  decided false r s = refl

  -- The last stages, up to the test of the budgets.
  conclude_steps :
      (result : RunResult) (d : ℕ) (text : String) (s : ChatSession) (calls : List ToolCall)
      → (persist_steps env cfg result s).0 ≡ ok calls
      → conclude env cfg result d text s ≡ (
        if exceeded result.cost_usd (s.total_cost + result.cost_usd)
            then err budget_exceeded
            else ok (
                response_of env cfg calls
                  (assistant_turn env cfg text result (persist_steps env cfg result s).1)
                  result
                  d
                  text),
        concluded result text s,
      )
  unfolding conclude persist_assistant
  conclude_steps result d text s calls done =
      let state = concluded result text s in
      let answer =
        response_of env cfg calls
          (assistant_turn env cfg text result (persist_steps env cfg result s).1) result d text in
      and_then-step (persist_steps env cfg result s) calls _ done
      ∙ ap (λ q. and_then q (λ _ t. (ok answer, t))) (enforce_budgets_lem result.cost_usd state)
      ∙ decided (exceeded result.cost_usd state.total_cost) answer state
      ∙ ap (λ b. (if b then err budget_exceeded else ok answer, state))
          (exceeded-concluded result text s)

  -- Whether the budgets hold or not, the answer and its cost are recorded; the exchange then answers
  -- with the validated text if neither budget is exceeded, and raises `BudgetExceeded` otherwise.
  pub conclude-lem :
      (result : RunResult) (d : ℕ) (text : String) (s : ChatSession)
      → (facts (conclude env cfg result d text s).1 ≡ (
        transcript env cfg s ++ (shown_result env cfg result ++ (assistant, text) ∷ []),
        (s.total_cost + result.cost_usd, suc s.turn_count, s.runs),
      ))
        × ((exceeded result.cost_usd (s.total_cost + result.cost_usd) ≡ true
              × (conclude env cfg result d text s).0 ≡ err budget_exceeded)
            ⊎ (exceeded result.cost_usd (s.total_cost + result.cost_usd) ≡ false
                × ((r : ChatResponse) × (((conclude env cfg result d text s).0 ≡ ok r)
                      × ((r.content ≡ text) × (r.cost_usd ≡ result.cost_usd))))))
  unfolding response_of
  conclude-lem result d text s =
      let (calls, done) = persist_steps_ok result s in
      let reached = conclude_steps result d text s calls done in
      let turn = assistant_turn env cfg text result (persist_steps env cfg result s).1 in
      let answer = response_of env cfg calls turn result d text in
      (
        ap (λ p. facts p.1) reached ∙ facts-concluded result text s,
        (elim (Bool-cases (exceeded result.cost_usd (s.total_cost + result.cost_usd))) [
          | inl above ↦ inl (above, ap (λ p. p.0) reached ∙ rw above refl)
          | inr within ↦
              inr (within, (answer, (ap (λ p. p.0) reached ∙ rw within refl, (refl, refl))))
        ]),
      )

  -- What a successful exchange from `s` to `t` with the answer `r` has done.
  pub Exchanged : String → ChatSession → ChatResponse → ChatSession → Type 0
  Exchanged message s r t =
      (v task : String) × (result : RunResult) × (((guard_input env cfg message s).0 ≡ ok v)
        × ((env.run s.runs task ≡ ok result)
            × ((facts t ≡ (
              transcript env cfg s
                  ++ ((user, v) ∷ (shown_result env cfg result ++ (assistant, r.content) ∷ [])),
              (s.total_cost + result.cost_usd, suc s.turn_count, suc s.runs),
            ))
                × (exceeded result.cost_usd (s.total_cost + result.cost_usd) ≡ false))))

  of_engine :
      (s : ChatSession) (events : List Event)
      → facts (record s { engine = record s.engine { events = events } }) ≡ facts s
  unfolding facts transcript
  of_engine s events = refl

  of_ticks : (s : ChatSession) (n : ℕ) → facts (record s { ticks = n }) ≡ facts s
  unfolding facts transcript
  of_ticks s n = refl

  facts-build_user_turn :
      (v : String) (s : ChatSession)
      → facts (build_user_turn env cfg v s).1
        ≡ (transcript env cfg s ++ (user, v) ∷ [], (s.total_cost, s.turn_count, s.runs))
  unfolding facts build_user_turn new_turn add_turn
  facts-build_user_turn v s =
      ap (λ t. (t, (s.total_cost, s.turn_count, s.runs)))
        (transcript-add_turn env cfg (new_turn env cfg user v s) s refl)

  facts-run_agent :
      (task : String) (s : ChatSession)
      → facts (run_agent env cfg task s).1
        ≡ (transcript env cfg s, (s.total_cost, s.turn_count, suc s.runs))
  unfolding facts run_agent transcript
  facts-run_agent task s = refl

  same_content : (a b : ChatResponse) → ok a ≡ ok b → a.content ≡ b.content
  same_content a b h = cc h

  -- The last stages after the ones before: `u` is the session when the text was validated.
  from_conclude :
      (message v task text : String) (s u : ChatSession) (result : RunResult) (d : ℕ)
      → (guard_input env cfg message s).0 ≡ ok v
      → env.run s.runs task ≡ ok result
      → facts u ≡ (transcript env cfg s ++ (user, v) ∷ [], (s.total_cost, s.turn_count, suc s.runs))
      → (r : ChatResponse) → (conclude env cfg result d text u).0 ≡ ok r
      → Exchanged message s r (conclude env cfg result d text u).1
  unfolding Exchanged facts
  from_conclude message v task text s u result d guarded ran so_far r done =
      let parts = conclude-lem result d text u in
      let last : List (Role × String) = shown_result env cfg result ++ (assistant, text) ∷ [] in
      let grown : facts (conclude env cfg result d text u).1 ≡ (
        transcript env cfg s ++ ((user, v) ∷ last),
        (s.total_cost + result.cost_usd, suc s.turn_count, suc s.runs),
      ) =
        parts.0
        ∙ ap (λ (f : Facts). (f.0 ++ last, (f.1.0 + result.cost_usd, suc f.1.1, f.1.2))) so_far
        ∙ ap (λ t. (t, (s.total_cost + result.cost_usd, suc s.turn_count, suc s.runs)))
            (append_assoc (transcript env cfg s) ((user, v) ∷ []) last) in
      elim parts.1 [
        | inl (above, raised) ↦ absurd (cc (raised, done))
        | inr (within, (r', (answered, (content, cost)))) ↦ (
          v,
          task,
          result,
          (
            guarded,
            (
              ran,
              (
                subst
                    (λ (t : String). facts (conclude env cfg result d text u).1 ≡ (
                      transcript env cfg s
                          ++ ((user, v) ∷ (shown_result env cfg result ++ (assistant, t) ∷ [])),
                      (s.total_cost + result.cost_usd, suc s.turn_count, suc s.runs),
                    ))
                    (sym content ∙ same_content r' r (sym answered ∙ done)) grown,
                sym (ap (λ (f : Facts). exceeded result.cost_usd (f.1.0 + result.cost_usd)) so_far)
                    ∙ within,
              ),
            ),
          ),
        )
      ]

  -- When an exchange answers, the input guardrails accepted the message, as `v`, the agent ran once,
  -- and: the transcript grew by the user's turn, the turns of the agent's steps, if they are kept, and
  -- the assistant's turn with the answer, in this order; the cost of the run was added to the session's;
  -- one exchange was counted; and neither budget was exceeded.
  pub run_turn-lem :
      (message : String) (cancelled : Bool) (s : ChatSession) (r : ChatResponse)
      → (run_turn env cfg message cancelled s).0 ≡ ok r
      → Exchanged message s r (run_turn env cfg message cancelled s).1
  unfolding run_turn run_agent facts
  run_turn-lem message cancelled s =
      let s1 = (guard_input env cfg message s).1 in
      let R = Exchanged message s in
      and_then-ok (guard_input env cfg message s) _ R (λ v guarded.
        let p2 = build_user_turn env cfg v s1 in
        and_then-ok p2 _ R (λ current built.
          let p3 = raise_if_set env cfg cancelled p2.1 in
          and_then-ok p3 _ R (λ _ _.
            let p4 = compose_task env cfg current p3.1 in
            and_then-ok p4 _ R (λ task composed.
              let p5 = read_clock env cfg p4.1 in
              and_then-ok p5 _ R (λ start _.
                let before =
                  (read_clock-Keeps env cfg facts of_engine of_ticks p4.1
                    ∙ compose_task-Keeps env cfg facts of_engine of_ticks current p3.1
                    ∙ raise_if_set-Keeps env cfg facts of_engine of_ticks cancelled p2.1)
                  ∙ facts-build_user_turn v s1
                  ∙ ap (λ (f : Facts). (f.0 ++ (user, v) ∷ [], f.1))
                      (guard_input-Keeps env cfg facts of_engine of_ticks message s) in
                let p6 = run_agent env cfg task p5.1 in
                and_then-ok p6 _ R (λ result ran.
                  let p7 = read_clock env cfg p6.1 in
                  and_then-ok p7 _ R (λ end _.
                    let p8 = guard_output env cfg result.output p7.1 in
                    and_then-ok p8 _ R (λ text checked.
                      from_conclude message v task text s p8.1 result (end - start) guarded
                        (ap (λ n. env.run n task) (sym (ap (λ (f : Facts). f.1.2) before)) ∙ ran)
                        (guard_output-Keeps env cfg facts of_engine of_ticks result.output p7.1
                          ∙ read_clock-Keeps env cfg facts of_engine of_ticks p6.1
                          ∙ facts-run_agent task p5.1
                          ∙ ap (λ (f : Facts). (f.0, (f.1.0, f.1.1, suc f.1.2))) before)))))))))
