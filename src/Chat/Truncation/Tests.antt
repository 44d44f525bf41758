-- ===== src/Chat/Truncation/Tests.antt =====
-- A short history, and the theorems about truncation at it.
use agentforge_py.Prelude.{◌≤◌, ◌≡◌, refl, none, List, [], ◌∷◌, ◌++◌, String, ok, ◌-◌}
use agentforge_py.Chat.Truncation.{
  Role, system, user, assistant, tool, ChatTurn, keep_from, keep_pair_atomic, tokens_for_text,
  tokens_for_turn, Summariser, sliding_window, summarise_oldest, hybrid, one, more, select,
  select_window, select_budget, select_summary, condense, summary_of,
}
use agentforge_py.Chat.Truncation.Pairs.{IsPaired, select-IsPaired, second_result_dropped}
use agentforge_py.Chat.Truncation.Bounds.{Fills, sum_tokens, select_budget-Fills}

abbrev turn : String → Role → String → ChatTurn
turn id role content = record {
  id = id;
  session_id = "s";
  role = role;
  content = content;
  timestamp = 0;
  run_id = none;
  tool_calls = [];
  tool_call_id = none;
  tokens_in = 0;
  tokens_out = 0;
  cost_usd = 0;
}

abbrev history : List ChatTurn
history =
    turn "1" user "list the files"
    ∷ turn "2" assistant "ls"
    ∷ turn "3" tool "a b c"
    ∷ turn "4" tool "d"
    ∷ turn "5" assistant "done"
    ∷ []

-- The window cuts between a tool call and its result: the result goes too, and so does the second.
select_window-history : select_window 3 history ≡ turn "5" assistant "done" ∷ []
unfolding select_window keep_pair_atomic keep_from
select_window-history = refl

abbrev brief : Summariser
brief = record { summarise = λ ts. ok "talk"; summary_id = λ a b. a; summary_text = λ n s. s }

abbrev shortened : List ChatTurn
shortened = turn "1" system "talk" ∷ turn "5" assistant "done" ∷ []

select-IsPaired_example : IsPaired shortened
unfolding select select_summary select_window condense summary_of keep_pair_atomic keep_from
select-IsPaired_example =
    select-IsPaired (hybrid (more (sliding_window 5) (one (summarise_oldest 1 brief)))) "next"
      history shortened refl

second_result_dropped_example :
    keep_pair_atomic history
    ≡ keep_pair_atomic (turn "1" user "list the files" ∷ [])
      ++ turn "2" assistant "ls"
        ∷ turn "3" tool "a b c"
        ∷ keep_pair_atomic (turn "5" assistant "done" ∷ [])
second_result_dropped_example =
    second_result_dropped (turn "1" user "list the files" ∷ []) (turn "5" assistant "done" ∷ [])
      (turn "2" assistant "ls") (turn "3" tool "a b c") (turn "4" tool "d") refl refl refl

select_budget-Fills_example :
    let room = 4 - tokens_for_text none "hi" in
    (chosen : List ChatTurn) × Fills (tokens_for_turn none) room history chosen
    × (select_budget 4 none "hi" history ≡ keep_pair_atomic chosen)
    × (sum_tokens (tokens_for_turn none) (select_budget 4 none "hi" history) ≤ room)
select_budget-Fills_example = select_budget-Fills 4 none "hi" history
