-- ===== src/Strategies/React/Tests.antt =====
-- A model that calls one tool and then answers, and the theorems at it.
use agentforge_py.Prelude.{zero, suc, ◌≡◌, refl, none, some, [], ◌∷◌, ok, arith}
use agentforge_py.Production.Budget.{
  check, commit, increment_iteration, record_error, record_success,
}
use agentforge_py.Strategies.Base.{
  LlmResponse, RunState, Llm, Tool, call_llm, check_guardrails, record_step, dispatch_tool,
  find_tool, is_error,
}
use agentforge_py.Strategies.React.{
  Turn, run, react_loop, act_on, dispatch_calls, act_step, observe_step, no_calls,
}
use agentforge_py.Prelude.{◌++◌}
use agentforge_py.Strategies.Events.{done_event, events_for_new_steps}
use agentforge_py.Strategies.React.Stream.{stream}
use agentforge_py.Strategies.React.Yields.{react_stream-run}
use agentforge_py.Strategies.React.Termination.{IsAccounted, run-IsAccounted}
use agentforge_py.Strategies.React.Transcript.{unanswered, run-answered}

abbrev asks : LlmResponse
asks = record {
  content = "let me look";
  tool_calls =
      record { id = "t1"; name = "ls"; arguments = "" }
      ∷ record { id = "t2"; name = "no"; arguments = "" }
      ∷ [];
  tokens_in = 10;
  tokens_out = 5;
  cost_usd = 3;
}

abbrev answers : LlmResponse
answers = record { content = "done"; tool_calls = []; tokens_in = 20; tokens_out = 5; cost_usd = 4 }

abbrev model : Llm
model messages zero = ok asks
model messages (suc n) = ok answers

abbrev ls : Tool
ls = record { name = "ls"; validate = λ a. some a; run = λ a n. ok "a b" }

abbrev fresh : RunState
fresh = record {
  budget = record {
    usd = 100;
    max_tokens = 1000;
    max_iterations = 5;
    error_streak_limit = 3;
    spent_usd = 0;
    reserved_usd = 0;
    consumed_tokens = 0;
    iteration = 0;
    error_streak = 0;
  };
  steps = [];
  llm_calls = 0;
  tool_runs = 0;
}

run-IsAccounted_example :
    (t : Turn) × (run model (ls ∷ []) none "task" 6 fresh ≡ some t) × IsAccounted fresh t.state
run-IsAccounted_example = run-IsAccounted model (ls ∷ []) "task" 6 fresh (omega arith)

run_example : (t : Turn) × (run model (ls ∷ []) none "task" 6 fresh ≡ some t) × (t.result ≡ ok tt)
unfolding run react_loop act_on dispatch_calls act_step observe_step no_calls call_llm
    check_guardrails check commit increment_iteration record_step record_error record_success
    dispatch_tool find_tool is_error
run_example = (_, refl, refl)

run-answered_example : unanswered [] run_example.0.messages ≡ some []
run-answered_example =
    run-answered model (ls ∷ []) none "task" 6 fresh run_example.0 run_example.1 run_example.2

react_stream-run_example :
    stream model (ls ∷ []) none "task" 6 fresh
    ≡ some (record {
      result = ok tt;
      state = run_example.0.state;
      messages = run_example.0.messages;
      events =
          events_for_new_steps run_example.0.state.steps 0
          ++ done_event run_example.0.state.budget.spent_usd ∷ [];
    })
react_stream-run_example =
    react_stream-run model (ls ∷ []) "task" 6 fresh run_example.0 run_example.1 run_example.2
