-- ===== src/Strategies/Tot/Tests.antt =====
-- A search of one level with two thoughts, and the theorems at it.
use agentforge_py.Prelude.{
  zero, suc, false, All, ◌==◌, if◌then◌else◌, ◌≡◌, ◌++◌, refl, some, List, [], ◌∷◌, String, ok,
  length,
}
use agentforge_py.Prelude.Dict.{lookup, insert}
use agentforge_py.Production.Budget.{remaining_usd, check, commit, increment_iteration}
use agentforge_py.Strategies.Base.{
  LlmResponse, RunState, Llm, call_llm, check_guardrails, record_step,
}
use agentforge_py.Strategies.React.Termination.{IsAccounted}
use agentforge_py.Strategies.Events.{done_event, events_for_new_steps}
use agentforge_py.Strategies.Tot.Tree.{
  Thought, TreeOfThoughts, walk, path_to_root, sort_by_score, truncate, thoughts_of, score_by_id,
  score_of, add_child, add_children, above, can_afford_next_level, best_from, best,
}
use agentforge_py.Strategies.Tot.Search.{
  Surroundings, explore, run, generate, score, grow, score_and_grow, expand, survivor_loop,
  iterate_depth, level_loop, synthesise,
}
use agentforge_py.Strategies.Tot.Stream.{stream}
use agentforge_py.Strategies.Tot.Keeps.{Said}
use agentforge_py.Strategies.Tot.Path.{answer_from_root, run-answer_from_root}
use agentforge_py.Strategies.Tot.Calls.{tot_run-IsAccounted}
use agentforge_py.Strategies.Tot.Events.{stream-run}

abbrev says : String → LlmResponse
says text = record { content = text; tool_calls = []; tokens_in = 10; tokens_out = 5; cost_usd = 3 }

abbrev oracle : Llm
oracle messages zero = ok (says "thoughts")
oracle messages (suc zero) = ok (says "scores")
oracle messages (suc (suc n)) = ok (says "done")

abbrev two : List Thought
two = record { id = "a"; content = "left" } ∷ record { id = "b"; content = "right" } ∷ []

abbrev around : Surroundings
around = record {
  llm = oracle;
  parse_thoughts = λ text.
      if text == "root" then some (record { id = "root"; content = text } ∷ []) else some two;
  parse_scores = λ text. some (("a", 900) ∷ ("b", 400) ∷ []);
  shown = λ n. "0.5";
  floor = 1;
  task = "task";
}

abbrev tot : TreeOfThoughts
tot = record {
  branch_factor = 2;
  depth = 1;
  score_threshold = 500;
  scorer = "self";
  beam_width = some 1;
}

abbrev start : RunState
start = record {
  budget = record {
    usd = 100;
    max_tokens = 1000;
    max_iterations = 5;
    error_streak_limit = 3;
    spent_usd = 0;
    reserved_usd = 0;
    consumed_tokens = 0;
    iteration = 0;
    error_streak = 0;
  };
  steps = [];
  llm_calls = 0;
  tool_runs = 0;
}

ran :
    (s : RunState) × (run around tot (λ n. "1") 5 "root" start ≡ some (ok (says "done"), s))
    × (length s.steps ≡ 5)
unfolding run explore level_loop iterate_depth survivor_loop expand score_and_grow grow generate
    score synthesise call_llm check_guardrails check commit increment_iteration record_step walk
    path_to_root sort_by_score truncate thoughts_of score_by_id score_of add_child add_children
    above can_afford_next_level best_from best lookup insert remaining_usd
ran = (_, refl, refl)

-- No answer of the model is read as a thought with the id of the root, though some text is.
oracle-fresh :
    (text : String)
    → Said around text
    → All (λ (x : Thought). (x.id == "root") ≡ false) (thoughts_of (around.parse_thoughts text))
unfolding thoughts_of
oracle-fresh text (messages, zero, r, answered, same) =
    rw (same, ← content_of answered) (refl, (refl, tt))
  where
    content_of : ok (says "thoughts") ≡ ok r → "thoughts" ≡ r.content
    content_of h = cc h
oracle-fresh text (messages, suc zero, r, answered, same) =
    rw (same, ← content_of answered) (refl, (refl, tt))
  where
    content_of : ok (says "scores") ≡ ok r → "scores" ≡ r.content
    content_of h = cc h
oracle-fresh text (messages, suc (suc n), r, answered, same) =
    rw (same, ← content_of answered) (refl, (refl, tt))
  where
    content_of : ok (says "done") ≡ ok r → "done" ≡ r.content
    content_of h = cc h

run-answer_from_root_example :
    run around tot (λ n. "1") 5 "root" start
    ≡ some (answer_from_root around tot (λ n. "1") "root" (explore around tot "root" start))
unfolding thoughts_of
run-answer_from_root_example =
    run-answer_from_root around tot (λ n. "1") 4 "root" start oracle-fresh

tot_run-IsAccounted_example : IsAccounted start ran.0
tot_run-IsAccounted_example =
    tot_run-IsAccounted around tot (λ n. "1") 5 "root" start ran.0 (ok (says "done")) ran.1

stream-run_example :
    stream around tot (λ n. "1") 5 "root" start
    ≡ some (record {
      result = ok (says "done");
      state = ran.0;
      events = events_for_new_steps ran.0.steps 0 ++ done_event ran.0.budget.spent_usd ∷ [];
    })
stream-run_example = stream-run around tot (λ n. "1") 5 "root" start ran.0 (says "done") ran.1
