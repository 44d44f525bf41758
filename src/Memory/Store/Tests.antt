-- ===== src/Memory/Store/Tests.antt =====
-- A store with three claims, and the theorems at it.
use agentforge_py.Prelude.{ℕ, none, some, [], ◌∷◌, String, ◌≡◌, refl, inl, ok, ◌==◌, if◌then◌else◌}
use agentforge_py.Prelude.Dict.{lookup}
use agentforge_py.Memory.Store.{Claim, Filter, Items, query, query_loop, stream, skipped, supersede}
use agentforge_py.Memory.Store.Queries.{query-take}
use agentforge_py.Memory.Store.Keys.{supersede_keeps_history}

abbrev claim : String → String → ℕ → Claim ℕ
claim id run_id at = record {
  id = id;
  run_id = run_id;
  project = "p";
  agent = "a";
  category = "note";
  payload = at;
  supersedes = none;
  created_at = at;
}

abbrev items : Items ℕ
items = ("a", claim "a" "r1" 1) ∷ ("b", claim "b" "r2" 2) ∷ ("c", claim "c" "r1" 3) ∷ []

abbrev of_run : String → Filter
of_run r = record { project = none; agent = none; category = none; run_id = some r }

query-run : query (of_run "r1") 5 items ≡ claim "a" "r1" 1 ∷ claim "c" "r1" 3 ∷ []
unfolding query query_loop skipped
query-run = refl

query-take_example : query (of_run "r1") 0 items ≡ claim "a" "r1" 1 ∷ []
unfolding stream skipped
query-take_example = query-take (of_run "r1") 0 items

supersede_keeps_history_example :
    ((supersede "a" (claim "d" "r1" 4) items).0 ≡ ok "d")
    × ((k : String)
        → lookup k (supersede "a" (claim "d" "r1" 4) items).1 ≡ (
            if "d" == k
            then some (record (claim "d" "r1" 4) { supersedes = some "a" })
            else lookup k items))
unfolding lookup
supersede_keeps_history_example =
    supersede_keeps_history "a" (claim "d" "r1" 4) (claim "a" "r1" 1) items refl (inl refl)
