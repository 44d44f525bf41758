-- ===== src/Memory/Store.antt =====
-- `InMemoryStore` of packages/agentforge/src/agentforge/memory/in_memory.py. A claim's payload is a
-- parameter, and the time it was created is a number that grows with time. A stream yields the
-- claims of the moment it starts, so it is the list of them.
pub mod Queries
pub mod Keys
pub mod Runs
mod Tests
use agentforge_py.Prelude.{
  ℕ, suc, ◌+◌, Bool, true, false, ◌&&◌, Option, none, some, List, [], ◌∷◌, ◌++◌, String, ◌==◌, not,
  leb, length, if◌then◌else◌, Error, Result, ok, err, module_error,
}
use agentforge_py.Prelude.Dict.{Dict, lookup, insert, is_some}

pub record Claim (P : Type 0) : Type 0 where
  pub id : String
  pub run_id : String
  pub project : String
  pub agent : String
  pub category : String
  pub payload : P
  pub supersedes : Option String
  pub created_at : ℕ

-- The conjunctive filter of `query` and `stream`; `none` matches all.
pub record Filter : Type 0 where
  pub project : Option String
  pub agent : Option String
  pub category : Option String
  pub run_id : Option String

-- `want is not None and have != want`
abbrev pub differs : Option String → String → Bool
differs none have = false
differs (some want) have = not (have == want)

-- `older_than is not None and created_at >= older_than`
abbrev pub too_young : Option ℕ → ℕ → Bool
too_young none created = false
too_young (some bound) created = leb bound created

abbrev pub Items : Type 0 → Type 0
Items P = Dict (Claim P)

module _ {P : Type 0} where
  unfoldable pub put : Claim P → Items P → String × Items P
  put c items = (c.id, insert c.id c items)

  abbrev pub get : String → Items P → Option (Claim P)
  get k items = lookup k items

  -- The body of the loops of `query` and `stream`: `true` where they `continue`.
  unfoldable pub skipped : Filter → Claim P → Bool
  skipped f c =
      if differs f.project c.project
      then true
      else if differs f.agent c.agent
      then true
      else if differs f.category c.category
      then true
      else differs f.run_id c.run_id

  -- The loop of `query`, with the results so far. It tests the limit after each claim it takes.
  unfoldable pub query_loop : Filter → ℕ → Items P → List (Claim P) → List (Claim P)
  query_loop f limit [] results = results
  query_loop f limit ((k, c) ∷ items) results = elim (skipped f c) [
    | true ↦ query_loop f limit items results
    | false ↦
        let results' = results ++ c ∷ [] in
        let rest = query_loop f limit items results' in
        if leb limit (length results') then results' else rest
  ]

  unfoldable pub query : Filter → ℕ → Items P → List (Claim P)
  query f limit items = query_loop f limit items []

  unfoldable pub stream : Filter → Items P → List (Claim P)
  stream f [] = []
  stream f ((k, c) ∷ items) = let rest = stream f items in if skipped f c then rest else c ∷ rest

  -- `supersede`, once the old claim is known to be there
  supersede_with : String → Claim P → Option String → Items P → Result String × Items P
  supersede_with old c none items =
      let c' = record c { supersedes = some old } in (ok c'.id, insert c'.id c' items)
  supersede_with old c (some other) items =
      if not (other == old) then (err module_error, items) else (ok c.id, insert c.id c items)

  unfoldable pub supersede : String → Claim P → Items P → Result String × Items P
  unfolding supersede_with
  supersede old c items =
      if not (is_some (lookup old items))
      then (err module_error, items)
      else supersede_with old c c.supersedes items

  -- `true` where the loop of `delete` keeps the claim
  unfoldable pub kept : Option String → Option ℕ → Option String → Claim P → Bool
  kept run_id older_than category c =
      if differs run_id c.run_id
      then true
      else if differs category c.category
      then true
      else too_young older_than c.created_at

  unfoldable pub delete_loop :
      Option String → Option ℕ → Option String → Items P → Items P → ℕ → ℕ × Items P
  delete_loop run_id older_than category [] keep removed = (removed, keep)
  delete_loop run_id older_than category ((k, c) ∷ items) keep removed =
      elim (kept run_id older_than category c) [
        | true ↦ delete_loop run_id older_than category items (insert k c keep) removed
        | false ↦ delete_loop run_id older_than category items keep (removed + 1)
      ]

  unfoldable pub delete : Option String → Option ℕ → Option String → Items P → Result ℕ × Items P
  delete none none none items = (err module_error, items)
  delete run_id older_than category items =
      let (removed, keep) = delete_loop run_id older_than category items [] 0 in (ok removed, keep)

  unfoldable pub close : Items P → Items P
  close items = []
