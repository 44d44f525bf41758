-- ===== src/Memory/Store/Runs.antt =====
-- The store after any sequence of its writes (packages/agentforge/src/agentforge/memory/in_memory.py).
use agentforge_py.Prelude.{
  ℕ, Bool, false, ◌||◌, Option, none, some, List, [], ◌∷◌, String, ◌≡◌, refl, arith, eq_iff,
  Bool-cases, inl, inr, keep,
}
use agentforge_py.Prelude.Dict.{lookup, insert, lookup-insert, is_some}
use agentforge_py.Memory.Store.{Claim, Items, put, get, supersede, delete, close, kept}
use agentforge_py.Memory.Store.Keys.{
  IsKeyed, IsDistinct, insert-IsKeyed, lookup-IsKeyed, delete-survivors,
}

-- A call of one of the writing methods.
pub data Op (P : Type 0) : Type 0 where
  write : Claim P → Op P
  replace : String → Claim P → Op P
  purge : Option String → Option ℕ → Option String → Op P
  shut : Op P

module _ {P : Type 0} where
  abbrev pub step : Op P → Items P → Items P
  step (write c) items = (put c items).1
  step (replace old c) items = (supersede old c items).1
  step (purge run_id older_than category) items = (delete run_id older_than category items).1
  step shut items = close items

  abbrev pub run : List (Op P) → Items P → Items P
  run [] items = items
  run (op ∷ ops) items = run ops (step op items)

  -- Every claim stands under its own id, and no id is there twice.
  abbrev pub IsSound : Items P → Type 0
  IsSound items = IsKeyed items × IsDistinct items

  insert-IsDistinct :
      (k : String) (c : Claim P) (items : Items P)
      → IsDistinct items
      → IsDistinct (insert k c items)
  unfolding insert lookup
  insert-IsDistinct k c [] h = (refl, tt)
  insert-IsDistinct k c ((j, d) ∷ items) h =
      ground
        (arith, eq_iff j k, eq_iff k j, insert-IsDistinct k c items h.1, lookup-insert k j c items)

  keep-IsKeyed :
      (p : String × Claim P → Bool) (items : Items P) → IsKeyed items → IsKeyed (keep p items)
  keep-IsKeyed p [] h = tt
  keep-IsKeyed p ((k, c) ∷ items) h = ground (arith, keep-IsKeyed p items h.1)

  lookup-keep :
      (k : String) (p : String × Claim P → Bool) (items : Items P)
      → lookup k items ≡ none
      → lookup k (keep p items) ≡ none
  unfolding lookup
  lookup-keep k p [] h = refl
  lookup-keep k p ((j, d) ∷ items) h = ground (arith, lookup-keep k p items)

  keep-IsDistinct :
      (p : String × Claim P → Bool) (items : Items P) → IsDistinct items → IsDistinct (keep p items)
  keep-IsDistinct p [] h = tt
  keep-IsDistinct p ((k, c) ∷ items) h =
      ground (arith, keep-IsDistinct p items h.1, lookup-keep k p items)

  put-IsSound : (c : Claim P) (items : Items P) → IsSound items → IsSound (insert c.id c items)
  put-IsSound c items h = (insert-IsKeyed c items h.0, insert-IsDistinct c.id c items h.1)

  supersede-IsSound :
      (old : String) (c : Claim P) (items : Items P)
      → IsSound items
      → IsSound (supersede old c items).1
  unfolding supersede
  supersede-IsSound old c items h =
      let named = put-IsSound (record c { supersedes = some old }) items h in
      let given = put-IsSound c items h in ground arith

  delete-IsSound :
      (run_id : Option String) (older_than : Option ℕ) (category : Option String) (items : Items P)
      → IsSound items
      → IsSound (delete run_id older_than category items).1
  unfolding delete
  delete-IsSound run_id older_than category items h =
      elim (Bool-cases (is_some run_id || is_some older_than || is_some category)) [
        | inl filtered ↦
            let (n, gone, count) = delete-survivors run_id older_than category items h.1 filtered in
            rw gone (
              keep-IsKeyed (λ e. kept run_id older_than category e.1) items h.0,
              keep-IsDistinct (λ e. kept run_id older_than category e.1) items h.1,
            )
        | inr open_ended ↦ refused run_id older_than category open_ended
      ]
    where
      refused :
          (r : Option String) (o : Option ℕ) (g : Option String)
          → (is_some r || is_some o || is_some g) ≡ false
          → IsSound (delete r o g items).1
      refused none none none e = h
      refused (some r) o g e = cc
      refused none (some o) g e = cc
      refused none none (some g) e = cc

  step-IsSound : (op : Op P) (items : Items P) → IsSound items → IsSound (step op items)
  unfolding put close
  step-IsSound (write c) items h = put-IsSound c items h
  step-IsSound (replace old c) items h = supersede-IsSound old c items h
  step-IsSound (purge r o g) items h = delete-IsSound r o g items h
  step-IsSound shut items h = (tt, tt)

  run-IsSound : (ops : List (Op P)) (items : Items P) → IsSound items → IsSound (run ops items)
  run-IsSound [] items h = h
  run-IsSound (op ∷ ops) items h = run-IsSound ops (step op items) (step-IsSound op items h)

  -- After any writes to a new store, no id is stored twice, and a claim that `get` finds under an
  -- id has that id.
  pub get_after_run :
      (ops : List (Op P)) (k : String) (c : Claim P)
      → get k (run ops []) ≡ some c
      → (c.id ≡ k) × IsDistinct (run ops [])
  get_after_run ops k c found =
      let sound = run-IsSound ops [] (tt, tt) in
      (lookup-IsKeyed k c (run ops []) sound.0 found, sound.1)
