-- ===== src/Memory/Store/Keys.antt =====
-- Which claims the store holds after a write (packages/agentforge/src/agentforge/memory/in_memory.py).
use mathlib.Core.List.{append-nil, append_assoc}
use agentforge_py.Prelude.{
  ℕ, ◌+◌, true, ◌||◌, sym, Option, none, some, [], ◌∷◌, ◌++◌, String, ◌≡◌, ◌≢◌, ◌⊎◌, refl, arith,
  length, ◌==◌, eq_iff, eq_refl, Bool-cases, inl, inr, if◌then◌else◌, ok, err, module_error, keep,
}
use agentforge_py.Prelude.Dict.{lookup, insert, is_some, lookup-insert}
use agentforge_py.Memory.Store.{Claim, Items, supersede, kept, delete_loop, delete}

module _ {P : Type 0} where
  -- Every claim stands under its own id.
  abbrev pub IsKeyed : Items P → Type 0
  IsKeyed [] = Unit
  IsKeyed ((k, c) ∷ items) = (c.id ≡ k) × IsKeyed items

  pub insert-IsKeyed :
      (c : Claim P) (items : Items P) → IsKeyed items → IsKeyed (insert c.id c items)
  unfolding insert
  insert-IsKeyed c [] h = (refl, tt)
  insert-IsKeyed c ((k, d) ∷ items) h = ground (arith, eq_iff k c.id, insert-IsKeyed c items h.1)

  pub lookup-IsKeyed :
      (k : String) (c : Claim P) (items : Items P)
      → IsKeyed items
      → lookup k items ≡ some c
      → c.id ≡ k
  unfolding lookup
  lookup-IsKeyed k c [] h e = cc
  lookup-IsKeyed k c ((j, d) ∷ items) h e = ground (arith, eq_iff j k, lookup-IsKeyed k c items h.1)

  -- Superseding a claim that is there, by a new claim that names the old one or none: the new id is
  -- returned, the new claim is stored under it as superseding the old one, and every other id has
  -- the claim that it had, the old id included unless it is the new one too.
  pub supersede_keeps_history :
      (old : String) (c d : Claim P) (items : Items P)
      → lookup old items ≡ some d
      → (c.supersedes ≡ none) ⊎ (c.supersedes ≡ some old)
      → ((supersede old c items).0 ≡ ok c.id)
        × ((k : String)
            → lookup k (supersede old c items).1
              ≡ (if c.id == k then some (record c { supersedes = some old }) else lookup k items))
  unfolding supersede
  supersede_keeps_history old c d items there (inl fresh) = (
    ground arith,
    λ k. ground (arith, lookup-insert c.id k (record c { supersedes = some old }) items),
  )
  supersede_keeps_history old c d items there (inr named) = (
    ground (arith, eq_refl old),
    λ k.
        ground
          (arith, eq_refl old, lookup-insert c.id k (record c { supersedes = some old }) items),
  )

  -- A claim that names another predecessor, or an old id that is not there: `ModuleError`, and the
  -- store is as it was.
  pub supersede_refused :
      (old : String) (c : Claim P) (items : Items P)
      → (lookup old items ≡ none) ⊎ ((x : String) × (c.supersedes ≡ some x) × (x ≢ old))
      → supersede old c items ≡ (err module_error, items)
  unfolding supersede
  supersede_refused old c items (inl missing) = ground arith
  supersede_refused old c items (inr (x, named, other)) = ground (arith, eq_iff x old)

  -- The entries that a `delete` with these filters keeps.
  abbrev pub survivors : Option String → Option ℕ → Option String → Items P → Items P
  survivors run_id older_than category items = keep (λ e. kept run_id older_than category e.1) items

  -- No id occurs twice.
  abbrev pub IsDistinct : Items P → Type 0
  IsDistinct [] = Unit
  IsDistinct ((k, c) ∷ items) = (lookup k items ≡ none) × IsDistinct items

  insert_new :
      (k : String) (c : Claim P) (items : Items P)
      → lookup k items ≡ none
      → insert k c items ≡ items ++ (k, c) ∷ []
  unfolding insert lookup
  insert_new k c [] h = refl
  insert_new k c ((j, d) ∷ items) h = ground (arith, insert_new k c items)

  lookup-append :
      (k : String) (xs ys : Items P)
      → lookup k (xs ++ ys) ≡ (if is_some (lookup k xs) then lookup k xs else lookup k ys)
  unfolding lookup
  lookup-append k [] ys = refl
  lookup-append k ((j, d) ∷ xs) ys = ground (arith, lookup-append k xs ys)

  distinct_before :
      (k : String) (c : Claim P) (xs ys : Items P)
      → IsDistinct (xs ++ (k, c) ∷ ys)
      → lookup k xs ≡ none
  unfolding lookup
  distinct_before k c [] ys h = refl
  distinct_before k c ((j, d) ∷ xs) ys h = ground (
    arith,
    distinct_before k c xs ys h.1,
    lookup-append j xs ((k, c) ∷ ys),
    eq_iff j k,
    eq_iff k j,
  )

  IsDistinct-without :
      (k : String) (c : Claim P) (xs ys : Items P)
      → IsDistinct (xs ++ (k, c) ∷ ys)
      → IsDistinct (xs ++ ys)
  unfolding lookup
  IsDistinct-without k c [] ys h = h.1
  IsDistinct-without k c ((j, d) ∷ xs) ys h = (
    ground (arith, lookup-append j xs ((k, c) ∷ ys), lookup-append j xs ys),
    IsDistinct-without k c xs ys h.1,
  )

  delete_loop-survivors :
      (run_id : Option String) (older_than : Option ℕ) (category : Option String)
      (items held : Items P) (removed : ℕ)
      → IsDistinct (held ++ items)
      → ((delete_loop run_id older_than category items held removed).0
            + length (survivors run_id older_than category items)
          ≡ removed + length items)
        × ((delete_loop run_id older_than category items held removed).1
            ≡ held ++ survivors run_id older_than category items)
  unfolding delete_loop
  delete_loop-survivors run_id older_than category [] held removed h = (refl, sym (append-nil held))
  delete_loop-survivors run_id older_than category ((k, c) ∷ items) held removed h =
      elim (Bool-cases (kept run_id older_than category c)) [
        | inl keeps ↦
            let new = insert_new k c held (distinct_before k c held items h) in
            let split = append_assoc held ((k, c) ∷ []) items in
            let (count, rest) =
              delete_loop-survivors run_id older_than category items (held ++ (k, c) ∷ []) removed
                (rw split h) in
            (
              ground (arith, new),
              ground (
                arith,
                new,
                append_assoc held ((k, c) ∷ []) (survivors run_id older_than category items),
              ),
            )
        | inr drops ↦
            let (count, rest) =
              delete_loop-survivors run_id older_than category items held (removed + 1)
                (IsDistinct-without k c held items h) in
            (ground arith, ground arith)
      ]

  -- With a filter set, and no id stored twice, `delete` keeps exactly the claims that one of the
  -- filters spares, in their order, and returns the number of the others.
  pub delete-survivors :
      (run_id : Option String) (older_than : Option ℕ) (category : Option String) (items : Items P)
      → IsDistinct items
      → (is_some run_id || is_some older_than || is_some category) ≡ true
      → (n : ℕ) × (delete run_id older_than category items
          ≡ (ok n, survivors run_id older_than category items))
        × (n + length (survivors run_id older_than category items) ≡ length items)
  unfolding delete
  delete-survivors run_id older_than category items distinct some_filter =
      let (count, rest) = delete_loop-survivors run_id older_than category items [] 0 distinct in
      ((delete_loop run_id older_than category items [] 0).0, ground arith, omega arith)
