-- ===== src/Memory/Store/Queries.antt =====
-- What `query` and `stream` return (packages/agentforge/src/agentforge/memory/in_memory.py).
use mathlib.Core.List.{append-nil, append_assoc}
use agentforge_py.Prelude.{
  ℕ, zero, suc, ◌+◌, ◌-◌, ◌<◌, max, false, List, [], ◌∷◌, ◌++◌, String, ◌≡◌, arith, length, take,
  length-append, Bool-cases, inl, inr, ◌∙◌, sym,
}
use agentforge_py.Memory.Store.{Claim, Filter, Items, skipped, query_loop, query, stream}

module _ {P : Type 0} where
  query_step :
      (f : Filter) (limit : ℕ) (k : String) (c : Claim P) (items : Items P)
      (results : List (Claim P))
      → skipped f c ≡ false
      → length (results ++ c ∷ []) < limit
      → query_loop f limit ((k, c) ∷ items) results ≡ query_loop f limit items (results ++ c ∷ [])
  unfolding query_loop
  query_step f limit k c items results hit room = ground arith

  query_loop-take :
      (f : Filter) (limit : ℕ) (items : Items P) (results : List (Claim P)) (left : ℕ)
      → length results + suc left ≡ max 1 limit
      → query_loop f limit items results ≡ results ++ take (suc left) (stream f items)
  unfolding query_loop stream
  query_loop-take f limit [] results left h = sym (append-nil results)
  query_loop-take f limit ((k, c) ∷ items) results zero h = elim (Bool-cases (skipped f c)) [
    | inl skip ↦ ground (arith, query_loop-take f limit items results 0 h)
    | inr hit ↦ ground (arith, length-append results (c ∷ []))
  ]
  query_loop-take f limit ((k, c) ∷ items) results (suc left) h = elim (Bool-cases (skipped f c)) [
    | inl skip ↦ ground (arith, query_loop-take f limit items results (suc left) h)
    | inr hit ↦
        let longer = length-append results (c ∷ []) in
        let rest = query_loop-take f limit items (results ++ c ∷ []) left (omega (arith, longer)) in
        rw (query_step f limit k c items results hit (omega (arith, longer)))
          (rest ∙ append_assoc results (c ∷ []) (take (suc left) (stream f items)) ∙ rw hit)
  ]

  -- A query returns the claims that its stream would yield, in the order of insertion, cut off at
  -- the limit; but a limit of 0 cuts off after the first claim.
  pub query-take :
      (f : Filter) (limit : ℕ) (items : Items P)
      → query f limit items ≡ take (max 1 limit) (stream f items)
  unfolding query
  query-take f limit items =
      let bound : max 1 limit ≡ suc (max 1 limit - 1) = omega arith in
      rw bound (query_loop-take f limit items [] (max 1 limit - 1) (omega arith))
