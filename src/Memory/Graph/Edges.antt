-- ===== src/Memory/Graph/Edges.antt =====
-- Lists of edges and maps of such lists, for the graph store
-- (packages/agentforge/src/agentforge/memory/in_memory_graph.py).
use agentforge_py.Prelude.{
  Bool, true, false, not, ◌&&◌, none, some, List, [], ◌∷◌, ◌++◌, String, ◌==◌, ◌≡◌, refl, arith,
  if◌then◌else◌, keep, any, All, eq_iff, eq_of_test, Bool-cases, inl, inr,
}
use agentforge_py.Prelude.Dict.{Dict, insert, erase, lookup-insert, lookup-erase}
use agentforge_py.Memory.Graph.{GraphEdge, entry, set_default, same_edge, first_edge, unlink}

pub eq_sym : (s t : String) → (s == t) ≡ (t == s)
eq_sym s t = ground (arith, eq_iff s t, eq_iff t s)

module _ {P : Type 0} where
  pub entry-insert :
      (k j : String) (es : List (GraphEdge P)) (d : Dict (List (GraphEdge P)))
      → entry j (insert k es d) ≡ (if k == j then es else entry j d)
  entry-insert k j es d = ground (arith, lookup-insert k j es d)

  pub entry-erase :
      (k j : String) (d : Dict (List (GraphEdge P)))
      → entry j (erase k d) ≡ (if k == j then [] else entry j d)
  entry-erase k j d = ground (arith, lookup-erase k j d)

  pub entry-set_default :
      (k j : String) (d : Dict (List (GraphEdge P))) → entry j (set_default k d) ≡ entry j d
  unfolding set_default
  entry-set_default k j d = ground (arith, lookup-insert k j [] d, eq_iff k j)

  pub keep-All :
      (Q : GraphEdge P → Type 0) (p : GraphEdge P → Bool) (es : List (GraphEdge P))
      → All Q es
      → All Q (keep p es)
  keep-All Q p [] h = tt
  keep-All Q p (e ∷ es) h = elim (Bool-cases (p e)) [
    | inl yes_p ↦ rw yes_p (h.0, keep-All Q p es h.1)
    | inr no_p ↦ rw no_p (keep-All Q p es h.1)
  ]

  pub first_edge-append :
      (p : GraphEdge P → Bool) (es fs : List (GraphEdge P))
      → first_edge p (es ++ fs)
        ≡ elim (first_edge p es) [ none ↦ first_edge p fs | some e ↦ some e ]
  first_edge-append p [] fs = refl
  first_edge-append p (e ∷ es) fs = ground (arith, first_edge-append p es fs)

-- The two maps in one: `near` is the end under whose node a list stands, `far` the other one.
module _ {P : Type 0} (near far : GraphEdge P → String)
    (splits : (x e : GraphEdge P)
      → same_edge x e ≡ (near x == near e && (far x == far e && x.edge_type == e.edge_type))) where
  abbrev pub at_end : String → String → GraphEdge P → Bool
  at_end b t e = far e == b && e.edge_type == t

  abbrev pub joins : String → String → String → GraphEdge P → Bool
  joins a b t e = near e == a && at_end b t e

  -- What a search finds once an edge has replaced the one with its end and type.
  pub first_edge-replace :
      (b t : String) (e : GraphEdge P) (es : List (GraphEdge P))
      → first_edge (at_end b t) (keep (λ x. not (at_end (far e) e.edge_type x)) es ++ e ∷ [])
        ≡ (if at_end b t e then some e else first_edge (at_end b t) es)
  first_edge-replace b t e [] = refl
  first_edge-replace b t e (x ∷ es) = ground (
    arith,
    first_edge-replace b t e es,
    eq_iff (far x) b,
    eq_iff (far x) (far e),
    eq_iff (far e) b,
    eq_iff x.edge_type t,
    eq_iff x.edge_type e.edge_type,
    eq_iff e.edge_type t,
  )

  -- An edge of `a` that the search accepts is the one taken out exactly if that joins `a` to `b`.
  same_edge-joins :
      (a b t : String) (e x : GraphEdge P)
      → near x ≡ a
      → at_end b t x ≡ true
      → same_edge x e ≡ joins a b t e
  same_edge-joins a b t e x here accepted =
      let to_b : far x ≡ b = eq_of_test (far x) b (ground arith) in
      let of_t : x.edge_type ≡ t = eq_of_test x.edge_type t (ground arith) in
      rw (splits x e, here, to_b, of_t)
        (rw (eq_sym a (near e), eq_sym b (far e), eq_sym t e.edge_type) refl)

  -- What a search in the list of `a` finds once an edge is taken out of it.
  pub first_edge-remove :
      (a b t : String) (e : GraphEdge P) (es : List (GraphEdge P))
      → All (λ x. near x ≡ a) es
      → first_edge (at_end b t) (keep (λ x. not (same_edge x e)) es)
        ≡ (if joins a b t e then none else first_edge (at_end b t) es)
  first_edge-remove a b t e [] h = elim (Bool-cases (joins a b t e)) [
    | inl j ↦ rw j refl
    | inr j ↦ rw j refl
  ]
  first_edge-remove a b t e (x ∷ es) h =
      let ih = first_edge-remove a b t e es h.1 in
      elim (Bool-cases (at_end b t x)) [
        | inl accepted ↦
            rw (same_edge-joins a b t e x h.0 accepted) (taken (joins a b t e) accepted ih)
        | inr refused ↦ passed (joins a b t e) (same_edge x e) refused ih
      ]
    where
      taken :
          (j : Bool)
          → at_end b t x ≡ true
          → first_edge (at_end b t) (keep (λ y. not (same_edge y e)) es)
            ≡ (if j then none else first_edge (at_end b t) es)
          → first_edge (at_end b t) (
              if not j
              then x ∷ keep (λ y. not (same_edge y e)) es
              else keep (λ y. not (same_edge y e)) es)
            ≡ (if j then none else (if at_end b t x then some x else first_edge (at_end b t) es))
      taken true accepted ih = ih
      taken false accepted ih = rw accepted refl

      passed :
          (j s : Bool)
          → at_end b t x ≡ false
          → first_edge (at_end b t) (keep (λ y. not (same_edge y e)) es)
            ≡ (if j then none else first_edge (at_end b t) es)
          → first_edge (at_end b t) (
              if not s
              then x ∷ keep (λ y. not (same_edge y e)) es
              else keep (λ y. not (same_edge y e)) es)
            ≡ (if j then none else (if at_end b t x then some x else first_edge (at_end b t) es))
      passed j true refused ih = rw refused ih
      passed j false refused ih = rw refused ih

  remove-All :
      (a : String) (e : GraphEdge P) (d : Dict (List (GraphEdge P)))
      → All (λ x. near x ≡ a) (entry a d)
      → All
          (λ x. near x ≡ a)
          (entry a (insert (near e) (keep (λ x. not (same_edge x e)) (entry (near e) d)) d))
  remove-All a e d h = elim (Bool-cases (near e == a)) [
    | inl same ↦
        rw
          (
            entry-insert (near e) a (keep (λ x. not (same_edge x e)) (entry (near e) d)) d,
            same,
            eq_of_test (near e) a same,
          )
          (keep-All (λ x. near x ≡ a) (λ x. not (same_edge x e)) (entry a d) h)
    | inr other ↦
        rw (entry-insert (near e) a (keep (λ x. not (same_edge x e)) (entry (near e) d)) d, other) h
  ]

  pub unlink-All :
      (a : String) (ks : List (GraphEdge P)) (d : Dict (List (GraphEdge P)))
      → All (λ x. near x ≡ a) (entry a d)
      → All (λ x. near x ≡ a) (entry a (unlink near ks d))
  unfolding unlink
  unlink-All a [] d h = h
  unlink-All a (e ∷ ks) d h = unlink-All a ks _ (remove-All a e d h)

  pub first_edge-unlink :
      (a b t : String) (ks : List (GraphEdge P)) (d : Dict (List (GraphEdge P)))
      → All (λ x. near x ≡ a) (entry a d)
      → first_edge (at_end b t) (entry a (unlink near ks d))
        ≡ (if any (joins a b t) ks then none else first_edge (at_end b t) (entry a d))
  unfolding unlink
  first_edge-unlink a b t [] d h = refl
  first_edge-unlink a b t (e ∷ ks) d h =
      let kept = keep (λ x. not (same_edge x e)) (entry (near e) d) in
      ground (
        arith,
        first_edge-unlink a b t ks (insert (near e) kept d) (remove-All a e d h),
        entry-insert (near e) a kept d,
        eq_iff (near e) a,
        first_edge-remove a b t e (entry a d) h,
      )

  -- A list of which no edge joins `a` to `b` has none to find.
  pub first_edge-none :
      (a b t : String) (es : List (GraphEdge P))
      → All (λ x. near x ≡ a) es
      → any (joins a b t) es ≡ false
      → first_edge (at_end b t) es ≡ none
  first_edge-none a b t [] h none_joins = refl
  first_edge-none a b t (e ∷ es) h none_joins =
      ground (arith, first_edge-none a b t es h.1, eq_iff (near e) a)

  -- A list at another node's end joins nothing to `b`.
  pub any-far :
      (a b c t : String) (es : List (GraphEdge P))
      → All (λ x. far x ≡ c) es
      → (c == b) ≡ false
      → any (joins a b t) es ≡ false
  any-far a b c t [] h other = refl
  any-far a b c t (e ∷ es) h other =
      ground (arith, any-far a b c t es h.1 other, eq_iff (far e) b, eq_iff c b)
