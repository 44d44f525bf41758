-- ===== src/Production/Fallback/Capabilities.antt =====
-- What a chain may claim (packages/agentforge-core/src/agentforge_core/production/fallback.py).
use agentforge_py.Prelude.{
  ◌≡◌, refl, arith, not, ◌&&◌, List, [], ◌∷◌, String, member, member-keep, keep, all, if◌then◌else◌,
  err, capability_not_supported,
}
use agentforge_py.Production.Fallback.Dispatch.{
  Client, Chain, meet, capabilities, common_capabilities, is_empty, dispatch_with_fallback,
  call_with_cache,
}

module _ {R : Type 0} where
  member-meet :
      (s : String) (common : List String) (cs : List (Client R))
      → member s (meet common cs) ≡ (member s common && all (λ c. member s c.declared) cs)
  unfolding meet
  member-meet s common [] = ground arith
  member-meet s common (c ∷ cs) = ground (
    arith,
    member-meet s (keep (λ x. member x c.declared) common) cs,
    member-keep s (λ x. member x c.declared) common,
  )

  -- A chain claims a capability exactly when it has a provider and every provider declares it.
  pub member-capabilities :
      (s : String) (ch : Chain R)
      → member s (capabilities ch)
        ≡ (not (is_empty ch.clients) && all (λ c. member s c.declared) ch.clients)
  unfolding capabilities is_empty
  member-capabilities s ch = lem ch.clients
    where
      lem :
          (cs : List (Client R))
          → member s (common_capabilities cs)
            ≡ (not (is_empty cs) && all (λ (c : Client R). member s c.declared) cs)
      lem [] = refl
      lem (c ∷ cs) = member-meet s c.declared cs

  -- `call_with_cache` dispatches like `call` exactly when every provider declares "caching"; if one
  -- does not it raises `CapabilityNotSupported` and the chain is left alone.
  pub call_with_cache_lem :
      (ch : Chain R)
      → call_with_cache ch ≡ (
          if not (is_empty ch.clients) && all (λ c. member "caching" c.declared) ch.clients
          then dispatch_with_fallback ch
          else (err capability_not_supported, ch))
  unfolding call_with_cache
  call_with_cache_lem ch = rw (← member-capabilities "caching" ch) (ground arith)
