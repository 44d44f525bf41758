-- ===== src/Production/Fallback/Order.antt =====
-- The dispatch against a flat description: all attempts in order, of which the first that is not a
-- retryable failure decides (packages/agentforge-core/src/agentforge_core/production/fallback.py).
use agentforge_py.Prelude.{
  ℕ, zero, suc, ◌+◌, ◌≡◌, refl, inl, inr, true, false, Option, none, some, List, [], ◌∷◌, ◌++◌,
  arith, Error, authentication_error, Result, Result-cases, ok, err,
}
use agentforge_py.Production.Errors.{caught_by}
use agentforge_py.Production.Fallback.Dispatch.{
  default_retry_on, Client, Chain, Outcome, make_chain, exhausted, set_used, attempt_loop,
  provider_loop, dispatch_with_fallback, call,
}

module _ {R : Type 0} where
  -- The attempts of one provider, then of the next, each with the provider's index.
  abbrev attempts_of : Client R → ℕ → ℕ → ℕ → List (ℕ × Result R)
  attempts_of c index zero n = []
  attempts_of c index (suc left) n = (index, c.answer n) ∷ attempts_of c index left (n + 1)

  abbrev pub schedule : ℕ → List (Client R) → ℕ → List (ℕ × Result R)
  schedule attempts [] index = []
  schedule attempts (c ∷ cs) index =
      attempts_of c index attempts 0 ++ schedule attempts cs (index + 1)

  -- The first entry that is no retryable failure decides; without one, the last failure is raised.
  abbrev pub first_decisive : List Error → Option Error → List (ℕ × Result R) → Outcome R
  first_decisive retry last [] = record { result = exhausted last; used = none }
  first_decisive retry last ((i, ok r) ∷ rest) = record { result = ok r; used = some i }
  first_decisive retry last ((i, err e) ∷ rest) = elim (caught_by retry e) [
    | true ↦ first_decisive retry (some e) rest
    | false ↦ record { result = err e; used = none }
  ]

  finish : List Error → List (ℕ × Result R) → ℕ → Option Error × Option (Result R) → Outcome R
  finish retry rest index (last, none) = first_decisive retry last rest
  finish retry rest index (last, some (ok r)) = record { result = ok r; used = some index }
  finish retry rest index (last, some (err e)) = record { result = err e; used = none }

  attempt_loop-first_decisive :
      (retry : List Error) (c : Client R) (index left n : ℕ) (last : Option Error)
      (rest : List (ℕ × Result R))
      → first_decisive retry last (attempts_of c index left n ++ rest)
        ≡ finish retry rest index (attempt_loop retry c left n last)
  unfolding attempt_loop finish
  attempt_loop-first_decisive retry c index zero n last rest = refl
  attempt_loop-first_decisive retry c index (suc left) n last rest =
      elim (Result-cases (c.answer n)) [
        | inl (r, answered) ↦ ground arith
        | inr (e, raised) ↦
            ground (arith, attempt_loop-first_decisive retry c index left (n + 1) (some e) rest)
      ]

  provider_loop-first_decisive :
      (retry : List Error) (attempts : ℕ) (cs : List (Client R)) (index : ℕ) (last : Option Error)
      → provider_loop retry attempts cs index last
        ≡ first_decisive retry last (schedule attempts cs index)
  unfolding provider_loop finish
  provider_loop-first_decisive retry attempts [] index last = refl
  provider_loop-first_decisive retry attempts (c ∷ cs) index last = ground (
    arith,
    attempt_loop-first_decisive retry c index attempts 0 last (schedule attempts cs (index + 1)),
    provider_loop-first_decisive retry attempts cs (index + 1)
        (attempt_loop retry c attempts 0 last).0,
  )

  -- A call makes the attempts provider by provider, each `attempts_per_provider` times, and ends
  -- with the first that is not a retryable failure: a response is returned and its provider
  -- becomes `last_used_provider`; another exception is raised at once. Without such an attempt
  -- the last failure is raised. A failure is retryable if its class or one above it is listed, so
  -- with the default list an `AuthenticationError` is passed over too.
  pub call-first_decisive :
      (ch : Chain R) (i : ℕ) (last : Option Error) (rest : List (ℕ × Result R))
      → let o = first_decisive ch.retry_on none (schedule ch.attempts_per_provider ch.clients 0) in
        (call ch ≡ (o.result, set_used ch o.used))
        × (first_decisive default_retry_on last ((i, err authentication_error) ∷ rest)
            ≡ first_decisive default_retry_on (some authentication_error) rest)
  unfolding dispatch_with_fallback caught_by
  call-first_decisive ch i last rest = (
    rw (provider_loop-first_decisive ch.retry_on ch.attempts_per_provider ch.clients 0 none) refl,
    refl,
  )

  -- Whether every attempt that a chain may make is a failure that it retries on.
  abbrev pub AllRetryable : List Error → List (ℕ × Result R) → Type 0
  AllRetryable retry [] = Unit
  AllRetryable retry ((i, ok r) ∷ rest) = ⊥
  AllRetryable retry ((i, err e) ∷ rest) = (caught_by retry e ≡ true) × AllRetryable retry rest

  abbrev pub last_failure : Option Error → List (ℕ × Result R) → Option Error
  last_failure last [] = last
  last_failure last ((i, ok r) ∷ rest) = last_failure last rest
  last_failure last ((i, err e) ∷ rest) = last_failure (some e) rest

  first_decisive-exhausted :
      (retry : List Error) (last : Option Error) (l : List (ℕ × Result R))
      → AllRetryable retry l
      → first_decisive retry last l
        ≡ record { result = exhausted (last_failure last l); used = none }
  first_decisive-exhausted retry last [] h = refl
  first_decisive-exhausted retry last ((i, ok r) ∷ rest) h = absurd h
  first_decisive-exhausted retry last ((i, err e) ∷ rest) h =
      ground (arith, first_decisive-exhausted retry (some e) rest h.1)

  -- A list with an attempt in it has a last failure, if they all are failures.
  last_failure-some :
      (retry : List Error) (e : Error) (l : List (ℕ × Result R))
      → AllRetryable retry l
      → (x : Error) × (last_failure (some e) l ≡ some x)
  last_failure-some retry e [] h = (e, refl)
  last_failure-some retry e ((i, ok r) ∷ rest) h = absurd h
  last_failure-some retry e ((i, err f) ∷ rest) h = last_failure-some retry f rest h.1

  schedule_failure :
      (retry : List Error) (a : ℕ) (c : Client R) (cs : List (Client R))
      → AllRetryable retry (schedule (suc a) (c ∷ cs) 0)
      → (x : Error) × (last_failure none (schedule (suc a) (c ∷ cs) 0) ≡ some x)
  schedule_failure retry a c cs h = start ((0, c.answer 0)) _ h
    where
      start :
          (entry : ℕ × Result R) (l : List (ℕ × Result R))
          → AllRetryable retry (entry ∷ l)
          → (x : Error) × (last_failure none (entry ∷ l) ≡ some x)
      start (i, ok r) l h = absurd h
      start (i, err e) l h = last_failure-some retry e l h.1

  made_chain :
      (retry : List Error) (a : ℕ) (c : Client R) (cs : List (Client R)) (ch : Chain R)
      → make_chain (c ∷ cs) retry (suc a) ≡ ok ch
      → (ch.clients ≡ c ∷ cs) × (ch.retry_on ≡ retry) × (ch.attempts_per_provider ≡ suc a)
  unfolding make_chain
  made_chain retry a c cs ch made = ground arith

  -- Where every attempt of every provider fails with an exception that the chain retries on, a call
  -- on a chain that the constructor accepted raises the last failure of all, and the chain is left
  -- as it was.
  pub call-exhausted :
      (retry : List Error) (a : ℕ) (c : Client R) (cs : List (Client R)) (ch : Chain R)
      → make_chain (c ∷ cs) retry (suc a) ≡ ok ch
      → AllRetryable retry (schedule (suc a) (c ∷ cs) 0)
      → (e : Error) × (last_failure none (schedule (suc a) (c ∷ cs) 0) ≡ some e)
        × (call ch ≡ (err e, ch))
  unfolding dispatch_with_fallback set_used exhausted
  call-exhausted retry a c cs ch made h =
      let (e, last) = schedule_failure retry a c cs h in
      let (p, q, r) = made_chain retry a c cs ch made in
      (
        e,
        last,
        rw (p, q, r, provider_loop-first_decisive retry (suc a) (c ∷ cs) 0 none)
            (rw (first_decisive-exhausted retry none (schedule (suc a) (c ∷ cs) 0) h) (rw last)),
      )
