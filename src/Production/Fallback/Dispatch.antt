-- ===== src/Production/Fallback/Dispatch.antt =====
-- The chain's constructor, its dispatch loop, and the calls that go through it
-- (packages/agentforge-core/src/agentforge_core/production/fallback.py).
use agentforge_py.Prelude.{
  ℕ, zero, suc, ◌+◌, Bool, true, false, not, Option, none, some, List, [], ◌∷◌, reverse, String,
  ltb, member, keep, if◌then◌else◌, Error, Result, ok, err, value_error, capability_not_supported,
  rate_limit_error, provider_error,
}
use agentforge_py.Production.Errors.{caught_by, is_exception}

-- `_DEFAULT_RETRY_ON`
abbrev pub default_retry_on : List Error
default_retry_on = rate_limit_error ∷ provider_error ∷ []

-- What one provider does: what it declares, how it answers attempt n of a call, and what its
-- `close` raises, if anything.
pub record Client (R : Type 0) : Type 0 where
  pub name : String
  pub declared : List String
  pub answer : ℕ → Result R
  pub closing : Option Error

pub record Chain (R : Type 0) : Type 0 where
  pub clients : List (Client R)
  pub retry_on : List Error
  pub attempts_per_provider : ℕ
  pub last_used_provider : Option ℕ

-- What the loops end with: the response or exception, and the provider that answered.
pub record Outcome (R : Type 0) : Type 0 where
  pub result : Result R
  pub used : Option ℕ

module _ {R : Type 0} where
  unfoldable pub is_empty : List (Client R) → Bool
  is_empty [] = true
  is_empty (c ∷ cs) = false

  unfoldable pub make_chain : List (Client R) → List Error → ℕ → Result (Chain R)
  unfolding is_empty
  make_chain clients retry_on attempts =
      if is_empty clients
      then err value_error
      else if ltb attempts 1
      then err value_error
      else ok (record {
        clients = clients;
        retry_on = retry_on;
        attempts_per_provider = attempts;
        last_used_provider = none;
      })

  -- `for attempt in range(attempts_per_provider)`, from attempt `n` with `left` to go: a retryable
  -- exception becomes the last one and the loop goes on; a response or another exception ends the
  -- dispatch.
  unfoldable pub attempt_loop :
      List Error → Client R → ℕ → ℕ → Option Error → Option Error × Option (Result R)
  attempt_loop retry c zero n last = (last, none)
  attempt_loop retry c (suc left) n last = elim (c.answer n) [
    | ok r ↦ (last, some (ok r))
    | err e ↦ elim (caught_by retry e) [
      | true ↦ attempt_loop retry c left (n + 1) (some e)
      | false ↦ (last, some (err e))
    ]
  ]

  -- The last exception is raised when every provider is exhausted. `assert last_exc is not None`
  -- fails with no provider or no attempt.
  unfoldable pub exhausted : Option Error → Result R
  exhausted none = err (Error.builtin "AssertionError")
  exhausted (some e) = err e

  -- `for index, client in enumerate(self._clients)`
  unfoldable pub provider_loop : List Error → ℕ → List (Client R) → ℕ → Option Error → Outcome R
  provider_loop retry attempts [] index last = record { result = exhausted last; used = none }
  provider_loop retry attempts (c ∷ cs) index last =
      let (last', done) = attempt_loop retry c attempts 0 last in
      elim done [
        | none ↦ provider_loop retry attempts cs (index + 1) last'
        | some (ok r) ↦ record { result = ok r; used = some index }
        | some (err e) ↦ record { result = err e; used = none }
      ]

  unfoldable pub set_used : Chain R → Option ℕ → Chain R
  set_used ch none = ch
  set_used ch (some i) = record ch { last_used_provider = some i }

  unfoldable pub dispatch_with_fallback : Chain R → Result R × Chain R
  dispatch_with_fallback ch =
      let o = provider_loop ch.retry_on ch.attempts_per_provider ch.clients 0 none in
      (o.result, set_used ch o.used)

  unfoldable pub meet : List String → List (Client R) → List String
  meet common [] = common
  meet common (c ∷ cs) = meet (keep (λ s. member s c.declared) common) cs

  -- The intersection of what the providers declare.
  unfoldable pub common_capabilities : List (Client R) → List String
  common_capabilities [] = []
  common_capabilities (c ∷ cs) = meet c.declared cs

  unfoldable pub capabilities : Chain R → List String
  unfolding common_capabilities
  capabilities ch = common_capabilities ch.clients

  abbrev pub call : Chain R → Result R × Chain R
  call ch = dispatch_with_fallback ch

  guarded_call : String → Chain R → Result R × Chain R
  guarded_call cap ch =
      if not (member cap (capabilities ch))
      then (err capability_not_supported, ch)
      else dispatch_with_fallback ch

  -- The arguments of the three calls go to the providers unchanged.
  unfoldable pub call_with_cache : Chain R → Result R × Chain R
  unfolding guarded_call
  call_with_cache ch = guarded_call "caching" ch

  unfoldable pub call_with_thinking : Chain R → Result R × Chain R
  unfolding guarded_call
  call_with_thinking ch = guarded_call "thinking" ch

  unfoldable pub stream : Chain R → Result R
  stream ch = err capability_not_supported

  -- The names closed so far, and the exception that got out.
  close_each : List (Client R) → List String → List String × Option Error
  close_each [] closed = (closed, none)
  close_each (c ∷ cs) closed = elim c.closing [
    | none ↦ close_each cs (c.name ∷ closed)
    | some e ↦ elim (is_exception e) [
      | true ↦ close_each cs (c.name ∷ closed)
      | false ↦ (c.name ∷ closed, some e)
    ]
  ]

  -- In reverse order of construction; the list of names comes back in order of construction.
  unfoldable pub close : Chain R → List String × Option Error
  unfolding close_each
  close ch = close_each (reverse ch.clients) []
