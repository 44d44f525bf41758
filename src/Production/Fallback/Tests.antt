-- ===== src/Production/Fallback/Tests.antt =====
-- A chain of two providers, and the theorems at it.
use agentforge_py.Prelude.{
  ℕ, ◌≡◌, refl, none, some, List, [], ◌∷◌, Result, ok, err, rate_limit_error, service_error,
  provider_error, authentication_error, Error, zero, suc,
}
use agentforge_py.Production.Errors.{caught_by}
use agentforge_py.Production.Fallback.Dispatch.{
  default_retry_on, Client, Chain, call, dispatch_with_fallback, provider_loop, attempt_loop,
  set_used,
}
use agentforge_py.Production.Fallback.Order.{call-first_decisive, schedule, first_decisive}

-- Limited twice, then answers.
abbrev third_time : ℕ → Result ℕ
third_time zero = err rate_limit_error
third_time (suc zero) = err service_error
third_time (suc (suc n)) = ok 7

abbrev flaky : Client ℕ
flaky = record {
  name = "a";
  declared = "caching" ∷ "tools" ∷ [];
  answer = third_time;
  closing = none;
}

abbrev steady : Client ℕ
steady = record { name = "b"; declared = "tools" ∷ []; answer = λ n. ok 9; closing = none }

abbrev retry_on : List Error
retry_on = provider_error ∷ []

abbrev chain : Chain ℕ
chain = record {
  clients = flaky ∷ steady ∷ [];
  retry_on = retry_on;
  attempts_per_provider = 2;
  last_used_provider = none;
}

-- Both attempts of the first provider fail, so the second one answers.
call-chain : call chain ≡ (ok 9, record chain { last_used_provider = some 1 })
unfolding dispatch_with_fallback provider_loop attempt_loop set_used caught_by
call-chain = refl

call-first_decisive_example :
    let o = first_decisive retry_on none (schedule 2 (flaky ∷ steady ∷ []) 0) in
    (call chain ≡ (o.result, set_used chain o.used))
    × (first_decisive {R = ℕ} default_retry_on none ((0, err authentication_error) ∷ (1, ok 9) ∷ [])
        ≡ first_decisive default_retry_on (some authentication_error) ((1, ok 9) ∷ []))
call-first_decisive_example = call-first_decisive chain 0 none ((1, ok 9) ∷ [])
