-- ===== src/Chat/Session/Caching.antt =====
-- A chat session and its idempotency keys.
use agentforge_py.Prelude.{
  ℕ, suc, ◌+◌, ◌-◌, ◌≤◌, Bool, false, ◌≡◌, refl, arith, subst, sym, ◌∙◌, ap, Option, none, some, [],
  String, ltb, if◌then◌else◌, Error, Result, ok, err, eq_refl, Option-cases, inl, inr,
}
use agentforge_py.Chat.Idempotency.{IdempotencyCache}
use agentforge_py.Chat.Idempotency.Recency.{get-put_all, get-limits}
use agentforge_py.Chat.History.{turns_of}
use agentforge_py.Chat.History.Sessions.{delete_session_lem}
use agentforge_py.Chat.Session.{
  RunResult, ChatResponse, Surroundings, Settings, ChatSession, add_turn,
}
use agentforge_py.Chat.Session.Keeps.{
  Keeps, enforce_budgets_same, chain-Keeps, persist_steps-Keeps, run_turn-Keeps,
}
use agentforge_py.Chat.Session.Run.{
  conclude, run_turn, check_cache, stash_cache, stash_ok, unless_cached, send, persist_steps,
  persist_assistant, account, enforce_budgets, reset,
}

module _ (env : Surroundings) (cfg : Settings) where
  abbrev cache_of : ChatSession → IdempotencyCache ChatResponse
  cache_of s = s.idempotency

  add_turn-cache :
      (s : ChatSession) (t : package.agentforge_py.Chat.Truncation.ChatTurn)
      → cache_of (add_turn env cfg t s) ≡ cache_of s
  unfolding add_turn
  add_turn-cache s t = refl

  persist_assistant-cache :
      (text : String) (result : RunResult) → Keeps cache_of (persist_assistant env cfg text result)
  unfolding persist_assistant account add_turn
  persist_assistant-cache text result s = refl

  enforce_budgets-cache : (cost : ℕ) → Keeps cache_of (enforce_budgets env cfg cost)
  enforce_budgets-cache cost s = ap cache_of (enforce_budgets_same env cfg cost s)

  conclude-cache :
      (result : RunResult) (d : ℕ) (text : String) → Keeps cache_of (conclude env cfg result d text)
  unfolding conclude
  conclude-cache result d text =
      chain-Keeps cache_of (persist_steps env cfg result) _
        (persist_steps-Keeps env cfg cache_of (λ s g. refl) (λ s n. refl) (λ s n. refl)
          add_turn-cache result)
        (λ calls.
          chain-Keeps cache_of (persist_assistant env cfg text result) _
            (persist_assistant-cache text result)
            (λ turn.
              chain-Keeps cache_of (enforce_budgets env cfg result.cost_usd) _
                (enforce_budgets-cache result.cost_usd) (λ _ s. refl)))

  run_turn-cache :
      (message : String) (cancelled : Bool) → Keeps cache_of (run_turn env cfg message cancelled)
  run_turn-cache =
      run_turn-Keeps env cfg cache_of (λ s g. refl) (λ s n. refl) (λ s n. refl) add_turn-cache
        conclude-cache

  unless_cached-miss :
      (message : String) (key : Option String) (cancelled : Bool)
      (p : Option ChatResponse × ChatSession)
      → p.0 ≡ none
      → unless_cached env cfg message key cancelled p
        ≡ stash_ok env cfg key (run_turn env cfg message cancelled p.1)
  unless_cached-miss message key cancelled (none, s) h = refl
  unless_cached-miss message key cancelled (some r, s) h = absurd (cc h)

  unless_cached-hit :
      (message : String) (key : Option String) (cancelled : Bool)
      (p : Option ChatResponse × ChatSession) (r : ChatResponse)
      → p.0 ≡ some r
      → unless_cached env cfg message key cancelled p ≡ (ok r, p.1)
  unless_cached-hit message key cancelled (none, s) r h = cc h
  unless_cached-hit message key cancelled (some r', s) r h = cc h

  stash_ok-ok :
      (key : Option String) (p : Result ChatResponse × ChatSession) (r : ChatResponse)
      → (stash_ok env cfg key p).0 ≡ ok r
      → stash_ok env cfg key p ≡ (ok r, stash_cache env cfg key r p.1)
  stash_ok-ok key (ok r', s) r h = cc h
  stash_ok-ok key (err e, s) r h = cc h

  stash_ok-err :
      (key : Option String) (p : Result ChatResponse × ChatSession) (e : Error)
      → (stash_ok env cfg key p).0 ≡ err e
      → (stash_ok env cfg key p).1 ≡ p.1
  stash_ok-err key (ok r, s) e h = cc h
  stash_ok-err key (err e', s) e h = refl

  -- A send whose key has a live entry answers with it, and changes nothing but the cache and the
  -- clock: the agent does not run, no turn is added and nothing is charged.
  send-hit :
      (message : String) (key : String) (cancelled : Bool) (s : ChatSession) (r : ChatResponse)
      → (check_cache env cfg (some key) s).0 ≡ some r
      → ((send env cfg message (some key) cancelled s).0 ≡ ok r)
        × (((send env cfg message (some key) cancelled s).1.runs ≡ s.runs)
            × (((send env cfg message (some key) cancelled s).1.history ≡ s.history)
                × ((send env cfg message (some key) cancelled s).1.total_cost ≡ s.total_cost)))
  unfolding send check_cache
  send-hit message key cancelled s r h =
      let same =
        unless_cached-hit message (some key) cancelled (check_cache env cfg (some key) s) r h in
      (
        ap (λ p. p.0) same,
        (ap (λ p. p.1.runs) same, (ap (λ p. p.1.history) same, ap (λ p. p.1.total_cost) same)),
      )

  -- A send that raises leaves nothing in the cache: what it holds is what the lookup of the key left.
  send-err :
      (message : String) (key : Option String) (cancelled : Bool) (s : ChatSession) (e : Error)
      → (send env cfg message key cancelled s).0 ≡ err e
      → (send env cfg message key cancelled s).1.idempotency
        ≡ (check_cache env cfg key s).1.idempotency
  unfolding send
  send-err message key cancelled s e h = elim (Option-cases (check_cache env cfg key s).0) [
    | inl miss ↦
        let same = unless_cached-miss message key cancelled (check_cache env cfg key s) miss in
        ap (λ p. p.1.idempotency) same
        ∙ ap cache_of (
            stash_ok-err key (run_turn env cfg message cancelled (check_cache env cfg key s).1) e
              (sym (ap (λ p. p.0) same) ∙ h))
        ∙ run_turn-cache message cancelled (check_cache env cfg key s).1
    | inr (r, hit) ↦
        ap (λ p. p.1.idempotency)
          (unless_cached-hit message key cancelled (check_cache env cfg key s) r hit)
  ]

  -- The session after a first send whose key was not known and that answered `r`.
  send-first :
      (message key : String) (cancelled : Bool) (s : ChatSession) (r : ChatResponse)
      → (check_cache env cfg (some key) s).0 ≡ none
      → (send env cfg message (some key) cancelled s).0 ≡ ok r
      → send env cfg message (some key) cancelled s ≡ (
        ok r,
        stash_cache env cfg
            (some key)
            r
            (run_turn env cfg message cancelled (check_cache env cfg (some key) s).1).1,
      )
  unfolding send
  send-first message key cancelled s r miss done =
      let checked = check_cache env cfg (some key) s in
      let same = unless_cached-miss message (some key) cancelled checked miss in
      same
      ∙ stash_ok-ok (some key) (run_turn env cfg message cancelled checked.1) r
          (sym (ap (λ p. p.0) same) ∙ done)

  stashed-hit :
      (key : String) (r : ChatResponse) (s : ChatSession)
      → 1 ≤ s.idempotency.max_entries
      → env.monotonic (suc s.ticks) ≤ env.monotonic s.ticks + s.idempotency.ttl
      → (check_cache env cfg (some key) (stash_cache env cfg (some key) r s)).0 ≡ some r
  unfolding check_cache stash_cache
  stashed-hit key r s room soon =
      get-put_all (env.monotonic s.ticks) (env.monotonic (suc s.ticks)) cfg.session_id key r []
        s.idempotency tt (omega (arith, room))
      ∙ ap (λ b. if b then none else some r)
          (not_late (env.monotonic (suc s.ticks)) (env.monotonic s.ticks + s.idempotency.ttl) soon)
    where
      not_late : (a b : ℕ) → a ≤ b → ltb b a ≡ false
      not_late a b h = ground (arith, h)

  check_cache-limits :
      (key : String) (s : ChatSession)
      → ((check_cache env cfg (some key) s).1.idempotency.max_entries ≡ s.idempotency.max_entries)
        × ((check_cache env cfg (some key) s).1.idempotency.ttl ≡ s.idempotency.ttl)
  unfolding check_cache
  check_cache-limits key s = get-limits (env.monotonic s.ticks) cfg.session_id key s.idempotency

  stash-ticks :
      (key : String) (r : ChatResponse) (s : ChatSession)
      → (stash_cache env cfg (some key) r s).ticks ≡ suc s.ticks
  unfolding stash_cache
  stash-ticks key r s = refl

  soon_after :
      (n m ttl ttl' : ℕ)
      → m ≡ suc n
      → ttl ≡ ttl'
      → env.monotonic m ≤ env.monotonic (m - 1) + ttl'
      → env.monotonic (suc n) ≤ env.monotonic n + ttl
  soon_after n m ttl ttl' next same soon =
      let before : suc n - 1 ≡ n = omega arith in
      let moved : env.monotonic (suc n) ≤ env.monotonic (suc n - 1) + ttl' =
        subst (λ (k : ℕ). env.monotonic k ≤ env.monotonic (k - 1) + ttl') next soon in
      let shifted : env.monotonic (suc n) ≤ env.monotonic n + ttl' =
        subst (λ (k : ℕ). env.monotonic (suc n) ≤ env.monotonic k + ttl') before moved in
      omega (arith, shifted, same)

  -- Sending again with the key of a send that was answered, no later than the window after it, gives
  -- the same answer, whatever the message, and the agent does not run again: the runs, the history
  -- and the cost are those after the first send.
  pub send-again :
      (message message' key : String) (cancelled cancelled' : Bool) (s s' : ChatSession)
      (r : ChatResponse)
      → (check_cache env cfg (some key) s).0 ≡ none
      → send env cfg message (some key) cancelled s ≡ (ok r, s')
      → 1 ≤ s.idempotency.max_entries
      → env.monotonic s'.ticks ≤ env.monotonic (s'.ticks - 1) + s.idempotency.ttl
      → ((send env cfg message' (some key) cancelled' s').0 ≡ ok r)
        × (((send env cfg message' (some key) cancelled' s').1.runs ≡ s'.runs)
            × (((send env cfg message' (some key) cancelled' s').1.history ≡ s'.history)
                × ((send env cfg message' (some key) cancelled' s').1.total_cost ≡ s'.total_cost)))
  send-again message message' key cancelled cancelled' s s' r miss done room soon =
      let later = (run_turn env cfg message cancelled (check_cache env cfg (some key) s).1).1 in
      let kept = run_turn-cache message cancelled (check_cache env cfg (some key) s).1 in
      let limits = check_cache-limits key s in
      let state : s' ≡ stash_cache env cfg (some key) r later =
        sym (ap (λ p. p.1) done)
        ∙ ap (λ p. p.1) (send-first message key cancelled s r miss (ap (λ p. p.0) done)) in
      let hit =
        stashed-hit key r later
          (subst (λ (n : ℕ). 1 ≤ n) (sym (ap (λ c. c.max_entries) kept ∙ limits.0)) room)
          (soon_after later.ticks s'.ticks later.idempotency.ttl s.idempotency.ttl
            (ap (λ t. t.ticks) state ∙ stash-ticks key r later) (ap (λ c. c.ttl) kept ∙ limits.1)
            soon) in
      send-hit message' key cancelled' s' r
        (subst (λ (t : ChatSession). (check_cache env cfg (some key) t).0 ≡ some r) (sym state) hit)

  -- A reset empties the session's history and its counters, but it keeps the answers of the cache: a
  -- key that has a live entry is still answered from before the reset.
  pub reset-hit :
      (message key : String) (cancelled : Bool) (s : ChatSession) (r : ChatResponse)
      → (check_cache env cfg (some key) s).0 ≡ some r
      → ((send env cfg message (some key) cancelled (reset env cfg s)).0 ≡ ok r)
        × ((turns_of cfg.session_id (reset env cfg s).history ≡ [])
            × (((reset env cfg s).total_cost ≡ 0) × ((reset env cfg s).turn_count ≡ 0)))
  unfolding reset check_cache
  reset-hit message key cancelled s r hit = (
    (send-hit message key cancelled (reset env cfg s) r hit).0,
    (
      (delete_session_lem cfg.session_id cfg.session_id s.history).1
          ∙ rw (eq_refl cfg.session_id) refl,
      (refl, refl),
    ),
  )
