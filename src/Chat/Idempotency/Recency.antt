-- ===== src/Chat/Idempotency/Recency.antt =====
-- The bound on the idempotency cache, what it answers, and which entries stay.
use agentforge_py.Prelude.{
  ℕ, suc, ◌+◌, ◌≤◌, ◌<◌, true, false, ◌&&◌, ◌≡◌, refl, arith, ◌∙◌, ap, none, some, List, [], ◌∷◌,
  ◌++◌, String, ltb, ◌==◌, if◌then◌else◌, length, length-append, eq_iff, eq_refl, Option-cases, inl,
  inr,
}
use agentforge_py.Chat.Idempotency.{
  Entry, IdempotencyCache, has_key, find_entry, without_entry, evict, get, put, put_all,
}

module _ {V : Type 0} where
  length-evict : (limit : ℕ) (es : List (Entry V)) → length (evict limit es) ≤ limit
  unfolding evict
  length-evict limit [] = omega arith
  length-evict limit (e ∷ es) = ground (arith, length-evict limit es)

  find_entry-without_entry-same :
      (s k : String) (es : List (Entry V)) → find_entry s k (without_entry s k es) ≡ none
  unfolding find_entry without_entry
  find_entry-without_entry-same s k [] = refl
  find_entry-without_entry-same s k (e ∷ es) = ground (arith, find_entry-without_entry-same s k es)

  find_entry-append :
      (s k : String) (es fs : List (Entry V))
      → find_entry s k es ≡ none
      → find_entry s k (es ++ fs) ≡ find_entry s k fs
  unfolding find_entry
  find_entry-append s k [] fs h = refl
  find_entry-append s k (e ∷ es) fs h = ground (arith, h, find_entry-append s k es fs)

  find_entry-found :
      (s k : String) (es fs : List (Entry V)) (e : Entry V)
      → find_entry s k es ≡ some e
      → find_entry s k (es ++ fs) ≡ some e
  unfolding find_entry
  find_entry-found s k [] fs e h = ground (arith, h)
  find_entry-found s k (f ∷ es) fs e h = ground (arith, h, find_entry-found s k es fs e)

  find_entry-has_key :
      (s k : String) (es : List (Entry V)) (e : Entry V)
      → find_entry s k es ≡ some e
      → has_key s k e ≡ true
  unfolding find_entry
  find_entry-has_key s k [] e h = ground (arith, h)
  find_entry-has_key s k (f ∷ es) e h = ground (arith, h, find_entry-has_key s k es e)

  -- How many entries stand behind the one of a key; they outlive it.
  pub behind : String → String → List (Entry V) → ℕ
  behind s k [] = 0
  behind s k (e ∷ es) = let rest = behind s k es in if has_key s k e then length es else rest

  length-without_entry-le :
      (s k : String) (es : List (Entry V)) → length (without_entry s k es) ≤ length es
  unfolding without_entry
  length-without_entry-le s k [] = omega arith
  length-without_entry-le s k (e ∷ es) = ground (arith, length-without_entry-le s k es)

  module _ (s k s' k' : String) (other : (s == s') && (k == k') ≡ false) where
    -- The entry of the one key is not an entry of the other.
    has_key-other : (e : Entry V) → has_key s k e ≡ true → has_key s' k' e ≡ false
    has_key-other e h = ground (arith, h, other, eq_iff e.session_id s, eq_iff e.key k)

    behind-without_entry-le :
        (es : List (Entry V)) → behind s k (without_entry s' k' es) ≤ behind s k es
    unfolding behind without_entry
    behind-without_entry-le [] = omega arith
    behind-without_entry-le (e ∷ es) =
        ground
          (arith, behind-without_entry-le es, length-without_entry-le s' k' es, has_key-other e)

    find_entry-without_entry-other :
        (es : List (Entry V)) → find_entry s k (without_entry s' k' es) ≡ find_entry s k es
    unfolding find_entry without_entry
    find_entry-without_entry-other [] = refl
    find_entry-without_entry-other (e ∷ es) =
        ground (arith, find_entry-without_entry-other es, has_key-other e)

  behind-append :
      (s k : String) (es : List (Entry V)) (f e : Entry V)
      → find_entry s k es ≡ some e
      → behind s k (es ++ f ∷ []) ≡ suc (behind s k es)
  unfolding find_entry behind
  behind-append s k [] f e h = ground (arith, h)
  behind-append s k (g ∷ es) f e h =
      ground (arith, h, behind-append s k es f e, length-append es (f ∷ []))

  find_entry-evict :
      (s k : String) (limit : ℕ) (es : List (Entry V))
      → behind s k es < limit
      → (find_entry s k (evict limit es) ≡ find_entry s k es)
        × (behind s k (evict limit es) ≡ behind s k es)
  unfolding find_entry evict behind
  find_entry-evict s k limit [] h = (refl, refl)
  find_entry-evict s k limit (e ∷ es) h = ground (arith, h, find_entry-evict s k limit es)

  -- The puts of a list are all for keys other than `(s, k)`.
  abbrev pub AllOther : String → String → List (ℕ × (String × (String × V))) → Type 0
  AllOther s k [] = Unit
  AllOther s k ((now, (s', (k', v))) ∷ ps) = ((s == s') && (k == k') ≡ false) × AllOther s k ps

  behind-last :
      (s k : String) (es : List (Entry V)) (f : Entry V)
      → find_entry s k es ≡ none
      → has_key s k f ≡ true
      → behind s k (es ++ f ∷ []) ≡ 0
  unfolding find_entry behind
  behind-last s k [] f h same = ground (arith, same)
  behind-last s k (g ∷ es) f h same = ground (arith, h, behind-last s k es f)

  find_entry-singleton :
      (s k : String) (f : Entry V) → has_key s k f ≡ true → find_entry s k (f ∷ []) ≡ some f
  unfolding find_entry
  find_entry-singleton s k f same = rw same refl

  length-without_entry-lt :
      (s k : String) (es : List (Entry V)) (e : Entry V)
      → find_entry s k es ≡ some e
      → length (without_entry s k es) < length es
  unfolding find_entry without_entry
  length-without_entry-lt s k [] e h = ground (arith, h)
  length-without_entry-lt s k (f ∷ es) e h =
      ground (arith, h, length-without_entry-lt s k es e, length-without_entry-le s k es)

  abbrev new_entry : ℕ → String → String → V → Entry V
  new_entry now s k v = record { session_id = s; key = k; stamp = now; value = v }

  put-other-stays :
      (s k : String) (now : ℕ) (s' k' : String) (v : V) (c : IdempotencyCache V) (e : Entry V)
      → (s == s') && (k == k') ≡ false
      → find_entry s k c.store ≡ some e
      → suc (behind s k c.store) < c.max_entries
      → (find_entry s k (put now s' k' v c).store ≡ some e)
        × (behind s k (put now s' k' v c).store ≤ suc (behind s k c.store))
  unfolding put
  put-other-stays s k now s' k' v c e other here room =
      let es = without_entry s' k' c.store in
      let found = find_entry-without_entry-other s k s' k' other c.store ∙ here in
      let fewer = behind-without_entry-le s k s' k' other c.store in
      let pushed = behind-append s k es (new_entry now s' k' v) e found in
      let stays =
        find_entry-evict s k c.max_entries (es ++ new_entry now s' k' v ∷ [])
          (omega (arith, room, fewer, pushed)) in
      (
        stays.0 ∙ find_entry-found s k es (new_entry now s' k' v ∷ []) e found,
        omega (arith, stays.1, pushed, fewer),
      )

  put-new :
      (now : ℕ) (s k : String) (v : V) (c : IdempotencyCache V)
      → 1 ≤ c.max_entries
      → (find_entry s k (put now s k v c).store ≡ some (new_entry now s k v))
        × (behind s k (put now s k v c).store ≡ 0)
  unfolding put
  put-new now s k v c room =
      let es = without_entry s k c.store in
      let gone = find_entry-without_entry-same s k c.store in
      let same : has_key s k (new_entry now s k v) ≡ true = rw (eq_refl s, eq_refl k) refl in
      let last = behind-last s k es (new_entry now s k v) gone same in
      let stays =
        find_entry-evict s k c.max_entries (es ++ new_entry now s k v ∷ [])
          (omega (arith, room, last)) in
      (
        stays.0
            ∙ find_entry-append s k es (new_entry now s k v ∷ []) gone
            ∙ find_entry-singleton s k (new_entry now s k v) same,
        stays.1 ∙ last,
      )

  room_left :
      (s k : String) (now : ℕ) (s' k' : String) (v : V) (c : IdempotencyCache V) (n : ℕ)
      → behind s k (put now s' k' v c).store ≤ suc (behind s k c.store)
      → behind s k c.store + suc n < c.max_entries
      → behind s k (put now s' k' v c).store + n < (put now s' k' v c).max_entries
  unfolding put
  room_left s k now s' k' v c n fewer room = omega (arith, fewer, room)

  put_all-ttl :
      (ps : List (ℕ × (String × (String × V)))) (c : IdempotencyCache V)
      → (put_all ps c).ttl ≡ c.ttl
  unfolding put
  put_all-ttl [] c = refl
  put_all-ttl ((now, (s, (k, v))) ∷ ps) c = put_all-ttl ps (put now s k v c)

  put_all-stays :
      (s k : String) (ps : List (ℕ × (String × (String × V)))) (c : IdempotencyCache V)
      (e : Entry V)
      → AllOther s k ps
      → find_entry s k c.store ≡ some e
      → behind s k c.store + length ps < c.max_entries
      → find_entry s k (put_all ps c).store ≡ some e
  put_all-stays s k [] c e others here room = here
  put_all-stays s k ((now, (s', (k', v))) ∷ ps) c e others here room =
      let step = put-other-stays s k now s' k' v c e others.0 here (omega (arith, room)) in
      put_all-stays s k ps (put now s' k' v c) e others.1 step.0
        (room_left s k now s' k' v c (length ps) step.1 room)

  get-found :
      (now : ℕ) (s k : String) (c : IdempotencyCache V) (e : Entry V)
      → find_entry s k c.store ≡ some e
      → (get now s k c).0 ≡ (if ltb (e.stamp + c.ttl) now then none else some e.value)
  unfolding get
  get-found now s k c e h = rw (h, get) (ground arith)

  get-size :
      (now : ℕ) (s k : String) (c : IdempotencyCache V)
      → length (get now s k c).1.store ≤ length c.store
  unfolding get
  get-size now s k c = elim (Option-cases (find_entry s k c.store)) [
    | inl missing ↦ rw (missing, get, length) (omega arith)
    | inr (e, found) ↦
        rw (found, get, length)
          (ground (
            arith,
            length-without_entry-lt s k c.store e found,
            length-append (without_entry s k c.store) (e ∷ []),
          ))
  ]

  pub get-limits :
      (now : ℕ) (s k : String) (c : IdempotencyCache V)
      → ((get now s k c).1.max_entries ≡ c.max_entries) × ((get now s k c).1.ttl ≡ c.ttl)
  unfolding get
  get-limits now s k c = elim (Option-cases (find_entry s k c.store)) [
    | inl missing ↦ (rw (missing, get) refl, rw (missing, get) refl)
    | inr (e, found) ↦ (rw (found, get) (ground arith), rw (found, get) (ground arith))
  ]

  -- The store never holds more than `max_entries` entries after a put, and a get does not add any.
  put-size :
      (now : ℕ) (s k : String) (v : V) (c : IdempotencyCache V) (now' : ℕ) (s' k' : String)
      → (length (put now s k v c).store ≤ c.max_entries)
        × (length (get now' s' k' c).1.store ≤ length c.store)
  unfolding put
  put-size now s k v c now' s' k' = (
    length-evict c.max_entries (without_entry s k c.store ++ new_entry now s k v ∷ []),
    get-size now' s' k' c,
  )

  -- After a put, and then fewer than `max_entries` puts of other keys, a get of the key answers with
  -- the value while its age is at most the time-to-live, and with nothing once it is older.
  pub get-put_all :
      (now now' : ℕ) (s k : String) (v : V) (ps : List (ℕ × (String × (String × V))))
      (c : IdempotencyCache V)
      → AllOther s k ps
      → length ps < c.max_entries
      → (get now' s k (put_all ps (put now s k v c))).0
        ≡ (if ltb (now + c.ttl) now' then none else some v)
  unfolding put
  get-put_all now now' s k v ps c others room =
      let new = put-new now s k v c (omega (arith, room)) in
      let here =
        put_all-stays s k ps (put now s k v c) (new_entry now s k v) others new.0
          (omega (arith, room, new.1)) in
      get-found now' s k (put_all ps (put now s k v c)) (new_entry now s k v) here
      ∙ ap (λ t. if ltb (now + t) now' then none else some v) (put_all-ttl ps (put now s k v c))
