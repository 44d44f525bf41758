-- ===== src/Chat/Idempotency.antt =====
-- `IdempotencyCache` of packages/agentforge-chat/src/agentforge_chat/_idempotency.py. The ordered
-- dict is a list of entries, the least recently used one first; `now` is what `time.monotonic` says,
-- in a small unit of time.
pub mod Recency
use agentforge_py.Prelude.{
  ℕ, suc, ◌+◌, Bool, true, false, not, ◌&&◌, Option, none, some, List, [], ◌∷◌, ◌++◌, String, leb,
  ltb, ◌==◌, if◌then◌else◌, length, keep,
}

pub record Entry (V : Type 0) : Type 0 where
  pub session_id : String
  pub key : String
  pub stamp : ℕ
  pub value : V

pub record IdempotencyCache (V : Type 0) : Type 0 where
  pub ttl : ℕ
  pub max_entries : ℕ
  pub store : List (Entry V)

module _ {V : Type 0} where
  -- The entry has the key `(session_id, key)`.
  abbrev pub has_key : String → String → Entry V → Bool
  has_key s k e = (e.session_id == s) && (e.key == k)

  -- `_store.get(k)`
  unfoldable pub find_entry : String → String → List (Entry V) → Option (Entry V)
  find_entry s k [] = none
  find_entry s k (e ∷ es) = if has_key s k e then some e else find_entry s k es

  -- `_store.pop(k, None)`
  unfoldable pub without_entry : String → String → List (Entry V) → List (Entry V)
  without_entry s k [] = []
  without_entry s k (e ∷ es) =
      let rest = without_entry s k es in if has_key s k e then rest else e ∷ rest

  -- `while len(self._store) > self._max: self._store.popitem(last=False)`
  unfoldable pub evict : ℕ → List (Entry V) → List (Entry V)
  evict limit [] = []
  evict limit (e ∷ es) =
      let rest = evict limit es in if leb (length (e ∷ es)) limit then e ∷ es else rest

  abbrev with_store : IdempotencyCache V → List (Entry V) → IdempotencyCache V
  with_store c es = record { ttl = c.ttl; max_entries = c.max_entries; store = es }

  -- A live entry moves to the end; an expired one goes.
  unfoldable pub get : ℕ → String → String → IdempotencyCache V → Option V × IdempotencyCache V
  get now s k c = elim (find_entry s k c.store) [
    | none ↦ (none, c)
    | some e ↦
        if ltb (e.stamp + c.ttl) now
        then (none, with_store c (without_entry s k c.store))
        else (some e.value, with_store c (without_entry s k c.store ++ e ∷ []))
  ]

  -- The new entry goes to the end, whether the key is new or not.
  unfoldable pub put : ℕ → String → String → V → IdempotencyCache V → IdempotencyCache V
  put now s k v c =
      let e : Entry V = record { session_id = s; key = k; stamp = now; value = v } in
      with_store c (evict c.max_entries (without_entry s k c.store ++ e ∷ []))

  -- A list of puts, one after another: time, session, key and value of each.
  abbrev pub put_all : List (ℕ × (String × (String × V))) → IdempotencyCache V → IdempotencyCache V
  put_all [] c = c
  put_all ((now, (s, (k, v))) ∷ ps) c = put_all ps (put now s k v c)
