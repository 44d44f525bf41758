-- ===== src/Chat/History.antt =====
-- `InMemoryChatHistory` of packages/agentforge-chat/src/agentforge_chat/history.py. Each operation
-- holds the lock while it reads or writes the dicts, so it is one step. `now` is what
-- `datetime.now` says, and a limit is not negative.
pub mod Loads
pub mod Sessions
use agentforge_py.Prelude.{
  ℕ, suc, ◌+◌, Bool, true, false, not, ◌&&◌, ◌||◌, Option, none, some, List, [], ◌∷◌, ◌++◌, String,
  leb, ltb, ◌==◌, if◌then◌else◌, length, take, keep, any, map, Error, Result, ok, err, ◌>>=◌,
  member,
}
use agentforge_py.Prelude.Dict.{Dict, lookup, insert, erase, is_some}
use agentforge_py.Chat.Truncation.{Role, system, user, assistant, tool, ChatTurn}

-- A value of the free-form metadata.
pub data MetaValue : Type 0 where
  no_value : MetaValue
  text_value : String → MetaValue
  number_value : ℕ → MetaValue

pub record InMemoryChatHistory : Type 0 where
  pub turns : Dict (List ChatTurn)
  pub meta : Dict (Dict MetaValue)
  pub owners : Dict MetaValue
  pub created_at : Dict ℕ
  pub last_active : Dict ℕ

abbrev pub empty_history : InMemoryChatHistory
empty_history = record { turns = []; meta = []; owners = []; created_at = []; last_active = [] }

-- `d.get(k, default)`
abbrev pub get_or {ℓ} : {V : Type ℓ} → V → Option V → V
get_or default none = default
get_or default (some v) = v

-- `d.setdefault(k, v)`
abbrev pub set_default {ℓ} : {V : Type ℓ} → String → V → Dict V → Dict V
set_default k v d = elim (lookup k d) [ none ↦ insert k v d | some w ↦ d ]

-- `_turns.get(session_id, [])`
unfoldable pub turns_of : String → InMemoryChatHistory → List ChatTurn
turns_of s h = get_or [] (lookup s h.turns)

unfoldable pub append : ℕ → ChatTurn → InMemoryChatHistory → InMemoryChatHistory
append now t h = record {
  turns = insert t.session_id (get_or [] (lookup t.session_id h.turns) ++ t ∷ []) h.turns;
  meta = h.meta;
  owners = h.owners;
  created_at = set_default t.session_id now h.created_at;
  last_active = insert t.session_id now h.last_active;
}

abbrev same_role : Role → Role → Bool
same_role system system = true
same_role user user = true
same_role assistant assistant = true
same_role tool tool = true
same_role _ _ = false

pub record Query : Type 0 where
  pub limit : Option ℕ
  pub before : Option ℕ
  pub after : Option ℕ
  pub roles : Option (List Role)

abbrev pub everything : Query
everything = record { limit = none; before = none; after = none; roles = none }

abbrev pub is_before : Option ℕ → ChatTurn → Bool
is_before none t = true
is_before (some bound) t = ltb t.timestamp bound

abbrev pub is_after : Option ℕ → ChatTurn → Bool
is_after none t = true
is_after (some bound) t = ltb bound t.timestamp

abbrev pub has_role : Option (List Role) → ChatTurn → Bool
has_role none t = true
has_role (some roles) t = any (λ r. same_role r t.role) roles

-- The stable sort by a key.
module _ {X : Type 0} (key : X → ℕ) where
  unfoldable pub insert_by : X → List X → List X
  insert_by x [] = x ∷ []
  insert_by x (y ∷ ys) =
      let rest = insert_by x ys in if leb (key x) (key y) then x ∷ y ∷ ys else y ∷ rest

  unfoldable pub sort_by : List X → List X
  sort_by [] = []
  sort_by (x ∷ xs) = insert_by x (sort_by xs)

abbrev pub limited {ℓ} : {X : Type ℓ} → Option ℕ → List X → List X
limited none xs = xs
limited (some n) xs = take n xs

unfoldable pub load : String → Query → InMemoryChatHistory → List ChatTurn
load s q h =
    let earlier = keep (is_before q.before) (turns_of s h) in
    let later = keep (is_after q.after) earlier in
    limited q.limit (sort_by (λ t. t.timestamp) (keep (has_role q.roles) later))

unfoldable pub count : String → InMemoryChatHistory → ℕ
count s h = length (turns_of s h)

-- The five `pop` calls.
unfoldable pub forget : String → InMemoryChatHistory → InMemoryChatHistory
forget s h = record {
  turns = erase s h.turns;
  meta = erase s h.meta;
  owners = erase s h.owners;
  created_at = erase s h.created_at;
  last_active = erase s h.last_active;
}

unfoldable pub delete_session : String → InMemoryChatHistory → ℕ × InMemoryChatHistory
delete_session s h = (count s h, forget s h)

-- `for k, v in metadata.items(): bag[k] = v`
abbrev pub update_all : Dict MetaValue → Dict MetaValue → Dict MetaValue
update_all [] bag = bag
update_all ((k, v) ∷ metadata) bag = update_all metadata (insert k v bag)

abbrev set_owner : String → Option MetaValue → Dict MetaValue → Dict MetaValue
set_owner s none owners = owners
set_owner s (some owner) owners = insert s owner owners

unfoldable pub update_session_metadata :
    ℕ → String → Dict MetaValue → InMemoryChatHistory → InMemoryChatHistory
update_session_metadata now s metadata h = record {
  turns = h.turns;
  meta = insert s (update_all metadata (get_or [] (lookup s h.meta))) h.meta;
  owners = set_owner s (lookup "owner" metadata) h.owners;
  created_at = set_default s now h.created_at;
  last_active = set_default s now h.last_active;
}

-- `[sid for sid, last in _last_active.items() if last < cutoff]`
unfoldable pub doomed : ℕ → Dict ℕ → List String
doomed cutoff [] = []
doomed cutoff ((s, last) ∷ d) =
    let rest = doomed cutoff d in if ltb last cutoff then s ∷ rest else rest

abbrev pub forget_all : List String → InMemoryChatHistory → InMemoryChatHistory
forget_all [] h = h
forget_all (s ∷ ss) h = forget_all ss (forget s h)

unfoldable pub expire_before : ℕ → InMemoryChatHistory → ℕ × InMemoryChatHistory
expire_before cutoff h =
    (length (doomed cutoff h.last_active), forget_all (doomed cutoff h.last_active) h)
