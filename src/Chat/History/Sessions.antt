-- ===== src/Chat/History/Sessions.antt =====
-- The operations of the in-memory chat history on the sessions.
use agentforge_py.Prelude.{
  ℕ, ◌≤◌, Bool, true, false, ap, not, ◌&&◌, ◌||◌, ◌≡◌, refl, arith, sym, ◌∙◌, List, [], ◌∷◌, ◌++◌,
  String, ltb, ◌==◌, if◌then◌else◌, length, member, All, Bool-cases, eq_iff, eq_refl, eq_of_test,
  Option-cases, subst, inl, inr,
}
use agentforge_py.Prelude.Dict.{Dict, lookup, insert, erase, is_some, lookup-insert, lookup-erase}
use agentforge_py.Chat.Truncation.{ChatTurn}
use agentforge_py.Chat.History.{
  MetaValue, InMemoryChatHistory, empty_history, get_or, set_default, turns_of, append, count,
  forget, delete_session, update_session_metadata, doomed, forget_all, expire_before,
}

-- An append puts the turn after the turns of its session, and leaves the other sessions.
pub turns_of-append :
    (now : ℕ) (t : ChatTurn) (h : InMemoryChatHistory) (s : String)
    → turns_of s (append now t h)
      ≡ (if t.session_id == s then turns_of s h ++ t ∷ [] else turns_of s h)
unfolding turns_of append
turns_of-append now t h s = elim (Bool-cases (t.session_id == s)) [
  | inl same ↦
      rw
        (
          lookup-insert t.session_id s (get_or [] (lookup t.session_id h.turns) ++ t ∷ []) h.turns,
          same,
          eq_of_test t.session_id s same,
        )
        refl
  | inr other ↦
      rw
        (
          lookup-insert t.session_id s (get_or [] (lookup t.session_id h.turns) ++ t ∷ []) h.turns,
          other,
        )
        refl
]

turns_of-forget :
    (s r : String) (h : InMemoryChatHistory)
    → turns_of s (forget r h) ≡ (if r == s then [] else turns_of s h)
unfolding turns_of forget
turns_of-forget s r h = rw (lookup-erase r s h.turns) (ground arith)

-- Deleting a session returns the number of its turns; the session is then empty, and the other
-- sessions have the turns they had.
pub delete_session_lem :
    (s r : String) (h : InMemoryChatHistory)
    → ((delete_session r h).0 ≡ length (turns_of r h))
      × (turns_of s (delete_session r h).1 ≡ (if r == s then [] else turns_of s h))
unfolding delete_session count
delete_session_lem s r h = (refl, turns_of-forget s r h)

turns_of-forget_all :
    (s : String) (ss : List String) (h : InMemoryChatHistory)
    → turns_of s (forget_all ss h) ≡ (if member s ss then [] else turns_of s h)
turns_of-forget_all s [] h = refl
turns_of-forget_all s (r ∷ ss) h =
    rw (turns_of-forget_all s ss (forget r h), turns_of-forget s r h) (ground arith)

-- An activity that is recent enough, or of a session in the list.
abbrev ListedOr : ℕ → List String → String × ℕ → Type 0
ListedOr cutoff ss e = ltb e.1 cutoff ≡ true → member e.0 ss ≡ true

ListedOr-more :
    (cutoff : ℕ) (s : String) (ss : List String) (d : Dict ℕ)
    → All (ListedOr cutoff ss) d
    → All (ListedOr cutoff (s ∷ ss)) d
ListedOr-more cutoff s ss [] h = tt
ListedOr-more cutoff s ss ((r, last) ∷ d) h =
    (λ old. ground (arith, h.0 old), ListedOr-more cutoff s ss d h.1)

doomed-cons :
    (cutoff : ℕ) (s : String) (last : ℕ) (d : Dict ℕ)
    → doomed cutoff ((s, last) ∷ d)
      ≡ (if ltb last cutoff then s ∷ doomed cutoff d else doomed cutoff d)
unfolding doomed
doomed-cons cutoff s last d = refl

doomed-ListedOr : (cutoff : ℕ) (d : Dict ℕ) → All (ListedOr cutoff (doomed cutoff d)) d
doomed-ListedOr cutoff [] = tt
doomed-ListedOr cutoff ((s, last) ∷ d) =
    let rest = doomed-ListedOr cutoff d in
    let listed : List String → Type 0 = λ ss. All (ListedOr cutoff ss) ((s, last) ∷ d) in
    elim (Bool-cases (ltb last cutoff)) [
      | inl old ↦
          subst listed {x = s ∷ doomed cutoff d} (sym (doomed-cons cutoff s last d ∙ rw old refl))
            ((λ h. rw (eq_refl s) refl), ListedOr-more cutoff s (doomed cutoff d) d rest)
      | inr recent ↦
          subst listed {x = doomed cutoff d} (sym (doomed-cons cutoff s last d ∙ rw recent refl))
            ((λ h. ground (arith, h, recent)), rest)
    ]

erase-ListedOr :
    (cutoff : ℕ) (r : String) (ss : List String) (d : Dict ℕ)
    → All (ListedOr cutoff (r ∷ ss)) d
    → All (ListedOr cutoff ss) (erase r d)
unfolding erase
erase-ListedOr cutoff r ss [] h = tt
erase-ListedOr cutoff r ss ((s, last) ∷ d) h = elim (Bool-cases (s == r)) [
  | inl same ↦ rw (same, All) (erase-ListedOr cutoff r ss d h.1)
  | inr other ↦
      rw (other, All)
        (
          λ old. ground (arith, h.0 old, other, eq_iff s r, eq_iff r s),
          erase-ListedOr cutoff r ss d h.1,
        )
]

ListedOr-nil : (cutoff : ℕ) (d : Dict ℕ) → All (ListedOr cutoff []) d → All (λ e. cutoff ≤ e.1) d
ListedOr-nil cutoff [] h = tt
ListedOr-nil cutoff ((s, last) ∷ d) h = (ground (arith, h.0), ListedOr-nil cutoff d h.1)

forget_all-recent :
    (cutoff : ℕ) (ss : List String) (h : InMemoryChatHistory)
    → All (ListedOr cutoff ss) h.last_active
    → All (λ e. cutoff ≤ e.1) (forget_all ss h).last_active
unfolding forget
forget_all-recent cutoff [] h listed = ListedOr-nil cutoff h.last_active listed
forget_all-recent cutoff (s ∷ ss) h listed =
    forget_all-recent cutoff ss (forget s h) (erase-ListedOr cutoff s ss h.last_active listed)

-- Whether a table of last activities has one of the session before the cutoff.
abbrev pub is_before : ℕ → String → Dict ℕ → Bool
is_before cutoff s [] = false
is_before cutoff s ((r, last) ∷ d) = (r == s) && ltb last cutoff || is_before cutoff s d

member-doomed :
    (cutoff : ℕ) (s : String) (d : Dict ℕ) → member s (doomed cutoff d) ≡ is_before cutoff s d
unfolding doomed
member-doomed cutoff s [] = refl
member-doomed cutoff s ((r, last) ∷ d) =
    ground (arith, member-doomed cutoff s d, eq_iff r s, eq_iff s r)

-- After an expiry no session is left whose last activity is before the cutoff. A session whose last
-- activity was before the cutoff has no turns; every other session has the turns it had.
pub expire_before-lem :
    (cutoff : ℕ) (s : String) (h : InMemoryChatHistory)
    → All (λ e. cutoff ≤ e.1) (expire_before cutoff h).1.last_active
      × (turns_of s (expire_before cutoff h).1
          ≡ (if is_before cutoff s h.last_active then [] else turns_of s h))
unfolding expire_before
expire_before-lem cutoff s h = (
  forget_all-recent cutoff (doomed cutoff h.last_active) h (doomed-ListedOr cutoff h.last_active),
  turns_of-forget_all s (doomed cutoff h.last_active) h
      ∙ ap (λ b. if b then [] else turns_of s h) (member-doomed cutoff s h.last_active),
)

-- The operations that write.
pub data Op : Type 0 where
  append_op : ℕ → ChatTurn → Op
  delete_op : String → Op
  update_op : ℕ → String → Dict MetaValue → Op
  expire_op : ℕ → Op

abbrev pub apply : Op → InMemoryChatHistory → InMemoryChatHistory
apply (append_op now t) h = append now t h
apply (delete_op s) h = (delete_session s h).1
apply (update_op now s metadata) h = update_session_metadata now s metadata h
apply (expire_op cutoff) h = (expire_before cutoff h).1

abbrev pub apply_all : List Op → InMemoryChatHistory → InMemoryChatHistory
apply_all [] h = h
apply_all (op ∷ ops) h = apply_all ops (apply op h)

-- A session with turns or metadata has both its times.
pub IsRegistered : String → InMemoryChatHistory → Type 0
IsRegistered s h =
    is_some (lookup s h.turns) || is_some (lookup s h.meta) ≡ true
    → is_some (lookup s h.created_at) && is_some (lookup s h.last_active) ≡ true

is_some-insert :
    {V : Type 0} (k j : String) (v : V) (d : Dict V)
    → is_some (lookup j (insert k v d)) ≡ ((k == j) || is_some (lookup j d))
is_some-insert k j v d = rw (lookup-insert k j v d) (ground arith)

is_some-erase :
    {V : Type 0} (k j : String) (d : Dict V)
    → is_some (lookup j (erase k d)) ≡ (not (k == j) && is_some (lookup j d))
is_some-erase k j d = rw (lookup-erase k j d) (ground arith)

is_some-set_default :
    {V : Type 0} (k j : String) (v : V) (d : Dict V)
    → is_some (lookup j (set_default k v d)) ≡ ((k == j) || is_some (lookup j d))
is_some-set_default k j v d = elim (Option-cases (lookup k d)) [
  | inl missing ↦ rw (missing, set_default) (is_some-insert k j v d)
  | inr (w, found) ↦
      rw (found, set_default)
        (elim (Bool-cases (k == j)) [
          | inl same ↦ rw (same, ← eq_of_test k j same, found) refl
          | inr other ↦ rw other refl
        ])
]

ruleset some_laws = (is_some-insert, is_some-erase, is_some-set_default)

forget-IsRegistered :
    (r s : String) (h : InMemoryChatHistory) → IsRegistered s h → IsRegistered s (forget r h)
unfolding IsRegistered forget
forget-IsRegistered r s h inv = simp some_laws (ground (arith, inv))

forget_all-IsRegistered :
    (rs : List String) (s : String) (h : InMemoryChatHistory)
    → IsRegistered s h
    → IsRegistered s (forget_all rs h)
forget_all-IsRegistered [] s h inv = inv
forget_all-IsRegistered (r ∷ rs) s h inv =
    forget_all-IsRegistered rs s (forget r h) (forget-IsRegistered r s h inv)

apply-IsRegistered :
    (op : Op) (s : String) (h : InMemoryChatHistory)
    → IsRegistered s h
    → IsRegistered s (apply op h)
unfolding IsRegistered append delete_session update_session_metadata expire_before
apply-IsRegistered (append_op now t) s h inv = simp some_laws (ground (arith, inv))
apply-IsRegistered (delete_op r) s h inv = forget-IsRegistered r s h inv
apply-IsRegistered (update_op now r metadata) s h inv = simp some_laws (ground (arith, inv))
apply-IsRegistered (expire_op cutoff) s h inv =
    forget_all-IsRegistered (doomed cutoff h.last_active) s h inv

run-IsRegistered :
    (ops : List Op) (s : String) (h : InMemoryChatHistory)
    → IsRegistered s h
    → IsRegistered s (apply_all ops h)
run-IsRegistered [] s h inv = inv
run-IsRegistered (op ∷ ops) s h inv =
    run-IsRegistered ops s (apply op h) (apply-IsRegistered op s h inv)

-- Whatever is written, and in whichever order, a session that has turns or metadata has its time of
-- creation and of its last activity, so a listing never falls back to the current time.
pub apply_all-IsRegistered :
    (ops : List Op) (s : String) → IsRegistered s (apply_all ops empty_history)
unfolding IsRegistered lookup
apply_all-IsRegistered ops s =
    run-IsRegistered ops s empty_history (λ none_there. ground (arith, none_there))
