-- ===== src/Chat/Truncation/Pairs.antt =====
-- What `_keep_pair_atomic` guarantees, and what it drops
-- (packages/agentforge-chat/src/agentforge_chat/truncation.py).
use agentforge_py.Prelude.{
  ℕ, true, false, ap, sym, ◌∙◌, Option, none, some, List, [], ◌∷◌, ◌≡◌, subst, refl, arith, String,
  ok, Result-cases, inl, inr, Bool-cases, leb, length, take, ◌-◌, ◌++◌,
}
use agentforge_py.Chat.Truncation.{
  Role, system, user, assistant, tool, ChatTurn, orphan, keep_from, keep_pair_atomic, last_turns,
  Strategy, Strategies, sliding_window, token_budget, summarise_oldest, hybrid, one, more, select,
  select_each, select_window, select_budget, select_summary, condense, summary_of, Summariser,
}

-- Every tool turn directly follows an assistant turn; `last` is the role before the list.
abbrev pub PairedFrom : Option Role → List ChatTurn → Type 0
PairedFrom last [] = Unit
PairedFrom last (t ∷ ts) = (t.role ≡ tool → last ≡ some assistant) × PairedFrom (some t.role) ts

abbrev pub IsPaired : List ChatTurn → Type 0
IsPaired ts = PairedFrom none ts

-- The guard of the loop against the role before.
orphan-not :
    (r : Role) (last : Option Role) → orphan r last ≡ false → r ≡ tool → last ≡ some assistant
orphan-not tool none h e = absurd (cc h)
orphan-not tool (some system) h e = absurd (cc h)
orphan-not tool (some user) h e = absurd (cc h)
orphan-not tool (some assistant) h e = refl
orphan-not tool (some tool) h e = absurd (cc h)
orphan-not system last h e = absurd (cc e)
orphan-not user last h e = absurd (cc e)
orphan-not assistant last h e = absurd (cc e)

orphan-none :
    (r : Role) (last : Option Role) → (r ≡ tool → last ≡ some assistant) → orphan r last ≡ false
orphan-none tool last h = rw (h refl) refl
orphan-none system last h = refl
orphan-none user last h = refl
orphan-none assistant last h = refl

keep_from_dropped :
    (last : Option Role) (t : ChatTurn) (ts : List ChatTurn)
    → orphan t.role last ≡ true
    → keep_from last (t ∷ ts) ≡ keep_from last ts
unfolding keep_from
keep_from_dropped last t ts h = ground arith

keep_from_kept :
    (last : Option Role) (t : ChatTurn) (ts : List ChatTurn)
    → orphan t.role last ≡ false
    → keep_from last (t ∷ ts) ≡ t ∷ keep_from (some t.role) ts
unfolding keep_from
keep_from_kept last t ts h = ground arith

keep_from-PairedFrom :
    (last : Option Role) (ts : List ChatTurn) → PairedFrom last (keep_from last ts)
unfolding keep_from
keep_from-PairedFrom last [] = tt
keep_from-PairedFrom last (t ∷ ts) = elim (Bool-cases (orphan t.role last)) [
  | inl drops ↦ rw (keep_from_dropped last t ts drops) (keep_from-PairedFrom last ts)
  | inr keeps ↦
      rw (keep_from_kept last t ts keeps)
        (orphan-not t.role last keeps, keep_from-PairedFrom (some t.role) ts)
]

keep_from-of_PairedFrom :
    (last : Option Role) (ts : List ChatTurn) → PairedFrom last ts → keep_from last ts ≡ ts
unfolding keep_from
keep_from-of_PairedFrom last [] h = refl
keep_from-of_PairedFrom last (t ∷ ts) h =
    ground (arith, orphan-none t.role last h.0, keep_from-of_PairedFrom (some t.role) ts h.1)

keep_pair_atomic-IsPaired : (ts : List ChatTurn) → IsPaired (keep_pair_atomic ts)
unfolding keep_pair_atomic
keep_pair_atomic-IsPaired ts = keep_from-PairedFrom none ts

condense-IsPaired :
    (s : Summariser) (older recent out : List ChatTurn)
    → condense s older recent ≡ ok out
    → IsPaired out
unfolding condense
condense-IsPaired s [] recent out h = cc
condense-IsPaired s (t ∷ ts) recent out h = elim (Result-cases (s.summarise (t ∷ ts))) [
  | inl (text, e) ↦
      let kept = keep_pair_atomic-IsPaired (summary_of s t ts text ∷ recent) in
      subst IsPaired (ground arith) kept
  | inr (x, e) ↦ ground arith
]

IsPaired-of_ok : (ts out : List ChatTurn) → IsPaired ts → ok ts ≡ ok out → IsPaired out
IsPaired-of_ok ts out h e = subst IsPaired (cc) h

select_summary-IsPaired :
    (n : ℕ) (s : Summariser) (turns out : List ChatTurn)
    → select_summary n s turns ≡ ok out
    → IsPaired out
unfolding select_summary
select_summary-IsPaired n s turns out h = elim (Bool-cases (leb (length turns) n)) [
  | inl short ↦
      IsPaired-of_ok (keep_pair_atomic turns) out (keep_pair_atomic-IsPaired turns) (ground arith)
  | inr long ↦
      condense-IsPaired s (take (length turns - n) turns) (last_turns n turns) out (ground arith)
]

mutual
  unfolding select select_window select_budget

  select-IsPaired' :
      (s : Strategy) (next : String) (turns out : List ChatTurn)
      → select s next turns ≡ ok out
      → IsPaired out
  select-IsPaired' (sliding_window n) next turns out h =
      IsPaired-of_ok (select_window n turns) out (keep_pair_atomic-IsPaired (last_turns n turns)) h
  select-IsPaired' (token_budget n t) next turns out h =
      IsPaired-of_ok (select_budget n t next turns) out (keep_pair_atomic-IsPaired _) h
  select-IsPaired' (summarise_oldest n s) next turns out h = select_summary-IsPaired n s turns out h
  select-IsPaired' (hybrid ss) next turns out h = select_each-IsPaired ss next turns out h

  select_each-IsPaired :
      (ss : Strategies) (next : String) (turns out : List ChatTurn)
      → select_each ss next turns ≡ ok out
      → IsPaired out
  select_each-IsPaired (one s) next turns out h = select-IsPaired' s next turns out h
  select_each-IsPaired (more s ss) next turns out h = elim (Result-cases (select s next turns)) [
    | inl (kept, e) ↦ select_each-IsPaired ss next kept out (rw e at h)
    | inr (x, e) ↦ ground arith
  ]

-- Whatever strategy, or composition of strategies, selects the turns: in what it returns, every tool
-- turn directly follows an assistant turn.
pub select-IsPaired :
    (s : Strategy) (next : String) (turns out : List ChatTurn)
    → select s next turns ≡ ok out
    → IsPaired out
select-IsPaired s next turns out h = select-IsPaired' s next turns out h

-- On a history in which every tool turn already directly follows an assistant turn, dropping
-- orphans changes nothing.
pub keep_pair_atomic-of_IsPaired : (ts : List ChatTurn) → IsPaired ts → keep_pair_atomic ts ≡ ts
unfolding keep_pair_atomic
keep_pair_atomic-of_IsPaired ts h = keep_from-of_PairedFrom none ts h

-- Behind a tool turn the loop goes on as if it started.
keep_from_tool : (ts : List ChatTurn) → keep_from (some tool) ts ≡ keep_from none ts
unfolding keep_from
keep_from_tool [] = refl
keep_from_tool (t ∷ ts) = elim (Bool-cases (orphan t.role none)) [
  | inl drops ↦
      keep_from_dropped (some tool) t ts (guard t.role ∙ drops)
      ∙ keep_from_tool ts
      ∙ sym (keep_from_dropped none t ts drops)
  | inr keeps ↦
      keep_from_kept (some tool) t ts (guard t.role ∙ keeps) ∙ sym (keep_from_kept none t ts keeps)
]
  where
    guard : (r : Role) → orphan r (some tool) ≡ orphan r none
    guard tool = refl
    guard system = refl
    guard user = refl
    guard assistant = refl

keep_from_exchange :
    (last : Option Role) (before rest : List ChatTurn) (a t u : ChatTurn)
    → a.role ≡ assistant
    → t.role ≡ tool
    → u.role ≡ tool
    → keep_from last (before ++ a ∷ t ∷ u ∷ rest)
      ≡ keep_from last before ++ a ∷ t ∷ keep_from none rest
unfolding keep_from
keep_from_exchange last [] rest a t u ha ht hu =
    keep_from_kept last a (t ∷ u ∷ rest) (orphan-none a.role last (λ e. absurd (cc (ha, e))))
    ∙ ap (λ ts. a ∷ ts)
        (keep_from_kept (some a.role) t (u ∷ rest)
            (orphan-none t.role (some a.role) (λ e. ap some ha))
          ∙ ap (λ ts. t ∷ ts)
              (keep_from_dropped (some t.role) u rest (rw (hu, ht) refl)
                ∙ rw ht (keep_from_tool rest)))
keep_from_exchange last (b ∷ bs) rest a t u ha ht hu = ground (
  arith,
  keep_from_exchange last bs rest a t u ha ht hu,
  keep_from_exchange (some b.role) bs rest a t u ha ht hu,
)

-- Of two tool turns behind an assistant turn, the assistant turn and the first result are kept and the
-- second result is dropped, whatever stands before them and behind them.
pub second_result_dropped :
    (before rest : List ChatTurn) (a t u : ChatTurn)
    → a.role ≡ assistant
    → t.role ≡ tool
    → u.role ≡ tool
    → keep_pair_atomic (before ++ a ∷ t ∷ u ∷ rest)
      ≡ keep_pair_atomic before ++ a ∷ t ∷ keep_pair_atomic rest
unfolding keep_pair_atomic
second_result_dropped before rest a t u = keep_from_exchange none before rest a t u
