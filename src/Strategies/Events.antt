-- ===== src/Strategies/Events.antt =====
-- `_events_for_new_steps` of packages/agentforge/src/agentforge/strategies/_base.py, and the events
-- that a streamed run yields.
use agentforge_py.Prelude.{ℕ, Option, List, [], ◌∷◌, ◌++◌, ◌≡◌, refl, ap, length, drop, sym}
use agentforge_py.Strategies.Base.{ToolCall, Step, StepKind, Content}
use mathlib.Core.List.{append_assoc}

-- The run's id, which the last event holds too, is left out.
pub data StreamingEvent : Type 0 where
  step_event : Content → ℕ → StepKind → Option ToolCall → StreamingEvent
  done_event : ℕ → StreamingEvent

abbrev pub each_event : List Step → List StreamingEvent
each_event [] = []
each_event (s ∷ ss) = step_event s.content s.iteration s.kind s.tool_call ∷ each_event ss

unfoldable pub events_for_new_steps : List Step → ℕ → List StreamingEvent
events_for_new_steps steps before = each_event (drop before steps)

each_event-append : (xs ys : List Step) → each_event (xs ++ ys) ≡ each_event xs ++ each_event ys
each_event-append [] ys = refl
each_event-append (x ∷ xs) ys = rw (each_event-append xs ys) refl

drop-append : (xs ys : List Step) → drop (length xs) (xs ++ ys) ≡ ys
drop-append [] ys = refl
drop-append (x ∷ xs) ys = drop-append xs ys

pub events-append :
    (xs ys : List Step) → events_for_new_steps (xs ++ ys) (length xs) ≡ each_event ys
unfolding events_for_new_steps
events-append xs ys = ap each_event (drop-append xs ys)

-- Two flushes in a row yield what one flush at the end would.
pub events-join :
    (xs ys zs : List Step)
    → events_for_new_steps (xs ++ ys) (length xs)
        ++ events_for_new_steps ((xs ++ ys) ++ zs) (length (xs ++ ys))
      ≡ events_for_new_steps ((xs ++ ys) ++ zs) (length xs)
events-join xs ys zs =
    rw
      (
        events-append xs ys,
        events-append (xs ++ ys) zs,
        append_assoc xs ys zs,
        events-append xs (ys ++ zs),
      )
      (sym (each_event-append ys zs))

pub nothing_new : (xs : List Step) → [] ≡ events_for_new_steps xs (length xs)
unfolding events_for_new_steps
nothing_new [] = refl
nothing_new (x ∷ xs) = nothing_new xs

-- A trace that has grown, and then grows again.
pub extend :
    (xs ss tail : List Step)
    → (new : List Step) × (ss ≡ xs ++ new)
    → (new : List Step) × (ss ++ tail ≡ xs ++ new)
extend xs ss tail (new, grown) = (new ++ tail, rw grown (append_assoc xs new tail))

pub flushes :
    (xs ys zs : List Step)
    → (new : List Step) × (ys ≡ xs ++ new)
    → (new : List Step) × (zs ≡ ys ++ new)
    → (events_for_new_steps ys (length xs) ++ events_for_new_steps zs (length ys)
        ≡ events_for_new_steps zs (length xs))
      × ((new : List Step) × (zs ≡ xs ++ new))
flushes xs ys zs (a, f) (b, g) =
    (rw (g, f) (events-join xs a b), (a ++ b, rw (g, f) (append_assoc xs a b)))
