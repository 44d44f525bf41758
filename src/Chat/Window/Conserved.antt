-- ===== src/Chat/Window/Conserved.antt =====
-- The sentence buffer ends its loop, keeps no finished sentence, and loses no visible character.
use agentforge_py.Prelude.{
  ℕ, zero, suc, ◌≤◌, ◌<◌, Option, none, some, List, [], ◌∷◌, ◌++◌, ◌≡◌, refl, arith, ap, sym, ◌∙◌,
  leb, if◌then◌else◌, length, take, drop, length-drop, Option-cases, inl, inr,
}
use mathlib.Core.List.{append_assoc, append-nil}
use agentforge_py.Chat.Texts.{
  Text, visible, concat, lstrip, rstrip, visible-append, visible-concat-append, visible-lstrip,
  visible-rstrip, length-lstrip-le, take-drop,
}
use agentforge_py.Chat.Segment.{non_empty}
use agentforge_py.Chat.Segment.Pieces.{non_empty-visible}
use agentforge_py.Chat.Window.{
  soft_max_chars, shifted, match_at, boundary, find_cut, push_loop, push, flush, push_all,
}

chosen-pos :
    (found : ℕ) (rest : Option ℕ) (n : ℕ)
    → (if leb 1 found then some found else shifted rest) ≡ some n
    → 1 ≤ n
chosen-pos found none n h = ground (arith, h)
chosen-pos found (some m) n h = ground (arith, h)

boundary-pos : (t : Text) (n : ℕ) → boundary t ≡ some n → 1 ≤ n
unfolding boundary
boundary-pos [] n h = ground (arith, h)
boundary-pos (c ∷ t) n h = chosen-pos (match_at (c ∷ t)) (boundary t) n h

find_cut-pos : (t : Text) (n : ℕ) → find_cut t ≡ some n → 1 ≤ n
unfolding find_cut
find_cut-pos t n h = ground (arith, boundary-pos t n)

find_cut-none-short : (t : Text) → find_cut t ≡ none → length t < soft_max_chars
unfolding find_cut
find_cut-none-short t h = ground (arith, h)

find_cut-nil : find_cut [] ≡ none
unfolding find_cut boundary
find_cut-nil = refl

-- What is left after a cut is shorter.
cut-shorter : (t : Text) (n : ℕ) → find_cut t ≡ some n → length (lstrip (drop n t)) < length t
cut-shorter [] n h = ground (arith, find_cut-nil, h)
cut-shorter (c ∷ t) n h =
    omega
      (arith, find_cut-pos (c ∷ t) n h, length-drop n (c ∷ t), length-lstrip-le (drop n (c ∷ t)))

module _ (fuel : ℕ) (buf : Text) where
  push_loop-stop : find_cut buf ≡ none → push_loop (suc fuel) buf ≡ ([], buf)
  unfolding push_loop
  push_loop-stop h = rw (h, push_loop) refl

  push_loop-cut :
      (cut : ℕ)
      → find_cut buf ≡ some cut
      → push_loop (suc fuel) buf ≡ (
        non_empty (rstrip (take cut buf)) (push_loop fuel (lstrip (drop cut buf))).0,
        (push_loop fuel (lstrip (drop cut buf))).1,
      )
  unfolding push_loop
  push_loop-cut cut h = rw (h, push_loop) refl

-- When the loop ends there is nothing left to cut.
push_loop-done :
    (fuel : ℕ) (buf : Text) → length buf ≤ fuel → find_cut (push_loop fuel buf).1 ≡ none
unfolding push_loop
push_loop-done zero [] h = find_cut-nil
push_loop-done zero (c ∷ buf) h = absurd (omega (arith, h))
push_loop-done (suc fuel) buf h = elim (Option-cases (find_cut buf)) [
  | inl stop ↦ rw (push_loop-stop fuel buf stop) stop
  | inr (cut, found) ↦
      rw (push_loop-cut fuel buf cut found)
        (push_loop-done fuel (lstrip (drop cut buf)) (omega (arith, h, cut-shorter buf cut found)))
]

-- The sentences and the buffer have what the text had.
abbrev kept_visible : List Text × Text → Text
kept_visible r = visible (concat r.0) ++ visible r.1

visible-nil : (buf : Text) → kept_visible ([], buf) ≡ visible buf
unfolding visible
visible-nil buf = refl

cut_visible :
    (buf : Text) (cut : ℕ) (rest : List Text × Text)
    → kept_visible rest ≡ visible (lstrip (drop cut buf))
    → kept_visible (non_empty (rstrip (take cut buf)) rest.0, rest.1) ≡ visible buf
cut_visible buf cut rest same =
    rw
      (
        non_empty-visible (rstrip (take cut buf)) rest.0,
        visible-rstrip (take cut buf),
        append_assoc (visible (take cut buf)) (visible (concat rest.0)) (visible rest.1),
        same,
        visible-lstrip (drop cut buf),
      )
      (sym (visible-append (take cut buf) (drop cut buf)) ∙ ap visible (take-drop cut buf))

push_loop-visible : (fuel : ℕ) (buf : Text) → kept_visible (push_loop fuel buf) ≡ visible buf
unfolding push_loop
push_loop-visible zero buf = visible-nil buf
push_loop-visible (suc fuel) buf = elim (Option-cases (find_cut buf)) [
  | inl stop ↦ rw (push_loop-stop fuel buf stop) (visible-nil buf)
  | inr (cut, found) ↦ rw (push_loop-cut fuel buf cut found) (
      cut_visible buf cut (push_loop fuel (lstrip (drop cut buf)))
        (push_loop-visible fuel (lstrip (drop cut buf))))
]

push-visible-window : (t buf : Text) → kept_visible (push t buf) ≡ visible (buf ++ t)
unfolding push
push-visible-window [] buf = rw (append-nil buf) (visible-nil buf)
push-visible-window (c ∷ cs) buf = push_loop-visible (length (buf ++ c ∷ cs)) (buf ++ c ∷ cs)

-- After any push of a text that is not empty no sentence end is left in the buffer, and the buffer is
-- shorter than 200 characters: the loop has run to its end.
push-done :
    (c : ℕ) (cs buf : Text)
    → (find_cut (push (c ∷ cs) buf).1 ≡ none) × (length (push (c ∷ cs) buf).1 < soft_max_chars)
unfolding push
push-done c cs buf =
    let ended = push_loop-done (length (buf ++ c ∷ cs)) (buf ++ c ∷ cs) (omega arith) in
    (ended, find_cut-none-short (push (c ∷ cs) buf).1 ended)

-- Over any sequence of pushes and a last flush, the sentences together with the flushed text have
-- the visible characters that were in the buffer and in the pushed texts, in order, and the flush
-- leaves the buffer empty.
pub push_all-visible :
    (ts : List Text) (buf : Text)
    → (visible (concat (push_all ts buf).0) ++ visible (flush (push_all ts buf).1).0
        ≡ visible (buf ++ concat ts))
      × ((flush (push_all ts buf).1).1 ≡ [])
unfolding push_all flush
push_all-visible [] buf = (rw (append-nil buf) (visible-nil buf), refl)
push_all-visible (t ∷ ts) buf =
    let first = push t buf in
    (
      rw
          (
            visible-concat-append first.0 (push_all ts first.1).0,
            append_assoc (visible (concat first.0)) (visible (concat (push_all ts first.1).0))
                (visible (push_all ts first.1).1),
            (push_all-visible ts first.1).0,
            visible-append first.1 (concat ts),
            ← append_assoc (visible (concat first.0)) (visible first.1) (visible (concat ts)),
            push-visible-window t buf,
            ← visible-append (buf ++ t) (concat ts),
            append_assoc buf t (concat ts),
          )
          refl,
      refl,
    )
