-- ===== src/Chat/Segment/Pieces.antt =====
-- What `segment_for_stream` keeps of a text, and the size of its pieces.
use agentforge_py.Prelude.{
  ℕ, zero, suc, ◌≤◌, Bool, true, false, ◌&&◌, List, [], ◌∷◌, ◌++◌, ◌≡◌, refl, arith, ap, sym, ◌∙◌,
  leb, length, take, drop, All, All-append, length-take-le, length-drop, Bool-cases, inl, inr,
}
use mathlib.Core.List.{append_assoc, append-nil}
use agentforge_py.Chat.Texts.{
  Text, is_space, is_terminator, visible, concat, visible-append, visible-concat-append, take-drop,
}
use agentforge_py.Chat.Segment.{
  max_chunk_chars, Mode, gap, part, non_empty, split_sentences, cut_loop, split_long, split_each,
  segment_for_stream,
}

pub non_empty-visible :
    (t : Text) (rest : List Text)
    → visible (concat (non_empty t rest)) ≡ visible t ++ visible (concat rest)
unfolding visible
non_empty-visible [] rest = refl
non_empty-visible (c ∷ t) rest = visible-append (c ∷ t) (concat rest)

space-visible : (c : ℕ) (t : Text) → is_space c ≡ true → visible (c ∷ t) ≡ visible t
unfolding visible
space-visible c t h = ground arith

push-visible :
    (current : Text) (c : ℕ) (cs : Text)
    → visible (current ++ c ∷ []) ++ visible cs ≡ visible current ++ visible (c ∷ cs)
push-visible current c cs =
    sym (visible-append (current ++ c ∷ []) cs)
    ∙ ap visible (append_assoc current (c ∷ []) cs)
    ∙ visible-append current (c ∷ cs)

white_of : (a b : Bool) → a && b ≡ true → b ≡ true
white_of true b h = h
white_of false b h = cc h

split_sentences-visible-nil :
    (m : Mode) (current : Text)
    → visible (concat (split_sentences m current [])) ≡ visible current ++ visible []
unfolding split_sentences
split_sentences-visible-nil m current = non_empty-visible current []

-- The next character is left out, ends the part, or belongs to it.
module _ (current : Text) (c : ℕ) (cs : Text) where
  split_sentences-skip :
      is_space c ≡ true → split_sentences gap current (c ∷ cs) ≡ split_sentences gap current cs
  unfolding split_sentences
  split_sentences-skip h = ground (arith, h)

  split_sentences-start :
      is_space c ≡ false
      → split_sentences gap current (c ∷ cs)
        ≡ split_sentences (part (is_terminator c)) (current ++ c ∷ []) cs
  unfolding split_sentences
  split_sentences-start h = ground (arith, h)

  split_sentences-end :
      (ended : Bool)
      → ended && is_space c ≡ true
      → split_sentences (part ended) current (c ∷ cs)
        ≡ non_empty current (split_sentences gap [] cs)
  unfolding split_sentences
  split_sentences-end ended h = ground (arith, h)

  split_sentences-add :
      (ended : Bool)
      → ended && is_space c ≡ false
      → split_sentences (part ended) current (c ∷ cs)
        ≡ split_sentences (part (is_terminator c)) (current ++ c ∷ []) cs
  unfolding split_sentences
  split_sentences-add ended h = ground (arith, h)

split_sentences-visible :
    (m : Mode) (current text : Text)
    → visible (concat (split_sentences m current text)) ≡ visible current ++ visible text
unfolding visible
split_sentences-visible m current [] = split_sentences-visible-nil m current
split_sentences-visible gap current (c ∷ cs) = elim (Bool-cases (is_space c)) [
  | inl white ↦
      rw (split_sentences-skip current c cs white, space-visible c cs white)
        (split_sentences-visible gap current cs)
  | inr other ↦ rw (split_sentences-start current c cs other) (
      split_sentences-visible (part (is_terminator c)) (current ++ c ∷ []) cs
      ∙ push-visible current c cs)
]
split_sentences-visible (part ended) current (c ∷ cs) = elim (Bool-cases (ended && is_space c)) [
  | inl ends ↦
      rw
        (
          split_sentences-end current c cs ended ends,
          space-visible c cs (white_of ended (is_space c) ends),
          non_empty-visible current (split_sentences gap [] cs),
          split_sentences-visible gap [] cs,
        )
        refl
  | inr other ↦ rw (split_sentences-add current c cs ended other) (
      split_sentences-visible (part (is_terminator c)) (current ++ c ∷ []) cs
      ∙ push-visible current c cs)
]

cut_loop-concat : (fuel : ℕ) (rest : Text) → length rest ≤ fuel → concat (cut_loop fuel rest) ≡ rest
unfolding cut_loop
cut_loop-concat zero [] h = refl
cut_loop-concat zero (c ∷ cs) h = absurd (omega (arith, h))
cut_loop-concat (suc fuel) [] h = refl
cut_loop-concat (suc fuel) (c ∷ cs) h =
    ap (λ t. take max_chunk_chars (c ∷ cs) ++ t)
      (cut_loop-concat fuel (drop max_chunk_chars (c ∷ cs))
        (omega (arith, h, length-drop max_chunk_chars (c ∷ cs))))
    ∙ take-drop max_chunk_chars (c ∷ cs)

split_long-concat : (t : Text) → concat (split_long t) ≡ t
unfolding split_long
split_long-concat t = elim (Bool-cases (leb (length t) max_chunk_chars)) [
  | inl short ↦ rw short (append-nil t)
  | inr long ↦ rw long (cut_loop-concat (length t) t (omega arith))
]

split_each-visible : (ps : List Text) → visible (concat (split_each ps)) ≡ visible (concat ps)
split_each-visible [] = refl
split_each-visible (p ∷ ps) =
    rw
      (
        visible-concat-append (split_long p) (split_each ps),
        split_long-concat p,
        split_each-visible ps,
      )
      (sym (visible-append p (concat ps)))

-- The pieces together have the visible characters of the text, in the same order: only white space
-- can be lost.
pub segment_for_stream-visible : (t : Text) → visible (concat (segment_for_stream t)) ≡ visible t
unfolding segment_for_stream visible
segment_for_stream-visible t =
    split_each-visible (split_sentences (part false) [] t)
    ∙ split_sentences-visible (part false) [] t

-- A piece that can be sent: not empty, and at most 200 characters.
pub IsPiece : Text → Type 0
IsPiece t = (1 ≤ length t) × (length t ≤ max_chunk_chars)

non_empty-All :
    (t : Text) (rest : List Text)
    → All (λ p. 1 ≤ length p) rest
    → All (λ p. 1 ≤ length p) (non_empty t rest)
non_empty-All [] rest h = h
non_empty-All (c ∷ t) rest h = (omega arith, h)

split_sentences-All :
    (m : Mode) (current text : Text) → All (λ p. 1 ≤ length p) (split_sentences m current text)
unfolding split_sentences
split_sentences-All m current [] = non_empty-All current [] tt
split_sentences-All gap current (c ∷ cs) = elim (Bool-cases (is_space c)) [
  | inl white ↦ rw (split_sentences-skip current c cs white) (split_sentences-All gap current cs)
  | inr other ↦
      rw (split_sentences-start current c cs other)
        (split_sentences-All (part (is_terminator c)) (current ++ c ∷ []) cs)
]
split_sentences-All (part ended) current (c ∷ cs) = elim (Bool-cases (ended && is_space c)) [
  | inl ends ↦
      rw (split_sentences-end current c cs ended ends)
        (non_empty-All current (split_sentences gap [] cs) (split_sentences-All gap [] cs))
  | inr other ↦
      rw (split_sentences-add current c cs ended other)
        (split_sentences-All (part (is_terminator c)) (current ++ c ∷ []) cs)
]

cut_loop-IsPiece : (fuel : ℕ) (rest : Text) → All IsPiece (cut_loop fuel rest)
unfolding cut_loop IsPiece
cut_loop-IsPiece zero rest = tt
cut_loop-IsPiece (suc fuel) [] = tt
cut_loop-IsPiece (suc fuel) (c ∷ cs) = (
  (omega arith, length-take-le max_chunk_chars (c ∷ cs)),
  cut_loop-IsPiece fuel (drop max_chunk_chars (c ∷ cs)),
)

split_long-IsPiece : (t : Text) → 1 ≤ length t → All IsPiece (split_long t)
unfolding split_long IsPiece
split_long-IsPiece t h = elim (Bool-cases (leb (length t) max_chunk_chars)) [
  | inl short ↦ rw short ((h, ground (arith, short)), tt)
  | inr long ↦ rw long (cut_loop-IsPiece (length t) t)
]

split_each-IsPiece : (ps : List Text) → All (λ p. 1 ≤ length p) ps → All IsPiece (split_each ps)
split_each-IsPiece [] h = tt
split_each-IsPiece (p ∷ ps) h =
    All-append IsPiece (split_long p) (split_each ps) (split_long-IsPiece p h.0)
      (split_each-IsPiece ps h.1)

-- Every piece is non-empty and at most 200 characters long.
pub segment_for_stream-IsPiece : (t : Text) → All IsPiece (segment_for_stream t)
unfolding segment_for_stream
segment_for_stream-IsPiece t =
    split_each-IsPiece (split_sentences (part false) [] t) (split_sentences-All (part false) [] t)
