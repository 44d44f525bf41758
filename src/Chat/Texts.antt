-- ===== src/Chat/Texts.antt =====
-- Texts of the chat package (packages/agentforge-chat/src/agentforge_chat) as lists of code points:
-- white space, as `\s`, `lstrip` and `rstrip` read it, and the visible part of a text.
use agentforge_py.Prelude.{
  ℕ, zero, suc, ◌≤◌, Bool, true, not, ◌&&◌, ◌||◌, List, [], ◌∷◌, ◌++◌, ◌≡◌, refl, arith, leb, eqb,
  if◌then◌else◌, length, take, drop, keep, all,
}
use mathlib.Core.List.{append_assoc}

abbrev pub Text : Type 0
Text = List ℕ

abbrev between : ℕ → ℕ → ℕ → Bool
between lo hi c = leb lo c && leb c hi

-- `str.isspace` of one character
unfoldable pub is_space : ℕ → Bool
is_space c =
    between 0x09 0x0d c
    || (between 0x1c 0x20 c
        || (eqb c 0x85
            || (eqb c 0xa0
                || (eqb c 0x1680
                    || (between 0x2000 0x200a c
                        || (between 0x2028 0x2029 c
                            || (eqb c 0x202f || (eqb c 0x205f || eqb c 0x3000))))))))

-- `[.!?]`
unfoldable pub is_terminator : ℕ → Bool
is_terminator c = eqb c b'.' || (eqb c b'!' || eqb c b'?')

-- What is left of a text without its white space.
unfoldable pub visible : Text → Text
visible = keep (λ c. not (is_space c))

abbrev pub concat : List Text → Text
concat [] = []
concat (t ∷ ts) = t ++ concat ts

abbrev pub lstrip : Text → Text
lstrip [] = []
lstrip (c ∷ cs) = if is_space c then lstrip cs else c ∷ cs

abbrev pub all_space : Text → Bool
all_space = all is_space

-- A character stays if it is visible or something visible follows.
abbrev pub rstrip : Text → Text
rstrip [] = []
rstrip (c ∷ cs) = let rest = rstrip cs in if is_space c && all_space cs then [] else c ∷ rest

pub visible-append : (s t : Text) → visible (s ++ t) ≡ visible s ++ visible t
unfolding visible
visible-append [] t = refl
visible-append (c ∷ s) t = ground (arith, visible-append s t)

pub visible-concat-append :
    (ss ts : List Text) → visible (concat (ss ++ ts)) ≡ visible (concat ss) ++ visible (concat ts)
unfolding visible
visible-concat-append [] ts = refl
visible-concat-append (s ∷ ss) ts =
    rw
      (
        visible-append s (concat (ss ++ ts)),
        visible-append s (concat ss),
        visible-concat-append ss ts,
        append_assoc (visible s) (visible (concat ss)) (visible (concat ts)),
      )
      refl

pub visible-lstrip : (t : Text) → visible (lstrip t) ≡ visible t
unfolding visible
visible-lstrip [] = refl
visible-lstrip (c ∷ t) = ground (arith, visible-lstrip t)

visible-all_space : (t : Text) → all_space t ≡ true → visible t ≡ []
unfolding visible
visible-all_space [] h = refl
visible-all_space (c ∷ t) h = ground (arith, visible-all_space t)

pub visible-rstrip : (t : Text) → visible (rstrip t) ≡ visible t
unfolding visible
visible-rstrip [] = refl
visible-rstrip (c ∷ t) = ground (arith, visible-rstrip t, visible-all_space t)

pub length-lstrip-le : (t : Text) → length (lstrip t) ≤ length t
length-lstrip-le [] = omega arith
length-lstrip-le (c ∷ t) = ground (arith, length-lstrip-le t)

pub take-drop : (n : ℕ) (t : Text) → take n t ++ drop n t ≡ t
take-drop zero t = refl
take-drop (suc n) [] = refl
take-drop (suc n) (c ∷ t) = rw (take-drop n t) refl
