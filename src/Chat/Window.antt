-- ===== src/Chat/Window.antt =====
-- `_SentenceWindowBuffer` of packages/agentforge-chat/src/agentforge_chat/_window.py. The buffer is
-- the state, a list of code points.
pub mod Conserved
use agentforge_py.Prelude.{
  ℕ, zero, suc, ◌+◌, Bool, true, false, ◌&&◌, ◌||◌, Option, none, some, List, [], ◌∷◌, ◌++◌, leb,
  eqb, if◌then◌else◌, length, take, drop,
}
use agentforge_py.Prelude.Dict.{is_some}
use agentforge_py.Chat.Texts.{Text, is_space, is_terminator, lstrip, rstrip}
use agentforge_py.Chat.Segment.{non_empty}

abbrev pub soft_max_chars : ℕ
soft_max_chars = 200

-- The number of leading characters with `p`, for a greedy `+`.
abbrev pub run_of : (ℕ → Bool) → Text → ℕ
run_of p [] = 0
run_of p (c ∷ cs) = let rest = run_of p cs in if p c then suc rest else 0

abbrev pub is_newline : ℕ → Bool
is_newline c = eqb c 0x0a

-- The length of a match of `[.!?]\s+|\n+` at the start, 0 when there is none.
abbrev pub match_at : Text → ℕ
match_at [] = 0
match_at (c ∷ cs) =
    let spaces = run_of is_space cs in
    if is_terminator c && leb 1 spaces
    then suc spaces
    else (if is_newline c then suc (run_of is_newline cs) else 0)

abbrev pub shifted : Option ℕ → Option ℕ
shifted none = none
shifted (some n) = some (suc n)

-- `_BOUNDARY_RE.search(buf)`, as the end of the leftmost match.
unfoldable pub boundary : Text → Option ℕ
boundary [] = none
boundary (c ∷ cs) =
    let rest = boundary cs in
    let found = match_at (c ∷ cs) in if leb 1 found then some found else shifted rest

unfoldable pub find_cut : Text → Option ℕ
find_cut buf = elim (boundary buf) [
  | some end ↦ some end
  | none ↦ (if leb soft_max_chars (length buf) then some soft_max_chars else none)
]

-- `while True`: the sentences completed, and the new buffer.
unfoldable pub push_loop : ℕ → Text → List Text × Text
push_loop zero buf = ([], buf)
push_loop (suc fuel) buf = elim (find_cut buf) [
  | none ↦ ([], buf)
  | some cut ↦
      let rest = push_loop fuel (lstrip (drop cut buf)) in
      (non_empty (rstrip (take cut buf)) rest.0, rest.1)
]

unfoldable pub push : Text → Text → List Text × Text
push [] buf = ([], buf)
push (c ∷ cs) buf = push_loop (length (buf ++ c ∷ cs)) (buf ++ c ∷ cs)

-- The residual text, and the empty buffer.
unfoldable pub flush : Text → Text × Text
flush buf = (buf, [])

-- Several pushes, one after another: all the sentences, and the buffer.
unfoldable pub push_all : List Text → Text → List Text × Text
push_all [] buf = ([], buf)
push_all (t ∷ ts) buf =
    let first = push t buf in let rest = push_all ts first.1 in (first.0 ++ rest.0, rest.1)
