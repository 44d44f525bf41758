-- ===== src/Chat/Segment.antt =====
-- `segment_for_stream` of packages/agentforge-chat/src/agentforge_chat/_segment.py.
pub mod Pieces
use agentforge_py.Prelude.{
  ℕ, zero, suc, ◌+◌, ◌-◌, Bool, true, false, ◌&&◌, List, [], ◌∷◌, ◌++◌, leb, if◌then◌else◌, length,
  take, drop,
}
use agentforge_py.Chat.Texts.{Text, is_space, is_terminator}

abbrev pub max_chunk_chars : ℕ
max_chunk_chars = 200

-- Where the split on `(?<=[.!?])\s+` stands: in the white space after a terminator, or in a part,
-- whose last character was a terminator or not.
pub data Mode : Type 0 where
  gap : Mode
  part : Bool → Mode

abbrev pub non_empty : Text → List Text → List Text
non_empty [] rest = rest
non_empty (c ∷ cs) rest = (c ∷ cs) ∷ rest

-- The parts that are not empty, from `current`, the part so far.
unfoldable pub split_sentences : Mode → Text → Text → List Text
split_sentences mode current [] = non_empty current []
split_sentences gap current (c ∷ cs) = elim (is_space c) [
  | true ↦ split_sentences gap current cs
  | false ↦ split_sentences (part (is_terminator c)) (current ++ c ∷ []) cs
]
split_sentences (part ended) current (c ∷ cs) = elim (ended && is_space c) [
  | true ↦ non_empty current (split_sentences gap [] cs)
  | false ↦ split_sentences (part (is_terminator c)) (current ++ c ∷ []) cs
]

-- `while cursor < len(text)`, on the text from the cursor on.
unfoldable pub cut_loop : ℕ → Text → List Text
cut_loop zero rest = []
cut_loop (suc fuel) [] = []
cut_loop (suc fuel) (c ∷ cs) =
    take max_chunk_chars (c ∷ cs) ∷ cut_loop fuel (drop max_chunk_chars (c ∷ cs))

unfoldable pub split_long : Text → List Text
split_long text =
    if leb (length text) max_chunk_chars then text ∷ [] else cut_loop (length text) text

abbrev pub split_each : List Text → List Text
split_each [] = []
split_each (p ∷ ps) = split_long p ++ split_each ps

unfoldable pub segment_for_stream : Text → List Text
segment_for_stream text = split_each (split_sentences (part false) [] text)
