-- ===== src/Chat/Session/Streaming.antt =====
-- The buffered stream of a chat session against its `send`.
use agentforge_py.Prelude.{
  Bool, ◌≡◌, refl, ◌∙◌, ap, Option, none, some, List, [], ◌∷◌, ◌++◌, String,
}
use agentforge_py.Chat.Texts.{Text, visible, concat}
use agentforge_py.Chat.Segment.{segment_for_stream}
use agentforge_py.Chat.Segment.Pieces.{segment_for_stream-visible}
use agentforge_py.Chat.Session.{ChatResponse, Surroundings, Settings, ChatSession}
use agentforge_py.Chat.Session.Run.{
  check_cache, unless_cached, send, ChatChunk, text_chunk, done_chunk, error_chunk, text_chunks,
  chunks_for, chunks_of, stream_unless_cached, stream,
}

-- The text that a client has after the chunks, from the pieces.
unfoldable pub sent_text : List ChatChunk → Text
sent_text [] = []
sent_text (text_chunk piece sofar turn ∷ chunks) = piece ++ sent_text chunks
sent_text (done_chunk turn run cost tokens_in tokens_out ∷ chunks) = sent_text chunks
sent_text (error_chunk turn e ∷ chunks) = sent_text chunks

sent_text-text_chunks :
    (turn : String) (sofar : Text) (pieces : List Text) (rest : List ChatChunk)
    → sent_text rest ≡ []
    → sent_text (text_chunks turn sofar pieces ++ rest) ≡ concat pieces
unfolding sent_text
sent_text-text_chunks turn sofar [] rest h = h
sent_text-text_chunks turn sofar (piece ∷ pieces) rest h =
    ap (λ t. piece ++ t) (sent_text-text_chunks turn (sofar ++ piece) pieces rest h)

module _ (env : Surroundings) (cfg : Settings) (codes : String → Text) where
  stream_unless_cached_lem :
      (message : String) (key : Option String) (cancelled : Bool)
      (p : Option ChatResponse × ChatSession)
      → stream_unless_cached env cfg codes message key cancelled p
        ≡ chunks_of env cfg codes (unless_cached env cfg message key cancelled p)
  unfolding chunks_of
  stream_unless_cached_lem message key cancelled (some r, s) = refl
  stream_unless_cached_lem message key cancelled (none, s) = refl

  -- A buffered stream does what `send` does, to the answer and to the session, and gives the answer in
  -- chunks, or the exceptions that it shows as an error chunk; and the text of an answer's chunks has
  -- the visible characters of its content, in order.
  pub stream-send :
      (message : String) (key : Option String) (cancelled : Bool) (s : ChatSession)
      (r : ChatResponse)
      → (stream env cfg codes message key cancelled s
          ≡ chunks_of env cfg codes (send env cfg message key cancelled s))
        × (visible (sent_text (chunks_for codes r)) ≡ visible (codes r.content))
  unfolding stream send chunks_for sent_text
  stream-send message key cancelled s r = (
    stream_unless_cached_lem message key cancelled (check_cache env cfg key s),
    ap visible (sent_text-text_chunks r.turn_id [] (segment_for_stream (codes r.content)) _ refl)
        ∙ segment_for_stream-visible (codes r.content),
  )
