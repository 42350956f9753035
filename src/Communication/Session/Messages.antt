-- ===== src/Communication/Session/Messages.antt =====
-- SynthesisSession.cpp: what the messages of a frame add to a chunk of text.
use edge_tts_cpp.Base.{
  Bool, true, false, ◌||◌, List, [], ◌∷◌, ◌++◌, ℤ, pos, negsuc, ltb, if◌then◌else◌, ◌+ℤ◌, ◌≡◌,
  append_assoc, append-nil, arith,
}
use edge_tts_cpp.Communication.Incoming.{IncomingMessage, audio, boundary, turn_end, ignored}
use edge_tts_cpp.Communication.Session.{Received, max_ℤ, shift, handle_messages}
use edge_tts_cpp.Core.Chunk.{TtsChunk, audio_chunk, boundary_chunk}

-- The messages before the end of the turn, and whether it comes.
unfoldable pub before_end : List IncomingMessage → List IncomingMessage
before_end [] = []
before_end (audio d ∷ ms) = audio d ∷ before_end ms
before_end (boundary b ∷ ms) = boundary b ∷ before_end ms
before_end (turn_end ∷ ms) = []
before_end (ignored ∷ ms) = ignored ∷ before_end ms

unfoldable pub has_turn_end : List IncomingMessage → Bool
has_turn_end [] = false
has_turn_end (audio d ∷ ms) = has_turn_end ms
has_turn_end (boundary b ∷ ms) = has_turn_end ms
has_turn_end (turn_end ∷ ms) = true
has_turn_end (ignored ∷ ms) = has_turn_end ms

-- The chunks that messages carry, their events shifted.
unfoldable pub chunks_of : ℤ → List IncomingMessage → List TtsChunk
chunks_of by [] = []
chunks_of by (audio d ∷ ms) = audio_chunk d ∷ chunks_of by ms
chunks_of by (boundary b ∷ ms) =
    boundary_chunk (record {
      kind = b.kind;
      text = b.text;
      offset_ticks = b.offset_ticks +ℤ by;
      duration_ticks = b.duration_ticks;
    })
    ∷ chunks_of by ms
chunks_of by (turn_end ∷ ms) = chunks_of by ms
chunks_of by (ignored ∷ ms) = chunks_of by ms

unfoldable pub any_audio : List IncomingMessage → Bool
any_audio [] = false
any_audio (audio d ∷ ms) = true
any_audio (boundary b ∷ ms) = any_audio ms
any_audio (turn_end ∷ ms) = any_audio ms
any_audio (ignored ∷ ms) = any_audio ms

-- The greater of two integers, by their signs.
unfoldable pub greater : ℤ → ℤ → ℤ
greater (pos a) (pos b) = pos (if ltb a b then b else a)
greater (pos a) (negsuc b) = pos a
greater (negsuc a) (pos b) = pos b
greater (negsuc a) (negsuc b) = negsuc (if ltb b a then b else a)

max_ℤ-greater : (a b : ℤ) → max_ℤ a b ≡ greater a b
unfolding max_ℤ greater
max_ℤ-greater (pos a) (pos b) = ground arith
max_ℤ-greater (pos a) (negsuc b) = ground arith
max_ℤ-greater (negsuc a) (pos b) = ground arith
max_ℤ-greater (negsuc a) (negsuc b) = ground arith

-- The latest end of the events, on the service's own clock, and `top`.
unfoldable pub latest_end : ℤ → List IncomingMessage → ℤ
unfolding greater
latest_end top [] = top
latest_end top (audio d ∷ ms) = latest_end top ms
latest_end top (boundary b ∷ ms) = latest_end (greater top (b.offset_ticks +ℤ b.duration_ticks)) ms
latest_end top (turn_end ∷ ms) = latest_end top ms
latest_end top (ignored ∷ ms) = latest_end top ms

unfoldable pub add_all : ℤ → List IncomingMessage → Received → Received
unfolding any_audio latest_end chunks_of
add_all by ms r = record {
  audio_received = r.audio_received || any_audio ms;
  boundary_end = latest_end r.boundary_end ms;
  chunks = r.chunks ++ chunks_of by ms;
}

-- For every list of messages, `handle_messages` adds exactly the messages before the first end of the
-- turn, and says whether one came: the audio and the events in their order, with the compensation
-- added to each event's offset and nothing else changed in it, the greatest of the ends before the
-- compensation, and whether there was audio.
pub handle_messages_lem :
    (by : ℤ) (ms : List IncomingMessage) (r : Received)
    → handle_messages by ms r ≡ (add_all by (before_end ms) r, has_turn_end ms)
unfolding handle_messages shift add_all before_end has_turn_end any_audio latest_end chunks_of
handle_messages_lem by [] r = grind (arith, append-nil)
handle_messages_lem by (audio d ∷ ms) r = grind (
  arith,
  append_assoc,
  handle_messages_lem by ms
      (record r { audio_received = true; chunks = r.chunks ++ audio_chunk d ∷ [] }),
)
handle_messages_lem by (boundary b ∷ ms) r = grind (
  arith,
  append_assoc,
  max_ℤ-greater r.boundary_end (b.offset_ticks +ℤ b.duration_ticks),
  handle_messages_lem by ms (record r {
    boundary_end = max_ℤ r.boundary_end (b.offset_ticks +ℤ b.duration_ticks);
    chunks = r.chunks ++ boundary_chunk (shift by b) ∷ [];
  }),
)
handle_messages_lem by (turn_end ∷ ms) r = grind (arith, append-nil)
handle_messages_lem by (ignored ∷ ms) r = handle_messages_lem by ms r
