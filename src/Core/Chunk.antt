-- ===== src/Core/Chunk.antt =====
-- modules/core: Chunk.hpp and Chunk.cpp.
use edge_tts_cpp.Base.{ℤ, Bool, true, false, Bytes}

pub data BoundaryEventType : Type 0 where
  word_boundary sentence_boundary : BoundaryEventType

-- `type_ == type`.
unfoldable pub same_type : BoundaryEventType → BoundaryEventType → Bool
same_type word_boundary word_boundary = true
same_type sentence_boundary sentence_boundary = true
same_type _ _ = false

-- A tick is 100 ns.
pub record BoundaryChunk : Type 0 where
  pub kind : BoundaryEventType
  pub text : Bytes
  pub offset_ticks : ℤ
  pub duration_ticks : ℤ

-- `std::variant<AudioChunk, BoundaryChunk>`.
pub data TtsChunk : Type 0 where
  audio_chunk : Bytes → TtsChunk
  boundary_chunk : BoundaryChunk → TtsChunk

unfoldable pub is_audio : TtsChunk → Bool
is_audio (audio_chunk d) = true
is_audio (boundary_chunk b) = false

unfoldable pub is_boundary : TtsChunk → Bool
is_boundary (audio_chunk d) = false
is_boundary (boundary_chunk b) = true
