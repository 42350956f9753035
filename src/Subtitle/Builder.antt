-- ===== src/Subtitle/Builder.antt =====
-- modules/subtitle: SubtitleBuilder.hpp and SubtitleBuilder.cpp.
pub mod Feeding
use edge_tts_cpp.Base.{
  ℤ, ◌+ℤ◌, Bool, true, false, not, Option, none, some, List, [], ◌∷◌, ◌++◌, Bytes, lit,
  if◌then◌else◌,
}
use edge_tts_cpp.Common.Error.{Error, Result, ok, fail, error, invalid_argument}
use edge_tts_cpp.Core.Chunk.{BoundaryEventType, BoundaryChunk, same_type}
use edge_tts_cpp.Subtitle.Composer.{compose}
use edge_tts_cpp.Subtitle.Time.{SubtitleTime, SubtitleCue, from_edge_ticks}

pub record SubtitleBuilder : Type 0 where
  pub cues : List SubtitleCue
  pub kind : Option BoundaryEventType

abbrev pub empty_builder : SubtitleBuilder
empty_builder = record { cues = []; kind = none }

-- `type_.has_value() && *type_ != boundary.type`.
unfoldable pub is_mixed : Option BoundaryEventType → BoundaryEventType → Bool
unfolding same_type
is_mixed none kind = false
is_mixed (some locked) kind = not (same_type locked kind)

unfoldable pub lock : Option BoundaryEventType → BoundaryEventType → Option BoundaryEventType
lock none kind = some kind
lock (some locked) kind = some locked

abbrev pub mixed_types : Error
mixed_types =
    error invalid_argument (lit "mixed boundary types: all fed boundaries must be the same type")

-- The new state of the builder with the result.
unfoldable pub feed : BoundaryChunk → SubtitleBuilder → Result (Unit {0}) × SubtitleBuilder
unfolding is_mixed lock from_edge_ticks
feed boundary b =
    if is_mixed b.kind boundary.kind
    then (fail mixed_types, b)
    else elim (from_edge_ticks boundary.offset_ticks) [
      | fail e ↦ (fail e, b)
      | ok start ↦ elim (from_edge_ticks (boundary.offset_ticks +ℤ boundary.duration_ticks)) [
        | fail e ↦ (fail e, b)
        | ok end ↦ (
          ok tt,
          record {
            cues = b.cues ++ (record { start = start; end = end; text = boundary.text }) ∷ [];
            kind = lock b.kind boundary.kind;
          },
        )
      ]
    ]

unfoldable pub clear : SubtitleBuilder → SubtitleBuilder
clear b = empty_builder

unfoldable pub to_srt : SubtitleBuilder → Result Bytes
unfolding compose
to_srt b = compose b.cues
