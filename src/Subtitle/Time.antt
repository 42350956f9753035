-- ===== src/Subtitle/Time.antt =====
-- modules/subtitle: SubtitleTime.hpp, SubtitleTime.cpp and SubtitleCue.hpp.
pub mod RoundTrip
use edge_tts_cpp.Base.{
  ℕ, ◌*◌, ◌/◌, ◌%◌, ◌++◌, ◌∷◌, ◌≡◌, refl, Bytes, lit, codes, padded, ℤ, pos, negsuc, if◌then◌else◌,
}
use edge_tts_cpp.Common.Error.{Error, Result, ok, fail, error, invalid_argument}

-- A time in milliseconds, which the factory keeps from being negative.
pub record SubtitleTime : Type 0 where
  pub millis : ℕ

abbrev pub negative_ticks : Error
negative_ticks =
    error invalid_argument (lit "edge ticks must be non-negative for a valid SRT timestamp")

unfoldable pub from_edge_ticks : ℤ → Result SubtitleTime
from_edge_ticks (negsuc n) = fail negative_ticks
from_edge_ticks (pos ticks) = ok (record { millis = ticks / 10000 })

-- "HH:MM:SS,mmm".
unfoldable pub to_srt_timestamp : SubtitleTime → Bytes
unfolding padded
to_srt_timestamp t =
    let hrs = t.millis / 3600000 in
    let mins = (t.millis % 3600000) / 60000 in
    let secs = (t.millis % 60000) / 1000 in
    let ms = t.millis % 1000 in
    padded 2 hrs ++ (b':' ∷ (padded 2 mins ++ (b':' ∷ (padded 2 secs ++ (b',' ∷ padded 3 ms)))))

pub record SubtitleCue : Type 0 where
  pub start : SubtitleTime
  pub end : SubtitleTime
  pub text : Bytes

timestamp_runs : to_srt_timestamp (record { millis = 362345678 }) ≡ codes "100:39:05,678"
unfolding to_srt_timestamp
timestamp_runs = refl
