-- ===== src/Subtitle/Builder/Feeding.antt =====
-- SubtitleBuilder.cpp: which events are taken, and what the builder then holds.
use edge_tts_cpp.Base.{
  ℕ, ℤ, pos, negsuc, ◌+ℤ◌, ◌/◌, true, false, Option, none, some, List, [], ◌∷◌, ◌++◌, ◌≡◌, refl,
  arith, ◌⊎◌, inl, inr, Bool-cases,
}
use edge_tts_cpp.Common.Error.{Error, Result, ok, fail, invalid_argument}
use edge_tts_cpp.Core.Chunk.{
  BoundaryEventType, BoundaryChunk, same_type, word_boundary, sentence_boundary,
}
use edge_tts_cpp.Subtitle.Builder.{SubtitleBuilder, is_mixed, lock, feed, mixed_types}
use edge_tts_cpp.Subtitle.Time.{SubtitleCue, from_edge_ticks, negative_ticks}

-- An event of a kind, at a time and with an end that are not negative.
pub record IsTimed (kind : BoundaryEventType) (b : BoundaryChunk) : Type 0 where
  pub same_kind : b.kind ≡ kind
  pub start : ℕ
  pub at_start : b.offset_ticks ≡ pos start
  pub end : ℕ
  pub at_end : b.offset_ticks +ℤ b.duration_ticks ≡ pos end

-- The whole milliseconds of a tick count.
unfoldable pub millis_of : ℤ → ℕ
millis_of (pos n) = n / 10000
millis_of (negsuc n) = 0

unfoldable pub cue_of : BoundaryChunk → SubtitleCue
unfolding millis_of
cue_of b = record {
  start = record { millis = millis_of b.offset_ticks };
  end = record { millis = millis_of (b.offset_ticks +ℤ b.duration_ticks) };
  text = b.text;
}

-- Feed events until one is refused.
unfoldable pub feed_all : List BoundaryChunk → SubtitleBuilder → Result (Unit {0}) × SubtitleBuilder
unfolding feed
feed_all [] b = (ok tt, b)
feed_all (x ∷ xs) b =
    let (r, b') = feed x b in elim r [ ok _ ↦ feed_all xs b' | fail e ↦ (fail e, b') ]

-- Why an event is refused: another kind is locked, it starts before zero, or it ends before zero.
abbrev pub IsRefused : BoundaryChunk → SubtitleBuilder → Type 0
IsRefused x b =
    ((is_mixed b.kind x.kind ≡ true) ⊎ ((n : ℕ) × (x.offset_ticks ≡ negsuc n)))
    ⊎ ((n : ℕ) × (x.offset_ticks +ℤ x.duration_ticks ≡ negsuc n))

ℤ-cases : (a : ℤ) → ((n : ℕ) × (a ≡ pos n)) ⊎ ((n : ℕ) × (a ≡ negsuc n))
ℤ-cases (pos n) = inl (n, refl)
ℤ-cases (negsuc n) = inr (n, refl)

lock-same :
    (k : Option BoundaryEventType) (kind : BoundaryEventType)
    → is_mixed k kind ≡ false
    → lock k kind ≡ some kind
unfolding is_mixed lock same_type
lock-same none kind h = refl
lock-same (some word_boundary) word_boundary h = refl
lock-same (some sentence_boundary) sentence_boundary h = refl
lock-same (some word_boundary) sentence_boundary h = ground arith
lock-same (some sentence_boundary) word_boundary h = ground arith

-- For every event and builder, `feed` either appends the event's cue, with its times in whole
-- milliseconds, and locks its kind, or it returns `invalid_argument` and leaves the builder as it was.
-- It refuses exactly the events of another kind than the locked one and those that start or end
-- before zero.
pub feed_lem :
    (x : BoundaryChunk) (b : SubtitleBuilder)
    → (IsTimed x.kind x
        × (is_mixed b.kind x.kind ≡ false)
        × (feed x b ≡ (ok tt, record { cues = b.cues ++ cue_of x ∷ []; kind = some x.kind })))
      ⊎ (IsRefused x b × ((e : Error) × (feed x b ≡ (fail e, b)) × (e.code ≡ invalid_argument)))
unfolding feed cue_of from_edge_ticks millis_of lock
feed_lem x b = elim (Bool-cases (is_mixed b.kind x.kind)) [
  | inl m ↦ inr (inl (inl m), (mixed_types, rw m refl, refl))
  | inr m ↦ elim (ℤ-cases x.offset_ticks) [
    | inr (n, o) ↦ inr (inl (inr (n, o)), (negative_ticks, rw m (rw o refl), refl))
    | inl (n, o) ↦ elim (ℤ-cases (x.offset_ticks +ℤ x.duration_ticks)) [
      | inr (k, d) ↦ inr (inr (k, d), (negative_ticks, rw m (rw o (rw d refl)), refl))
      | inl (k, d) ↦ inl (
        record { same_kind = refl; start = n; at_start = o; end = k; at_end = d },
        m,
        rw m (rw d (rw o (rw d (rw (lock-same b.kind x.kind m) refl)))),
      )
    ]
  ]
]
