-- ===== src/Api/SpeechSynthesizer/Save.antt =====
-- SpeechSynthesizer.cpp: which files `save` writes, and what is in them.
use edge_tts_cpp.Base.{
  false, Option, none, some, List, [], ◌∷◌, ◌++◌, append_assoc, append-nil, Bytes, ◌≡◌, refl, ap,
  ◌∙◌, sym, arith, Option-cases, ◌⊎◌, inl, inr,
}
use edge_tts_cpp.Api.FileWriter.{write_binary, write_text_utf8}
use edge_tts_cpp.Api.Host.{Host}
use edge_tts_cpp.Api.SpeechSynthesizer.{
  Event, file_written, SpeechSynthesizer, once, gather, write, write_subtitles, save_chunks,
  synthesize, save,
}
use edge_tts_cpp.Common.Error.{Error, Result, ok, fail, Result-cases}
use edge_tts_cpp.Communication.Effect.{◌>>◌}
use edge_tts_cpp.Core.Chunk.{BoundaryChunk, TtsChunk, audio_chunk, boundary_chunk}
use edge_tts_cpp.Subtitle.Builder.{SubtitleBuilder, empty_builder, feed, to_srt}
use edge_tts_cpp.Subtitle.Builder.Feeding.{feed_all}

-- The audio of the chunks, joined, and their boundary events.
unfoldable pub audio_of : List TtsChunk → Bytes
audio_of [] = []
audio_of (audio_chunk d ∷ xs) = d ++ audio_of xs
audio_of (boundary_chunk b ∷ xs) = audio_of xs

unfoldable pub boundaries_of : List TtsChunk → List BoundaryChunk
boundaries_of [] = []
boundaries_of (audio_chunk d ∷ xs) = boundaries_of xs
boundaries_of (boundary_chunk b ∷ xs) = b ∷ boundaries_of xs

unfoldable pub after_feeding :
    Bytes → Result (Unit {0}) → SubtitleBuilder → Result (Bytes × SubtitleBuilder)
after_feeding bytes (ok _) b = ok (bytes, b)
after_feeding bytes (fail e) b = fail e

-- The loop of `save` joins the audio and feeds the events, each in its order.
gather_lem :
    (xs : List TtsChunk) (bytes : Bytes) (b : SubtitleBuilder)
    → gather xs bytes b
      ≡ after_feeding
          (bytes ++ audio_of xs)
          (feed_all (boundaries_of xs) b).0
          (feed_all (boundaries_of xs) b).1
unfolding gather after_feeding feed_all audio_of boundaries_of
gather_lem [] bytes b = rw append-nil
gather_lem (audio_chunk d ∷ xs) bytes b =
    gather_lem xs (bytes ++ d) b
    ∙ ap (λ l. after_feeding l (feed_all (boundaries_of xs) b).0 (feed_all (boundaries_of xs) b).1)
        (append_assoc bytes d (audio_of xs))
gather_lem (boundary_chunk x ∷ xs) bytes b = ground (arith, gather_lem xs bytes (feed x b).1)

unfoldable pub srt_after : Result (Unit {0}) → SubtitleBuilder → Result Bytes
srt_after (ok _) b = to_srt b
srt_after (fail e) b = fail e

-- The subtitles of a speech: the cues of its boundary events, or why there are none.
unfoldable pub subtitles_of : List TtsChunk → Result Bytes
unfolding boundaries_of srt_after
subtitles_of xs =
    srt_after (feed_all (boundaries_of xs) empty_builder).0
      (feed_all (boundaries_of xs) empty_builder).1

-- What a save writes, in this order.
unfoldable pub subtitle_file : Option Bytes → Result Bytes → List Event
subtitle_file (some path) (ok srt) = file_written path srt ∷ []
subtitle_file _ _ = []

abbrev pub media_file : Bytes → List TtsChunk → Event
media_file path xs = file_written path (audio_of xs)

-- Where a save that got these chunks has left the log.
abbrev pub HasSaved :
    Bytes → Option Bytes → List TtsChunk → List Event → Result (Unit {0}) → List Event → Type 0
HasSaved media_path subtitles_path xs before (ok _) after =
    (after ≡ before ++ media_file media_path xs ∷ subtitle_file subtitles_path (subtitles_of xs))
    × ((subtitles_path ≡ none) ⊎ ((srt : Bytes) × (subtitles_of xs ≡ ok srt)))
HasSaved media_path subtitles_path xs before (fail e) after =
    (after ≡ before) ⊎ (after ≡ before ++ media_file media_path xs ∷ [])

module _ (h : Host) where
  write-log :
      (writer : Bytes → Bytes → h.World → Result (Unit {0}) × h.World) (path content : Bytes)
      (s s' : SpeechSynthesizer h) (r : Result (Unit {0}))
      → write h writer path content s ≡ some (r, s')
      → ((r ≡ ok tt) × (s'.log ≡ s.log ++ file_written path content ∷ []))
        ⊎ ((e : Error) × (r ≡ fail e) × (s'.log ≡ s.log))
  unfolding write
  write-log writer path content s s' r e = elim (Result-cases (writer path content s.world).0) [
    | inl (u, q) ↦ inl (ground arith, ground arith)
    | inr (x, q) ↦ inr (x, ground arith, ground arith)
  ]

  module _ (media_path : Bytes) (xs : List TtsChunk) (b : SubtitleBuilder)
      (built : feed_all (boundaries_of xs) empty_builder ≡ (ok tt, b)) where
    subtitles-built : subtitles_of xs ≡ to_srt b
    unfolding subtitles_of srt_after
    subtitles-built = ap (λ p. srt_after p.0 p.1) built

    HasSaved-write_subtitles :
        (subtitles_path : Option Bytes) (before : List Event) (s s' : SpeechSynthesizer h)
        (r : Result (Unit {0}))
        → s.log ≡ before ++ media_file media_path xs ∷ []
        → write_subtitles h subtitles_path b s ≡ some (r, s')
        → HasSaved media_path subtitles_path xs before r s'.log
    unfolding write_subtitles subtitle_file
    HasSaved-write_subtitles none before s s' (ok u) l e = (ground arith, inl refl)
    HasSaved-write_subtitles none before s s' (fail x) l e = ground arith
    HasSaved-write_subtitles (some path) before s s' r l e = elim (Result-cases (to_srt b)) [
      | inl (srt, q) ↦
          let run : write h (write_text_utf8 h) path srt s ≡ some (r, s') = ground arith in
          elim (write-log (write_text_utf8 h) path srt s s' r run) [
            | inl (done, log) ↦ rw done (
              log
                  ∙ ap (λ t. t ++ file_written path srt ∷ []) l
                  ∙ append_assoc before (media_file media_path xs ∷ []) _
                  ∙ ap (λ t. before ++ media_file media_path xs ∷ subtitle_file (some path) t)
                      (sym (subtitles-built ∙ q)),
              inr (srt, subtitles-built ∙ q),
            )
            | inr (x, failed, log) ↦ rw failed (inr (log ∙ l))
          ]
      | inr (x, q) ↦
          let failed : r ≡ fail x = ground arith in
          let kept : s'.log ≡ s.log = ground arith in rw failed (inr (kept ∙ l))
    ]

  HasSaved-save_chunks :
      (media_path : Bytes) (subtitles_path : Option Bytes) (xs : List TtsChunk)
      (s s' : SpeechSynthesizer h) (r : Result (Unit {0}))
      → save_chunks h media_path subtitles_path xs s ≡ some (r, s')
      → HasSaved media_path subtitles_path xs s.log r s'.log
  unfolding save_chunks after_feeding
  HasSaved-save_chunks media_path subtitles_path xs s s' r e =
      let b = (feed_all (boundaries_of xs) empty_builder).1 in
      elim (Result-cases (feed_all (boundaries_of xs) empty_builder).0) [
        | inr (x, q) ↦
            let failed : r ≡ fail x = ground (arith, gather_lem xs [] empty_builder) in
            let kept : s'.log ≡ s.log = ground (arith, gather_lem xs [] empty_builder) in
            rw failed (inl kept)
        | inl (done, q) ↦
            let built : feed_all (boundaries_of xs) empty_builder ≡ (ok tt, b) = ground arith in
            let wrote = write h (write_binary h) media_path (audio_of xs) s in
            let run : (write h (write_binary h) media_path (audio_of xs)
                    >> write_subtitles h subtitles_path b)
                  s
                ≡ some (r, s') =
              ground (arith, gather_lem xs [] empty_builder) in
            elim (Option-cases wrote) [
              | inl w ↦ grind arith
              | inr ((fail x, s2), w) ↦
                  let failed : r ≡ fail x = ground arith in
                  let kept : s'.log ≡ s.log =
                    ground (
                      arith,
                      write-log (write_binary h) media_path (audio_of xs) s s2 (fail x) w,
                    ) in
                  rw failed (inl kept)
              | inr ((ok u, s2), w) ↦
                  HasSaved-write_subtitles media_path xs b built subtitles_path s.log s2 s' r
                    (ground
                      (arith, write-log (write_binary h) media_path (audio_of xs) s s2 (ok u) w))
                    (ground arith)
            ]
      ]

-- What a save does with the result of the pipeline.
abbrev pub IsSaved :
    (h : Host)
    → Bytes
    → Option Bytes
    → Result (List TtsChunk)
    → SpeechSynthesizer h
    → Result (Unit {0})
    → SpeechSynthesizer h
    → Type 0
IsSaved h media_path subtitles_path (fail x) s1 r s' = (r ≡ fail x) × (s' ≡ s1)
IsSaved h media_path subtitles_path (ok xs) s1 r s' =
    HasSaved media_path subtitles_path xs s1.log r s'.log

-- On an object not yet called: where `synthesize` would fail, `save` returns its error and leaves the
-- object as it does, with no file written. Where it would return chunks, a save that returns ok has
-- written the media file with the joined audio of the chunks and then, if a path is given, the file
-- of the subtitles of their boundary events, and nothing else; a save that fails has written nothing
-- or just the media file.
pub save-synthesize :
    (h : Host) (media_path : Bytes) (subtitles_path : Option Bytes) (s s1 s' : SpeechSynthesizer h)
    (result : Result (List TtsChunk)) (r : Result (Unit {0}))
    → s.called ≡ false
    → synthesize h s ≡ some (result, s1)
    → save h media_path subtitles_path s ≡ some (r, s')
    → IsSaved h media_path subtitles_path result s1 r s'
unfolding synthesize save once
save-synthesize h media_path subtitles_path s s1 s' (fail x) r fresh run saved =
    (ground arith, ground arith)
save-synthesize h media_path subtitles_path s s1 s' (ok xs) r fresh run saved =
    HasSaved-save_chunks h media_path subtitles_path xs s1 s' r (ground arith)
