-- ===== src/Cli/EdgeTtsDispatcher/Routing.antt =====
-- EdgeTtsCommandDispatcher.cpp: where the audio and the subtitles of a synthesis go.
use mathlib.Core.Path.{subst}
use edge_tts_cpp.Base.{
  ℕ, none, Option, Bool-cases, bytes_eq, bytes_eq_sound, bytes_eq_refl, codes, true, ◌≢◌, ◌⊎◌, some,
  List, [], ◌∷◌, ◌++◌, append_assoc, append-nil, Bytes, ◌≡◌, refl, ap, ◌∙◌, sym, arith, inl, inr,
}
use edge_tts_cpp.Api.FileWriter.{write_binary, write_text_utf8}
use edge_tts_cpp.Api.Host.{Host}
use edge_tts_cpp.Api.SpeechSynthesizer
use edge_tts_cpp.Api.SpeechSynthesizer.{SpeechSynthesizer}
use edge_tts_cpp.Api.SpeechSynthesizer.Save.{audio_of, boundaries_of, subtitles_of, srt_after}
use edge_tts_cpp.Cli.Console.{
  Terminal, Console, Action, synthesized, wrote, print, complain, act, exit_with,
}
use edge_tts_cpp.Cli.EdgeTtsDispatcher.{
  Target, nowhere, dash, file, route, route_audio, write_file, write_media, write_srt, or_exit,
  deliver, stream_chunks, target_of,
}
use edge_tts_cpp.Common.Error.{Result, ok, fail, Result-cases}
use edge_tts_cpp.Core.Chunk.{TtsChunk, audio_chunk, boundary_chunk}
use edge_tts_cpp.Subtitle.Builder.{SubtitleBuilder, empty_builder, feed, to_srt}
use edge_tts_cpp.Subtitle.Builder.Feeding.{feed_all}

-- What goes to the output: the audio, unless it goes to a file.
unfoldable pub output_of : Target → List TtsChunk → Bytes
unfolding audio_of
output_of (file path) xs = []
output_of nowhere xs = audio_of xs
output_of dash xs = audio_of xs

unfoldable pub kept_of : Target → List TtsChunk → Bytes
unfolding audio_of
kept_of (file path) xs = audio_of xs
kept_of nowhere xs = []
kept_of dash xs = []

unfoldable pub media_files : Target → List TtsChunk → List Action
unfolding audio_of
media_files (file path) xs = wrote path (audio_of xs) ∷ []
media_files nowhere xs = []
media_files dash xs = []

-- The subtitles are made only if they are asked for.
abbrev pub SubtitlesGo : Target → Result Bytes → List Action → List Action → Bytes → Bytes → Type 0
SubtitlesGo nowhere srt log log' err err' = (log' ≡ log) × (err' ≡ err)
SubtitlesGo dash srt log log' err err' =
    (text : Bytes) × (srt ≡ ok text) × (log' ≡ log) × (err' ≡ err ++ text)
SubtitlesGo (file path) srt log log' err err' =
    (text : Bytes) × (srt ≡ ok text) × (log' ≡ log ++ wrote path text ∷ []) × (err' ≡ err)

SubtitlesGo-along :
    (subtitles : Target) (srt srt' : Result Bytes) (log log' log1 : List Action)
    (err err' err1 : Bytes)
    → srt ≡ srt'
    → log ≡ log'
    → err ≡ err'
    → SubtitlesGo subtitles srt log log1 err err1
    → SubtitlesGo subtitles srt' log' log1 err' err1
SubtitlesGo-along nowhere srt srt' log log' log1 err err' err1 p q r d = ground arith
SubtitlesGo-along dash srt srt' log log' log1 err err' err1 p q r (text, made, same, said) =
    (text, ground arith, ground arith, ground arith)
SubtitlesGo-along (file path) srt srt' log log' log1 err err' err1 p q r
      (text, made, wrote', said) =
    (text, ground arith, ground arith, ground arith)

module _ (h : Host) (t : Terminal h) where
  -- A routing that ends without an error has fed every event.
  abbrev Routed :
      Target
      → List TtsChunk
      → Bytes
      → SubtitleBuilder
      → Console h t
      → Bytes
      → SubtitleBuilder
      → Console h t
      → Type 0
  Routed media xs bytes b c bytes' b' c' =
      (bytes' ≡ bytes ++ kept_of media xs)
      × (feed_all (boundaries_of xs) b ≡ (ok tt, b'))
      × (c'.out ≡ c.out ++ output_of media xs)
      × (c'.log ≡ c.log)
      × (c'.err ≡ c.err)

  route-Routed :
      (media : Target) (xs : List TtsChunk) (bytes : Bytes) (b : SubtitleBuilder) (c : Console h t)
      (bytes' : Bytes) (b' : SubtitleBuilder) (c' : Console h t)
      → route h t media xs bytes b c ≡ (ok (bytes', b'), c')
      → Routed media xs bytes b c bytes' b' c'
  unfolding route route_audio print feed_all audio_of boundaries_of kept_of output_of
  route-Routed nowhere [] bytes b c bytes' b' c' e =
      ground (arith, append-nil bytes, append-nil c.out)
  route-Routed dash [] bytes b c bytes' b' c' e = ground (arith, append-nil bytes, append-nil c.out)
  route-Routed (file p) [] bytes b c bytes' b' c' e =
      ground (arith, append-nil bytes, append-nil c.out)
  route-Routed nowhere (audio_chunk d ∷ xs) bytes b c bytes' b' c' e = ground (
    arith,
    route-Routed nowhere xs bytes b (print h t d c) bytes' b' c' e,
    append_assoc c.out d (audio_of xs),
  )
  route-Routed dash (audio_chunk d ∷ xs) bytes b c bytes' b' c' e = ground (
    arith,
    route-Routed dash xs bytes b (print h t d c) bytes' b' c' e,
    append_assoc c.out d (audio_of xs),
  )
  route-Routed (file p) (audio_chunk d ∷ xs) bytes b c bytes' b' c' e = ground (
    arith,
    route-Routed (file p) xs (bytes ++ d) b c bytes' b' c' e,
    append_assoc bytes d (audio_of xs),
  )
  route-Routed nowhere (boundary_chunk x ∷ xs) bytes b c bytes' b' c' e =
      ground (arith, route-Routed nowhere xs bytes (feed x b).1 c bytes' b' c')
  route-Routed dash (boundary_chunk x ∷ xs) bytes b c bytes' b' c' e =
      ground (arith, route-Routed dash xs bytes (feed x b).1 c bytes' b' c')
  route-Routed (file p) (boundary_chunk x ∷ xs) bytes b c bytes' b' c' e =
      ground (arith, route-Routed (file p) xs bytes (feed x b).1 c bytes' b' c')

  write_media-done :
      (media : Target) (xs : List TtsChunk) (bytes : Bytes) (c c' : Console h t)
      → bytes ≡ kept_of media xs
      → write_media h t media bytes c ≡ (ok tt, c')
      → (c'.log ≡ c.log ++ media_files media xs) × (c'.out ≡ c.out) × (c'.err ≡ c.err)
  unfolding write_media write_file act media_files kept_of
  write_media-done nowhere xs bytes c c' k e = ground (arith, append-nil c.log)
  write_media-done dash xs bytes c c' k e = ground (arith, append-nil c.log)
  write_media-done (file path) xs bytes c c' k e =
      elim (Result-cases (write_binary h path bytes c.world).0) [
        | inl (u, q) ↦ ground arith
        | inr (x, q) ↦ grind arith
      ]

  write_srt-done :
      (subtitles : Target) (srt : Result Bytes) (c c' : Console h t)
      → write_srt h t subtitles srt c ≡ (ok tt, c')
      → SubtitlesGo subtitles srt c.log c'.log c.err c'.err × (c'.out ≡ c.out)
  unfolding write_srt write_file act complain
  write_srt-done nowhere srt c c' e = ground arith
  write_srt-done dash (fail x) c c' e = grind arith
  write_srt-done (file path) (fail x) c c' e = grind arith
  write_srt-done dash (ok srt) c c' e = ((srt, refl, ground arith, ground arith), ground arith)
  write_srt-done (file path) (ok srt) c c' e =
      elim (Result-cases (write_text_utf8 h path srt c.world).0) [
        | inl (u, q) ↦ ((srt, refl, ground arith, ground arith), ground arith)
        | inr (x, q) ↦ grind arith
      ]

  with_result : {A : Type 0} (p : Result A × Console h t) (r : Result A) → p.0 ≡ r → p ≡ (r, p.1)
  with_result p r e = ground arith

  -- A step that did not exit.
  or_exit-zero :
      {A : Type 0} (p : Result A × Console h t) (next : A → Console h t → ℕ × Console h t)
      (c' : Console h t)
      → or_exit h t p next ≡ (0, c')
      → (a : A) × (p.0 ≡ ok a) × (next a p.1 ≡ (0, c'))
  unfolding exit_with
  or_exit-zero (fail e, c) next c' z = grind arith
  or_exit-zero (ok a, c) next c' z = (a, refl, z)

  -- Where everything has gone, from a state to the end of the command.
  abbrev pub Delivered : Target → Target → List TtsChunk → Console h t → Console h t → Type 0
  Delivered media subtitles xs c c' =
      (c'.out ≡ c.out ++ output_of media xs)
      × SubtitlesGo subtitles (subtitles_of xs) (c.log ++ media_files media xs) c'.log c.err c'.err

  subtitles-fed :
      (xs : List TtsChunk) (b : SubtitleBuilder)
      → feed_all (boundaries_of xs) empty_builder ≡ (ok tt, b)
      → subtitles_of xs ≡ to_srt b
  unfolding subtitles_of srt_after
  subtitles-fed xs b e = ap (λ p. srt_after p.0 p.1) e

  deliver-Delivered :
      (media subtitles : Target) (xs : List TtsChunk) (c c' : Console h t)
      → deliver h t media subtitles xs c ≡ (0, c')
      → Delivered media subtitles xs c c'
  unfolding deliver
  deliver-Delivered media subtitles xs c c' z =
      let p1 = route h t media xs [] empty_builder c in
      let (fed, e1, z1) = or_exit-zero p1 _ c' z in
      let p2 = write_media h t media fed.0 p1.1 in
      let (done, e2, z2) = or_exit-zero p2 _ c' z1 in
      let p3 = write_srt h t subtitles (to_srt fed.1) p2.1 in
      let (written, e3, z3) = or_exit-zero p3 _ c' z2 in
      let routed =
        route-Routed media xs [] empty_builder c fed.0 fed.1 p1.1 (with_result p1 (ok fed) e1) in
      let media_done =
        write_media-done media xs fed.0 p1.1 p2.1 routed.0 (with_result p2 (ok tt) e2) in
      let srt_done =
        write_srt-done subtitles (to_srt fed.1) p2.1 p3.1 (with_result p3 (ok tt) e3) in
      let ends : p3.1 ≡ c' = ap (λ q. q.1) z3 in
      subst (Delivered media subtitles xs c) ends (
        srt_done.1 ∙ media_done.1 ∙ routed.2,
        SubtitlesGo-along subtitles _ _ _ _ p3.1.log _ _ p3.1.err
            (sym (subtitles-fed xs fed.1 routed.1))
            (media_done.0 ∙ ap (λ l. l ++ media_files media xs) routed.3) (media_done.2 ∙ routed.4)
            srt_done.0,
      )

-- What an option of --write-media or --write-subtitles means: "-" alone is not a file.
abbrev pub Means : Option Bytes → Target → Type 0
Means none goes = goes ≡ nowhere
Means (some path) goes =
    ((path ≡ codes "-") × (goes ≡ dash)) ⊎ ((path ≢ codes "-") × (goes ≡ file path))

Means-target_of : (o : Option Bytes) → Means o (target_of o)
unfolding target_of
Means-target_of none = refl
Means-target_of (some path) = elim (Bool-cases (bytes_eq path (codes "-"))) [
  | inl q ↦ inl (bytes_eq_sound path (codes "-") q, rw q refl)
  | inr q ↦ inr (
    λ e.
        let same : bytes_eq path (codes "-") ≡ true = rw e (bytes_eq_refl (codes "-")) in
        grind arith,
    rw q refl,
  )
]

-- A synthesis that gets its chunks and ends with the exit code 0 has sent all their audio, joined in
-- order, to one place: to the file of --write-media, and then nothing to the output, or, if that is
-- not given or is "-", to the output, and then to no file. The subtitles of the chunks' boundary
-- events are then in the file of --write-subtitles, or on the error stream if that is "-", and nowhere
-- if it is not given; nothing else is written, and the files are written behind the synthesis, the
-- media first.
pub stream_chunks-Delivered :
    (h : Host) (t : Terminal h) (media subtitles : Option Bytes) (s s1 : SpeechSynthesizer h)
    (c c' : Console h t) (xs : List TtsChunk)
    → SpeechSynthesizer.synthesize h (record s { world = c.world }) ≡ some (ok xs, s1)
    → stream_chunks h t (target_of media) (target_of subtitles) s c ≡ some (0, c')
    → (audio_to text_to : Target) × Means media audio_to
      × Means subtitles text_to
      × Delivered h t audio_to text_to xs (act h t (synthesized s1.log) s1.world c) c'
unfolding stream_chunks
stream_chunks-Delivered h t media subtitles s s1 c c' xs run e = (
  target_of media,
  target_of subtitles,
  Means-target_of media,
  Means-target_of subtitles,
  deliver-Delivered h t (target_of media) (target_of subtitles) xs
      (act h t (synthesized s1.log) s1.world c) c' (ground arith),
)
