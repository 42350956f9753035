-- ===== src/Cli/EdgeTtsDispatcher/Exit.antt =====
-- EdgeTtsCommandDispatcher.cpp: the exit codes, and what they come with.
use edge_tts_cpp.Base.{
  ℕ, ◌+◌, ◌≤◌, ◌<◌, Bool, true, false, Option, none, some, List, [], ◌∷◌, ◌++◌, Bytes, codes,
  length, length-append, ◌≡◌, ◌⊎◌, inl, inr, refl, ap, arith, Bool-cases, Option-cases,
}
use edge_tts_cpp.Api.FileWriter.{write_binary, write_text_utf8}
use edge_tts_cpp.Api.Host.{Host}
use edge_tts_cpp.Api.SpeechSynthesizer
use edge_tts_cpp.Api.SpeechSynthesizer.{SpeechSynthesizer, construct}
use edge_tts_cpp.Cli.Console.{
  Terminal, Console, synthesized, print, complain, act, exit_with, format_error, config_of,
  options_of,
}
use edge_tts_cpp.Cli.EdgeTts.{
  EdgeTtsArguments, ParseAction, ParseResult, help, version, parse_failed, list_voices_action,
}
use edge_tts_cpp.Cli.EdgeTtsDispatcher.{
  Target, nowhere, dash, file, target_of, route, route_audio, write_file, write_media, write_srt,
  or_exit, deliver, stream_chunks, warn_tty, tty_warning, dispatch_synthesize, dispatch_list_voices,
  dispatch_action, dispatch, unless_cancelled, with_text, synthesize_text,
}
use edge_tts_cpp.Common.Error.{Error, Result, ok, fail}
use edge_tts_cpp.Core.Chunk.{TtsChunk, audio_chunk, boundary_chunk}
use edge_tts_cpp.Subtitle.Builder.{SubtitleBuilder, empty_builder, feed, to_srt}

module _ (h : Host) (t : Terminal h) where
  -- Nothing is taken back from the error stream.
  abbrev Grows : Console h t → Console h t → Type 0
  Grows c c' = length c.err ≤ length c'.err

  -- A success, or a failure that has written to the error stream.
  abbrev pub Says : Console h t → ℕ → Console h t → Type 0
  Says c code c' =
      ((code ≡ 0) × (length c.err ≤ length c'.err)) ⊎ ((code ≡ 1) × (length c.err < length c'.err))

  pub complain-length :
      (text : Bytes) (c : Console h t)
      → length (complain h t text c).err ≡ length c.err + length text
  unfolding complain
  complain-length text c = length-append c.err text

  pub exit_with-Says :
      (e : Error) (c c1 : Console h t)
      → Grows c c1
      → Says c (exit_with h t e c1).0 (exit_with h t e c1).1
  unfolding exit_with
  exit_with-Says e c c1 g = inr (
    refl,
    omega (
      arith,
      complain-length (codes "error: " ++ (format_error e ++ codes "\n")) c1,
      length-append {0} (codes "error: ") (format_error e ++ codes "\n"),
    ),
  )

  or_exit-Says :
      {A : Type 0} (c : Console h t) (p : Result A × Console h t)
      (next : A → Console h t → ℕ × Console h t)
      → Grows c p.1
      → ((a : A) (c1 : Console h t) → Grows c c1 → Says c (next a c1).0 (next a c1).1)
      → Says c (or_exit h t p next).0 (or_exit h t p next).1
  or_exit-Says c (fail e, c1) next g k = exit_with-Says e c c1 g
  or_exit-Says c (ok a, c1) next g k = k a c1 g

  route-err :
      (media : Target) (xs : List TtsChunk) (bytes : Bytes) (b : SubtitleBuilder) (c : Console h t)
      → (route h t media xs bytes b c).1.err ≡ c.err
  unfolding route route_audio print
  route-err media [] bytes b c = refl
  route-err nowhere (audio_chunk d ∷ xs) bytes b c = route-err nowhere xs bytes b (print h t d c)
  route-err dash (audio_chunk d ∷ xs) bytes b c = route-err dash xs bytes b (print h t d c)
  route-err (file p) (audio_chunk d ∷ xs) bytes b c = route-err (file p) xs (bytes ++ d) b c
  route-err media (boundary_chunk x ∷ xs) bytes b c =
      ground (arith, route-err media xs bytes (feed x b).1 c)

  write_file-err :
      (writer : Bytes → Bytes → h.World → Result (Unit {0}) × h.World) (path content : Bytes)
      (c : Console h t)
      → (write_file h t writer path content c).1.err ≡ c.err
  unfolding write_file act
  write_file-err writer path content c = ground arith

  write_media-err :
      (media : Target) (bytes : Bytes) (c : Console h t)
      → (write_media h t media bytes c).1.err ≡ c.err
  unfolding write_media
  write_media-err nowhere bytes c = refl
  write_media-err dash bytes c = refl
  write_media-err (file path) bytes c = write_file-err (write_binary h) path bytes c

  write_srt-Grows :
      (subtitles : Target) (srt : Result Bytes) (c : Console h t)
      → Grows c (write_srt h t subtitles srt c).1
  unfolding write_srt
  write_srt-Grows nowhere srt c = omega arith
  write_srt-Grows (file path) (fail e) c = omega arith
  write_srt-Grows dash (fail e) c = omega arith
  write_srt-Grows (file path) (ok srt) c =
      omega (arith, ap length (write_file-err (write_text_utf8 h) path srt c))
  write_srt-Grows dash (ok srt) c = omega (arith, complain-length srt c)

  deliver-Says :
      (media subtitles : Target) (xs : List TtsChunk) (c0 c : Console h t)
      → Grows c0 c
      → Says c0 (deliver h t media subtitles xs c).0 (deliver h t media subtitles xs c).1
  unfolding deliver
  deliver-Says media subtitles xs c0 c g =
      or_exit-Says c0 (route h t media xs [] empty_builder c) _
        (omega (arith, ap length (route-err media xs [] empty_builder c)))
        λ (bytes, b) c1 g1.
          or_exit-Says c0 (write_media h t media bytes c1) _
            (omega (arith, ap length (write_media-err media bytes c1)))
            λ done c2 g2.
              or_exit-Says c0 (write_srt h t subtitles (to_srt b) c2) _
                (omega (arith, write_srt-Grows subtitles (to_srt b) c2))
                λ done c3 g3. inl (refl, g3)

  -- A command that may run out of fuel.
  abbrev SaysIf : Console h t → Option (ℕ × Console h t) → Type 0
  SaysIf c none = Unit
  SaysIf c (some (code, c')) = Says c code c'

  stream_chunks-Says :
      (media subtitles : Target) (s : SpeechSynthesizer h) (c0 c : Console h t)
      → Grows c0 c
      → SaysIf c0 (stream_chunks h t media subtitles s c)
  unfolding stream_chunks act
  stream_chunks-Says media subtitles s c0 c g =
      after (SpeechSynthesizer.synthesize h (record s { world = c.world }))
    where
      after :
          (o : Option (Result (List TtsChunk) × SpeechSynthesizer h))
          → SaysIf c0 (elim o [
            | none ↦ none
            | some (r, s') ↦ some (
                or_exit h t
                  (r, act h t (synthesized s'.log) s'.world c)
                  (deliver h t media subtitles))
          ])
      after none = tt
      after (some (r, s')) =
          or_exit-Says c0 (r, act h t (synthesized s'.log) s'.world c) (deliver h t media subtitles)
            g λ xs c1 g1. deliver-Says media subtitles xs c0 c1 g1

  warn_tty-Grows : (media : Target) (c : Console h t) → Grows c (warn_tty h t media c).1
  unfolding warn_tty
  warn_tty-Grows (file path) c = omega arith
  warn_tty-Grows dash c = omega arith
  warn_tty-Grows nowhere c = elim (Option-cases t.tty_check) [
    | inl q ↦ rw (q, warn_tty) (omega arith)
    | inr (check, q) ↦ elim (Bool-cases (check c.world).0) [
      | inr no_tty ↦ rw (q, warn_tty) (rw (no_tty, warn_tty) (omega arith))
      | inl tty ↦
          let c' =
            complain h t tty_warning (record c { world = (t.read_line (check c.world).1).1 }) in
          let grown =
            complain-length tty_warning (record c { world = (t.read_line (check c.world).1).1 }) in
          elim (Bool-cases (t.read_line (check c.world).1).0) [
            | inl line ↦
                rw (q, warn_tty) (rw (tty, warn_tty) (rw (line, warn_tty) (omega (arith, grown))))
            | inr line ↦
                rw (q, warn_tty)
                  (rw (tty, warn_tty)
                    (rw (line, warn_tty)
                      (omega (arith, grown, complain-length (codes "\nOperation canceled.\n") c'))))
          ]
    ]
  ]

  unless_cancelled-Says :
      (c : Console h t) (p : Bool × Console h t) (next : Console h t → Option (ℕ × Console h t))
      → Grows c p.1
      → ((c1 : Console h t) → Grows c c1 → SaysIf c (next c1))
      → SaysIf c (unless_cancelled h t p next)
  unless_cancelled-Says c (true, c1) next g k = inl (refl, g)
  unless_cancelled-Says c (false, c1) next g k = k c1 g

  synthesize_text-Says :
      (args : EdgeTtsArguments) (text : Bytes) (c : Console h t)
      → SaysIf c (synthesize_text h t args text c)
  unfolding synthesize_text
  synthesize_text-Says args text c =
      unless_cancelled-Says c (warn_tty h t (target_of args.write_media) c) _
        (warn_tty-Grows (target_of args.write_media) c)
        λ c1 g.
          stream_chunks-Says (target_of args.write_media) (target_of args.write_subtitles)
            (construct h text (config_of args.voice args.rate args.volume args.pitch)
              (options_of args.proxy) c.world)
            c c1 g

  with_text-Says :
      (c c1 : Console h t) (r : Option (Result Bytes))
      (next : Bytes → Console h t → Option (ℕ × Console h t))
      → Grows c c1
      → ((text : Bytes) → SaysIf c (next text c1))
      → SaysIf c (with_text h t r c1 next)
  with_text-Says c c1 none next g k = tt
  with_text-Says c c1 (some (fail e)) next g k = exit_with-Says e c c1 g
  with_text-Says c c1 (some (ok text)) next g k = k text

  dispatch_synthesize-Says :
      (args : EdgeTtsArguments) (c : Console h t) → SaysIf c (dispatch_synthesize h t args c)
  unfolding dispatch_synthesize
  dispatch_synthesize-Says args c =
      with_text-Says c _ _ (synthesize_text h t args) (omega arith)
        λ text. synthesize_text-Says args text _

  dispatch_list_voices-Says :
      (c : Console h t) → Says c (dispatch_list_voices h t c).0 (dispatch_list_voices h t c).1
  unfolding dispatch_list_voices print
  dispatch_list_voices-Says c =
      or_exit-Says c ((t.voice_service c.world).0, record c { world = (t.voice_service c.world).1 })
        _ (omega arith) λ vs c1 g. inl (refl, g)

  -- The exit code 2 is for command lines that do not parse, and only for them.
  abbrev pub Exits : ParseAction → Console h t → ℕ → Console h t → Type 0
  Exits parse_failed c code c' = (code ≡ 2) × (length c.err < length c'.err)
  Exits help c code c' = (code ≡ 0) × (c'.err ≡ c.err)
  Exits version c code c' = (code ≡ 0) × (c'.err ≡ c.err)
  Exits list_voices_action c code c' = Says c code c'
  Exits ParseAction.synthesize c code c' = Says c code c'

  Says-of :
      (c c' : Console h t) (code : ℕ) (o : Option (ℕ × Console h t))
      → SaysIf c o
      → o ≡ some (code, c')
      → Says c code c'
  Says-of c c' code none s e = cc
  Says-of c c' code (some (code', c1)) s e = ground arith

  Exits-dispatch_action :
      (a : ParseAction) (r : ParseResult) (c c' : Console h t) (code : ℕ)
      → dispatch_action h t a r c ≡ some (code, c')
      → Exits a c code c'
  unfolding dispatch_action print
  Exits-dispatch_action help r c c' code e = ground arith
  Exits-dispatch_action version r c c' code e = ground arith
  Exits-dispatch_action parse_failed r c c' code e =
      let text = codes "edge-tts: " ++ (r.message ++ codes "\n") in
      let grown = complain-length text c in
      let more : 1 ≤ length text =
        omega (arith, length-append {0} (codes "edge-tts: ") (r.message ++ codes "\n")) in
      let same : c' ≡ complain h t text c = ground arith in
      (ground arith, omega (arith, grown, more, ap (λ (k : Console h t). length k.err) same))
  Exits-dispatch_action list_voices_action r c c' code e =
      Says-of c c' code (some (dispatch_list_voices h t c)) (dispatch_list_voices-Says c) e
  Exits-dispatch_action ParseAction.synthesize r c c' code e =
      Says-of c c' code (dispatch_synthesize h t r.arguments c)
        (dispatch_synthesize-Says r.arguments c) e

-- A command that returns has the exit code 2 and an error message if its command line did not parse;
-- 0 and no error message if it asked for the help or the version; and if it asked for the voices or
-- for a synthesis, either 0, or 1 with something written to the error stream. What the error stream
-- held before is not shortened.
pub dispatch-Exits :
    (h : Host) (t : Terminal h) (r : ParseResult) (c c' : Console h t) (code : ℕ)
    → dispatch h t r c ≡ some (code, c')
    → Exits h t r.action c code c'
unfolding dispatch
dispatch-Exits h t r c c' code e = Exits-dispatch_action h t r.action r c c' code e
