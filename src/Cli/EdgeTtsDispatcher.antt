-- ===== src/Cli/EdgeTtsDispatcher.antt =====
-- modules/cli: EdgeTtsCommandDispatcher.cpp.
pub mod Exit
pub mod Routing
use edge_tts_cpp.Base.{
  ℕ, Bool, true, false, not, Option, none, some, List, [], ◌∷◌, ◌++◌, Bytes, lit, codes, bytes_eq,
  if◌then◌else◌,
}
use edge_tts_cpp.Api.FileWriter.{write_binary, write_text_utf8}
use edge_tts_cpp.Api.Host.{Host}
use edge_tts_cpp.Api.SpeechSynthesizer
use edge_tts_cpp.Api.SpeechSynthesizer.{SpeechSynthesizer, construct}
use edge_tts_cpp.Cli.Console.{
  Terminal, Console, Action, synthesized, wrote, in_world, print, complain, act, exit_with, load,
  config_of, options_of,
}
use edge_tts_cpp.Cli.EdgeTts.{
  EdgeTtsArguments, ParseAction, ParseResult, help, version, parse_failed, list_voices_action,
}
use edge_tts_cpp.Cli.VoiceFormatter.{format}
use edge_tts_cpp.Common.Error.{Error, Result, ok, fail}
use edge_tts_cpp.Core.Chunk.{TtsChunk, audio_chunk, boundary_chunk}
use edge_tts_cpp.Subtitle.Builder.{SubtitleBuilder, empty_builder, feed, to_srt}

-- Where the audio or the subtitles go.
pub data Target : Type 0 where
  nowhere dash : Target
  file : Bytes → Target

-- `x.has_value()` and `*x != "-"`.
unfoldable pub target_of : Option Bytes → Target
unfolding bytes_eq
target_of none = nowhere
target_of (some path) = if bytes_eq path (codes "-") then dash else file path

abbrev pub tty_warning : Bytes
tty_warning =
    codes
      "Warning: TTS output will be written to the terminal. Use --write-media to write to a file.\nPress Ctrl+C to cancel the operation. Press Enter to continue.\n"

module _ (h : Host) (t : Terminal h) where
  -- The audio of a chunk: to the bytes for the file, or to the output.
  unfoldable pub route_audio : Target → Bytes → Bytes → Console h t → Bytes × Console h t
  unfolding print
  route_audio (file path) d bytes c = (bytes ++ d, c)
  route_audio nowhere d bytes c = (bytes, print h t d c)
  route_audio dash d bytes c = (bytes, print h t d c)

  -- Step 7. The state that is returned with an error has the output so far.
  unfoldable pub route :
      Target
      → List TtsChunk
      → Bytes
      → SubtitleBuilder
      → Console h t
      → Result (Bytes × SubtitleBuilder) × Console h t
  unfolding route_audio feed
  route media [] bytes b c = (ok (bytes, b), c)
  route media (audio_chunk d ∷ chunks) bytes b c =
      let (bytes', c') = route_audio media d bytes c in route media chunks bytes' b c'
  route media (boundary_chunk x ∷ chunks) bytes b c =
      let (r, b') = feed x b in
      elim r [ fail e ↦ (fail e, c) | ok _ ↦ route media chunks bytes b' c ]

  -- A call of the file writer.
  unfoldable pub write_file :
      (Bytes → Bytes → h.World → Result (Unit {0}) × h.World)
      → Bytes
      → Bytes
      → Console h t
      → Result (Unit {0}) × Console h t
  unfolding act
  write_file writer path content c =
      let (r, w) = writer path content c.world in
      elim r [
        | fail e ↦ (fail e, in_world h t w c)
        | ok _ ↦ (ok tt, act h t (wrote path content) w c)
      ]

  -- Step 8.
  unfoldable pub write_media : Target → Bytes → Console h t → Result (Unit {0}) × Console h t
  unfolding write_file write_binary
  write_media (file path) bytes c = write_file (write_binary h) path bytes c
  write_media nowhere bytes c = (ok tt, c)
  write_media dash bytes c = (ok tt, c)

  unfoldable pub write_srt : Target → Result Bytes → Console h t → Result (Unit {0}) × Console h t
  unfolding write_file write_text_utf8 complain
  write_srt nowhere srt c = (ok tt, c)
  write_srt (file path) (fail e) c = (fail e, c)
  write_srt dash (fail e) c = (fail e, c)
  write_srt (file path) (ok srt) c = write_file (write_text_utf8 h) path srt c
  write_srt dash (ok srt) c = (ok tt, complain h t srt c)

  -- `if (!r) return error; next`.
  abbrev pub or_exit :
      {A : Type 0} → Result A × Console h t → (A → Console h t → ℕ × Console h t) → ℕ × Console h t
  or_exit (fail e, c) next = exit_with h t e c
  or_exit (ok a, c) next = next a c

  -- Steps 7 to 9.
  unfoldable pub deliver : Target → Target → List TtsChunk → Console h t → ℕ × Console h t
  unfolding exit_with route write_media write_srt to_srt
  deliver media subtitles chunks c =
      or_exit (route media chunks [] empty_builder c) λ (bytes, b) c1.
        or_exit (write_media media bytes c1)
          λ done c2. or_exit (write_srt subtitles (to_srt b) c2) λ done c3. (0, c3)

  -- Step 6, on the synthesizer that the factory has made.
  unfoldable pub stream_chunks :
      Target → Target → SpeechSynthesizer h → Console h t → Option (ℕ × Console h t)
  unfolding act deliver SpeechSynthesizer.synthesize
  stream_chunks media subtitles synthesizer c =
      elim (SpeechSynthesizer.synthesize h (record synthesizer { world = c.world })) [
        | none ↦ none
        | some (r, s) ↦
            some (or_exit (r, act h t (synthesized s.log) s.world c) (deliver media subtitles))
      ]

  -- Step 5a: whether the user has cancelled.
  unfoldable pub warn_tty : Target → Console h t → Bool × Console h t
  unfolding complain
  warn_tty (file path) c = (false, c)
  warn_tty dash c = (false, c)
  warn_tty nowhere c = elim t.tty_check [
    | none ↦ (false, c)
    | some check ↦
        let (tty, w) = check c.world in
        elim tty [
          | false ↦ (false, in_world h t w c)
          | true ↦
              let (line, w') = t.read_line w in
              let c' = complain h t tty_warning (in_world h t w' c) in
              elim line [
                | true ↦ (false, c')
                | false ↦ (true, complain h t (codes "\nOperation canceled.\n") c')
              ]
        ]
  ]

  -- `if (cancelled) return 0; next`.
  abbrev pub unless_cancelled :
      Bool × Console h t → (Console h t → Option (ℕ × Console h t)) → Option (ℕ × Console h t)
  unless_cancelled (true, c) next = some (0, c)
  unless_cancelled (false, c) next = next c

  -- Steps 2 to 9, for the text that was loaded.
  unfoldable pub synthesize_text : EdgeTtsArguments → Bytes → Console h t → Option (ℕ × Console h t)
  unfolding warn_tty stream_chunks target_of
  synthesize_text args text c =
      let synthesizer =
        construct h text (config_of args.voice args.rate args.volume args.pitch)
          (options_of args.proxy) c.world in
      unless_cancelled (warn_tty (target_of args.write_media) c)
        (stream_chunks (target_of args.write_media) (target_of args.write_subtitles) synthesizer)

  -- An exception leaves the function, and the program, without an exit code.
  abbrev pub with_text :
      Option (Result Bytes)
      → Console h t
      → (Bytes → Console h t → Option (ℕ × Console h t))
      → Option (ℕ × Console h t)
  with_text none c next = none
  with_text (some (fail e)) c next = some (exit_with h t e c)
  with_text (some (ok text)) c next = next text c

  unfoldable pub dispatch_synthesize : EdgeTtsArguments → Console h t → Option (ℕ × Console h t)
  unfolding load exit_with synthesize_text
  dispatch_synthesize args c =
      let (text, w) =
        load h t (lit "No input: provide --text, --file, or --list-voices") args.text args.file
          c.world in
      with_text text (in_world h t w c) (synthesize_text args)

  unfoldable pub dispatch_list_voices : Console h t → ℕ × Console h t
  unfolding exit_with print format
  dispatch_list_voices c =
      let (voices, w) = t.voice_service c.world in
      or_exit (voices, in_world h t w c) λ vs c'. (0, print h t (format vs) c')

  unfoldable pub dispatch_action :
      ParseAction → ParseResult → Console h t → Option (ℕ × Console h t)
  unfolding print complain dispatch_list_voices dispatch_synthesize
  dispatch_action help r c = some (0, print h t r.message c)
  dispatch_action version r c = some (0, print h t (r.message ++ codes "\n") c)
  dispatch_action parse_failed r c =
      some (2, complain h t (codes "edge-tts: " ++ (r.message ++ codes "\n")) c)
  dispatch_action list_voices_action r c = some (dispatch_list_voices c)
  dispatch_action ParseAction.synthesize r c = dispatch_synthesize r.arguments c

  unfoldable pub dispatch : ParseResult → Console h t → Option (ℕ × Console h t)
  unfolding dispatch_action
  dispatch r c = dispatch_action r.action r c
