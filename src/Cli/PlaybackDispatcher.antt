-- ===== src/Cli/PlaybackDispatcher.antt =====
-- modules/cli: PlaybackCommandDispatcher.cpp. The guard's destructor is the last step of every return
-- behind its construction.
pub mod Cleanup
pub mod Exit
use edge_tts_cpp.Base.{
  ℕ, Bool, true, false, Option, none, some, List, [], ◌∷◌, ◌++◌, Bytes, lit, codes, if◌then◌else◌,
}
use edge_tts_cpp.Api.Host.{Host}
use edge_tts_cpp.Api.SpeechSynthesizer
use edge_tts_cpp.Api.SpeechSynthesizer.{SpeechSynthesizer, construct}
use edge_tts_cpp.Cli.Console.{
  Terminal, Console, Action, synthesized, played, removed, in_world, print, complain, act,
  exit_with, load, config_of, options_of,
}
use edge_tts_cpp.Cli.Playback.{
  PlaybackArguments, PlaybackParseAction, PlaybackParseResult, play, help, parse_failed,
}
use edge_tts_cpp.Common.Error.{Error, Result, ok, fail}

module _ (h : Host) (t : Terminal h) where
  unfoldable pub remove : Bytes → Console h t → Console h t
  unfolding act
  remove path c = act h t (removed path) (t.remove_file path c.world) c

  -- `~TempGuard`.
  unfoldable pub clean_up : Bool → Bytes → Option Bytes → Console h t → Console h t
  unfolding remove
  clean_up true mp3 srt c = c
  clean_up false mp3 none c = remove mp3 c
  clean_up false mp3 (some path) c = remove path (remove mp3 c)

  -- Step 7.
  unfoldable pub play_file : Bytes → Console h t → ℕ × Console h t
  unfolding act exit_with
  play_file mp3 c =
      let (r, w) = t.play_mp3 mp3 c.world in
      let c' = act h t (played mp3) w c in elim r [ fail e ↦ exit_with h t e c' | ok _ ↦ (0, c') ]

  -- Steps 6 and 7.
  unfoldable pub save_and_play :
      Bytes → Option Bytes → SpeechSynthesizer h → Console h t → Option (ℕ × Console h t)
  unfolding act exit_with play_file SpeechSynthesizer.save
  save_and_play mp3 srt synthesizer c =
      elim (SpeechSynthesizer.save h mp3 srt (record synthesizer { world = c.world })) [
        | none ↦ none
        | some (r, s) ↦
            let c' = act h t (synthesized s.log) s.world c in
            elim r [ fail e ↦ some (exit_with h t e c') | ok _ ↦ some (play_file mp3 c') ]
      ]

  -- What the guard surrounds, with its destructor.
  unfoldable pub guarded :
      Bool → Bytes → Option Bytes → SpeechSynthesizer h → Console h t → Option (ℕ × Console h t)
  unfolding clean_up save_and_play
  guarded keep_temp mp3 srt synthesizer c = elim (save_and_play mp3 srt synthesizer c) [
    | none ↦ none
    | some (code, c') ↦ some (code, clean_up keep_temp mp3 srt c')
  ]

  -- An exception of the provider comes before the guard.
  unfoldable pub with_temp_files :
      Bool → Bytes → PlaybackArguments → Console h t → Option (ℕ × Console h t)
  unfolding complain guarded
  with_temp_files keep_temp text args c =
      let (mp3, w) = t.temp_path (codes ".mp3") c.world in
      elim mp3 [
        | none ↦ none
        | some provided ↦ elim provided [
          | none ↦ some (
            1,
            complain h t (codes "error: temp file provider returned no path for .mp3\n")
                (in_world h t w c),
          )
          | some path ↦
              let (srt, w') = t.temp_path (codes ".srt") w in
              elim srt [
                | none ↦ none
                | some subtitles ↦
                    guarded keep_temp path subtitles
                      (construct h text (config_of args.voice args.rate args.volume args.pitch)
                        (options_of args.proxy) w')
                      (in_world h t w' c)
              ]
        ]
      ]

  unfoldable pub dispatch_play : Bool → PlaybackArguments → Console h t → Option (ℕ × Console h t)
  unfolding complain load exit_with with_temp_files
  dispatch_play keep_temp args c = elim args.use_mpv [
    | true ↦ some (
      1,
      complain h t
          (codes
            "error: --mpv is not supported in this build; only ffplay is available. Remove --mpv to use ffplay.\n")
          c,
    )
    | false ↦
        let (text, w) =
          load h t (lit "No input: provide --text or --file") args.text args.file c.world in
        let c1 = in_world h t w c in
        elim text [
          | none ↦ none
          | some loaded ↦ elim loaded [
            | fail e ↦ some (exit_with h t e c1)
            | ok input ↦ with_temp_files keep_temp input args c1
          ]
        ]
  ]

  unfoldable pub dispatch_action :
      PlaybackParseAction → Bool → PlaybackParseResult → Console h t → Option (ℕ × Console h t)
  unfolding print complain dispatch_play
  dispatch_action help keep_temp r c = some (0, print h t r.message c)
  dispatch_action parse_failed keep_temp r c =
      some (2, complain h t (codes "edge-playback: " ++ (r.message ++ codes "\n")) c)
  dispatch_action play keep_temp r c = dispatch_play keep_temp r.arguments c

  unfoldable pub dispatch : Bool → PlaybackParseResult → Console h t → Option (ℕ × Console h t)
  unfolding dispatch_action
  dispatch keep_temp r c = dispatch_action r.action keep_temp r c
