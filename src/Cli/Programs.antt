-- ===== src/Cli/Programs.antt =====
-- The main functions of apps/edge-tts and apps/edge-playback, over the collaborators that they wire to
-- the dispatchers. The arguments are those behind the program's name.
pub mod Returns
use edge_tts_cpp.Base.{
  ℕ, ◌<◌, Bool, Option, none, some, List, [], ◌++◌, Bytes, codes, is_empty, bytes_eq, if◌then◌else◌,
  length, ◌≡◌, inl, inr, true, ap, arith, Option-cases,
}
use edge_tts_cpp.Api.Host.{Host}
use edge_tts_cpp.Cli.Console.{Terminal, Console, complain}
use edge_tts_cpp.Cli.EdgeTts
use edge_tts_cpp.Cli.EdgeTts.{
  ParseAction, ParseResult, help, version, parse_failed, list_voices_action,
}
use edge_tts_cpp.Cli.EdgeTts.Outcome.{is_outcome, is_outcome-proxy, is_outcome-do_parse}
use edge_tts_cpp.Cli.EdgeTtsDispatcher
use edge_tts_cpp.Cli.EdgeTtsDispatcher.Exit.{Exits, complain-length, dispatch-Exits}
use edge_tts_cpp.Cli.Playback
use edge_tts_cpp.Cli.PlaybackDispatcher
use edge_tts_cpp.Cli.PlaybackDispatcher.Exit.{PlaybackExits, PlaybackExits-dispatch_action}
use edge_tts_cpp.Common.Error.{Result}
use edge_tts_cpp.Core.TtsConfig.{is_some}
use edge_tts_cpp.Media.ExecutableDiscovery.{FileSystem}
use edge_tts_cpp.Media.FfmpegAudioConverter.{play_mp3}
use edge_tts_cpp.Media.ProcessRunner.{ProcessCommand, ProcessResult}

module _ (h : Host) (t : Terminal h) where
  -- The command line that was parsed; `SystemClock`, `HttpClient` and the rest are in the terminal.
  unfoldable pub run_parsed : ParseResult → Console h t → Option (ℕ × Console h t)
  unfolding complain EdgeTtsDispatcher.dispatch
  run_parsed r c = elim r.arguments.proxy [
    | some proxy ↦ some (1, complain h t (codes "Error: proxy is not supported\n") c)
    | none ↦ EdgeTtsDispatcher.dispatch h t r c
  ]

  unfoldable pub edge_tts_main : List Bytes → Console h t → Option (ℕ × Console h t)
  unfolding run_parsed EdgeTts.do_parse
  edge_tts_main tokens c = run_parsed (EdgeTts.do_parse tokens) c

  -- What a proxy on the command line comes to.
  abbrev pub IsRefused : Option Bytes → Console h t → ℕ → Console h t → Type 0
  IsRefused none c code c' = Unit
  IsRefused (some proxy) c code c' = (code ≡ 1) × (c'.world ≡ c.world) × (c'.out ≡ c.out)

  run_parsed-Exits :
      (r : ParseResult) (c c' : Console h t) (code : ℕ)
      → is_outcome r ≡ true
      → run_parsed r c ≡ some (code, c')
      → Exits h t r.action c code c' × IsRefused r.arguments.proxy c code c'
  unfolding run_parsed complain
  run_parsed-Exits r c c' code o e = elim (Option-cases r.arguments.proxy) [
    | inl q ↦
        let e' : EdgeTtsDispatcher.dispatch h t r c ≡ some (code, c') = rw (q, run_parsed) at e in
        (dispatch-Exits h t r c c' code e', rw q tt)
    | inr (proxy, q) ↦
        let text = codes "Error: proxy is not supported\n" in
        let same : some (1, complain h t text c) ≡ some (code, c') = rw (q, run_parsed) at e in
        let one : code ≡ 1 = ground arith in
        let err : complain h t text c ≡ c' = ground arith in
        let more : length c.err < length c'.err =
          omega (arith, complain-length h t text c, ap (λ (k : Console h t). length k.err) err) in
        (
          elim (is_outcome-proxy r proxy o q) [
            | inl a ↦ rw a (inr (one, more))
            | inr a ↦ rw a (inr (one, more))
          ],
          rw q (one, ground arith, ground arith),
        )
  ]

-- However the command line reads, a run of edge-tts that returns has the exit code 2 and an error
-- message if it did not parse; 0 and no error message if it asked for the help or the version; and if
-- it asked for the voices or for a synthesis, either 0, or 1 with something written to the error
-- stream. If it names a proxy the code is 1, nothing is printed to the output, and neither the network
-- nor a file is touched. What the error stream held before is not shortened.
pub edge_tts_main-Exits :
    (h : Host) (t : Terminal h) (tokens : List Bytes) (c c' : Console h t) (code : ℕ)
    → edge_tts_main h t tokens c ≡ some (code, c')
    → Exits h t (EdgeTts.do_parse tokens).action c code c'
      × IsRefused h t (EdgeTts.do_parse tokens).arguments.proxy c code c'
unfolding edge_tts_main
edge_tts_main-Exits h t tokens c c' code e =
    run_parsed-Exits h t (EdgeTts.do_parse tokens) c c' code (is_outcome-do_parse tokens) e

-- What the main function of edge-playback finds around it: the environment variables, the directory for
-- temporary files, the file system, a process runner, the ticks of the clock as text, and `std::cout`.
-- `temp_directory` is `none` where `temp_directory_path` throws.
pub record Surroundings (h : Host) : Type 0 where
  pub getenv : Bytes → Option Bytes
  pub temp_directory : Option Bytes
  pub files : FileSystem
  pub run_process : ProcessCommand → h.World → Result ProcessResult × h.World
  pub ticks : h.World → Bytes × h.World
  pub show : Bytes → h.World → h.World

-- `env && *env`.
unfoldable pub if_set : Option Bytes → Option Bytes
unfolding is_empty
if_set none = none
if_set (some value) = if is_empty value then none else some value

module _ (h : Host) (around : Surroundings h) where
  unfoldable pub show_if : Bool → Bytes → h.World → h.World
  show_if debug text w = if debug then around.show text w else w

  -- The path for the audio: the variable, or a new name.
  unfoldable pub temp_media : Bool → h.World → Option (Option Bytes) × h.World
  unfolding if_set show_if
  temp_media debug w = elim (if_set (around.getenv (codes "EDGE_PLAYBACK_MP3_FILE"))) [
    | some path ↦ (some (some path), w)
    | none ↦
        let (tick, w') = around.ticks w in
        elim around.temp_directory [
          | none ↦ (none, w')
          | some directory ↦
              let path =
                around.files.path_join directory (codes "edge_playback_" ++ tick ++ codes ".mp3") in
              (some (some path), show_if debug (codes "Media file: " ++ path ++ codes "\n") w')
        ]
  ]

  -- The path for the subtitles: there is none without the variable.
  unfoldable pub temp_subtitles : Bool → h.World → Option (Option Bytes) × h.World
  unfolding if_set show_if
  temp_subtitles debug w = elim (if_set (around.getenv (codes "EDGE_PLAYBACK_SRT_FILE"))) [
    | some path ↦
        (some (some path), show_if debug (codes "Subtitle file: " ++ path ++ codes "\n") w)
    | none ↦ (some none, w)
  ]

  unfoldable pub temp_provider : Bool → Bytes → h.World → Option (Option Bytes) × h.World
  unfolding temp_media temp_subtitles bytes_eq
  temp_provider debug suffix w =
      if bytes_eq suffix (codes ".mp3")
      then temp_media debug w
      else if bytes_eq suffix (codes ".srt")
      then temp_subtitles debug w
      else (some none, w)

  abbrev pub path_variable : Bytes
  path_variable = elim (around.getenv (codes "PATH")) [ none ↦ [] | some path ↦ path ]

  -- The collaborators that are wired in.
  abbrev pub playback_terminal : Terminal h → Terminal h
  playback_terminal t = record t {
    temp_path = temp_provider (is_some (around.getenv (codes "EDGE_PLAYBACK_DEBUG")));
    play_mp3 = play_mp3 around.files around.run_process path_variable;
  }

  unfoldable pub edge_playback_main :
      (t : Terminal h)
      → List Bytes
      → Console h (playback_terminal t)
      → Option (ℕ × Console h (playback_terminal t))
  unfolding PlaybackDispatcher.dispatch Playback.do_parse
  edge_playback_main t tokens c =
      PlaybackDispatcher.dispatch h (playback_terminal t)
        (is_some (around.getenv (codes "EDGE_PLAYBACK_KEEP_TEMP"))) (Playback.do_parse tokens) c

-- However the command line reads and whatever the environment holds, a run of edge-playback that
-- returns has the exit code 2 and an error message if the command line did not parse, 0 and no error
-- message if it asked for the help, and otherwise either 0, or 1 with something written to the error
-- stream. What the error stream held before is not shortened.
pub edge_playback_main-Exits :
    (h : Host) (around : Surroundings h) (t : Terminal h) (tokens : List Bytes)
    (c c' : Console h (playback_terminal h around t)) (code : ℕ)
    → edge_playback_main h around t tokens c ≡ some (code, c')
    → PlaybackExits h (playback_terminal h around t) (Playback.do_parse tokens).action c code c'
unfolding edge_playback_main PlaybackDispatcher.dispatch
edge_playback_main-Exits h around t tokens c c' code e =
    PlaybackExits-dispatch_action h (playback_terminal h around t) (Playback.do_parse tokens).action
      (is_some (around.getenv (codes "EDGE_PLAYBACK_KEEP_TEMP"))) (Playback.do_parse tokens) c c'
      code e
