-- ===== src/Cli/Console.antt =====
-- What the two dispatchers share: the terminal and the files of the host, the text of an error, and
-- modules/cli: InputLoader.cpp. The streams `out` and `err` are what has been written to them.
pub mod Redaction
use edge_tts_cpp.Base.{
  ℕ, ◌+◌, Bool, true, false, not, ◌&&◌, ◌||◌, Option, none, some, List, [], ◌∷◌, ◌++◌, Bytes, lit,
  codes, bytes_eq, find, if◌then◌else◌,
}
use edge_tts_cpp.Api.Host.{Host, SynthesisOptions, default_synthesis_options}
use edge_tts_cpp.Api.SpeechSynthesizer.{Event, SpeechSynthesizer, construct}
use edge_tts_cpp.Common.Error.{
  Error, Result, ok, fail, error, error_in, io_error, invalid_argument, to_string, has_context,
  what,
}
use edge_tts_cpp.Communication.Config.{sanitize_proxy_url}
use edge_tts_cpp.Core.TtsConfig.{TtsConfig, defaults}
use edge_tts_cpp.Core.Voice.{Voice}

-- `read_stdin` reads to the end, `read_line` is `std::getline` and returns whether it got a line,
-- `read_file` opens a file and reads it. `tty_check` may be null. `temp_path` is the provider of
-- temporary paths, `play_mp3` and `voice_service` the collaborators that are injected. `is_directory`
-- and `temp_path` may throw a `filesystem_error`, which is their `none`.
pub record Terminal (h : Host) : Type 0 where
  pub read_stdin : h.World → Bytes × h.World
  pub read_line : h.World → Bool × h.World
  pub is_directory : Bytes → h.World → Option Bool × h.World
  pub read_file : Bytes → h.World → Option Bytes × h.World
  pub remove_file : Bytes → h.World → h.World
  pub tty_check : Option (h.World → Bool × h.World)
  pub voice_service : h.World → Result (List Voice) × h.World
  pub temp_path : Bytes → h.World → Option (Option Bytes) × h.World
  pub play_mp3 : Bytes → h.World → Result (Unit {0}) × h.World

-- What a command does besides writing to its streams.
pub data Action : Type 0 where
  synthesized : List Event → Action
  wrote : Bytes → Bytes → Action
  played : Bytes → Action
  removed : Bytes → Action

-- Of an error whose context has a URL, the credentials are left out.
unfoldable pub format_error : Error → Bytes
unfolding has_context find sanitize_proxy_url what
format_error e =
    if has_context e
    then (elim (find (codes "://") e.context) [
      | none ↦ what e
      | some pos ↦
          codes "["
          ++ to_string e.code
          ++ codes "] "
          ++ e.message
          ++ codes " (context: "
          ++ sanitize_proxy_url e.context
          ++ codes ")"
    ])
    else what e

-- What `load` and `load_playback` read of their arguments.
unfoldable pub is_stdin : Bytes → Bool
unfolding bytes_eq
is_stdin path = bytes_eq path (codes "-") || bytes_eq path (codes "/dev/stdin")

-- The configuration from the arguments; the rest has its defaults.
abbrev pub config_of : Bytes → Bytes → Bytes → Bytes → TtsConfig
config_of voice rate volume pitch = record defaults {
  voice = voice;
  rate = rate;
  volume = volume;
  pitch = pitch;
}

abbrev pub options_of : Option Bytes → SynthesisOptions
options_of proxy = record default_synthesis_options { proxy = proxy }

module _ (h : Host) (t : Terminal h) where
  pub record Console : Type 0 where
    pub world : h.World
    pub out : Bytes
    pub err : Bytes
    pub log : List Action

  -- A read-only call on the world.
  abbrev pub in_world : h.World → Console → Console
  in_world w c = record c { world = w }

  unfoldable pub print : Bytes → Console → Console
  print text c = record c { out = c.out ++ text }

  unfoldable pub complain : Bytes → Console → Console
  complain text c = record c { err = c.err ++ text }

  unfoldable pub act : Action → h.World → Console → Console
  act a w c = record c { world = w; log = c.log ++ a ∷ [] }

  -- `err_ << "error: " << format_error(e) << '\n'; return 1;`.
  unfoldable pub exit_with : Error → Console → ℕ × Console
  unfolding complain format_error
  exit_with e c = (1, complain (codes "error: " ++ (format_error e ++ codes "\n")) c)

  -- A file that is not standard input; `none` is the exception of `is_directory`, which nothing here
  -- catches.
  unfoldable pub load_file : Bytes → h.World → Option (Result Bytes) × h.World
  load_file path w =
      let (directory, w1) = t.is_directory path w in
      elim directory [
        | none ↦ (none, w1)
        | some yes' ↦ elim yes' [
          | true ↦ (
            some (fail (error_in io_error (lit "Input path is a directory, not a file") path)),
            w1,
          )
          | false ↦
              let (content, w2) = t.read_file path w1 in
              elim content [
                | none ↦ (some (fail (error_in io_error (lit "Cannot open input file") path)), w2)
                | some text ↦ (some (ok text), w2)
              ]
        ]
      ]

  unfoldable pub load_path : Bytes → h.World → Option (Result Bytes) × h.World
  unfolding is_stdin load_file
  load_path path w = elim (is_stdin path) [
    | true ↦ let (text, w') = t.read_stdin w in (some (ok text), w')
    | false ↦ load_file path w
  ]

  -- `InputLoader::load` and `load_playback`, which differ in the message of the last branch.
  unfoldable pub load :
      Bytes → Option Bytes → Option Bytes → h.World → Option (Result Bytes) × h.World
  unfolding load_path
  load no_input (some text) file w = (some (ok text), w)
  load no_input none (some path) w = load_path path w
  load no_input none none w = (some (fail (error invalid_argument no_input)), w)
