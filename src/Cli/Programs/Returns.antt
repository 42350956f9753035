-- ===== src/Cli/Programs/Returns.antt =====
-- The programs: a run ends when the backend of the synthesis answers.
use edge_tts_cpp.Base.{none, false, ◌⊎◌, false, Option, some, List, Bytes, ◌≡◌}
use edge_tts_cpp.Api.Host.{Host}
use edge_tts_cpp.Api.SpeechSynthesizer
use edge_tts_cpp.Api.SpeechSynthesizer.{SpeechSynthesizer}
use edge_tts_cpp.Cli.Console.{Terminal, Console}
use edge_tts_cpp.Cli.EdgeTts
use edge_tts_cpp.Cli.EdgeTtsDispatcher
use edge_tts_cpp.Cli.EdgeTtsDispatcher.{dispatch_synthesize}
use edge_tts_cpp.Cli.Playback
use edge_tts_cpp.Cli.PlaybackDispatcher
use edge_tts_cpp.Common.Error.{Result}
use edge_tts_cpp.Core.Chunk.{TtsChunk}
use edge_tts_cpp.Core.TtsConfig.{TtsConfig}

-- The backend returns, with chunks or with an error.
abbrev pub IsAnswering : Host → Type 0
IsAnswering h =
    (config : TtsConfig) (texts : List Bytes) (w : h.World)
    → (r : Result (List TtsChunk)) × (w' : h.World) × (h.synthesizer config texts w ≡ some (r, w'))

abbrev Ends : {A : Type 0} → Option A → Type 0
Ends {A} o = (x : A) × (o ≡ some x)

-- It ends, or it has no exit code and for that reason.
abbrev EndsOr : {A : Type 0} → Type 0 → Option A → Type 0
EndsOr E o = Ends o ⊎ ((o ≡ none) × E)

-- A text is to be read from a file, and the test for a directory throws.
abbrev pub CannotTest : (h : Host) → Terminal h → Option Bytes → Option Bytes → h.World → Type 0
CannotTest h t text file w =
    (path : Bytes) × (text ≡ none) × (file ≡ some path) × ((t.is_directory path w).0 ≡ none)

module _ (h : Host) (t : Terminal h) (answers : IsAnswering h) where
  -- The provider of temporary paths throws.
  abbrev ProviderThrows : Type 0
  ProviderThrows = (suffix : Bytes) × (w : h.World) × ((t.temp_path suffix w).0 ≡ none)

  -- Why a playback has no exit code.
  abbrev PlaybackThrows : Option Bytes → Option Bytes → h.World → Type 0
  PlaybackThrows text file w = CannotTest h t text file w ⊎ ProviderThrows
