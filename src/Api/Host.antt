-- ===== src/Api/Host.antt =====
-- What the facade calls and does not define: the file streams, the flag that another thread or a
-- callback sets, the synthesis backend and the callbacks of the user. Also SynthesisOptions.hpp and
-- StreamCallbacks.hpp.
use edge_tts_cpp.Base.{ℕ, Bool, Option, none, List, Bytes}
use edge_tts_cpp.Common.Error.{Error}
use edge_tts_cpp.Communication.Effect.{Step}
use edge_tts_cpp.Core.Chunk.{BoundaryChunk, TtsChunk}
use edge_tts_cpp.Core.TtsConfig.{TtsConfig}

-- Each call changes the world. `open_file` and `write_file` return whether the stream is good:
-- `std::ofstream file(path, binary | trunc)` and `file.write`. `synthesizer` is a `SynthesizerFn`.
pub record Host : Type 1 where
  pub World : Type 0
  pub is_cancelled : World → Bool × World
  pub synthesizer : TtsConfig → List Bytes → Step World (List TtsChunk)
  pub open_file : Bytes → World → Bool × World
  pub write_file : Bytes → Bytes → World → Bool × World

-- The timeouts are in milliseconds.
pub record SynthesisOptions : Type 0 where
  pub proxy : Option Bytes
  pub ws_connect_timeout : ℕ
  pub ws_read_timeout : ℕ
  pub http_timeout : ℕ

abbrev pub default_synthesis_options : SynthesisOptions
default_synthesis_options = record {
  proxy = none;
  ws_connect_timeout = 10000;
  ws_read_timeout = 60000;
  http_timeout = 30000;
}

-- `none` is a null `std::function`.
pub record StreamCallbacks (World : Type 0) : Type 0 where
  pub on_audio : Option (Bytes → World → World)
  pub on_boundary : Option (BoundaryChunk → World → World)
  pub on_complete : Option (World → World)
  pub on_error : Option (Error → World → World)
