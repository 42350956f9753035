-- ===== src/Examples/Network.antt =====
-- The composed programs at concrete inputs: a network that delivers one audio frame and the end of the
-- turn, a refused command line, and a few frames, dates, names and identifiers.
use edge_tts_cpp.Base.{
  ℕ, ◌+◌, ◌-◌, ◌≤◌, ltb, zero, suc, padded, lit, ◌+ℤ◌, ◌-ℤ◌, true, false, ◌==◌, none, some, List,
  [], ◌∷◌, ◌++◌, Bytes, codes, length, replicate, pos, All, get_elem?, if◌then◌else◌, ◌≡◌, refl,
  arith, inr,
}
use edge_tts_cpp.Api.Host.{default_synthesis_options}
use edge_tts_cpp.Api.Production.{
  Network, stack_environment, make_synthesizer, production_synthesizer, stack_connect,
  stack_send_text, stack_receive,
}
use edge_tts_cpp.Api.Production.Refusal.{clock_after, with_connection-refused}
use edge_tts_cpp.Api.Production.Returns.{Delivers, production_synthesizer-returns}
use edge_tts_cpp.Cli.Console.{Console}
use edge_tts_cpp.Cli.Playback
use edge_tts_cpp.Cli.Programs.{Surroundings, playback_terminal, edge_playback_main, temp_provider}
use edge_tts_cpp.Common.Error.{Result, ok, fail, error, external_process_failed}
use edge_tts_cpp.Common.Hex.{hex_encode_lower}
use edge_tts_cpp.Common.Hex.Digits.{IsByte, IsDigit}
use edge_tts_cpp.Common.IdGenerator.{uuid_v4_without_hyphens, set_version}
use edge_tts_cpp.Common.IdGenerator.Version.{IsVariant, uuid_v4_without_hyphens_lem}
use edge_tts_cpp.Common.Sha256.{sha256_raw}
use edge_tts_cpp.Common.Sha256.Reference.{standard_sha256}
use edge_tts_cpp.Common.Sha256.Standard.{sha256_raw-standard}
use edge_tts_cpp.Communication.HttpDate.{parse_http_date}
use edge_tts_cpp.Communication.HttpDate.Calendar.{date_after}
use edge_tts_cpp.Communication.HttpDate.Scanning.{month_name}
use edge_tts_cpp.Communication.HttpDate.RoundTrip.{to_http_date, parse_http_date-to_http_date}
use edge_tts_cpp.Communication.Outgoing.{
  create_for_request, speech_config_body, speech_config_frame, build_ssml_frame,
  build_speech_config_frame,
}
use edge_tts_cpp.Communication.Outgoing.Frames.{Reads, frames-Reads}
use edge_tts_cpp.Communication.Session.{
  SessionState, handle_messages, M, Received, with_connection, refused,
}
use edge_tts_cpp.Communication.Session.Sockets.{follow}
use edge_tts_cpp.Communication.WebSocketClient
use edge_tts_cpp.Communication.WebSocketClient.{IxMessage, message}
use edge_tts_cpp.Communication.WebSocketClient.Queue.{arrive_all}
use edge_tts_cpp.Communication.Incoming.{parse_incoming}
use edge_tts_cpp.Media.FfmpegAudioConverter.{play_mp3}
use edge_tts_cpp.Serialization.TextChunker.{chunk}
use edge_tts_cpp.Serialization.TextNormalizer.{normalize}
use edge_tts_cpp.Serialization.XmlEscaper.{xml_escape}
use edge_tts_cpp.Serialization.Protocol.{parse, header}
use edge_tts_cpp.Serialization.SsmlBuilder.{build_from_escaped_text}
use edge_tts_cpp.Core.Chunk.{TtsChunk, audio_chunk}
use edge_tts_cpp.Core.TtsConfig.{
  TtsConfig, defaults, validate, normalize_voice_name, validate_tts_config, matches_full_voice,
}
use edge_tts_cpp.Core.TtsConfig.Normalization.{validate-validate}
use edge_tts_cpp.Examples.{integers, no_json, noon}
use edge_tts_cpp.Examples.Commands.{terminal, programs}
use edge_tts_cpp.Examples.Facade.{counting}

-- The world is the number of messages that are still to come on a socket: the audio, and the end of the
-- turn with a frame behind it.
unfoldable delivered : ℕ → List IxMessage × ℕ
delivered n =
    if ltb n 2
    then ([], n)
    else if n == 3
    then (
      message true
            (0 ∷ 39 ∷ (codes "Content-Type:audio/mpeg\r\nPath:audio\r\n\r\n" ++ (1 ∷ 2 ∷ [])))
          ∷ [],
      2,
    )
    else (message false (codes "Path:turn.end\r\n\r\n") ∷ message true [] ∷ [], n - 2)

abbrev sixteen : Bytes
sixteen = replicate 16 7

abbrev small_network : Network integers
small_network = record {
  World = ℕ;
  handshake = λ headers url secs n.
      (record { success = true; http_status = 101; error_str = []; date = none }, 3);
  transmit = λ frame n. (true, n);
  arrivals = λ timeout n. delivered n;
  stop = λ n. n;
  random_bytes = λ n. (sixteen, n);
  now_seconds = λ n. (pos 1700000000, n);
  now_calendar = λ n. (noon, n);
  interrupted = λ n. false;
}

abbrev new_synthesizer : SessionState integers (stack_environment integers small_network)
new_synthesizer = make_synthesizer integers small_network default_synthesis_options 0

-- What waits behind the end of the turn is not taken.
production_run :
    (s' : SessionState integers (stack_environment integers small_network))
    × (production_synthesizer integers small_network no_json 4 defaults
          (codes "hello" ∷ [])
          new_synthesizer
        ≡ some (ok (audio_chunk (1 ∷ 2 ∷ []) ∷ []), s'))
unfolding production_synthesizer delivered stack_connect WebSocketClient.connect make_synthesizer
    build_speech_config_frame stack_send_text WebSocketClient.send_text build_from_escaped_text
    stack_receive WebSocketClient.receive parse_incoming parse header handle_messages arrive_all
production_run = (_, refl)

small_network-arrivals :
    (timeout n : ℕ)
    → length (small_network.arrivals timeout n).0 + (small_network.arrivals timeout n).1 ≤ n
unfolding delivered
small_network-arrivals timeout n = ground arith

abbrev small_delivers : Delivers integers small_network
small_delivers = record {
  remaining = λ n. n;
  limit = 3;
  handshake_limits = λ headers url secs n. omega arith;
  transmit_keeps = λ frame n. omega arith;
  calendar_keeps = λ n. omega arith;
  arrivals_use = small_network-arrivals;
}

production_synthesizer-returns_example :
    (r : Result (List TtsChunk)) × (s' : SessionState integers
      (stack_environment integers small_network))
    × (production_synthesizer integers small_network no_json 4 defaults
          (codes "hello" ∷ [])
          (make_synthesizer integers small_network default_synthesis_options 0)
        ≡ some (r, s'))
    × (s'.world.client.running ≡ false)
    × (follow false s'.log ≡ some false)
production_synthesizer-returns_example =
    production_synthesizer-returns integers small_network small_delivers no_json 4
      default_synthesis_options 0 defaults (codes "hello" ∷ []) (omega arith)

parse_http_date-to_http_date_example :
    parse_http_date (to_http_date (codes "Sun") 784111777) ≡ some (pos 784111777)
parse_http_date-to_http_date_example =
    parse_http_date-to_http_date b'S' (codes "un") 784111777
      (omega arith, (omega arith, (omega arith, tt))) (omega arith)

written : to_http_date (codes "Sun") 784111777 ≡ codes "Sun, 06 Nov 1994 08:49:37 GMT"
unfolding to_http_date padded date_after month_name
written = refl

abbrev around : Surroundings counting
around = record {
  getenv = λ name. none;
  temp_directory = some (codes "/tmp");
  files = programs;
  run_process = λ command w. (fail (error external_process_failed (codes "no program")), suc w);
  ticks = λ w. (codes "17", suc w);
  show = λ text w. suc w;
}

abbrev playback_console : Console counting (playback_terminal counting around terminal)
playback_console = record { world = 0; out = []; err = []; log = [] }

abbrev playback_line : List Bytes
playback_line = codes "--text" ∷ codes "hello" ∷ []

playback_run :
    (c : Console counting (playback_terminal counting around terminal)) × (edge_playback_main
        counting around terminal playback_line playback_console
      ≡ some (1, c))
unfolding edge_playback_main temp_provider lit chunk normalize xml_escape ◌+ℤ◌ play_mp3
playback_run = (_, refl)

abbrev short_voice : TtsConfig
short_voice = record defaults { voice = codes "en-GB-SoniaNeural" }

abbrev full_voice : TtsConfig
full_voice = record defaults {
  voice = codes "Microsoft Server Speech Text to Speech Voice (en-GB, SoniaNeural)";
}

short_voice_run : validate short_voice ≡ inr full_voice
unfolding validate normalize_voice_name validate_tts_config
short_voice_run = refl

validate-validate_example :
    (matches_full_voice full_voice.voice ≡ true)
    × (validate_tts_config full_voice ≡ ok tt)
    × (full_voice ≡ record short_voice { voice = full_voice.voice })
    × (validate full_voice ≡ inr full_voice)
validate-validate_example = validate-validate short_voice full_voice short_voice_run

sha256_raw-standard_example : sha256_raw (codes "abc") ≡ standard_sha256 (codes "abc")
sha256_raw-standard_example = sha256_raw-standard (codes "abc")

replicate-IsByte : (n c : ℕ) → IsByte c → All IsByte (replicate n c)
replicate-IsByte zero c h = tt
replicate-IsByte (suc n) c h = (h, replicate-IsByte n c h)

sixteen-IsByte : All IsByte sixteen
sixteen-IsByte = replicate-IsByte 16 7 (omega arith)

uuid_v4_without_hyphens_lem_example :
    (uuid_v4_without_hyphens sixteen ≡ hex_encode_lower (set_version sixteen))
    × (length (uuid_v4_without_hyphens sixteen) ≡ 32)
    × All (IsDigit b'a') (uuid_v4_without_hyphens sixteen)
    × (get_elem? (uuid_v4_without_hyphens sixteen) 12 ≡ some b'4')
    × IsVariant (get_elem? (uuid_v4_without_hyphens sixteen) 16)
uuid_v4_without_hyphens_lem_example = uuid_v4_without_hyphens_lem sixteen refl sixteen-IsByte

frames-Reads_example :
    Reads
      (speech_config_frame noon defaults)
      (codes "speech.config")
      (speech_config_body defaults)
      (codes "Content-Type")
      (codes "application/json; charset=utf-8")
    × Reads
        (build_ssml_frame noon (codes "<speak/>") (create_for_request sixteen sixteen))
        (codes "ssml")
        (codes "<speak/>")
        (codes "X-RequestId")
        (uuid_v4_without_hyphens sixteen)
frames-Reads_example =
    frames-Reads noon noon defaults (codes "<speak/>") sixteen sixteen refl sixteen-IsByte

-- A server that has never heard of the token, and whose date is a thousand seconds ahead.
abbrev ahead : Network integers
ahead = record small_network {
  handshake = λ headers url secs n. (
    record {
      success = false;
      http_status = 403;
      error_str = [];
      date = some (to_http_date (codes "Tue") 1700001000);
    },
    n,
  );
}

abbrev before : SessionState integers (stack_environment integers ahead)
before = make_synthesizer integers ahead default_synthesis_options 0

abbrev gives_up : M integers (stack_environment integers ahead) Received
gives_up s = none

abbrev asks_again : M integers (stack_environment integers ahead) Received
asks_again s = some (fail (error external_process_failed (codes "again")), s)

with_connection-refused_example :
    (s' : SessionState integers (stack_environment integers ahead)) × (with_connection integers
        (stack_environment integers ahead)
        no_json
        1
        0
        (codes "wss://x")
        gives_up
        asks_again
        before
      ≡ asks_again s')
    × (s'.log ≡ before.log ++ refused (codes "wss://x") ∷ [])
    × (s'.skew
        ≡ before.skew
          +ℤ (pos 1700001000
              -ℤ (clock_after integers ahead (codes "wss://x") before +ℤ before.skew)))
unfolding make_synthesizer
with_connection-refused_example =
    with_connection-refused integers ahead no_json (codes "wss://x") gives_up asks_again before b'T'
      (codes "ue") 1700001000 (omega arith, (omega arith, (omega arith, tt))) (omega arith) refl
      refl refl refl
