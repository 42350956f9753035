-- ===== src/Examples/Commands.antt =====
-- The voices, the commands and the clients at concrete inputs: a server that refuses the first request
-- and then sends a list of one voice, a terminal on the host that counts, and a socket.
use mathlib.Core.List.{Perm, Mem, Sublist}
use edge_tts_cpp.Base.{
  ℕ, suc, true, false, ◌==◌, Option, none, some, List, [], ◌∷◌, ◌++◌, map, Bytes, codes, lit, pos,
  ◌+ℤ◌, All, ◌≡◌, ◌≢◌, ◌↔◌, ◌⊎◌, inr, Bool, refl, arith, bytes_eq, if◌then◌else◌, to_decimal,
}
use edge_tts_cpp.Api.Host.{default_synthesis_options}
use edge_tts_cpp.Api.SpeechSynthesizer
use edge_tts_cpp.Api.VoiceList.{VoiceWorld, list_voices}
use edge_tts_cpp.Api.VoiceList.Codes.{IsExplained, list_voices-codes}
use edge_tts_cpp.Cli.Console.{Terminal, Console, Action, synthesized, act, format_error}
use edge_tts_cpp.Cli.Console.Redaction.{format_error-url}
use edge_tts_cpp.Cli.EdgeTts
use edge_tts_cpp.Cli.EdgeTtsDispatcher.{Target, target_of, stream_chunks}
use edge_tts_cpp.Cli.EdgeTtsDispatcher.Routing.{Delivered, Means, stream_chunks-Delivered}
use edge_tts_cpp.Cli.Playback
use edge_tts_cpp.Cli.PlaybackDispatcher.{dispatch_play}
use edge_tts_cpp.Cli.Programs.{edge_tts_main}
use edge_tts_cpp.Cli.Programs.Returns.{IsAnswering}
use edge_tts_cpp.Cli.PlaybackDispatcher.Cleanup.{AreGiven, IsCleaned, dispatch_play-IsCleaned}
use edge_tts_cpp.Cli.VoiceFormatter.{format, sort_voices}
use edge_tts_cpp.Cli.VoiceFormatter.Sorting.{IsSorted, sort_voices-IsSorted}
use edge_tts_cpp.Common.Error.{Error, Result, ok, fail, error, error_in, network_error, to_string}
use edge_tts_cpp.Communication.Config.{default_edge_service_config}
use edge_tts_cpp.Communication.HttpClient.{IxHttp, http_send}
use edge_tts_cpp.Communication.VoiceService
use edge_tts_cpp.Communication.VoiceService.{
  HttpResponse, HttpRequest, HttpHost, VoiceFilter, ServiceState, read_voices,
}
use edge_tts_cpp.Communication.VoiceService.Filter.{Matches, list_voices-Matches}
use edge_tts_cpp.Communication.VoiceService.Requests.{Answers, IsFailed, list_voices-requests}
use edge_tts_cpp.Communication.WebSocketClient.{
  WebSocketClient, message, broken, close_frame, result_of,
}
use edge_tts_cpp.Communication.WebSocketClient.Queue.{
  Step, arrives, receives, run, pushed, without_timeouts, run-fifo,
}
use edge_tts_cpp.Core.TtsConfig.{defaults}
use edge_tts_cpp.Core.Voice.{Voice, female}
use edge_tts_cpp.Examples.{integers}
use edge_tts_cpp.Examples.Facade.{counting, fresh, speech, asked_state, synthesize_run}
use edge_tts_cpp.Media.ProcessRunner.{
  Posix, ProcessCommand, exited, interrupted, Pipe, run_child, run_process,
}
use edge_tts_cpp.Media.ProcessRunner.Descriptors.{IsBalanced, IsClean, first, run_process_lem}
use edge_tts_cpp.Media.ExecutableDiscovery.{FileSystem, find_on_path}
use edge_tts_cpp.Serialization.TextChunker.{chunk}
use edge_tts_cpp.Serialization.TextNormalizer.{normalize}
use edge_tts_cpp.Serialization.XmlEscaper.{xml_escape}
use edge_tts_cpp.Subtitle.Time.{to_srt_timestamp}
use edge_tts_cpp.Serialization.Json.{JsonLibrary}
use edge_tts_cpp.Serialization.VoiceJson.{AllParsed, parse_voice_list, parse_voice_list-AllParsed}

-- A list of one object whose members are given by a function of their names.
data Json : Type 0 where
  root entry : Json
  string : Bytes → Json

abbrev members : Bytes → Bytes
members key = if bytes_eq key (codes "Gender") then codes "Female" else codes "en-GB"

abbrev one_voice : JsonLibrary
one_voice = record {
  Value = Json;
  parse_json = λ s. inr root;
  is_object = λ v. elim v [ entry ↦ true | _ ↦ false ];
  member = λ v name. elim v [ entry ↦ some (string (members name)) | _ ↦ none ];
  elements = λ v. elim v [ root ↦ some (entry ∷ []) | _ ↦ none ];
  string_value = λ v. elim v [ string s ↦ some s | _ ↦ none ];
  integer_value = λ v. none;
}

abbrev sonia : Voice
sonia = record {
  name = codes "en-GB";
  short_name = codes "en-GB";
  gender = female;
  locale = codes "en-GB";
  friendly_name = codes "en-GB";
  status = codes "en-GB";
  suggested_codec = codes "en-GB";
  content_categories = [];
  voice_personalities = [];
  language = codes "en";
}

one_voice-parses : parse_voice_list one_voice [] ≡ ok (sonia ∷ [])
unfolding parse_voice_list lit bytes_eq
one_voice-parses = refl

parse_voice_list-AllParsed_example :
    (root' : Json) × (entries : List Json) × (◌≡◌ {A = Bytes ⊎ Json} (inr root) (inr root'))
    × (one_voice.elements root' ≡ some entries)
    × AllParsed one_voice entries (sonia ∷ [])
parse_voice_list-AllParsed_example =
    parse_voice_list-AllParsed one_voice [] (sonia ∷ []) one_voice-parses

-- The world is the number of requests: the first is answered with a 403.
abbrev answer : ℕ → HttpResponse
answer n = record { status_code = if n == 0 then 403 else 200; headers = []; body = [] }

abbrev server : HttpHost integers
server = record {
  World = ℕ;
  send = λ request n. (ok (answer n), suc n);
  random_bytes = λ n. ([], n);
  now_seconds = λ n. (pos 1700000000, n);
}

abbrev service_start : ServiceState integers server
service_start = record { world = 0; skew = pos 0; log = [] }

abbrev british : VoiceFilter
british = record { locale = some (codes "en-GB"); gender = none; short_name = none }

list_voices-requests_example :
    (last : Result HttpResponse) × Answers integers server default_edge_service_config
      service_start.log
      (VoiceService.list_voices integers server default_edge_service_config one_voice british
        service_start).1.log
      last
    × ((VoiceService.list_voices integers server default_edge_service_config one_voice british
          service_start).0
        ≡ read_voices one_voice british last)
    × (IsFailed
          (VoiceService.list_voices integers server default_edge_service_config one_voice british
            service_start).0
        ⊎ ((response : HttpResponse) × (last ≡ ok response) × (response.status_code ≡ 200)))
list_voices-requests_example =
    list_voices-requests integers server default_edge_service_config one_voice british service_start

service_run :
    (VoiceService.list_voices integers server default_edge_service_config one_voice british
      service_start).0
    ≡ ok (sonia ∷ [])
unfolding VoiceService.list_voices lit bytes_eq VoiceService.find_field
service_run = refl

list_voices-Matches_example :
    (response : HttpResponse) × (all : List Voice) × Answers integers server
      default_edge_service_config service_start.log
      (VoiceService.list_voices integers server default_edge_service_config one_voice british
        service_start).1.log
      (ok response)
    × (parse_voice_list one_voice response.body ≡ ok all)
    × Sublist (sonia ∷ []) all
    × ((v : Voice) → Mem v (sonia ∷ []) ↔ (Mem v all × Matches british v))
list_voices-Matches_example =
    list_voices-Matches integers server default_edge_service_config one_voice british service_start
      (sonia ∷ []) service_run

sort_voices-IsSorted_example :
    Perm (sort_voices (sonia ∷ sonia ∷ [])) (sonia ∷ sonia ∷ [])
    × IsSorted (sort_voices (sonia ∷ sonia ∷ []))
sort_voices-IsSorted_example = sort_voices-IsSorted (sonia ∷ sonia ∷ [])

-- A byte that a text does not hold.
without : (c : ℕ) (s : Bytes) → All (λ x. (x == c) ≡ false) s → All (λ x. x ≢ c) s
without c [] h = tt
without c (x ∷ s) (h, hs) = (ground arith, without c s hs)

format_error-url_example :
    format_error (
      error_in network_error
        (codes "failed")
        (codes "http" ++ (codes "://" ++ (codes "me:secret" ++ b'@' ∷ codes "proxy:80"))))
    ≡ codes "["
      ++ to_string network_error
      ++ codes "] "
      ++ codes "failed"
      ++ codes " (context: "
      ++ ((codes "http" ++ codes "://") ++ (codes "[credentials]" ++ b'@' ∷ codes "proxy:80"))
      ++ codes ")"
format_error-url_example =
    format_error-url network_error (codes "failed") (codes "http") (codes "me:secret")
      (codes "proxy:80") (without b':' (codes "http") (refl, (refl, (refl, (refl, tt)))))
      (without b'@' (codes "me:secret")
        (refl, (refl, (refl, (refl, (refl, (refl, (refl, (refl, (refl, tt))))))))))

abbrev pub terminal : Terminal counting
terminal = record {
  read_stdin = λ n. (codes "hello", suc n);
  read_line = λ n. (true, suc n);
  is_directory = λ path n. (some false, suc n);
  read_file = λ path n. (some (codes "hello"), suc n);
  remove_file = λ path n. suc n;
  tty_check = none;
  voice_service = λ n. (ok (sonia ∷ []), suc n);
  temp_path = λ suffix n. (some (some (codes "/tmp/x" ++ suffix)), suc n);
  play_mp3 = λ path n. (ok tt, suc n);
}

abbrev pub console : Console counting terminal
console = record { world = 0; out = []; err = []; log = [] }

abbrev delivered_console : Console counting terminal
delivered_console = record {
  world = 4;
  out = [];
  err = codes "1\n00:00:00,001 --> 00:00:00,003\nhello\n\n";
  log = synthesized asked_state.log ∷ Action.wrote (codes "a.mp3") (1 ∷ 2 ∷ 3 ∷ []) ∷ [];
}

stream_chunks_run :
    stream_chunks counting terminal
      (target_of (some (codes "a.mp3")))
      (target_of (some (codes "-")))
      fresh
      console
    ≡ some (0, delivered_console)
unfolding stream_chunks target_of chunk normalize xml_escape ◌+ℤ◌ to_decimal to_srt_timestamp
stream_chunks_run = refl

stream_chunks-Delivered_example :
    (audio_to text_to : Target) × Means (some (codes "a.mp3")) audio_to
    × Means (some (codes "-")) text_to
    × Delivered counting terminal audio_to text_to speech
        (act counting terminal (synthesized asked_state.log) 2 console)
        delivered_console
stream_chunks-Delivered_example =
    stream_chunks-Delivered counting terminal (some (codes "a.mp3")) (some (codes "-")) fresh
      asked_state console delivered_console speech synthesize_run stream_chunks_run

abbrev played_console : Console counting terminal
played_console = record {
  world = 11;
  out = [];
  err = [];
  log =
      synthesized (
        asked_state.log
        ++ SpeechSynthesizer.file_written (codes "/tmp/x.mp3") (1 ∷ 2 ∷ 3 ∷ [])
          ∷ SpeechSynthesizer.file_written (codes "/tmp/x.srt")
              (codes "1\n00:00:00,001 --> 00:00:00,003\nhello\n\n")
          ∷ [])
      ∷ Action.played (codes "/tmp/x.mp3")
      ∷ Action.removed (codes "/tmp/x.mp3")
      ∷ Action.removed (codes "/tmp/x.srt")
      ∷ [];
}

abbrev play_arguments : Playback.PlaybackArguments
play_arguments = record Playback.default_arguments {
  text = some (codes "hello");
  voice = defaults.voice;
  rate = defaults.rate;
  volume = defaults.volume;
  pitch = defaults.pitch;
}

dispatch_play_run :
    dispatch_play counting terminal false play_arguments console ≡ some (0, played_console)
unfolding dispatch_play chunk normalize xml_escape ◌+ℤ◌ to_decimal to_srt_timestamp
dispatch_play_run = refl

dispatch_play-IsCleaned_example :
    ((◌≡◌ {A = ℕ} 0 1) × (played_console.log ≡ console.log))
    ⊎ ((w : ℕ) × (mp3 : Bytes) × (srt : Option Bytes) × AreGiven counting terminal w mp3 srt
        × IsCleaned counting terminal false mp3 srt console.log played_console.log 0)
dispatch_play-IsCleaned_example =
    dispatch_play-IsCleaned counting terminal false play_arguments console played_console 0
      dispatch_play_run

abbrev socket : WebSocketClient
socket = record { proxy = none; connect_timeout = 10000; incoming = []; running = true }

-- A message arrives, the caller takes it, waits in vain, and then waits while two messages arrive.
abbrev socket_steps : List Step
socket_steps =
    arrives (message true (1 ∷ []))
    ∷ receives []
    ∷ receives (close_frame 1000 [] ∷ [])
    ∷ receives (message false (codes "a") ∷ broken [] ∷ [])
    ∷ []

run-fifo_example :
    without_timeouts (run socket_steps socket).0
      ++ map result_of (run socket_steps socket).1.incoming
    ≡ map result_of (pushed socket_steps)
run-fifo_example = run-fifo socket_steps socket refl

abbrev unreachable : IxHttp
unreachable = record {
  World = ℕ;
  get = λ url connect_timeout transfer_timeout headers' n. (none, suc n);
}

abbrev unreachable_world : VoiceWorld integers unreachable
unreachable_world = record {
  random_bytes = λ n. ([], n);
  now_seconds = λ n. (pos 1700000000, n);
  zero_seconds = pos 0;
}

abbrev nothing_came : Error
nothing_came = error network_error (lit "HTTP request failed: null response")

unreachable_run :
    (list_voices integers unreachable unreachable_world one_voice default_synthesis_options 0).0
    ≡ fail nothing_came
unfolding list_voices lit http_send
unreachable_run = refl

list_voices-codes_example :
    IsExplained integers unreachable unreachable_world one_voice default_synthesis_options 0
      network_error
list_voices-codes_example =
    list_voices-codes integers unreachable unreachable_world one_voice default_synthesis_options 0
      nothing_came unreachable_run

-- Only the second directory has the program.
abbrev pub programs : FileSystem
programs = record {
  path_join = λ dir name. dir ++ (b'/' ∷ name);
  is_executable_file = λ p. bytes_eq p (codes "/b/ffplay");
}

found_runs : find_on_path programs (codes "ffplay") (codes "/a::/b:/c") ≡ some (codes "/b/ffplay")
unfolding find_on_path bytes_eq
found_runs = refl

-- A system whose pipes are 3, 4 and 5, 6; the program writes two blocks to one and one to the other,
-- and the first `waitpid` is cut short.
abbrev one_program : Posix
one_program = record {
  World = ℕ;
  pipe = λ n. (inr (record { read_end = n; write_end = suc n }), suc (suc n));
  fork = λ n. (inr 100, n);
  blocks = λ fd n. if fd == 3 then codes "ab" ∷ codes "c" ∷ [] else codes "note" ∷ [];
  waitpid = λ pid n. interrupted (exited 7);
  dup2 = λ old new n. true;
  execvp = λ program args n. true;
}

abbrev playing : ProcessCommand
playing = record { executable = codes "ffplay"; arguments = codes "a.mp3" ∷ [] }

abbrev by_turns : ℕ → List Bool
by_turns n = true ∷ false ∷ true ∷ []

run_process_lem_example :
    IsBalanced (run_process one_program by_turns playing 3).1
    × (run_process one_program by_turns playing 3
        ≡ run_process one_program (first one_program by_turns playing) playing 3)
    × ((out err : Pipe) → IsClean out err (run_child one_program by_turns playing out err 3))
run_process_lem_example = run_process_lem one_program by_turns playing 3

ran_with_seven :
    (run_process one_program by_turns playing 3).0
    ≡ ok (record { exit_code = pos 7; stdout_text = codes "abc"; stderr_text = codes "note" })
unfolding run_process
ran_with_seven = refl

abbrev listing : List Bytes
listing = codes "-l" ∷ []

abbrev listed : Console counting terminal
listed = record console { world = 1; out = format (sonia ∷ []) }

edge_tts_main_run : edge_tts_main counting terminal listing console ≡ some (0, listed)
unfolding edge_tts_main
edge_tts_main_run = refl

pub counting-IsAnswering : IsAnswering counting
counting-IsAnswering = λ config texts n. (ok speech, suc n, refl)

-- A path that is too long.
abbrev throwing : Terminal counting
throwing = record terminal { is_directory = λ path n. (none, suc n) }

thrown :
    edge_tts_main counting throwing
      (codes "--file" ∷ codes "x" ∷ [])
      (record { world = 0; out = []; err = []; log = [] })
    ≡ none
unfolding edge_tts_main
thrown = refl

refused :
    edge_tts_main counting terminal (codes "-l" ∷ codes "--proxy" ∷ codes "http://a" ∷ []) console
    ≡ some (1, record console { err = codes "Error: proxy is not supported\n" })
unfolding edge_tts_main
refused = refl
