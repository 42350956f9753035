-- ===== src/Examples.antt =====
-- The theorems at concrete inputs: a transport that delivers one audio frame and the end of the turn
-- on every socket, and small texts, messages and command lines.
pub mod Facade
pub mod Commands
pub mod Network
use edge_tts_cpp.Base.{
  bytes_eq, Bool, ◌*◌, ◌+◌, ◌≤◌, ◌≢◌, not, ◌&&◌, ◌==◌, All, ℕ, ◌<◌, true, false, none, some, List,
  [], ◌∷◌, ◌++◌, map, Bytes, codes, lit, length, ℤ, pos, ◌+ℤ◌, ◌-ℤ◌, ◌*ℤ◌, tdiv, pos_part,
  to_decimal, ◌≡◌, ◌↔◌, refl, arith, inr, ◌⊎◌, find, find_byte, starts_with,
}
use edge_tts_cpp.Communication.Incoming.Binary.{binary_frame, parse_binary_frame-audio}
use edge_tts_cpp.Communication.Session.Retries.{connects, synthesize-retries}
use edge_tts_cpp.Common.Error.{Error, Result, ok, fail, error, network_error, invalid_argument}
use edge_tts_cpp.Common.Utf8.{is_valid_utf8, count_continuations, is_continuation}
use edge_tts_cpp.Common.Utf8.Complete.{is_valid_utf8_iff}
use edge_tts_cpp.Common.Utf8.Spec.{IsBytes, IsUtf8}
use edge_tts_cpp.Communication.Config.{default_edge_service_config}
use edge_tts_cpp.Communication.Incoming.{
  IncomingMessage, audio, boundary, turn_end, parse_incoming, parse_binary_frame,
}
use edge_tts_cpp.Communication.Platform.{
  Float, Tm, WebSocketMessage, text_message, binary_message, Environment,
}
use edge_tts_cpp.Communication.Session.{SessionState, synthesize, handle_messages, nothing_received}
use edge_tts_cpp.Communication.Session.Messages.{
  handle_messages_lem, add_all, before_end, has_turn_end,
}
use edge_tts_cpp.Communication.Session.Sockets.{follow, synthesize-closes}
use edge_tts_cpp.Communication.Session.Termination.{Finite, synthesize-returns}
use edge_tts_cpp.Core.Chunk.{BoundaryChunk, TtsChunk, word_boundary}
use edge_tts_cpp.Core.TtsConfig.{defaults}
use edge_tts_cpp.Cli.EdgeTts.{do_parse}
use edge_tts_cpp.Cli.Playback
use edge_tts_cpp.Cli.Playback.Outcome.{is_playback_outcome, is_playback_outcome-do_parse}
use edge_tts_cpp.Cli.EdgeTts.Outcome.{is_outcome, is_outcome-do_parse}
use edge_tts_cpp.Subtitle.Time.{SubtitleCue, to_srt_timestamp}
use edge_tts_cpp.Subtitle.Time.RoundTrip.{read_timestamp, read_timestamp-to_srt_timestamp}
use edge_tts_cpp.Subtitle.Composer.{compose, is_blank, make_legal_content}
use edge_tts_cpp.Subtitle.Composer.Content.{is_legal, make_legal_content-is_legal}
use edge_tts_cpp.Subtitle.Composer.Order.{blocks, shown, is_sorted, with_times, compose_lem}
use edge_tts_cpp.Subtitle.Builder.{feed, empty_builder, is_mixed}
use edge_tts_cpp.Subtitle.Builder.Feeding.{IsTimed, IsRefused, cue_of, feed_lem}
use edge_tts_cpp.Serialization.Protocol.{parse, serialize, header, find_header}
use edge_tts_cpp.Serialization.Protocol.RoundTrip.{IsHeader, section_of, parse-serialize}
use edge_tts_cpp.Serialization.TextChunker.{SplitOptions, split_by_limit, default_options, chunk}
use edge_tts_cpp.Serialization.TextChunker.Bounds.{IsChunk, split_by_limit-IsChunk}
use edge_tts_cpp.Serialization.TextChunker.Lossless.{
  contents, visible, FewContinuations, contents-split_by_limit,
}
use edge_tts_cpp.Serialization.TextChunker.Pipeline.{chunk_lem}
use edge_tts_cpp.Serialization.TextNormalizer.{normalize}
use edge_tts_cpp.Serialization.TextNormalizer.Laws.{clean, IsClean, Blanks, normalize_lem}
use edge_tts_cpp.Serialization.XmlEscaper.{xml_escape, xml_unescape}
use edge_tts_cpp.Serialization.XmlEscaper.Laws.{
  WellEscaped, xml_unescape-xml_escape, xml_escape-WellEscaped,
}
use edge_tts_cpp.Serialization.Json.{JsonLibrary}

-- A floating-point unit on the integers.
abbrev integers : Float
integers = record {
  Double = ℤ;
  of_integer = λ a. a;
  add = λ a b. a +ℤ b;
  sub = λ a b. a -ℤ b;
  mul = λ a b. a *ℤ b;
  fmod = λ a b. a -ℤ (tdiv a (pos_part b) *ℤ b);
  format = λ a. to_decimal (pos_part a);
}

abbrev no_json : JsonLibrary
no_json = record {
  Value = Bytes;
  parse_json = λ s. inr s;
  is_object = λ v. false;
  member = λ v name. none;
  elements = λ v. none;
  string_value = λ v. none;
  integer_value = λ v. none;
}

-- The audio `1 2` behind a header of 39 bytes, and the end of the turn.
abbrev script : List WebSocketMessage
script =
    binary_message
      (0 ∷ 39 ∷ (codes "Content-Type:audio/mpeg\r\nPath:audio\r\n\r\n" ++ (1 ∷ 2 ∷ [])))
    ∷ text_message (codes "Path:turn.end\r\n\r\n")
    ∷ []

script_parses :
    map (parse_incoming no_json) script ≡ ok (audio (1 ∷ 2 ∷ []) ∷ []) ∷ ok (turn_end ∷ []) ∷ []
unfolding parse_incoming parse find starts_with find_byte header
script_parses = refl

abbrev receive_script : List WebSocketMessage → Result WebSocketMessage × List WebSocketMessage
receive_script [] = (fail (error network_error (lit "closed")), [])
receive_script (m ∷ ms) = (ok m, ms)

abbrev noon : Tm
noon = record { wday = 1; mon = 0; mday = 1; year = 2024; hour = 12; min = 0; sec = 0 }

abbrev scripted : Environment integers
scripted = record {
  World = List WebSocketMessage;
  connect = λ url w. (ok tt, script);
  send_text = λ frame w. (ok tt, w);
  receive = receive_script;
  close = λ w. [];
  random_bytes = λ w. (0 ∷ 1 ∷ 2 ∷ 3 ∷ 4 ∷ 5 ∷ 6 ∷ 7 ∷ 8 ∷ 9 ∷ 10 ∷ 11 ∷ 12 ∷ 13 ∷ 14 ∷ 15 ∷ [], w);
  now_seconds = λ w. (pos 1700000000, w);
  now_calendar = λ w. (noon, w);
  is_cancelled = λ w. false;
}

receive_script-uses :
    (w : List WebSocketMessage) (m : WebSocketMessage)
    → (receive_script w).0 ≡ ok m
    → length (receive_script w).1 < length w
receive_script-uses [] m e = grind arith
receive_script-uses (x ∷ xs) m e = omega arith

receive_script-keeps :
    (w : List WebSocketMessage) (x : Error)
    → (receive_script w).0 ≡ fail x
    → length (receive_script w).1 ≤ length w
receive_script-keeps [] x e = omega arith
receive_script-keeps (y ∷ ys) x e = omega arith

abbrev scripted_finite : Finite integers scripted
scripted_finite = record {
  pending = length;
  limit = 2;
  connect_limits = λ url w e. omega arith;
  send_keeps = λ frame w. omega arith;
  calendar_keeps = λ w. omega arith;
  receive_uses = receive_script-uses;
  failure_keeps = receive_script-keeps;
}

abbrev start : SessionState integers scripted
start = record { world = []; skew = pos 0; log = [] }

abbrev texts : List Bytes
texts = codes "hello" ∷ codes "world" ∷ []

synthesize-returns_example :
    (r : Result (List TtsChunk)) × (s' : SessionState integers scripted) × (synthesize integers
        scripted no_json 1 default_edge_service_config 3 defaults texts start
      ≡ some (r, s'))
synthesize-returns_example =
    synthesize-returns integers scripted scripted_finite no_json 1 default_edge_service_config 3
      defaults texts start (omega arith)

abbrev run :
    (r : Result (List TtsChunk)) × (s' : SessionState integers scripted) × (synthesize integers
        scripted no_json 1 default_edge_service_config 3 defaults texts start
      ≡ some (r, s'))
run =
    synthesize-returns integers scripted scripted_finite no_json 1 default_edge_service_config 3
      defaults texts start (omega arith)

synthesize-closes_example : follow false run.1.log ≡ some false
unfolding follow
synthesize-closes_example =
    synthesize-closes integers scripted no_json 1 default_edge_service_config 3 defaults texts start
      run.0 run.1 refl run.2

abbrev word : BoundaryChunk
word = record {
  kind = word_boundary;
  text = codes "hello";
  offset_ticks = pos 10000;
  duration_ticks = pos 20000;
}

abbrev frame_messages : List IncomingMessage
frame_messages = audio (1 ∷ []) ∷ boundary word ∷ turn_end ∷ audio (2 ∷ []) ∷ []

handle_messages_lem_example :
    handle_messages (pos 5) frame_messages nothing_received
    ≡ (add_all (pos 5) (before_end frame_messages) nothing_received, has_turn_end frame_messages)
handle_messages_lem_example = handle_messages_lem (pos 5) frame_messages nothing_received

is_valid_utf8_iff_example : (is_valid_utf8 (195 ∷ 169 ∷ []) ≡ true) ↔ IsUtf8 (195 ∷ 169 ∷ [])
is_valid_utf8_iff_example = is_valid_utf8_iff (195 ∷ 169 ∷ []) (omega arith, (omega arith, tt))

xml_unescape-xml_escape_example : xml_unescape (xml_escape (codes "a<&b")) ≡ codes "a<&b"
xml_unescape-xml_escape_example = xml_unescape-xml_escape (codes "a<&b")

-- A vertical tab is replaced.
abbrev tabbed : Bytes
tabbed = 97 ∷ 11 ∷ 60 ∷ []

tabbed-IsBytes : IsBytes tabbed
tabbed-IsBytes = (omega arith, (omega arith, (omega arith, tt)))

tabbed-valid : is_valid_utf8 tabbed ≡ true
unfolding is_valid_utf8
tabbed-valid = refl

normalize_lem_example :
    (t : Bytes) × (normalize tabbed ≡ ok t)
    × (length t ≡ length tabbed)
    × IsUtf8 t
    × All IsClean t
    × (normalize t ≡ ok t)
    × Blanks tabbed t
normalize_lem_example = normalize_lem tabbed tabbed-IsBytes tabbed-valid

chunk_lem_example :
    (chunks : List Bytes) × (chunk default_options tabbed ≡ ok chunks)
    × All (IsChunk default_options.max_chunk_size) chunks
    × (contents chunks ≡ visible (xml_escape (map clean tabbed)))
chunk_lem_example = chunk_lem default_options tabbed (omega arith) refl tabbed-IsBytes tabbed-valid

abbrev request : Bytes × Bytes
request = (codes "P", codes "x")

parse-serialize_example :
    parse (serialize (record { headers = request ∷ []; body = codes "body" }))
    ≡ ok (record { headers = request ∷ []; body = codes "body" })
parse-serialize_example =
    parse-serialize request [] (codes "body")
      (((ground arith, tt), (ground arith, tt), (ground arith, tt)), tt)

feed_lem_example :
    (IsTimed word_boundary word
      × (is_mixed none word_boundary ≡ false)
      × (feed word empty_builder
          ≡ (ok tt, record { cues = cue_of word ∷ []; kind = some word_boundary })))
    ⊎ (IsRefused word empty_builder
        × ((e : Error) × (feed word empty_builder ≡ (fail e, empty_builder))
            × (e.code ≡ invalid_argument)))
feed_lem_example = feed_lem word empty_builder

abbrev cue : SubtitleCue
cue = record { start = record { millis = 1 }; end = record { millis = 2 }; text = codes "hi" }

compose_lem_example :
    (sorted : List SubtitleCue) × (compose (cue ∷ cue ∷ []) ≡ ok (blocks 1 (shown sorted)))
    × (is_sorted sorted ≡ true)
    × ((a b : ℕ) → with_times a b sorted ≡ with_times a b (cue ∷ cue ∷ []))
compose_lem_example = compose_lem (cue ∷ cue ∷ [])

read_timestamp-to_srt_timestamp_example :
    read_timestamp (to_srt_timestamp (record { millis = 3723004 })) ≡ 3723004
read_timestamp-to_srt_timestamp_example =
    read_timestamp-to_srt_timestamp (record { millis = 3723004 })

abbrev command_line : List Bytes
command_line = codes "--voice=en-GB-SoniaNeural" ∷ codes "-t" ∷ codes "hello" ∷ []

is_outcome-do_parse_example : is_outcome (do_parse command_line) ≡ true
is_outcome-do_parse_example = is_outcome-do_parse command_line

synthesize-retries_example : connects run.1.log ≤ connects start.log + length texts * 2
synthesize-retries_example =
    synthesize-retries integers scripted no_json 1 default_edge_service_config 3 defaults texts
      start run.0 run.1 run.2

-- A byte that a text does not hold.
unfoldable lacks : ℕ → Bytes → Bool
lacks c [] = true
lacks c (x ∷ s) = not (x == c) && lacks c s

lacks-All : (c : ℕ) (s : Bytes) → lacks c s ≡ true → All (λ x. x ≢ c) s
unfolding lacks
lacks-All c [] h = tt
lacks-All c (x ∷ s) h = (ground arith, lacks-All c s (ground arith))

abbrev path : Bytes × Bytes
path = (codes "Path", codes "audio")

abbrev content_type : Bytes × Bytes
content_type = (codes "Content-Type", codes "audio/mpeg")

path-IsHeader : IsHeader path
unfolding lacks
path-IsHeader = (
  lacks-All 13 (codes "Path") refl,
  lacks-All b':' (codes "Path") refl,
  lacks-All 13 (codes "audio") refl,
)

content_type-IsHeader : IsHeader content_type
unfolding lacks
content_type-IsHeader = (
  lacks-All 13 (codes "Content-Type") refl,
  lacks-All b':' (codes "Content-Type") refl,
  lacks-All 13 (codes "audio/mpeg") refl,
)

abbrev audio_bytes : Bytes
audio_bytes = 1 ∷ 2 ∷ []

filled : audio_bytes ≢ []
filled = grind arith

parse_binary_frame-audio_example :
    parse_binary_frame (binary_frame (section_of path (content_type ∷ [])) (1 ∷ 2 ∷ []))
    ≡ ok (audio (1 ∷ 2 ∷ []) ∷ [])
unfolding find_header bytes_eq
parse_binary_frame-audio_example =
    parse_binary_frame-audio path (content_type ∷ []) (1 ∷ 2 ∷ [])
      (path-IsHeader, (content_type-IsHeader, tt)) (omega arith) refl refl filled

abbrev playback_line : List Bytes
playback_line = codes "--mpv" ∷ codes "--file" ∷ codes "speech.txt" ∷ []

is_playback_outcome-do_parse_example : is_playback_outcome (Playback.do_parse playback_line) ≡ true
is_playback_outcome-do_parse_example = is_playback_outcome-do_parse playback_line
