-- ===== src/Lib.antt =====
-- edge-tts-cpp: text to speech over the Edge read-aloud service.
--
-- A text is normalized, escaped and split into chunks (modules/serialization). A session sends each
-- chunk over a WebSocket and collects audio and boundary events (modules/communication). Boundary
-- events become subtitles (modules/subtitle). One object offers synthesis, streams, files and the
-- list of voices (modules/api). Two command lines choose what is done (modules/cli); one of them
-- plays the result (modules/media). modules/common and modules/core hold what these share.
--
-- Which file models which part:
-- - Base: lists, byte strings and integers. Bytes are natural numbers; `lit` is a message.
-- - Common/Error, Hex, Utf8, Sha256, IdGenerator: the files of modules/common of these names.
--   Common/Cancellation: CancellationToken.hpp.
-- - Core/Chunk, TtsConfig, Voice: modules/core; a regular expression is written out as a matcher.
-- - Serialization: XmlEscaper, TextNormalizer, TextChunker, Protocol (message, parser and
--   serializer), MetadataJson, VoiceJson, SsmlBuilder: modules/serialization. Json is nlohmann::json.
-- - Communication: Config (service, headers, retries, proxies), TokenProvider, HttpDate, Outgoing
--   (EdgeProtocol.cpp), Incoming (EdgeProtocolIncoming.cpp), Session (SynthesisSession.cpp),
--   VoiceService, WebSocketClient, HttpClient: modules/communication. Platform holds floating point,
--   the clock, random bytes and the socket; Effect holds the steps on it.
-- - Subtitle/Time, Builder, Composer: modules/subtitle.
-- - Api/Host, FileWriter, SpeechSynthesizer, VoiceList: modules/api. Host holds the file streams,
--   the cancellation flag, the synthesis backend and the callbacks of the user. Api/Production is
--   ProductionSynthesizer: the session over the WebSocket client, down to the calls of the library.
-- - Media/ExecutableDiscovery, FfmpegAudioConverter, ProcessRunner: modules/media, over the calls of
--   POSIX; the two threads that read the pipes of a program are merged by any schedule.
-- - Cli/Tokens, EdgeTts, Playback: modules/cli, EdgeTtsArgumentParser.cpp and
--   PlaybackArgumentParser.cpp. Cli/VoiceFormatter: VoiceFormatter.cpp. Cli/Console: InputLoader.cpp
--   and the text of an error. Cli/EdgeTtsDispatcher, PlaybackDispatcher: the command dispatchers.
--   Cli/Programs: main of apps/edge-tts and apps/edge-playback, over the environment variables,
--   the clock and the directory for temporary files.
-- - Examples, with Facade, Commands and Network: the theorems at concrete inputs.
--
-- A function of the source keeps its name. An operation that fails returns a `Result`, with the
-- code, message and context of the source. A session step is a function of a state with the world
-- outside, the clock skew and a log of the calls on the socket; the facade and the dispatchers keep
-- their own state and log in the same way. In the dispatchers and the programs `none` is a run
-- without an exit code: the backend does not answer, or an exception of the file system leaves
-- main. Other exceptions, such as those of a memory that is full, are left out. The callback of the
-- WebSocket library and the calls of the client are steps on one state, in the order in which the
-- mutex lets them in. The child modules hold proofs.
--
-- Bounds and fuel: a loop that consumes its text takes the length of the text as fuel, and an
-- attempt loop takes one round more than the retries. The receive loop ends with the service: its
-- fuel is a parameter, and one more than the messages of a socket is enough
-- (Communication/Session/Termination; Api/Production/Returns down to the network). The search on
-- PATH takes the length of PATH. Sums of ticks are integers: signed overflow, which is undefined in
-- C++, is left out. Words of SHA-256 wrap at 2 ^ 32. `%d` of `sscanf` stops at the bounds of 64 bits and
-- stores the low 32, as the C library on Linux does; a date is read up to its first NUL.
--
-- Not modelled: the clocks, whose time is a parameter; the build without the WebSocket library. The
-- WebSocket and HTTP library, the JSON library, file streams, the system calls and the terminal are
-- not code of the repository: they are parameters.
pub mod Base
pub mod Common
pub mod Serialization
pub mod Core
pub mod Communication
pub mod Subtitle
pub mod Cli
pub mod Media
pub mod Api
pub mod Examples
