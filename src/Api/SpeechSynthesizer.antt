-- ===== src/Api/SpeechSynthesizer.antt =====
-- modules/api: SpeechSynthesizer.hpp and SpeechSynthesizer.cpp. The state of the object holds the
-- world outside and a log of what it has asked the backend, delivered and written.
pub mod Once
pub mod Stream
pub mod Save
pub mod Returns
use edge_tts_cpp.Base.{
  Bool, true, false, Option, none, some, List, [], ◌∷◌, ◌++◌, Bytes, lit, if◌then◌else◌,
}
use edge_tts_cpp.Api.FileWriter.{write_binary, write_text_utf8}
use edge_tts_cpp.Api.Host.{Host, SynthesisOptions, StreamCallbacks}
use edge_tts_cpp.Common.Error.{
  Error, Result, ok, fail, error, guard, cancelled, unsupported, invalid_state,
}
use edge_tts_cpp.Communication.Effect.{Step, ◌>>=◌, ◌>>◌, lift}
use edge_tts_cpp.Core.Chunk.{BoundaryChunk, TtsChunk, audio_chunk, boundary_chunk}
use edge_tts_cpp.Core.TtsConfig.{TtsConfig, validate_tts_config}
use edge_tts_cpp.Serialization.TextChunker.{chunk, default_options}
use edge_tts_cpp.Subtitle.Builder.{SubtitleBuilder, empty_builder, feed, to_srt}

pub data Event : Type 0 where
  asked : TtsConfig → List Bytes → Event
  audio_delivered : Bytes → Event
  boundary_delivered : BoundaryChunk → Event
  completed : Event
  error_delivered : Error → Event
  file_written : Bytes → Bytes → Event

abbrev pub was_cancelled : Error
was_cancelled = error cancelled (lit "synthesis was cancelled")

abbrev pub already_called : Error
already_called = error invalid_state (lit "synthesize can only be called once")

-- `options_.proxy.has_value()`.
unfoldable pub reject_proxy : Option Bytes → Result (Unit {0})
reject_proxy none = ok tt
reject_proxy (some url) = fail (error unsupported (lit "proxy is not supported"))

-- The loop of `save`: the bytes of the audio, and the builder fed with the boundaries.
unfoldable pub gather : List TtsChunk → Bytes → SubtitleBuilder → Result (Bytes × SubtitleBuilder)
unfolding feed
gather [] bytes b = ok (bytes, b)
gather (audio_chunk d ∷ chunks) bytes b = gather chunks (bytes ++ d) b
gather (boundary_chunk c ∷ chunks) bytes b =
    let (r, b') = feed c b in elim r [ fail e ↦ fail e | ok _ ↦ gather chunks bytes b' ]

module _ (h : Host) where
  pub record SpeechSynthesizer : Type 0 where
    pub text : Bytes
    pub config : TtsConfig
    pub options : SynthesisOptions
    pub called : Bool
    pub world : h.World
    pub log : List Event

  abbrev pub M : Type 0 → Type 0
  M A = Step SpeechSynthesizer A

  -- The constructors.
  abbrev pub construct : Bytes → TtsConfig → SynthesisOptions → h.World → SpeechSynthesizer
  construct text config options w = record {
    text = text;
    config = config;
    options = options;
    called = false;
    world = w;
    log = [];
  }

  abbrev pub note : Event → h.World → SpeechSynthesizer → SpeechSynthesizer
  note e w s = record s { world = w; log = s.log ++ e ∷ [] }

  unfoldable pub check_cancelled : M (Unit {0})
  check_cancelled s =
      let (flag, w) = h.is_cancelled s.world in
      some (if flag then fail was_cancelled else ok tt, record s { world = w })

  -- `synthesizer_(config_, text_chunks)`.
  unfoldable pub ask : TtsConfig → List Bytes → M (List TtsChunk)
  ask config texts s = elim (h.synthesizer config texts s.world) [
    | none ↦ none
    | some (r, w) ↦ some (r, note (asked config texts) w s)
  ]

  -- Steps 4 and 5: no text, no audio.
  unfoldable pub ask_for : TtsConfig → List Bytes → M (List TtsChunk)
  unfolding ask
  ask_for config [] = lift (ok [])
  ask_for config (text ∷ texts) = ask config (text ∷ texts)

  unfoldable pub run_pipeline : M (List TtsChunk)
  unfolding check_cancelled reject_proxy validate_tts_config ask_for
  run_pipeline s =
      (do
        check_cancelled
        lift (reject_proxy s.options.proxy)
        lift (validate_tts_config s.config)
        texts ← lift (chunk default_options s.text)
        ask_for s.config texts)
        s

  -- The guard of the three operations, which sets the flag.
  unfoldable pub once : {A : Type 0} → M A → M A
  once run s = elim s.called [
    | true ↦ some (fail already_called, s)
    | false ↦ run (record s { called = true })
  ]

  unfoldable pub synthesize : M (List TtsChunk)
  unfolding once run_pipeline
  synthesize = once run_pipeline

  unfoldable pub deliver :
      StreamCallbacks h.World → TtsChunk → SpeechSynthesizer → SpeechSynthesizer
  deliver c (audio_chunk d) s = elim c.on_audio [
    | none ↦ s
    | some f ↦ note (audio_delivered d) (f d s.world) s
  ]
  deliver c (boundary_chunk b) s = elim c.on_boundary [
    | none ↦ s
    | some f ↦ note (boundary_delivered b) (f b s.world) s
  ]

  unfoldable pub report : StreamCallbacks h.World → Error → SpeechSynthesizer → SpeechSynthesizer
  report c e s = elim c.on_error [ none ↦ s | some f ↦ note (error_delivered e) (f e s.world) s ]

  unfoldable pub complete : StreamCallbacks h.World → SpeechSynthesizer → SpeechSynthesizer
  complete c s = elim c.on_complete [ none ↦ s | some f ↦ note completed (f s.world) s ]

  -- The loop over the chunks and the check behind it.
  unfoldable pub deliver_all :
      StreamCallbacks h.World
      → List TtsChunk
      → SpeechSynthesizer
      → Result (Unit {0}) × SpeechSynthesizer
  unfolding deliver report complete
  deliver_all c [] s =
      let (flag, w) = h.is_cancelled s.world in
      let s' = record s { world = w } in
      elim flag [
        | true ↦ (fail was_cancelled, report c was_cancelled s')
        | false ↦ (ok tt, complete c s')
      ]
  deliver_all c (chunk ∷ chunks) s =
      let (flag, w) = h.is_cancelled s.world in
      let s' = record s { world = w } in
      elim flag [
        | true ↦ (fail was_cancelled, report c was_cancelled s')
        | false ↦ deliver_all c chunks (deliver c chunk s')
      ]

  -- What a stream does with the result of the pipeline.
  unfoldable pub deliver_result :
      StreamCallbacks h.World
      → Result (List TtsChunk)
      → SpeechSynthesizer
      → Result (Unit {0}) × SpeechSynthesizer
  unfolding report deliver_all
  deliver_result c (fail e) s = (fail e, report c e s)
  deliver_result c (ok chunks) s = deliver_all c chunks s

  unfoldable pub stream : StreamCallbacks h.World → M (Unit {0})
  unfolding run_pipeline deliver_result
  stream c s = elim (run_pipeline s) [ none ↦ none | some (r, s') ↦ some (deliver_result c r s') ]

  unfoldable pub synthesize_stream : StreamCallbacks h.World → M (Unit {0})
  unfolding once stream
  synthesize_stream c = once (stream c)

  -- A call of the file writer; the log has the files that were written.
  unfoldable pub write :
      (Bytes → Bytes → h.World → Result (Unit {0}) × h.World) → Bytes → Bytes → M (Unit {0})
  write writer path content s =
      let (r, w) = writer path content s.world in
      elim r [
        | fail e ↦ some (fail e, record s { world = w })
        | ok _ ↦ some (ok tt, note (file_written path content) w s)
      ]

  unfoldable pub write_subtitles : Option Bytes → SubtitleBuilder → M (Unit {0})
  unfolding write write_text_utf8 to_srt
  write_subtitles none b = lift (ok tt)
  write_subtitles (some path) b = do srt ← lift (to_srt b); write (write_text_utf8 h) path srt

  unfoldable pub save_chunks : Bytes → Option Bytes → List TtsChunk → M (Unit {0})
  unfolding gather write write_binary write_subtitles
  save_chunks media_path subtitles_path chunks = do
    gathered ← lift (gather chunks [] empty_builder)
    write (write_binary h) media_path gathered.0
    write_subtitles subtitles_path gathered.1

  unfoldable pub save : Bytes → Option Bytes → M (Unit {0})
  unfolding once run_pipeline save_chunks
  save media_path subtitles_path = once (run_pipeline >>= save_chunks media_path subtitles_path)
