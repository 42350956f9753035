-- ===== src/Examples/Facade.antt =====
-- The facade, the dispatchers and their collaborators at concrete inputs: a host whose world counts the
-- calls on it, whose backend answers with one piece of audio and one word, and whose files can be
-- written.
use edge_tts_cpp.Base.{
  ℕ, suc, ◌≤◌, true, false, Option, none, some, List, [], ◌∷◌, ◌++◌, map, codes, pos, ◌+ℤ◌,
  to_decimal, ◌≡◌, refl,
}
use edge_tts_cpp.Api.Host.{Host, StreamCallbacks, default_synthesis_options}
use edge_tts_cpp.Api.SpeechSynthesizer
use edge_tts_cpp.Api.SpeechSynthesizer.{SpeechSynthesizer, construct, was_cancelled}
use edge_tts_cpp.Api.SpeechSynthesizer.Once.{
  Operation, synthesizing, saving, streaming, perform, perform_all, asks, asks_once,
  perform-perform,
}
use edge_tts_cpp.Api.SpeechSynthesizer.Save.{IsSaved, save-synthesize}
use edge_tts_cpp.Api.SpeechSynthesizer.Stream.{
  all_given, IsStreamed, delivery, synthesize_stream-log, synthesize_stream-synthesize,
}
use edge_tts_cpp.Common.Error.{Result, ok, fail}
use edge_tts_cpp.Core.Chunk.{TtsChunk, audio_chunk, boundary_chunk, BoundaryChunk, word_boundary}
use edge_tts_cpp.Subtitle.Time.{to_srt_timestamp}
use edge_tts_cpp.Serialization.TextChunker.{chunk}
use edge_tts_cpp.Serialization.TextNormalizer.{normalize}
use edge_tts_cpp.Serialization.XmlEscaper.{xml_escape}
use edge_tts_cpp.Core.TtsConfig.{defaults}

abbrev pub word_at : ℕ → BoundaryChunk
word_at n = record {
  kind = word_boundary;
  text = codes "hello";
  offset_ticks = pos n;
  duration_ticks = pos 20000;
}

abbrev pub speech : List TtsChunk
speech = audio_chunk (1 ∷ 2 ∷ []) ∷ boundary_chunk (word_at 10000) ∷ audio_chunk (3 ∷ []) ∷ []

abbrev pub counting : Host
counting = record {
  World = ℕ;
  is_cancelled = λ n. (false, suc n);
  synthesizer = λ config texts n. some (ok speech, suc n);
  open_file = λ path n. (true, suc n);
  write_file = λ path content n. (true, suc n);
}

abbrev pub fresh : SpeechSynthesizer counting
fresh = construct counting (codes "hello") defaults default_synthesis_options 0

abbrev state_of :
    Option (Result (Unit {0}) × SpeechSynthesizer counting) → SpeechSynthesizer counting
state_of none = fresh
state_of (some (r, s)) = s

abbrev callbacks : StreamCallbacks ℕ
callbacks = all_given (λ d n. suc n) (λ b n. suc n) (λ n. suc n) (λ e n. suc n)

abbrev all_operations : List (Operation counting)
all_operations =
    synthesizing ∷ streaming callbacks ∷ saving (codes "a.mp3") (some (codes "a.srt")) ∷ []

abbrev after_all : SpeechSynthesizer counting
after_all = record fresh {
  called = true;
  world = 2;
  log = SpeechSynthesizer.asked defaults (codes "hello" ∷ []) ∷ [];
}

all_operations-run : perform_all counting all_operations fresh ≡ some after_all
unfolding perform_all chunk normalize xml_escape
all_operations-run = refl

asks_once_example : asks after_all.log ≤ 1
asks_once_example =
    asks_once counting (codes "hello") defaults default_synthesis_options 0 all_operations after_all
      all_operations-run

abbrev pub asked_log : List SpeechSynthesizer.Event
asked_log = SpeechSynthesizer.asked defaults (codes "hello" ∷ []) ∷ []

-- What a run of the pipeline has left, and what a stream or a save adds.
abbrev pub asked_state : SpeechSynthesizer counting
asked_state = record fresh { called = true; world = 2; log = asked_log }

pub synthesize_run : SpeechSynthesizer.synthesize counting fresh ≡ some (ok speech, asked_state)
unfolding SpeechSynthesizer.synthesize chunk normalize xml_escape
synthesize_run = refl

abbrev streamed_state : SpeechSynthesizer counting
streamed_state = record fresh {
  called = true;
  world = 10;
  log = asked_log ++ (map delivery speech ++ SpeechSynthesizer.completed ∷ []);
}

stream_run :
    SpeechSynthesizer.synthesize_stream counting callbacks fresh ≡ some (ok tt, streamed_state)
unfolding SpeechSynthesizer.synthesize_stream chunk normalize xml_escape delivery
stream_run = refl

perform-perform_example :
    (streamed_state ≡ streamed_state)
    × (◌≡◌ {A = Result (Unit {0})}
        (fail SpeechSynthesizer.already_called)
        (fail SpeechSynthesizer.already_called))
unfolding perform SpeechSynthesizer.synthesize_stream SpeechSynthesizer.save
perform-perform_example =
    perform-perform counting (streaming callbacks) (saving (codes "a.mp3") none) fresh
      streamed_state streamed_state (ok tt) (fail SpeechSynthesizer.already_called) stream_run refl

synthesize_stream-log_example : IsStreamed (ok speech) asked_state.log (ok tt) streamed_state.log
synthesize_stream-log_example =
    synthesize_stream-log counting (λ d n. suc n) (λ b n. suc n) (λ n. suc n) (λ e n. suc n) fresh
      asked_state streamed_state (ok speech) (ok tt) refl synthesize_run stream_run

synthesize_stream-synthesize_example :
    (s' : SpeechSynthesizer counting) × (SpeechSynthesizer.synthesize_stream counting callbacks
        fresh
      ≡ some (ok tt, s'))
    × (s'.log ≡ asked_state.log ++ (map delivery speech ++ SpeechSynthesizer.completed ∷ []))
synthesize_stream-synthesize_example =
    synthesize_stream-synthesize counting (λ d n. suc n) (λ b n. suc n) (λ n. suc n) (λ e n. suc n)
      fresh asked_state speech refl (λ w. refl) synthesize_run

abbrev saved_state : SpeechSynthesizer counting
saved_state = record fresh {
  called = true;
  world = 6;
  log =
      asked_log
      ++ SpeechSynthesizer.file_written (codes "a.mp3") (1 ∷ 2 ∷ 3 ∷ [])
        ∷ SpeechSynthesizer.file_written (codes "a.srt")
            (codes "1\n00:00:00,001 --> 00:00:00,003\nhello\n\n")
        ∷ [];
}

save_run :
    SpeechSynthesizer.save counting (codes "a.mp3") (some (codes "a.srt")) fresh
    ≡ some (ok tt, saved_state)
unfolding SpeechSynthesizer.save chunk normalize xml_escape ◌+ℤ◌ to_decimal to_srt_timestamp
save_run = refl

save-synthesize_example :
    IsSaved counting
      (codes "a.mp3")
      (some (codes "a.srt"))
      (ok speech)
      asked_state
      (ok tt)
      saved_state
save-synthesize_example =
    save-synthesize counting (codes "a.mp3") (some (codes "a.srt")) fresh asked_state saved_state
      (ok speech) (ok tt) refl synthesize_run save_run
