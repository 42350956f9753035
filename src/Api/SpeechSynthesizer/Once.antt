-- ===== src/Api/SpeechSynthesizer/Once.antt =====
-- SpeechSynthesizer.cpp: an object is used once.
use edge_tts_cpp.Base.{
  ℕ, ◌+◌, ◌≤◌, Bool, true, Option, none, some, List, [], ◌∷◌, ◌++◌, Bytes, if◌then◌else◌, ◌≡◌,
  arith, Bool-cases, Option-cases, inl, inr,
}
use edge_tts_cpp.Api.Host.{Host, SynthesisOptions, StreamCallbacks}
use edge_tts_cpp.Api.SpeechSynthesizer.{
  Event, asked, SpeechSynthesizer, M, construct, note, was_cancelled, already_called, reject_proxy,
  once, check_cancelled, ask, ask_for, run_pipeline, deliver, report, complete, deliver_all,
  deliver_result, stream, write, write_subtitles, gather, save_chunks, synthesize,
  synthesize_stream, save,
}
use edge_tts_cpp.Common.Error.{Error, Result, ok, fail}
use edge_tts_cpp.Communication.Effect.{◌>>=◌, ◌>>◌, lift}
use edge_tts_cpp.Core.Chunk.{TtsChunk, audio_chunk, boundary_chunk}
use edge_tts_cpp.Core.TtsConfig.{TtsConfig, validate_tts_config}
use edge_tts_cpp.Serialization.TextChunker.{chunk, default_options}
use edge_tts_cpp.Subtitle.Builder.{SubtitleBuilder, empty_builder, to_srt}
use edge_tts_cpp.Api.FileWriter.{write_binary, write_text_utf8}

-- How often the backend was asked.
unfoldable pub asks : List Event → ℕ
asks [] = 0
asks (asked config texts ∷ events) = asks events + 1
asks (_ ∷ events) = asks events

asks-append : (xs ys : List Event) → asks (xs ++ ys) ≡ asks xs + asks ys
unfolding asks
asks-append [] ys = omega arith
asks-append (asked config texts ∷ xs) ys = omega (arith, asks-append xs ys)
asks-append (Event.audio_delivered d ∷ xs) ys = asks-append xs ys
asks-append (Event.boundary_delivered b ∷ xs) ys = asks-append xs ys
asks-append (Event.completed ∷ xs) ys = asks-append xs ys
asks-append (Event.error_delivered e ∷ xs) ys = asks-append xs ys
asks-append (Event.file_written p c ∷ xs) ys = asks-append xs ys

module _ (h : Host) where
  pub data Operation : Type 0 where
    synthesizing : Operation
    streaming : StreamCallbacks h.World → Operation
    saving : Bytes → Option Bytes → Operation

  -- An operation as a step; the chunks of `synthesize` are not looked at.
  unfoldable pub perform : Operation → M h (Unit {0})
  unfolding synthesize synthesize_stream save
  perform synthesizing = synthesize h >>= λ chunks. lift (ok tt)
  perform (streaming c) = synthesize_stream h c
  perform (saving media_path subtitles_path) = save h media_path subtitles_path

  -- The operations one after the other, whatever each returns.
  unfoldable pub perform_all : List Operation → SpeechSynthesizer h → Option (SpeechSynthesizer h)
  unfolding perform
  perform_all [] s = some s
  perform_all (op ∷ ops) s = elim (perform op s) [ none ↦ none | some (r, s') ↦ perform_all ops s' ]

  -- A step that leaves the flag alone and asks at most `n` times.
  abbrev Asks : {A : Type 0} → ℕ → M h A → Type 0
  Asks {A} n m =
      (s : SpeechSynthesizer h) (r : Result A) (s' : SpeechSynthesizer h)
      → m s ≡ some (r, s')
      → (s'.called ≡ s.called) × (asks s'.log ≤ asks s.log + n)

  Asks-bind :
      {A B : Type 0} (n k : ℕ) (m : M h A) (g : A → M h B)
      → Asks n m
      → ((a : A) → Asks k (g a))
      → Asks (n + k) (m >>= g)
  Asks-bind {A} n k m g hm hg s r s' e = elim (Option-cases (m s)) [
    | inl q ↦ grind arith
    | inr ((ok a, s1), q) ↦ ground (arith, hm s (ok a) s1 q, hg a s1 r s')
    | inr ((fail x, s1), q) ↦ ground (arith, hm s (fail x) s1 q)
  ]

  Asks-lift : {A : Type 0} (r : Result A) → Asks 0 (lift r)
  Asks-lift r s r' s' e = ground arith

  Asks-check_cancelled : Asks 0 (check_cancelled h)
  unfolding check_cancelled
  Asks-check_cancelled s r s' e = ground arith

  Asks-ask_for : (config : TtsConfig) (texts : List Bytes) → Asks 1 (ask_for h config texts)
  unfolding ask_for ask asks
  Asks-ask_for config [] s r s' e = ground arith
  Asks-ask_for config (t ∷ texts) s r s' e =
      elim (Option-cases (h.synthesizer config (t ∷ texts) s.world)) [
        | inl q ↦ grind arith
        | inr ((x, w), q) ↦ ground (arith, asks-append s.log (asked config (t ∷ texts) ∷ []))
      ]

  Asks-run_pipeline : Asks 1 (run_pipeline h)
  unfolding run_pipeline
  Asks-run_pipeline s =
      let chunked =
        Asks-bind 0 1 (lift (chunk default_options s.text)) (ask_for h s.config) (Asks-lift _)
          (Asks-ask_for s.config) in
      let validated =
        Asks-bind 0 1 (lift (validate_tts_config s.config))
          (λ _. lift (chunk default_options s.text) >>= ask_for h s.config) (Asks-lift _)
          (λ _. chunked) in
      let accepted =
        Asks-bind 0 1 (lift (reject_proxy s.options.proxy))
          (λ _.
            lift (validate_tts_config s.config)
            >> (lift (chunk default_options s.text) >>= ask_for h s.config))
          (Asks-lift _) (λ _. validated) in
      Asks-bind 0 1 (check_cancelled h)
        (λ _.
          lift (reject_proxy s.options.proxy)
          >> (lift (validate_tts_config s.config)
              >> (lift (chunk default_options s.text) >>= ask_for h s.config)))
        Asks-check_cancelled (λ _. accepted) s

  -- An event that does not ask.
  note-asks :
      (e : Event) (w : h.World) (s : SpeechSynthesizer h)
      → asks (e ∷ []) ≡ 0
      → asks (note h e w s).log ≡ asks s.log
  note-asks e w s q = omega (arith, asks-append s.log (e ∷ []))

  module _ (c : StreamCallbacks h.World) where
    report-asks :
        (e : Error) (s : SpeechSynthesizer h)
        → ((report h c e s).called ≡ s.called) × (asks (report h c e s).log ≡ asks s.log)
    unfolding report asks
    report-asks e s = elim (Option-cases c.on_error) [
      | inl q ↦ ground arith
      | inr (f, q) ↦ ground (arith, note-asks (Event.error_delivered e) (f e s.world) s)
    ]

    complete-asks :
        (s : SpeechSynthesizer h)
        → ((complete h c s).called ≡ s.called) × (asks (complete h c s).log ≡ asks s.log)
    unfolding complete asks
    complete-asks s = elim (Option-cases c.on_complete) [
      | inl q ↦ ground arith
      | inr (f, q) ↦ ground (arith, note-asks Event.completed (f s.world) s)
    ]

    deliver-asks :
        (x : TtsChunk) (s : SpeechSynthesizer h)
        → ((deliver h c x s).called ≡ s.called) × (asks (deliver h c x s).log ≡ asks s.log)
    unfolding deliver asks
    deliver-asks (audio_chunk d) s = elim (Option-cases c.on_audio) [
      | inl q ↦ ground arith
      | inr (f, q) ↦ ground (arith, note-asks (Event.audio_delivered d) (f d s.world) s)
    ]
    deliver-asks (boundary_chunk b) s = elim (Option-cases c.on_boundary) [
      | inl q ↦ ground arith
      | inr (f, q) ↦ ground (arith, note-asks (Event.boundary_delivered b) (f b s.world) s)
    ]

    deliver_all-asks :
        (xs : List TtsChunk) (s : SpeechSynthesizer h)
        → ((deliver_all h c xs s).1.called ≡ s.called)
          × (asks (deliver_all h c xs s).1.log ≡ asks s.log)
    unfolding deliver_all
    deliver_all-asks [] s = grind (arith, report-asks, complete-asks)
    deliver_all-asks (x ∷ xs) s =
        let s' = record s { world = (h.is_cancelled s.world).1 } in
        ground (
          arith,
          report-asks was_cancelled s',
          deliver-asks x s',
          deliver_all-asks xs (deliver h c x s'),
        )

    Asks-stream : Asks 1 (stream h c)
    unfolding stream deliver_result
    Asks-stream s r s' e = elim (Option-cases (run_pipeline h s)) [
      | inl q ↦ grind arith
      | inr ((ok xs, s1), q) ↦
          ground (arith, Asks-run_pipeline s (ok xs) s1 q, deliver_all-asks xs s1)
      | inr ((fail x, s1), q) ↦ ground (arith, Asks-run_pipeline s (fail x) s1 q, report-asks x s1)
    ]

  Asks-write :
      (writer : Bytes → Bytes → h.World → Result (Unit {0}) × h.World) (path content : Bytes)
      → Asks 0 (write h writer path content)
  unfolding write asks
  Asks-write writer path content s r s' e =
      ground (arith, note-asks (Event.file_written path content) (writer path content s.world).1 s)

  Asks-write_subtitles :
      (path : Option Bytes) (b : SubtitleBuilder) → Asks 0 (write_subtitles h path b)
  unfolding write_subtitles
  Asks-write_subtitles none b = Asks-lift (ok tt)
  Asks-write_subtitles (some path) b =
      Asks-bind 0 0 (lift (to_srt b)) (write h (write_text_utf8 h) path) (Asks-lift _)
        (Asks-write (write_text_utf8 h) path)

  module _ (media_path : Bytes) (subtitles_path : Option Bytes) where
    Asks-save_chunks : (xs : List TtsChunk) → Asks 0 (save_chunks h media_path subtitles_path xs)
    unfolding save_chunks
    Asks-save_chunks xs =
        Asks-bind 0 0 (lift (gather xs [] empty_builder))
          (λ g. write h (write_binary h) media_path g.0 >> write_subtitles h subtitles_path g.1)
          (Asks-lift _)
          (λ g.
            Asks-bind 0 0 (write h (write_binary h) media_path g.0)
              (λ _. write_subtitles h subtitles_path g.1)
              (Asks-write (write_binary h) media_path g.0)
              (λ _. Asks-write_subtitles subtitles_path g.1))

    Asks-save : Asks 1 (run_pipeline h >>= save_chunks h media_path subtitles_path)
    Asks-save =
        Asks-bind 1 0 (run_pipeline h) (save_chunks h media_path subtitles_path) Asks-run_pipeline
          Asks-save_chunks

  -- What an operation may still ask, after which it has been called.
  abbrev allowance : Bool → ℕ
  allowance called = if called then 0 else 1

  abbrev IsOnce : {A : Type 0} → M h A → Type 0
  IsOnce {A} m =
      (s : SpeechSynthesizer h) (r : Result A) (s' : SpeechSynthesizer h)
      → m s ≡ some (r, s')
      → (s'.called ≡ true)
        × (asks s'.log ≤ asks s.log + allowance s.called)
        × (s.called ≡ true → (s' ≡ s) × (r ≡ fail already_called))

  IsOnce-once : {A : Type 0} (m : M h A) → Asks 1 m → IsOnce (once h m)
  unfolding once
  IsOnce-once m a s r s' e = elim (Bool-cases s.called) [
    | inl q ↦ ground arith
    | inr q ↦ ground (arith, a (record s { called = true }) r s')
  ]

  IsOnce-perform : (op : Operation) → IsOnce (perform op)
  unfolding perform synthesize synthesize_stream save
  IsOnce-perform synthesizing s r s' e = elim (Option-cases (once h (run_pipeline h) s)) [
    | inl q ↦ grind arith
    | inr ((x, s1), q) ↦ ground (arith, IsOnce-once (run_pipeline h) Asks-run_pipeline s x s1 q)
  ]
  IsOnce-perform (streaming c) s r s' e = IsOnce-once (stream h c) (Asks-stream c) s r s' e
  IsOnce-perform (saving m p) s r s' e =
      IsOnce-once (run_pipeline h >>= save_chunks h m p) (Asks-save m p) s r s' e

  asks-perform_all :
      (ops : List Operation) (s s' : SpeechSynthesizer h)
      → perform_all ops s ≡ some s'
      → asks s'.log ≤ asks s.log + allowance s.called
  unfolding perform_all
  asks-perform_all [] s s' e = ground arith
  asks-perform_all (op ∷ ops) s s' e = elim (Option-cases (perform op s)) [
    | inl q ↦ grind arith
    | inr ((x, s1), q) ↦ ground (arith, IsOnce-perform op s x s1 q, asks-perform_all ops s1 s')
  ]

-- However many operations are called on a new object, in whatever order and whatever each of them
-- returns, the backend is asked at most once.
pub asks_once :
    (h : Host) (text : Bytes) (config : TtsConfig) (options : SynthesisOptions) (w : h.World)
    (ops : List (Operation h)) (s' : SpeechSynthesizer h)
    → perform_all h ops (construct h text config options w) ≡ some s'
    → asks s'.log ≤ 1
unfolding asks
asks_once h text config options w ops s' e =
    omega (arith, asks-perform_all h ops (construct h text config options w) s' e)

-- After an operation that has returned, with a result or with an error, each further operation
-- returns the error invalid_state and leaves the object, its log and the world as they were.
pub perform-perform :
    (h : Host) (first next : Operation h) (s s1 s2 : SpeechSynthesizer h)
    (r1 r2 : Result (Unit {0}))
    → perform h first s ≡ some (r1, s1)
    → perform h next s1 ≡ some (r2, s2)
    → (s2 ≡ s1) × (r2 ≡ fail already_called)
perform-perform h first next s s1 s2 r1 r2 e e' =
    (IsOnce-perform h next s1 r2 s2 e').2 (IsOnce-perform h first s r1 s1 e).0
