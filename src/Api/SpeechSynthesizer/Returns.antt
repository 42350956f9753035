-- ===== src/Api/SpeechSynthesizer/Returns.antt =====
-- SpeechSynthesizer.cpp: every operation returns where the backend does.
use edge_tts_cpp.Base.{
  true, Option, none, some, List, [], ◌∷◌, Bytes, ◌≡◌, refl, arith, Bool-cases, inl, inr,
}
use edge_tts_cpp.Api.FileWriter.{write_binary, write_text_utf8}
use edge_tts_cpp.Api.Host.{Host}
use edge_tts_cpp.Api.SpeechSynthesizer.{
  asked, file_written, note, already_called, SpeechSynthesizer, M, once, reject_proxy,
  check_cancelled, ask, ask_for, run_pipeline, gather, stream, deliver_result, write,
  write_subtitles, save_chunks, synthesize, synthesize_stream, save,
}
use edge_tts_cpp.Api.SpeechSynthesizer.Once.{Operation, synthesizing, streaming, saving, perform}
use edge_tts_cpp.Common.Error.{Result, ok, fail, Result-cases}
use edge_tts_cpp.Communication.Effect.{◌>>=◌, lift}
use edge_tts_cpp.Core.Chunk.{TtsChunk}
use edge_tts_cpp.Core.TtsConfig.{TtsConfig, validate_tts_config}
use edge_tts_cpp.Serialization.TextChunker.{chunk, default_options}
use edge_tts_cpp.Subtitle.Builder.{SubtitleBuilder, empty_builder, to_srt}

module _ (h : Host)
    (answers : (config : TtsConfig) (texts : List Bytes) (w : h.World)
      → (r : Result (List TtsChunk)) × (w' : h.World) × (h.synthesizer config texts w
          ≡ some (r, w'))) where
  abbrev Returns : {A : Type 0} → M h A → Type 0
  Returns {A} m =
      (s : SpeechSynthesizer h) → (r : Result A) × (s' : SpeechSynthesizer h) × (m s ≡ some (r, s'))

  Returns-bind :
      {A B : Type 0} (m : M h A) (g : A → M h B)
      → Returns m
      → ((a : A) → Returns (g a))
      → Returns (m >>= g)
  Returns-bind m g hm hg s = continue (hm s)
    where
      continue :
          (r : Result _) × (s' : SpeechSynthesizer h) × (m s ≡ some (r, s'))
          → (r : Result _) × (s' : SpeechSynthesizer h) × ((m >>= g) s ≡ some (r, s'))
      continue (ok a, s', e) = let (r, s2, e2) = hg a s' in (r, s2, ground arith)
      continue (fail x, s', e) = (fail x, s', ground arith)

  Returns-lift : {A : Type 0} (r : Result A) → Returns (lift r)
  Returns-lift r s = (r, s, refl)

  Returns-ask_for : (config : TtsConfig) (texts : List Bytes) → Returns (ask_for h config texts)
  unfolding ask_for ask
  Returns-ask_for config [] s = (ok [], s, refl)
  Returns-ask_for config (t ∷ texts) s =
      let (r, w, e) = answers config (t ∷ texts) s.world in
      (r, note h (asked config (t ∷ texts)) w s, rw (e, ask) refl)

  pub Returns-run_pipeline : Returns (run_pipeline h)
  unfolding run_pipeline check_cancelled
  Returns-run_pipeline s =
      Returns-bind (check_cancelled h) _ (λ s1. (_, _, refl))
        (λ _. Returns-bind (lift (reject_proxy s.options.proxy)) _ (Returns-lift _) (λ _.
          Returns-bind (lift (validate_tts_config s.config)) _ (Returns-lift _) (λ _.
            Returns-bind (lift (chunk default_options s.text)) _ (Returns-lift _)
              (Returns-ask_for s.config))))
        s

  pub Returns-once : {A : Type 0} (m : M h A) → Returns m → Returns (once h m)
  unfolding once
  Returns-once m k s = elim (Bool-cases s.called) [
    | inl q ↦ (fail already_called, s, ground arith)
    | inr q ↦ let (r, s', e) = k (record s { called = true }) in (r, s', rw (q, once) e)
  ]

  Returns-write :
      (writer : Bytes → Bytes → h.World → Result (Unit {0}) × h.World) (path content : Bytes)
      → Returns (write h writer path content)
  unfolding write
  Returns-write writer path content s = elim (Result-cases (writer path content s.world).0) [
    | inl (u, q) ↦ (
      ok tt,
      note h (file_written path content) (writer path content s.world).1 s,
      rw (q, write) refl,
    )
    | inr (x, q) ↦
        (fail x, record s { world = (writer path content s.world).1 }, rw (q, write) refl)
  ]

  Returns-write_subtitles :
      (path : Option Bytes) (b : SubtitleBuilder) → Returns (write_subtitles h path b)
  unfolding write_subtitles
  Returns-write_subtitles none b = Returns-lift (ok tt)
  Returns-write_subtitles (some path) b =
      Returns-bind (lift (to_srt b)) _ (Returns-lift _) (Returns-write (write_text_utf8 h) path)

  Returns-save_chunks :
      (media_path : Bytes) (subtitles_path : Option Bytes) (xs : List TtsChunk)
      → Returns (save_chunks h media_path subtitles_path xs)
  unfolding save_chunks
  Returns-save_chunks media_path subtitles_path xs =
      Returns-bind (lift (gather xs [] empty_builder)) _ (Returns-lift _) λ g.
        Returns-bind (write h (write_binary h) media_path g.0) _
          (Returns-write (write_binary h) media_path g.0)
          λ _. Returns-write_subtitles subtitles_path g.1

  pub Returns-perform : (op : Operation h) → Returns (perform h op)
  unfolding perform synthesize synthesize_stream save stream
  Returns-perform synthesizing s =
      Returns-bind (once h (run_pipeline h)) _ (Returns-once (run_pipeline h) Returns-run_pipeline)
        (λ xs. Returns-lift (ok tt)) s
  Returns-perform (streaming c) s =
      Returns-once (stream h c)
        (λ s1.
          let (r, s2, e) = Returns-run_pipeline s1 in
          ((deliver_result h c r s2).0, (deliver_result h c r s2).1, rw (e, stream) refl))
        s
  Returns-perform (saving m p) s =
      Returns-once (run_pipeline h >>= save_chunks h m p)
        (Returns-bind (run_pipeline h) _ Returns-run_pipeline (Returns-save_chunks m p)) s
