-- ===== src/Api/SpeechSynthesizer/Stream.antt =====
-- SpeechSynthesizer.cpp: what `synthesize_stream` delivers to callbacks that are all given.
use edge_tts_cpp.Base.{
  ℕ, suc, ◌≤◌, true, false, some, List, [], ◌∷◌, ◌++◌, map, append_assoc, Bytes, length, take, ◌≡◌,
  refl, ap, ◌∙◌, arith, Bool-cases, inl, inr,
}
use mathlib.Core.Path.{subst}
use edge_tts_cpp.Api.Host.{Host, StreamCallbacks}
use edge_tts_cpp.Api.SpeechSynthesizer.{
  Event, audio_delivered, boundary_delivered, completed, error_delivered, SpeechSynthesizer, once,
  deliver, report, complete, deliver_all, deliver_result, stream, synthesize, synthesize_stream,
}
use edge_tts_cpp.Common.Error.{Error, Result, ok, fail}
use edge_tts_cpp.Core.Chunk.{BoundaryChunk, TtsChunk, audio_chunk, boundary_chunk}

-- The event of a chunk that is delivered.
unfoldable pub delivery : TtsChunk → Event
delivery (audio_chunk d) = audio_delivered d
delivery (boundary_chunk b) = boundary_delivered b

-- The one event that says how it ended.
unfoldable pub ending : Result (Unit {0}) → Event
ending (ok _) = completed
ending (fail e) = error_delivered e

abbrev pub all_given :
    {W : Type 0}
    → (Bytes → W → W)
    → (BoundaryChunk → W → W)
    → (W → W)
    → (Error → W → W)
    → StreamCallbacks W
all_given a b c e = record {
  on_audio = some a;
  on_boundary = some b;
  on_complete = some c;
  on_error = some e;
}

-- It ends well only behind the last of the chunks.
abbrev pub Ends : Result (Unit {0}) → ℕ → List TtsChunk → Type 0
Ends (ok _) n xs = n ≡ length xs
Ends (fail x) n xs = n ≤ length xs

-- What a stream returns and has logged, for the pipeline's result: its chunks up to the one at which
-- it ends, and the ending.
abbrev pub IsStreamed :
    Result (List TtsChunk) → List Event → Result (Unit {0}) → List Event → Type 0
IsStreamed (fail x) before r after = (r ≡ fail x) × (after ≡ before ++ error_delivered x ∷ [])
IsStreamed (ok xs) before r after =
    (n : ℕ) × (n ≤ length xs)
    × (after ≡ before ++ (map delivery (take n xs) ++ ending r ∷ []))
    × Ends r n xs

Ends-lem :
    (r : Result (Unit {0})) (n : ℕ) (xs : List TtsChunk)
    → n ≤ length xs
    → (r ≡ ok tt → n ≡ length xs)
    → Ends r n xs
Ends-lem (ok u) n xs l h = h refl
Ends-lem (fail x) n xs l h = l

module _ (h : Host) (a : Bytes → h.World → h.World) (b : BoundaryChunk → h.World → h.World)
    (c : h.World → h.World) (e : Error → h.World → h.World) where
  abbrev given : StreamCallbacks h.World
  given = all_given a b c e

  deliver-log :
      (x : TtsChunk) (s : SpeechSynthesizer h)
      → (deliver h given x s).log ≡ s.log ++ delivery x ∷ []
  unfolding deliver delivery
  deliver-log (audio_chunk d) s = refl
  deliver-log (boundary_chunk d) s = refl

  -- The log of a loop that has delivered `n` chunks.
  abbrev Delivers : List TtsChunk → SpeechSynthesizer h → ℕ → Type 0
  Delivers xs s n =
      let (r, s') = deliver_all h given xs s in
      (n ≤ length xs)
      × (s'.log ≡ s.log ++ (map delivery (take n xs) ++ ending r ∷ []))
      × (r ≡ ok tt → n ≡ length xs)

  -- How many chunks are delivered.
  delivered : List TtsChunk → SpeechSynthesizer h → ℕ
  delivered [] s = 0
  delivered (x ∷ xs) s =
      let (flag, w) = h.is_cancelled s.world in
      elim flag [
        | true ↦ 0
        | false ↦ suc (delivered xs (deliver h given x (record s { world = w })))
      ]

  Delivers-lem : (xs : List TtsChunk) (s : SpeechSynthesizer h) → Delivers xs s (delivered xs s)
  unfolding deliver_all delivered report complete ending
  Delivers-lem [] s = ground arith
  Delivers-lem (x ∷ xs) s =
      let s' = record s { world = (h.is_cancelled s.world).1 } in
      let after = deliver h given x s' in
      let (r, t) = deliver_all h given xs after in
      elim (Bool-cases (h.is_cancelled s.world).0) [
        | inl q ↦ rw (q, deliver_all, delivered) (omega arith, refl, ground arith)
        | inr q ↦
            rw (q, deliver_all, delivered)
              (
                omega (arith, (Delivers-lem xs after).0),
                (Delivers-lem xs after).1
                    ∙ ap (λ l. l ++ (map delivery (take (delivered xs after) xs) ++ ending r ∷ []))
                        (deliver-log x s')
                    ∙ append_assoc s.log (delivery x ∷ []) _,
                λ o. ap suc ((Delivers-lem xs after).2 o),
              )
      ]

  IsStreamed-lem :
      (result : Result (List TtsChunk)) (s1 : SpeechSynthesizer h)
      → IsStreamed result s1.log
          (deliver_result h given result s1).0
          (deliver_result h given result s1).1.log
  unfolding deliver_result report ending
  IsStreamed-lem (ok xs) s1 =
      let d = Delivers-lem xs s1 in
      (
        delivered xs s1,
        d.0,
        d.1,
        Ends-lem (deliver_all h given xs s1).0 (delivered xs s1) xs d.0 d.2,
      )
  IsStreamed-lem (fail x) s1 = (refl, refl)

  -- Nobody cancels: every chunk is delivered.
  module _ (free : (w : h.World) → (h.is_cancelled w).0 ≡ false) where
    deliver_all-free :
        (xs : List TtsChunk) (s : SpeechSynthesizer h) → (deliver_all h given xs s).0 ≡ ok tt
    unfolding deliver_all
    deliver_all-free [] s = ground (arith, free s.world)
    deliver_all-free (x ∷ xs) s =
        let s' = record s { world = (h.is_cancelled s.world).1 } in
        ground (arith, free s.world, deliver_all-free xs (deliver h given x s'))

    take-all : (xs : List TtsChunk) → take (length xs) xs ≡ xs
    take-all [] = refl
    take-all (x ∷ xs) = rw (take-all xs)

    Delivers-free :
        (xs : List TtsChunk) (s : SpeechSynthesizer h)
        → (deliver_all h given xs s).1.log ≡ s.log ++ (map delivery xs ++ completed ∷ [])
    unfolding ending
    Delivers-free xs s =
        let d = Delivers-lem xs s in
        let whole : delivered xs s ≡ length xs = d.2 (deliver_all-free xs s) in
        d.1
        ∙ ap (λ n. s.log ++ (map delivery (take n xs) ++ ending (deliver_all h given xs s).0 ∷ []))
            whole
        ∙ ap (λ r. s.log ++ (map delivery (take (length xs) xs) ++ ending r ∷ []))
            (deliver_all-free xs s)
        ∙ ap (λ l. s.log ++ (map delivery l ++ completed ∷ [])) (take-all xs)

stream-synthesize :
    (h : Host) (c : StreamCallbacks h.World) (s s1 : SpeechSynthesizer h)
    (result : Result (List TtsChunk))
    → s.called ≡ false
    → synthesize h s ≡ some (result, s1)
    → synthesize_stream h c s ≡ some (deliver_result h c result s1)
unfolding synthesize_stream synthesize once stream
stream-synthesize h c s s1 result fresh run = ground (arith, fresh)

-- A stream with all four callbacks, on an object not yet called, delivers the first n of the chunks
-- that `synthesize` would return there, in their order, and then exactly one ending: on_complete if
-- it returns ok, and else on_error with the error that it returns. It returns ok only if it has
-- delivered all the chunks, and where `synthesize` fails it returns that error.
pub synthesize_stream-log :
    (h : Host) (a : Bytes → h.World → h.World) (b : BoundaryChunk → h.World → h.World)
    (c : h.World → h.World) (e : Error → h.World → h.World) (s s1 s' : SpeechSynthesizer h)
    (result : Result (List TtsChunk)) (r : Result (Unit {0}))
    → s.called ≡ false
    → synthesize h s ≡ some (result, s1)
    → synthesize_stream h (all_given a b c e) s ≡ some (r, s')
    → IsStreamed result s1.log r s'.log
synthesize_stream-log h a b c e s s1 s' result r fresh run streamed =
    let p : (deliver_result h (all_given a b c e) result s1) ≡ (r, s') =
      ground (arith, stream-synthesize h (all_given a b c e) s s1 result fresh run) in
    subst (λ (q : Result (Unit {0}) × SpeechSynthesizer h). IsStreamed result s1.log q.0 q.1.log) p
      (IsStreamed-lem h a b c e result s1)

-- Where nobody cancels and `synthesize` would return the chunks, a stream with all four callbacks
-- returns ok, and has called on_audio and on_boundary for each of those chunks in order and then
-- on_complete, once, and nothing else.
pub synthesize_stream-synthesize :
    (h : Host) (a : Bytes → h.World → h.World) (b : BoundaryChunk → h.World → h.World)
    (c : h.World → h.World) (e : Error → h.World → h.World) (s s1 : SpeechSynthesizer h)
    (chunks : List TtsChunk)
    → s.called ≡ false
    → ((w : h.World) → (h.is_cancelled w).0 ≡ false)
    → synthesize h s ≡ some (ok chunks, s1)
    → (s' : SpeechSynthesizer h) × (synthesize_stream h (all_given a b c e) s ≡ some (ok tt, s'))
      × (s'.log ≡ s1.log ++ (map delivery chunks ++ completed ∷ []))
unfolding deliver_result
synthesize_stream-synthesize h a b c e s s1 chunks fresh free run =
    let (r, s') = deliver_all h (all_given a b c e) chunks s1 in
    (
      s',
      stream-synthesize h (all_given a b c e) s s1 (ok chunks) fresh run
          ∙ ap (λ r. some (r, s')) (deliver_all-free h a b c e free chunks s1),
      Delivers-free h a b c e free chunks s1,
    )
