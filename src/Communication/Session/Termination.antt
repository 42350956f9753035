-- ===== src/Communication/Session/Termination.antt =====
-- SynthesisSession.cpp: the loops end when the transport delivers finitely many messages on a socket.
use edge_tts_cpp.Base.{
  ℕ, zero, suc, ◌+◌, ◌<◌, ◌≤◌, true, false, Option, some, List, [], ◌∷◌, ◌++◌, Bytes, ℤ, pos, ◌+ℤ◌,
  ◌≡◌, refl, ap, ◌∙◌, arith, Bool-cases, inl, inr,
}
use edge_tts_cpp.Common.Error.{Error, Result, ok, fail, Result-cases}
use edge_tts_cpp.Communication.Config.{EdgeServiceConfig, should_retry}
use edge_tts_cpp.Communication.Effect.{◌>>=◌, lift}
use edge_tts_cpp.Communication.Incoming.{parse_incoming}
use edge_tts_cpp.Communication.Outgoing.{
  ConnectionMetadata, create_for_request, build_speech_config_frame, build_ssml_frame,
}
use edge_tts_cpp.Communication.Platform.{Float, Environment, WebSocketMessage}
use edge_tts_cpp.Communication.Session.{
  Received, received, SessionState, M, check_cancelled, calendar, random, send_call, receive_call,
  connect_call, close_call, seconds, token, correct_skew, receive_loop, run_one_chunk,
  run_and_close, with_connection, attempts, attempt_url, synthesize_from, synthesize,
  handle_messages, nothing_received, require_audio,
}
use edge_tts_cpp.Core.Chunk.{TtsChunk}
use edge_tts_cpp.Core.TtsConfig.{TtsConfig}
use edge_tts_cpp.Serialization.SsmlBuilder.{build_from_escaped_text}
use edge_tts_cpp.Serialization.Json.{JsonLibrary}

-- A transport that delivers at most `limit` messages on a socket before it fails: `pending` counts
-- those that are still to come.
pub record Finite (f : Float) (env : Environment f) : Type 0 where
  pub pending : env.World → ℕ
  pub limit : ℕ
  pub connect_limits :
      (url : Bytes) (w : env.World)
      → (env.connect url w).0 ≡ ok tt
      → pending (env.connect url w).1 ≤ limit
  pub send_keeps : (frame : Bytes) (w : env.World) → pending (env.send_text frame w).1 ≤ pending w
  pub calendar_keeps : (w : env.World) → pending (env.now_calendar w).1 ≤ pending w
  pub receive_uses :
      (w : env.World) (m : WebSocketMessage)
      → (env.receive w).0 ≡ ok m
      → pending (env.receive w).1 < pending w
  pub failure_keeps :
      (w : env.World) (e : Error)
      → (env.receive w).0 ≡ fail e
      → pending (env.receive w).1 ≤ pending w

should_retry-lt :
    (max_retries : ℕ) (e : Error) (attempt : ℕ)
    → should_retry max_retries e attempt ≡ true
    → attempt < max_retries
unfolding should_retry
should_retry-lt max_retries e attempt h = ground arith

module _ (f : Float) (env : Environment f) (t : Finite f env) where
  abbrev Returns : {A : Type 0} → M f env A → SessionState f env → Type 0
  Returns {A} m s = (r : Result A) × (s' : SessionState f env) × (m s ≡ some (r, s'))

  -- From at most `n` pending messages, a step returns with at most `n`.
  abbrev Ends : {A : Type 0} → ℕ → M f env A → Type 0
  Ends {A} n m =
      (s : SessionState f env)
      → t.pending s.world ≤ n
      → (r : Result A) × (s' : SessionState f env) × (m s ≡ some (r, s')) × (t.pending s'.world ≤ n)

  Ends-bind :
      {A B : Type 0} (n : ℕ) (m : M f env A) (k : A → M f env B)
      → Ends n m
      → ((a : A) → Ends n (k a))
      → Ends n (m >>= k)
  Ends-bind {A} {B} n m k hm hk s l = go (hm s l)
    where
      go :
          (r : Result A) × (s' : SessionState f env) × (m s ≡ some (r, s'))
            × (t.pending s'.world ≤ n)
          → (r : Result B) × (s' : SessionState f env) × ((m >>= k) s ≡ some (r, s'))
            × (t.pending s'.world ≤ n)
      go (ok a, s', e, l') = let (r, s2, e2, l2) = hk a s' l' in (r, s2, rw (e, ◌>>=◌) e2, l2)
      go (fail x, s', e, l') = (fail x, s', rw (e, ◌>>=◌) refl, l')

  Returns-bind :
      {A B : Type 0} (m : M f env A) (k : A → M f env B) (s : SessionState f env)
      → Returns m s
      → ((a : A) (s' : SessionState f env) → Returns (k a) s')
      → Returns (m >>= k) s
  Returns-bind {A} {B} m k s hm hk = go hm
    where
      go : Returns m s → Returns (m >>= k) s
      go (ok a, s', e) = let (r, s2, e2) = hk a s' in (r, s2, rw (e, ◌>>=◌) e2)
      go (fail x, s', e) = (fail x, s', rw (e, ◌>>=◌) refl)

  Ends-lift : {A : Type 0} (n : ℕ) (r : Result A) → Ends n (lift r)
  Ends-lift n r s l = (r, s, refl, l)

  Ends-check : (n : ℕ) → Ends n (check_cancelled f env)
  unfolding check_cancelled
  Ends-check n s l = (_, s, refl, l)

  Ends-calendar : (n : ℕ) → Ends n (calendar f env)
  unfolding calendar
  Ends-calendar n s l = (_, _, refl, omega (arith, t.calendar_keeps s.world))

  Ends-send : (n : ℕ) (frame : Bytes) → Ends n (send_call f env frame)
  unfolding send_call
  Ends-send n frame s l = (_, _, refl, omega (arith, t.send_keeps frame s.world))

  Ends-receive :
      {B : Type 0} (n : ℕ) (k : WebSocketMessage → M f env B)
      → ((m : WebSocketMessage) (s : SessionState f env)
          → t.pending s.world < n
          → (r : Result B) × (s' : SessionState f env) × (k m s ≡ some (r, s'))
            × (t.pending s'.world ≤ n))
      → Ends n (receive_call f env >>= k)
  unfolding receive_call
  Ends-receive n k hk s l = elim (Result-cases (env.receive s.world).0) [
    | inl (m, e) ↦
        let after = record s { world = (env.receive s.world).1; log = s.log ++ received ∷ [] } in
        let (r, s2, e2, l2) = hk m after (omega (arith, t.receive_uses s.world m e)) in
        (r, s2, rw e e2, l2)
    | inr (x, e) ↦
        let after = record s { world = (env.receive s.world).1; log = s.log ++ received ∷ [] } in
        (fail x, after, rw e refl, omega (arith, t.failure_keeps s.world x e))
  ]

  module _ (J : JsonLibrary) where
    Ends-receive_loop :
        (fuel n : ℕ) (by : ℤ) (r : Received) → n < fuel → Ends n (receive_loop f env J fuel by r)
    unfolding receive_loop
    Ends-receive_loop zero n by r g = λ s l. ground arith
    Ends-receive_loop (suc fuel) n by r g =
        Ends-bind n (check_cancelled f env) _ (Ends-check n) λ _. Ends-receive n _ λ message s l.
          elim (Result-cases (parse_incoming J message)) [
            | inr (x, e) ↦ (fail x, s, rw e refl, omega arith)
            | inl (ms, e) ↦ elim (Bool-cases (handle_messages by ms r).1) [
              | inl done ↦
                  (ok (handle_messages by ms r).0, s, rw e (rw (done, ◌>>=◌) refl), omega arith)
              | inr more ↦
                  let (r2, s2, e2, l2) =
                    Ends-receive_loop fuel (t.pending s.world) by (handle_messages by ms r).0
                      (omega arith) s (omega arith) in
                  (r2, s2, rw e (rw (more, ◌>>=◌) e2), omega arith)
            ]
          ]

    Ends-run_one_chunk :
        (fuel n : ℕ) (config : TtsConfig) (text : Bytes) (metadata : ConnectionMetadata) (by : ℤ)
        → n < fuel
        → Ends n (run_one_chunk f env J fuel config text metadata by)
    unfolding run_one_chunk
    Ends-run_one_chunk fuel n config text metadata by g =
        Ends-bind n (calendar f env) _ (Ends-calendar n) λ now.
          Ends-bind n (lift (build_speech_config_frame now config)) _ (Ends-lift n _) λ speech_cfg.
            Ends-bind n (send_call f env speech_cfg) _ (Ends-send n speech_cfg) λ _.
              Ends-bind n (lift (build_from_escaped_text config text)) _ (Ends-lift n _) λ ssml.
                Ends-bind n (calendar f env) _ (Ends-calendar n) λ later.
                  Ends-bind n (send_call f env (build_ssml_frame later ssml metadata)) _
                    (Ends-send n (build_ssml_frame later ssml metadata))
                    λ _.
                      Ends-bind n (receive_loop f env J fuel by nothing_received) _
                        (Ends-receive_loop fuel n by nothing_received g)
                        λ r. Ends-lift n (require_audio r)

    Returns-run_and_close :
        (fuel : ℕ) (config : TtsConfig) (text : Bytes) (metadata : ConnectionMetadata) (by : ℤ)
        (s : SessionState f env)
        → t.pending s.world < fuel
        → Returns (run_and_close f env J fuel config text metadata by) s
    unfolding run_and_close
    Returns-run_and_close fuel config text metadata by s g =
        let (r, s', e, l) =
          Ends-run_one_chunk fuel (t.pending s.world) config text metadata by g s (omega arith) in
        (r, close_call f env s', rw (e, run_and_close) refl)

    Returns-with_connection :
        (max_retries attempt : ℕ) (url : Bytes) (use_socket retry : M f env Received)
        (s : SessionState f env)
        → ((s' : SessionState f env) → t.pending s'.world ≤ t.limit → Returns use_socket s')
        → (attempt < max_retries → (s' : SessionState f env) → Returns retry s')
        → Returns (with_connection f env J max_retries attempt url use_socket retry) s
    unfolding with_connection connect_call
    Returns-with_connection max_retries attempt url use_socket retry s hu hr =
        let s1 = (connect_call f env url s).1 in
        let next : Result (Unit {0}) → Option (Result Received × SessionState f env) = λ o. elim o [
          | ok _ ↦ use_socket s1
          | fail e ↦ elim (should_retry max_retries e attempt) [
            | true ↦ retry (correct_skew f env e s1)
            | false ↦ some (fail e, s1)
          ]
        ] in
        elim (Result-cases (connect_call f env url s).0) [
          | inl (u, c) ↦
              let (r, s', e) = hu s1 (t.connect_limits url s.world c) in (r, s', ap next c ∙ e)
          | inr (x, c) ↦ elim (Bool-cases (should_retry max_retries x attempt)) [
            | inl y ↦
                let (r, s', e) =
                  hr (should_retry-lt max_retries x attempt y) (correct_skew f env x s1) in
                (r, s', ap next c ∙ rw y e)
            | inr n ↦ (fail x, s1, ap next c ∙ rw n refl)
          ]
        ]

    Returns-attempts :
        (rounds max_retries : ℕ) (service : EdgeServiceConfig) (fuel : ℕ) (config : TtsConfig)
        (text : Bytes) (by : ℤ) (attempt : ℕ) (s : SessionState f env)
        → t.limit < fuel
        → max_retries < attempt + rounds
        → attempt ≤ max_retries
        → Returns (attempts f env J rounds max_retries service fuel config text by attempt) s
    unfolding attempts random token seconds
    Returns-attempts zero max_retries service fuel config text by attempt s g h k = ground arith
    Returns-attempts (suc rounds) max_retries service fuel config text by attempt s g h k =
        Returns-bind (random f env) _ s (_, _, refl)
          λ first s1.
            Returns-bind (random f env) _ s1 (_, _, refl)
              λ second s2.
                Returns-bind (token f env service) _ s2 (_, _, refl)
                  λ gec s3.
                    let metadata = create_for_request first second in
                    Returns-with_connection max_retries attempt
                      (attempt_url f env J service metadata gec)
                      (run_and_close f env J fuel config text metadata by)
                      (attempts f env J rounds max_retries service fuel config text by
                        (attempt + 1))
                      s3
                      (λ s' l. Returns-run_and_close fuel config text metadata by s' (omega arith))
                      (λ d s'.
                        Returns-attempts rounds max_retries service fuel config text by
                          (attempt + 1) s' g (omega arith) (omega arith))

    Returns-synthesize_from :
        (max_retries : ℕ) (service : EdgeServiceConfig) (fuel : ℕ) (config : TtsConfig) (by : ℤ)
        (texts : List Bytes) (s : SessionState f env)
        → t.limit < fuel
        → Returns (synthesize_from f env J max_retries service fuel config by texts) s
    unfolding synthesize_from check_cancelled
    Returns-synthesize_from max_retries service fuel config by [] s g = (_, s, refl)
    Returns-synthesize_from max_retries service fuel config by (text ∷ texts) s g =
        Returns-bind (check_cancelled f env) _ s (_, s, refl)
          λ _ s1.
            Returns-bind
              (attempts f env J (suc max_retries) max_retries service fuel config text by 0) _ s1
              (Returns-attempts (suc max_retries) max_retries service fuel config text by 0 s1 g
                (omega arith) (omega arith))
              λ r s2.
                Returns-bind
                  (synthesize_from f env J max_retries service fuel config (by +ℤ r.boundary_end)
                    texts)
                  _ s2
                  (Returns-synthesize_from max_retries service fuel config (by +ℤ r.boundary_end)
                    texts s2 g)
                  λ rest s3. (_, s3, refl)

-- On a transport that delivers at most `limit` messages on a socket before it fails, with fuel for
-- more than `limit` rounds of the receive loop, `synthesize` returns, with a result or with an error,
-- for every list of texts and every number of retries.
pub synthesize-returns :
    (f : Float) (env : Environment f) (t : Finite f env) (J : JsonLibrary) (max_retries : ℕ)
    (service : EdgeServiceConfig) (fuel : ℕ) (config : TtsConfig) (texts : List Bytes)
    (s : SessionState f env)
    → t.limit < fuel
    → (r : Result (List TtsChunk)) × (s' : SessionState f env) × (synthesize f env J max_retries
          service fuel config texts s
        ≡ some (r, s'))
unfolding synthesize
synthesize-returns f env t J max_retries service fuel config texts s g =
    Returns-synthesize_from f env t J max_retries service fuel config (pos 0) texts s g
