-- ===== src/Communication/Session/Retries.antt =====
-- SynthesisSession.cpp: how often a socket is opened.
use edge_tts_cpp.Base.{
  ◌*◌, ap, length, ◌∙◌, ◌≤◌, ℕ, zero, suc, ◌+◌, Option, some, List, [], ◌∷◌, ◌++◌, Bytes, ℤ, pos,
  ◌+ℤ◌, ◌≡◌, arith, Option-cases, Bool-cases, inl, inr,
}
use edge_tts_cpp.Common.Error.{Result, ok, fail}
use edge_tts_cpp.Communication.Config.{EdgeServiceConfig, should_retry}
use edge_tts_cpp.Communication.Effect.{◌>>=◌, lift}
use edge_tts_cpp.Communication.Outgoing.{
  ConnectionMetadata, create_for_request, build_speech_config_frame, build_ssml_frame,
}
use edge_tts_cpp.Communication.Incoming.{parse_incoming}
use edge_tts_cpp.Communication.Platform.{Float, Environment}
use edge_tts_cpp.Communication.Session.{
  Received, Call, opened, refused, sent, received, closed, SessionState, M, check_cancelled,
  calendar, random, send_call, receive_call, connect_call, close_call, seconds, token, correct_skew,
  receive_loop, run_one_chunk, run_and_close, with_connection, attempts, attempt_url,
  synthesize_from, synthesize, handle_messages, nothing_received, require_audio,
}
use edge_tts_cpp.Core.Chunk.{TtsChunk}
use edge_tts_cpp.Core.TtsConfig.{TtsConfig}
use edge_tts_cpp.Serialization.SsmlBuilder.{build_from_escaped_text}
use edge_tts_cpp.Serialization.Json.{JsonLibrary}
use edge_tts_cpp.Communication.Session.Sockets.{bind-cases, connect_call-cases, log-correct_skew}

-- The attempts to connect in a log.
unfoldable pub connects : List Call → ℕ
connects [] = 0
connects (opened url ∷ cs) = suc (connects cs)
connects (refused url ∷ cs) = suc (connects cs)
connects (sent frame ∷ cs) = connects cs
connects (received ∷ cs) = connects cs
connects (closed ∷ cs) = connects cs

connects-append : (xs ys : List Call) → connects (xs ++ ys) ≡ connects xs + connects ys
unfolding connects
connects-append [] ys = omega arith
connects-append (opened url ∷ cs) ys = omega (arith, connects-append cs ys)
connects-append (refused url ∷ cs) ys = omega (arith, connects-append cs ys)
connects-append (sent frame ∷ cs) ys = connects-append cs ys
connects-append (received ∷ cs) ys = connects-append cs ys
connects-append (closed ∷ cs) ys = connects-append cs ys

module _ (f : Float) (env : Environment f) where
  -- A step that connects at most `n` times, whatever it returns.
  abbrev Adds : {A : Type 0} → ℕ → M f env A → Type 0
  Adds {A} n m =
      (s : SessionState f env) (r : Result A) (s' : SessionState f env)
      → m s ≡ some (r, s')
      → connects s'.log ≤ connects s.log + n

  Adds-bind :
      {A B : Type 0} (a b n : ℕ) (m : M f env A) (k : A → M f env B)
      → Adds a m
      → ((x : A) → Adds b (k x))
      → a + b ≤ n
      → Adds n (m >>= k)
  Adds-bind a b n m k hm hk l s r s' e = elim (bind-cases m k s r s' e) [
    | inl (x, e1) ↦ omega (arith, hm s (fail x) s' e1)
    | inr (y, s1, e1, e2) ↦ omega (arith, hm s (ok y) s1 e1, hk y s1 r s' e2)
  ]

  Adds-lift : {A : Type 0} (r : Result A) → Adds 0 (lift r)
  Adds-lift r s r1 s' e = grind arith

  Adds-check : Adds 0 (check_cancelled f env)
  unfolding check_cancelled
  Adds-check s r s' e = grind arith

  Adds-receive : Adds 0 (receive_call f env)
  unfolding receive_call connects
  Adds-receive s r s' e = grind (arith, connects-append s.log (received ∷ []))

  Adds-send : (frame : Bytes) → Adds 0 (send_call f env frame)
  unfolding send_call connects
  Adds-send frame s r s' e = grind (arith, connects-append s.log (sent frame ∷ []))

  Adds-calendar : Adds 0 (calendar f env)
  unfolding calendar
  Adds-calendar s r s' e = grind arith

  Adds-random : Adds 0 (random f env)
  unfolding random
  Adds-random s r s' e = grind arith

  Adds-token : (service : EdgeServiceConfig) → Adds 0 (token f env service)
  unfolding token seconds
  Adds-token service s r s' e = grind arith

  connects-connect_call :
      (url : Bytes) (s : SessionState f env)
      → connects (connect_call f env url s).1.log ≡ suc (connects s.log)
  unfolding connects
  connects-connect_call url s = elim (connect_call-cases f env url s) [
    | inl (c, l) ↦ rw l (connects-append s.log (opened url ∷ []) ∙ omega arith)
    | inr (x, c, l) ↦ rw l (connects-append s.log (refused url ∷ []) ∙ omega arith)
  ]

  module _ (J : JsonLibrary) where
    Adds-receive_loop : (fuel : ℕ) (by : ℤ) (r : Received) → Adds 0 (receive_loop f env J fuel by r)
    unfolding receive_loop
    Adds-receive_loop zero by r = λ s r1 s' e. grind arith
    Adds-receive_loop (suc fuel) by r =
        Adds-bind 0 0 0 (check_cancelled f env) _ Adds-check
          (λ _.
            Adds-bind 0 0 0 (receive_call f env) _ Adds-receive
              (λ message.
                Adds-bind 0 0 0 (lift (parse_incoming J message)) _ (Adds-lift _)
                  (λ messages s r1 s' e.
                    let p = handle_messages by messages r in
                    elim (Bool-cases p.1) [
                      | inl t ↦ grind arith
                      | inr t ↦ Adds-receive_loop fuel by p.0 s r1 s' (rw t at e)
                    ])
                  (omega arith))
              (omega arith))
          (omega arith)

    Adds-run_one_chunk :
        (fuel : ℕ) (config : TtsConfig) (text : Bytes) (metadata : ConnectionMetadata) (by : ℤ)
        → Adds 0 (run_one_chunk f env J fuel config text metadata by)
    unfolding run_one_chunk
    Adds-run_one_chunk fuel config text metadata by =
        Adds-bind 0 0 0 (calendar f env) _ Adds-calendar
          (λ now.
            Adds-bind 0 0 0 (lift (build_speech_config_frame now config)) _ (Adds-lift _)
              (λ speech_cfg.
                Adds-bind 0 0 0 (send_call f env speech_cfg) _ (Adds-send speech_cfg)
                  (λ _.
                    Adds-bind 0 0 0 (lift (build_from_escaped_text config text)) _ (Adds-lift _)
                      (λ ssml.
                        Adds-bind 0 0 0 (calendar f env) _ Adds-calendar
                          (λ later.
                            Adds-bind 0 0 0 (send_call f env (build_ssml_frame later ssml metadata))
                              _ (Adds-send (build_ssml_frame later ssml metadata))
                              (λ _.
                                Adds-bind 0 0 0 (receive_loop f env J fuel by nothing_received) _
                                  (Adds-receive_loop fuel by nothing_received)
                                  (λ r. Adds-lift (require_audio r)) (omega arith))
                              (omega arith))
                          (omega arith))
                      (omega arith))
                  (omega arith))
              (omega arith))
          (omega arith)

    Adds-run_and_close :
        (fuel : ℕ) (config : TtsConfig) (text : Bytes) (metadata : ConnectionMetadata) (by : ℤ)
        → Adds 0 (run_and_close f env J fuel config text metadata by)
    unfolding run_and_close close_call connects
    Adds-run_and_close fuel config text metadata by s r s' e =
        elim (Option-cases (run_one_chunk f env J fuel config text metadata by s)) [
          | inl n ↦ grind arith
          | inr ((r1, s1), n) ↦
              let m = Adds-run_one_chunk fuel config text metadata by s r1 s1 n in
              grind (arith, connects-append s1.log (closed ∷ []))
        ]

    Adds-with_connection :
        (n max_retries attempt : ℕ) (url : Bytes) (use_socket retry : M f env Received)
        → Adds 0 use_socket
        → Adds n retry
        → Adds (suc n) (with_connection f env J max_retries attempt url use_socket retry)
    unfolding with_connection
    Adds-with_connection n max_retries attempt url use_socket retry hu hr s r s' e =
        let s1 = (connect_call f env url s).1 in
        let c1 = connects-connect_call url s in
        elim (connect_call-cases f env url s) [
          | inl (c, l) ↦ omega (arith, hu s1 r s' (rw (c, with_connection) at e))
          | inr (x, c, l) ↦ elim (Bool-cases (should_retry max_retries x attempt)) [
            | inl t ↦
                let skewed = correct_skew f env x s1 in
                let same = ap connects (log-correct_skew f env x s1) in
                omega (arith, hr skewed r s' (rw t at rw (c, with_connection) at e))
            | inr t ↦
                let stop : ◌≡◌ {A = Option (Result Received × SessionState f env)}
                    (some (fail x, s1)) (some (r, s')) =
                  rw t at rw (c, with_connection) at e in
                grind arith
          ]
        ]

    Adds-attempts :
        (rounds max_retries : ℕ) (service : EdgeServiceConfig) (fuel : ℕ) (config : TtsConfig)
        (text : Bytes) (by : ℤ) (attempt : ℕ)
        → Adds rounds (attempts f env J rounds max_retries service fuel config text by attempt)
    unfolding attempts
    Adds-attempts zero max_retries service fuel config text by attempt = λ s r s' e. grind arith
    Adds-attempts (suc rounds) max_retries service fuel config text by attempt =
        Adds-bind 0 (suc rounds) (suc rounds) (random f env) _ Adds-random
          (λ first.
            Adds-bind 0 (suc rounds) (suc rounds) (random f env) _ Adds-random
              (λ second.
                Adds-bind 0 (suc rounds) (suc rounds) (token f env service) _ (Adds-token service)
                  (λ gec.
                    Adds-with_connection rounds max_retries attempt
                      (attempt_url f env J service (create_for_request first second) gec)
                      (run_and_close f env J fuel config text (create_for_request first second) by)
                      (attempts f env J rounds max_retries service fuel config text by
                        (attempt + 1))
                      (Adds-run_and_close fuel config text (create_for_request first second) by)
                      (Adds-attempts rounds max_retries service fuel config text by (attempt + 1)))
                  (omega arith))
              (omega arith))
          (omega arith)

    Adds-synthesize_from :
        (max_retries : ℕ) (service : EdgeServiceConfig) (fuel : ℕ) (config : TtsConfig) (by : ℤ)
        (texts : List Bytes)
        → Adds
            (length texts * suc max_retries)
            (synthesize_from f env J max_retries service fuel config by texts)
    unfolding synthesize_from
    Adds-synthesize_from max_retries service fuel config by [] = λ s r s' e. grind arith
    Adds-synthesize_from max_retries service fuel config by (text ∷ texts) =
        let later = length texts * suc max_retries in
        let all = length (text ∷ texts) * suc max_retries in
        Adds-bind 0 all all (check_cancelled f env) _ Adds-check
          (λ _.
            Adds-bind (suc max_retries) later all
              (attempts f env J (suc max_retries) max_retries service fuel config text by 0) _
              (Adds-attempts (suc max_retries) max_retries service fuel config text by 0)
              (λ r.
                Adds-bind later 0 later
                  (synthesize_from f env J max_retries service fuel config (by +ℤ r.boundary_end)
                    texts)
                  _
                  (Adds-synthesize_from max_retries service fuel config (by +ℤ r.boundary_end)
                    texts)
                  (λ rest. Adds-lift (ok (r.chunks ++ rest))) (omega arith))
              (omega arith))
          (omega arith)

-- When `synthesize` returns, with a result or with an error, it has tried to connect at most once
-- more than `max_retries` for each text.
pub synthesize-retries :
    (f : Float) (env : Environment f) (J : JsonLibrary) (max_retries : ℕ)
    (service : EdgeServiceConfig) (fuel : ℕ) (config : TtsConfig) (texts : List Bytes)
    (s : SessionState f env) (r : Result (List TtsChunk)) (s' : SessionState f env)
    → synthesize f env J max_retries service fuel config texts s ≡ some (r, s')
    → connects s'.log ≤ connects s.log + length texts * suc max_retries
unfolding synthesize
synthesize-retries f env J max_retries service fuel config texts s r s' e =
    Adds-synthesize_from f env J max_retries service fuel config (pos 0) texts s r s' e
