-- ===== src/Communication/Session/Invariants.antt =====
-- SynthesisSession.cpp: what each call on the socket and on the world keeps, a session keeps.
use mathlib.Core.Path.{subst}
use edge_tts_cpp.Base.{
  ℕ, zero, suc, ◌+◌, Bool, true, false, Option, none, some, List, [], ◌∷◌, ◌++◌, Bytes, ℤ, pos,
  ◌+ℤ◌, ◌≡◌, arith, ◌⊎◌, Option-cases, Bool-cases, inl, inr, if◌then◌else◌,
}
use edge_tts_cpp.Common.Error.{Error, Result, ok, fail, Result-cases, has_context}
use edge_tts_cpp.Communication.Config.{EdgeServiceConfig, should_retry}
use edge_tts_cpp.Communication.Effect.{◌>>=◌, lift}
use edge_tts_cpp.Communication.HttpDate.{parse_http_date}
use edge_tts_cpp.Communication.Outgoing.{
  ConnectionMetadata, create_for_request, build_speech_config_frame, build_ssml_frame,
}
use edge_tts_cpp.Communication.Incoming.{parse_incoming}
use edge_tts_cpp.Communication.Platform.{Float, Environment}
use edge_tts_cpp.Communication.Session.{
  Received, Call, opened, refused, sent, received, closed, SessionState, M, check_cancelled,
  calendar, random, send_call, receive_call, connect_call, close_call, seconds, token, correct_skew,
  receive_loop, run_one_chunk, run_and_close, with_connection, attempts, attempt_url,
  synthesize_from, synthesize, handle_messages, nothing_received, require_audio,
}
use edge_tts_cpp.Communication.Session.Sockets.{bind-cases}
use edge_tts_cpp.Core.TtsConfig.{TtsConfig}
use edge_tts_cpp.Serialization.SsmlBuilder.{build_from_escaped_text}
use edge_tts_cpp.Serialization.Json.{JsonLibrary}

-- A predicate on the world and the log that each single call keeps.
pub record Invariant (f : Float) (env : Environment f) : Type 1 where
  pub Holds : env.World → List Call → Type 0
  pub opens :
      (url : Bytes) (w : env.World) (log : List Call)
      → Holds w log
      → (env.connect url w).0 ≡ ok tt
      → Holds (env.connect url w).1 (log ++ opened url ∷ [])
  pub refuses :
      (url : Bytes) (w : env.World) (log : List Call) (e : Error)
      → Holds w log
      → (env.connect url w).0 ≡ fail e
      → Holds (env.connect url w).1 (log ++ refused url ∷ [])
  pub sends :
      (frame : Bytes) (w : env.World) (log : List Call)
      → Holds w log
      → Holds (env.send_text frame w).1 (log ++ sent frame ∷ [])
  pub receives :
      (w : env.World) (log : List Call)
      → Holds w log
      → Holds (env.receive w).1 (log ++ received ∷ [])
  pub closes :
      (w : env.World) (log : List Call) → Holds w log → Holds (env.close w) (log ++ closed ∷ [])
  pub draws : (w : env.World) (log : List Call) → Holds w log → Holds (env.random_bytes w).1 log
  pub counts : (w : env.World) (log : List Call) → Holds w log → Holds (env.now_seconds w).1 log
  pub dates : (w : env.World) (log : List Call) → Holds w log → Holds (env.now_calendar w).1 log

module _ (f : Float) (env : Environment f) (I : Invariant f env) where
  abbrev pub In : SessionState f env → Type 0
  In s = I.Holds s.world s.log

  -- A step that keeps the invariant, whatever it returns.
  abbrev pub Keeps : {A : Type 0} → M f env A → Type 0
  Keeps {A} m =
      (s : SessionState f env) (r : Result A) (s' : SessionState f env)
      → In s
      → m s ≡ some (r, s')
      → In s'

  Keeps-bind :
      {A B : Type 0} (m : M f env A) (k : A → M f env B)
      → Keeps m
      → ((a : A) → Keeps (k a))
      → Keeps (m >>= k)
  Keeps-bind m k hm hk s r s' h e = elim (bind-cases m k s r s' e) [
    | inl (x, e1) ↦ hm s (fail x) s' h e1
    | inr (a, s1, e1, e2) ↦ hk a s1 r s' (hm s (ok a) s1 h e1) e2
  ]

  -- A step that always returns one state.
  Keeps-at :
      {A : Type 0} (s s1 s' : SessionState f env) (r r1 : Result A)
      → In s1
      → ◌≡◌ {A = Option (Result A × SessionState f env)} (some (r1, s1)) (some (r, s'))
      → In s'
  Keeps-at s s1 s' r r1 h e = let same : s1 ≡ s' = ground arith in subst In same h

  Keeps-lift : {A : Type 0} (r : Result A) → Keeps (lift r)
  Keeps-lift r s r1 s' h e = Keeps-at s s s' r1 r h e

  Keeps-check : Keeps (check_cancelled f env)
  unfolding check_cancelled
  Keeps-check s r s' h e = Keeps-at s s s' r _ h e

  Keeps-receive : Keeps (receive_call f env)
  unfolding receive_call
  Keeps-receive s r s' h e = Keeps-at s _ s' r _ (I.receives s.world s.log h) e

  Keeps-send : (frame : Bytes) → Keeps (send_call f env frame)
  unfolding send_call
  Keeps-send frame s r s' h e = Keeps-at s _ s' r _ (I.sends frame s.world s.log h) e

  Keeps-calendar : Keeps (calendar f env)
  unfolding calendar
  Keeps-calendar s r s' h e = Keeps-at s _ s' r _ (I.dates s.world s.log h) e

  Keeps-random : Keeps (random f env)
  unfolding random
  Keeps-random s r s' h e = Keeps-at s _ s' r _ (I.draws s.world s.log h) e

  Keeps-token : (service : EdgeServiceConfig) → Keeps (token f env service)
  unfolding token seconds
  Keeps-token service s r s' h e = Keeps-at s _ s' r _ (I.counts s.world s.log h) e

  In-correct_skew : (e : Error) (s : SessionState f env) → In s → In (correct_skew f env e s)
  unfolding correct_skew
  In-correct_skew e s h =
      elim (Option-cases (if has_context e then parse_http_date e.context else none)) [
        | inl q ↦ rw (q, correct_skew) h
        | inr (ts, q) ↦ rw (q, correct_skew) (I.counts s.world s.log h)
      ]

  connect_call-cases :
      (url : Bytes) (s : SessionState f env)
      → In s
      → (((connect_call f env url s).0 ≡ ok tt)
          ⊎ ((e : Error) × ((connect_call f env url s).0 ≡ fail e)))
        × In (connect_call f env url s).1
  unfolding connect_call
  connect_call-cases url s h = elim (Result-cases (env.connect url s.world).0) [
    | inl (u, q) ↦ (inl q, rw (q, connect_call) (I.opens url s.world s.log h q))
    | inr (x, q) ↦ (inr (x, q), rw (q, connect_call) (I.refuses url s.world s.log x h q))
  ]

  -- The end of a loop's round.
  Keeps-or :
      {A : Type 0} (done : Bool) (a : A) (again : M f env A)
      → Keeps again
      → Keeps (λ s. elim done [ true ↦ some (ok a, s) | false ↦ again s ])
  Keeps-or true a again k s r s' h e = Keeps-at s s s' r (ok a) h e
  Keeps-or false a again k s r s' h e = k s r s' h e

  module _ (J : JsonLibrary) where
    Keeps-receive_loop : (fuel : ℕ) (by : ℤ) (r : Received) → Keeps (receive_loop f env J fuel by r)
    unfolding receive_loop
    Keeps-receive_loop zero by r = λ s r1 s' h e. grind arith
    Keeps-receive_loop (suc fuel) by r = Keeps-bind (check_cancelled f env) _ Keeps-check λ _.
        Keeps-bind (receive_call f env) _ Keeps-receive λ message.
          Keeps-bind (lift (parse_incoming J message)) _ (Keeps-lift _) λ messages.
            let p = handle_messages by messages r in
            Keeps-or p.1 p.0 (receive_loop f env J fuel by p.0) (Keeps-receive_loop fuel by p.0)

    Keeps-run_one_chunk :
        (fuel : ℕ) (config : TtsConfig) (text : Bytes) (metadata : ConnectionMetadata) (by : ℤ)
        → Keeps (run_one_chunk f env J fuel config text metadata by)
    unfolding run_one_chunk
    Keeps-run_one_chunk fuel config text metadata by =
        Keeps-bind (calendar f env) _ Keeps-calendar λ now.
          Keeps-bind (lift (build_speech_config_frame now config)) _ (Keeps-lift _) λ speech_cfg.
            Keeps-bind (send_call f env speech_cfg) _ (Keeps-send speech_cfg) λ _.
              Keeps-bind (lift (build_from_escaped_text config text)) _ (Keeps-lift _) λ ssml.
                Keeps-bind (calendar f env) _ Keeps-calendar λ later.
                  Keeps-bind (send_call f env (build_ssml_frame later ssml metadata)) _
                    (Keeps-send (build_ssml_frame later ssml metadata))
                    λ _.
                      Keeps-bind (receive_loop f env J fuel by nothing_received) _
                        (Keeps-receive_loop fuel by nothing_received)
                        λ r. Keeps-lift (require_audio r)

    Keeps-run_and_close :
        (fuel : ℕ) (config : TtsConfig) (text : Bytes) (metadata : ConnectionMetadata) (by : ℤ)
        → Keeps (run_and_close f env J fuel config text metadata by)
    unfolding run_and_close close_call
    Keeps-run_and_close fuel config text metadata by s r s' h e =
        elim (Option-cases (run_one_chunk f env J fuel config text metadata by s)) [
          | inl n ↦ grind arith
          | inr ((r1, s1), n) ↦
              let k = Keeps-run_one_chunk fuel config text metadata by s r1 s1 h n in
              Keeps-at s _ s' r r1 (I.closes s1.world s1.log k) (rw (n, run_and_close) at e)
        ]

    Keeps-with_connection :
        (max_retries attempt : ℕ) (url : Bytes) (use_socket retry : M f env Received)
        → Keeps use_socket
        → Keeps retry
        → Keeps (with_connection f env J max_retries attempt url use_socket retry)
    unfolding with_connection
    Keeps-with_connection max_retries attempt url use_socket retry hu hr s r s' h e =
        let (o, k) = connect_call-cases url s h in
        let s1 = (connect_call f env url s).1 in
        elim o [
          | inl c ↦ hu s1 r s' k (rw (c, with_connection) at e)
          | inr (x, c) ↦ elim (Bool-cases (should_retry max_retries x attempt)) [
            | inl t ↦
                hr (correct_skew f env x s1) r s' (In-correct_skew x s1 k)
                  (rw t at rw (c, with_connection) at e)
            | inr t ↦ Keeps-at s s1 s' r (fail x) k (rw t at rw (c, with_connection) at e)
          ]
        ]

    Keeps-attempts :
        (rounds max_retries : ℕ) (service : EdgeServiceConfig) (fuel : ℕ) (config : TtsConfig)
        (text : Bytes) (by : ℤ) (attempt : ℕ)
        → Keeps (attempts f env J rounds max_retries service fuel config text by attempt)
    unfolding attempts
    Keeps-attempts zero max_retries service fuel config text by attempt = λ s r s' h e. grind arith
    Keeps-attempts (suc rounds) max_retries service fuel config text by attempt =
        Keeps-bind (random f env) _ Keeps-random λ first.
          Keeps-bind (random f env) _ Keeps-random λ second.
            Keeps-bind (token f env service) _ (Keeps-token service) λ gec.
              Keeps-with_connection max_retries attempt
                (attempt_url f env J service (create_for_request first second) gec)
                (run_and_close f env J fuel config text (create_for_request first second) by)
                (attempts f env J rounds max_retries service fuel config text by (attempt + 1))
                (Keeps-run_and_close fuel config text (create_for_request first second) by)
                (Keeps-attempts rounds max_retries service fuel config text by (attempt + 1))

    Keeps-synthesize_from :
        (max_retries : ℕ) (service : EdgeServiceConfig) (fuel : ℕ) (config : TtsConfig) (by : ℤ)
        (texts : List Bytes)
        → Keeps (synthesize_from f env J max_retries service fuel config by texts)
    unfolding synthesize_from
    Keeps-synthesize_from max_retries service fuel config by [] = Keeps-lift (ok [])
    Keeps-synthesize_from max_retries service fuel config by (text ∷ texts) =
        Keeps-bind (check_cancelled f env) _ Keeps-check λ _.
          Keeps-bind (attempts f env J (suc max_retries) max_retries service fuel config text by 0)
            _ (Keeps-attempts (suc max_retries) max_retries service fuel config text by 0)
            λ r.
              Keeps-bind
                (synthesize_from f env J max_retries service fuel config (by +ℤ r.boundary_end)
                  texts)
                _
                (Keeps-synthesize_from max_retries service fuel config (by +ℤ r.boundary_end) texts)
                λ rest. Keeps-lift (ok (r.chunks ++ rest))

    pub Keeps-synthesize :
        (max_retries : ℕ) (service : EdgeServiceConfig) (fuel : ℕ) (config : TtsConfig)
        (texts : List Bytes)
        → Keeps (synthesize f env J max_retries service fuel config texts)
    unfolding synthesize
    Keeps-synthesize max_retries service fuel config texts =
        Keeps-synthesize_from max_retries service fuel config (pos 0) texts
