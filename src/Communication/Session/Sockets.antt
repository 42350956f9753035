-- ===== src/Communication/Session/Sockets.antt =====
-- SynthesisSession.cpp: the order of the calls on the socket, and what a receive loop needs to end.
use edge_tts_cpp.Base.{
  ℕ, zero, suc, ◌+◌, Bool, true, false, Option, none, some, List, [], ◌∷◌, ◌++◌, Bytes, ℤ, pos,
  ◌+ℤ◌, ◌≡◌, refl, ◌∙◌, arith, ◌⊎◌, Option-cases, Bool-cases, inl, inr,
}
use edge_tts_cpp.Common.Error.{Error, Result, ok, fail}
use edge_tts_cpp.Communication.Config.{EdgeServiceConfig, should_retry}
use edge_tts_cpp.Communication.Effect.{Step, ◌>>=◌, lift}
use edge_tts_cpp.Communication.Outgoing.{
  ConnectionMetadata, create_for_request, build_speech_config_frame, build_ssml_frame,
}
use edge_tts_cpp.Communication.Incoming.{parse_incoming}
use edge_tts_cpp.Communication.Platform.{Float, Environment}
use edge_tts_cpp.Communication.Session.{
  Received, Call, opened, refused, sent, received, closed, SessionState, M, check_cancelled,
  calendar, random, send_call, receive_call, connect_call, close_call, seconds, token, correct_skew,
  receive_loop, run_one_chunk, run_and_close, with_connection, attempts, attempt_url,
  synthesize_from, synthesize, handle_messages, nothing_received, require_audio,
}
use edge_tts_cpp.Core.Chunk.{TtsChunk}
use edge_tts_cpp.Core.TtsConfig.{TtsConfig}
use edge_tts_cpp.Serialization.SsmlBuilder.{build_from_escaped_text}
use edge_tts_cpp.Serialization.Json.{JsonLibrary}

-- One call, with the socket open or not; `none` is a call out of order.
unfoldable pub next : Bool → Call → Option Bool
next false (opened url) = some true
next false (refused url) = some false
next true (sent frame) = some true
next true received = some true
next true closed = some false
next false (sent frame) = none
next false received = none
next false closed = none
next true (opened url) = none
next true (refused url) = none

-- The calls of a log in their order, from a socket that is open or not.
unfoldable pub follow : Bool → List Call → Option Bool
unfolding next
follow b [] = some b
follow b (c ∷ cs) = elim (next b c) [ none ↦ none | some b' ↦ follow b' cs ]

follow-append :
    (b b' : Bool) (xs ys : List Call) → follow b xs ≡ some b' → follow b (xs ++ ys) ≡ follow b' ys
unfolding follow
follow-append b b' [] ys h = grind arith
follow-append b b' (x ∷ xs) ys h = elim (Option-cases (next b x)) [
  | inl e ↦ grind arith
  | inr (c, e) ↦ grind (arith, follow-append c b' xs ys)
]

-- One more call.
follow-call :
    (b b' c : Bool) (xs : List Call) (x : Call)
    → follow b xs ≡ some b'
    → next b' x ≡ some c
    → follow b (xs ++ x ∷ []) ≡ some c
unfolding follow
follow-call b b' c xs x h e = follow-append b b' xs (x ∷ []) h ∙ rw (e, follow) refl

-- How a sequence of two steps returned.
pub bind-cases :
    {S : Type 0} {A B : Type 0} (m : Step S A) (k : A → Step S B) (s : S) (r : Result B) (s' : S)
    → (m >>= k) s ≡ some (r, s')
    → ((e : Error) × (m s ≡ some (fail e, s')))
      ⊎ ((a : A) × (s1 : S) × (m s ≡ some (ok a, s1)) × (k a s1 ≡ some (r, s')))
bind-cases {S} {A} {B} m k s r s' h = go (m s) refl h
  where
    go :
        (o : Option (Result A × S))
        → m s ≡ o
        → ((λ (t : S). o) >>= k) s ≡ some (r, s')
        → ((e : Error) × (m s ≡ some (fail e, s')))
          ⊎ ((a : A) × (s1 : S) × (m s ≡ some (ok a, s1)) × (k a s1 ≡ some (r, s')))
    go none e h = grind arith
    go (some (ok a, s1)) e h = inr (a, s1, e, h)
    go (some (fail x, s1)) e h = inl (x, grind arith)

module _ (f : Float) (env : Environment f) where
  -- A step that takes a socket in the state `b` to the state `b'`, whatever it returns.
  abbrev Moves : {A : Type 0} → Bool → Bool → M f env A → Type 0
  Moves {A} b b' m =
      (s : SessionState f env) (r : Result A) (s' : SessionState f env)
      → follow false s.log ≡ some b
      → m s ≡ some (r, s')
      → follow false s'.log ≡ some b'

  Moves-bind :
      {A B : Type 0} (b : Bool) (m : M f env A) (k : A → M f env B)
      → Moves b b m
      → ((a : A) → Moves b b (k a))
      → Moves b b (m >>= k)
  Moves-bind b m k hm hk s r s' h e = elim (bind-cases m k s r s' e) [
    | inl (x, e1) ↦ hm s (fail x) s' h e1
    | inr (a, s1, e1, e2) ↦ hk a s1 r s' (hm s (ok a) s1 h e1) e2
  ]

  Moves-lift : {A : Type 0} (b : Bool) (r0 : Result A) → Moves b b (lift r0)
  Moves-lift b r0 s r s' h e = grind arith

  Moves-check : (b : Bool) → Moves b b (check_cancelled f env)
  unfolding check_cancelled
  Moves-check b s r s' h e = grind arith

  Moves-receive : Moves true true (receive_call f env)
  unfolding receive_call next
  Moves-receive s r s' h e =
      let (r1, w) = env.receive s.world in grind (arith, follow-call false true true s.log received)

  Moves-send : (frame : Bytes) → Moves true true (send_call f env frame)
  unfolding send_call next
  Moves-send frame s r s' h e = grind (arith, follow-call false true true s.log (sent frame))

  Moves-calendar : (b : Bool) → Moves b b (calendar f env)
  unfolding calendar
  Moves-calendar b s r s' h e = grind arith

  Moves-random : (b : Bool) → Moves b b (random f env)
  unfolding random
  Moves-random b s r s' h e = grind arith

  Moves-token : (b : Bool) (service : EdgeServiceConfig) → Moves b b (token f env service)
  unfolding token seconds
  Moves-token b service s r s' h e = grind arith

  pub connect_call-cases :
      (url : Bytes) (s : SessionState f env)
      → (((connect_call f env url s).0 ≡ ok tt)
          × ((connect_call f env url s).1.log ≡ s.log ++ opened url ∷ []))
        ⊎ ((e : Error) × ((connect_call f env url s).0 ≡ fail e)
            × ((connect_call f env url s).1.log ≡ s.log ++ refused url ∷ []))
  unfolding connect_call
  connect_call-cases url s =
      elim (env.connect url s.world).0
        as (λ x.
          ((x ≡ ok tt)
            × (s.log ++ (elim x [ ok _ ↦ opened url | fail _ ↦ refused url ]) ∷ []
                ≡ s.log ++ opened url ∷ []))
          ⊎ ((e : Error) × (x ≡ fail e)
              × (s.log ++ (elim x [ ok _ ↦ opened url | fail _ ↦ refused url ]) ∷ []
                  ≡ s.log ++ refused url ∷ []))) [
                    | ok tt ↦ inl (refl, refl)
                    | fail e ↦ inr (e, refl, refl)
                  ]

  pub log-correct_skew : (e : Error) (s : SessionState f env) → (correct_skew f env e s).log ≡ s.log
  unfolding correct_skew
  log-correct_skew e s = grind arith

  module _ (J : JsonLibrary) where
    Moves-receive_loop :
        (fuel : ℕ) (by : ℤ) (r : Received) → Moves true true (receive_loop f env J fuel by r)
    unfolding receive_loop
    Moves-receive_loop zero by r = λ s r1 s' h e. grind arith
    Moves-receive_loop (suc fuel) by r =
        Moves-bind true (check_cancelled f env) _ (Moves-check true) λ _.
          Moves-bind true (receive_call f env) _ Moves-receive λ message.
            Moves-bind true (lift (parse_incoming J message)) _ (Moves-lift true _) λ messages.
              λ s r1 s' h e.
                let p = handle_messages by messages r in
                elim (Bool-cases p.1) [
                  | inl t ↦ grind arith
                  | inr t ↦ Moves-receive_loop fuel by p.0 s r1 s' h (rw t at e)
                ]

    Moves-run_one_chunk :
        (fuel : ℕ) (config : TtsConfig) (text : Bytes) (metadata : ConnectionMetadata) (by : ℤ)
        → Moves true true (run_one_chunk f env J fuel config text metadata by)
    unfolding run_one_chunk
    Moves-run_one_chunk fuel config text metadata by =
        Moves-bind true (calendar f env) _ (Moves-calendar true) λ now.
          Moves-bind true (lift (build_speech_config_frame now config)) _ (Moves-lift true _)
            λ speech_cfg.
              Moves-bind true (send_call f env speech_cfg) _ (Moves-send speech_cfg) λ _.
                Moves-bind true (lift (build_from_escaped_text config text)) _ (Moves-lift true _)
                  λ ssml. Moves-bind true (calendar f env) _ (Moves-calendar true) λ later.
                    Moves-bind true (send_call f env (build_ssml_frame later ssml metadata)) _
                      (Moves-send (build_ssml_frame later ssml metadata))
                      λ _.
                        Moves-bind true (receive_loop f env J fuel by nothing_received) _
                          (Moves-receive_loop fuel by nothing_received)
                          λ r. Moves-lift true (require_audio r)

    Moves-run_and_close :
        (fuel : ℕ) (config : TtsConfig) (text : Bytes) (metadata : ConnectionMetadata) (by : ℤ)
        → Moves true false (run_and_close f env J fuel config text metadata by)
    unfolding run_and_close close_call next
    Moves-run_and_close fuel config text metadata by s r s' h e =
        elim (Option-cases (run_one_chunk f env J fuel config text metadata by s)) [
          | inl n ↦ grind arith
          | inr ((r1, s1), n) ↦
              let m = Moves-run_one_chunk fuel config text metadata by s r1 s1 h n in
              grind (arith, follow-call false true false s1.log closed)
        ]

    Moves-with_connection :
        (max_retries attempt : ℕ) (url : Bytes) (use_socket retry : M f env Received)
        → Moves true false use_socket
        → Moves false false retry
        → Moves false false (with_connection f env J max_retries attempt url use_socket retry)
    unfolding with_connection next
    Moves-with_connection max_retries attempt url use_socket retry hu hr s r s' h e =
        elim (connect_call-cases url s) [
          | inl (c, l) ↦
              hu (connect_call f env url s).1 r s'
                (rw l (follow-call false false true s.log (opened url) h refl))
                (rw (c, with_connection) at e)
          | inr (x, c, l) ↦ elim (Bool-cases (should_retry max_retries x attempt)) [
            | inl t ↦
                hr (correct_skew f env x (connect_call f env url s).1) r s'
                  (rw (log-correct_skew x (connect_call f env url s).1)
                    (rw l (follow-call false false false s.log (refused url) h refl)))
                  (rw t at rw (c, with_connection) at e)
            | inr t ↦
                let stop : ◌≡◌ {A = Option (Result Received × SessionState f env)}
                    (some (fail x, (connect_call f env url s).1)) (some (r, s')) =
                  rw t at rw (c, with_connection) at e in
                let last = follow-call false false false s.log (refused url) h refl in grind arith
          ]
        ]

    Moves-attempts :
        (rounds max_retries : ℕ) (service : EdgeServiceConfig) (fuel : ℕ) (config : TtsConfig)
        (text : Bytes) (by : ℤ) (attempt : ℕ)
        → Moves false false
            (attempts f env J rounds max_retries service fuel config text by attempt)
    unfolding attempts
    Moves-attempts zero max_retries service fuel config text by attempt = λ s r s' h e. grind arith
    Moves-attempts (suc rounds) max_retries service fuel config text by attempt =
        Moves-bind false (random f env) _ (Moves-random false) λ first.
          Moves-bind false (random f env) _ (Moves-random false) λ second.
            Moves-bind false (token f env service) _ (Moves-token false service) λ gec.
              Moves-with_connection max_retries attempt
                (attempt_url f env J service (create_for_request first second) gec)
                (run_and_close f env J fuel config text (create_for_request first second) by)
                (attempts f env J rounds max_retries service fuel config text by (attempt + 1))
                (Moves-run_and_close fuel config text (create_for_request first second) by)
                (Moves-attempts rounds max_retries service fuel config text by (attempt + 1))

    Moves-synthesize_from :
        (max_retries : ℕ) (service : EdgeServiceConfig) (fuel : ℕ) (config : TtsConfig) (by : ℤ)
        (texts : List Bytes)
        → Moves false false (synthesize_from f env J max_retries service fuel config by texts)
    unfolding synthesize_from
    Moves-synthesize_from max_retries service fuel config by [] = Moves-lift false (ok [])
    Moves-synthesize_from max_retries service fuel config by (text ∷ texts) =
        Moves-bind false (check_cancelled f env) _ (Moves-check false) λ _.
          Moves-bind false
            (attempts f env J (suc max_retries) max_retries service fuel config text by 0) _
            (Moves-attempts (suc max_retries) max_retries service fuel config text by 0)
            λ r.
              Moves-bind false
                (synthesize_from f env J max_retries service fuel config (by +ℤ r.boundary_end)
                  texts)
                _
                (Moves-synthesize_from max_retries service fuel config (by +ℤ r.boundary_end) texts)
                λ rest. Moves-lift false (ok (r.chunks ++ rest))

-- When `synthesize` returns, with a result or with an error, the calls that it has made on the socket
-- are in order, if those before were and left it closed: a socket is opened when none is open, frames
-- are sent and received on an open socket alone, and every socket that was opened is closed once.
pub synthesize-closes :
    (f : Float) (env : Environment f) (J : JsonLibrary) (max_retries : ℕ)
    (service : EdgeServiceConfig) (fuel : ℕ) (config : TtsConfig) (texts : List Bytes)
    (s : SessionState f env) (r : Result (List TtsChunk)) (s' : SessionState f env)
    → follow false s.log ≡ some false
    → synthesize f env J max_retries service fuel config texts s ≡ some (r, s')
    → follow false s'.log ≡ some false
unfolding synthesize
synthesize-closes f env J max_retries service fuel config texts s r s' h e =
    Moves-synthesize_from f env J max_retries service fuel config (pos 0) texts s r s' h e
