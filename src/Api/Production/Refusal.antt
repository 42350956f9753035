-- ===== src/Api/Production/Refusal.antt =====
-- ProductionSynthesizer: what happens when the server refuses a token.
use edge_tts_cpp.Base.{
  ◌<◌, ℕ, false, true, Option, none, some, List, [], ◌∷◌, ◌++◌, ap, ◌∙◌, Bytes, pos, ◌≡◌, refl,
  arith,
}
use edge_tts_cpp.Api.Production.{Network, stack_connect, stack_environment, default_max_retries}
use edge_tts_cpp.Common.Error.{Result, ok, fail}
use edge_tts_cpp.Communication.Config.{should_retry}
use edge_tts_cpp.Communication.HttpDate.RoundTrip.{IsDayName, to_http_date}
use edge_tts_cpp.Communication.Platform.{Float}
use edge_tts_cpp.Communication.Session.{
  M, Received, refused, Call, opened, SessionState, connect_call, correct_skew, with_connection,
}
use edge_tts_cpp.Communication.Session.Skew.{correct_skew-date}
use edge_tts_cpp.Communication.WebSocketClient
use edge_tts_cpp.Communication.WebSocketClient.{WebSocketClient, InitResult, connect, connect_error}
use edge_tts_cpp.Serialization.Json.{JsonLibrary}

connect-refused :
    (library : Bytes → ℕ → InitResult) (url : Bytes) (c : WebSocketClient)
    → c.proxy ≡ none
    → (library url (WebSocketClient.connect_secs c)).success ≡ false
    → (connect library url c).0
      ≡ fail (connect_error (library url (WebSocketClient.connect_secs c)))
unfolding connect
connect-refused library url c p q = ground arith

connect_error-drm :
    (init : InitResult) (date : Bytes)
    → init.http_status ≡ 403
    → init.date ≡ some date
    → ((connect_error init).context ≡ date) × (should_retry 1 (connect_error init) 0 ≡ true)
unfolding connect_error should_retry
connect_error-drm init date p q = ground arith

module _ (f : Float) (net : Network f) where
  -- What the server answers to the handshake of a session.
  abbrev pub answer : Bytes → SessionState f (stack_environment f net) → InitResult
  answer url s =
      (net.handshake s.world.options.extra_headers url (WebSocketClient.connect_secs s.world.client)
        (net.stop s.world.world)).0

  -- What the clock shows behind the handshake.
  abbrev pub clock_after : Bytes → SessionState f (stack_environment f net) → f.Double
  clock_after url s = (net.now_seconds (stack_connect f net url s.world).1.world).0

  connect_call-refused :
      (url : Bytes) (s : SessionState f (stack_environment f net))
      → s.world.client.proxy ≡ none
      → (answer url s).success ≡ false
      → (connect_call f (stack_environment f net) url s).0 ≡ fail (connect_error (answer url s))
  unfolding connect_call stack_connect
  connect_call-refused url s p q = connect-refused (λ u secs. (answer url s)) url s.world.client p q

-- When the server refuses the first handshake with a 403 that carries a date, n seconds after the
-- epoch with n below 172,800,000,000,000 and a name of the day without a comma and a NUL, the session
-- does not use the socket. With the one retry of the default policy it tries again, with the refused
-- call in its log, and its skew is moved by what n is ahead of the clock and the skew.
pub with_connection-refused :
    (f : Float) (net : Network f) (json : JsonLibrary) (url : Bytes)
    (use_socket retry : M f (stack_environment f net) Received)
    (s : SessionState f (stack_environment f net)) (c : ℕ) (w : Bytes) (n : ℕ)
    → IsDayName (c ∷ w)
    → n < 172800000000000
    → s.world.client.proxy ≡ none
    → (answer f net url s).success ≡ false
    → (answer f net url s).http_status ≡ 403
    → (answer f net url s).date ≡ some (to_http_date (c ∷ w) n)
    → (s' : SessionState f (stack_environment f net)) × (with_connection f
          (stack_environment f net)
          json
          default_max_retries
          0
          url
          use_socket
          retry
          s
        ≡ retry s')
      × (s'.log ≡ s.log ++ refused url ∷ [])
      × (s'.skew
          ≡ f.add s.skew (f.sub (f.of_integer (pos n)) (f.add (clock_after f net url s) s.skew)))
unfolding with_connection connect_call
with_connection-refused f net json url use_socket retry s c w n h l p q status date =
    let env = stack_environment f net in
    let e = connect_error (answer f net url s) in
    let s1 = (connect_call f env url s).1 in
    let (dated, again) =
      connect_error-drm (answer f net url s) (to_http_date (c ∷ w) n) status date in
    let refusal = connect_call-refused f net url s p q in
    let next : Result (Unit {0}) → Option (Result Received × SessionState f env) = λ o. elim o [
      | ok _ ↦ use_socket s1
      | fail x ↦ elim (should_retry default_max_retries x 0) [
        | true ↦ retry (correct_skew f env x s1)
        | false ↦ some (fail x, s1)
      ]
    ] in
    let called : Result (Unit {0}) → List Call =
      λ o. s.log ++ (elim o [ ok _ ↦ opened url | fail _ ↦ refused url ]) ∷ [] in
    let (skew, log) = correct_skew-date f env e c w n s1 h l dated in
    (correct_skew f env e s1, ap next refusal ∙ rw again refl, log ∙ ap called refusal, skew)
