-- ===== src/Communication/WebSocketClient/Connecting.antt =====
-- WebSocketClient.cpp: which refused connections may be retried.
use edge_tts_cpp.Base.{
  ℕ, true, none, Bytes, ◌==◌, ◌≡◌, ◌↔◌, arith, Option-cases, Bool-cases, inl, inr, ◌<◌,
}
use edge_tts_cpp.Common.Error.{Error, fail}
use edge_tts_cpp.Communication.Config.{should_retry}
use edge_tts_cpp.Communication.WebSocketClient.{
  InitResult, WebSocketClient, connect, connect_error, connect_secs,
}

-- A connection that the library refuses is retried, while attempts are left, exactly when no proxy is
-- set and the server has answered 403.
pub should_retry-connect :
    (library : Bytes → ℕ → InitResult) (url : Bytes) (c c' : WebSocketClient) (e : Error)
    (max_retries attempt : ℕ)
    → attempt < max_retries
    → connect library url c ≡ (fail e, c')
    → (should_retry max_retries e attempt ≡ true)
      ↔ ((c.proxy ≡ none) × ((library url (connect_secs c)).http_status ≡ 403))
unfolding connect connect_error should_retry
should_retry-connect library url c c' e max_retries attempt l q = elim (Option-cases c.proxy) [
  | inr (p, s) ↦ (λ r. grind arith, λ r. grind arith)
  | inl s ↦ elim (Bool-cases (library url (connect_secs c)).success) [
    | inl o ↦ grind arith
    | inr o ↦ elim (Bool-cases ((library url (connect_secs c)).http_status == 403)) [
      | inl f ↦ (λ r. (s, ground arith), λ r. ground arith)
      | inr f ↦ (λ r. grind arith, λ r. grind arith)
    ]
  ]
]
