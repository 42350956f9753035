-- ===== src/Communication/HttpClient.antt =====
-- modules/communication: HttpClient.cpp over ixwebsocket.
use edge_tts_cpp.Base.{
  ℕ, ◌+◌, ◌*◌, ◌/◌, ◌≤◌, Option, none, some, List, Bytes, lit, is_empty, ltb, if◌then◌else◌, arith,
}
use edge_tts_cpp.Common.Error.{
  Result, ok, fail, error, error_in, network_error, unsupported, timeout, invalid_argument,
}
use edge_tts_cpp.Communication.Config.{sanitize_proxy_url}
use edge_tts_cpp.Communication.VoiceService.{HttpRequest, HttpResponse}

-- `ix::HttpErrorCode`, by the branches of the switch.
pub data HttpErrorCode : Type 0 where
  success timed_out url_malformed invalid any_other : HttpErrorCode

pub record IxResponse : Type 0 where
  pub error_code : HttpErrorCode
  pub error_msg : Bytes
  pub response : HttpResponse

-- `client.get` with its two timeouts in seconds and the headers; `none` is a null response.
pub record IxHttp : Type 1 where
  pub World : Type 0
  pub get : Bytes → ℕ → ℕ → List (Bytes × Bytes) → World → Option IxResponse × World

pub record HttpClientOptions : Type 0 where
  pub timeout_ms : ℕ
  pub proxy : Option Bytes

-- `std::max(1000 ms, timeout) / 1000`.
unfoldable pub timeout_secs : HttpClientOptions → ℕ
timeout_secs options = (if ltb 1000 options.timeout_ms then options.timeout_ms else 1000) / 1000

-- The switch over the error code.
unfoldable pub response_of : Bytes → HttpErrorCode → IxResponse → Result HttpResponse
unfolding is_empty
response_of url success r = ok r.response
response_of url timed_out r = fail (error_in timeout (lit "HTTP request timed out") url)
response_of url url_malformed r = fail (error_in invalid_argument (lit "Malformed URL") url)
response_of url invalid r = fail (error_in invalid_argument (lit "Malformed URL") url)
response_of url any_other r = fail (
    error_in network_error
      (if is_empty r.error_msg then lit "HTTP transport error" else r.error_msg) url)

unfoldable pub response_or_null : Bytes → Option IxResponse → Result HttpResponse
unfolding response_of
response_or_null url none = fail (error network_error (lit "HTTP request failed: null response"))
response_or_null url (some r) = response_of url r.error_code r

unfoldable pub http_send :
    (ix : IxHttp) → HttpClientOptions → HttpRequest → ix.World → Result HttpResponse × ix.World
unfolding sanitize_proxy_url timeout_secs response_or_null
http_send ix options request w = elim options.proxy [
  | some proxy ↦ (
    fail (
        error_in unsupported
          (lit
            "HTTP proxy is not supported by the ixwebsocket networking backend; remove --proxy to proceed without a proxy")
          (sanitize_proxy_url proxy)),
    w,
  )
  | none ↦
      let secs = timeout_secs options in
      let (response, w') = ix.get request.url secs secs request.headers w in
      (response_or_null request.url response, w')
]

-- The timeout that the library is given is at least a second, and longer than the option's by less
-- than that.
pub timeout_secs-le :
    (options : HttpClientOptions)
    → (1 ≤ timeout_secs options) × (timeout_secs options * 1000 ≤ options.timeout_ms + 1000)
unfolding timeout_secs
timeout_secs-le options = ground arith
