-- ===== src/Api/VoiceList/Codes.antt =====
-- VoiceList.cpp: what an error code means, through the whole chain from the options to the parser.
use mathlib.Core.Path.{subst}
use edge_tts_cpp.Base.{
  ◌≢◌, arith, ℕ, true, Option, none, some, List, [], Bytes, ◌≡◌, refl, Option-cases, Bool-cases,
  ◌==◌, ◌⊎◌, inl, inr,
}
use edge_tts_cpp.Api.Host.{SynthesisOptions}
use edge_tts_cpp.Api.VoiceList.{VoiceWorld, http_host, list_voices}
use edge_tts_cpp.Common.Error.{
  ErrorCode, Error, Result, ok, fail, network_error, unsupported, timeout, invalid_argument,
  service_error, parse_error, Result-cases,
}
use edge_tts_cpp.Communication.Config.{EdgeServiceConfig, default_edge_service_config}
use edge_tts_cpp.Communication.HttpClient.{
  IxHttp, IxResponse, HttpErrorCode, success, timed_out, url_malformed, invalid, any_other,
  HttpClientOptions, response_of, response_or_null, http_send, timeout_secs,
}
use edge_tts_cpp.Communication.Platform.{Float}
use edge_tts_cpp.Communication.VoiceService
use edge_tts_cpp.Communication.VoiceService.{
  HttpRequest, HttpResponse, VoiceFilter, HttpHost, ServiceState, send_request, retry_once,
  read_voices, no_filter,
}
use edge_tts_cpp.Communication.VoiceService.Requests.{Answers, Answers-retry_once, send_request-log}
use edge_tts_cpp.Core.Voice.{Voice}
use edge_tts_cpp.Serialization.Json.{JsonLibrary}
use edge_tts_cpp.Serialization.VoiceJson.{parse_voice_list}
use edge_tts_cpp.Serialization.VoiceJson.Failures.{
  is_parse_code, is_parse_code_sound, FailsIn, parse_voice_list-FailsIn,
}

-- What the code says of a response of the service that was not turned into voices.
abbrev pub ByStatus : HttpResponse → ErrorCode → Type 0
ByStatus response code =
    ((response.status_code ≢ 200) × (code ≡ service_error))
    ⊎ ((response.status_code ≡ 200) × (code ≡ parse_error))

-- What the code says of what the library has reported for a request.
abbrev pub ByReport : HttpErrorCode → HttpResponse → ErrorCode → Type 0
ByReport success response code = ByStatus response code
ByReport timed_out response code = code ≡ timeout
ByReport url_malformed response code = code ≡ invalid_argument
ByReport invalid response code = code ≡ invalid_argument
ByReport any_other response code = code ≡ network_error

abbrev pub Explains : Option IxResponse → ErrorCode → Type 0
Explains none code = code ≡ network_error
Explains (some r) code = ByReport r.error_code r.response code

-- Why reading the last response fails.
abbrev Why : Result HttpResponse → ErrorCode → Type 0
Why (fail x) code = code ≡ x.code
Why (ok response) code = ByStatus response code

read_voices-Why :
    (J : JsonLibrary) (filter : VoiceFilter) (last : Result HttpResponse) (e : Error)
    → read_voices J filter last ≡ fail e
    → Why last e.code
unfolding read_voices
read_voices-Why J filter (fail x) e h = ground arith
read_voices-Why J filter (ok response) e h = elim (Bool-cases (response.status_code == 200)) [
  | inr q ↦ inl (ground arith, ground arith)
  | inl q ↦ elim (Result-cases (parse_voice_list J response.body)) [
    | inl (vs, p) ↦ grind arith
    | inr (x, p) ↦
        let parsed : is_parse_code x.code ≡ true =
          subst (FailsIn is_parse_code) p (parse_voice_list-FailsIn J response.body) in
        let code : x.code ≡ parse_error = is_parse_code_sound x.code parsed in
        inr (ground arith, ground arith)
  ]
]

response_or_null-Explains :
    (url : Bytes) (r : Option IxResponse) (code : ErrorCode)
    → Why (response_or_null url r) code
    → Explains r code
unfolding response_or_null response_of
response_or_null-Explains url none code h = h
response_or_null-Explains url (some r) code h = by_report r.error_code h
  where
    by_report : (c : HttpErrorCode) → Why (response_of url c r) code → ByReport c r.response code
    by_report success k = k
    by_report timed_out k = k
    by_report url_malformed k = k
    by_report invalid k = k
    by_report any_other k = k

-- The response that is read was sent for a request.
module _ (f : Float) (h : HttpHost f) where
  abbrev IsSent : Result HttpResponse → Type 0
  IsSent last = (request : HttpRequest) × (w : h.World) × (last ≡ (h.send request w).0)

  retry_once-IsSent :
      (config : EdgeServiceConfig) (first : Result HttpResponse) (s : ServiceState f h)
      → IsSent first
      → IsSent (retry_once f h config first s).0
  unfolding retry_once send_request
  retry_once-IsSent config (fail e) s k = k
  retry_once-IsSent config (ok response) s k = elim (Bool-cases (response.status_code == 403)) [
    | inl q ↦ rw q (_, _, refl)
    | inr q ↦ rw q k
  ]

  -- A call that fails: the response at the end of its log, from a request that was sent, says why.
  service-Why :
      (config : EdgeServiceConfig) (J : JsonLibrary) (filter : VoiceFilter) (s : ServiceState f h)
      (e : Error)
      → (VoiceService.list_voices f h config J filter s).0 ≡ fail e
      → (last : Result HttpResponse) × Answers f h config s.log
          (VoiceService.list_voices f h config J filter s).1.log
          last
        × IsSent last
        × Why last e.code
  unfolding VoiceService.list_voices
  service-Why config J filter s e k =
      let sent = send_request f h config s in
      let (request, log) = send_request-log f h config s in
      let first : IsSent sent.0 = unfold send_request in (_, _, refl) in
      let last = (retry_once f h config sent.0 sent.1).0 in
      (
        last,
        Answers-retry_once f h config s.log request sent.0 sent.1 log,
        retry_once-IsSent config sent.0 sent.1 first,
        read_voices-Why J filter last e k,
      )

-- The run of the service behind the public `list_voices`.
abbrev pub service_run :
    (f : Float) (ix : IxHttp) (v : VoiceWorld f ix)
    → JsonLibrary
    → (timeout_ms : ℕ) → ix.World
    → Result (List Voice)
      × ServiceState f (http_host f ix v (record { timeout_ms = timeout_ms; proxy = none }))
service_run f ix v json timeout_ms w =
    VoiceService.list_voices f (http_host f ix v (record { timeout_ms = timeout_ms; proxy = none }))
      default_edge_service_config json no_filter
      (record { world = w; skew = v.zero_seconds; log = [] })

-- The options name a proxy; or the last response in the log of the requests is what the library's
-- report comes to, and the report explains the code.
abbrev pub IsExplained :
    (f : Float) (ix : IxHttp)
    → VoiceWorld f ix
    → JsonLibrary
    → SynthesisOptions
    → ix.World
    → ErrorCode
    → Type 0
IsExplained f ix v json options w code =
    ((proxy : Bytes) × (options.proxy ≡ some proxy) × (code ≡ unsupported))
    ⊎ ((options.proxy ≡ none)
        × ((last : Result HttpResponse) × (url : Bytes) × (report : Option IxResponse) × Answers f
              (http_host f ix v (record { timeout_ms = options.http_timeout; proxy = none }))
              default_edge_service_config [] (service_run f ix v json options.http_timeout w).1.log
              last
            × ((seconds : ℕ) × (headers : List (Bytes × Bytes)) × (w' : ix.World) × (report
                  ≡ (ix.get url seconds seconds headers w').0))
            × (last ≡ response_or_null url report)
            × Explains report code))

-- An error of the public `list_voices` says by its code what has happened: unsupported, that the
-- options name a proxy; and else, of the last request that it has made, timeout, that the library
-- reports one; invalid_argument, that it reports a malformed URL; network_error, that it reports
-- another error or nothing; service_error, that a response came with another status than 200; and
-- parse_error, that one came with the status 200.
pub list_voices-codes :
    (f : Float) (ix : IxHttp) (v : VoiceWorld f ix) (json : JsonLibrary)
    (options : SynthesisOptions) (w : ix.World) (e : Error)
    → (list_voices f ix v json options w).0 ≡ fail e
    → IsExplained f ix v json options w e.code
unfolding list_voices
list_voices-codes f ix v json options w e k = elim (Option-cases options.proxy) [
  | inr (url, q) ↦ inl (url, q, ground arith)
  | inl q ↦
      let client : HttpClientOptions = record { timeout_ms = options.http_timeout; proxy = none } in
      let start : ServiceState f (http_host f ix v client) = record {
        world = w;
        skew = v.zero_seconds;
        log = [];
      } in
      let k' : (service_run f ix v json options.http_timeout w).0 ≡ fail e =
        rw (q, list_voices) at k in
      let (last, answers, (request, w', sent), why) =
        service-Why f (http_host f ix v client) default_edge_service_config json no_filter start e
          k' in
      let report =
        (ix.get request.url (timeout_secs client) (timeout_secs client) request.headers w').0 in
      let same : last ≡ response_or_null request.url report = unfold http_send in sent in
      inr (
        q,
        (
          last,
          request.url,
          report,
          answers,
          (timeout_secs client, request.headers, w', refl),
          same,
          response_or_null-Explains request.url report e.code (subst (λ r. Why r e.code) same why),
        ),
      )
]
