-- ===== src/Communication/VoiceService/Requests.antt =====
-- VoiceService.cpp: the requests of a call, and which response is read.
use edge_tts_cpp.Base.{
  lit, to_decimal, ℤ, Option, none, some, List, [], ◌∷◌, ◌++◌, append_assoc, ◌==◌, ◌≡◌, ◌⊎◌, inl,
  inr, refl, ap, ◌∙◌, arith, Bool-cases,
}
use edge_tts_cpp.Common.Error.{Error, Result, ok, fail, error_in, service_error}
use edge_tts_cpp.Communication.Config.{EdgeServiceConfig}
use edge_tts_cpp.Communication.Platform.{Float}
use edge_tts_cpp.Communication.VoiceService.{
  HttpRequest, HttpResponse, HttpHost, VoiceFilter, ServiceState, send_request, skew_by_date,
  correct_skew, retry_once, read_voices, list_voices,
}
use edge_tts_cpp.Serialization.Json.{JsonLibrary}

-- A response that was refused.
abbrev pub IsForbidden : Result HttpResponse → Type 0
IsForbidden r = (response : HttpResponse) × (r ≡ ok response) × (response.status_code ≡ 403)

module _ (f : Float) (h : HttpHost f) (config : EdgeServiceConfig) where
  skew_by_date-log :
      (date : Option ℤ) (s : ServiceState f h) → (skew_by_date f h date s).log ≡ s.log
  unfolding skew_by_date
  skew_by_date-log none s = refl
  skew_by_date-log (some server) s = refl

  -- A request is put at the end of the log with its response.
  pub send_request-log :
      (s : ServiceState f h)
      → (request : HttpRequest) × ((send_request f h config s).1.log
          ≡ s.log ++ (request, (send_request f h config s).0) ∷ [])
  unfolding send_request
  send_request-log s = (_, refl)

  -- The two ways in which a call goes: the response that is read, and what is added to the log.
  abbrev pub Answers :
      List (HttpRequest × Result HttpResponse)
      → List (HttpRequest × Result HttpResponse)
      → Result HttpResponse
      → Type 0
  Answers before after last =
      ((request : HttpRequest) × (after ≡ before ++ (request, last) ∷ []) × ¬ (IsForbidden last))
      ⊎ ((one two : HttpRequest) × (first : Result HttpResponse) × IsForbidden first
          × (after ≡ before ++ (one, first) ∷ (two, last) ∷ []))

  pub Answers-retry_once :
      (before : List (HttpRequest × Result HttpResponse)) (request : HttpRequest)
      (first : Result HttpResponse) (s : ServiceState f h)
      → s.log ≡ before ++ (request, first) ∷ []
      → Answers before (retry_once f h config first s).1.log (retry_once f h config first s).0
  unfolding retry_once correct_skew
  Answers-retry_once before request (fail e) s l = inl (request, l, λ (r, q, c). cc)
  Answers-retry_once before request (ok response) s l =
      elim (Bool-cases (response.status_code == 403)) [
        | inr q ↦ rw q (inl (request, l, λ (r, p, c). ground arith))
        | inl q ↦
            let s' = correct_skew f h response s in
            let (two, log) = send_request-log s' in
            rw q (
              inr (
                request,
                two,
                ok response,
                (response, refl, ground arith),
                log
                    ∙ ap (λ t. t ++ (two, (send_request f h config s').0) ∷ [])
                        (skew_by_date-log _ s ∙ l)
                    ∙ append_assoc before _ _,
              ))
      ]

abbrev pub IsFailed : {A : Type 0} → Result A → Type 0
IsFailed r = (e : Error) × (r ≡ fail e)

read_voices-ok :
    (J : JsonLibrary) (filter : VoiceFilter) (last : Result HttpResponse)
    → IsFailed (read_voices J filter last)
      ⊎ ((response : HttpResponse) × (last ≡ ok response) × (response.status_code ≡ 200))
unfolding read_voices
read_voices-ok J filter (fail x) = inl (x, refl)
read_voices-ok J filter (ok response) = elim (Bool-cases (response.status_code == 200)) [
  | inl q ↦ inr (response, refl, ground arith)
  | inr q ↦ inl (
    error_in service_error (lit "voice list HTTP request failed") (to_decimal response.status_code),
    rw (q, read_voices) refl,
  )
]

-- A call of `list_voices` sends one request, or two; the second only after a response with the status
-- 403 to the first, and the response that is then read is not asked for again, whatever its status.
-- What the call returns is read from the last response, and is ok only if its status is 200.
pub list_voices-requests :
    (f : Float) (h : HttpHost f) (config : EdgeServiceConfig) (J : JsonLibrary)
    (filter : VoiceFilter) (s : ServiceState f h)
    → (last : Result HttpResponse) × Answers f h config s.log
        (list_voices f h config J filter s).1.log
        last
      × ((list_voices f h config J filter s).0 ≡ read_voices J filter last)
      × (IsFailed (list_voices f h config J filter s).0
          ⊎ ((response : HttpResponse) × (last ≡ ok response) × (response.status_code ≡ 200)))
unfolding list_voices
list_voices-requests f h config J filter s =
    let (first, s1) = send_request f h config s in
    let (request, log) = send_request-log f h config s in
    let last = (retry_once f h config first s1).0 in
    (
      last,
      Answers-retry_once f h config s.log request first s1 log,
      refl,
      read_voices-ok J filter last,
    )
