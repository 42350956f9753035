-- ===== src/Communication/VoiceService.antt =====
-- modules/communication: HttpTypes.hpp, VoiceService.hpp and VoiceService.cpp. The state is the world
-- outside, the token provider's skew, and the requests that were sent with what came back.
pub mod Requests
pub mod Filter
use edge_tts_cpp.Base.{
  ℕ, ℤ, pos, Bool, true, false, not, ◌&&◌, ◌||◌, Option, none, some, List, [], ◌∷◌, ◌++◌, Bytes,
  lit, codes, bytes_eq, to_decimal, ◌==◌, if◌then◌else◌,
}
use edge_tts_cpp.Common.Error.{Result, ok, fail, error_in, service_error}
use edge_tts_cpp.Communication.Config.{EdgeServiceConfig, build_voice_list_headers}
use edge_tts_cpp.Communication.HttpDate.{parse_http_date}
use edge_tts_cpp.Communication.Platform.{Float}
use edge_tts_cpp.Communication.TokenProvider.{
  sec_ms_gec, adjust_clock_skew, adjust_clock_skew_from_server_timestamp,
}
use edge_tts_cpp.Core.Voice.{Voice, VoiceGender, gender_eq}
use edge_tts_cpp.Serialization.Json.{JsonLibrary}
use edge_tts_cpp.Serialization.MetadataJson.{and_then}
use edge_tts_cpp.Serialization.VoiceJson.{parse_voice_list}

-- The body is never set. The headers are in the order in which they were inserted.
pub record HttpRequest : Type 0 where
  pub method : Bytes
  pub url : Bytes
  pub headers : List (Bytes × Bytes)

-- The status is not negative.
pub record HttpResponse : Type 0 where
  pub status_code : ℕ
  pub headers : List (Bytes × Bytes)
  pub body : Bytes

-- An `IHttpClient` with the clock and the random numbers.
pub record HttpHost (f : Float) : Type 1 where
  pub World : Type 0
  pub send : HttpRequest → World → Result HttpResponse × World
  pub random_bytes : World → Bytes × World
  pub now_seconds : World → f.Double × World

pub record VoiceFilter : Type 0 where
  pub locale : Option Bytes
  pub gender : Option VoiceGender
  pub short_name : Option Bytes

abbrev pub no_filter : VoiceFilter
no_filter = record { locale = none; gender = none; short_name = none }

-- `find` of a map whose keys are compared byte by byte.
unfoldable pub find_field : Bytes → List (Bytes × Bytes) → Option Bytes
unfolding bytes_eq
find_field key [] = none
find_field key ((k, v) ∷ fields) = if bytes_eq k key then some v else find_field key fields

-- `filter.x && voice.x != *filter.x`.
unfoldable pub differs : {A : Type 0} → (A → A → Bool) → Option A → A → Bool
differs eq none a = false
differs eq (some wanted) a = not (eq a wanted)

-- The test of `remove_if`.
unfoldable pub is_removed : VoiceFilter → Voice → Bool
unfolding differs bytes_eq gender_eq
is_removed filter v =
    differs bytes_eq filter.locale v.locale
    || (differs gender_eq filter.gender v.gender || differs bytes_eq filter.short_name v.short_name)

unfoldable pub remove : VoiceFilter → List Voice → List Voice
unfolding is_removed
remove filter [] = []
remove filter (v ∷ vs) = if is_removed filter v then remove filter vs else v ∷ remove filter vs

unfoldable pub is_set : VoiceFilter → Bool
is_set filter = elim filter.locale [
  | some l ↦ true
  | none ↦ elim filter.gender [
    | some g ↦ true
    | none ↦ elim filter.short_name [ some s ↦ true | none ↦ false ]
  ]
]

-- What follows the last response.
unfoldable pub read_voices : JsonLibrary → VoiceFilter → Result HttpResponse → Result (List Voice)
unfolding to_decimal parse_voice_list is_set remove
read_voices J filter (fail e) = fail e
read_voices J filter (ok response) =
    if response.status_code == 200
    then (elim (parse_voice_list J response.body) [
      | fail e ↦ fail e
      | ok voices ↦ ok (if is_set filter then remove filter voices else voices)
    ])
    else fail (
        error_in service_error (lit "voice list HTTP request failed")
          (to_decimal response.status_code))

module _ (f : Float) (h : HttpHost f) where
  pub record ServiceState : Type 0 where
    pub world : h.World
    pub skew : f.Double
    pub log : List (HttpRequest × Result HttpResponse)

  -- The request that `send_request` builds from a token and random bytes.
  unfoldable pub voice_request : EdgeServiceConfig → Bytes → Bytes → HttpRequest
  unfolding build_voice_list_headers
  voice_request config token random = record {
    method = lit "GET";
    url =
        config.voices_endpoint
        ++ (lit "&Sec-MS-GEC="
            ++ (token ++ (lit "&Sec-MS-GEC-Version=" ++ config.sec_ms_gec_version)));
    headers = build_voice_list_headers config random;
  }

  unfoldable pub send_request :
      EdgeServiceConfig → ServiceState → Result HttpResponse × ServiceState
  unfolding voice_request sec_ms_gec
  send_request config s =
      let (now, w1) = h.now_seconds s.world in
      let token = sec_ms_gec f config now s.skew in
      let (random, w2) = h.random_bytes w1 in
      let request = voice_request config token random in
      let (response, w3) = h.send request w2 in
      (response, record s { world = w3; log = s.log ++ (request, response) ∷ [] })

  -- By the server's time, or by 300 seconds if there is none.
  unfoldable pub skew_by_date : Option ℤ → ServiceState → ServiceState
  unfolding adjust_clock_skew adjust_clock_skew_from_server_timestamp
  skew_by_date none s = record s { skew = adjust_clock_skew f s.skew (f.of_integer (pos 300)) }
  skew_by_date (some server) s =
      let (now, w) = h.now_seconds s.world in
      record s {
        world = w;
        skew = adjust_clock_skew_from_server_timestamp f s.skew now (f.of_integer server);
      }

  -- The skew after a 403: from the Date header, or 300 seconds more.
  unfoldable pub correct_skew : HttpResponse → ServiceState → ServiceState
  unfolding skew_by_date
  correct_skew response s =
      skew_by_date (and_then (find_field (codes "Date") response.headers) parse_http_date) s

  -- A response with the status 403 is asked for once more.
  unfoldable pub retry_once :
      EdgeServiceConfig → Result HttpResponse → ServiceState → Result HttpResponse × ServiceState
  unfolding correct_skew send_request
  retry_once config (fail e) s = (fail e, s)
  retry_once config (ok response) s =
      if response.status_code == 403
      then send_request config (correct_skew response s)
      else (ok response, s)

  unfoldable pub list_voices :
      EdgeServiceConfig
      → JsonLibrary
      → VoiceFilter
      → ServiceState
      → Result (List Voice) × ServiceState
  unfolding send_request retry_once read_voices
  list_voices config J filter s =
      let (first, s1) = send_request config s in
      let (last, s2) = retry_once config first s1 in (read_voices J filter last, s2)
