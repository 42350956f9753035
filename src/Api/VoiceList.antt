-- ===== src/Api/VoiceList.antt =====
-- modules/api: VoiceList.cpp, the production wiring of the voice service.
pub mod Codes
use edge_tts_cpp.Base.{ℕ, Option, none, some, List, [], Bytes, lit}
use edge_tts_cpp.Api.Host.{SynthesisOptions}
use edge_tts_cpp.Common.Error.{Result, ok, fail, error, unsupported}
use edge_tts_cpp.Communication.Config.{default_edge_service_config}
use edge_tts_cpp.Communication.HttpClient.{IxHttp, HttpClientOptions, http_send}
use edge_tts_cpp.Communication.Platform.{Float}
use edge_tts_cpp.Communication.VoiceService
use edge_tts_cpp.Communication.VoiceService.{HttpHost, ServiceState, no_filter}
use edge_tts_cpp.Core.Voice.{Voice}
use edge_tts_cpp.Serialization.Json.{JsonLibrary}

-- The world of the library with the clock, the random numbers and a double that is zero.
pub record VoiceWorld (f : Float) (ix : IxHttp) : Type 0 where
  pub random_bytes : ix.World → Bytes × ix.World
  pub now_seconds : ix.World → f.Double × ix.World
  pub zero_seconds : f.Double

abbrev pub http_host : (f : Float) (ix : IxHttp) → VoiceWorld f ix → HttpClientOptions → HttpHost f
http_host f ix v options = record {
  World = ix.World;
  send = http_send ix options;
  random_bytes = v.random_bytes;
  now_seconds = v.now_seconds;
}

-- The proxy is rejected before any collaborator exists; the client's own options have none.
unfoldable pub list_voices :
    (f : Float) (ix : IxHttp)
    → VoiceWorld f ix
    → JsonLibrary
    → SynthesisOptions
    → ix.World
    → Result (List Voice) × ix.World
unfolding VoiceService.list_voices
list_voices f ix v J options w = elim options.proxy [
  | some url ↦ (fail (error unsupported (lit "proxy is not supported")), w)
  | none ↦
      let h = http_host f ix v (record { timeout_ms = options.http_timeout; proxy = none }) in
      let s : ServiceState f h = record { world = w; skew = v.zero_seconds; log = [] } in
      let (r, s') = VoiceService.list_voices f h default_edge_service_config J no_filter s in
      (r, s'.world)
]
