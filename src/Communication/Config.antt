-- ===== src/Communication/Config.antt =====
-- modules/communication: EdgeServiceConfig.cpp, EdgeRequestHeaders.cpp, RetryPolicy.cpp,
-- ProxyUtils.hpp.
use edge_tts_cpp.Base.{
  ℕ, ◌+◌, ◌-◌, Bool, true, false, ◌&&◌, none, some, List, [], ◌∷◌, ◌++◌, map, Bytes, codes, lit,
  leb, ltb, if◌then◌else◌, take, drop, find, find_byte,
}
use edge_tts_cpp.Common.Error.{ErrorCode, Error, drm_error}
use edge_tts_cpp.Common.IdGenerator.{random_32_hex}

pub record EdgeServiceConfig : Type 0 where
  pub websocket_endpoint : Bytes
  pub voices_endpoint : Bytes
  pub trusted_client_token : Bytes
  pub sec_ms_gec_version : Bytes
  pub origin : Bytes
  pub user_agent : Bytes
  pub speech_config_path : Bytes
  pub ssml_path : Bytes
  pub audio_metadata_path : Bytes
  pub turn_end_path : Bytes

unfoldable pub default_edge_service_config : EdgeServiceConfig
default_edge_service_config = record {
  websocket_endpoint =
      lit
        "wss://speech.platform.bing.com/consumer/speech/synthesize/readaloud/edge/v1?TrustedClientToken=6A5AA1D4EAFF4E9FB37E23D68491D6F4";
  voices_endpoint =
      lit
        "https://speech.platform.bing.com/consumer/speech/synthesize/readaloud/voices/list?trustedclienttoken=6A5AA1D4EAFF4E9FB37E23D68491D6F4";
  trusted_client_token = lit "6A5AA1D4EAFF4E9FB37E23D68491D6F4";
  sec_ms_gec_version = lit "1-143.0.3650.75";
  origin = lit "chrome-extension://jdiccldimpdaibmpdkjnbmckianbfold";
  user_agent =
      lit
        "Mozilla/5.0 (Windows NT 10.0; Win64; x64) AppleWebKit/537.36 (KHTML, like Gecko) Chrome/143.0.0.0 Safari/537.36 Edg/143.0.0.0";
  speech_config_path = lit "speech.config";
  ssml_path = lit "ssml";
  audio_metadata_path = lit "audio.metadata";
  turn_end_path = lit "turn.end";
}

-- `std::toupper` in the C locale.
unfoldable pub to_upper : ℕ → ℕ
to_upper c = if leb b'a' c && leb c b'z' then c - 32 else c

unfoldable pub make_muid_cookie : Bytes → Bytes
unfolding to_upper random_32_hex
make_muid_cookie random = lit "muid=" ++ (map to_upper (random_32_hex random) ++ lit ";")

unfoldable pub build_websocket_headers : EdgeServiceConfig → Bytes → List (Bytes × Bytes)
unfolding make_muid_cookie
build_websocket_headers config random =
    (lit "Pragma", lit "no-cache")
    ∷ (lit "Cache-Control", lit "no-cache")
    ∷ (lit "Origin", config.origin)
    ∷ (lit "User-Agent", config.user_agent)
    ∷ (lit "Accept-Encoding", lit "gzip, deflate, br, zstd")
    ∷ (lit "Accept-Language", lit "en-US,en;q=0.9")
    ∷ (lit "Cookie", make_muid_cookie random)
    ∷ []

unfoldable pub build_voice_list_headers : EdgeServiceConfig → Bytes → List (Bytes × Bytes)
unfolding make_muid_cookie
build_voice_list_headers config random =
    (lit "User-Agent", config.user_agent)
    ∷ (lit "Accept-Encoding", lit "gzip, deflate, br, zstd")
    ∷ (lit "Accept-Language", lit "en-US,en;q=0.9")
    ∷ (lit "Accept", lit "*/*")
    ∷ (lit "Cookie", make_muid_cookie random)
    ∷ []

unfoldable pub is_drm_error : ErrorCode → Bool
is_drm_error drm_error = true
is_drm_error _ = false

-- `RetryPolicy::should_retry`.
unfoldable pub should_retry : ℕ → Error → ℕ → Bool
unfolding is_drm_error
should_retry max_retries error attempt = is_drm_error error.code && ltb attempt max_retries

-- `sanitize_proxy_url`, and `redact_url_credentials` of the two dispatchers.
unfoldable pub sanitize_proxy_url : Bytes → Bytes
unfolding find find_byte
sanitize_proxy_url url = elim (find (codes "://") url) [
  | none ↦ url
  | some scheme_end ↦
      let auth_start = scheme_end + 3 in
      elim (find_byte b'@' (drop auth_start url)) [
        | none ↦ url
        | some k ↦ take auth_start url ++ (codes "[credentials]" ++ drop (auth_start + k) url)
      ]
]
