-- ===== src/Communication/TokenProvider.antt =====
-- modules/communication: EdgeTokenProvider.cpp. The skew is the provider's state; the clock's
-- seconds are an argument.
use edge_tts_cpp.Base.{pos, ◌++◌, Bytes}
use edge_tts_cpp.Common.Sha256.{sha256_hex_upper}
use edge_tts_cpp.Communication.Config.{EdgeServiceConfig}
use edge_tts_cpp.Communication.Platform.{Float}

module _ (f : Float) where
  open f use {Double, of_integer, add, sub, mul, fmod, format}

  -- Steps 1 to 5: the text of the ticks.
  unfoldable pub tick_text : Double → Double → Bytes
  tick_text now skew =
      let unix_seconds = add now skew in
      let shifted = add unix_seconds (of_integer (pos 11644473600)) in
      let rounded = sub shifted (fmod shifted (of_integer (pos 300))) in
      format (mul rounded (of_integer (pos 10000000)))

  unfoldable pub sec_ms_gec : EdgeServiceConfig → Double → Double → Bytes
  unfolding tick_text
  sec_ms_gec config now skew = sha256_hex_upper (tick_text now skew ++ config.trusted_client_token)

  unfoldable pub adjust_clock_skew : Double → Double → Double
  adjust_clock_skew skew seconds = add skew seconds

  unfoldable pub adjust_clock_skew_from_server_timestamp : Double → Double → Double → Double
  unfolding adjust_clock_skew
  adjust_clock_skew_from_server_timestamp skew now server =
      adjust_clock_skew skew (sub server (add now skew))
