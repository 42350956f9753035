-- ===== src/Serialization/SsmlBuilder.antt =====
-- modules/serialization: SsmlBuilder.cpp.
use edge_tts_cpp.Base.{◌++◌, Bytes, codes, none, some, []}
use edge_tts_cpp.Common.Error.{Result, ok, ◌>>=◌, ◌>>◌}
use edge_tts_cpp.Core.TtsConfig.{TtsConfig, validate_tts_config, normalize_voice_name}
use edge_tts_cpp.Serialization.TextNormalizer.{normalize}
use edge_tts_cpp.Serialization.XmlEscaper.{xml_escape}

abbrev pub opening : Bytes
opening =
    codes
      "<speak version='1.0' xmlns='http://www.w3.org/2001/10/synthesis' xml:lang='en-US'><voice name='"

unfoldable pub assemble_ssml : Bytes → TtsConfig → Bytes → Bytes
assemble_ssml voice config escaped_content =
    opening
    ++ (voice
        ++ (codes "'><prosody pitch='"
            ++ (config.pitch
                ++ (codes "' rate='"
                    ++ (config.rate
                        ++ (codes "' volume='"
                            ++ (config.volume
                                ++ (codes "'>"
                                    ++ (escaped_content
                                        ++ codes "</prosody></voice></speak>")))))))))

-- `*normalize_voice_name(…)`: the name is there once the validation has passed.
unfoldable pub validate_and_normalize_voice : TtsConfig → Result Bytes
unfolding validate_tts_config
validate_and_normalize_voice config = do
  validate_tts_config config
  ok (elim (normalize_voice_name config.voice) [ none ↦ [] | some voice ↦ voice ])

-- `SsmlBuilder::build`.
unfoldable pub build : TtsConfig → Bytes → Result Bytes
unfolding validate_and_normalize_voice assemble_ssml
build config raw_text = do
  voice ← validate_and_normalize_voice config
  norm ← normalize raw_text
  ok (assemble_ssml voice config (xml_escape norm))

unfoldable pub build_from_escaped_text : TtsConfig → Bytes → Result Bytes
unfolding validate_and_normalize_voice assemble_ssml
build_from_escaped_text config escaped_text = do
  voice ← validate_and_normalize_voice config
  ok (assemble_ssml voice config escaped_text)
