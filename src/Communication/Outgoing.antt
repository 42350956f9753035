-- ===== src/Communication/Outgoing.antt =====
-- modules/communication: EdgeProtocol.cpp and ConnectionMetadata.cpp.
pub mod Frames
use edge_tts_cpp.Base.{
  take, ◌-◌, padded, ℕ, zero, suc, Bool, true, false, List, [], ◌∷◌, ◌++◌, Bytes, lit,
  if◌then◌else◌,
}
use edge_tts_cpp.Common.Error.{Result, ok}
use edge_tts_cpp.Common.IdGenerator.{uuid_v4_without_hyphens}
use edge_tts_cpp.Communication.Platform.{Tm}
use edge_tts_cpp.Core.TtsConfig.{TtsConfig, BoundaryType, word, sentence}
use edge_tts_cpp.Serialization.Protocol.{serialize}

unfoldable pub name_at : List Bytes → ℕ → Bytes
name_at [] i = []
name_at (x ∷ xs) zero = x
name_at (x ∷ xs) (suc i) = name_at xs i

unfoldable pub weekdays : List Bytes
weekdays = lit "Sun" ∷ lit "Mon" ∷ lit "Tue" ∷ lit "Wed" ∷ lit "Thu" ∷ lit "Fri" ∷ lit "Sat" ∷ []

unfoldable pub months : List Bytes
months =
    lit "Jan"
    ∷ lit "Feb"
    ∷ lit "Mar"
    ∷ lit "Apr"
    ∷ lit "May"
    ∷ lit "Jun"
    ∷ lit "Jul"
    ∷ lit "Aug"
    ∷ lit "Sep"
    ∷ lit "Oct"
    ∷ lit "Nov"
    ∷ lit "Dec"
    ∷ []

-- What `snprintf` leaves of a text in a buffer of that size.
unfoldable pub in_buffer : ℕ → Bytes → Bytes
in_buffer size s = take (size - 1) s

unfoldable pub format_js_timestamp : Tm → Bytes
unfolding in_buffer padded name_at weekdays months
format_js_timestamp t = in_buffer 64 (
    name_at weekdays t.wday
    ++ (b' '
        ∷ (name_at months t.mon
            ++ (b' '
                ∷ (padded 2 t.mday
                    ++ (b' '
                        ∷ (padded 4 t.year
                            ++ (b' '
                                ∷ (padded 2 t.hour
                                    ++ (b':'
                                        ∷ (padded 2 t.min
                                            ++ (b':'
                                                ∷ (padded 2 t.sec
                                                    ++ lit
                                                        " GMT+0000 (Coordinated Universal Time)")))))))))))))

pub record ConnectionMetadata : Type 0 where
  pub connection_id : Bytes
  pub request_id : Bytes

-- `create_for_request`, from the random bytes of its two calls.
unfoldable pub create_for_request : Bytes → Bytes → ConnectionMetadata
unfolding uuid_v4_without_hyphens
create_for_request first second = record {
  connection_id = uuid_v4_without_hyphens first;
  request_id = uuid_v4_without_hyphens second;
}

abbrev wants_words : BoundaryType → Bool
wants_words word = true
wants_words sentence = false

unfoldable pub speech_config_body : TtsConfig → Bytes
unfolding in_buffer
speech_config_body config =
    let wd = if wants_words config.boundary_type then lit "true" else lit "false" in
    let sq = if wants_words config.boundary_type then lit "false" else lit "true" in
    in_buffer 256 (
      lit
        "{\"context\":{\"synthesis\":{\"audio\":{\"metadataoptions\":{\"sentenceBoundaryEnabled\":\""
      ++ (sq
          ++ (lit "\",\"wordBoundaryEnabled\":\""
              ++ (wd
                  ++ (lit "\"},\"outputFormat\":\""
                      ++ (config.output_format ++ lit "\"}}}}\r\n"))))))

-- The frames; the clock's time is an argument.
unfoldable pub speech_config_frame : Tm → TtsConfig → Bytes
unfolding speech_config_body format_js_timestamp
speech_config_frame now config = serialize (record {
  headers =
      (lit "X-Timestamp", format_js_timestamp now)
      ∷ (lit "Content-Type", lit "application/json; charset=utf-8")
      ∷ (lit "Path", lit "speech.config")
      ∷ [];
  body = speech_config_body config;
})

unfoldable pub build_speech_config_frame : Tm → TtsConfig → Result Bytes
unfolding speech_config_frame
build_speech_config_frame now config = ok (speech_config_frame now config)

-- `build_ssml_frame` behind its call of `build_from_escaped_text`: the clock is read after that.
unfoldable pub build_ssml_frame : Tm → Bytes → ConnectionMetadata → Bytes
unfolding format_js_timestamp
build_ssml_frame now ssml metadata = serialize (record {
  headers =
      (lit "X-RequestId", metadata.request_id)
      ∷ (lit "Content-Type", lit "application/ssml+xml")
      ∷ (lit "X-Timestamp", format_js_timestamp now ++ lit "Z")
      ∷ (lit "Path", lit "ssml")
      ∷ [];
  body = ssml;
})
