-- ===== src/Communication/Outgoing/Frames.antt =====
-- EdgeProtocol.cpp with ConnectionMetadata.cpp: the frames that are sent, as a parser reads them.
use edge_tts_cpp.Base.{
  ℕ, zero, suc, ◌+◌, ◌-◌, ◌/◌, ◌%◌, Bool, true, some, List, [], ◌∷◌, ◌++◌, Bytes, lit, codes,
  length, padded, to_decimal, decimal_loop, replicate, ◌≡◌, ◌≢◌, refl, arith, All, All-append,
  All-take, not, ◌&&◌, &&_true, ◌==◌, bytes_eq,
}
use edge_tts_cpp.Common.Error.{ok}
use edge_tts_cpp.Common.Hex.Digits.{IsByte, IsDigit}
use edge_tts_cpp.Common.IdGenerator.{uuid_v4_without_hyphens}
use edge_tts_cpp.Common.IdGenerator.Version.{uuid_v4_without_hyphens_lem}
use edge_tts_cpp.Communication.Outgoing.{
  name_at, weekdays, months, format_js_timestamp, ConnectionMetadata, create_for_request,
  speech_config_body, speech_config_frame, build_ssml_frame,
}
use edge_tts_cpp.Communication.Platform.{Tm}
use edge_tts_cpp.Core.TtsConfig.{TtsConfig}
use edge_tts_cpp.Serialization.Protocol.{ProtocolMessage, parse, header, find_header}
use edge_tts_cpp.Serialization.Protocol.RoundTrip.{IsLine, IsHeader, parse-serialize}

IsLine-append : (s t : Bytes) → IsLine s → IsLine t → IsLine (s ++ t)
IsLine-append s t h k = All-append _ s t h k

IsLine-replicate : (n c : ℕ) → c ≢ 13 → IsLine (replicate n c)
IsLine-replicate zero c h = tt
IsLine-replicate (suc n) c h = (h, IsLine-replicate n c h)

IsLine-decimal_loop : (fuel n : ℕ) (out : Bytes) → IsLine out → IsLine (decimal_loop fuel n out)
unfolding decimal_loop
IsLine-decimal_loop zero n out h = h
IsLine-decimal_loop (suc fuel) n out h =
    ground (arith, IsLine-decimal_loop fuel (n / 10) ((b'0' + n % 10) ∷ out))

IsLine-padded : (w n : ℕ) → IsLine (padded w n)
unfolding padded to_decimal
IsLine-padded w n =
    IsLine-append (replicate (w - length (to_decimal n)) b'0') (to_decimal n)
      (IsLine-replicate (w - length (to_decimal n)) b'0' (omega arith))
      (IsLine-decimal_loop (suc n) n [] tt)

IsLine-name_at : (names : List Bytes) (i : ℕ) → All IsLine names → IsLine (name_at names i)
unfolding name_at
IsLine-name_at [] i h = tt
IsLine-name_at (x ∷ xs) zero (h, hs) = h
IsLine-name_at (x ∷ xs) (suc i) (h, hs) = IsLine-name_at xs i hs

-- A test, for literals.
unfoldable is_line : Bytes → Bool
is_line [] = true
is_line (c ∷ s) = not (c == 13) && is_line s

is_line-IsLine : (s : Bytes) → is_line s ≡ true → IsLine s
unfolding is_line
is_line-IsLine [] h = tt
is_line-IsLine (c ∷ s) h = (ground arith, is_line-IsLine s (ground arith))

unfoldable are_lines : List Bytes → Bool
unfolding is_line
are_lines [] = true
are_lines (s ∷ ss) = is_line s && are_lines ss

are_lines-IsLine : (ss : List Bytes) → are_lines ss ≡ true → All IsLine ss
unfolding are_lines
are_lines-IsLine [] h = tt
are_lines-IsLine (s ∷ ss) h =
    let (a, b) = &&_true (is_line s) (are_lines ss) h in (is_line-IsLine s a, are_lines-IsLine ss b)

weekdays-lines : All IsLine weekdays
unfolding weekdays lit are_lines
weekdays-lines = are_lines-IsLine weekdays refl

months-lines : All IsLine months
unfolding months lit are_lines
months-lines = are_lines-IsLine months refl

-- A timestamp holds no carriage return.
IsLine-format_js_timestamp : (t : Tm) → IsLine (format_js_timestamp t)
unfolding format_js_timestamp lit is_line
IsLine-format_js_timestamp t = All-take _ 63 _ (
    IsLine-append (name_at weekdays t.wday) _ (IsLine-name_at weekdays t.wday weekdays-lines) (
      ground arith,
      IsLine-append (name_at months t.mon) _ (IsLine-name_at months t.mon months-lines) (
        ground arith,
        IsLine-append (padded 2 t.mday) _ (IsLine-padded 2 t.mday) (
          ground arith,
          IsLine-append (padded 4 t.year) _ (IsLine-padded 4 t.year) (
            ground arith,
            IsLine-append (padded 2 t.hour) _ (IsLine-padded 2 t.hour) (
              ground arith,
              IsLine-append (padded 2 t.min) _ (IsLine-padded 2 t.min) (
                ground arith,
                IsLine-append (padded 2 t.sec) _ (IsLine-padded 2 t.sec)
                    (is_line-IsLine (codes " GMT+0000 (Coordinated Universal Time)") refl),
              ),
            ),
          ),
        ),
      ),
    ))

unfoldable has_no_colon : Bytes → Bool
has_no_colon [] = true
has_no_colon (c ∷ s) = not (c == b':') && has_no_colon s

has_no_colon-All : (s : Bytes) → has_no_colon s ≡ true → All (λ c. c ≢ b':') s
unfolding has_no_colon
has_no_colon-All [] h = tt
has_no_colon-All (c ∷ s) h = (ground arith, has_no_colon-All s (ground arith))

IsHeader-of :
    (name value : Bytes)
    → is_line name ≡ true
    → has_no_colon name ≡ true
    → IsLine value
    → IsHeader (name, value)
IsHeader-of name value h k v = (is_line-IsLine name h, has_no_colon-All name k, v)

-- What a receiver gets from a frame: its path, its body and its further header.
pub record Reads (frame path body name value : Bytes) : Type 0 where
  pub read : ProtocolMessage
  pub parses : parse frame ≡ ok read
  pub path_is : header read (codes "Path") ≡ some path
  pub body_is : read.body ≡ body
  pub value_is : header read name ≡ some value

-- The two messages that are serialized.
abbrev config_message : Tm → TtsConfig → ProtocolMessage
config_message now config = record {
  headers =
      (lit "X-Timestamp", format_js_timestamp now)
      ∷ (lit "Content-Type", lit "application/json; charset=utf-8")
      ∷ (lit "Path", lit "speech.config")
      ∷ [];
  body = speech_config_body config;
}

abbrev ssml_message : Tm → Bytes → ConnectionMetadata → ProtocolMessage
ssml_message now ssml metadata = record {
  headers =
      (lit "X-RequestId", metadata.request_id)
      ∷ (lit "Content-Type", lit "application/ssml+xml")
      ∷ (lit "X-Timestamp", format_js_timestamp now ++ lit "Z")
      ∷ (lit "Path", lit "ssml")
      ∷ [];
  body = ssml;
}

speech_config_frame-Reads :
    (now : Tm) (config : TtsConfig)
    → Reads
        (speech_config_frame now config)
        (codes "speech.config")
        (speech_config_body config)
        (codes "Content-Type")
        (codes "application/json; charset=utf-8")
unfolding speech_config_frame lit is_line has_no_colon header find_header bytes_eq
speech_config_frame-Reads now config = record {
  read = config_message now config;
  parses =
      parse-serialize (lit "X-Timestamp", format_js_timestamp now) _ (speech_config_body config)
        (
          IsHeader-of (lit "X-Timestamp") (format_js_timestamp now) refl refl
              (IsLine-format_js_timestamp now),
          (
            IsHeader-of (lit "Content-Type") (lit "application/json; charset=utf-8") refl refl
                (is_line-IsLine (lit "application/json; charset=utf-8") refl),
            (
              IsHeader-of (lit "Path") (lit "speech.config") refl refl
                  (is_line-IsLine (lit "speech.config") refl),
              tt,
            ),
          ),
        );
  path_is = refl;
  body_is = refl;
  value_is = refl;
}

IsLine-digits : (s : Bytes) → All (IsDigit b'a') s → IsLine s
IsLine-digits [] h = tt
IsLine-digits (c ∷ s) (h, hs) = (ground arith, IsLine-digits s hs)

build_ssml_frame-Reads :
    (now : Tm) (ssml : Bytes) (metadata : ConnectionMetadata)
    → IsLine metadata.request_id
    → Reads
        (build_ssml_frame now ssml metadata)
        (codes "ssml")
        ssml
        (codes "X-RequestId")
        metadata.request_id
unfolding build_ssml_frame lit is_line has_no_colon header find_header bytes_eq
build_ssml_frame-Reads now ssml metadata h = record {
  read = ssml_message now ssml metadata;
  parses =
      parse-serialize (lit "X-RequestId", metadata.request_id) _ ssml
        (
          IsHeader-of (lit "X-RequestId") metadata.request_id refl refl h,
          (
            IsHeader-of (lit "Content-Type") (lit "application/ssml+xml") refl refl
                (is_line-IsLine (lit "application/ssml+xml") refl),
            (
              IsHeader-of (lit "X-Timestamp") (format_js_timestamp now ++ lit "Z") refl refl (
                  IsLine-append (format_js_timestamp now) (lit "Z") (IsLine-format_js_timestamp now)
                    (is_line-IsLine (lit "Z") refl)),
              (
                IsHeader-of (lit "Path") (lit "ssml") refl refl (is_line-IsLine (lit "ssml") refl),
                tt,
              ),
            ),
          ),
        );
  path_is = refl;
  body_is = refl;
  value_is = refl;
}

-- The two frames of a request, with the identifier made of 16 random bytes, are read by the protocol
-- parser: the first as the path speech.config with the body of the configuration, the second as the
-- path ssml with the request's identifier and, as its body, the SSML to the last byte.
pub frames-Reads :
    (now later : Tm) (config : TtsConfig) (ssml first second : Bytes)
    → length second ≡ 16
    → All IsByte second
    → Reads
        (speech_config_frame now config)
        (codes "speech.config")
        (speech_config_body config)
        (codes "Content-Type")
        (codes "application/json; charset=utf-8")
      × Reads
          (build_ssml_frame later ssml (create_for_request first second))
          (codes "ssml")
          ssml
          (codes "X-RequestId")
          (uuid_v4_without_hyphens second)
unfolding create_for_request
frames-Reads now later config ssml first second l h = (
  speech_config_frame-Reads now config,
  build_ssml_frame-Reads later ssml (create_for_request first second)
      (IsLine-digits (uuid_v4_without_hyphens second) (uuid_v4_without_hyphens_lem second l h).2),
)
