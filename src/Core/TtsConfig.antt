-- ===== src/Core/TtsConfig.antt =====
-- modules/core: OutputFormat.cpp, TtsConfig.hpp and TtsConfig.cpp. Each regular expression is
-- written out as what it matches: its parts meet at bytes that the parts themselves exclude.
pub mod Normalization
use edge_tts_cpp.Base.{
  ◌⊎◌, inl, inr, ℕ, ◌+◌, ◌-◌, Bool, true, false, not, ◌&&◌, ◌||◌, Option, none, some, [], ◌∷◌, ◌++◌,
  Bytes, lit, codes, leb, ltb, ◌==◌, if◌then◌else◌, length, take, drop, find_byte, starts_with,
  bytes_eq, is_empty, ◌≡◌, refl,
}
use edge_tts_cpp.Common.Error.{
  Result, ok, fail, error, error_in, invalid_argument, unsupported, guard, ◌>>◌,
}

-- The one member of `KNOWN_FORMATS`.
abbrev pub known_format : Bytes
known_format = codes "audio-24khz-48kbitrate-mono-mp3"

-- `OutputFormat::from_string`.
unfoldable pub output_format_from_string : Bytes → Result Bytes
unfolding is_empty bytes_eq
output_format_from_string value =
    if is_empty value
    then fail (error invalid_argument (lit "OutputFormat: value must not be empty"))
    else if bytes_eq value known_format
    then ok value
    else fail (error_in unsupported (lit "OutputFormat: unknown format") value)

pub data BoundaryType : Type 0 where
  word sentence : BoundaryType

unfoldable pub boundary_type_to_string : BoundaryType → Bytes
boundary_type_to_string word = codes "WordBoundary"
boundary_type_to_string sentence = codes "SentenceBoundary"

unfoldable pub boundary_type_from_string : Bytes → Result BoundaryType
unfolding bytes_eq
boundary_type_from_string value =
    if bytes_eq value (codes "WordBoundary")
    then ok word
    else if bytes_eq value (codes "SentenceBoundary")
    then ok sentence
    else fail (error_in invalid_argument (lit "boundary_type_from_string: unknown value") value)

pub record TtsConfig : Type 0 where
  pub voice : Bytes
  pub rate : Bytes
  pub volume : Bytes
  pub pitch : Bytes
  pub output_format : Bytes
  pub boundary_type : BoundaryType

abbrev pub defaults : TtsConfig
defaults = record {
  voice = codes "en-US-EmmaMultilingualNeural";
  rate = codes "+0%";
  volume = codes "+0%";
  pitch = codes "+0Hz";
  output_format = known_format;
  boundary_type = sentence;
}

unfoldable pub is_digit : ℕ → Bool
is_digit c = leb b'0' c && leb c b'9'

-- `\d*` and then exactly `unit`.
unfoldable pub digits_then : Bytes → Bytes → Bool
unfolding is_digit bytes_eq
digits_then unit [] = bytes_eq [] unit
digits_then unit (c ∷ s) = if is_digit c then digits_then unit s else bytes_eq (c ∷ s) unit

-- `^[+-]\d+` and then `unit`.
unfoldable pub matches_signed : Bytes → Bytes → Bool
unfolding digits_then
matches_signed unit [] = false
matches_signed unit (sign ∷ []) = false
matches_signed unit (sign ∷ d ∷ s) =
    (sign == b'+' || sign == b'-') && is_digit d && digits_then unit s

-- What `.` matches: any byte that ends no line.
unfoldable pub is_dot : ℕ → Bool
is_dot c = not (c == b'\n' || c == 13)

unfoldable pub all_dots : Bytes → Bool
unfolding is_dot
all_dots [] = true
all_dots (c ∷ s) = is_dot c && all_dots s

abbrev pub full_prefix : Bytes
full_prefix = codes "Microsoft Server Speech Text to Speech Voice ("

-- `.*, .+\)$`, behind the first byte of the group.
unfoldable pub comma_later : Bytes → Bool
comma_later [] = false
comma_later (c ∷ s) = starts_with (codes ", ") (c ∷ s) && ltb 3 (length (c ∷ s)) || comma_later s

unfoldable pub ends_with : Bytes → Bytes → Bool
unfolding bytes_eq
ends_with s suffix =
    leb (length suffix) (length s) && bytes_eq (drop (length s - length suffix) s) suffix

-- `^Microsoft … Voice \(.+, .+\)$`.
unfoldable pub matches_full_voice : Bytes → Bool
unfolding starts_with all_dots comma_later ends_with
matches_full_voice voice =
    let inner = drop (length full_prefix) voice in
    starts_with full_prefix voice
    && all_dots inner
    && ends_with inner (codes ")")
    && comma_later (drop 1 inner)

unfoldable pub is_lower : ℕ → Bool
is_lower c = leb b'a' c && leb c b'z'

unfoldable pub is_upper : ℕ → Bool
is_upper c = leb b'A' c && leb c b'Z'

-- The longest prefix of bytes that pass a test, and what is behind it.
unfoldable pub span : (ℕ → Bool) → Bytes → Bytes × Bytes
span p [] = ([], [])
span p (c ∷ s) = if p c then (c ∷ (span p s).0, (span p s).1) else ([], c ∷ s)

pub record ShortVoice : Type 0 where
  pub lang : Bytes
  pub region : Bytes
  pub name : Bytes

-- `{2,}` and then a dash: the group and what is behind the dash.
unfoldable pub group_dash : (ℕ → Bool) → Bytes → Option (Bytes × Bytes)
unfolding span
group_dash p s =
    let (group, rest) = span p s in
    if leb 2 (length group) && starts_with (codes "-") rest then some (group, drop 1 rest) else none

-- `(.+Neural)$`.
unfoldable pub is_neural : Bytes → Bool
unfolding ends_with all_dots
is_neural name = all_dots name && ends_with name (codes "Neural") && ltb 6 (length name)

-- `^([a-z]{2,})-([A-Z]{2,})-(.+Neural)$`.
unfoldable pub match_short_voice : Bytes → Option ShortVoice
unfolding group_dash is_lower is_upper is_neural
match_short_voice voice = elim (group_dash is_lower voice) [
  | none ↦ none
  | some (lang, rest) ↦ elim (group_dash is_upper rest) [
    | none ↦ none
    | some (region, name) ↦
        if is_neural name then some (record { lang = lang; region = region; name = name }) else none
  ]
]

-- A dash in the name moves what stands before it to the region.
unfoldable pub move_dash : ShortVoice → ShortVoice
unfolding find_byte
move_dash v = elim (find_byte b'-' v.name) [
  | none ↦ v
  | some dash ↦ record {
    lang = v.lang;
    region = v.region ++ b'-' ∷ take dash v.name;
    name = drop (dash + 1) v.name;
  }
]

unfoldable pub full_name : ShortVoice → Bytes
full_name v =
    full_prefix ++ (v.lang ++ (b'-' ∷ (v.region ++ (codes ", " ++ (v.name ++ codes ")")))))

unfoldable pub normalize_voice_name : Bytes → Option Bytes
unfolding matches_full_voice match_short_voice move_dash full_name
normalize_voice_name voice =
    if matches_full_voice voice
    then some voice
    else elim (match_short_voice voice) [ none ↦ none | some v ↦ some (full_name (move_dash v)) ]

unfoldable pub is_some {ℓ} : {A : Type ℓ} → Option A → Bool
is_some none = false
is_some (some a) = true

unfoldable pub validate_tts_config : TtsConfig → Result (Unit {0})
unfolding is_some normalize_voice_name matches_signed
validate_tts_config config = do
  guard (is_some (normalize_voice_name config.voice))
      (error_in invalid_argument (lit "voice: invalid value") config.voice)
  guard (matches_signed (codes "%") config.rate)
      (error_in invalid_argument (lit "rate: invalid value") config.rate)
  guard (matches_signed (codes "%") config.volume)
      (error_in invalid_argument (lit "volume: invalid value") config.volume)
  guard (matches_signed (codes "Hz") config.pitch)
      (error_in invalid_argument (lit "pitch: invalid value") config.pitch)

-- `TtsConfig::validate`: the text of the ConfigurationError that it throws, or the config that it
-- leaves, with the voice normalized.
unfoldable pub validate : TtsConfig → Bytes ⊎ TtsConfig
validate config = elim (normalize_voice_name config.voice) [
  | none ↦ inl (lit "Invalid voice '" ++ (config.voice ++ codes "'"))
  | some voice ↦ elim (validate_tts_config (record config { voice = voice })) [
    | ok done ↦ inr (record config { voice = voice })
    | fail e ↦ inl (e.message ++ (codes ": " ++ e.context))
  ]
]

normalize_runs :
    normalize_voice_name (codes "zh-CN-liaoning-XiaobeiNeural")
    ≡ some (codes "Microsoft Server Speech Text to Speech Voice (zh-CN-liaoning, XiaobeiNeural)")
unfolding normalize_voice_name
normalize_runs = refl

defaults_validate : validate_tts_config defaults ≡ ok tt
unfolding validate_tts_config
defaults_validate = refl
