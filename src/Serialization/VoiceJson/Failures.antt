-- ===== src/Serialization/VoiceJson/Failures.antt =====
-- VoiceJsonParser.cpp: the error code of a list that is not parsed.
use edge_tts_cpp.Serialization.MetadataJson.{and_then}
use edge_tts_cpp.Base.{
  sum-cases, Bool, true, false, List, [], ◌∷◌, Bytes, lit, ◌≡◌, refl, Option-cases, inl, inr,
}
use edge_tts_cpp.Common.Error.{
  ErrorCode, Error, Result, ok, fail, parse_error, Result-cases, ◌>>=◌, ◌>>◌, guard,
}
use edge_tts_cpp.Core.Voice.{voice_gender_from_string}
use edge_tts_cpp.Serialization.Json.{JsonLibrary}
use edge_tts_cpp.Serialization.VoiceJson.{
  require_string, gender_of, parse_voice, parse_voices, parse_voice_list,
}

unfoldable pub is_parse_code : ErrorCode → Bool
is_parse_code parse_error = true
is_parse_code _ = false

pub is_parse_code_sound : (code : ErrorCode) → is_parse_code code ≡ true → code ≡ parse_error
unfolding is_parse_code
is_parse_code_sound ErrorCode.parse_error k = refl
is_parse_code_sound ErrorCode.service_error k = cc
is_parse_code_sound ErrorCode.no_error k = cc
is_parse_code_sound ErrorCode.invalid_argument k = cc
is_parse_code_sound ErrorCode.invalid_state k = cc
is_parse_code_sound ErrorCode.io_error k = cc
is_parse_code_sound ErrorCode.network_error k = cc
is_parse_code_sound ErrorCode.protocol_error k = cc
is_parse_code_sound ErrorCode.timeout k = cc
is_parse_code_sound ErrorCode.unsupported k = cc
is_parse_code_sound ErrorCode.external_process_failed k = cc
is_parse_code_sound ErrorCode.drm_error k = cc
is_parse_code_sound ErrorCode.cancelled k = cc

abbrev pub FailsIn : {A : Type 0} → (ErrorCode → Bool) → Result A → Type 0
FailsIn codes' (ok a) = Unit
FailsIn codes' (fail e) = codes' e.code ≡ true

-- A chain fails where one of its steps does.
FailsIn-bind :
    {A B : Type 0} (m : Result A) (g : A → Result B)
    → FailsIn is_parse_code m
    → ((a : A) → FailsIn is_parse_code (g a))
    → FailsIn is_parse_code (m >>= g)
FailsIn-bind (ok a) g hm hg = hg a
FailsIn-bind (fail e) g hm hg = hm

module _ (J : JsonLibrary) where
  open J use {Value, parse_json, is_object, elements}

  require_string-FailsIn :
      (entry : Value) (key : Bytes) → FailsIn is_parse_code (require_string J entry key)
  unfolding require_string is_parse_code
  require_string-FailsIn entry key =
      elim (Option-cases (and_then (J.member entry key) J.string_value)) [
        | inl q ↦ rw q refl
        | inr (s, q) ↦ rw q tt
      ]

  gender_of-FailsIn : (text : Bytes) → FailsIn is_parse_code (gender_of text)
  unfolding gender_of is_parse_code
  gender_of-FailsIn text = elim (Result-cases (voice_gender_from_string text)) [
    | inl (g, q) ↦ rw (q, gender_of) tt
    | inr (e, q) ↦ rw (q, gender_of) refl
  ]

  guard-FailsIn :
      {B : Type 0} (test : Bool) (e : Error) (next : Result B)
      → is_parse_code e.code ≡ true
      → FailsIn is_parse_code next
      → FailsIn is_parse_code (guard test e >> next)
  guard-FailsIn true e next h k = k
  guard-FailsIn false e next h k = h

  parse_voice-FailsIn : (entry : Value) → FailsIn is_parse_code (parse_voice J entry)
  unfolding parse_voice is_parse_code
  parse_voice-FailsIn entry = guard-FailsIn (is_object entry) _ _ refl (
      FailsIn-bind (require_string J entry (lit "Name")) _ (require_string-FailsIn entry _) λ name.
        FailsIn-bind (require_string J entry (lit "ShortName")) _ (require_string-FailsIn entry _)
          λ short.
            FailsIn-bind (require_string J entry (lit "Gender")) _ (require_string-FailsIn entry _)
              λ text. FailsIn-bind (gender_of text) _ (gender_of-FailsIn text) λ gender.
                FailsIn-bind (require_string J entry (lit "Locale")) _
                  (require_string-FailsIn entry _)
                  λ locale.
                    FailsIn-bind (require_string J entry (lit "SuggestedCodec")) _
                      (require_string-FailsIn entry _)
                      λ codec.
                        FailsIn-bind (require_string J entry (lit "FriendlyName")) _
                          (require_string-FailsIn entry _)
                          λ friendly.
                            FailsIn-bind (require_string J entry (lit "Status")) _
                              (require_string-FailsIn entry _) λ status. tt)

  parse_voices-FailsIn : (entries : List Value) → FailsIn is_parse_code (parse_voices J entries)
  unfolding parse_voices
  parse_voices-FailsIn [] = tt
  parse_voices-FailsIn (entry ∷ entries) =
      FailsIn-bind (parse_voice J entry) _ (parse_voice-FailsIn entry)
        λ v. FailsIn-bind (parse_voices J entries) _ (parse_voices-FailsIn entries) λ vs. tt

  pub parse_voice_list-FailsIn : (text : Bytes) → FailsIn is_parse_code (parse_voice_list J text)
  unfolding parse_voice_list is_parse_code
  parse_voice_list-FailsIn text = elim (sum-cases (parse_json text)) [
    | inl (m, q) ↦ rw (q, parse_voice_list) refl
    | inr (root, q) ↦ elim (Option-cases (elements root)) [
      | inl n ↦ rw (q, parse_voice_list) (rw n refl)
      | inr (entries, n) ↦ rw (q, parse_voice_list) (rw n (parse_voices-FailsIn entries))
    ]
  ]
