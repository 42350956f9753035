-- ===== src/Serialization/VoiceJson.antt =====
-- modules/serialization: VoiceJsonParser.cpp.
pub mod Failures
use edge_tts_cpp.Base.{
  ℕ, zero, suc, ◌==◌, Bool-cases, true, false, Option, none, some, List, [], ◌∷◌, ◌++◌, Bytes, lit,
  take, drop, find_byte, inl, inr, ◌≡◌, ◌⊎◌, refl, ap, arith, Option-cases,
}
use mathlib.Core.Path.{subst}
use edge_tts_cpp.Base.{sum-cases}
use edge_tts_cpp.Common.Error.{
  Result, ok, fail, error, parse_error, guard, ◌>>=◌, ◌>>◌, >>=-ok, >>-ok,
}
use edge_tts_cpp.Core.Voice.{Voice, VoiceGender, voice_gender_from_string}
use edge_tts_cpp.Serialization.Json.{JsonLibrary}
use edge_tts_cpp.Serialization.MetadataJson.{or_fail, and_then}

-- The message of a gender that is not known replaces the one of the callee.
unfoldable pub gender_of : Bytes → Result VoiceGender
unfolding voice_gender_from_string
gender_of text = elim (voice_gender_from_string text) [
  | ok g ↦ ok g
  | fail e ↦ fail (error parse_error (lit "voice entry has unrecognised Gender value: " ++ text))
]

-- What stands before the first dash of the locale.
unfoldable pub language_of : Bytes → Bytes
unfolding find_byte
language_of locale = elim (find_byte b'-' locale) [ none ↦ locale | some dash ↦ take dash locale ]

module _ (J : JsonLibrary) where
  open J use {Value, parse_json, is_object, member, elements, string_value}

  unfoldable pub require_string : Value → Bytes → Result Bytes
  require_string obj key =
      or_fail (and_then (member obj key) string_value)
        (error parse_error (lit "voice entry missing required field: " ++ key))

  -- The elements that are strings.
  unfoldable pub strings : List Value → List Bytes
  strings [] = []
  strings (v ∷ vs) = elim (string_value v) [ none ↦ strings vs | some s ↦ s ∷ strings vs ]

  -- A list of `VoiceTag`; empty where it is missing.
  unfoldable pub tag_list : Value → Bytes → List Bytes
  unfolding strings
  tag_list entry key =
      elim (and_then (member entry (lit "VoiceTag"))
        λ tag. elim (is_object tag) [ true ↦ and_then (member tag key) elements | false ↦ none ]) [
          | none ↦ []
          | some vs ↦ strings vs
        ]

  -- The body of the loop.
  unfoldable pub parse_voice : Value → Result Voice
  unfolding require_string gender_of tag_list language_of
  parse_voice entry = do
    guard (is_object entry)
        (error parse_error (lit "voice list JSON array element must be an object"))
    name ← require_string entry (lit "Name")
    short_name ← require_string entry (lit "ShortName")
    gender_str ← require_string entry (lit "Gender")
    gender ← gender_of gender_str
    locale ← require_string entry (lit "Locale")
    codec ← require_string entry (lit "SuggestedCodec")
    friendly ← require_string entry (lit "FriendlyName")
    status ← require_string entry (lit "Status")
    ok (record {
      name = name;
      short_name = short_name;
      gender = gender;
      locale = locale;
      friendly_name = friendly;
      status = status;
      suggested_codec = codec;
      content_categories = tag_list entry (lit "ContentCategories");
      voice_personalities = tag_list entry (lit "VoicePersonalities");
      language = language_of locale;
    })

  unfoldable pub parse_voices : List Value → Result (List Voice)
  unfolding parse_voice
  parse_voices [] = ok []
  parse_voices (entry ∷ entries) = do v ← parse_voice entry; vs ← parse_voices entries; ok (v ∷ vs)

  unfoldable pub parse_voice_list : Bytes → Result (List Voice)
  unfolding parse_voices
  parse_voice_list text = elim (parse_json text) [
    | inl message ↦ fail (error parse_error (lit "malformed JSON: " ++ message))
    | inr root ↦ do
      entries ←
          or_fail (elements root) (error parse_error (lit "voice list JSON root must be an array"))
      parse_voices entries
  ]

  -- What a member holds, if it is a string.
  unfoldable pub text_member : Value → Bytes → Option Bytes
  text_member entry key = and_then (member entry key) string_value

-- The language of a locale: it has no dash, and is the locale or stands before a dash of it.
abbrev pub IsLanguage : Bytes → Bytes → Type 0
IsLanguage locale language =
    (find_byte b'-' language ≡ none)
    × ((language ≡ locale) ⊎ ((rest : Bytes) × (locale ≡ language ++ b'-' ∷ rest)))

split_at_dash :
    (s : Bytes) (i : ℕ)
    → find_byte b'-' s ≡ some i
    → (find_byte b'-' (take i s) ≡ none) × (s ≡ take i s ++ b'-' ∷ drop (suc i) s)
unfolding find_byte
split_at_dash [] i h = ground arith
split_at_dash (x ∷ xs) i h = elim (Bool-cases (x == b'-')) [
  | inl d ↦
      let z : i ≡ zero = ground arith in let e : x ≡ b'-' = ground arith in rw (z, e) (refl, refl)
  | inr d ↦ elim (Option-cases (find_byte b'-' xs)) [
    | inl n ↦ ground arith
    | inr (j, q) ↦
        let z : i ≡ suc j = ground arith in
        let (clear, split) = split_at_dash xs j q in rw z (ground arith, ap (λ t. x ∷ t) split)
  ]
]

language_of-IsLanguage : (locale : Bytes) → IsLanguage locale (language_of locale)
unfolding language_of
language_of-IsLanguage locale = elim (Option-cases (find_byte b'-' locale)) [
  | inl q ↦ rw (q, language_of) (q, inl refl)
  | inr (i, q) ↦
      let (clear, split) = split_at_dash locale i q in
      rw (q, language_of) (clear, inr (drop (suc i) locale, split))
]

module _ (J : JsonLibrary) where
  open J use {Value, parse_json, is_object, elements}

  require_string-ok :
      (entry : Value) (key v : Bytes)
      → require_string J entry key ≡ ok v
      → text_member J entry key ≡ some v
  unfolding require_string text_member
  require_string-ok entry key v e = elim (Option-cases (text_member J entry key)) [
    | inl q ↦ ground arith
    | inr (w, q) ↦ ground arith
  ]

  -- The fields that the entry has, and the one that is derived.
  pub record IsParsed (entry : Value) (v : Voice) : Type 0 where
    pub object : is_object entry ≡ true
    pub has_name : text_member J entry (lit "Name") ≡ some v.name
    pub has_short_name : text_member J entry (lit "ShortName") ≡ some v.short_name
    pub has_gender :
        (text : Bytes) × (text_member J entry (lit "Gender") ≡ some text)
        × (voice_gender_from_string text ≡ ok v.gender)
    pub has_locale : text_member J entry (lit "Locale") ≡ some v.locale
    pub spoken : IsLanguage v.locale v.language

  parse_voice-IsParsed : (entry : Value) (v : Voice) → parse_voice J entry ≡ ok v → IsParsed entry v
  unfolding parse_voice gender_of
  parse_voice-IsParsed entry v e = >>-ok (guard (is_object entry) _) _ e λ e0 r0.
      >>=-ok (require_string J entry (lit "Name")) _ r0 λ name e1 r1.
        >>=-ok (require_string J entry (lit "ShortName")) _ r1 λ short_name e2 r2.
          >>=-ok (require_string J entry (lit "Gender")) _ r2 λ gender_str e3 r3.
            >>=-ok (gender_of gender_str) _ r3 λ gender e4 r4.
              >>=-ok (require_string J entry (lit "Locale")) _ r4 λ locale e5 r5.
                >>=-ok (require_string J entry (lit "SuggestedCodec")) _ r5 λ codec e6 r6.
                  >>=-ok (require_string J entry (lit "FriendlyName")) _ r6 λ friendly e7 r7.
                    >>=-ok (require_string J entry (lit "Status")) _ r7 λ status e8 r8. record {
                      object = ground arith;
                      has_name = ground (arith, require_string-ok entry (lit "Name") name e1);
                      has_short_name =
                          ground (arith, require_string-ok entry (lit "ShortName") short_name e2);
                      has_gender = (
                        gender_str,
                        require_string-ok entry (lit "Gender") gender_str e3,
                        ground arith,
                      );
                      has_locale = ground (arith, require_string-ok entry (lit "Locale") locale e5);
                      spoken =
                          let e9 : language_of v.locale ≡ v.language = ground arith in
                          subst (IsLanguage v.locale) e9 (language_of-IsLanguage v.locale);
                    }

  -- One voice for each entry, in their order.
  abbrev pub AllParsed : List Value → List Voice → Type 0
  AllParsed [] [] = Unit
  AllParsed (entry ∷ entries) (v ∷ vs) = IsParsed entry v × AllParsed entries vs
  AllParsed _ _ = ⊥

  parse_voices-AllParsed :
      (entries : List Value) (vs : List Voice)
      → parse_voices J entries ≡ ok vs
      → AllParsed entries vs
  unfolding parse_voices
  parse_voices-AllParsed [] [] e = tt
  parse_voices-AllParsed [] (v ∷ vs) e = cc
  parse_voices-AllParsed (entry ∷ entries) vs e = >>=-ok (parse_voice J entry) _ e λ v e1 r1.
      >>=-ok (parse_voices J entries) _ r1 λ rest e2 r2.
        subst (AllParsed (entry ∷ entries)) {x = v ∷ rest} {y = vs} (cc)
          (parse_voice-IsParsed entry v e1, parse_voices-AllParsed entries rest e2)

  -- A list that is parsed comes from a JSON array, with one voice for each element, in the order of
  -- the array: the element is an object with the voice's Name, ShortName, Gender and Locale, the
  -- gender is the one that its text names, and the language has no dash and is the locale, or what
  -- stands before a dash of it.
  pub parse_voice_list-AllParsed :
      (text : Bytes) (vs : List Voice)
      → parse_voice_list J text ≡ ok vs
      → (root : Value) × (entries : List Value) × (parse_json text ≡ inr root)
        × (elements root ≡ some entries)
        × AllParsed entries vs
  unfolding parse_voice_list
  parse_voice_list-AllParsed text vs e = elim (sum-cases (parse_json text)) [
    | inl (m, q) ↦ grind arith
    | inr (root, q) ↦ elim (Option-cases (elements root)) [
      | inl n ↦ grind arith
      | inr (entries, n) ↦ (root, entries, q, n, parse_voices-AllParsed entries vs (ground arith))
    ]
  ]
