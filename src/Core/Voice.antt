-- ===== src/Core/Voice.antt =====
-- modules/core: Voice.hpp and Voice.cpp.
use edge_tts_cpp.Base.{
  Bool, true, false, ◌&&◌, List, [], ◌∷◌, Bytes, lit, codes, bytes_eq, bytes_eq_refl,
  bytes_eq_sound, if◌then◌else◌, ◌≡◌, refl, arith, ◌↔◌,
}
use edge_tts_cpp.Common.Error.{Result, ok, fail, error_in, invalid_argument}

pub data VoiceGender : Type 0 where
  unknown female male : VoiceGender

unfoldable pub gender_to_string : VoiceGender → Bytes
gender_to_string female = codes "Female"
gender_to_string male = codes "Male"
gender_to_string unknown = codes "Unknown"

unfoldable pub voice_gender_from_string : Bytes → Result VoiceGender
unfolding bytes_eq
voice_gender_from_string value =
    if bytes_eq value (codes "Female")
    then ok female
    else if bytes_eq value (codes "Male")
    then ok male
    else fail (error_in invalid_argument (lit "voice_gender_from_string: unrecognised value") value)

-- `a == b` of two genders.
unfoldable pub gender_eq : VoiceGender → VoiceGender → Bool
gender_eq unknown unknown = true
gender_eq female female = true
gender_eq male male = true
gender_eq _ _ = false

pub record Voice : Type 0 where
  pub name : Bytes
  pub short_name : Bytes
  pub gender : VoiceGender
  pub locale : Bytes
  pub friendly_name : Bytes
  pub status : Bytes
  pub suggested_codec : Bytes
  pub content_categories : List Bytes
  pub voice_personalities : List Bytes
  pub language : Bytes

-- `==` of two vectors of strings.
unfoldable pub texts_eq : List Bytes → List Bytes → Bool
unfolding bytes_eq
texts_eq [] [] = true
texts_eq [] (y ∷ ys) = false
texts_eq (x ∷ xs) [] = false
texts_eq (x ∷ xs) (y ∷ ys) = bytes_eq x y && texts_eq xs ys

-- `Voice::operator==`.
unfoldable pub voice_eq : Voice → Voice → Bool
unfolding bytes_eq gender_eq texts_eq
voice_eq v o =
    bytes_eq v.name o.name
    && (bytes_eq v.short_name o.short_name
        && (gender_eq v.gender o.gender
            && (bytes_eq v.locale o.locale
                && (bytes_eq v.friendly_name o.friendly_name
                    && (bytes_eq v.status o.status
                        && (bytes_eq v.suggested_codec o.suggested_codec
                            && (texts_eq v.content_categories o.content_categories
                                && (texts_eq v.voice_personalities o.voice_personalities
                                    && bytes_eq v.language o.language))))))))

pub gender_eq_sound : (a b : VoiceGender) → gender_eq a b ≡ true → a ≡ b
unfolding gender_eq
gender_eq_sound unknown unknown h = refl
gender_eq_sound unknown female h = ground arith
gender_eq_sound unknown male h = ground arith
gender_eq_sound female unknown h = ground arith
gender_eq_sound female female h = refl
gender_eq_sound female male h = ground arith
gender_eq_sound male unknown h = ground arith
gender_eq_sound male female h = ground arith
gender_eq_sound male male h = refl

pub gender_eq_refl : (a : VoiceGender) → gender_eq a a ≡ true
unfolding gender_eq
gender_eq_refl unknown = refl
gender_eq_refl female = refl
gender_eq_refl male = refl

texts_eq_sound : (xs ys : List Bytes) → texts_eq xs ys ≡ true → xs ≡ ys
unfolding texts_eq
texts_eq_sound [] [] h = refl
texts_eq_sound [] (y ∷ ys) h = ground arith
texts_eq_sound (x ∷ xs) [] h = ground arith
texts_eq_sound (x ∷ xs) (y ∷ ys) h = ground (arith, bytes_eq_sound x y, texts_eq_sound xs ys)

texts_eq_refl : (xs : List Bytes) → texts_eq xs xs ≡ true
unfolding texts_eq
texts_eq_refl [] = refl
texts_eq_refl (x ∷ xs) = ground (arith, bytes_eq_refl x, texts_eq_refl xs)

-- The comparison of two voices, field by field, is true exactly when they are equal: no field is
-- left out of it.
voice_eq_iff : (v o : Voice) → (voice_eq v o ≡ true) ↔ (v ≡ o)
unfolding voice_eq
voice_eq_iff v o = (
  λ h. ground (
    arith,
    bytes_eq_sound v.name o.name,
    bytes_eq_sound v.short_name o.short_name,
    gender_eq_sound v.gender o.gender,
    bytes_eq_sound v.locale o.locale,
    bytes_eq_sound v.friendly_name o.friendly_name,
    bytes_eq_sound v.status o.status,
    bytes_eq_sound v.suggested_codec o.suggested_codec,
    texts_eq_sound v.content_categories o.content_categories,
    texts_eq_sound v.voice_personalities o.voice_personalities,
    bytes_eq_sound v.language o.language,
  ),
  λ e. ground (
    arith,
    bytes_eq_refl v.name,
    bytes_eq_refl v.short_name,
    gender_eq_refl v.gender,
    bytes_eq_refl v.locale,
    bytes_eq_refl v.friendly_name,
    bytes_eq_refl v.status,
    bytes_eq_refl v.suggested_codec,
    texts_eq_refl v.content_categories,
    texts_eq_refl v.voice_personalities,
    bytes_eq_refl v.language,
  ),
)
