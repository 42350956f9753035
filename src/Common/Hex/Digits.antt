-- ===== src/Common/Hex/Digits.antt =====
-- Hex.cpp: the digits of encoded bytes.
use edge_tts_cpp.Base.{
  ℕ, zero, suc, ◌+◌, ◌*◌, ◌/◌, ◌%◌, ◌<◌, true, ◌&&◌, ◌||◌, some, [], ◌∷◌, ◌++◌, Bytes, length,
  get_elem?, ◌≡◌, refl, ap, ◌∙◌, arith, All, leb, ltb,
}
use edge_tts_cpp.Common.Hex.{digit, encode}

abbrev pub IsByte : ℕ → Type 0
IsByte b = b < 256

-- A decimal digit, or one of six letters from `letter` on.
abbrev pub IsDigit : ℕ → ℕ → Type 0
IsDigit letter c = ((leb b'0' c && leb c b'9') || (leb letter c && ltb c (letter + 6))) ≡ true

digit-IsDigit : (letter n : ℕ) → n < 16 → IsDigit letter (digit letter n)
unfolding digit
digit-IsDigit letter n h = ground arith

pub encode-digits :
    (letter : ℕ) (bs : Bytes) → All IsByte bs → All (IsDigit letter) (encode letter bs)
unfolding encode
encode-digits letter [] h = tt
encode-digits letter (b ∷ bs) (h, hs) = (
  digit-IsDigit letter (b / 16) (omega arith),
  (digit-IsDigit letter (b % 16) (omega arith), encode-digits letter bs hs),
)

pub length-encode : (letter : ℕ) (bs : Bytes) → length (encode letter bs) ≡ 2 * length bs
unfolding encode
length-encode letter [] = refl
length-encode letter (b ∷ bs) = omega (arith, length-encode letter bs)

pub encode-append :
    (letter : ℕ) (s t : Bytes) → encode letter (s ++ t) ≡ encode letter s ++ encode letter t
unfolding encode
encode-append letter [] t = refl
encode-append letter (b ∷ s) t =
    ap (λ r. digit letter (b / 16) ∷ digit letter (b % 16) ∷ r) (encode-append letter s t)

-- The first digit of a byte.
pub get_elem-encode :
    (letter i b : ℕ) (bs : Bytes)
    → get_elem? bs i ≡ some b
    → get_elem? (encode letter bs) (2 * i) ≡ some (digit letter (b / 16))
unfolding encode
get_elem-encode letter zero b [] e = grind arith
get_elem-encode letter (suc i) b [] e = grind arith
get_elem-encode letter zero b (x ∷ bs) e = ground arith
get_elem-encode letter (suc i) b (x ∷ bs) e =
    let further : 2 * suc i ≡ suc (suc (2 * i)) = omega arith in
    ap (get_elem? (digit letter (x / 16) ∷ digit letter (x % 16) ∷ encode letter bs)) further
    ∙ get_elem-encode letter i b bs e
