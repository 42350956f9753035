-- ===== src/Common/Hex.antt =====
-- modules/common: Hex.cpp. A byte is a number below 256.
pub mod Digits
use edge_tts_cpp.Base.{
  ℕ, Bool, true, false, ◌&&◌, ◌||◌, ◌+◌, ◌-◌, ◌/◌, ◌%◌, [], ◌∷◌, Bytes, leb, ltb, if◌then◌else◌,
}

-- `digits[n]` of the tables `LOWER` and `UPPER`, whose letters start at `a` and at `A`.
unfoldable pub digit : ℕ → ℕ → ℕ
digit letter n = if ltb n 10 then b'0' + n else letter + (n - 10)

unfoldable pub encode : ℕ → Bytes → Bytes
unfolding digit
encode letter [] = []
encode letter (b ∷ bs) = digit letter (b / 16) ∷ digit letter (b % 16) ∷ encode letter bs

unfoldable pub hex_encode_lower : Bytes → Bytes
unfolding encode
hex_encode_lower = encode b'a'

unfoldable pub hex_encode_upper : Bytes → Bytes
unfolding encode
hex_encode_upper = encode b'A'

pub is_hex_digit : ℕ → Bool
is_hex_digit c =
    (leb b'0' c && leb c b'9') || (leb b'a' c && leb c b'f') || (leb b'A' c && leb c b'F')

pub all_hex : Bytes → Bool
unfolding is_hex_digit
all_hex [] = true
all_hex (c ∷ cs) = if is_hex_digit c then all_hex cs else false

unfoldable pub is_hex : Bytes → Bool
unfolding all_hex
is_hex [] = false
is_hex (c ∷ cs) = all_hex (c ∷ cs)
