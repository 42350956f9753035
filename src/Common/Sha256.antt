-- ===== src/Common/Sha256.antt =====
-- modules/common: Sha256.cpp. A `uint32_t` is a number below 2 ^ 32.
pub mod Padding
pub mod Reference
pub mod Standard
use Prim.Native.Nat.{bit_and, bit_or, bit_xor}
use edge_tts_cpp.Base.{
  ℕ, zero, suc, ◌+◌, ◌-◌, ◌*◌, ◌/◌, ◌%◌, ◌^◌, List, [], ◌∷◌, ◌++◌, Bytes, codes, ltb, leb,
  if◌then◌else◌, length, take, drop, replicate, ◌≡◌, refl,
}
use edge_tts_cpp.Common.Hex.{hex_encode_lower, hex_encode_upper}

abbrev pub word_mod : ℕ
word_mod = 2 ^ 32

unfoldable pub rotr32 : ℕ → ℕ → ℕ
rotr32 x n = bit_or (x / 2 ^ n) (x * 2 ^ (32 - n) % word_mod)

abbrev pub add32 : ℕ → ℕ → ℕ
add32 a b = (a + b) % word_mod

-- `~x`.
abbrev pub not32 : ℕ → ℕ
not32 x = word_mod - 1 - x

unfoldable pub round_constants : List ℕ
round_constants =
    0x428a2f98 ∷ 0x71374491 ∷ 0xb5c0fbcf ∷ 0xe9b5dba5 ∷ 0x3956c25b ∷ 0x59f111f1 ∷ 0x923f82a4
    ∷ 0xab1c5ed5 ∷ 0xd807aa98 ∷ 0x12835b01 ∷ 0x243185be ∷ 0x550c7dc3 ∷ 0x72be5d74 ∷ 0x80deb1fe
    ∷ 0x9bdc06a7 ∷ 0xc19bf174 ∷ 0xe49b69c1 ∷ 0xefbe4786 ∷ 0x0fc19dc6 ∷ 0x240ca1cc ∷ 0x2de92c6f
    ∷ 0x4a7484aa ∷ 0x5cb0a9dc ∷ 0x76f988da ∷ 0x983e5152 ∷ 0xa831c66d ∷ 0xb00327c8 ∷ 0xbf597fc7
    ∷ 0xc6e00bf3 ∷ 0xd5a79147 ∷ 0x06ca6351 ∷ 0x14292967 ∷ 0x27b70a85 ∷ 0x2e1b2138 ∷ 0x4d2c6dfc
    ∷ 0x53380d13 ∷ 0x650a7354 ∷ 0x766a0abb ∷ 0x81c2c92e ∷ 0x92722c85 ∷ 0xa2bfe8a1 ∷ 0xa81a664b
    ∷ 0xc24b8b70 ∷ 0xc76c51a3 ∷ 0xd192e819 ∷ 0xd6990624 ∷ 0xf40e3585 ∷ 0x106aa070 ∷ 0x19a4c116
    ∷ 0x1e376c08 ∷ 0x2748774c ∷ 0x34b0bcb5 ∷ 0x391c0cb3 ∷ 0x4ed8aa4a ∷ 0x5b9cca4f ∷ 0x682e6ff3
    ∷ 0x748f82ee ∷ 0x78a5636f ∷ 0x84c87814 ∷ 0x8cc70208 ∷ 0x90befffa ∷ 0xa4506ceb ∷ 0xbef9a3f7
    ∷ 0xc67178f2 ∷ []

-- The eight working variables, and the hash itself.
pub record State : Type 0 where
  pub a : ℕ
  pub b : ℕ
  pub c : ℕ
  pub d : ℕ
  pub e : ℕ
  pub f : ℕ
  pub g : ℕ
  pub h : ℕ

unfoldable pub initial_hash : State
initial_hash = record {
  a = 0x6a09e667;
  b = 0xbb67ae85;
  c = 0x3c6ef372;
  d = 0xa54ff53a;
  e = 0x510e527f;
  f = 0x9b05688c;
  g = 0x1f83d9ab;
  h = 0x5be0cd19;
}

-- The first sixteen words of the schedule: four bytes each, the highest first.
unfoldable pub load_words : Bytes → List ℕ
load_words (p ∷ q ∷ r ∷ s ∷ rest) = (p * 2 ^ 24 + q * 2 ^ 16 + r * 2 ^ 8 + s) ∷ load_words rest
load_words _ = []

-- The word at `i` from the words before it, the last one first in `w`.
unfoldable pub next_word : (ℕ → ℕ) → ℕ
unfolding rotr32
next_word back =
    let s0 = bit_xor (bit_xor (rotr32 (back 15) 7) (rotr32 (back 15) 18)) (back 15 / 2 ^ 3) in
    let s1 = bit_xor (bit_xor (rotr32 (back 2) 17) (rotr32 (back 2) 19)) (back 2 / 2 ^ 10) in
    add32 (add32 (add32 (back 16) s0) (back 7)) s1

unfoldable pub word_at : List ℕ → ℕ → ℕ
word_at [] i = 0
word_at (x ∷ xs) zero = x
word_at (x ∷ xs) (suc i) = word_at xs i

-- `for (i = 16; i < 64; ++i)`, with the rounds left; `i` is the length of `w`.
unfoldable pub extend_words : ℕ → List ℕ → List ℕ
unfolding next_word word_at
extend_words zero w = w
extend_words (suc n) w = extend_words n (w ++ next_word (λ k. word_at w (length w - k)) ∷ [])

unfoldable pub round : ℕ → ℕ → State → State
unfolding rotr32
round k w s =
    let sum1 = bit_xor (bit_xor (rotr32 s.e 6) (rotr32 s.e 11)) (rotr32 s.e 25) in
    let ch = bit_xor (bit_and s.e s.f) (bit_and (not32 s.e) s.g) in
    let tmp1 = add32 (add32 (add32 (add32 s.h sum1) ch) k) w in
    let sum0 = bit_xor (bit_xor (rotr32 s.a 2) (rotr32 s.a 13)) (rotr32 s.a 22) in
    let maj = bit_xor (bit_xor (bit_and s.a s.b) (bit_and s.a s.c)) (bit_and s.b s.c) in
    let tmp2 = add32 sum0 maj in
    record {
      a = add32 tmp1 tmp2;
      b = s.a;
      c = s.b;
      d = s.c;
      e = add32 s.d tmp1;
      f = s.e;
      g = s.f;
      h = s.g;
    }

unfoldable pub rounds : List ℕ → List ℕ → State → State
unfolding round
rounds (k ∷ ks) (w ∷ ws) s = rounds ks ws (round k w s)
rounds _ _ s = s

unfoldable pub add_state : State → State → State
add_state s t = record {
  a = add32 s.a t.a;
  b = add32 s.b t.b;
  c = add32 s.c t.c;
  d = add32 s.d t.d;
  e = add32 s.e t.e;
  f = add32 s.f t.f;
  g = add32 s.g t.g;
  h = add32 s.h t.h;
}

unfoldable pub sha256_block : State → Bytes → State
unfolding load_words extend_words rounds round_constants add_state
sha256_block h block =
    add_state h (rounds round_constants (extend_words 48 (load_words (take 64 block))) h)

-- `while (processed + 64 <= len)`: the hash, and the bytes that remain. Fuel is the length.
unfoldable pub full_blocks : ℕ → State → Bytes → State × Bytes
full_blocks zero h text = (h, text)
full_blocks (suc fuel) h text =
    let more = full_blocks fuel (sha256_block h text) (drop 64 text) in
    if leb 64 (length text) then more else (h, text)

-- A number as `n` bytes, the highest first.
unfoldable pub big_endian : ℕ → ℕ → Bytes
big_endian zero x = []
big_endian (suc n) x = big_endian n (x / 256) ++ (x % 256) ∷ []

unfoldable pub pad_blocks : ℕ → ℕ
pad_blocks remaining = if ltb remaining 56 then 1 else 2

-- `pad`, as far as it is hashed: the rest, 0x80, zeros, and the length in the last eight bytes.
unfoldable pub padding : Bytes → ℕ → Bytes
unfolding pad_blocks big_endian
padding rest bit_len =
    rest
    ++ (0x80
        ∷ (replicate (pad_blocks (length rest) * 64 - 9 - length rest) 0
            ++ big_endian 8 (bit_len % 2 ^ 64)))

-- `for (b = 0; b < pad_blocks; ++b)`.
unfoldable pub hash_blocks : ℕ → State → Bytes → State
hash_blocks zero h text = h
hash_blocks (suc n) h text = hash_blocks n (sha256_block h text) (drop 64 text)

unfoldable pub digest : State → Bytes
unfolding big_endian
digest s =
    big_endian 4 s.a
    ++ (big_endian 4 s.b
        ++ (big_endian 4 s.c
            ++ (big_endian 4 s.d
                ++ (big_endian 4 s.e
                    ++ (big_endian 4 s.f ++ (big_endian 4 s.g ++ big_endian 4 s.h))))))

unfoldable pub sha256_raw : Bytes → Bytes
unfolding full_blocks padding hash_blocks digest initial_hash pad_blocks
sha256_raw text =
    let (h, rest) = full_blocks (length text) initial_hash text in
    digest (hash_blocks (pad_blocks (length rest)) h (padding rest (length text * 8)))

unfoldable pub sha256_hex : Bytes → Bytes
unfolding sha256_raw hex_encode_lower
sha256_hex text = hex_encode_lower (sha256_raw text)

unfoldable pub sha256_hex_upper : Bytes → Bytes
unfolding sha256_raw hex_encode_upper
sha256_hex_upper text = hex_encode_upper (sha256_raw text)

abc :
    sha256_hex (codes "abc")
    ≡ codes "ba7816bf8f01cfea414140de5dae2223b00361a396177a9cb410ff61f20015ad"
unfolding sha256_hex sha256_block
abc = refl
