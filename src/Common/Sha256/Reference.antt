-- ===== src/Common/Sha256/Reference.antt =====
-- The hash of FIPS 180-4, section by section, with its constants computed from prime numbers.
use Prim.Native.Nat.{bit_and, bit_or, bit_xor}
use edge_tts_cpp.Base.{
  ℕ, zero, suc, ◌+◌, ◌-◌, ◌*◌, ◌/◌, ◌%◌, ◌^◌, List, [], ◌∷◌, ◌++◌, Bytes, map, leb, if◌then◌else◌,
  length, take, drop,
}
use edge_tts_cpp.Common.Sha256.{State}
use edge_tts_cpp.Common.Sha256.Padding.{padded_message}

-- The greatest `r` below 2 ^ `bits` with r ^ k ≤ x, bit by bit.
unfoldable pub root_from : ℕ → ℕ → ℕ → ℕ → ℕ
root_from zero k x r = r
root_from (suc i) k x r = root_from i k x (if leb ((r + 2 ^ i) ^ k) x then r + 2 ^ i else r)

-- The first 32 bits of the fractional part of the k-th root of p.
unfoldable pub fraction : ℕ → ℕ → ℕ
unfolding root_from
fraction k p = root_from 40 k (p * 2 ^ (32 * k)) 0 % 2 ^ 32

abbrev pub primes : List ℕ
primes =
    2 ∷ 3 ∷ 5 ∷ 7 ∷ 11 ∷ 13 ∷ 17 ∷ 19 ∷ 23 ∷ 29 ∷ 31 ∷ 37 ∷ 41 ∷ 43 ∷ 47 ∷ 53 ∷ 59 ∷ 61 ∷ 67 ∷ 71
    ∷ 73 ∷ 79 ∷ 83 ∷ 89 ∷ 97 ∷ 101 ∷ 103 ∷ 107 ∷ 109 ∷ 113 ∷ 127 ∷ 131 ∷ 137 ∷ 139 ∷ 149 ∷ 151 ∷ 157
    ∷ 163 ∷ 167 ∷ 173 ∷ 179 ∷ 181 ∷ 191 ∷ 193 ∷ 197 ∷ 199 ∷ 211 ∷ 223 ∷ 227 ∷ 229 ∷ 233 ∷ 239 ∷ 241
    ∷ 251 ∷ 257 ∷ 263 ∷ 269 ∷ 271 ∷ 277 ∷ 281 ∷ 283 ∷ 293 ∷ 307 ∷ 311 ∷ []

unfoldable pub constants : List ℕ
unfolding fraction
constants = map (fraction 3) primes

unfoldable pub first_hash : State
unfolding fraction
first_hash = record {
  a = fraction 2 2;
  b = fraction 2 3;
  c = fraction 2 5;
  d = fraction 2 7;
  e = fraction 2 11;
  f = fraction 2 13;
  g = fraction 2 17;
  h = fraction 2 19;
}

-- ROTR, and the six functions of section 4.1.2.
abbrev pub rotr : ℕ → ℕ → ℕ
rotr n x = bit_or (x / 2 ^ n) (x * 2 ^ (32 - n) % 2 ^ 32)

abbrev pub xor3 : ℕ → ℕ → ℕ → ℕ
xor3 x y z = bit_xor (bit_xor x y) z

abbrev pub ch : ℕ → ℕ → ℕ → ℕ
ch x y z = bit_xor (bit_and x y) (bit_and (2 ^ 32 - 1 - x) z)

abbrev pub maj : ℕ → ℕ → ℕ → ℕ
maj x y z = xor3 (bit_and x y) (bit_and x z) (bit_and y z)

abbrev pub big_sigma0 : ℕ → ℕ
big_sigma0 x = xor3 (rotr 2 x) (rotr 13 x) (rotr 22 x)

abbrev pub big_sigma1 : ℕ → ℕ
big_sigma1 x = xor3 (rotr 6 x) (rotr 11 x) (rotr 25 x)

abbrev pub small_sigma0 : ℕ → ℕ
small_sigma0 x = xor3 (rotr 7 x) (rotr 18 x) (x / 2 ^ 3)

abbrev pub small_sigma1 : ℕ → ℕ
small_sigma1 x = xor3 (rotr 17 x) (rotr 19 x) (x / 2 ^ 10)

-- The words of a block, and the schedule of section 6.2.2, all words from 16 on.
unfoldable pub words_of : Bytes → List ℕ
words_of (p ∷ q ∷ r ∷ s ∷ rest) = (((p * 256 + q) * 256 + r) * 256 + s) ∷ words_of rest
words_of _ = []

unfoldable pub nth : List ℕ → ℕ → ℕ
nth [] i = 0
nth (x ∷ xs) zero = x
nth (x ∷ xs) (suc i) = nth xs i

unfoldable pub schedule : ℕ → List ℕ → List ℕ
schedule zero w = w
schedule (suc n) w =
    let before : ℕ → ℕ = λ k. nth w (length w - k) in
    schedule n (
      w
      ++ ((small_sigma1 (before 2) + before 7 + small_sigma0 (before 15) + before 16) % 2 ^ 32)
        ∷ [])

-- A round: T1 and T2, and the eight variables.
unfoldable pub step : ℕ → ℕ → State → State
step k w s =
    let t1 = (s.h + big_sigma1 s.e + ch s.e s.f s.g + k + w) % 2 ^ 32 in
    let t2 = (big_sigma0 s.a + maj s.a s.b s.c) % 2 ^ 32 in
    record {
      a = (t1 + t2) % 2 ^ 32;
      b = s.a;
      c = s.b;
      d = s.c;
      e = (s.d + t1) % 2 ^ 32;
      f = s.e;
      g = s.f;
      h = s.g;
    }

unfoldable pub steps : List ℕ → List ℕ → State → State
unfolding step
steps (k ∷ ks) (w ∷ ws) s = steps ks ws (step k w s)
steps _ _ s = s

unfoldable pub add_words : State → State → State
add_words s t = record {
  a = (s.a + t.a) % 2 ^ 32;
  b = (s.b + t.b) % 2 ^ 32;
  c = (s.c + t.c) % 2 ^ 32;
  d = (s.d + t.d) % 2 ^ 32;
  e = (s.e + t.e) % 2 ^ 32;
  f = (s.f + t.f) % 2 ^ 32;
  g = (s.g + t.g) % 2 ^ 32;
  h = (s.h + t.h) % 2 ^ 32;
}

unfoldable pub compress : State → Bytes → State
compress h block = add_words h (steps constants (schedule 48 (words_of (take 64 block))) h)

unfoldable pub compress_all : ℕ → State → Bytes → State
compress_all zero h m = h
compress_all (suc n) h m = compress_all n (compress h m) (drop 64 m)

-- A word as four bytes.
abbrev pub four_bytes : ℕ → Bytes
four_bytes x = x / 2 ^ 24 % 256 ∷ x / 2 ^ 16 % 256 ∷ x / 2 ^ 8 % 256 ∷ x % 256 ∷ []

unfoldable pub words_out : State → Bytes
words_out s =
    four_bytes s.a
    ++ (four_bytes s.b
        ++ (four_bytes s.c
            ++ (four_bytes s.d
                ++ (four_bytes s.e ++ (four_bytes s.f ++ (four_bytes s.g ++ four_bytes s.h))))))

-- The whole: pad, compress block by block, and write the eight words out.
unfoldable pub standard_sha256 : Bytes → Bytes
standard_sha256 text =
    let m = padded_message text in words_out (compress_all (length m / 64) first_hash m)
