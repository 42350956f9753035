-- ===== src/Common/Sha256/Standard.antt =====
-- Sha256.cpp computes the hash of FIPS 180-4, function by function.
use edge_tts_cpp.Base.{
  ℕ, zero, suc, ◌+◌, ◌-◌, ◌*◌, ◌/◌, ◌%◌, ◌^◌, List, [], ◌∷◌, ◌++◌, Bytes, length, take, drop, ◌≡◌,
  refl, sym, ap, ap₂, ◌∙◌, arith,
}
use edge_tts_cpp.Common.Sha256.{
  State, round_constants, initial_hash, load_words, next_word, word_at, extend_words, round, rounds,
  add_state, sha256_block, hash_blocks, digest, big_endian, rotr32, sha256_raw,
}
use edge_tts_cpp.Common.Sha256.Padding.{padded_message, reference_sha256, sha256_raw-reference}
use edge_tts_cpp.Common.Sha256.Reference.{
  constants, first_hash, ch, maj, big_sigma0, big_sigma1, small_sigma0, small_sigma1, words_of, nth,
  schedule, step, steps, add_words, compress, compress_all, four_bytes, words_out, standard_sha256,
}

constants_lem : constants ≡ round_constants
unfolding constants round_constants
constants_lem = refl

first_hash_lem : first_hash ≡ initial_hash
unfolding first_hash initial_hash
first_hash_lem = refl

load_words-standard : (s : Bytes) → load_words s ≡ words_of s
unfolding load_words words_of
load_words-standard [] = refl
load_words-standard (p ∷ []) = refl
load_words-standard (p ∷ q ∷ []) = refl
load_words-standard (p ∷ q ∷ r ∷ []) = refl
load_words-standard (p ∷ q ∷ r ∷ s ∷ rest) =
    let word : p * 2 ^ 24 + q * 2 ^ 16 + r * 2 ^ 8 + s ≡ ((p * 256 + q) * 256 + r) * 256 + s =
      omega arith in
    ap₂ ◌∷◌ word (load_words-standard rest)

sum4 : (a b c d : ℕ) → ((((a + b) % 2 ^ 32 + c) % 2 ^ 32 + d) % 2 ^ 32) ≡ (d + c + b + a) % 2 ^ 32
sum4 a b c d = omega arith

next_word-standard :
    (back : ℕ → ℕ)
    → next_word back ≡ (small_sigma1 (back 2) + back 7 + small_sigma0 (back 15) + back 16) % 2 ^ 32
unfolding next_word rotr32
next_word-standard back = sum4 (back 16) (small_sigma0 (back 15)) (back 7) (small_sigma1 (back 2))

word_at-standard : (w : List ℕ) (i : ℕ) → word_at w i ≡ nth w i
unfolding word_at nth
word_at-standard [] i = refl
word_at-standard (x ∷ xs) zero = refl
word_at-standard (x ∷ xs) (suc i) = word_at-standard xs i

extend_words-standard : (n : ℕ) (w : List ℕ) → extend_words n w ≡ schedule n w
unfolding extend_words schedule
extend_words-standard zero w = refl
extend_words-standard (suc n) w =
    ap (λ back. extend_words n (w ++ next_word back ∷ []))
      (λ i k. word_at-standard w (length w - k) i)
    ∙ ap (λ x. extend_words n (w ++ x ∷ [])) (next_word-standard (λ k. nth w (length w - k)))
    ∙ extend_words-standard n _

sum5 :
    (a b c d e : ℕ)
    → (((((a + b) % 2 ^ 32 + c) % 2 ^ 32 + d) % 2 ^ 32 + e) % 2 ^ 32) ≡ (a + b + c + d + e) % 2 ^ 32
sum5 a b c d e = omega arith

round-standard : (k w : ℕ) (s : State) → round k w s ≡ step k w s
unfolding round step rotr32
round-standard k w s =
    ap
      (λ t. record {
        a = (t + (big_sigma0 s.a + maj s.a s.b s.c) % 2 ^ 32) % 2 ^ 32;
        b = s.a;
        c = s.b;
        d = s.c;
        e = (s.d + t) % 2 ^ 32;
        f = s.e;
        g = s.f;
        h = s.g;
      })
      (sum5 s.h (big_sigma1 s.e) (ch s.e s.f s.g) k w)

rounds-standard : (ks ws : List ℕ) (s : State) → rounds ks ws s ≡ steps ks ws s
unfolding rounds steps
rounds-standard [] ws s = refl
rounds-standard (k ∷ ks) [] s = refl
rounds-standard (k ∷ ks) (w ∷ ws) s =
    ap (rounds ks ws) (round-standard k w s) ∙ rounds-standard ks ws (step k w s)

sha256_block_lem :
    (h : State) (block : Bytes)
    → sha256_block h block
      ≡ add_state h (rounds round_constants (extend_words 48 (load_words (take 64 block))) h)
unfolding sha256_block
sha256_block_lem h block = refl

add_state-standard : (s t : State) → add_state s t ≡ add_words s t
unfolding add_state add_words
add_state-standard s t = refl

rounds-block :
    (h : State) (s : Bytes)
    → rounds round_constants (extend_words 48 (load_words s)) h
      ≡ steps constants (schedule 48 (words_of s)) h
rounds-block h s =
    ap (λ w. rounds round_constants (extend_words 48 w) h) (load_words-standard s)
    ∙ ap (λ w. rounds round_constants w h) (extend_words-standard 48 (words_of s))
    ∙ ap (λ k. rounds k (schedule 48 (words_of s)) h) (sym constants_lem)
    ∙ rounds-standard constants (schedule 48 (words_of s)) h

sha256_block-standard : (h : State) (block : Bytes) → sha256_block h block ≡ compress h block
unfolding compress
sha256_block-standard h block =
    sha256_block_lem h block
    ∙ ap (add_state h) (rounds-block h (take 64 block))
    ∙ add_state-standard h (steps constants (schedule 48 (words_of (take 64 block))) h)

hash_blocks-zero : (h : State) (m : Bytes) → hash_blocks zero h m ≡ h
unfolding hash_blocks
hash_blocks-zero h m = refl

hash_blocks-suc :
    (n : ℕ) (h : State) (m : Bytes)
    → hash_blocks (suc n) h m ≡ hash_blocks n (sha256_block h m) (drop 64 m)
unfolding hash_blocks
hash_blocks-suc n h m = refl

hash_blocks-standard : (n : ℕ) (h : State) (m : Bytes) → hash_blocks n h m ≡ compress_all n h m
unfolding compress_all
hash_blocks-standard zero h m = hash_blocks-zero h m
hash_blocks-standard (suc n) h m =
    hash_blocks-suc n h m
    ∙ ap (λ s. hash_blocks n s (drop 64 m)) (sha256_block-standard h m)
    ∙ hash_blocks-standard n (compress h m) (drop 64 m)

third : (x : ℕ) → x / 256 / 256 / 256 % 256 ≡ x / 2 ^ 24 % 256
third x = omega arith

second : (x : ℕ) → x / 256 / 256 % 256 ≡ x / 2 ^ 16 % 256
second x = omega arith

big_endian-standard : (x : ℕ) → big_endian 4 x ≡ four_bytes x
unfolding big_endian
big_endian-standard x = ap₂ (λ p q. p ∷ q ∷ x / 256 % 256 ∷ x % 256 ∷ []) (third x) (second x)

digest-standard : (s : State) → digest s ≡ words_out s
unfolding digest words_out
digest-standard s = ap₂ ◌++◌ (big_endian-standard s.a) (
    ap₂ ◌++◌ (big_endian-standard s.b) (
      ap₂ ◌++◌ (big_endian-standard s.c) (
        ap₂ ◌++◌ (big_endian-standard s.d) (
          ap₂ ◌++◌ (big_endian-standard s.e) (
            ap₂ ◌++◌ (big_endian-standard s.f)
              (ap₂ ◌++◌ (big_endian-standard s.g) (big_endian-standard s.h)))))))

-- For every text the digest is that of a reference for FIPS 180-4 that is written on its own: the
-- message is padded first, with its length in 64 bits, and compressed block by block, with the
-- functions, the schedule and the rounds written out and the constants computed from prime numbers.
pub sha256_raw-standard : (text : Bytes) → sha256_raw text ≡ standard_sha256 text
unfolding standard_sha256 reference_sha256
sha256_raw-standard text =
    let m = padded_message text in
    sha256_raw-reference text
    ∙ ap (λ s. digest (hash_blocks (length m / 64) s m)) (sym first_hash_lem)
    ∙ ap digest (hash_blocks-standard (length m / 64) first_hash m)
    ∙ digest-standard (compress_all (length m / 64) first_hash m)
