-- ===== src/Common/Sha256/Padding.antt =====
-- Sha256.cpp: the loop over the full blocks and the padding behind them, as one loop over the whole
-- padded message.
use edge_tts_cpp.Base.{
  ℕ, true, false, zero, suc, ◌+◌, ◌-◌, ◌*◌, ◌/◌, ◌%◌, ◌^◌, ◌≤◌, ◌<◌, [], ◌∷◌, ◌++◌, Bytes, length,
  length-append, length-drop, take, drop, replicate, ◌≡◌, refl, sym, ap, ap₂, ◌∙◌, arith, leb,
  Bool-cases, inl, inr,
}
use edge_tts_cpp.Common.Sha256.{
  State, initial_hash, sha256_block, full_blocks, hash_blocks, pad_blocks, padding, big_endian,
  digest, sha256_raw,
}

-- The message, the bit 1, the fewest zeros that fill the last block, and the length in 64 bits.
unfoldable pub padded_message : Bytes → Bytes
padded_message text =
    text
    ++ (0x80
        ∷ (replicate ((119 - length text % 64) % 64) 0 ++ big_endian 8 (length text * 8 % 2 ^ 64)))

-- Each block of 64 bytes in turn.
unfoldable pub reference_sha256 : Bytes → Bytes
reference_sha256 text =
    let m = padded_message text in digest (hash_blocks (length m / 64) initial_hash m)

take-append : (n : ℕ) (s t : Bytes) → n ≤ length s → take n (s ++ t) ≡ take n s
take-append zero s t h = refl
take-append (suc n) [] t h = absurd (omega arith)
take-append (suc n) (x ∷ s) t h = ap (λ r. x ∷ r) (take-append n s t (omega arith))

drop-append : (n : ℕ) (s t : Bytes) → n ≤ length s → drop n (s ++ t) ≡ drop n s ++ t
drop-append zero s t h = refl
drop-append (suc n) [] t h = absurd (omega arith)
drop-append (suc n) (x ∷ s) t h = drop-append n s t (omega arith)

sha256_block-append :
    (h : State) (s t : Bytes) → 64 ≤ length s → sha256_block h (s ++ t) ≡ sha256_block h s
unfolding sha256_block
sha256_block-append h s t l = rw (take-append 64 s t l) refl

is_full : (n : ℕ) → leb 64 n ≡ true → 64 ≤ n
is_full n h = ground arith

is_short : (n : ℕ) → leb 64 n ≡ false → n < 64
is_short n h = ground arith

one_more :
    (h : State) (text behind : Bytes) (n : ℕ)
    → 64 ≤ length text
    → hash_blocks n (sha256_block h text) (drop 64 text ++ behind)
      ≡ hash_blocks (suc n) h (text ++ behind)
unfolding hash_blocks
one_more h text behind n l =
    ap₂ (hash_blocks n) (sym (sha256_block-append h text behind l))
      (sym (drop-append 64 text behind l))

-- The loop over the full blocks, with anything behind the text.
full_blocks_lem :
    (fuel : ℕ) (h : State) (text behind : Bytes) (n : ℕ)
    → length text ≤ fuel
    → hash_blocks n (full_blocks fuel h text).0 ((full_blocks fuel h text).1 ++ behind)
      ≡ hash_blocks (length text / 64 + n) h (text ++ behind)
unfolding full_blocks
full_blocks_lem zero h text behind n l = ap (λ k. hash_blocks k h (text ++ behind)) (omega arith)
full_blocks_lem (suc fuel) h text behind n l = elim (Bool-cases (leb 64 (length text))) [
  | inl t ↦
      let long = is_full (length text) t in
      let rest = drop 64 text in
      rw t (
        full_blocks_lem fuel (sha256_block h text) rest behind n
          (omega (arith, length-drop 64 text))
        ∙ one_more h text behind (length rest / 64 + n) long
        ∙ ap (λ k. hash_blocks k h (text ++ behind)) (omega (arith, length-drop 64 text)))
  | inr t ↦
      let short = is_short (length text) t in
      rw t (ap (λ k. hash_blocks k h (text ++ behind)) (omega arith))
]

length-full_blocks :
    (fuel : ℕ) (h : State) (text : Bytes)
    → length text ≤ fuel
    → length (full_blocks fuel h text).1 ≡ length text % 64
unfolding full_blocks
length-full_blocks zero h text l = omega arith
length-full_blocks (suc fuel) h text l = elim (Bool-cases (leb 64 (length text))) [
  | inl t ↦
      let long = is_full (length text) t in
      rw t (
        length-full_blocks fuel (sha256_block h text) (drop 64 text)
          (omega (arith, length-drop 64 text))
        ∙ omega (arith, length-drop 64 text))
  | inr t ↦ let short = is_short (length text) t in rw t (omega arith)
]

length-replicate : (n x : ℕ) → length (replicate n x) ≡ n
length-replicate zero x = refl
length-replicate (suc n) x = ap suc (length-replicate n x)

length-big_endian : (n x : ℕ) → length (big_endian n x) ≡ n
unfolding big_endian
length-big_endian zero x = refl
length-big_endian (suc n) x =
    omega
      (arith, length-append (big_endian n (x / 256)) (x % 256 ∷ []), length-big_endian n (x / 256))

-- The zeros of the code's one or two blocks are the fewest.
zeros : (r : ℕ) → r < 64 → pad_blocks r * 64 - 9 - r ≡ (119 - r) % 64
unfolding pad_blocks
zeros r h = ground arith

-- What is put behind a message with so many zeros.
abbrev tail : ℕ → ℕ → Bytes
tail zs bits = 0x80 ∷ (replicate zs 0 ++ big_endian 8 (bits % 2 ^ 64))

length-tail : (zs bits : ℕ) → length (tail zs bits) ≡ zs + 9
length-tail zs bits = omega (
  arith,
  length-append (replicate zs 0) (big_endian 8 (bits % 2 ^ 64)),
  length-replicate zs 0,
  length-big_endian 8 (bits % 2 ^ 64),
)

-- The padded message is a whole number of blocks, those of the loop and those behind it.
blocks : (n : ℕ) → (n + ((119 - n % 64) % 64 + 9)) / 64 ≡ n / 64 + pad_blocks (n % 64)
unfolding pad_blocks
blocks n = ground arith

padded_message-blocks :
    (text : Bytes)
    → length (padded_message text) / 64 ≡ length text / 64 + pad_blocks (length text % 64)
unfolding padded_message
padded_message-blocks text =
    let t = tail ((119 - length text % 64) % 64) (length text * 8) in
    ap (λ k. k / 64)
      (length-append text t
        ∙ ap (λ k. length text + k) (length-tail ((119 - length text % 64) % 64) (length text * 8)))
    ∙ blocks (length text)

padding_lem :
    (rest : Bytes) (bits : ℕ)
    → padding rest bits ≡ rest ++ tail (pad_blocks (length rest) * 64 - 9 - length rest) bits
unfolding padding
padding_lem rest bits = refl

hashed :
    (text : Bytes)
    → hash_blocks
        (pad_blocks (length (full_blocks (length text) initial_hash text).1))
        (full_blocks (length text) initial_hash text).0
        (padding (full_blocks (length text) initial_hash text).1 (length text * 8))
      ≡ hash_blocks (length (padded_message text) / 64) initial_hash (padded_message text)
unfolding padded_message
hashed text =
    let bits = length text * 8 in
    let r = length text % 64 in
    let looped = full_blocks (length text) initial_hash text in
    let size = length-full_blocks (length text) initial_hash text (omega arith) in
    let few = zeros r (omega arith) in
    ap (hash_blocks (pad_blocks (length looped.1)) looped.0) (padding_lem looped.1 bits)
    ∙ ap
        (λ k.
          hash_blocks (pad_blocks k) looped.0 (looped.1 ++ tail (pad_blocks k * 64 - 9 - k) bits))
        size
    ∙ ap (λ k. hash_blocks (pad_blocks r) looped.0 (looped.1 ++ tail k bits)) few
    ∙ full_blocks_lem (length text) initial_hash text (tail ((119 - r) % 64) bits) (pad_blocks r)
        (omega arith)
    ∙ ap (λ k. hash_blocks k initial_hash (padded_message text)) (sym (padded_message-blocks text))

-- The same compression over the message, padded first and then hashed block by block.
pub sha256_raw-reference : (text : Bytes) → sha256_raw text ≡ reference_sha256 text
unfolding sha256_raw reference_sha256
sha256_raw-reference text = ap digest (hashed text)
