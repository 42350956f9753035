-- ===== src/Common/Utf8/Spec.antt =====
-- Utf8.cpp: `is_valid_utf8` accepts the encodings of Unicode scalar values, and nothing else.
use edge_tts_cpp.Base.{
  ℕ, suc, ◌+◌, ◌*◌, ◌/◌, ◌%◌, ◌≤◌, ◌<◌, true, none, some, List, [], ◌∷◌, ◌++◌, Bytes, ltb,
  if◌then◌else◌, All, ◌≡◌, ◌⊎◌, inl, inr, refl, arith, Bool-cases, ◌-◌, ap,
}
use native.Mathlib.Decide.{dec_lt}
use edge_tts_cpp.Common.Utf8.{Lead, is_continuation, read_continuations, read_lead, is_acceptable}

-- A Unicode code point that is no surrogate.
abbrev pub IsScalar : ℕ → Type 0
IsScalar cp = (cp < 0xD800) ⊎ ((0xE000 ≤ cp) × (cp < 0x110000))

-- The encoding of the Unicode standard.
unfoldable pub encode : ℕ → Bytes
encode cp =
    if ltb cp 0x80
    then cp ∷ []
    else if ltb cp 0x800
    then (192 + cp / 64) ∷ (128 + cp % 64) ∷ []
    else if ltb cp 0x10000
    then (224 + cp / 4096) ∷ (128 + cp / 64 % 64) ∷ (128 + cp % 64) ∷ []
    else (240 + cp / 262144) ∷ (128 + cp / 4096 % 64) ∷ (128 + cp / 64 % 64) ∷ (128 + cp % 64) ∷ []

abbrev pub encode_all : List ℕ → Bytes
encode_all [] = []
encode_all (cp ∷ cps) = encode cp ++ encode_all cps

abbrev pub IsBytes : Bytes → Type 0
IsBytes = All (λ b. b < 256)

abbrev pub lead2 : ℕ → Lead
lead2 b = record { extra = 1; min_cp = 0x80; bits = b }

abbrev pub lead3 : ℕ → Lead
lead3 b = record { extra = 2; min_cp = 0x800; bits = b }

abbrev pub lead4 : ℕ → Lead
lead4 b = record { extra = 3; min_cp = 0x10000; bits = b }

pub read_lead-two : (x : ℕ) → 2 ≤ x → x < 32 → read_lead (192 + x) ≡ some (lead2 x)
unfolding read_lead
read_lead-two x h k = ground arith

pub read_lead-three : (x : ℕ) → x < 16 → read_lead (224 + x) ≡ some (lead3 x)
unfolding read_lead
read_lead-three x h = ground arith

pub read_lead-four : (x : ℕ) → x < 5 → read_lead (240 + x) ≡ some (lead4 x)
unfolding read_lead
read_lead-four x h = ground arith

pub read_continuations-more :
    (n cp y : ℕ) (s : Bytes)
    → y < 64
    → read_continuations (suc n) cp ((128 + y) ∷ s) ≡ read_continuations n (cp * 64 + y) s
unfolding read_continuations
read_continuations-more n cp y s h =
    let c : is_continuation (128 + y) ≡ true = unfold is_continuation in ground arith in
    let d : (128 + y) % 64 ≡ y = omega arith in rw (c, d)

-- A lead byte is one of four ranges.
pub read_lead-cases :
    (b : ℕ)
    → 128 ≤ b
    → b < 256
    → (read_lead b ≡ none)
      ⊎ ((x : ℕ) × (b ≡ 192 + x) × (2 ≤ x) × (x < 32) × (read_lead b ≡ some (lead2 x)))
      ⊎ ((x : ℕ) × (b ≡ 224 + x) × (x < 16) × (read_lead b ≡ some (lead3 x)))
      ⊎ ((x : ℕ) × (b ≡ 240 + x) × (x < 5) × (read_lead b ≡ some (lead4 x)))
read_lead-cases b h k = elim (dec_lt b 194) [
  | yes p ↦ inl (unfold read_lead in ground arith)
  | no p ↦ elim (dec_lt b 224) [
    | yes q ↦
        inr (inl (b - 192, omega arith, omega arith, omega arith, unfold read_lead in ground arith))
    | no q ↦ elim (dec_lt b 240) [
      | yes r ↦
          inr (inr (inl (b - 224, omega arith, omega arith, unfold read_lead in ground arith)))
      | no r ↦ elim (dec_lt b 245) [
        | yes t ↦
            inr (inr (inr (b - 240, omega arith, omega arith, unfold read_lead in ground arith)))
        | no t ↦ inl (unfold read_lead in ground arith)
      ]
    ]
  ]
]

-- A byte that is read on is `128 + y`.
pub read_continuations-cases :
    (n cp : ℕ) (s : Bytes)
    → IsBytes s
    → (read_continuations (suc n) cp s ≡ none)
      ⊎ ((y : ℕ) × (r : Bytes) × (y < 64)
          × (s ≡ (128 + y) ∷ r)
          × IsBytes r
          × (read_continuations (suc n) cp s ≡ read_continuations n (cp * 64 + y) r))
read_continuations-cases n cp [] h = inl (unfold read_continuations in refl)
read_continuations-cases n cp (b ∷ s) (hb, h) = elim (Bool-cases (is_continuation b)) [
  | inl e ↦
      let y : b ≡ 128 + b % 64 = unfold is_continuation in ground arith in
      inr (b % 64, s, omega arith, ap (λ c. c ∷ s) y, h, unfold read_continuations in rw e)
  | inr e ↦ inl (unfold read_continuations in rw e)
]

pub encode-two :
    (x y : ℕ) → 2 ≤ x → x < 32 → y < 64 → encode (x * 64 + y) ≡ (192 + x) ∷ (128 + y) ∷ []
unfolding encode
encode-two x y h k l = ground arith

pub encode-three :
    (x y z : ℕ)
    → x < 16
    → y < 64
    → z < 64
    → 0x800 ≤ (x * 64 + y) * 64 + z
    → encode ((x * 64 + y) * 64 + z) ≡ (224 + x) ∷ (128 + y) ∷ (128 + z) ∷ []
unfolding encode
encode-three x y z h k l m = ground arith

pub encode-four :
    (x y z w : ℕ)
    → x < 5
    → y < 64
    → z < 64
    → w < 64
    → 0x10000 ≤ ((x * 64 + y) * 64 + z) * 64 + w
    → encode (((x * 64 + y) * 64 + z) * 64 + w) ≡ (240 + x) ∷ (128 + y) ∷ (128 + z) ∷ (128 + w) ∷ []
unfolding encode
encode-four x y z w h k l m n = ground arith

pub is_acceptable_sound :
    (min_cp cp : ℕ) → is_acceptable min_cp cp ≡ true → IsScalar cp × (min_cp ≤ cp)
unfolding is_acceptable
is_acceptable_sound min_cp cp h =
    (elim (dec_lt cp 0xD800) [ yes p ↦ inl p | no p ↦ inr (ground arith) ], ground arith)

pub is_acceptable_complete :
    (min_cp cp : ℕ) → IsScalar cp → min_cp ≤ cp → is_acceptable min_cp cp ≡ true
unfolding is_acceptable
is_acceptable_complete min_cp cp h k = ground arith

-- What `is_valid_utf8` is to decide.
abbrev pub IsUtf8 : Bytes → Type 0
IsUtf8 s = (cps : List ℕ) × All IsScalar cps × (s ≡ encode_all cps)

pub encode-one : (cp : ℕ) → cp < 128 → encode cp ≡ cp ∷ []
unfolding encode
encode-one cp h = ground arith
