-- ===== src/Common/Utf8/Complete.antt =====
-- Utf8.cpp: `is_valid_utf8` accepts every encoding, and decides UTF-8.
use edge_tts_cpp.Base.{
  ℕ, zero, suc, ◌+◌, ◌*◌, ◌/◌, ◌%◌, ◌≤◌, ◌<◌, true, some, List, [], ◌∷◌, ◌++◌, Bytes, length,
  length-append, All, ◌≡◌, refl, arith, ◌∙◌, ◌↔◌,
}
use native.Mathlib.Decide.{dec_lt}
use edge_tts_cpp.Common.Utf8.{
  Lead, accept, read_continuations, read_lead, read_sequence, valid_loop, is_valid_utf8,
}
use edge_tts_cpp.Common.Utf8.Spec.{
  IsScalar, encode, encode_all, IsBytes, read_lead-two, read_lead-three, read_lead-four,
  read_continuations-more, encode-two, encode-three, encode-four, is_acceptable_complete, IsUtf8,
  encode-one,
}
use edge_tts_cpp.Common.Utf8.Sound.{valid_loop_sound}

accept-ok :
    (m cp : ℕ) (rest : Bytes)
    → IsScalar cp
    → m ≤ cp
    → accept m (read_continuations 0 cp rest) ≡ some rest
unfolding accept read_continuations
accept-ok m cp rest h k = rw (is_acceptable_complete m cp h k)

read_sequence-lead :
    (b0 : ℕ) (s : Bytes) (l : Lead)
    → read_lead b0 ≡ some l
    → read_sequence b0 s ≡ accept l.min_cp (read_continuations l.extra l.bits s)
unfolding read_sequence
read_sequence-lead b0 s l h = rw (h, read_sequence)

valid_loop-sequence :
    (fuel b0 : ℕ) (s rest : Bytes)
    → 128 ≤ b0
    → read_sequence b0 s ≡ some rest
    → valid_loop (suc fuel) (b0 ∷ s) ≡ valid_loop fuel rest
unfolding valid_loop
valid_loop-sequence fuel b0 s rest h e = ground arith

one-le-length-encode : (cp : ℕ) → 1 ≤ length (encode cp)
unfolding encode
one-le-length-encode cp = ground arith

-- One encoded code point is read in one round.
abbrev Reads : ℕ → Type 0
Reads cp =
    (fuel : ℕ) (rest : Bytes) → valid_loop (suc fuel) (encode cp ++ rest) ≡ valid_loop fuel rest

two-Reads : (x y : ℕ) → 2 ≤ x → x < 32 → y < 64 → IsScalar (x * 64 + y) → Reads (x * 64 + y)
two-Reads x y h k l sc fuel rest =
    let e : read_sequence (192 + x) ((128 + y) ∷ rest) ≡ some rest =
      rw (read_sequence-lead _ _ _ (read_lead-two x h k), read_continuations-more 0 x y rest l)
        (accept-ok 0x80 (x * 64 + y) rest sc (omega arith)) in
    rw (encode-two x y h k l) (valid_loop-sequence fuel _ _ rest (omega arith) e)

three-Reads :
    (x y z : ℕ)
    → x < 16
    → y < 64
    → z < 64
    → 0x800 ≤ (x * 64 + y) * 64 + z
    → IsScalar ((x * 64 + y) * 64 + z)
    → Reads ((x * 64 + y) * 64 + z)
three-Reads x y z h k l m sc fuel rest =
    let e : read_sequence (224 + x) ((128 + y) ∷ (128 + z) ∷ rest) ≡ some rest =
      rw
        (
          read_sequence-lead _ _ _ (read_lead-three x h),
          read_continuations-more 1 x y ((128 + z) ∷ rest) k,
          read_continuations-more 0 (x * 64 + y) z rest l,
        )
        (accept-ok 0x800 ((x * 64 + y) * 64 + z) rest sc m) in
    rw (encode-three x y z h k l m) (valid_loop-sequence fuel _ _ rest (omega arith) e)

four-Reads :
    (x y z w : ℕ)
    → x < 5
    → y < 64
    → z < 64
    → w < 64
    → 0x10000 ≤ ((x * 64 + y) * 64 + z) * 64 + w
    → IsScalar (((x * 64 + y) * 64 + z) * 64 + w)
    → Reads (((x * 64 + y) * 64 + z) * 64 + w)
four-Reads x y z w h k l n m sc fuel rest =
    let e : read_sequence (240 + x) ((128 + y) ∷ (128 + z) ∷ (128 + w) ∷ rest) ≡ some rest =
      rw
        (
          read_sequence-lead _ _ _ (read_lead-four x h),
          read_continuations-more 2 x y ((128 + z) ∷ (128 + w) ∷ rest) k,
          read_continuations-more 1 (x * 64 + y) z ((128 + w) ∷ rest) l,
          read_continuations-more 0 ((x * 64 + y) * 64 + z) w rest n,
        )
        (accept-ok 0x10000 (((x * 64 + y) * 64 + z) * 64 + w) rest sc m) in
    rw (encode-four x y z w h k l n m) (valid_loop-sequence fuel _ _ rest (omega arith) e)

one-Reads : (cp : ℕ) → cp < 128 → Reads cp
one-Reads cp h fuel rest = rw (encode-one cp h) (unfold valid_loop in ground arith)

reads : (cp : ℕ) → IsScalar cp → Reads cp
reads cp sc = elim (dec_lt cp 128) [
  | yes p ↦ one-Reads cp p
  | no p ↦ elim (dec_lt cp 0x800) [
    | yes q ↦
        let e : cp ≡ cp / 64 * 64 + cp % 64 = omega arith in
        rw e (two-Reads (cp / 64) (cp % 64) (omega arith) (omega arith) (omega arith) (rw e at sc))
    | no q ↦ elim (dec_lt cp 0x10000) [
      | yes r ↦
          let e : cp ≡ (cp / 4096 * 64 + cp / 64 % 64) * 64 + cp % 64 = omega arith in
          rw e (
            three-Reads (cp / 4096) (cp / 64 % 64) (cp % 64) (omega arith) (omega arith)
              (omega arith) (omega arith) (rw e at sc))
      | no r ↦
          let e : cp ≡ ((cp / 262144 * 64 + cp / 4096 % 64) * 64 + cp / 64 % 64) * 64 + cp % 64 =
            omega arith in
          rw e (
            four-Reads (cp / 262144) (cp / 4096 % 64) (cp / 64 % 64) (cp % 64) (omega arith)
              (omega arith) (omega arith) (omega arith) (omega arith) (rw e at sc))
    ]
  ]
]

valid_loop_complete :
    (cps : List ℕ) (fuel : ℕ)
    → All IsScalar cps
    → length (encode_all cps) ≤ fuel
    → valid_loop fuel (encode_all cps) ≡ true
valid_loop_complete [] zero sc h = unfold valid_loop in refl
valid_loop_complete [] (suc fuel) sc h = unfold valid_loop in refl
valid_loop_complete (cp ∷ cps) zero (s, sc) h =
    absurd (omega (arith, length-append (encode cp) (encode_all cps), one-le-length-encode cp))
valid_loop_complete (cp ∷ cps) (suc fuel) (s, sc) h =
    reads cp s fuel (encode_all cps)
    ∙ valid_loop_complete cps fuel sc
        (omega (arith, length-append (encode cp) (encode_all cps), one-le-length-encode cp))

-- For every byte string, `is_valid_utf8` returns true exactly if the string is the UTF-8 encoding of
-- a list of Unicode scalar values.
pub is_valid_utf8_iff : (s : Bytes) → IsBytes s → (is_valid_utf8 s ≡ true) ↔ IsUtf8 s
unfolding is_valid_utf8
is_valid_utf8_iff s b = (
  valid_loop_sound (length s) s b,
  λ (cps, sc, e). rw e (valid_loop_complete cps (length (encode_all cps)) sc (omega arith)),
)
