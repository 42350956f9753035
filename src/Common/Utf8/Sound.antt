-- ===== src/Common/Utf8/Sound.antt =====
-- Utf8.cpp: what `is_valid_utf8` accepts is an encoding.
use edge_tts_cpp.Base.{
  ℕ, zero, suc, ◌+◌, ◌*◌, ◌≤◌, ◌<◌, true, Option, none, some, [], ◌∷◌, ◌++◌, Bytes, ◌≡◌, inl, inr,
  refl, arith, Bool-cases, Option-cases, ap,
}
use native.Mathlib.Decide.{dec_lt}
use edge_tts_cpp.Common.Utf8.{accept, read_continuations, is_acceptable, read_sequence, valid_loop}
use edge_tts_cpp.Common.Utf8.Spec.{
  IsScalar, encode, IsBytes, read_lead-cases, read_continuations-cases, encode-two, encode-three,
  encode-four, is_acceptable_sound, IsUtf8, encode-one,
}

-- What a sequence that is read encodes.
abbrev Decoded : ℕ → Bytes → Bytes → Type 0
Decoded b0 s rest = (cp : ℕ) × IsScalar cp × (b0 ∷ s ≡ encode cp ++ rest) × IsBytes rest

accept_sound :
    (m : ℕ) (o : Option (ℕ × Bytes)) (rest : Bytes)
    → accept m o ≡ some rest
    → (cp : ℕ) × (o ≡ some (cp, rest)) × IsScalar cp × (m ≤ cp)
unfolding accept
accept_sound m none rest h = cc
accept_sound m (some (cp, r)) rest h = elim (Bool-cases (is_acceptable m cp)) [
  | inl e ↦ let (s, l) = is_acceptable_sound m cp e in (cp, ground arith, s, l)
  | inr e ↦ ground arith
]

read_continuations-done : (cp : ℕ) (s : Bytes) → read_continuations 0 cp s ≡ some (cp, s)
unfolding read_continuations
read_continuations-done cp s = refl

-- Two, three or four bytes that are accepted are an encoding.
two_sound :
    (x : ℕ) (s rest : Bytes)
    → 2 ≤ x
    → x < 32
    → IsBytes s
    → accept 0x80 (read_continuations 1 x s) ≡ some rest
    → Decoded (192 + x) s rest
two_sound x s rest h k b e = elim (read_continuations-cases 0 x s b) [
  | inl n ↦ absurd (ground (arith, accept_sound 0x80 none rest (rw n at e)))
  | inr (y, r, l, eq, br, n) ↦
      let (cp, q, sc, m) = accept_sound 0x80 _ rest (rw (n, read_continuations-done) at e) in
      let c : x * 64 + y ≡ cp = ground arith in
      let t : r ≡ rest = ground arith in
      (cp, sc, rw (← c, encode-two x y h k l) (ap (◌∷◌ (192 + x)) (rw (eq, t))), rw (← t) br)
]

three_sound :
    (x : ℕ) (s rest : Bytes)
    → x < 16
    → IsBytes s
    → accept 0x800 (read_continuations 2 x s) ≡ some rest
    → Decoded (224 + x) s rest
three_sound x s rest h b e = elim (read_continuations-cases 1 x s b) [
  | inl n ↦ absurd (ground (arith, accept_sound 0x800 none rest (rw n at e)))
  | inr (y, r, l, eq, br, n) ↦ elim (read_continuations-cases 0 (x * 64 + y) r br) [
    | inl n' ↦ absurd (ground (arith, accept_sound 0x800 none rest (rw (n, n') at e)))
    | inr (z, r', l', eq', br', n') ↦
        let (cp, q, sc, m) = accept_sound 0x800 _ rest (rw (n, n', read_continuations-done) at e) in
        let c : (x * 64 + y) * 64 + z ≡ cp = ground arith in
        let t : r' ≡ rest = ground arith in
        (
          cp,
          sc,
          rw (← c, encode-three x y z h l l' (rw (← c) at m))
              (ap (◌∷◌ (224 + x)) (rw (eq, eq', t))),
          rw (← t) br',
        )
  ]
]

four_sound :
    (x : ℕ) (s rest : Bytes)
    → x < 5
    → IsBytes s
    → accept 0x10000 (read_continuations 3 x s) ≡ some rest
    → Decoded (240 + x) s rest
four_sound x s rest h b e = elim (read_continuations-cases 2 x s b) [
  | inl n ↦ absurd (ground (arith, accept_sound 0x10000 none rest (rw n at e)))
  | inr (y, r, l, eq, br, n) ↦ elim (read_continuations-cases 1 (x * 64 + y) r br) [
    | inl n' ↦ absurd (ground (arith, accept_sound 0x10000 none rest (rw (n, n') at e)))
    | inr (z, r', l', eq', br', n') ↦
        elim (read_continuations-cases 0 ((x * 64 + y) * 64 + z) r' br') [
          | inl k ↦ absurd (ground (arith, accept_sound 0x10000 none rest (rw (n, n', k) at e)))
          | inr (w, u, lw, equ, bu, k) ↦
              let (cp, q, sc, m) =
                accept_sound 0x10000 _ rest (rw (n, n', k, read_continuations-done) at e) in
              let c : ((x * 64 + y) * 64 + z) * 64 + w ≡ cp = ground arith in
              let t : u ≡ rest = ground arith in
              (
                cp,
                sc,
                rw (← c, encode-four x y z w h l l' lw (rw (← c) at m))
                    (ap (◌∷◌ (240 + x)) (rw (eq, eq', equ, t))),
                rw (← t) bu,
              )
        ]
  ]
]

read_sequence_sound :
    (b0 : ℕ) (s rest : Bytes)
    → 128 ≤ b0
    → b0 < 256
    → IsBytes s
    → read_sequence b0 s ≡ some rest
    → Decoded b0 s rest
unfolding read_sequence
read_sequence_sound b0 s rest h k b e = elim (read_lead-cases b0 h k) [
  | inl n ↦ absurd (ground arith)
  | inr (inl (x, q, l, u, n)) ↦ rw q (two_sound x s rest l u b (rw (n, read_sequence) at e))
  | inr (inr (inl (x, q, u, n))) ↦ rw q (three_sound x s rest u b (rw (n, read_sequence) at e))
  | inr (inr (inr (x, q, u, n))) ↦ rw q (four_sound x s rest u b (rw (n, read_sequence) at e))
]

pub valid_loop_sound : (fuel : ℕ) (s : Bytes) → IsBytes s → valid_loop fuel s ≡ true → IsUtf8 s
valid_loop_sound fuel [] b e = ([], tt, refl)
valid_loop_sound zero (b0 ∷ s) b e = unfold valid_loop in ground arith
valid_loop_sound (suc fuel) (b0 ∷ s) (hb, b) e = elim (dec_lt b0 128) [
  | yes p ↦
      let (cps, sc, q) = valid_loop_sound fuel s b (unfold valid_loop in ground arith) in
      (b0 ∷ cps, (inl (omega arith), sc), rw (encode-one b0 p) (ap (◌∷◌ b0) q))
  | no p ↦ elim (Option-cases (read_sequence b0 s)) [
    | inl n ↦ absurd (unfold valid_loop in ground arith)
    | inr (rest, n) ↦
        let (cp, sc, q, br) = read_sequence_sound b0 s rest (omega arith) hb b n in
        let (cps, scs, qs) = valid_loop_sound fuel rest br (unfold valid_loop in ground arith) in
        (cp ∷ cps, (sc, scs), rw (q, qs))
  ]
]
