-- ===== src/Serialization/TextNormalizer/Laws.antt =====
-- TextNormalizer.cpp: the loop replaces the control characters and leaves all else.
use mathlib.Core.List.{map-append}
use edge_tts_cpp.Base.{
  ℕ, zero, suc, ◌≤◌, ◌<◌, true, false, List, [], ◌∷◌, ◌++◌, map, Bytes, lit, ltb, if◌then◌else◌,
  length, take, drop, All, ◌≡◌, refl, ap, ap₂, sym, ◌∙◌, arith, take-append-drop, length-drop,
  Bool-cases, inl, inr, lt→ltb, le→ltb, ◌⊎◌, ◌≢◌,
}
use native.Mathlib.Decide.{dec_lt}
use edge_tts_cpp.Common.Error.{ok, fail, error, invalid_argument}
use edge_tts_cpp.Common.Utf8.{
  is_continuation, count_continuations, next_code_point_boundary, is_valid_utf8,
}
use edge_tts_cpp.Common.Utf8.Complete.{is_valid_utf8_iff}
use edge_tts_cpp.Common.Utf8.Spec.{IsScalar, encode, encode_all, IsBytes, IsUtf8}
use edge_tts_cpp.Serialization.TextNormalizer.{replace_control, normalize_loop, normalize}

-- What becomes of one byte.
unfoldable pub clean : ℕ → ℕ
unfolding replace_control
clean b = if ltb b 128 then replace_control b else b

clean-continuations :
    (s : Bytes) → map clean (take (count_continuations s) s) ≡ take (count_continuations s) s
unfolding clean count_continuations
clean-continuations [] = refl
clean-continuations (c ∷ s) = elim (Bool-cases (is_continuation c)) [
  | inl e ↦ rw e (ap₂ ◌∷◌ (unfold is_continuation in ground arith) (clean-continuations s))
  | inr e ↦ rw e
]

copy_sequence :
    (b : ℕ) (s : Bytes)
    → 128 ≤ b
    → (n : ℕ) × (next_code_point_boundary (b ∷ s) 0 ≡ suc n) × (map clean (take n s) ≡ take n s)
unfolding next_code_point_boundary
copy_sequence b s h = (count_continuations s, ground arith, clean-continuations s)

clean-ascii : (b : ℕ) → b < 128 → replace_control b ≡ clean b
unfolding clean
clean-ascii b h = ground arith

clean-beyond : (b : ℕ) → 128 ≤ b → b ≡ clean b
unfolding clean
clean-beyond b h = ground arith

normalize_loop-ascii :
    (fuel b : ℕ) (s : Bytes)
    → b < 128
    → normalize_loop (suc fuel) (b ∷ s) ≡ replace_control b ∷ normalize_loop fuel s
unfolding normalize_loop
normalize_loop-ascii fuel b s h = rw (lt→ltb b 128 h)

normalize_loop-beyond :
    (fuel b : ℕ) (s : Bytes) (n : ℕ)
    → 128 ≤ b
    → next_code_point_boundary (b ∷ s) 0 ≡ suc n
    → normalize_loop (suc fuel) (b ∷ s) ≡ b ∷ (take n s ++ normalize_loop fuel (drop n s))
unfolding normalize_loop
normalize_loop-beyond fuel b s n h e = rw (le→ltb b 128 h, e)

normalize_loop-map : (fuel : ℕ) (s : Bytes) → length s ≤ fuel → normalize_loop fuel s ≡ map clean s
normalize_loop-map zero [] h = unfold normalize_loop in refl
normalize_loop-map zero (b ∷ s) h = absurd (omega arith)
normalize_loop-map (suc fuel) [] h = unfold normalize_loop in refl
normalize_loop-map (suc fuel) (b ∷ s) h = elim (dec_lt b 128) [
  | yes p ↦
      normalize_loop-ascii fuel b s p
      ∙ ap₂ ◌∷◌ (clean-ascii b p) (normalize_loop-map fuel s (omega arith))
  | no p ↦
      let (n, e, c) = copy_sequence b s (omega arith) in
      normalize_loop-beyond fuel b s n (omega arith) e
      ∙ ap₂ ◌∷◌ (clean-beyond b (omega arith)) (
          ap₂ ◌++◌ (sym c) (normalize_loop-map fuel (drop n s) (omega (arith, length-drop n s)))
          ∙ sym (map-append clean (take n s) (drop n s))
          ∙ ap (map clean) (take-append-drop n s))
]

pub normalize-map : (s : Bytes) → is_valid_utf8 s ≡ true → normalize s ≡ ok (map clean s)
unfolding normalize
normalize-map s h = rw h (ap ok (normalize_loop-map (length s) s (omega arith)))

-- A byte that SSML takes: no control character but tab, line feed and carriage return.
abbrev pub IsClean : ℕ → Type 0
IsClean b = (b ≡ 9) ⊎ (b ≡ 10) ⊎ (b ≡ 13) ⊎ (32 ≤ b)

clean-IsClean : (b : ℕ) → IsClean (clean b)
unfolding clean
clean-IsClean b = ground arith

map-clean-IsClean : (s : Bytes) → All IsClean (map clean s)
map-clean-IsClean [] = tt
map-clean-IsClean (b ∷ s) = (clean-IsClean b, map-clean-IsClean s)

clean_idem : (b : ℕ) → clean (clean b) ≡ clean b
unfolding clean
clean_idem b = ground arith

map-clean_idem : (s : Bytes) → map clean (map clean s) ≡ map clean s
map-clean_idem [] = refl
map-clean_idem (b ∷ s) = cc (clean_idem b, map-clean_idem s)

map-clean-encode : (cp : ℕ) → map clean (encode cp) ≡ encode (clean cp)
unfolding encode clean
map-clean-encode cp = elim (dec_lt cp 128) [ yes p ↦ ground arith | no p ↦ ground arith ]

clean-IsScalar : (cp : ℕ) → IsScalar cp → IsScalar (clean cp)
unfolding clean
clean-IsScalar cp h = ground arith

-- Cleaning works on the code points as on the bytes.
pub map-clean-encode_all : (cps : List ℕ) → map clean (encode_all cps) ≡ encode_all (map clean cps)
map-clean-encode_all [] = refl
map-clean-encode_all (cp ∷ cps) =
    map-append clean (encode cp) (encode_all cps)
    ∙ ap₂ ◌++◌ (map-clean-encode cp) (map-clean-encode_all cps)

pub map-clean-IsScalar : (cps : List ℕ) → All IsScalar cps → All IsScalar (map clean cps)
map-clean-IsScalar [] h = tt
map-clean-IsScalar (cp ∷ cps) (h, hs) = (clean-IsScalar cp h, map-clean-IsScalar cps hs)

clean-lt : (b : ℕ) → b < 256 → clean b < 256
unfolding clean
clean-lt b h = ground arith

map-clean-IsBytes : (s : Bytes) → IsBytes s → IsBytes (map clean s)
map-clean-IsBytes [] h = tt
map-clean-IsBytes (b ∷ s) (h, hs) = (clean-lt b h, map-clean-IsBytes s hs)

pub map-clean-IsUtf8 : (s : Bytes) → IsBytes s → is_valid_utf8 s ≡ true → IsUtf8 (map clean s)
map-clean-IsUtf8 s b h =
    let (cps, sc, e) = (is_valid_utf8_iff s b).0 h in
    (map clean cps, map-clean-IsScalar cps sc, ap (map clean) e ∙ map-clean-encode_all cps)

map-clean-valid :
    (s : Bytes) → IsBytes s → is_valid_utf8 s ≡ true → is_valid_utf8 (map clean s) ≡ true
map-clean-valid s b h =
    (is_valid_utf8_iff (map clean s) (map-clean-IsBytes s b)).1 (map-clean-IsUtf8 s b h)

length-map : (f : ℕ → ℕ) (s : Bytes) → length (map f s) ≡ length s
length-map f [] = refl
length-map f (b ∷ s) = ap suc (length-map f s)

-- A control character that SSML does not take.
abbrev pub IsControl : ℕ → Type 0
IsControl b = (b < 32) × (b ≢ 9) × (b ≢ 10) × (b ≢ 13)

-- Byte by byte, a space in the place of such a character, and all else as it was.
abbrev pub Blanks : Bytes → Bytes → Type 0
Blanks [] [] = Unit
Blanks [] (c ∷ t) = ⊥
Blanks (b ∷ s) [] = ⊥
Blanks (b ∷ s) (c ∷ t) = ((IsControl b × (c ≡ 32)) ⊎ (IsClean b × (c ≡ b))) × Blanks s t

clean-cases : (b : ℕ) → (IsControl b × (clean b ≡ 32)) ⊎ (IsClean b × (clean b ≡ b))
unfolding clean
clean-cases b = ground arith

Blanks-map-clean : (s : Bytes) → Blanks s (map clean s)
Blanks-map-clean [] = tt
Blanks-map-clean (b ∷ s) = (clean-cases b, Blanks-map-clean s)

-- For every byte string that is valid UTF-8 `normalize` succeeds. Its result has a space for each
-- control character but tab, line feed and carriage return, and every other byte as it was, in its
-- place; so it is as long as the input. It is UTF-8 again, has no control character but tab, line feed
-- and carriage return, and does not change when it is normalized again.
pub normalize_lem :
    (s : Bytes)
    → IsBytes s
    → is_valid_utf8 s ≡ true
    → (t : Bytes) × (normalize s ≡ ok t)
      × (length t ≡ length s)
      × IsUtf8 t
      × All IsClean t
      × (normalize t ≡ ok t)
      × Blanks s t
normalize_lem s b h = (
  map clean s,
  normalize-map s h,
  length-map clean s,
  map-clean-IsUtf8 s b h,
  map-clean-IsClean s,
  normalize-map (map clean s) (map-clean-valid s b h) ∙ ap ok (map-clean_idem s),
  Blanks-map-clean s,
)

-- Any other input is refused.
pub normalize_invalid :
    (s : Bytes)
    → is_valid_utf8 s ≡ false
    → normalize s ≡ fail (error invalid_argument (lit "TextNormalizer: invalid UTF-8 input"))
unfolding normalize
normalize_invalid s h = rw h
