-- ===== src/Serialization/TextChunker/Bounds.antt =====
-- TextChunker.cpp: every chunk is stripped, is not empty, and respects the limit.
use edge_tts_cpp.Base.{
  ℕ, zero, suc, ◌≤◌, ◌<◌, true, false, none, some, List, [], ◌∷◌, Bytes, ltb, if◌then◌else◌, length,
  take, drop, rfind_below, All, ◌≡◌, ◌≢◌, refl, ap, arith, length-take-le, length-drop, inl, inr,
  Bool-cases, ◌⊎◌, get_elem?, ◌==◌, ltb→lt, ltb→le,
}
use mathlib.Core.List.{cons-ne-nil}
use edge_tts_cpp.Common.Utf8.{walk_back}
use edge_tts_cpp.Serialization.TextChunker.{
  strip_prefix, strip_suffix, strip, adjust_loop, SplitOptions, natural_boundary, proposed_split,
  split_point, emplace, split_loop, split_by_limit,
}

-- What a search backwards finds: the byte, below the bound.
pub rfind_below-cases :
    (c n : ℕ) (s : Bytes)
    → (rfind_below c n s ≡ none)
      ⊎ ((i : ℕ) × (rfind_below c n s ≡ some i) × (i < n) × (get_elem? s i ≡ some c))
unfolding rfind_below
rfind_below-cases c zero s = inl refl
rfind_below-cases c (suc n) [] = inl refl
rfind_below-cases c (suc n) (x ∷ xs) = elim (rfind_below-cases c n xs) [
  | inl e ↦ elim (Bool-cases (x == c)) [
    | inl t ↦ inr (0, rw e (rw t refl), omega arith, ground arith)
    | inr t ↦ inl (rw e (rw t refl))
  ]
  | inr (i, e, l, g) ↦ inr (suc i, rw e refl, omega arith, g)
]

pub walk_back-le : (text : Bytes) (n : ℕ) → walk_back text n ≤ n
unfolding walk_back
walk_back-le text zero = omega arith
walk_back-le text (suc n) = ground (arith, walk_back-le text n)

pub adjust_loop-le : (fuel : ℕ) (text : Bytes) (n : ℕ) → adjust_loop fuel text n ≤ n
unfolding adjust_loop
adjust_loop-le zero text n = omega arith
adjust_loop-le (suc fuel) text n = elim (rfind_below-cases b'&' n text) [
  | inl e ↦ ground arith
  | inr (amp, e, l, g) ↦ ground (arith, adjust_loop-le fuel text amp)
]

proposed_split-le : (o : SplitOptions) (text : Bytes) → proposed_split o text ≤ o.limit
unfolding proposed_split natural_boundary
proposed_split-le o text = ground (
  arith,
  walk_back-le text o.limit,
  rfind_below-cases b'\n' o.limit text,
  rfind_below-cases b' ' o.limit text,
)

split_point-le : (o : SplitOptions) (text : Bytes) → split_point o text ≤ o.limit
unfolding split_point
split_point-le o text = ground (
  arith,
  proposed_split-le o text,
  adjust_loop-le (proposed_split o text) text (proposed_split o text),
)

length-strip_prefix : (s : Bytes) → length (strip_prefix s) ≤ length s
unfolding strip_prefix
length-strip_prefix [] = omega arith
length-strip_prefix (c ∷ s) = ground (arith, length-strip_prefix s)

length-strip_suffix : (s : Bytes) → length (strip_suffix s) ≤ length s
unfolding strip_suffix
length-strip_suffix [] = omega arith
length-strip_suffix (c ∷ s) = ground (arith, length-strip_suffix s)

length-strip : (s : Bytes) → length (strip s) ≤ length s
unfolding strip
length-strip s = omega (arith, length-strip_prefix s, length-strip_suffix (strip_prefix s))

strip_suffix_idem : (s : Bytes) → strip_suffix (strip_suffix s) ≡ strip_suffix s
unfolding strip_suffix
strip_suffix_idem [] = refl
strip_suffix_idem (c ∷ s) = ground (arith, strip_suffix_idem s)

strip_prefix_idem : (s : Bytes) → strip_prefix (strip_prefix s) ≡ strip_prefix s
unfolding strip_prefix
strip_prefix_idem [] = refl
strip_prefix_idem (c ∷ s) = ground (arith, strip_prefix_idem s)

-- Cutting the end of a text that starts with a kept byte leaves that byte.
strip_prefix-strip_suffix :
    (s : Bytes) → strip_prefix s ≡ s → strip_prefix (strip_suffix s) ≡ strip_suffix s
unfolding strip_prefix strip_suffix
strip_prefix-strip_suffix [] h = refl
strip_prefix-strip_suffix (c ∷ s) h = ground (arith, ap length h, length-strip_prefix s)

pub strip_idem : (s : Bytes) → strip (strip s) ≡ strip s
unfolding strip
strip_idem s =
    rw (strip_prefix-strip_suffix (strip_prefix s) (strip_prefix_idem s))
      (strip_suffix_idem (strip_prefix s))

-- How far a round moves on.
abbrev pub advance : SplitOptions → Bytes → ℕ
advance o text = if ltb 0 (split_point o text) then split_point o text else 1

pub one-le-advance : (o : SplitOptions) (text : Bytes) → 1 ≤ advance o text
one-le-advance o text = ground arith

-- The two ways a round ends.
pub split_loop-long :
    (fuel : ℕ) (o : SplitOptions) (text : Bytes)
    → ltb o.limit (length text) ≡ true
    → split_loop (suc fuel) o text
      ≡ emplace
          (strip (take (split_point o text) text))
          (split_loop fuel o (drop (advance o text) text))
unfolding split_loop
split_loop-long fuel o text e = rw e

pub split_loop-short :
    (fuel : ℕ) (o : SplitOptions) (text : Bytes)
    → ltb o.limit (length text) ≡ false
    → split_loop (suc fuel) o text ≡ emplace (strip text) []
unfolding split_loop
split_loop-short fuel o text e = rw e

-- What every chunk promises.
pub record IsChunk (limit : ℕ) (c : Bytes) : Type 0 where
  pub not_empty : c ≢ []
  pub is_stripped : strip c ≡ c
  pub fits : length c ≤ limit

emplace-IsChunk :
    (limit : ℕ) (s : Bytes) (later : List Bytes)
    → length s ≤ limit
    → All (IsChunk limit) later
    → All (IsChunk limit) (emplace (strip s) later)
emplace-IsChunk limit s later fits h = go (strip s) (strip_idem s) (omega (arith, length-strip s))
  where
    go : (c : Bytes) → strip c ≡ c → length c ≤ limit → All (IsChunk limit) (emplace c later)
    go [] e l = unfold emplace in h
    go (x ∷ c) e l =
        unfold emplace in (record { not_empty = cons-ne-nil x c; is_stripped = e; fits = l }, h)

split_loop-IsChunk :
    (fuel : ℕ) (o : SplitOptions) (text : Bytes)
    → length text ≤ fuel
    → All (IsChunk o.limit) (split_loop fuel o text)
split_loop-IsChunk zero o text h =
    unfold split_loop in emplace-IsChunk o.limit text [] (omega arith) tt
split_loop-IsChunk (suc fuel) o text h = elim (Bool-cases (ltb o.limit (length text))) [
  | inl e ↦ rw (split_loop-long fuel o text e) (
      emplace-IsChunk o.limit (take (split_point o text) text) _
        (omega (arith, length-take-le (split_point o text) text, split_point-le o text))
        (split_loop-IsChunk fuel o (drop (advance o text) text)
          (omega (arith, length-drop (advance o text) text, one-le-advance o text, ltb→lt _ _ e))))
  | inr e ↦ rw (split_loop-short fuel o text e) (emplace-IsChunk o.limit text [] (ltb→le _ _ e) tt)
]

-- For all options and texts, every chunk of `split_by_limit` is at most as long as the limit, is
-- not empty, and is left as it is by `strip`.
pub split_by_limit-IsChunk :
    (o : SplitOptions) (text : Bytes) → All (IsChunk o.limit) (split_by_limit o text)
split_by_limit-IsChunk o text =
    unfold split_by_limit in split_loop-IsChunk (length text) o text (omega arith)
