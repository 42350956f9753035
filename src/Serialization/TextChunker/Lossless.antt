-- ===== src/Serialization/TextChunker/Lossless.antt =====
-- TextChunker.cpp: the chunks hold every byte of the text but white space, in order.
use edge_tts_cpp.Base.{
  ℕ, zero, suc, ◌+◌, ◌≤◌, ◌<◌, Bool, true, false, ◌||◌, none, some, List, [], ◌∷◌, ◌++◌, Bytes, leb,
  ltb, ◌==◌, if◌then◌else◌, length, take, drop, starts_with, codes, ◌≡◌, refl, ap, sym, arith,
  length-drop, inl, inr, Bool-cases, ◌⊎◌, get_elem?, ltb→lt, append-nil, take-append-drop, ◌∙◌,
  starts_with_split,
}
use edge_tts_cpp.Common.Utf8.{walk_back, continuation_at, count_continuations}
use edge_tts_cpp.Serialization.XmlEscaper.Laws.{opens_entity, WellEscaped, WellEscaped-drop}
use edge_tts_cpp.Serialization.TextChunker.{
  is_strip_byte, strip_prefix, strip_suffix, strip, adjust_loop, SplitOptions, natural_boundary,
  proposed_split, split_point, emplace, split_loop, split_by_limit, is_unterminated,
}
use edge_tts_cpp.Serialization.TextChunker.Bounds.{
  rfind_below-cases, advance, one-le-advance, split_loop-long, split_loop-short,
}

-- A text without its white space.
unfoldable pub visible : Bytes → Bytes
unfolding is_strip_byte
visible [] = []
visible (c ∷ s) = if is_strip_byte c then visible s else c ∷ visible s

pub visible-append : (s t : Bytes) → visible (s ++ t) ≡ visible s ++ visible t
unfolding visible
visible-append [] t = refl
visible-append (c ∷ s) t = ground (arith, visible-append s t)

visible-strip_prefix : (s : Bytes) → visible (strip_prefix s) ≡ visible s
unfolding visible strip_prefix
visible-strip_prefix [] = refl
visible-strip_prefix (c ∷ s) = ground (arith, visible-strip_prefix s)

visible-strip_suffix : (s : Bytes) → visible (strip_suffix s) ≡ visible s
unfolding visible strip_suffix
visible-strip_suffix [] = refl
visible-strip_suffix (c ∷ s) = ground (arith, visible-strip_suffix s)

visible-strip : (s : Bytes) → visible (strip s) ≡ visible s
unfolding strip
visible-strip s = visible-strip_suffix (strip_prefix s) ∙ visible-strip_prefix s

-- What the chunks hold together, without white space.
abbrev pub contents : List Bytes → Bytes
contents [] = []
contents (c ∷ cs) = visible c ++ contents cs

contents-emplace :
    (c : Bytes) (later : List Bytes) → contents (emplace c later) ≡ visible c ++ contents later
unfolding emplace visible
contents-emplace [] later = refl
contents-emplace (x ∷ c) later = refl

visible-take-drop : (n : ℕ) (s : Bytes) → visible (take n s) ++ visible (drop n s) ≡ visible s
visible-take-drop n s =
    sym (visible-append (take n s) (drop n s)) ∙ ap visible (take-append-drop n s)

module _ (o : SplitOptions) (P : Bytes → Type 0) (closed : (n : ℕ) (t : Bytes) → P t → P (drop n t))
    (progress : (t : Bytes)
      → P t
      → o.limit < length t
      → split_point o t ≡ 0
      → visible (take 1 t) ≡ []) where
  visible-round :
      (t : Bytes)
      → P t
      → o.limit < length t
      → visible (take (split_point o t) t) ++ visible (drop (advance o t) t) ≡ visible t
  unfolding visible
  visible-round t p h = elim (Bool-cases (ltb 0 (split_point o t))) [
    | inl e ↦ rw e (visible-take-drop (split_point o t) t)
    | inr e ↦
        let z : split_point o t ≡ 0 = ground arith in
        rw z (ap (λ w. w ++ visible (drop 1 t)) (sym (progress t p h z)) ∙ visible-take-drop 1 t)
  ]

  contents-split_loop :
      (fuel : ℕ) (t : Bytes) → length t ≤ fuel → P t → contents (split_loop fuel o t) ≡ visible t
  contents-split_loop zero t h p =
      unfold split_loop in
      contents-emplace (strip t) [] ∙ append-nil (visible (strip t)) ∙ visible-strip t
  contents-split_loop (suc fuel) t h p = elim (Bool-cases (ltb o.limit (length t))) [
    | inl e ↦
        rw
          (
            split_loop-long fuel o t e,
            contents-emplace,
            visible-strip,
            contents-split_loop fuel (drop (advance o t) t)
                (omega (arith, length-drop (advance o t) t, one-le-advance o t, ltb→lt _ _ e))
                (closed (advance o t) t p),
          )
          (visible-round t p (ltb→lt _ _ e))
    | inr e ↦
        rw (split_loop-short fuel o t e)
          (contents-emplace (strip t) [] ∙ append-nil (visible (strip t)) ∙ visible-strip t)
  ]

-- The bytes at which a search backwards stops.
is_mark : ℕ → Bool
is_mark c = c == b'&' || c == b'\n' || c == b' '

-- A split point behind any entity that starts the text.
mark_at : Bytes → ℕ → Bool
unfolding is_mark
mark_at text q = leb 5 q || elim (get_elem? text q) [ none ↦ false | some c ↦ is_mark c ]

-- An entity's bytes hold no mark, and its `;` ends the search.
Closes : Bytes → Type 0
Closes s = (q : ℕ) → 0 < q → mark_at (b'&' ∷ s) q ≡ true → is_unterminated (b'&' ∷ s) 0 q ≡ false

amp-Closes : (r : Bytes) → Closes (codes "amp;" ++ r)
unfolding Closes mark_at is_unterminated
amp-Closes r zero h m = absurd (omega arith)
amp-Closes r (suc zero) h m = ground arith
amp-Closes r (suc (suc zero)) h m = ground arith
amp-Closes r (suc (suc (suc zero))) h m = ground arith
amp-Closes r (suc (suc (suc (suc zero)))) h m = ground arith
amp-Closes r (suc (suc (suc (suc (suc q))))) h m = ground arith

lt-Closes : (r : Bytes) → Closes (codes "lt;" ++ r)
unfolding Closes mark_at is_unterminated
lt-Closes r zero h m = absurd (omega arith)
lt-Closes r (suc zero) h m = ground arith
lt-Closes r (suc (suc zero)) h m = ground arith
lt-Closes r (suc (suc (suc zero))) h m = ground arith
lt-Closes r (suc (suc (suc (suc q)))) h m = ground arith

gt-Closes : (r : Bytes) → Closes (codes "gt;" ++ r)
unfolding Closes mark_at is_unterminated
gt-Closes r zero h m = absurd (omega arith)
gt-Closes r (suc zero) h m = ground arith
gt-Closes r (suc (suc zero)) h m = ground arith
gt-Closes r (suc (suc (suc zero))) h m = ground arith
gt-Closes r (suc (suc (suc (suc q)))) h m = ground arith

entity-Closes : (s : Bytes) → opens_entity s ≡ true → Closes s
entity-Closes s h = elim (Bool-cases (starts_with (codes "amp;") s)) [
  | inl e ↦ rw (starts_with_split (codes "amp;") s e) (amp-Closes (drop 4 s))
  | inr e ↦ elim (Bool-cases (starts_with (codes "lt;") s)) [
    | inl f ↦ rw (starts_with_split (codes "lt;") s f) (lt-Closes (drop 3 s))
    | inr f ↦
        let g : starts_with (codes "gt;") s ≡ true = ground arith in
        rw (starts_with_split (codes "gt;") s g) (gt-Closes (drop 3 s))
  ]
]

head_entity :
    (t : Bytes)
    → WellEscaped t
    → get_elem? t 0 ≡ some b'&'
    → (q : ℕ) → 0 < q
    → mark_at t q ≡ true
    → is_unterminated t 0 q ≡ false
head_entity [] w g q h m = cc
head_entity (c ∷ s) (safe, w) g q h m =
    let e : c ≡ b'&' = ground arith in
    let opened : opens_entity s ≡ true = ground arith in
    rw e (unfold Closes in entity-Closes s opened q h (rw e at m))

mark_at_amp : (t : Bytes) (q : ℕ) → get_elem? t q ≡ some b'&' → mark_at t q ≡ true
unfolding mark_at
mark_at_amp t q g = rw g (ground arith)

-- A split point that is no mark inside an entity does not move to the start of the text.
adjust_loop-pos :
    (fuel : ℕ) (t : Bytes) (q : ℕ)
    → WellEscaped t
    → 0 < q
    → mark_at t q ≡ true
    → 0 < adjust_loop fuel t q
unfolding adjust_loop
adjust_loop-pos zero t q w h m = h
adjust_loop-pos (suc fuel) t q w h m = elim (rfind_below-cases b'&' q t) [
  | inl e ↦ ground arith
  | inr (zero, e, l, g) ↦ ground (arith, head_entity t w g q h m)
  | inr (suc amp, e, l, g) ↦
      ground (arith, adjust_loop-pos fuel t (suc amp) w (omega arith) (mark_at_amp t (suc amp) g))
]

-- No run of four continuation bytes.
abbrev pub FewContinuations : Bytes → Type 0
FewContinuations [] = Unit {0}
FewContinuations (c ∷ s) = (count_continuations (c ∷ s) < 4) × FewContinuations s

pub FewContinuations-drop : (n : ℕ) (s : Bytes) → FewContinuations s → FewContinuations (drop n s)
FewContinuations-drop zero s h = h
FewContinuations-drop (suc n) [] h = tt
FewContinuations-drop (suc n) (c ∷ s) (p, h) = FewContinuations-drop n s h

four_continuations :
    (t : Bytes) (n : ℕ)
    → FewContinuations t
    → continuation_at t (suc n) ≡ true
    → continuation_at t (suc (suc n)) ≡ true
    → continuation_at t (suc (suc (suc n))) ≡ true
    → continuation_at t (suc (suc (suc (suc n)))) ≡ false
unfolding continuation_at count_continuations
four_continuations [] n f a b c = refl
four_continuations (x ∷ t) (suc n) f a b c = four_continuations t n f.1 a b c
four_continuations (x ∷ []) zero f a b c = refl
four_continuations (x ∷ y ∷ []) zero f a b c = refl
four_continuations (x ∷ y ∷ z ∷ []) zero f a b c = refl
four_continuations (x ∷ y ∷ z ∷ u ∷ []) zero f a b c = refl
four_continuations (x ∷ y ∷ z ∷ u ∷ v ∷ t) zero f a b c = ground arith

walk_back-near : (t : Bytes) (n : ℕ) → FewContinuations t → n ≤ walk_back t n + 3
unfolding walk_back
walk_back-near t zero f = omega arith
walk_back-near t (suc zero) f = ground arith
walk_back-near t (suc (suc zero)) f = ground arith
walk_back-near t (suc (suc (suc zero))) f = ground arith
walk_back-near t (suc (suc (suc (suc n)))) f =
    unfold walk_back in ground (arith, four_continuations t n f)

-- Escaped text with no long run of continuation bytes.
abbrev pub Chunkable : Bytes → Type 0
Chunkable t = WellEscaped t × FewContinuations t

proposed_split-cases :
    (o : SplitOptions) (t : Bytes)
    → 8 ≤ o.limit
    → FewContinuations t
    → mark_at t (proposed_split o t) ≡ true
unfolding proposed_split natural_boundary mark_at
proposed_split-cases o t h f = ground (
  arith,
  rfind_below-cases b'\n' o.limit t,
  rfind_below-cases b' ' o.limit t,
  walk_back-near t o.limit f,
)

white_at_zero :
    (t : Bytes) (c : ℕ)
    → get_elem? t 0 ≡ some c
    → (c ≡ b'\n') ⊎ (c ≡ b' ')
    → visible (take 1 t) ≡ []
unfolding visible
white_at_zero [] c g h = refl
white_at_zero (x ∷ t) c g h = ground arith

-- A split at the start of the text is one at white space.
proposed_split_zero :
    (o : SplitOptions) (t : Bytes)
    → 8 ≤ o.limit
    → FewContinuations t
    → proposed_split o t ≡ 0
    → visible (take 1 t) ≡ []
unfolding proposed_split natural_boundary
proposed_split_zero o t h f z = ground (
  arith,
  rfind_below-cases b'\n' o.limit t,
  rfind_below-cases b' ' o.limit t,
  white_at_zero t b'\n',
  white_at_zero t b' ',
  walk_back-near t o.limit f,
)

split_point-progress :
    (o : SplitOptions) (t : Bytes)
    → 8 ≤ o.limit
    → Chunkable t
    → split_point o t ≡ 0
    → visible (take 1 t) ≡ []
unfolding split_point
split_point-progress o t h (w, f) z = ground (
  arith,
  proposed_split_zero o t h f,
  adjust_loop-pos (proposed_split o t) t (proposed_split o t) w,
  proposed_split-cases o t h f,
)

-- For all options with a limit of 8 or more, and every text that is well escaped and has no four
-- continuation bytes in a row, the chunks hold all of the text, in order, white space apart.
pub contents-split_by_limit :
    (o : SplitOptions) (t : Bytes)
    → 8 ≤ o.limit
    → Chunkable t
    → contents (split_by_limit o t) ≡ visible t
unfolding split_by_limit
contents-split_by_limit o t h p =
    contents-split_loop o Chunkable
      (λ n t (w, f). (WellEscaped-drop n t w, FewContinuations-drop n t f))
      (λ t p _ z. split_point-progress o t h p z) (length t) t (omega arith) p
