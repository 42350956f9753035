-- ===== src/Serialization/TextChunker/Pipeline.antt =====
-- TextChunker.cpp: `chunk`, from the raw input to the chunks.
use edge_tts_cpp.Base.{
  ℕ, suc, ◌≤◌, ◌<◌, true, false, List, [], ◌∷◌, ◌++◌, map, append_assoc, Bytes, All, ◌≡◌, refl,
  arith, Bool-cases, inl, inr, ◌==◌, ltb, le→ltb, codes,
}
use native.Mathlib.Decide.{dec_lt}
use edge_tts_cpp.Common.Error.{ok}
use edge_tts_cpp.Common.Utf8.{count_continuations, is_continuation, is_valid_utf8}
use edge_tts_cpp.Common.Utf8.Spec.{IsScalar, encode, encode_all, encode-one, IsBytes}
use edge_tts_cpp.Serialization.XmlEscaper.{xml_escape}
use edge_tts_cpp.Serialization.XmlEscaper.Laws.{xml_escape-WellEscaped}
use edge_tts_cpp.Serialization.TextNormalizer.Laws.{clean, normalize-map, map-clean-IsUtf8}
use edge_tts_cpp.Serialization.TextChunker.{
  TextChunkerOptions, split_options, chunk, split_by_limit,
}
use edge_tts_cpp.Serialization.TextChunker.Bounds.{IsChunk, split_by_limit-IsChunk}
use edge_tts_cpp.Serialization.TextChunker.Lossless.{
  FewContinuations, visible, contents, contents-split_by_limit,
}

xml_escape-append : (s t : Bytes) → xml_escape (s ++ t) ≡ xml_escape s ++ xml_escape t
unfolding xml_escape
xml_escape-append [] t = refl
xml_escape-append (c ∷ s) t = rw (xml_escape-append s t, append_assoc)

-- The text starts a code point, and has no long run of continuation bytes.
abbrev StartsCodePoint : Bytes → Type 0
StartsCodePoint t = FewContinuations t × (count_continuations t ≡ 0)

starts_one :
    (l : ℕ) (r : Bytes) → is_continuation l ≡ false → StartsCodePoint r → StartsCodePoint (l ∷ r)
unfolding count_continuations
starts_one l r e (f, z) = let c : count_continuations (l ∷ r) ≡ 0 = rw e in ((omega arith, f), c)

starts_more :
    (l a : ℕ) (r : Bytes)
    → is_continuation l ≡ false
    → FewContinuations (a ∷ r)
    → StartsCodePoint (l ∷ a ∷ r)
unfolding count_continuations
starts_more l a r e f = let c : count_continuations (l ∷ a ∷ r) ≡ 0 = rw e in ((omega arith, f), c)

-- Up to three bytes before a code point make no long run.
few_more :
    (a : ℕ) (r : Bytes) (n : ℕ)
    → n < 3
    → FewContinuations r × (count_continuations r ≤ n)
    → FewContinuations (a ∷ r) × (count_continuations (a ∷ r) ≤ suc n)
few_more a r n h (f, k) =
    let c : count_continuations (a ∷ r) ≤ suc (count_continuations r) =
      unfold count_continuations in ground arith in
    ((omega arith, f), omega arith)

starts_two :
    (l a : ℕ) (r : Bytes)
    → is_continuation l ≡ false
    → StartsCodePoint r
    → StartsCodePoint (l ∷ a ∷ r)
starts_two l a r e (f, z) = starts_more l a r e (few_more a r 0 (omega arith) (f, omega arith)).0

starts_three :
    (l a b : ℕ) (r : Bytes)
    → is_continuation l ≡ false
    → StartsCodePoint r
    → StartsCodePoint (l ∷ a ∷ b ∷ r)
starts_three l a b r e (f, z) =
    starts_more l a (b ∷ r) e
      (few_more a (b ∷ r) 1 (omega arith) (few_more b r 0 (omega arith) (f, omega arith))).0

starts_four :
    (l a b c : ℕ) (r : Bytes)
    → is_continuation l ≡ false
    → StartsCodePoint r
    → StartsCodePoint (l ∷ a ∷ b ∷ c ∷ r)
starts_four l a b c r e (f, z) =
    starts_more l a (b ∷ c ∷ r) e
      (few_more a (b ∷ c ∷ r) 2 (omega arith)
        (few_more b (c ∷ r) 1 (omega arith) (few_more c r 0 (omega arith) (f, omega arith)))).0

xml_escape-beyond : (s : Bytes) → All (λ b. 128 ≤ b) s → xml_escape s ≡ s
unfolding xml_escape
xml_escape-beyond [] h = refl
xml_escape-beyond (c ∷ s) (h, hs) = ground (arith, xml_escape-beyond s hs)

starts_ascii : (s r : Bytes) → All (λ b. b < 128) s → StartsCodePoint r → StartsCodePoint (s ++ r)
starts_ascii [] r h k = k
starts_ascii (c ∷ s) r (h, hs) k =
    starts_one c (s ++ r) (unfold is_continuation in ground arith) (starts_ascii s r hs k)

encode-beyond : (cp : ℕ) → 128 ≤ cp → All (λ b. 128 ≤ b) (encode cp)
unfolding encode
encode-beyond cp h = ground arith

starts_encode :
    (cp : ℕ) (r : Bytes)
    → 128 ≤ cp
    → IsScalar cp
    → StartsCodePoint r
    → StartsCodePoint (encode cp ++ r)
starts_encode cp r h sc k = elim (Bool-cases (ltb cp 0x800)) [
  | inl e ↦
      unfold encode in
      rw (le→ltb cp 128 h, e) (starts_two _ _ r (unfold is_continuation in ground arith) k)
  | inr e ↦ elim (Bool-cases (ltb cp 0x10000)) [
    | inl f ↦
        unfold encode in
        rw (le→ltb cp 128 h, e, f) (starts_three _ _ _ r (unfold is_continuation in ground arith) k)
    | inr f ↦
        unfold encode in
        rw (le→ltb cp 128 h, e, f)
          (starts_four _ _ _ _ r (unfold is_continuation in ground arith) k)
  ]
]

escape_one :
    (c : ℕ) (r : Bytes) → c < 128 → StartsCodePoint r → StartsCodePoint (xml_escape (c ∷ []) ++ r)
unfolding xml_escape is_continuation
escape_one c r h s = elim (Bool-cases (c == b'&')) [
  | inl e ↦ rw e (starts_ascii (codes "&amp;") r (omega arith) s)
  | inr e ↦ elim (Bool-cases (c == b'<')) [
    | inl f ↦ rw (e, f) (starts_ascii (codes "&lt;") r (omega arith) s)
    | inr f ↦ elim (Bool-cases (c == b'>')) [
      | inl g ↦ rw (e, f, g) (starts_ascii (codes "&gt;") r (omega arith) s)
      | inr g ↦ rw (e, f, g) (starts_ascii (c ∷ []) r (omega arith) s)
    ]
  ]
]

escape_encode :
    (cp : ℕ) (rest : Bytes)
    → IsScalar cp
    → StartsCodePoint rest
    → StartsCodePoint (xml_escape (encode cp) ++ rest)
escape_encode cp rest sc h = elim (dec_lt cp 128) [
  | yes p ↦ rw (encode-one cp p) (escape_one cp rest p h)
  | no p ↦
      rw (xml_escape-beyond (encode cp) (encode-beyond cp (omega arith)))
        (starts_encode cp rest (omega arith) sc h)
]

escape_encode_all :
    (cps : List ℕ) → All IsScalar cps → StartsCodePoint (xml_escape (encode_all cps))
escape_encode_all [] sc = unfold xml_escape count_continuations in (tt, refl)
escape_encode_all (cp ∷ cps) (s, sc) =
    rw (xml_escape-append (encode cp) (encode_all cps))
      (escape_encode cp (xml_escape (encode_all cps)) s (escape_encode_all cps sc))

chunk-eq :
    (opts : TextChunkerOptions) (input : Bytes)
    → opts.size_after_xml_escape ≡ true
    → is_valid_utf8 input ≡ true
    → chunk opts input
      ≡ ok (split_by_limit (split_options opts true) (xml_escape (map clean input)))
unfolding chunk
chunk-eq opts input m v = rw (normalize-map input v, m)

-- With sizes counted after escaping and a limit of 8 or more, whatever the other options, every
-- byte string that is valid UTF-8 is chunked without an error. Each chunk is not empty, is stripped
-- and fits the limit, and together, white space apart, they are the escaped text.
pub chunk_lem :
    (opts : TextChunkerOptions) (input : Bytes)
    → 8 ≤ opts.max_chunk_size
    → opts.size_after_xml_escape ≡ true
    → IsBytes input
    → is_valid_utf8 input ≡ true
    → (chunks : List Bytes) × (chunk opts input ≡ ok chunks)
      × All (IsChunk opts.max_chunk_size) chunks
      × (contents chunks ≡ visible (xml_escape (map clean input)))
chunk_lem opts input h m b v =
    let text = xml_escape (map clean input) in
    let o = split_options opts true in
    let (cps, sc, e) = map-clean-IsUtf8 input b v in
    let few : FewContinuations text = rw e (escape_encode_all cps sc).0 in
    (
      split_by_limit o text,
      chunk-eq opts input m v,
      split_by_limit-IsChunk o text,
      contents-split_by_limit o text h (xml_escape-WellEscaped (map clean input), few),
    )
