-- ===== src/Serialization/XmlEscaper/Laws.antt =====
-- XmlEscaper.cpp: what `xml_escape` writes, and that `xml_unescape` undoes it.
use edge_tts_cpp.Base.{
  ℕ, zero, suc, ◌+◌, ◌≤◌, Bool, true, false, ◌||◌, [], ◌∷◌, ◌++◌, Bytes, codes, ◌==◌, if◌then◌else◌,
  length, length-append, starts_with, ◌≡◌, refl, ap, drop, arith,
}
use edge_tts_cpp.Serialization.XmlEscaper.{escape_byte, xml_escape, unescape_loop, xml_unescape}

-- One escaped byte is read back in one round.
unescape_loop-escape_byte :
    (fuel c : ℕ) (rest : Bytes)
    → unescape_loop (suc fuel) (escape_byte c ++ rest) ≡ c ∷ unescape_loop fuel rest
unfolding unescape_loop escape_byte
unescape_loop-escape_byte fuel c rest = ground arith

length-escape_byte : (c : ℕ) → 1 ≤ length (escape_byte c)
unfolding escape_byte
length-escape_byte c = ground arith

xml_escape-cons : (c : ℕ) (s : Bytes) → xml_escape (c ∷ s) ≡ escape_byte c ++ xml_escape s
unfolding xml_escape
xml_escape-cons c s = refl

length-xml_escape-cons :
    (c : ℕ) (s : Bytes) → length (xml_escape s) + 1 ≤ length (xml_escape (c ∷ s))
length-xml_escape-cons c s =
    rw xml_escape-cons
      (omega (arith, length-append (escape_byte c) (xml_escape s), length-escape_byte c))

unescape_loop-xml_escape :
    (fuel : ℕ) (s : Bytes) → length (xml_escape s) ≤ fuel → unescape_loop fuel (xml_escape s) ≡ s
unescape_loop-xml_escape zero [] h = unfold unescape_loop xml_escape in refl
unescape_loop-xml_escape (suc fuel) [] h = unfold unescape_loop xml_escape in refl
unescape_loop-xml_escape zero (c ∷ s) h = absurd (omega (arith, length-xml_escape-cons c s))
unescape_loop-xml_escape (suc fuel) (c ∷ s) h =
    rw (xml_escape-cons, unescape_loop-escape_byte)
      (ap (◌∷◌ c) (unescape_loop-xml_escape fuel s (omega (arith, length-xml_escape-cons c s))))

-- Unescaping undoes escaping, for every byte string.
pub xml_unescape-xml_escape : (s : Bytes) → xml_unescape (xml_escape s) ≡ s
unfolding xml_unescape
xml_unescape-xml_escape s = unescape_loop-xml_escape (length (xml_escape s)) s (omega arith)

-- One of the three entities that `xml_escape` writes, behind its `&`.
abbrev pub opens_entity : Bytes → Bool
opens_entity s =
    starts_with (codes "amp;") s || starts_with (codes "lt;") s || starts_with (codes "gt;") s

-- A byte that may stand in escaped text before `s`.
abbrev pub is_safe_head : ℕ → Bytes → Bool
is_safe_head c s =
    if c == b'&'
    then opens_entity s
    else if c == b'<'
    then false
    else if c == b'>'
    then false
    else true

-- No `<` and no `>`, and every `&` opens an entity.
abbrev pub WellEscaped : Bytes → Type 0
WellEscaped [] = Unit {0}
WellEscaped (c ∷ s) = (is_safe_head c s ≡ true) × WellEscaped s

escape_byte-WellEscaped :
    (c : ℕ) (rest : Bytes) → WellEscaped rest → WellEscaped (escape_byte c ++ rest)
unfolding escape_byte starts_with
escape_byte-WellEscaped c rest h = ground arith

-- For every byte string, the escaped text has no `<` and no `>`, and every `&` of it opens one of
-- the entities `&amp;`, `&lt;` and `&gt;`.
pub xml_escape-WellEscaped : (s : Bytes) → WellEscaped (xml_escape s)
xml_escape-WellEscaped [] = unfold xml_escape in tt
xml_escape-WellEscaped (c ∷ s) =
    rw xml_escape-cons (escape_byte-WellEscaped c (xml_escape s) (xml_escape-WellEscaped s))

pub WellEscaped-drop : (n : ℕ) (s : Bytes) → WellEscaped s → WellEscaped (drop n s)
WellEscaped-drop zero s h = h
WellEscaped-drop (suc n) [] h = tt
WellEscaped-drop (suc n) (c ∷ s) (p, h) = WellEscaped-drop n s h
