-- ===== src/Serialization/TextChunker.antt =====
-- modules/serialization: TextChunker.hpp and TextChunker.cpp.
pub mod Bounds
pub mod Lossless
pub mod Pipeline
use edge_tts_cpp.Base.{
  ℕ, zero, suc, ◌+◌, ◌-◌, Bool, true, false, ◌||◌, Option, none, some, List, [], ◌∷◌, ◌++◌, map,
  Bytes, lit, leb, ltb, ◌==◌, if◌then◌else◌, length, take, drop, find_byte, rfind_below,
}
use edge_tts_cpp.Common.Error.{Result, ok, fail, error, invalid_argument, ◌>>=◌}
use edge_tts_cpp.Common.Utf8.{walk_back}
use edge_tts_cpp.Serialization.TextNormalizer.{normalize}
use edge_tts_cpp.Serialization.XmlEscaper.{xml_escape}

unfoldable pub is_strip_byte : ℕ → Bool
is_strip_byte u = u == 0x20 || u == 0x09 || u == 0x0A || u == 0x0D || u == 0x0B || u == 0x0C

unfoldable pub strip_prefix : Bytes → Bytes
unfolding is_strip_byte
strip_prefix [] = []
strip_prefix (c ∷ s) = if is_strip_byte c then strip_prefix s else c ∷ s

-- A byte is kept if it, or one behind it, is not stripped.
unfoldable pub strip_suffix : Bytes → Bytes
unfolding is_strip_byte
strip_suffix [] = []
strip_suffix (c ∷ s) = elim (strip_suffix s) [
  | [] ↦ if is_strip_byte c then [] else c ∷ []
  | d ∷ r ↦ c ∷ d ∷ r
]

unfoldable pub strip : Bytes → Bytes
unfolding strip_prefix strip_suffix
strip sv = strip_suffix (strip_prefix sv)

-- `text.find(';', amp + 1)` is none, or at `split_at` or behind it.
unfoldable pub is_unterminated : Bytes → ℕ → ℕ → Bool
unfolding find_byte
is_unterminated text amp split_at = elim (find_byte b';' (drop (amp + 1) text)) [
  | none ↦ true
  | some k ↦ leb split_at (amp + 1 + k)
]

-- `split_at` falls in each round, so that it is itself fuel enough.
unfoldable pub adjust_loop : ℕ → Bytes → ℕ → ℕ
unfolding is_unterminated rfind_below
adjust_loop zero text split_at = split_at
adjust_loop (suc fuel) text split_at = elim (rfind_below b'&' split_at text) [
  | none ↦ split_at
  | some amp ↦
      let moved = adjust_loop fuel text amp in
      if is_unterminated text amp split_at then moved else split_at
]

unfoldable pub adjust_xml_entity : Bytes → ℕ → ℕ
unfolding adjust_loop
adjust_xml_entity text split_at = adjust_loop split_at text split_at

-- The parameters of `split_by_limit` behind the text.
pub record SplitOptions : Type 0 where
  pub limit : ℕ
  pub prefer_newline : Bool
  pub prefer_space : Bool
  pub protect_entities : Bool

-- Steps 1 and 2.
unfoldable pub natural_boundary : SplitOptions → Bytes → Option ℕ
unfolding rfind_below
natural_boundary o text = elim (if o.prefer_newline then rfind_below b'\n' o.limit text else none) [
  | some p ↦ some p
  | none ↦ if o.prefer_space then rfind_below b' ' o.limit text else none
]

-- Steps 1 to 3.
unfoldable pub proposed_split : SplitOptions → Bytes → ℕ
unfolding natural_boundary walk_back
proposed_split o text = elim (natural_boundary o text) [
  | some p ↦ p
  | none ↦ walk_back text o.limit
]

-- Steps 1 to 4.
unfoldable pub split_point : SplitOptions → Bytes → ℕ
unfolding proposed_split adjust_xml_entity
split_point o text =
    if o.protect_entities
    then adjust_xml_entity text (proposed_split o text)
    else proposed_split o text

-- `if (!ch.empty()) result.emplace_back(ch)`, before what later rounds append.
unfoldable pub emplace : Bytes → List Bytes → List Bytes
emplace [] later = later
emplace (c ∷ ch) later = (c ∷ ch) ∷ later

-- The loop; each round drops a byte or more, so the length is fuel enough.
unfoldable pub split_loop : ℕ → SplitOptions → Bytes → List Bytes
unfolding split_point strip emplace
split_loop zero o text = emplace (strip text) []
split_loop (suc fuel) o text =
    let split_at = split_point o text in
    let advance = if ltb 0 split_at then split_at else 1 in
    let round = emplace (strip (take split_at text)) (split_loop fuel o (drop advance text)) in
    if ltb o.limit (length text) then round else emplace (strip text) []

unfoldable pub split_by_limit : SplitOptions → Bytes → List Bytes
unfolding split_loop
split_by_limit o text = split_loop (length text) o text

pub record TextChunkerOptions : Type 0 where
  pub max_chunk_size : ℕ
  pub size_after_xml_escape : Bool
  pub prefer_sentence_boundary : Bool
  pub prefer_word_boundary : Bool

abbrev pub default_options : TextChunkerOptions
default_options = record {
  max_chunk_size = 4096;
  size_after_xml_escape = true;
  prefer_sentence_boundary = true;
  prefer_word_boundary = true;
}

abbrev pub split_options : TextChunkerOptions → Bool → SplitOptions
split_options opts protect = record {
  limit = opts.max_chunk_size;
  prefer_newline = opts.prefer_sentence_boundary;
  prefer_space = opts.prefer_word_boundary;
  protect_entities = protect;
}

-- The constructor throws `std::invalid_argument` for a limit of zero.
unfoldable pub text_chunker : TextChunkerOptions → Result TextChunkerOptions
text_chunker opts =
    if opts.max_chunk_size == 0
    then fail (error invalid_argument (lit "TextChunker: max_chunk_size must be > 0"))
    else ok opts

unfoldable pub chunk : TextChunkerOptions → Bytes → Result (List Bytes)
unfolding split_by_limit
chunk opts input = do
  norm ← normalize input
  ok (
      if opts.size_after_xml_escape
      then split_by_limit (split_options opts true) (xml_escape norm)
      else map xml_escape (split_by_limit (split_options opts false) norm))
