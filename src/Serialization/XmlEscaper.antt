-- ===== src/Serialization/XmlEscaper.antt =====
-- modules/serialization: XmlEscaper.cpp.
pub mod Laws
use edge_tts_cpp.Base.{
  ℕ, zero, suc, ◌+◌, Bool, Option, none, some, [], ◌∷◌, ◌++◌, Bytes, codes, ltb, ◌==◌,
  if◌then◌else◌, length, take, drop, find_byte, bytes_eq, ◌≡◌, refl,
}

-- What the `switch` appends for one byte.
unfoldable pub escape_byte : ℕ → Bytes
escape_byte c =
    if c == b'&'
    then codes "&amp;"
    else if c == b'<'
    then codes "&lt;"
    else if c == b'>'
    then codes "&gt;"
    else c ∷ []

unfoldable pub xml_escape : Bytes → Bytes
unfolding escape_byte
xml_escape [] = []
xml_escape (c ∷ raw) = escape_byte c ++ xml_escape raw

-- The text that an entity stands for; an unknown one is left as it is.
unfoldable pub resolve : Bytes → Bytes
unfolding bytes_eq
resolve entity =
    if bytes_eq entity (codes "&amp;")
    then b'&' ∷ []
    else if bytes_eq entity (codes "&lt;")
    then b'<' ∷ []
    else if bytes_eq entity (codes "&gt;")
    then b'>' ∷ []
    else if bytes_eq entity (codes "&quot;")
    then b'"' ∷ []
    else if bytes_eq entity (codes "&apos;")
    then b'\'' ∷ []
    else entity

-- The loop over `i`, on the text from `i` on: `semi - i` is one more than the position of `;`
-- behind the byte at `i`. Each round takes a byte or more, so the length is fuel enough.
unfoldable pub unescape_loop : ℕ → Bytes → Bytes
unfolding resolve find_byte
unescape_loop zero escaped = []
unescape_loop (suc fuel) [] = []
unescape_loop (suc fuel) (c ∷ s) =
    let copy = c ∷ unescape_loop fuel s in
    let entity : Bytes = elim (find_byte b';' s) [
      | none ↦ c ∷ unescape_loop fuel s
      | some k ↦
          if ltb 8 (k + 1)
          then c ∷ unescape_loop fuel s
          else resolve (take (k + 2) (c ∷ s)) ++ unescape_loop fuel (drop (k + 1) s)
    ] in
    if c == b'&' then entity else copy

unfoldable pub xml_unescape : Bytes → Bytes
unfolding unescape_loop
xml_unescape escaped = unescape_loop (length escaped) escaped

unescape_runs : xml_unescape (codes "a &lt; b &amp;amp; &bogus; &") ≡ codes "a < b &amp; &bogus; &"
unfolding xml_unescape
unescape_runs = refl
