-- ===== src/Serialization/TextNormalizer.antt =====
-- modules/serialization: TextNormalizer.cpp.
pub mod Laws
use edge_tts_cpp.Base.{
  ℕ, zero, suc, ◌&&◌, ◌||◌, [], ◌∷◌, ◌++◌, Bytes, lit, leb, ltb, ◌==◌, if◌then◌else◌, length, take,
  drop,
}
use edge_tts_cpp.Common.Error.{Result, ok, fail, error, invalid_argument}
use edge_tts_cpp.Common.Utf8.{is_valid_utf8, next_code_point_boundary}

-- What the ASCII branch appends.
unfoldable pub replace_control : ℕ → ℕ
replace_control byte =
    if leb byte 8 || byte == 11 || byte == 12 || (leb 14 byte && leb byte 31) then b' ' else byte

-- The loop over `i`, on the text from `i` on; the length is fuel enough.
unfoldable pub normalize_loop : ℕ → Bytes → Bytes
unfolding replace_control next_code_point_boundary
normalize_loop zero input = []
normalize_loop (suc fuel) [] = []
normalize_loop (suc fuel) (byte ∷ s) =
    let input : Bytes = byte ∷ s in
    let next = next_code_point_boundary input 0 in
    let ascii = replace_control byte ∷ normalize_loop fuel s in
    let beyond = take next input ++ normalize_loop fuel (drop next input) in
    if ltb byte 0x80 then ascii else beyond

unfoldable pub normalize : Bytes → Result Bytes
unfolding normalize_loop is_valid_utf8
normalize input =
    if is_valid_utf8 input
    then ok (normalize_loop (length input) input)
    else fail (error invalid_argument (lit "TextNormalizer: invalid UTF-8 input"))
