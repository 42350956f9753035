-- ===== src/Communication/Incoming/Binary.antt =====
-- EdgeProtocolIncoming.cpp: binary frames.
use edge_tts_cpp.Base.{
  ℕ, suc, ◌+◌, ◌-◌, ◌/◌, ◌%◌, ◌<◌, true, ◌&&◌, some, List, [], ◌∷◌, ◌++◌, Bytes, codes, bytes_eq,
  leb, length, take, drop, get_elem?, is_empty, ◌≡◌, ◌≢◌, refl, ap, ap₂, ◌∙◌, arith, All,
  length-append, take-length-append, ◌==◌,
}
use edge_tts_cpp.Common.Error.{ok}
use edge_tts_cpp.Communication.Incoming.{
  audio, parse_audio, byte_at, header_length, parse_binary_frame, is_audio_path, audio_body,
  rethrow,
}
use edge_tts_cpp.Serialization.Protocol.{header, find_header, crlf}
use edge_tts_cpp.Serialization.Protocol.RoundTrip.{IsHeader, section_of, parse_section}

-- A frame: two bytes that count themselves and the header, the header, a line end, and the body.
unfoldable pub binary_frame : Bytes → Bytes → Bytes
binary_frame section body =
    ((length section + 2) / 256) ∷ ((length section + 2) % 256) ∷ (section ++ (crlf ++ body))

get_elem-length : (s t : Bytes) (c : ℕ) → get_elem? (s ++ c ∷ t) (length s) ≡ some c
get_elem-length [] t c = refl
get_elem-length (x ∷ s) t c = get_elem-length s t c

byte_at-first : (s body : Bytes) → byte_at (s ++ (crlf ++ body)) (length s) ≡ 13
unfolding byte_at
byte_at-first s body = rw (get_elem-length s (10 ∷ body) 13, byte_at) refl

byte_at-second : (s body : Bytes) → byte_at (s ++ (crlf ++ body)) (suc (length s)) ≡ 10
unfolding byte_at
byte_at-second [] body = refl
byte_at-second (x ∷ s) body = byte_at-second s body

drop-length-append : (s t : Bytes) → drop (length s) (s ++ t) ≡ t
drop-length-append [] t = refl
drop-length-append (x ∷ s) t = drop-length-append s t

drop-behind-crlf : (s t : Bytes) → drop (suc (suc (length s))) (s ++ (crlf ++ t)) ≡ t
drop-behind-crlf [] t = refl
drop-behind-crlf (x ∷ s) t = drop-behind-crlf s t

header_length-binary_frame :
    (section body : Bytes)
    → length section + 2 < 65536
    → header_length (binary_frame section body) ≡ suc (suc (length section))
unfolding header_length byte_at binary_frame
header_length-binary_frame section body h = omega arith

length-binary_frame :
    (section body : Bytes)
    → length (binary_frame section body) ≡ suc (suc (length section + suc (suc (length body))))
unfolding binary_frame
length-binary_frame section body = omega (arith, length-append section (crlf ++ body))

-- The frames that pass the tests on their lengths.
passes :
    (bytes : Bytes)
    → leb 2 (length bytes) ≡ true
    → leb 2 (header_length bytes) ≡ true
    → leb (header_length bytes) (length bytes) ≡ true
    → leb (header_length bytes + 2) (length bytes) ≡ true
    → (byte_at bytes (header_length bytes) == 13 && byte_at bytes (header_length bytes + 1) == 10)
      ≡ true
    → parse_binary_frame bytes
      ≡ parse_audio
          (take (header_length bytes - 2) (drop 2 bytes))
          (drop (header_length bytes + 2) bytes)
unfolding parse_binary_frame
passes bytes h1 h2 h3 h4 h5 = rw (h1, h2, h3, h4, h5) refl

-- Framing is undone, whatever the header and the body.
parse_binary_frame-binary_frame :
    (section body : Bytes)
    → length section + 2 < 65536
    → parse_binary_frame (binary_frame section body) ≡ parse_audio section body
unfolding binary_frame byte_at
parse_binary_frame-binary_frame section body h =
    let n = suc (suc (length section)) in
    let frame = binary_frame section body in
    let e : header_length frame ≡ n = header_length-binary_frame section body h in
    let l = length-binary_frame section body in
    let first : byte_at frame n ≡ 13 = byte_at-first section body in
    let i : n + 1 ≡ suc n = omega arith in
    let j : header_length frame - 2 ≡ length section = omega arith in
    let k : header_length frame + 2 ≡ suc (suc n) = omega arith in
    let second : byte_at frame (n + 1) ≡ 10 = ap (byte_at frame) i ∙ byte_at-second section body in
    let header_text : take (header_length frame - 2) (section ++ (crlf ++ body)) ≡ section =
      ap (λ m. take m (section ++ (crlf ++ body))) j ∙ take-length-append section (crlf ++ body) in
    let rest : drop (header_length frame + 2) frame ≡ body =
      ap (λ m. drop m frame) k ∙ drop-behind-crlf section body in
    passes frame (ground arith) (ground arith) (ground arith) (ground arith)
      (rw (e, first, second) refl)
    ∙ ap₂ parse_audio header_text rest

audio_body-filled :
    (body : Bytes) → body ≢ [] → audio_body (some (codes "audio/mpeg")) body ≡ ok (audio body ∷ [])
unfolding audio_body bytes_eq is_empty
audio_body-filled [] n = absurd (n refl)
audio_body-filled (c ∷ cs) n = refl

-- For every header with a path `audio` and the content type `audio/mpeg`, of at least one field, whose
-- names and values hold no carriage return and whose names hold no colon, that is shorter than 65534
-- bytes, and every body that is not empty, the binary frame of the two is read as audio with that body.
pub parse_binary_frame-audio :
    (h : Bytes × Bytes) (hs : List (Bytes × Bytes)) (body : Bytes)
    → All IsHeader (h ∷ hs)
    → length (section_of h hs) + 2 < 65536
    → find_header (codes "Path") (h ∷ hs) ≡ some (codes "audio")
    → find_header (codes "Content-Type") (h ∷ hs) ≡ some (codes "audio/mpeg")
    → body ≢ []
    → parse_binary_frame (binary_frame (section_of h hs) body) ≡ ok (audio body ∷ [])
unfolding parse_audio header rethrow is_audio_path bytes_eq
parse_binary_frame-audio h hs body a l p t n =
    parse_binary_frame-binary_frame (section_of h hs) body l
    ∙ rw (parse_section h hs a) (rw p (rw t (audio_body-filled body n)))
