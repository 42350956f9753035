-- ===== src/Communication/Incoming.antt =====
-- modules/communication: EdgeProtocolIncoming.cpp.
pub mod Binary
use edge_tts_cpp.Base.{
  ℕ, ◌+◌, ◌-◌, ◌*◌, Bool, false, ◌&&◌, ◌||◌, not, Option, none, some, List, [], ◌∷◌, ◌++◌, map,
  Bytes, lit, codes, bytes_eq, ◌==◌, leb, if◌then◌else◌, length, take, drop, get_elem?, is_empty,
}
use edge_tts_cpp.Common.Error.{
  Result, ok, fail, error, error_in, protocol_error, guard, what, ◌>>=◌, ◌>>◌,
}
use edge_tts_cpp.Communication.Platform.{WebSocketMessage, text_message, binary_message}
use edge_tts_cpp.Core.Chunk.{BoundaryChunk}
use edge_tts_cpp.Serialization.Json.{JsonLibrary}
use edge_tts_cpp.Serialization.MetadataJson.{parse_metadata}
use edge_tts_cpp.Serialization.Protocol.{parse, header, separator}

-- The kind with the chunk that it carries.
pub data IncomingMessage : Type 0 where
  audio : Bytes → IncomingMessage
  boundary : BoundaryChunk → IncomingMessage
  turn_end : IncomingMessage
  ignored : IncomingMessage

-- An error of an inner parser becomes the context of a protocol error.
unfoldable pub rethrow {ℓ} : {A : Type ℓ} → Bytes → Result A → Result A
rethrow message (ok a) = ok a
rethrow message (fail e) = fail (error_in protocol_error message (what e))

unfoldable pub boundaries : List BoundaryChunk → Result (List IncomingMessage)
boundaries [] = fail (error protocol_error (lit "No WordBoundary metadata found"))
boundaries (c ∷ cs) = ok (map boundary (c ∷ cs))

unfoldable pub dispatch_path : JsonLibrary → Bytes → Bytes → Result (List IncomingMessage)
unfolding bytes_eq rethrow boundaries
dispatch_path J path body =
    if bytes_eq path (codes "audio.metadata")
    then (do
      chunks ← rethrow (lit "audio.metadata parse error") (parse_metadata J body)
      boundaries chunks)
    else if bytes_eq path (codes "turn.end")
    then ok (turn_end ∷ [])
    else if bytes_eq path (codes "response") || bytes_eq path (codes "turn.start")
    then ok (ignored ∷ [])
    else fail (error_in protocol_error (lit "unknown text frame path") path)

unfoldable pub parse_text_frame : JsonLibrary → Bytes → Result (List IncomingMessage)
unfolding rethrow dispatch_path
parse_text_frame J text = do
  msg ← rethrow (lit "text frame parse error") (parse text)
  elim (header msg (codes "Path")) [
    | none ↦ fail (error protocol_error (lit "text frame missing Path header"))
    | some path ↦ dispatch_path J path msg.body
  ]

unfoldable pub or_absent : Option Bytes → Bytes
or_absent none = lit "(absent)"
or_absent (some p) = p

unfoldable pub is_audio_path : Option Bytes → Bool
unfolding bytes_eq
is_audio_path none = false
is_audio_path (some p) = bytes_eq p (codes "audio")

-- The tests on the content type and the body.
unfoldable pub audio_body : Option Bytes → Bytes → Result (List IncomingMessage)
unfolding bytes_eq is_empty
audio_body none body =
    if is_empty body
    then ok (ignored ∷ [])
    else fail (error protocol_error (lit "binary message has no Content-Type but non-empty body"))
audio_body (some content_type) body =
    if not (bytes_eq content_type (codes "audio/mpeg"))
    then fail (error_in protocol_error (lit "unexpected binary frame Content-Type") content_type)
    else if is_empty body
    then fail (error protocol_error (lit "binary audio frame is missing audio data"))
    else ok (audio body ∷ [])

-- The header and the body of a frame whose lengths have been checked.
unfoldable pub parse_audio : Bytes → Bytes → Result (List IncomingMessage)
unfolding rethrow is_audio_path or_absent audio_body
parse_audio header_text body = do
  headers ← rethrow (lit "binary frame header parse error") (parse (header_text ++ separator))
  guard (is_audio_path (header headers (codes "Path"))) (
      error_in protocol_error (lit "binary frame path is not audio")
        (or_absent (header headers (codes "Path"))))
  audio_body (header headers (codes "Content-Type")) body

-- `data[i]` of a position inside the data.
unfoldable pub byte_at : Bytes → ℕ → ℕ
byte_at s i = elim (get_elem? s i) [ none ↦ 0 | some b ↦ b ]

unfoldable pub header_length : Bytes → ℕ
unfolding byte_at
header_length bytes = byte_at bytes 0 * 256 + byte_at bytes 1

unfoldable pub parse_binary_frame : Bytes → Result (List IncomingMessage)
unfolding header_length byte_at parse_audio
parse_binary_frame bytes = do
  guard (leb 2 (length bytes))
      (error protocol_error (lit "binary message too short for header length"))
  let n = header_length bytes
  guard (leb 2 n) (error protocol_error (lit "binary frame header_length is too small (minimum 2)"))
  guard (leb n (length bytes))
      (error protocol_error (lit "binary message header_length exceeds message size"))
  guard (leb (n + 2) (length bytes))
      (error protocol_error (lit "binary frame missing \\r\\n separator after header"))
  guard (byte_at bytes n == 13 && byte_at bytes (n + 1) == 10)
      (error protocol_error (lit "binary frame separator is not \\r\\n"))
  parse_audio (take (n - 2) (drop 2 bytes)) (drop (n + 2) bytes)

unfoldable pub parse_incoming : JsonLibrary → WebSocketMessage → Result (List IncomingMessage)
unfolding parse_text_frame parse_binary_frame
parse_incoming J (text_message text) = parse_text_frame J text
parse_incoming J (binary_message bytes) = parse_binary_frame bytes
