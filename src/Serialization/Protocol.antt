-- ===== src/Serialization/Protocol.antt =====
-- modules/serialization: ProtocolMessage, ProtocolParser and ProtocolSerializer.
pub mod RoundTrip
use edge_tts_cpp.Base.{
  ℕ, zero, suc, ◌+◌, Bool, Option, none, some, List, [], ◌∷◌, ◌++◌, Bytes, lit, codes, ◌==◌, length,
  take, drop, find, find_byte, bytes_eq, is_empty, if◌then◌else◌,
}
use edge_tts_cpp.Common.Error.{Result, ok, fail, error, error_in, parse_error, ◌>>=◌}

pub record ProtocolMessage : Type 0 where
  pub headers : List (Bytes × Bytes)
  pub body : Bytes

-- The first header of that name.
unfoldable pub find_header : Bytes → List (Bytes × Bytes) → Option Bytes
find_header name [] = none
find_header name ((k, v) ∷ hs) = if bytes_eq k name then some v else find_header name hs

unfoldable pub header : ProtocolMessage → Bytes → Option Bytes
unfolding find_header
header m name = find_header name m.headers

abbrev pub crlf : Bytes
crlf = 13 ∷ 10 ∷ []

abbrev pub separator : Bytes
separator = 13 ∷ 10 ∷ 13 ∷ 10 ∷ []

-- One line of `name:value`, if it is not empty.
unfoldable pub parse_line : Bytes → Result (Bytes × Bytes)
parse_line line = elim (find_byte b':' line) [
  | none ↦ fail (error_in parse_error (lit "malformed protocol header line — missing ':'") line)
  | some colon ↦ ok (take colon line, drop (colon + 1) line)
]

-- `msg.headers.emplace_back(…)`, before what later rounds append; an empty line is skipped.
unfoldable pub add_line : Bytes → Result (List (Bytes × Bytes)) → Result (List (Bytes × Bytes))
unfolding parse_line
add_line [] later = later
add_line (c ∷ line) later = do h ← parse_line (c ∷ line); hs ← later; ok (h ∷ hs)

-- The loop over `remaining`. Each round takes a line or ends, so the length is fuel enough.
unfoldable pub parse_headers : ℕ → Bytes → Result (List (Bytes × Bytes))
unfolding add_line
parse_headers fuel [] = ok []
parse_headers zero (c ∷ s) = ok []
parse_headers (suc fuel) (c ∷ s) =
    let remaining : Bytes = c ∷ s in
    elim (find crlf remaining) [
      | none ↦ add_line remaining (ok [])
      | some p ↦ add_line (take p remaining) (parse_headers fuel (drop (p + 2) remaining))
    ]

unfoldable pub parse : Bytes → Result ProtocolMessage
unfolding parse_headers
parse frame = elim (find separator frame) [
  | none ↦
      fail (error parse_error (lit "protocol frame missing \\r\\n\\r\\n header/body separator"))
  | some p ↦ do
    let section = take p frame
    hs ← parse_headers (length section) section
    ok (record { headers = hs; body = drop (p + 4) frame })
]

unfoldable pub serialize_headers : List (Bytes × Bytes) → Bytes
serialize_headers [] = []
serialize_headers ((name, value) ∷ hs) = (name ++ b':' ∷ value) ++ (crlf ++ serialize_headers hs)

unfoldable pub serialize : ProtocolMessage → Bytes
unfolding serialize_headers
serialize m = serialize_headers m.headers ++ (crlf ++ m.body)
