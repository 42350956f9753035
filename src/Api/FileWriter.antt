-- ===== src/Api/FileWriter.antt =====
-- modules/api: FileWriter.cpp, over the file streams of the host.
use edge_tts_cpp.Base.{Bytes, Bool, true, false, lit, is_empty}
use edge_tts_cpp.Common.Error.{Result, ok, fail, error_in, io_error}
use edge_tts_cpp.Api.Host.{Host}

-- `if (!content.empty()) file.write(...)`, and whether the stream is still good.
unfoldable pub write_content : (h : Host) → Bytes → Bytes → h.World → Bool × h.World
unfolding is_empty
write_content h path content w = elim (is_empty content) [
  | true ↦ (true, w)
  | false ↦ h.write_file path content w
]

-- Open with truncation, write if there is something to write, with the messages of the two failures.
unfoldable pub write_all :
    (h : Host) → Bytes → Bytes → Bytes → Bytes → h.World → Result (Unit {0}) × h.World
unfolding write_content
write_all h not_opened not_written path content w =
    let (opened, w') = h.open_file path w in
    elim opened [
      | false ↦ (fail (error_in io_error not_opened path), w')
      | true ↦
          let (written, w'') = write_content h path content w' in
          elim written [
            | false ↦ (fail (error_in io_error not_written path), w'')
            | true ↦ (ok tt, w'')
          ]
    ]

unfoldable pub write_binary : (h : Host) → Bytes → Bytes → h.World → Result (Unit {0}) × h.World
unfolding write_all
write_binary h =
    write_all h (lit "Failed to open file for binary write") (lit "Failed to write binary data")

unfoldable pub write_text_utf8 : (h : Host) → Bytes → Bytes → h.World → Result (Unit {0}) × h.World
unfolding write_all
write_text_utf8 h =
    write_all h (lit "Failed to open file for text write") (lit "Failed to write text data")
