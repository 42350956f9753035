-- ===== src/Serialization/MetadataJson.antt =====
-- modules/serialization: MetadataJsonParser.cpp.
use edge_tts_cpp.Base.{
  ◌&&◌, not, Option, none, some, List, [], ◌∷◌, ◌++◌, Bytes, lit, codes, bytes_eq, if◌then◌else◌,
  inl, inr,
}
use edge_tts_cpp.Common.Error.{Error, Result, ok, fail, error, parse_error, guard, ◌>>=◌, ◌>>◌}
use edge_tts_cpp.Core.Chunk.{BoundaryChunk, word_boundary, sentence_boundary}
use edge_tts_cpp.Serialization.Json.{JsonLibrary}
use edge_tts_cpp.Serialization.XmlEscaper.{xml_unescape}

abbrev pub or_fail {ℓ} : {A : Type ℓ} → Option A → Error → Result A
or_fail none e = fail e
or_fail (some a) e = ok a

abbrev pub and_then {ℓ κ} : {A : Type ℓ} {B : Type κ} → Option A → (A → Option B) → Option B
and_then none f = none
and_then (some a) f = f a

module _ (J : JsonLibrary) where
  open J use {Value, parse_json, is_object, member, elements, string_value, integer_value}

  -- A member that is an object.
  unfoldable pub object_member : Value → Bytes → Option Value
  object_member v key = and_then (member v key) (λ w. if is_object w then some w else none)

  unfoldable pub parse_data : Bytes → Value → Result BoundaryChunk
  unfolding object_member
  parse_data type item = do
    data' ←
        or_fail (object_member item (lit "Data"))
          (error parse_error (lit "Metadata item missing \"Data\" object"))
    offset ←
        or_fail (and_then (member data' (lit "Offset")) integer_value)
          (error parse_error (lit "Metadata Data missing integer \"Offset\" field"))
    duration ←
        or_fail (and_then (member data' (lit "Duration")) integer_value)
          (error parse_error (lit "Metadata Data missing integer \"Duration\" field"))
    text_obj ←
        or_fail (object_member data' (lit "text"))
          (error parse_error (lit "Metadata Data missing \"text\" object"))
    text ←
        or_fail (and_then (member text_obj (lit "Text")) string_value)
          (error parse_error (lit "Metadata Data.text missing \"Text\" string field"))
    ok (record {
      kind = if bytes_eq type (codes "WordBoundary") then word_boundary else sentence_boundary;
      text = xml_unescape text;
      offset_ticks = offset;
      duration_ticks = duration;
    })

  -- One round of the loop; `none` is `continue`.
  unfoldable pub parse_item : Value → Result (Option BoundaryChunk)
  unfolding parse_data
  parse_item item = do
    guard (is_object item) (error parse_error (lit "Metadata array element must be an object"))
    type ←
        or_fail (and_then (member item (lit "Type")) string_value)
          (error parse_error (lit "Metadata item missing \"Type\" string field"))
    if bytes_eq type (codes "SessionEnd")
        then ok none
        else if not (bytes_eq type (codes "WordBoundary"))
            && not (bytes_eq type (codes "SentenceBoundary"))
        then ok none
        else (do c ← parse_data type item; ok (some c))

  abbrev pub keep : Option BoundaryChunk → List BoundaryChunk → List BoundaryChunk
  keep none cs = cs
  keep (some c) cs = c ∷ cs

  unfoldable pub parse_items : List Value → Result (List BoundaryChunk)
  unfolding parse_item
  parse_items [] = ok []
  parse_items (item ∷ items) = do c ← parse_item item; cs ← parse_items items; ok (keep c cs)

  unfoldable pub parse_metadata : Bytes → Result (List BoundaryChunk)
  unfolding parse_items
  parse_metadata text = elim (parse_json text) [
    | inl message ↦ fail (error parse_error (lit "malformed metadata JSON: " ++ message))
    | inr root ↦ do
      items ←
          or_fail
            (if is_object root then and_then (member root (lit "Metadata")) elements else none)
            (error parse_error (lit "metadata JSON must be an object with a \"Metadata\" array"))
      parse_items items
  ]
