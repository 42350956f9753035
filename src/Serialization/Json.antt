-- ===== src/Serialization/Json.antt =====
-- nlohmann::json, as the parsers use it.
use edge_tts_cpp.Base.{ℤ, Bool, Option, List, Bytes, ◌⊎◌}

-- `parse` returns a value, or the text of the exception. `member` is `contains` and `[]` (or `find`)
-- of an object; the last three are `is_array`, `is_string` and `is_number_integer` with their `get`.
pub record JsonLibrary : Type 1 where
  pub Value : Type 0
  pub parse_json : Bytes → Bytes ⊎ Value
  pub is_object : Value → Bool
  pub member : Value → Bytes → Option Value
  pub elements : Value → Option (List Value)
  pub string_value : Value → Option Bytes
  pub integer_value : Value → Option ℤ
