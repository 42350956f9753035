-- ===== src/Communication/Platform.antt =====
-- What the program calls and does not define: the floating-point unit, the C library's calendar,
-- and the transport (ixwebsocket) with its clock and random numbers.
use edge_tts_cpp.Base.{ℕ, ℤ, Bool, Bytes}
use edge_tts_cpp.Common.Error.{Result}

-- `double`, with the operations of the token's arithmetic. `format` is `"%.0f"`.
pub record Float : Type 1 where
  pub Double : Type 0
  pub of_integer : ℤ → Double
  pub add : Double → Double → Double
  pub sub : Double → Double → Double
  pub mul : Double → Double → Double
  pub fmod : Double → Double → Double
  pub format : Double → Bytes

-- `std::tm` of a time in UTC, as `gmtime_r` fills it.
pub record Tm : Type 0 where
  pub wday : ℕ
  pub mon : ℕ
  pub mday : ℕ
  pub year : ℕ
  pub hour : ℕ
  pub min : ℕ
  pub sec : ℕ

-- `WebSocketMessage`.
pub data WebSocketMessage : Type 0 where
  text_message binary_message : Bytes → WebSocketMessage

-- The world outside: each call changes it. `is_cancelled` reads the flag that another thread sets.
pub record Environment (f : Float) : Type 1 where
  pub World : Type 0
  pub connect : Bytes → World → Result (Unit {0}) × World
  pub send_text : Bytes → World → Result (Unit {0}) × World
  pub receive : World → Result WebSocketMessage × World
  pub close : World → World
  pub random_bytes : World → Bytes × World
  pub now_seconds : World → f.Double × World
  pub now_calendar : World → Tm × World
  pub is_cancelled : World → Bool
