-- ===== src/Communication/WebSocketClient.antt =====
-- modules/communication: WebSocketClient.cpp over ixwebsocket. The callback of the library's thread and
-- the calls of the client are steps on one state, which the mutex keeps apart; `wait_for` is the
-- sequence of the messages that arrive before the timeout.
pub mod Queue
pub mod Connecting
use edge_tts_cpp.Base.{
  ℕ, ◌/◌, Bool, true, false, not, ◌||◌, Option, none, some, List, [], ◌∷◌, ◌++◌, Bytes, lit,
  is_empty, ◌==◌, if◌then◌else◌,
}
use edge_tts_cpp.Common.Error.{
  Error, Result, ok, fail, error, error_in, network_error, drm_error, unsupported, timeout,
}
use edge_tts_cpp.Communication.Config.{sanitize_proxy_url}
use edge_tts_cpp.Communication.Platform.{WebSocketMessage, text_message, binary_message}

-- `ix::WebSocketMessage`, by its type: the bytes and whether they are binary, the reason of an error,
-- the code and the reason of a close; `other` is any further type.
pub data IxMessage : Type 0 where
  message : Bool → Bytes → IxMessage
  broken : Bytes → IxMessage
  close_frame : ℕ → Bytes → IxMessage
  other : IxMessage

-- `ix::WebSocketInitResult`; `date` is what the case-insensitive map of its headers has for "Date".
pub record InitResult : Type 0 where
  pub success : Bool
  pub http_status : ℕ
  pub error_str : Bytes
  pub date : Option Bytes

-- `QueueItem`.
pub data QueueItem : Type 0 where
  arrived : WebSocketMessage → QueueItem
  failed : Error → QueueItem

-- The options and the queue; `running` is whether the thread that pumps the socket runs.
pub record WebSocketClient : Type 0 where
  pub proxy : Option Bytes
  pub connect_timeout : ℕ
  pub incoming : List QueueItem
  pub running : Bool

abbrev pub or_default : Bytes → Bytes → Bytes
or_default default text = if is_empty text then default else text

-- What the callback pushes, if anything.
unfoldable pub item_of : IxMessage → Option QueueItem
unfolding is_empty
item_of (message true bytes) = some (arrived (binary_message bytes))
item_of (message false text) = some (arrived (text_message text))
item_of (broken reason) =
    some (failed (error network_error (or_default (lit "WebSocket error") reason)))
item_of (close_frame code reason) =
    if not (code == 1000) || not (is_empty reason)
    then some (failed (error network_error (lit "WebSocket closed by server")))
    else none
item_of other = none

abbrev pub push : Option QueueItem → List QueueItem → List QueueItem
push none items = items
push (some item) items = items ++ item ∷ []

-- The callback.
unfoldable pub on_message : IxMessage → WebSocketClient → WebSocketClient
unfolding item_of
on_message m c = record c { incoming = push (item_of m) c.incoming }

abbrev pub result_of : QueueItem → Result WebSocketMessage
result_of (arrived m) = ok m
result_of (failed e) = fail e

abbrev pub receive_timeout : Error
receive_timeout = error timeout (lit "WebSocket receive timed out")

-- `wait_for`: the first of the arriving messages that the callback pushes, or the timeout. An item
-- that is pushed on the empty queue is taken from it at once.
unfoldable pub wait :
    List IxMessage → WebSocketClient → Result WebSocketMessage × WebSocketClient × List IxMessage
unfolding item_of
wait [] c = (fail receive_timeout, c, [])
wait (m ∷ ms) c = elim (item_of m) [ none ↦ wait ms c | some item ↦ (result_of item, c, ms) ]

-- `receive`, while these messages arrive; what has not arrived when it returns is given back.
unfoldable pub receive :
    List IxMessage → WebSocketClient → Result WebSocketMessage × WebSocketClient × List IxMessage
unfolding wait
receive arriving c = elim c.incoming [
  | item ∷ items ↦ (result_of item, record c { incoming = items }, arriving)
  | [] ↦ wait arriving c
]

-- The error of a connection that the library refuses.
unfoldable pub connect_error : InitResult → Error
unfolding is_empty
connect_error init =
    let text = or_default (lit "WebSocket connect failed") init.error_str in
    if init.http_status == 403
    then error_in drm_error text (elim init.date [ none ↦ [] | some date ↦ date ])
    else error network_error text

unfoldable pub stop_and_join : WebSocketClient → WebSocketClient
stop_and_join c = record c { running = false }

-- The seconds that the library is given.
unfoldable pub connect_secs : WebSocketClient → ℕ
connect_secs c = c.connect_timeout / 1000

-- `connect`, over what the library answers for a URL and a timeout in seconds.
unfoldable pub connect :
    (Bytes → ℕ → InitResult) → Bytes → WebSocketClient → Result (Unit {0}) × WebSocketClient
unfolding sanitize_proxy_url stop_and_join connect_secs connect_error
connect library url c = elim c.proxy [
  | some proxy ↦ (
    fail (
        error_in unsupported
          (lit
            "WebSocket proxy is not supported by the ixwebsocket networking backend; remove --proxy to proceed without a proxy")
          (sanitize_proxy_url proxy)),
    c,
  )
  | none ↦
      let fresh = record (stop_and_join c) { incoming = [] } in
      let init = library url (connect_secs c) in
      elim init.success [
        | false ↦ (fail (connect_error init), fresh)
        | true ↦ (ok tt, record fresh { running = true })
      ]
]

-- `send_text`, over whether the library has sent the frame.
unfoldable pub send_text : (Bytes → Bool) → Bytes → Result (Unit {0})
send_text library payload =
    if library payload then ok tt else fail (error network_error (lit "WebSocket send_text failed"))

unfoldable pub close : WebSocketClient → Result (Unit {0}) × WebSocketClient
unfolding stop_and_join
close c = (ok tt, stop_and_join c)
