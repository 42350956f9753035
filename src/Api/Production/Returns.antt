-- ===== src/Api/Production/Returns.antt =====
-- ProductionSynthesizer: a synthesis over a server that sends finitely many messages ends.
use edge_tts_cpp.Base.{
  ℕ, ◌+◌, ◌≤◌, ◌<◌, false, none, some, List, [], ◌∷◌, Bytes, length, length-append, ◌≡◌, refl, ap,
  arith, Option-cases, inl, inr,
}
use edge_tts_cpp.Api.Host.{SynthesisOptions}
use edge_tts_cpp.Api.Production.{
  Network, Stack, stack_connect, stack_send_text, stack_receive, stack_environment,
  make_synthesizer, production_synthesizer, default_max_retries,
}
use edge_tts_cpp.Api.Production.Joined.{production_synthesizer-joins}
use edge_tts_cpp.Common.Error.{Result, ok}
use edge_tts_cpp.Communication.Config.{default_edge_service_config}
use edge_tts_cpp.Communication.Platform.{Float, WebSocketMessage}
use edge_tts_cpp.Communication.Session.{SessionState}
use edge_tts_cpp.Communication.Session.Sockets.{follow}
use edge_tts_cpp.Communication.Session.Termination.{Finite, synthesize-returns}
use edge_tts_cpp.Communication.WebSocketClient
use edge_tts_cpp.Communication.WebSocketClient.{
  WebSocketClient, QueueItem, IxMessage, InitResult, item_of, wait, receive, connect, result_of,
}
use edge_tts_cpp.Communication.WebSocketClient.Queue.{arrive_all, items_of, arrive_all-incoming}
use edge_tts_cpp.Core.Chunk.{TtsChunk}
use edge_tts_cpp.Core.TtsConfig.{TtsConfig}
use edge_tts_cpp.Serialization.Json.{JsonLibrary}

length-items_of : (ms : List IxMessage) → length (items_of ms) ≤ length ms
unfolding items_of
length-items_of [] = omega arith
length-items_of (m ∷ ms) = elim (Option-cases (item_of m)) [
  | inl q ↦ rw (q, items_of) (omega (arith, length-items_of ms))
  | inr (i, q) ↦ rw (q, items_of) (omega (arith, length-items_of ms))
]

-- What waits for a client when a call of `receive` has returned, against what waited or arrived
-- before: no more, and less if the call returned a message.
abbrev Uses :
    List IxMessage
    → WebSocketClient
    → Result WebSocketMessage × WebSocketClient × List IxMessage
    → Type 0
Uses ms c (r, c', rest) =
    (length c'.incoming + length rest ≤ length c.incoming + length ms)
    × ((m : WebSocketMessage)
        → r ≡ ok m
        → length c'.incoming + length rest < length c.incoming + length ms)

wait-Uses : (ms : List IxMessage) (c : WebSocketClient) → Uses ms c (wait ms c)
unfolding wait
wait-Uses [] c = (omega arith, λ m e. grind arith)
wait-Uses (m ∷ ms) c =
    let (most, less) = wait-Uses ms c in
    elim (Option-cases (item_of m)) [
      | inl q ↦ rw (q, wait) (omega (arith, most), λ x e. omega (arith, less x e))
      | inr (i, q) ↦ rw (q, wait) (omega arith, λ x e. omega arith)
    ]

receive_lem :
    (ms : List IxMessage) (c : WebSocketClient) (items : List QueueItem)
    → c.incoming ≡ items
    → Uses ms c (receive ms c)
unfolding receive
receive_lem ms c [] h =
    let (most, less) = wait-Uses ms c in
    let empty : length c.incoming ≡ 0 = ap (λ (q : List QueueItem). length q) h in
    rw (h, receive) (omega (arith, most, empty), λ m e. omega (arith, less m e, empty))
receive_lem ms c (item ∷ items) h = rw (h, receive) (omega arith, λ m e. omega arith)

-- A server that sends at most `limit` messages on a socket: `remaining` counts those that have not
-- arrived yet.
pub record Delivers (f : Float) (net : Network f) : Type 0 where
  pub remaining : net.World → ℕ
  pub limit : ℕ
  pub handshake_limits :
      (headers : List (Bytes × Bytes)) (url : Bytes) (secs : ℕ) (w : net.World)
      → remaining (net.handshake headers url secs w).1 ≤ limit
  pub transmit_keeps :
      (frame : Bytes) (w : net.World) → remaining (net.transmit frame w).1 ≤ remaining w
  pub calendar_keeps : (w : net.World) → remaining (net.now_calendar w).1 ≤ remaining w
  pub arrivals_use :
      (timeout : ℕ) (w : net.World)
      → length (net.arrivals timeout w).0 + remaining (net.arrivals timeout w).1 ≤ remaining w

module _ (f : Float) (net : Network f) (t : Delivers f net) where
  abbrev pending : Stack f net → ℕ
  pending s = length s.client.incoming + t.remaining s.world

  connect-empties :
      (library : Bytes → ℕ → InitResult) (url : Bytes) (c : WebSocketClient)
      → (connect library url c).0 ≡ ok tt
      → (c.proxy ≡ none) × ((connect library url c).1.incoming ≡ [])
  unfolding connect
  connect-empties library url c e = elim (Option-cases c.proxy) [
    | inr (proxy, q) ↦ grind arith
    | inl q ↦ ground arith
  ]

  stack_connect-pending :
      (url : Bytes) (s : Stack f net)
      → (stack_connect f net url s).0 ≡ ok tt
      → pending (stack_connect f net url s).1 ≤ t.limit
  unfolding stack_connect
  stack_connect-pending url s e =
      let library : Bytes → ℕ → InitResult = λ u secs.
        (net.handshake s.options.extra_headers url (WebSocketClient.connect_secs s.client)
          (net.stop s.world)).0 in
      let (p, empty) = connect-empties library url s.client e in
      rw (empty, p)
        (omega (
          arith,
          t.handshake_limits s.options.extra_headers url (WebSocketClient.connect_secs s.client)
              (net.stop s.world),
        ))

  stack_receive-pending :
      (s : Stack f net)
      → (pending (stack_receive f net s).1 ≤ pending s)
        × ((m : WebSocketMessage)
            → (stack_receive f net s).0 ≡ ok m
            → pending (stack_receive f net s).1 < pending s)
  unfolding stack_receive
  stack_receive-pending s =
      let ms = (net.arrivals s.options.read_timeout s.world).0 in
      let got = receive ms s.client in
      let (most, less) = receive_lem ms s.client s.client.incoming refl in
      let queue : length (arrive_all got.2 got.1).incoming ≤ length got.1.incoming + length got.2 =
        rw (arrive_all-incoming got.2 got.1)
          (omega (arith, length-append got.1.incoming (items_of got.2), length-items_of got.2)) in
      let left = t.arrivals_use s.options.read_timeout s.world in
      (omega (arith, queue, most, left), λ m e. omega (arith, queue, less m e, left))

  stack_send_text-pending :
      (frame : Bytes) (s : Stack f net) → pending (stack_send_text f net frame s).1 ≤ pending s
  unfolding stack_send_text
  stack_send_text-pending frame s = omega (arith, t.transmit_keeps frame s.world)

  abbrev stack_finite : Finite f (stack_environment f net)
  stack_finite = record {
    pending = pending;
    limit = t.limit;
    connect_limits = stack_connect-pending;
    send_keeps = stack_send_text-pending;
    calendar_keeps = λ s. omega (arith, t.calendar_keeps s.world);
    receive_uses = λ s m e. (stack_receive-pending s).1 m e;
    failure_keeps = λ s x e. (stack_receive-pending s).0;
  }

-- Over a server that sends at most `limit` messages on a socket, with fuel for more rounds of the
-- receive loop than that, a new production synthesizer returns, with chunks or with an error. The
-- thread of its socket has then been stopped and joined, whatever the server, the network and the
-- cancellation flag did, and the calls on the socket were in order, with every socket that was opened
-- closed once.
pub production_synthesizer-returns :
    (f : Float) (net : Network f) (t : Delivers f net) (json : JsonLibrary) (fuel : ℕ)
    (opts : SynthesisOptions) (w : net.World) (config : TtsConfig) (texts : List Bytes)
    → t.limit < fuel
    → (r : Result (List TtsChunk)) × (s' : SessionState f (stack_environment f net))
      × (production_synthesizer f net json fuel config texts (make_synthesizer f net opts w)
          ≡ some (r, s'))
      × (s'.world.client.running ≡ false)
      × (follow false s'.log ≡ some false)
unfolding production_synthesizer
production_synthesizer-returns f net t json fuel opts w config texts h =
    let (r, s', e) =
      synthesize-returns f (stack_environment f net) (stack_finite f net t) json default_max_retries
        default_edge_service_config fuel config texts (make_synthesizer f net opts w) h in
    let (joined, closed) =
      production_synthesizer-joins f net json fuel opts w config texts r s' e in
    (r, s', e, joined, closed)
