-- ===== src/Api/Production/Joined.antt =====
-- ProductionSynthesizer: no thread of a socket outlives a synthesis.
use edge_tts_cpp.Base.{
  ℕ, Bool, true, false, none, some, List, [], ◌∷◌, ◌++◌, Bytes, ◌≡◌, refl, ◌∙◌, sym, arith,
  Option-cases, Bool-cases, inl, inr, ◌⊎◌,
}
use edge_tts_cpp.Api.Host.{SynthesisOptions}
use edge_tts_cpp.Api.Production.{
  Network, Stack, stack_connect, stack_send_text, stack_receive, stack_close, stack_environment,
  make_synthesizer, production_synthesizer, default_max_retries,
}
use edge_tts_cpp.Common.Error.{Error, Result, ok, fail}
use edge_tts_cpp.Communication.Config.{default_edge_service_config}
use edge_tts_cpp.Communication.Platform.{Float}
use edge_tts_cpp.Communication.Session.{Call, opened, refused, sent, received, closed, SessionState}
use edge_tts_cpp.Communication.Session.Invariants.{Invariant, Keeps-synthesize}
use edge_tts_cpp.Communication.Session.Sockets.{next, follow, synthesize-closes}
use edge_tts_cpp.Communication.WebSocketClient
use edge_tts_cpp.Communication.WebSocketClient.{
  WebSocketClient, IxMessage, InitResult, on_message, stop_and_join, item_of, wait,
}
use edge_tts_cpp.Communication.WebSocketClient.Queue.{arrive_all}
use edge_tts_cpp.Core.Chunk.{TtsChunk}
use edge_tts_cpp.Core.TtsConfig.{TtsConfig}
use edge_tts_cpp.Serialization.Json.{JsonLibrary}

-- Whether the last of the calls that open or close a socket has left one open.
unfoldable is_up : Bool → List Call → Bool
is_up b [] = b
is_up b (opened url ∷ log) = is_up true log
is_up b (refused url ∷ log) = is_up false log
is_up b (sent frame ∷ log) = is_up b log
is_up b (received ∷ log) = is_up b log
is_up b (closed ∷ log) = is_up false log

is_up-append : (b : Bool) (xs ys : List Call) → is_up b (xs ++ ys) ≡ is_up (is_up b xs) ys
unfolding is_up
is_up-append b [] ys = refl
is_up-append b (opened url ∷ log) ys = is_up-append true log ys
is_up-append b (refused url ∷ log) ys = is_up-append false log ys
is_up-append b (sent frame ∷ log) ys = is_up-append b log ys
is_up-append b (received ∷ log) ys = is_up-append b log ys
is_up-append b (closed ∷ log) ys = is_up-append false log ys

is_up-follow : (b b' : Bool) (log : List Call) → follow b log ≡ some b' → is_up b log ≡ b'
unfolding is_up follow next
is_up-follow b b' [] h = grind arith
is_up-follow false b' (opened url ∷ log) h = is_up-follow true b' log h
is_up-follow true b' (opened url ∷ log) h = grind arith
is_up-follow false b' (refused url ∷ log) h = is_up-follow false b' log h
is_up-follow true b' (refused url ∷ log) h = grind arith
is_up-follow true b' (sent frame ∷ log) h = is_up-follow true b' log h
is_up-follow false b' (sent frame ∷ log) h = grind arith
is_up-follow true b' (received ∷ log) h = is_up-follow true b' log h
is_up-follow false b' (received ∷ log) h = grind arith
is_up-follow true b' (closed ∷ log) h = is_up-follow false b' log h
is_up-follow false b' (closed ∷ log) h = grind arith

-- The queue does not touch the thread or the options.
abbrev Same : WebSocketClient → WebSocketClient → Type 0
Same c c' = (c'.proxy ≡ c.proxy) × (c'.running ≡ c.running)

arrive_all-Same : (ms : List IxMessage) (c : WebSocketClient) → Same c (arrive_all ms c)
unfolding arrive_all on_message
arrive_all-Same [] c = (refl, refl)
arrive_all-Same (m ∷ ms) c = arrive_all-Same ms (on_message m c)

wait-Same : (ms : List IxMessage) (c : WebSocketClient) → Same c (wait ms c).1
unfolding wait
wait-Same [] c = (refl, refl)
wait-Same (m ∷ ms) c = elim (Option-cases (item_of m)) [
  | inl q ↦ rw (q, wait) (wait-Same ms c)
  | inr (item, q) ↦ rw (q, wait) (refl, refl)
]

receive-Same : (ms : List IxMessage) (c : WebSocketClient) → Same c (WebSocketClient.receive ms c).1
unfolding WebSocketClient.receive
receive-Same ms c = after c.incoming refl
  where
    after :
        (items : List WebSocketClient.QueueItem)
        → c.incoming ≡ items
        → Same c (WebSocketClient.receive ms c).1
    after [] q = rw (q, WebSocketClient.receive) (wait-Same ms c)
    after (item ∷ items) q = rw (q, WebSocketClient.receive) (refl, refl)

-- A client without a proxy that connects has a thread; one that fails to has none.
connect-running :
    (library : Bytes → ℕ → InitResult) (url : Bytes) (c : WebSocketClient)
    → c.proxy ≡ none
    → ((WebSocketClient.connect library url c).1.proxy ≡ none)
      × ((((WebSocketClient.connect library url c).0 ≡ ok tt)
            × ((WebSocketClient.connect library url c).1.running ≡ true))
          ⊎ ((e : Error) × ((WebSocketClient.connect library url c).0 ≡ fail e)
              × ((WebSocketClient.connect library url c).1.running ≡ false)))
unfolding WebSocketClient.connect stop_and_join
connect-running library url c p =
    elim (Bool-cases (library url (WebSocketClient.connect_secs c)).success) [
      | inl q ↦
          rw (p, WebSocketClient.connect) (rw (q, WebSocketClient.connect) (p, inl (refl, refl)))
      | inr q ↦
          rw (p, WebSocketClient.connect) (rw (q, WebSocketClient.connect) (p, inr (_, refl, refl)))
    ]

module _ (f : Float) (net : Network f) where
  -- The thread runs when, and only when, the log says that a socket is open.
  abbrev Tracks : Stack f net → List Call → Type 0
  Tracks s log = (s.client.proxy ≡ none) × (s.client.running ≡ is_up false log)

  Tracks-Same :
      (s s' : Stack f net) (log : List Call) (x : Call)
      → is_up (is_up false log) (x ∷ []) ≡ is_up false log
      → Same s.client s'.client
      → Tracks s log
      → Tracks s' (log ++ x ∷ [])
  Tracks-Same s s' log x u (p, r) (hp, hr) =
      (p ∙ hp, r ∙ hr ∙ sym u ∙ sym (is_up-append false log (x ∷ [])))

  tracking : Invariant f (stack_environment f net)
  unfolding stack_connect stack_send_text stack_receive stack_close is_up WebSocketClient.close
      stop_and_join
  tracking = record {
    Holds = Tracks;
    opens = λ url w log h e. (
      (connect-running
          (λ u secs.
            (net.handshake w.options.extra_headers url (WebSocketClient.connect_secs w.client)
              (net.stop w.world)).0)
          url w.client h.0).0,
      elim (connect-running
          (λ u secs.
            (net.handshake w.options.extra_headers url (WebSocketClient.connect_secs w.client)
              (net.stop w.world)).0)
          url w.client h.0).1 [
            | inl (r, up) ↦ up ∙ sym (is_up-append false log (opened url ∷ []))
            | inr (x, r, up) ↦ grind arith
          ],
    );
    refuses = λ url w log x h e. (
      (connect-running
          (λ u secs.
            (net.handshake w.options.extra_headers url (WebSocketClient.connect_secs w.client)
              (net.stop w.world)).0)
          url w.client h.0).0,
      elim (connect-running
          (λ u secs.
            (net.handshake w.options.extra_headers url (WebSocketClient.connect_secs w.client)
              (net.stop w.world)).0)
          url w.client h.0).1 [
            | inl (r, up) ↦ grind arith
            | inr (y, r, up) ↦ up ∙ sym (is_up-append false log (refused url ∷ []))
          ],
    );
    sends = λ frame w log h.
        Tracks-Same w (stack_send_text f net frame w).1 log (sent frame) refl (refl, refl) h;
    receives = λ w log h.
        Tracks-Same w (stack_receive f net w).1 log received refl
          (
            (arrive_all-Same _ _).0
                ∙ (receive-Same (net.arrivals w.options.read_timeout w.world).0 w.client).0,
            (arrive_all-Same _ _).1
                ∙ (receive-Same (net.arrivals w.options.read_timeout w.world).0 w.client).1,
          )
          h;
    closes = λ w log h. (h.0, sym (is_up-append false log (closed ∷ [])));
    draws = λ w log h. h;
    counts = λ w log h. h;
    dates = λ w log h. h;
  }

-- When a new production synthesizer returns, with chunks or with an error, the thread of its socket
-- has been stopped and joined, whatever the server, the network and the cancellation flag did; and the
-- calls on the socket were in order, with every socket that was opened closed once.
pub production_synthesizer-joins :
    (f : Float) (net : Network f) (J : JsonLibrary) (fuel : ℕ) (opts : SynthesisOptions)
    (w : net.World) (config : TtsConfig) (texts : List Bytes) (r : Result (List TtsChunk))
    (s' : SessionState f (stack_environment f net))
    → production_synthesizer f net J fuel config texts (make_synthesizer f net opts w)
      ≡ some (r, s')
    → (s'.world.client.running ≡ false) × (follow false s'.log ≡ some false)
unfolding production_synthesizer make_synthesizer is_up follow tracking
production_synthesizer-joins f net J fuel opts w config texts r s' e =
    let start = make_synthesizer f net opts w in
    let ended =
      synthesize-closes f (stack_environment f net) J default_max_retries
        default_edge_service_config fuel config texts start r s' refl e in
    let kept =
      Keeps-synthesize f (stack_environment f net) (tracking f net) J default_max_retries
        default_edge_service_config fuel config texts start r s' (refl, refl) e in
    (kept.1 ∙ is_up-follow false false s'.log ended, ended)
