-- ===== src/Api/Production.antt =====
-- modules/api: ProductionSynthesizer of SpeechSynthesizer.cpp, the session over the WebSocket client,
-- down to the calls of ixwebsocket.
pub mod Joined
pub mod Returns
pub mod Refusal
use edge_tts_cpp.Base.{ℕ, Bool, false, Option, none, some, List, [], Bytes, ℤ, pos}
use edge_tts_cpp.Api.Host.{SynthesisOptions}
use edge_tts_cpp.Common.Error.{Result}
use edge_tts_cpp.Communication.Config.{
  EdgeServiceConfig, build_websocket_headers, default_edge_service_config,
}
use edge_tts_cpp.Communication.Effect.{Step}
use edge_tts_cpp.Communication.Platform.{Float, Environment, Tm, WebSocketMessage}
use edge_tts_cpp.Communication.Session
use edge_tts_cpp.Communication.Session.{SessionState}
use edge_tts_cpp.Communication.WebSocketClient
use edge_tts_cpp.Communication.WebSocketClient.{
  WebSocketClient, IxMessage, InitResult, stop_and_join,
}
use edge_tts_cpp.Communication.WebSocketClient.Queue.{arrive_all}
use edge_tts_cpp.Core.Chunk.{TtsChunk}
use edge_tts_cpp.Core.TtsConfig.{TtsConfig}
use edge_tts_cpp.Serialization.Json.{JsonLibrary}

-- The timeouts are in milliseconds.
pub record WebSocketClientOptions : Type 0 where
  pub proxy : Option Bytes
  pub connect_timeout : ℕ
  pub read_timeout : ℕ
  pub extra_headers : List (Bytes × Bytes)

-- `random` are the bytes of the cookie.
unfoldable pub make_ws_options :
    SynthesisOptions → EdgeServiceConfig → Bytes → WebSocketClientOptions
make_ws_options opts service random = record {
  proxy = none;
  connect_timeout = opts.ws_connect_timeout;
  read_timeout = opts.ws_read_timeout;
  extra_headers = build_websocket_headers service random;
}

-- A new client.
unfoldable pub make_client : WebSocketClientOptions → WebSocketClient
make_client o = record {
  proxy = o.proxy;
  connect_timeout = o.connect_timeout;
  incoming = [];
  running = false;
}

-- What is not code of the repository: `handshake` is `ws.connect` with the headers, the URL and the
-- seconds, `transmit` is `ws.sendText`, `stop` is `ws.stop`. `arrivals` are the messages that the
-- thread delivers from one `receive` to the end of the timeout in milliseconds; `interrupted` is the
-- flag of the token.
pub record Network (f : Float) : Type 1 where
  pub World : Type 0
  pub handshake : List (Bytes × Bytes) → Bytes → ℕ → World → InitResult × World
  pub transmit : Bytes → World → Bool × World
  pub arrivals : ℕ → World → List IxMessage × World
  pub stop : World → World
  pub random_bytes : World → Bytes × World
  pub now_seconds : World → f.Double × World
  pub now_calendar : World → Tm × World
  pub interrupted : World → Bool

-- `max_retries` of a default RetryPolicy.
abbrev pub default_max_retries : ℕ
default_max_retries = 1

module _ (f : Float) (net : Network f) where
  pub record Stack : Type 0 where
    pub options : WebSocketClientOptions
    pub client : WebSocketClient
    pub world : net.World

  -- With a proxy the library is not called.
  unfoldable pub stack_connect : Bytes → Stack → Result (Unit {0}) × Stack
  stack_connect url s =
      let (init, w) =
        net.handshake s.options.extra_headers url (WebSocketClient.connect_secs s.client)
          (net.stop s.world) in
      let (r, client) = WebSocketClient.connect (λ u secs. init) url s.client in
      let world : net.World = elim s.client.proxy [ none ↦ w | some proxy ↦ s.world ] in
      (r, record s { client = client; world = world })

  unfoldable pub stack_send_text : Bytes → Stack → Result (Unit {0}) × Stack
  stack_send_text frame s =
      let (done, w) = net.transmit frame s.world in
      (WebSocketClient.send_text (λ payload. done) frame, record s { world = w })

  -- What arrives behind the message that is returned waits in the queue.
  unfoldable pub stack_receive : Stack → Result WebSocketMessage × Stack
  stack_receive s =
      let (messages, w) = net.arrivals s.options.read_timeout s.world in
      let (r, client, rest) = WebSocketClient.receive messages s.client in
      (r, record s { client = arrive_all rest client; world = w })

  unfoldable pub stack_close : Stack → Stack
  stack_close s = record s { client = (WebSocketClient.close s.client).1; world = net.stop s.world }

  -- The client behind the interface that the session uses.
  abbrev pub stack_environment : Environment f
  stack_environment = record {
    World = Stack;
    connect = stack_connect;
    send_text = stack_send_text;
    receive = stack_receive;
    close = stack_close;
    random_bytes = λ s. let (b, w) = net.random_bytes s.world in (b, record s { world = w });
    now_seconds = λ s. let (t, w) = net.now_seconds s.world in (t, record s { world = w });
    now_calendar = λ s. let (t, w) = net.now_calendar s.world in (t, record s { world = w });
    is_cancelled = λ s. net.interrupted s.world;
  }

  -- The constructor of ProductionSynthesizer: nothing is sent yet.
  unfoldable pub make_synthesizer : SynthesisOptions → net.World → SessionState f stack_environment
  unfolding make_ws_options make_client
  make_synthesizer opts w =
      let (random, w') = net.random_bytes w in
      let options = make_ws_options opts default_edge_service_config random in
      record {
        world = record { options = options; client = make_client options; world = w' };
        skew = f.of_integer (pos 0);
        log = [];
      }

  -- The function that `make_production_synthesizer` returns; `fuel` bounds the rounds of its receive
  -- loops.
  unfoldable pub production_synthesizer :
      JsonLibrary
      → ℕ
      → TtsConfig
      → List Bytes
      → Step (SessionState f stack_environment) (List TtsChunk)
  unfolding Session.synthesize
  production_synthesizer J fuel config texts =
      Session.synthesize f stack_environment J default_max_retries default_edge_service_config fuel
        config texts
