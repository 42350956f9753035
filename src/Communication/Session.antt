-- ===== src/Communication/Session.antt =====
-- modules/communication: SynthesisSession.cpp. The session's state is the world outside, the token
-- provider's skew, and the log of the calls that it makes on the socket.
pub mod Messages
pub mod Sockets
pub mod Termination
pub mod Retries
pub mod Invariants
pub mod Skew
use edge_tts_cpp.Base.{
  ℕ, zero, suc, ◌+◌, Bool, true, false, Option, none, some, List, [], ◌∷◌, ◌++◌, Bytes, lit,
  if◌then◌else◌, ℤ, pos, ◌+ℤ◌, ltb_ℤ, ltb,
}
use edge_tts_cpp.Common.Error.{
  Error, Result, ok, fail, error, cancelled, service_error, has_context,
}
use edge_tts_cpp.Communication.Config.{EdgeServiceConfig, should_retry}
use edge_tts_cpp.Communication.Effect.{Step, ◌>>=◌, ◌>>◌, lift}
use edge_tts_cpp.Communication.HttpDate.{parse_http_date}
use edge_tts_cpp.Communication.Incoming.{
  IncomingMessage, audio, boundary, turn_end, ignored, parse_incoming,
}
use edge_tts_cpp.Communication.Outgoing.{
  ConnectionMetadata, create_for_request, build_speech_config_frame, build_ssml_frame,
}
use edge_tts_cpp.Communication.Platform.{Float, Environment, Tm, WebSocketMessage}
use edge_tts_cpp.Communication.TokenProvider.{sec_ms_gec, adjust_clock_skew}
use edge_tts_cpp.Core.Chunk.{BoundaryChunk, TtsChunk, audio_chunk, boundary_chunk}
use edge_tts_cpp.Core.TtsConfig.{TtsConfig}
use edge_tts_cpp.Serialization.SsmlBuilder.{build_from_escaped_text}
use edge_tts_cpp.Serialization.Json.{JsonLibrary}

-- What the receive loop has gathered for a chunk of text: `audio_received`,
-- `out_boundary_end_ticks` and the part of `out_chunks` that this chunk adds.
pub record Received : Type 0 where
  pub audio_received : Bool
  pub boundary_end : ℤ
  pub chunks : List TtsChunk

abbrev pub nothing_received : Received
nothing_received = record { audio_received = false; boundary_end = pos 0; chunks = [] }

unfoldable pub max_ℤ : ℤ → ℤ → ℤ
max_ℤ old new = if ltb_ℤ old new then new else old

-- The offset of a boundary event in the whole of the speech.
unfoldable pub shift : ℤ → BoundaryChunk → BoundaryChunk
shift by b = record b { offset_ticks = b.offset_ticks +ℤ by }

-- `for (auto& msg : *parsed)`; the flag is `done`.
unfoldable pub handle_messages : ℤ → List IncomingMessage → Received → Received × Bool
unfolding max_ℤ shift
handle_messages by [] r = (r, false)
handle_messages by (audio d ∷ ms) r =
    handle_messages by ms
      (record r { audio_received = true; chunks = r.chunks ++ audio_chunk d ∷ [] })
handle_messages by (boundary b ∷ ms) r = handle_messages by ms (record r {
  boundary_end = max_ℤ r.boundary_end (b.offset_ticks +ℤ b.duration_ticks);
  chunks = r.chunks ++ boundary_chunk (shift by b) ∷ [];
})
handle_messages by (turn_end ∷ ms) r = (r, true)
handle_messages by (ignored ∷ ms) r = handle_messages by ms r

-- `if (!audio_received)`.
unfoldable pub require_audio : Received → Result Received
require_audio r =
    if r.audio_received
    then ok r
    else fail (
        error service_error
          (lit "No audio was received. Please verify that your parameters are correct."))

-- A call on the socket; a connection that was refused is not in the log.
pub data Call : Type 0 where
  opened : Bytes → Call
  refused : Bytes → Call
  sent : Bytes → Call
  received : Call
  closed : Call

module _ (f : Float) (env : Environment f) where
  pub record SessionState : Type 0 where
    pub world : env.World
    pub skew : f.Double
    pub log : List Call

  abbrev pub M : Type 0 → Type 0
  M A = Step SessionState A

  unfoldable pub check_cancelled : M (Unit {0})
  check_cancelled s = some (
    if env.is_cancelled s.world
        then fail (error cancelled (lit "synthesis was cancelled"))
        else ok tt,
    s,
  )

  unfoldable pub calendar : M Tm
  calendar s = let (t, w) = env.now_calendar s.world in some (ok t, record s { world = w })

  unfoldable pub seconds : M f.Double
  seconds s = let (t, w) = env.now_seconds s.world in some (ok t, record s { world = w })

  unfoldable pub random : M Bytes
  random s = let (b, w) = env.random_bytes s.world in some (ok b, record s { world = w })

  unfoldable pub connect_call : Bytes → SessionState → Result (Unit {0}) × SessionState
  connect_call url s =
      let (r, w) = env.connect url s.world in
      let call : Call = elim r [ ok _ ↦ opened url | fail _ ↦ refused url ] in
      (r, record s { world = w; log = s.log ++ call ∷ [] })

  unfoldable pub send_call : Bytes → M (Unit {0})
  send_call frame s =
      let (r, w) = env.send_text frame s.world in
      some (r, record s { world = w; log = s.log ++ sent frame ∷ [] })

  unfoldable pub receive_call : M WebSocketMessage
  receive_call s =
      let (r, w) = env.receive s.world in
      some (r, record s { world = w; log = s.log ++ received ∷ [] })

  unfoldable pub close_call : SessionState → SessionState
  close_call s = record s { world = env.close s.world; log = s.log ++ closed ∷ [] }

  -- `sec_ms_gec()` with the provider's skew.
  unfoldable pub token : EdgeServiceConfig → M Bytes
  unfolding seconds
  token config s = (do now ← seconds; lift (ok (sec_ms_gec f config now s.skew))) s

  -- The correction of the skew by the server's date, if the error carries one.
  unfoldable pub correct_skew : Error → SessionState → SessionState
  unfolding has_context
  correct_skew e s = elim (if has_context e then parse_http_date e.context else none) [
    | none ↦ s
    | some server_ts ↦
        let (now, w) = env.now_seconds s.world in
        record s {
          world = w;
          skew = adjust_clock_skew f s.skew (f.sub (f.of_integer server_ts) (f.add now s.skew));
        }
  ]

module _ (f : Float) (env : Environment f) (J : JsonLibrary) where
  -- `while (true)`, with fuel for its rounds.
  unfoldable pub receive_loop : ℕ → ℤ → Received → M f env Received
  unfolding check_cancelled receive_call
  receive_loop zero by r s = none
  receive_loop (suc fuel) by r s =
      (do
        check_cancelled f env
        message ← receive_call f env
        messages ← lift (parse_incoming J message)
        λ s'.
            let (r', done) = handle_messages by messages r in
            elim done [ true ↦ some (ok r', s') | false ↦ receive_loop fuel by r' s' ])
        s

  -- The socket is open before, and is left open.
  unfoldable pub run_one_chunk : ℕ → TtsConfig → Bytes → ConnectionMetadata → ℤ → M f env Received
  unfolding calendar send_call receive_loop require_audio
  run_one_chunk fuel config text metadata by = do
    now ← calendar f env
    speech_cfg ← lift (build_speech_config_frame now config)
    send_call f env speech_cfg
    ssml ← lift (build_from_escaped_text config text)
    later ← calendar f env
    send_call f env (build_ssml_frame later ssml metadata)
    r ← receive_loop fuel by nothing_received
    lift (require_audio r)

  -- Send and receive on an open socket, and close it whatever came of it.
  unfoldable pub run_and_close : ℕ → TtsConfig → Bytes → ConnectionMetadata → ℤ → M f env Received
  unfolding run_one_chunk close_call
  run_and_close fuel config text metadata by s =
      elim (run_one_chunk fuel config text metadata by s) [
        | none ↦ none
        | some (r, s') ↦ some (r, close_call f env s')
      ]

  -- The URL of an attempt.
  unfoldable pub attempt_url : EdgeServiceConfig → ConnectionMetadata → Bytes → Bytes
  attempt_url service metadata gec =
      service.websocket_endpoint
      ++ (lit "&ConnectionId="
          ++ (metadata.connection_id
              ++ (lit "&Sec-MS-GEC="
                  ++ (gec ++ (lit "&Sec-MS-GEC-Version=" ++ service.sec_ms_gec_version)))))

  -- Connect, and use the socket; or retry, with the skew corrected, when the error allows it.
  unfoldable pub with_connection :
      ℕ → ℕ → Bytes → M f env Received → M f env Received → M f env Received
  unfolding connect_call correct_skew should_retry
  with_connection max_retries attempt url use_socket retry s =
      let (conn, s') = connect_call f env url s in
      elim conn [
        | ok _ ↦ use_socket s'
        | fail e ↦ elim (should_retry max_retries e attempt) [
          | true ↦ retry (correct_skew f env e s')
          | false ↦ some (fail e, s')
        ]
      ]

  -- `for (attempt = 0; ; ++attempt)`, with fuel for the attempts.
  unfoldable pub attempts :
      ℕ → ℕ → EdgeServiceConfig → ℕ → TtsConfig → Bytes → ℤ → ℕ → M f env Received
  unfolding random token run_and_close attempt_url create_for_request with_connection
  attempts zero max_retries service fuel config text by attempt s = none
  attempts (suc rounds) max_retries service fuel config text by attempt s =
      (do
        first ← random f env
        second ← random f env
        let metadata = create_for_request first second
        gec ← token f env service
        with_connection max_retries attempt (attempt_url service metadata gec)
            (run_and_close fuel config text metadata by)
            (attempts rounds max_retries service fuel config text by (attempt + 1)))
        s

  -- The loop over the chunks of text; `by` is `cumulative_subtitle_ticks`.
  unfoldable pub synthesize_from :
      ℕ → EdgeServiceConfig → ℕ → TtsConfig → ℤ → List Bytes → M f env (List TtsChunk)
  unfolding check_cancelled attempts
  synthesize_from max_retries service fuel config by [] = lift (ok [])
  synthesize_from max_retries service fuel config by (text ∷ texts) = do
    check_cancelled f env
    r ← attempts (suc max_retries) max_retries service fuel config text by 0
    rest ← synthesize_from max_retries service fuel config (by +ℤ r.boundary_end) texts
    lift (ok (r.chunks ++ rest))

  unfoldable pub synthesize :
      ℕ → EdgeServiceConfig → ℕ → TtsConfig → List Bytes → M f env (List TtsChunk)
  unfolding synthesize_from
  synthesize max_retries service fuel config texts =
      synthesize_from max_retries service fuel config (pos 0) texts
