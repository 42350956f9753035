-- ===== src/Communication.antt =====
-- modules/communication: the protocol, the token, the session and the voice service.
pub mod Platform
pub mod Effect
pub mod Config
pub mod TokenProvider
pub mod HttpDate
pub mod Outgoing
pub mod Incoming
pub mod Session
pub mod VoiceService
pub mod WebSocketClient
pub mod HttpClient
