-- ===== src/Api.antt =====
-- modules/api: the facade that the command lines and the users of the library call.
pub mod Host
pub mod FileWriter
pub mod SpeechSynthesizer
pub mod VoiceList
pub mod Production
