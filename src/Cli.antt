-- ===== src/Cli.antt =====
-- modules/cli: the two command lines.
pub mod Tokens
pub mod EdgeTts
pub mod Playback
pub mod VoiceFormatter
pub mod Console
pub mod EdgeTtsDispatcher
pub mod PlaybackDispatcher
pub mod Programs
