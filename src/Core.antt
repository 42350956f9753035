-- ===== src/Core.antt =====
-- modules/core: the domain types and the validation of a configuration.
pub mod Chunk
pub mod TtsConfig
pub mod Voice
