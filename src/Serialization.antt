-- ===== src/Serialization.antt =====
-- modules/serialization: from raw text to service-safe chunks, and the protocol's frames.
pub mod XmlEscaper
pub mod TextNormalizer
pub mod TextChunker
pub mod Protocol
pub mod Json
pub mod MetadataJson
pub mod SsmlBuilder
pub mod VoiceJson
