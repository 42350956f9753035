-- ===== src/Common.antt =====
-- modules/common: errors and results, hexadecimal digits, UTF-8, SHA-256, identifiers, cancellation.
pub mod Cancellation
pub mod Error
pub mod Hex
pub mod Utf8
pub mod Sha256
pub mod IdGenerator
