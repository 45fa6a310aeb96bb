-- ===== src/Crypto.antt =====
-- Byte texts and the domain separation of signatures.
pub mod Hex
pub mod Separators
