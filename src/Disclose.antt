-- ===== src/Disclose.antt =====
-- src/lib/disclose.ts: claims that are committed to, and disclosed one by one.
pub mod Encode
pub mod Merkle
pub mod Reveal
pub mod RoundTrip
