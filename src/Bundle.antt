-- ===== src/Bundle.antt =====
-- DACS-5 bundles: the two-sided consistency of copies, and the verification of one bundle.
pub mod Value
pub mod Consistency
