-- ===== src/Ledger.antt =====
-- The run ledger: exactly-once settlement and the wallet's write journal.
pub mod Once
pub mod Journal
