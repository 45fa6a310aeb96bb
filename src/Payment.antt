-- ===== src/Payment.antt =====
-- Native DEM payments: the spending policy, the authorization gate and the settlement core.
pub mod Amount
pub mod Policy
pub mod Lock
pub mod Gate
pub mod Settle
