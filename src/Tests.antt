-- ===== src/Tests.antt =====
-- The properties at concrete inputs.
mod Concrete
mod Primitives
mod Disclose
mod Consent
mod Adjudicated
mod SealedBid
mod Policy
mod Journal
mod Dispute
mod Amount
mod Payment
mod Settle
mod Ledger
mod Vet
mod Bundle
