-- ===== src/Lib.antt =====
-- Verification of the DACS reference implementation: payments, the settlement ledger, vetting
-- decisions, the consistency of session bundles, selective disclosure under consent, disputes and
-- sealed bids.
--
-- The parts, and the files that model them:
--
-- Payment.Amount: `demToOs` and `osToDem` of src/adapters/dacs/pay-dem.ts, on lists of code points.
-- Payment.Policy: src/live/pay-policy.ts. `authorize_transfer` is `authorizeTransfer`,
-- `utc_date_or_throw` is `utcDateOrThrow`, `spent_today` is `spentTodayFromJournal`. A thrown error
-- is a result, the reasons are data.
-- Payment.Policy.Parse: `parsePayPolicy` of the same file, on a parsed JSON value.
-- Payment.Gate: src/live/pay-dem-authorization.ts. A `Gate` is the closure's `activeLease`,
-- `Shared` the lock and the journal on disk, `Env` what the injected functions answer during one
-- call; `authorize`, `journal_outcome` and `before_broadcast` are the methods. `begin_outcome` and
-- `end_outcome` are the parts of `journalOutcome` up to the end of its `await` and after it.
-- Payment.Lock: `acquirePayDemJournalLock` and its `release`, of src/live/pay-dem-journal.ts; a `View`
-- is what one caller meets. Payment.Gate.System puts gates over this lock, and interleaves their
-- calls.
-- Payment.Settle: `settlePayDemCore` of src/adapters/dacs/pay-dem.ts, with the list of the calls it
-- makes; `World` is what the hooks and the node answer.
-- Ledger.Once: `createIdempotencyStore` over `createFsSettlementLog` of src/live/run-ledger.ts, for
-- one settlement key. A call is a walk through phases, one for each `await`.
-- Ledger.Journal: `validateJournalRecord` of the same file, and the `put` of a lease of
-- `createFsDemosWriteJournal`; a `Disk` is the snapshot and the lock of one wallet.
-- Vet.Gleif, Vet.Availability, Vet.ControlGate: src/lib/gleif-classify.ts,
-- src/lib/recipe-availability.ts and src/lib/control-gate.ts.
-- Bundle.Consistency: src/lib/bundle-consistency-v1.ts; Bundle.Value is what it reads of parsed
-- JSON.
-- Crypto.Hex: `hexToBytes` and `bytesToHex` of src/lib/verify-bundle.ts. Crypto.Separators: the
-- registry of src/domain-sep.ts, its guards and `buildSignedBytes`, and `sign` and `verify` of
-- src/lib/sign.ts.
-- Disclose: src/lib/disclose.ts. Disclose.Encode is `lenPrefix` and `lenDelimit`, Disclose.Merkle the
-- commitment set with its root and audit paths, Disclose.Reveal the commitments, `produceReveal` and
-- `verifyDisclosedClaim`; a rejection and an exception are two ways in which its checks end early.
-- Consent: src/lib/consent.ts, the records and `resolveEffectiveConsent`, whose loop is
-- `fold_records`; Consent.Anchor is `InMemoryConsentAnchor`, Consent.Bridge `consentCovers` and
-- `verifyDisclosedClaimWithConsent`.
-- Dispute: `verifyDisputeBundle` of src/lib/dispute.ts with its store in memory; `Layers` stands for
-- the signature check and the consent check that it calls, and Dispute.Composed fills it with
-- Consent.Bridge. Dispute.Assemble is `mintConsentReceiptId`, `signBundleRoot` and
-- `assembleDisputeBundle`.
-- SealedBid: `commitSealedBid` and `verifyReveal` of src/lib/sealed-bid.ts. SealedBid.Roles:
-- `assignSealedEnvelopeRoles` of src/lib/sealed-envelope-roles.ts.
--
-- The settlement core asks the gate for its authorization, the gate asks the policy, and the policy
-- converts its caps with the amounts; the ledger stands around the settlement of one key. A dispute
-- asks for each of its claims the consent check, which resolves the consent in force and asks the
-- check of the reveal; this one recomputes the commitment and folds its audit path.
--
-- Platform holds what the code takes from its JavaScript runtime (dates, URLs, Unicode) as
-- parameters. SHA-256, ed25519, the canonical form of JSON and the case map of texts are parameters
-- too; where a theorem relies on one (digests of 32 bytes, a key that verifies its signatures, lower
-- case that is idempotent and keeps hexadecimal texts), it says so among its hypotheses. Amounts are
-- bigints in the source and natural numbers here; so are times, where NaN and the infinities are kept
-- apart as `not_finite`.
-- Fuel is given to `digits`, the printing of a number, which gets the number's successor: each digit
-- divides the number by ten, so there are never more; and to the two loops over the levels of a Merkle
-- tree, which get the number of leaves: each level is shorter than the one below.
--
-- A call of `acquirePayDemJournalLock` is one step, so the race of two processes that take over the
-- same stale lock is left out; the claims about several gates are for runs in which the process that
-- wrote the lock file is running, where no lock is taken over.
--
-- Not modelled: the other verifiers of src/lib, the pilots and organs of src/live, the network, the
-- file system beyond its outcomes, the cryptographic libraries, the command line, and the
-- conformance data.
mod Prelude
pub mod Platform
pub mod Payment
pub mod Ledger
pub mod Consent
pub mod Crypto
pub mod Disclose
pub mod SealedBid
pub mod Vet
pub mod Bundle
pub mod Dispute
mod Tests
