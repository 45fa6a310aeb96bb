-- ===== src/Vet.antt =====
-- DACS-2 vetting: verdicts, the GLEIF mapping, recipe availability and the control gate.
pub mod Decision
pub mod Gleif
pub mod Availability
pub mod ControlGate
