-- ===== src/Vet/Decision.antt =====
-- `VerifyDecision` of src/types/verify-result.ts: four values that are never collapsed.
pub data VerifyDecision : Type 0 where
  pass fail indeterminate error : VerifyDecision

pub VerifyDecision-discrete : Discrete VerifyDecision
VerifyDecision-discrete = hlevel
