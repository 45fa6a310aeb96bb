-- ===== src/Vet/Gleif.antt =====
-- src/lib/gleif-classify.ts: from a GLEIF answer to a decision. The texts of the reasons are left
-- out.
use pathos_dacs_ref.Prelude.{
  ℕ, ◌≤◌, ◌<◌, String, Bool, false, ◌||◌, Option, none, some, ◌≡◌, ◌≢◌, ◌⊎◌, ◌↔◌, arith, str_eq,
  eq_iff, ltb, leb, ◌==◌, if◌then◌else◌,
}
use pathos_dacs_ref.Vet.Decision.{VerifyDecision, pass, fail, indeterminate, error}

-- `none` lets the registration status decide
classify_fetch_status : ℕ → Bool → Option VerifyDecision
classify_fetch_status status has_errors =
    if status == 404
    then some fail
    else if ltb status 200 || (leb 300 status || has_errors)
    then some error
    else none

classify_registration_status : Option String → VerifyDecision
classify_registration_status none = indeterminate
classify_registration_status (some s) =
    if str_eq s "ISSUED"
    then pass
    else if str_eq s "LAPSED" || str_eq s "RETIRED"
    then indeterminate
    else if str_eq s "ANNULLED" || (str_eq s "DUPLICATE" || str_eq s "CANCELLED")
    then fail
    else indeterminate

-- the two in the order in which `vet-gleif` applies them
pub classify : ℕ → Bool → Option String → VerifyDecision
unfolding classify_fetch_status classify_registration_status
classify status has_errors reg = elim (classify_fetch_status status has_errors) [
  | none ↦ classify_registration_status reg
  | some d ↦ d
]

abbrev pub IsClean : ℕ → Bool → Type 0
IsClean status has_errors = (200 ≤ status) × (status < 300) × (has_errors ≡ false)

-- A claim passes exactly when GLEIF answered cleanly that the registration is ISSUED; no other
-- status, missing status or failed request is ever turned into a pass.
pub pass_iff :
    (status : ℕ) (has_errors : Bool) (reg : Option String)
    → (classify status has_errors reg ≡ pass) ↔ (IsClean status has_errors × (reg ≡ some "ISSUED"))
unfolding classify
pass_iff status has_errors reg =
    (pass_clean status has_errors reg, clean_pass status has_errors reg)
  where
    pass_clean :
        (status : ℕ) (has_errors : Bool) (reg : Option String)
        → classify status has_errors reg ≡ pass
        → IsClean status has_errors × (reg ≡ some "ISSUED")
    pass_clean status has_errors none h = absurd (ground arith)
    pass_clean status has_errors (some s) h = ground (arith, eq_iff s "ISSUED")

    clean_pass :
        (status : ℕ) (has_errors : Bool) (reg : Option String)
        → IsClean status has_errors × (reg ≡ some "ISSUED")
        → classify status has_errors reg ≡ pass
    clean_pass status has_errors none (c, e) = cc
    clean_pass status has_errors (some s) (c, e) = ground (arith, eq_iff s "ISSUED")

-- A failed or odd request is an error, but a 404 is a definite fail: neither reads the status.
pub request_decides :
    (status : ℕ) (has_errors : Bool) (reg : Option String)
    → ((status ≡ 404) × (classify status has_errors reg ≡ fail))
      ⊎ (((status ≢ 404) × (classify status has_errors reg ≡ error)) ⊎ IsClean status has_errors)
unfolding classify
request_decides status has_errors reg = ground arith
