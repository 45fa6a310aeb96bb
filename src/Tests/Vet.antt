-- ===== src/Tests/Vet.antt =====
-- The vetting decisions at concrete inputs.
use pathos_dacs_ref.Prelude.{
  ℕ, String, true, false, Option, none, some, List, [], ◌∷◌, ◌≡◌, refl, inl, arith, eq_iff, All,
}
use pathos_dacs_ref.Tests.Concrete.{plain}
use pathos_dacs_ref.Vet.Decision.{pass, indeterminate}
use pathos_dacs_ref.Vet.ControlGate.{
  Claim, ControlGateInput, ResolverEntry, RequirementEntry, classify_control_gate, controlled_ref,
  find,
}
use pathos_dacs_ref.Vet.ControlGate.Laws.{Controls, pass-Controls, unresolved_kept}
use pathos_dacs_ref.Vet.ControlGate.Required.{Met, uncontrolled-Met}

abbrev issued : Option String
issued = some "ISSUED"

abbrev failed : Option String
failed = some "failed"

abbrev not_found : ℕ
not_found = 404

abbrev wallet : Claim
wallet = record { ref = "cci-xm:wallet"; verified_by = some "binding"; expires_at = some 100 }

abbrev control_of_binding : String → Option ResolverEntry
control_of_binding _ = some (record { decision = pass; binding_class = some "control" })

abbrev controlled : ControlGateInput
controlled = record {
  presented_by = "cci-xm:wallet";
  claims = wallet ∷ [];
  presentation = none;
  required = [];
  primary_claim_selector = none;
  reputation_key = none;
  resolver = control_of_binding;
  controlled_use = true;
}

pass-Controls_example : (claim : Claim) × Controls plain controlled 5 claim
unfolding classify_control_gate
pass-Controls_example = pass-Controls plain controlled 5 refl refl

abbrev unresolved : ControlGateInput
unresolved = record controlled { resolver = λ _. none }

unresolved_kept_example : (classify_control_gate plain unresolved 5).decision ≡ indeterminate
unfolding controlled_ref find
unresolved_kept_example =
    unresolved_kept plain unresolved 5 wallet "binding" none refl refl refl
      (λ e. ground (arith, e, eq_iff "binding" "")) (omega arith) (inl refl) refl tt

abbrev wants_wallet : List RequirementEntry
wants_wallet = record { scheme = "cci-xm"; verification_required = true } ∷ []

-- a use that asks for no control, and requires the wallet's claim to be verified
abbrev uncontrolled : ControlGateInput
uncontrolled = record controlled { required = wants_wallet; controlled_use = false }

uncontrolled-Met_example : All (Met plain uncontrolled 5) wants_wallet
unfolding classify_control_gate
uncontrolled-Met_example = uncontrolled-Met plain uncontrolled 5 refl refl
