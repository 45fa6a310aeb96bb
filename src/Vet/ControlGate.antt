-- ===== src/Vet/ControlGate.antt =====
-- src/lib/control-gate.ts: existence of a claim is not control of it (DACS-1 §6.3.2).
-- An input of the stated types never throws, so the `catch` of `classifyControlGate` is left out.
pub mod Laws
pub mod Required
use Prim.Native.Char.{code}
use Prim.Native.String
use pathos_dacs_ref.Prelude.{
  ℕ, String, Bool, true, false, not, ◌&&◌, ◌||◌, Option, none, some, List, [], ◌∷◌, str_eq, leb,
  ◌==◌, any, codes, if◌then◌else◌,
}
use pathos_dacs_ref.Platform.{Platform}
use pathos_dacs_ref.Vet.Decision.{VerifyDecision, pass, fail, indeterminate, error}

pub record Claim : Type 0 where
  pub ref : String
  pub verified_by : Option String
  pub expires_at : Option ℕ

pub record Presentation : Type 0 where
  pub signer : Option String
  pub valid : Bool

pub record ResolverEntry : Type 0 where
  pub decision : VerifyDecision
  pub binding_class : Option String

pub record RequirementEntry : Type 0 where
  pub scheme : String
  pub verification_required : Bool

pub record ControlGateInput : Type 0 where
  pub presented_by : String
  pub claims : List Claim
  pub presentation : Option Presentation
  pub required : List RequirementEntry
  pub primary_claim_selector : Option String
  pub reputation_key : Option String
  pub resolver : String → Option ResolverEntry
  pub controlled_use : Bool

pub data Reason : Type 0 where
  required_claims absent_claim existence_only expired unverified verification_unresolvable
        verification_errored verification_failed presented bad_presentation holder_bound
        unresolvable resolver_errored no_control no_control_scheme :
      Reason

pub record ControlGateResult : Type 0 where
  pub decision : VerifyDecision
  pub reason : Reason

-- 'none', or the decision of the resolver
pub data VerifySignal : Type 0 where
  unbound : VerifySignal
  decided : VerifyDecision → VerifySignal

pub data ControlSignal : Type 0 where
  controlled unresolved errored uncontrolled : ControlSignal

-- `ref.split(':', 1)[0]`
abbrev pub before_colon : String → String
before_colon String.[] = ""
before_colon (String.◌∷◌ c s) = if code c == b':' then String.[] else String.◌∷◌ c (before_colon s)

abbrev is : String → Option String → Bool
is s none = false
is s (some t) = str_eq t s

-- an empty `verifiedBy` is no binding
abbrev pub binding_of : Option String → Option String
binding_of none = none
binding_of (some v) = if str_eq v "" then none else some v

abbrev pub resolved : (String → Option ResolverEntry) → Option String → Option ResolverEntry
resolved resolver none = none
resolved resolver (some v) = resolver v

verify_entry : Option ResolverEntry → VerifySignal
verify_entry none = decided indeterminate
verify_entry (some r) = decided r.decision

abbrev verify_binding : (String → Option ResolverEntry) → Option String → VerifySignal
verify_binding resolver none = unbound
verify_binding resolver (some v) = verify_entry (resolver v)

-- `verifySignal`
unfoldable pub verify_signal : Option String → (String → Option ResolverEntry) → VerifySignal
unfolding verify_entry
verify_signal verified_by resolver = verify_binding resolver (binding_of verified_by)

control_decision : VerifyDecision → Bool → ControlSignal
control_decision indeterminate c = unresolved
control_decision error c = errored
control_decision pass c = if c then controlled else uncontrolled
control_decision fail c = uncontrolled

control_entry : Option ResolverEntry → ControlSignal
unfolding control_decision
control_entry none = unresolved
control_entry (some r) = control_decision r.decision (is "control" r.binding_class)

abbrev control_binding : (String → Option ResolverEntry) → Option String → ControlSignal
control_binding resolver none = uncontrolled
control_binding resolver (some v) = control_entry (resolver v)

-- `controlSignal`
unfoldable pub control_signal : Option String → (String → Option ResolverEntry) → ControlSignal
unfolding control_entry
control_signal verified_by resolver = control_binding resolver (binding_of verified_by)

unfoldable pub find : {A : Type 0} → (A → Bool) → List A → Option A
find p [] = none
find p (x ∷ xs) = if p x then some x else find p xs

abbrev verified_by_of : Option Claim → Option String
verified_by_of none = none
verified_by_of (some c) = c.verified_by

-- the verdict on one required claim; `pass` goes on to the next
required_verdict : VerifySignal → VerifyDecision
required_verdict unbound = fail
required_verdict (decided d) = d

verdict : VerifyDecision → Reason → ControlGateResult
verdict d r = record { decision = d; reason = r }

-- the control proof by a resolved binding
by_binding : ControlSignal → ControlGateResult
unfolding verdict
by_binding controlled = verdict pass holder_bound
by_binding unresolved = verdict indeterminate unresolvable
by_binding errored = verdict error resolver_errored
by_binding uncontrolled = verdict fail no_control

-- `!claim.verifiedBy` and the resolver's entry decide that the binding is of existence alone
abbrev is_existence : Option ResolverEntry → Bool
is_existence none = false
is_existence (some r) = is "existence" r.binding_class

abbrev is_expired : Option ℕ → ℕ → Bool
is_expired none now = false
is_expired (some t) now = leb t now

module _ (platform : Platform) where
  abbrev pub scheme_of : String → String
  scheme_of ref = platform.to_lower (before_colon ref)

  abbrev pub eq_scheme : String → String → Bool
  eq_scheme a b = str_eq (platform.to_lower a) (platform.to_lower b)

  -- `requiredClaimGate`
  unfoldable pub required_claim_gate :
      List Claim → (String → Option ResolverEntry) → List RequirementEntry → VerifyDecision
  unfolding required_verdict verify_signal find
  required_claim_gate claims resolver [] = pass
  required_claim_gate claims resolver (r ∷ rs) =
      let rest = required_claim_gate claims resolver rs in
      if not r.verification_required
      then rest
      else elim (required_verdict (
          verify_signal (verified_by_of (find (λ c. eq_scheme (scheme_of c.ref) r.scheme) claims))
            resolver)) [ pass ↦ rest | fail ↦ fail | indeterminate ↦ indeterminate | error ↦ error ]

  abbrev concrete_key : Option String → Option String
  concrete_key none = none
  concrete_key (some k) =
      if not (str_eq k "presentedBy") && any (λ c. c == b':') (codes k) then some k else none

  abbrev or_else : Option String → String → String
  or_else none d = d
  or_else (some s) d = s

  -- the claim that is gated
  unfoldable pub controlled_ref : ControlGateInput → String
  controlled_ref input = or_else (concrete_key input.reputation_key) input.presented_by

  -- the requirement that BR-5 applies to
  unfoldable pub primary_required : ControlGateInput → String → Bool
  unfolding find
  primary_required input scheme =
      elim (find (λ r. eq_scheme r.scheme (or_else input.primary_claim_selector scheme))
        input.required) [ none ↦ false | some r ↦ r.verification_required ]

  -- the presentation signature, or else a control binding
  key_control : ControlGateInput → String → Claim → Option Presentation → ControlGateResult
  unfolding verdict by_binding control_signal
  key_control input ref claim (some p) =
      if p.valid && is ref p.signer then verdict pass presented else verdict fail bad_presentation
  key_control input ref claim none = by_binding (control_signal claim.verified_by input.resolver)

  -- BR-5, for a primary claim that must be verified
  key_verified : ControlGateInput → String → Claim → VerifySignal → ControlGateResult
  unfolding verdict key_control
  key_verified input ref claim unbound = verdict fail unverified
  key_verified input ref claim (decided indeterminate) =
      verdict indeterminate verification_unresolvable
  key_verified input ref claim (decided error) = verdict error verification_errored
  key_verified input ref claim (decided fail) = verdict fail verification_failed
  key_verified input ref claim (decided pass) = key_control input ref claim input.presentation

  by_scheme : ControlGateInput → String → Claim → String → ControlGateResult
  unfolding verdict key_control key_verified by_binding control_signal verify_signal
  by_scheme input ref claim scheme =
      if str_eq scheme "key"
      then (if primary_required input scheme
          then key_verified input ref claim (verify_signal claim.verified_by input.resolver)
          else key_control input ref claim input.presentation)
      else if str_eq scheme "cci-xm"
      then by_binding (control_signal claim.verified_by input.resolver)
      else verdict fail no_control_scheme

  gate_claim : ControlGateInput → ℕ → String → Option Claim → ControlGateResult
  unfolding verdict by_scheme
  gate_claim input now ref none = verdict fail absent_claim
  gate_claim input now ref (some claim) =
      if is_existence (resolved input.resolver (binding_of claim.verified_by))
      then verdict fail existence_only
      else if is_expired claim.expires_at now
      then verdict fail expired
      else by_scheme input ref claim (scheme_of ref)

  -- `classifyControlGate`
  unfoldable pub classify_control_gate : ControlGateInput → ℕ → ControlGateResult
  unfolding verdict gate_claim find controlled_ref required_claim_gate
  classify_control_gate input now =
      if not input.controlled_use
      then verdict (required_claim_gate input.claims input.resolver input.required) required_claims
      else gate_claim input now (controlled_ref input)
          (find (λ c. str_eq c.ref (controlled_ref input)) input.claims)
