-- ===== src/Vet/ControlGate/Required.antt =====
-- What the claims that a requirement names must satisfy.
use pathos_dacs_ref.Prelude.{
  ℕ, true, false, Option, none, some, List, [], ◌∷◌, ◌≡◌, refl, ◌⊎◌, inl, inr, arith, Bool-cases,
  Memᴰ, All,
}
use pathos_dacs_ref.Platform.{Platform}
use pathos_dacs_ref.Vet.Decision.{pass}
use pathos_dacs_ref.Vet.ControlGate.{
  Claim, RequirementEntry, ControlGateInput, decided, verify_signal, find, verified_by_of,
  scheme_of, eq_scheme, required_claim_gate, classify_control_gate,
}
use pathos_dacs_ref.Vet.ControlGate.Laws.{find_sound, verified_sound, Verified}

module _ (platform : Platform) (input : ControlGateInput) (now : ℕ) where
  -- One required entry is met.
  abbrev pub Met : RequirementEntry → Type 0
  Met r =
      (r.verification_required ≡ false)
      ⊎ ((claim : Claim) × Memᴰ claim input.claims
          × (eq_scheme platform (scheme_of platform claim.ref) r.scheme ≡ true)
          × Verified platform input now claim)

  Met-of_pass :
      (r : RequirementEntry) (o : Option Claim)
      → find (λ c. eq_scheme platform (scheme_of platform c.ref) r.scheme) input.claims ≡ o
      → verify_signal (verified_by_of o) input.resolver ≡ decided pass
      → Met r
  unfolding verify_signal
  Met-of_pass r none e h = cc
  Met-of_pass r (some claim) e h =
      let (m, same) = find_sound _ input.claims e in
      inr
        (claim, m, same, unfold verify_signal in verified_sound claim.verified_by input.resolver h)

  required-Met :
      (rs : List RequirementEntry)
      → required_claim_gate platform input.claims input.resolver rs ≡ pass
      → All Met rs
  unfolding required_claim_gate
  required-Met [] h = tt
  required-Met (r ∷ rs) h = elim (Bool-cases r.verification_required) [
    | inr free ↦ (inl free, required-Met rs (ground arith))
    | inl needed ↦ (Met-of_pass r _ refl (ground arith), required-Met rs (ground arith))
  ]

module _ (platform : Platform) (input : ControlGateInput) (now : ℕ) where
  -- For an input that asks for no control: if the gate's decision is a pass, then for each required
  -- entry whose verification is required, some claim of the bundle has the scheme of that entry
  -- and the resolver passed the binding of that claim.
  pub uncontrolled-Met :
      input.controlled_use ≡ false
      → (classify_control_gate platform input now).decision ≡ pass
      → All (Met platform input now) input.required
  unfolding classify_control_gate
  uncontrolled-Met uncontrolled h = required-Met platform input now input.required (ground arith)
