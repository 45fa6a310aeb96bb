-- ===== src/Vet/ControlGate/Laws.antt =====
-- What a pass of the control gate establishes, and what is never collapsed.
use pathos_dacs_ref.Prelude.{
  ℕ, ◌<◌, String, Bool, true, false, Option, none, some, List, [], ◌∷◌, ◌≡◌, ◌≢◌, refl, ◌⊎◌, inl,
  inr, arith, str_eq, eq_iff, Bool-cases, Option-cases, Memᴰ, ap, sym,
}
use pathos_dacs_ref.Platform.{Platform}
use pathos_dacs_ref.Vet.Decision.{VerifyDecision, pass, fail, indeterminate, error}
use pathos_dacs_ref.Vet.ControlGate.{
  Claim, Presentation, ResolverEntry, ControlGateInput, VerifySignal, unbound, decided,
  ControlSignal, controlled, binding_of, resolved, verify_signal, control_signal, find, scheme_of,
  controlled_ref, primary_required, classify_control_gate, gate_claim, by_scheme, key_control,
  key_verified, by_binding, is, is_existence, is_expired,
}

pub find_sound :
    {A : Type 0} (p : A → Bool) (xs : List A) {x : A}
    → find p xs ≡ some x
    → Memᴰ x xs × (p x ≡ true)
unfolding find
find_sound p [] h = cc
find_sound p (y ∷ ys) {x} h = elim (Bool-cases (p y)) [
  | inl yes_p ↦ let e : y ≡ x = ground arith in (Memᴰ.head (sym e), rw e at yes_p)
  | inr no_p ↦ let (m, q) = find_sound p ys (ground arith) in (Memᴰ.tail m, q)
]

is_eq : (s : String) (o : Option String) → is s o ≡ true → o ≡ some s
is_eq s none h = cc
is_eq s (some t) h = ap some ((eq_iff t s).0 h)

existence_is : (o : Option String) → o ≡ some "existence" → is "existence" o ≡ false → ⊥
existence_is none e h = cc
existence_is (some t) e h = ground (arith, eq_iff t "existence")

linkage_is_no_key : (s : String) → s ≡ "cci-xm" → str_eq s "key" ≡ false
linkage_is_no_key s e = rw e

-- The binding of a claim that a resolver answers.
abbrev pub ResolvesTo : (String → Option ResolverEntry) → Option String → ResolverEntry → Type 0
ResolvesTo resolver verified_by r =
    (v : String) × (verified_by ≡ some v) × (v ≢ "") × (resolver v ≡ some r)

controlled_sound :
    (verified_by : Option String) (resolver : String → Option ResolverEntry)
    → control_signal verified_by resolver ≡ controlled
    → (r : ResolverEntry) × ResolvesTo resolver verified_by r
      × (r.decision ≡ pass)
      × (r.binding_class ≡ some "control")
unfolding control_signal
controlled_sound none resolver h = cc
controlled_sound (some v) resolver h = elim (Option-cases (resolver v)) [
  | inl missing ↦ absurd (ground arith)
  | inr (r, found) ↦ (
    r,
    (v, refl, ground (arith, eq_iff v ""), found),
    ground arith,
    is_eq "control" r.binding_class (ground arith),
  )
]

pub verified_sound :
    (verified_by : Option String) (resolver : String → Option ResolverEntry)
    → verify_signal verified_by resolver ≡ decided pass
    → (r : ResolverEntry) × ResolvesTo resolver verified_by r × (r.decision ≡ pass)
unfolding verify_signal
verified_sound none resolver h = cc
verified_sound (some v) resolver h = elim (Option-cases (resolver v)) [
  | inl missing ↦ absurd (ground arith)
  | inr (r, found) ↦ (r, (v, refl, ground (arith, eq_iff v ""), found), ground arith)
]

module _ (platform : Platform) (input : ControlGateInput) (now : ℕ) where
  -- A signature by the key itself, over the bundle.
  abbrev pub Presented : Type 0
  Presented =
      (p : Presentation) × (input.presentation ≡ some p)
      × (p.valid ≡ true)
      × (p.signer ≡ some (controlled_ref platform input))

  -- A binding that the resolver passed as one of control.
  abbrev pub HolderBound : Claim → Type 0
  HolderBound claim =
      (r : ResolverEntry) × ResolvesTo input.resolver claim.verified_by r
      × (r.decision ≡ pass)
      × (r.binding_class ≡ some "control")

  abbrev pub Fresh : Option ℕ → Type 0
  Fresh none = Unit
  Fresh (some t) = now < t

  abbrev pub NotExistence : Option ResolverEntry → Type 0
  NotExistence none = Unit
  NotExistence (some r) = r.binding_class ≢ some "existence"

  NotExistence-of : (o : Option ResolverEntry) → is_existence o ≡ false → NotExistence o
  NotExistence-of none h = tt
  NotExistence-of (some r) h = λ e. absurd (existence_is r.binding_class e h)

  abbrev pub Verified : Claim → Type 0
  Verified claim =
      (r : ResolverEntry) × ResolvesTo input.resolver claim.verified_by r × (r.decision ≡ pass)

  abbrev scheme : String
  scheme = scheme_of platform (controlled_ref platform input)

  -- What the answer of a resolver without a verdict must come to.
  abbrev pub Unanswered : Option ResolverEntry → VerifyDecision → Type 0
  Unanswered none d = d ≡ indeterminate
  Unanswered (some r) d =
      ((r.decision ≢ indeterminate) ⊎ (d ≡ indeterminate)) × ((r.decision ≢ error) ⊎ (d ≡ error))

  -- What control of a claim rests on.
  pub record Controls (claim : Claim) : Type 0 where
    pub listed : Memᴰ claim input.claims
    pub named : claim.ref ≡ controlled_ref platform input
    pub fresh : Fresh claim.expires_at
    pub not_existence : NotExistence (resolved input.resolver (binding_of claim.verified_by))
    pub proof : ((scheme ≡ "key") × Presented) ⊎ HolderBound claim
    pub no_laundering :
        (scheme ≢ "key") ⊎ ((primary_required platform input scheme ≡ false) ⊎ Verified claim)

  by_binding_pass : (s : ControlSignal) → (by_binding s).decision ≡ pass → s ≡ controlled
  unfolding by_binding
  by_binding_pass s h = ground arith

  bound_proof :
      (claim : Claim)
      → (by_binding (control_signal claim.verified_by input.resolver)).decision ≡ pass
      → HolderBound claim
  bound_proof claim h = controlled_sound claim.verified_by input.resolver (by_binding_pass _ h)

  key_control_proof :
      (claim : Claim) (o : Option Presentation)
      → input.presentation ≡ o
      → (key_control platform input (controlled_ref platform input) claim o).decision ≡ pass
      → Presented ⊎ HolderBound claim
  unfolding key_control
  key_control_proof claim none e h = inr (bound_proof claim h)
  key_control_proof claim (some p) e h =
      inl (p, e, ground arith, is_eq (controlled_ref platform input) p.signer (ground arith))

  key_verified_proof :
      (claim : Claim) (s : VerifySignal)
      → (key_verified platform input (controlled_ref platform input) claim s).decision ≡ pass
      → (s ≡ decided pass) × (Presented ⊎ HolderBound claim)
  unfolding key_verified
  key_verified_proof claim unbound h = cc
  key_verified_proof claim (decided indeterminate) h = cc
  key_verified_proof claim (decided error) h = cc
  key_verified_proof claim (decided fail) h = cc
  key_verified_proof claim (decided pass) h =
      (refl, key_control_proof claim input.presentation refl h)

  keyed :
      (claim : Claim)
      → scheme ≡ "key"
      → Presented ⊎ HolderBound claim
      → ((scheme ≡ "key") × Presented) ⊎ HolderBound claim
  keyed claim k (inl p) = inl (k, p)
  keyed claim k (inr b) = inr b

  by_scheme_proof :
      (claim : Claim)
      → (by_scheme platform input (controlled_ref platform input) claim scheme).decision ≡ pass
      → (((scheme ≡ "key") × Presented) ⊎ HolderBound claim)
        × ((scheme ≢ "key") ⊎ ((primary_required platform input scheme ≡ false) ⊎ Verified claim))
  unfolding by_scheme
  by_scheme_proof claim h = elim (Bool-cases (str_eq scheme "key")) [
    | inl k ↦ elim (Bool-cases (primary_required platform input scheme)) [
      | inl needed ↦
          let (passed, proof) =
            key_verified_proof claim (verify_signal claim.verified_by input.resolver)
              (ground arith) in
          (
            keyed claim ((eq_iff scheme "key").0 k) proof,
            inr (inr (verified_sound claim.verified_by input.resolver passed)),
          )
      | inr free ↦ (
        keyed claim ((eq_iff scheme "key").0 k)
            (key_control_proof claim input.presentation refl (ground arith)),
        inr (inl free),
      )
    ]
    | inr other ↦
        (inr (bound_proof claim (ground arith)), inl (ground (arith, eq_iff scheme "key")))
  ]

  gate_claim_proof :
      (o : Option Claim)
      → find (λ c. str_eq c.ref (controlled_ref platform input)) input.claims ≡ o
      → (gate_claim platform input now (controlled_ref platform input) o).decision ≡ pass
      → (claim : Claim) × Controls claim
  unfolding gate_claim
  gate_claim_proof none e h = cc
  gate_claim_proof (some claim) e h =
      let (m, same) = find_sound _ input.claims e in
      let (proof, fair) = by_scheme_proof claim (ground arith) in
      (
        claim,
        record {
          listed = m;
          named = (eq_iff claim.ref (controlled_ref platform input)).0 same;
          fresh = ground arith;
          not_existence =
              NotExistence-of (resolved input.resolver (binding_of claim.verified_by))
                (ground arith);
          proof = proof;
          no_laundering = fair;
        },
      )

  -- A claim passes for a controlled use only if it stands in the bundle, is fresh, is not bound by
  -- mere existence, and its control is proven: by a valid presentation signature of the key itself,
  -- or by a binding that the resolver passed as one of control. A key whose verification is
  -- required must moreover itself be verified: a sibling claim does not do.
  pub pass-Controls :
      input.controlled_use ≡ true
      → (classify_control_gate platform input now).decision ≡ pass
      → (claim : Claim) × Controls claim
  unfolding classify_control_gate
  pass-Controls c h = gate_claim_proof _ refl (ground arith)

  controlled_use_gates :
      input.controlled_use ≡ true
      → classify_control_gate platform input now
        ≡ gate_claim platform input now
            (controlled_ref platform input)
            (find (λ c. str_eq c.ref (controlled_ref platform input)) input.claims)
  unfolding classify_control_gate
  controlled_use_gates c = ground arith

  -- The cases in which control rests on the claim's binding: an anchored linkage, or a key that
  -- nothing presents and whose verification is not required.
  abbrev pub RestsOnBinding : Type 0
  RestsOnBinding =
      (scheme ≡ "cci-xm")
      ⊎ ((scheme ≡ "key")
          × (input.presentation ≡ none)
          × (primary_required platform input scheme ≡ false))

  by_linkage :
      (claim : Claim)
      → str_eq scheme "cci-xm" ≡ true
      → by_scheme platform input (controlled_ref platform input) claim scheme
        ≡ by_binding (control_signal claim.verified_by input.resolver)
  unfolding by_scheme
  by_linkage claim x = rw (linkage_is_no_key scheme ((eq_iff scheme "cci-xm").0 x), x)

  by_key :
      (claim : Claim)
      → str_eq scheme "key" ≡ true
      → input.presentation ≡ none
      → primary_required platform input scheme ≡ false
      → by_scheme platform input (controlled_ref platform input) claim scheme
        ≡ by_binding (control_signal claim.verified_by input.resolver)
  unfolding by_scheme
  by_key claim k p q = rw (k, q) (rw (p, key_control))

  rests-by_scheme :
      (claim : Claim)
      → RestsOnBinding
      → by_scheme platform input (controlled_ref platform input) claim scheme
        ≡ by_binding (control_signal claim.verified_by input.resolver)
  unfolding by_scheme
  rests-by_scheme claim (inl x) = by_linkage claim ((eq_iff scheme "cci-xm").1 x)
  rests-by_scheme claim (inr (k, p, q)) = by_key claim ((eq_iff scheme "key").1 k) p q

  signal_kept :
      (claim : Claim) (v : String) (r : Option ResolverEntry)
      → claim.verified_by ≡ some v
      → v ≢ ""
      → input.resolver v ≡ r
      → Unanswered r (by_binding (control_signal claim.verified_by input.resolver)).decision
  unfolding control_signal by_binding
  signal_kept claim v none b n e = ground (arith, eq_iff v "")
  signal_kept claim v (some r) b n e = ground (arith, eq_iff v "")

  unexpired : (o : Option ℕ) → Fresh o → is_expired o now ≡ false
  unexpired none h = refl
  unexpired (some t) h = ground arith

  answer_of :
      (claim : Claim) (v : String) (r : Option ResolverEntry)
      → claim.verified_by ≡ some v
      → v ≢ ""
      → input.resolver v ≡ r
      → NotExistence r
      → is_existence (resolved input.resolver (binding_of claim.verified_by)) ≡ false
  answer_of claim v none b n e x = ground (arith, eq_iff v "")
  answer_of claim v (some r) b n e x =
      ground (arith, eq_iff v "", is_eq "existence" r.binding_class)

  claim_kept :
      (claim : Claim) (v : String) (r : Option ResolverEntry)
      → claim.verified_by ≡ some v
      → v ≢ ""
      → Fresh claim.expires_at
      → RestsOnBinding
      → input.resolver v ≡ r
      → NotExistence r
      → Unanswered r
          (gate_claim platform input now (controlled_ref platform input) (some claim)).decision
  unfolding gate_claim
  claim_kept claim v r b n fresh s e x =
      rw (answer_of claim v r b n e x, unexpired claim.expires_at fresh, rests-by_scheme claim s)
        (signal_kept claim v r b n e)

  -- A control binding that the claim names and that cannot be resolved, or is resolved to
  -- indeterminate, is indeterminate, and one whose resolver errs is an error: neither is a fail,
  -- nor a pass. The claim is the one that is gated, it is fresh, its binding is not marked as one
  -- of existence, and its control rests on that binding.
  pub unresolved_kept :
      (claim : Claim) (v : String) (r : Option ResolverEntry)
      → input.controlled_use ≡ true
      → find (λ c. str_eq c.ref (controlled_ref platform input)) input.claims ≡ some claim
      → claim.verified_by ≡ some v
      → v ≢ ""
      → Fresh claim.expires_at
      → RestsOnBinding
      → input.resolver v ≡ r
      → NotExistence r
      → Unanswered r (classify_control_gate platform input now).decision
  unresolved_kept claim v r c f b n fresh s e x =
      rw (controlled_use_gates c, f) (claim_kept claim v r b n fresh s e x)
