-- ===== src/Consent/Bridge/Disclosed.antt =====
-- What `verifyDisclosedClaimWithConsent` of src/lib/consent.ts has established of a claim it accepts.
use pathos_dacs_ref.Prelude.{
  true, Option, none, some, List, [], ◌∷◌, Codes, codes_eq, codes_eq_iff, Result, ok, throw, Memᴰ,
  ◌≡◌, refl, sym, ap, ◌∙◌, Bool-cases, inl, inr, arith,
}
use pathos_dacs_ref.Crypto.Hex.{Bytes}
use pathos_dacs_ref.Disclose.Reveal.{
  Primitives, DisclosedClaim, DiscloseVerifyResult, pass, fail, DiscloseError, compute_commitment,
  verify_disclosed_claim,
}
use pathos_dacs_ref.Disclose.Reveal.Accepted.{Opened, verify_disclosed_claim-Opened}
use pathos_dacs_ref.Consent.{
  ConsentRecordBody, ConsentRecord, ConsentPrimitives, ConsentStatus, granted, revoked, expired,
  no_consent, EffectiveConsent, ResolveOptions, resolve_effective_consent,
}
use pathos_dacs_ref.Consent.Effective.{InForce, resolve-InForce}
use pathos_dacs_ref.Consent.Bridge.{
  Coverage, covered, denied, grantor_mismatch, ConsentCoverageResult, VerifyWithConsentOptions,
  accepted, refused, includes, status_covers, covers, bridged, resolve_options, disclosed_options,
  consent_covers, consent_primitives, check_grantor, check_coverage, check_consent, with_grantor,
  verify_disclosed_claim_with_consent,
}

includes-Mem : (cs : List Codes) (c : Codes) → includes cs c ≡ true → Memᴰ c cs
includes-Mem [] c h = absurd cc
includes-Mem (x ∷ cs) c h = elim (Bool-cases (codes_eq x c)) [
  | inl same ↦ Memᴰ.head (sym ((codes_eq_iff x c).0 same))
  | inr apart ↦ Memᴰ.tail (includes-Mem cs c (ground arith))
]

-- the grant that covers a commitment
Covering : Codes → Codes → ConsentStatus → ConsentRecord → Type 0
Covering audience target status r =
    (status ≡ granted r)
    × (r.body.audience ≡ audience)
    × (includes r.body.commitments target ≡ true)

status_covers-Covering :
    (audience target : Codes) (status : ConsentStatus) (r : ConsentRecord)
    → status_covers audience target status ≡ covered r
    → Covering audience target status r
unfolding Covering
status_covers-Covering audience target (granted x) r h =
    ground (arith, codes_eq_iff x.body.audience audience)
status_covers-Covering audience target (revoked x) r h = absurd cc
status_covers-Covering audience target (expired x) r h = absurd cc
status_covers-Covering audience target no_consent r h = absurd cc

-- A commitment is covered only by a grant that is in force, is for this audience, and lists it.
pub consent_covers-InForce :
    (prims : ConsentPrimitives) (ledger : List ConsentRecord) (scope audience commitment : Codes)
    (options : ResolveOptions) (c : ConsentCoverageResult) (r : ConsentRecord)
    → consent_covers prims ledger scope audience commitment options ≡ some c
    → c.coverage ≡ covered r
    → InForce prims ledger scope options r
      × (r.body.audience ≡ audience)
      × Memᴰ (prims.to_lower commitment) r.body.commitments
unfolding consent_covers Covering
consent_covers-InForce prims ledger scope audience commitment options c r h k =
    go (resolve_effective_consent prims ledger scope options) refl h
  where
    go :
        (o : Option EffectiveConsent)
        → resolve_effective_consent prims ledger scope options ≡ o
        → covers audience (prims.to_lower commitment) o ≡ some c
        → InForce prims ledger scope options r
          × (r.body.audience ≡ audience)
          × Memᴰ (prims.to_lower commitment) r.body.commitments
    go none e f = absurd cc
    go (some s) e f =
        let made : ◌≡◌ {A = ConsentCoverageResult}
            (record {
              coverage = status_covers audience (prims.to_lower commitment) s.status;
              effective = s;
            })
            c =
          cc in
        let (status, at, listed) =
          status_covers-Covering audience (prims.to_lower commitment) s.status r
            (ap (λ x. x.coverage) made ∙ k) in
        (
          resolve-InForce prims ledger scope options s r e status,
          at,
          includes-Mem r.body.commitments (prims.to_lower commitment) listed,
        )

bridged-accepted :
    (r : Result DiscloseError DiscloseVerifyResult) → bridged r ≡ ok accepted → r ≡ ok pass
bridged-accepted (throw e) h = absurd cc
bridged-accepted (ok pass) h = refl
bridged-accepted (ok (fail reason)) h = absurd cc

module _ {Claim : Type 0} (prims : Primitives Claim) (jcs : ConsentRecordBody → Option Bytes)
    (d : DisclosedClaim Claim) (o : VerifyWithConsentOptions) where
  -- What is behind an accepted claim.
  pub record Authorised : Type 0 where
    pub grantor : Codes
    pub consent : ConsentRecord
    pub commitment : Codes
    pub expected : o.expected_grantor ≡ some grantor
    pub opens : compute_commitment prims d.salt d.claim ≡ some commitment
    pub in_force :
        InForce
          (consent_primitives prims jcs)
          o.ledger
          d.challenge.consent_receipt_id
          (resolve_options o)
          consent
    pub for_audience : consent.body.audience ≡ o.expected_verifier_id
    pub lists : Memᴰ (prims.to_lower commitment) consent.body.commitments
    pub by_grantor : prims.to_lower consent.body.grantor ≡ prims.to_lower grantor
    pub disclosed : Opened prims d (disclosed_options o d.challenge.consent_receipt_id)

  covered_passed :
      (g : Codes) (v : Coverage)
      → check_grantor prims jcs d o g v ≡ ok accepted
      → (r : ConsentRecord) × (v ≡ covered r)
        × (prims.to_lower r.body.grantor ≡ prims.to_lower g)
        × (verify_disclosed_claim prims d (disclosed_options o d.challenge.consent_receipt_id)
            ≡ ok pass)
  covered_passed g (denied reason) h = absurd cc
  covered_passed g (covered r) h =
      elim (Bool-cases (codes_eq (prims.to_lower r.body.grantor) (prims.to_lower g))) [
        | inl same ↦ (
          r,
          refl,
          (codes_eq_iff (prims.to_lower r.body.grantor) (prims.to_lower g)).0 same,
          bridged-accepted
              (verify_disclosed_claim prims d (disclosed_options o d.challenge.consent_receipt_id))
              (rw same at h),
        )
        | inr apart ↦
            (let e : ok (refused grantor_mismatch) ≡ ok accepted = rw apart at h in absurd cc)
      ]

  coverage_passed :
      (g c : Codes) (v : Option ConsentCoverageResult)
      → o.expected_grantor ≡ some g
      → compute_commitment prims d.salt d.claim ≡ some c
      → consent_covers
          (consent_primitives prims jcs)
          o.ledger
          d.challenge.consent_receipt_id
          o.expected_verifier_id
          c
          (resolve_options o)
        ≡ v
      → check_coverage prims jcs d o g v ≡ ok accepted
      → Authorised
  coverage_passed g c none e f k h = absurd cc
  coverage_passed g c (some v) e f k h =
      let (r, found, same, passed) = covered_passed g v.coverage h in
      let (in_force, at, lists) =
        consent_covers-InForce (consent_primitives prims jcs) o.ledger
          d.challenge.consent_receipt_id o.expected_verifier_id c (resolve_options o) v r k found in
      record {
        grantor = g;
        consent = r;
        commitment = c;
        expected = e;
        opens = f;
        in_force = in_force;
        for_audience = at;
        lists = lists;
        by_grantor = same;
        disclosed =
            verify_disclosed_claim-Opened prims d
              (disclosed_options o d.challenge.consent_receipt_id) passed;
      }

  consent_passed :
      (g : Codes) (c : Option Codes)
      → o.expected_grantor ≡ some g
      → compute_commitment prims d.salt d.claim ≡ c
      → check_consent prims jcs d o g c ≡ ok accepted
      → Authorised
  consent_passed g none e f h = absurd cc
  consent_passed g (some c) e f h =
      coverage_passed g c
        (consent_covers (consent_primitives prims jcs) o.ledger d.challenge.consent_receipt_id
          o.expected_verifier_id c (resolve_options o))
        e f refl h

  grantor_passed :
      (g : Option Codes)
      → o.expected_grantor ≡ g
      → with_grantor prims jcs d o g ≡ ok accepted
      → Authorised
  grantor_passed none e h = absurd cc
  grantor_passed (some []) e h = absurd cc
  grantor_passed (some (x ∷ xs)) e h =
      consent_passed (x ∷ xs) (compute_commitment prims d.salt d.claim) e refl h

  -- A claim passes under consent only if a grant by the expected grantor is in force for its scope, is
  -- for this verifier and lists the commitment that the claim and its salt open, and the reveal itself
  -- passes, bound to that scope.
  pub verify_with_consent-Authorised :
      verify_disclosed_claim_with_consent prims jcs d o ≡ ok accepted → Authorised
  unfolding verify_disclosed_claim_with_consent
  verify_with_consent-Authorised h = grantor_passed o.expected_grantor refl h
