-- ===== src/Consent/Bridge.antt =====
-- `consentCovers` and `verifyDisclosedClaimWithConsent` of src/lib/consent.ts: a disclosed claim is
-- checked under the consent that is in force.
pub mod Disclosed
use pathos_dacs_ref.Prelude.{
  ℕ, Bool, true, false, Option, none, some, List, [], ◌∷◌, Codes, codes_eq, any, if◌then◌else◌,
  Result, ok, throw,
}
use pathos_dacs_ref.Crypto.Hex.{Bytes}
use pathos_dacs_ref.Disclose.Reveal.{
  Primitives, DisclosedClaim, VerifyDisclosedOptions, Reason, DiscloseVerifyResult, pass, fail,
  DiscloseError, compute_commitment, verify_disclosed_claim,
}
use pathos_dacs_ref.Consent.{
  ConsentRecordBody, ConsentRecord, ConsentPrimitives, ConsentStatus, granted, revoked, expired,
  no_consent, EffectiveConsent, ResolveOptions, resolve_effective_consent,
}

pub data CoverageReason : Type 0 where
  not_in_force audience_mismatch commitment_not_covered : CoverageReason

pub data Coverage : Type 0 where
  covered : ConsentRecord → Coverage
  denied : CoverageReason → Coverage

-- the state that was resolved rides along
pub record ConsentCoverageResult : Type 0 where
  pub coverage : Coverage
  pub effective : EffectiveConsent

-- `none` where `expectedGrantor` is no text; `now` has its default filled in
pub record VerifyWithConsentOptions : Type 0 where
  pub signed_root : Codes
  pub presentation_pub_key : Codes
  pub expected_verifier_id : Codes
  pub expected_nonce : Codes
  pub now : ℕ
  pub ledger : List ConsentRecord
  pub expected_grantor : Option Codes
  pub resolve_now : Option ℕ
  pub require_valid_signatures : Bool

pub data BridgeReason : Type 0 where
  recompute_failed grantor_mismatch : BridgeReason
  consent_denied : CoverageReason → BridgeReason
  disclosure_rejected : Reason → BridgeReason

pub data BridgeResult : Type 0 where
  accepted : BridgeResult
  refused : BridgeReason → BridgeResult

pub data BridgeError : Type 0 where
  grantor_required record_not_canonical : BridgeError
  disclose_error : DiscloseError → BridgeError

abbrev pub includes : List Codes → Codes → Bool
includes cs c = any (λ x. codes_eq x c) cs

abbrev pub grant_covers : Codes → Codes → ConsentRecord → Coverage
grant_covers audience target r =
    if codes_eq r.body.audience audience
    then if includes r.body.commitments target then covered r else denied commitment_not_covered
    else denied audience_mismatch

abbrev pub status_covers : Codes → Codes → ConsentStatus → Coverage
status_covers audience target (granted r) = grant_covers audience target r
status_covers audience target (revoked r) = denied not_in_force
status_covers audience target (expired r) = denied not_in_force
status_covers audience target no_consent = denied not_in_force

abbrev pub covers : Codes → Codes → Option EffectiveConsent → Option ConsentCoverageResult
covers audience target none = none
covers audience target (some e) =
    some (record { coverage = status_covers audience target e.status; effective = e })

abbrev pub bridged : Result DiscloseError DiscloseVerifyResult → Result BridgeError BridgeResult
bridged (throw e) = throw (disclose_error e)
bridged (ok pass) = ok accepted
bridged (ok (fail reason)) = ok (refused (disclosure_rejected reason))

-- `options.resolve?.now ?? options.now`
abbrev pub now_of : Option ℕ → ℕ → ℕ
now_of none now = now
now_of (some t) now = t

abbrev pub resolve_options : VerifyWithConsentOptions → ResolveOptions
resolve_options o = record {
  now = now_of o.resolve_now o.now;
  require_valid_signatures = o.require_valid_signatures;
}

-- the options of the check of the claim: the scope is the one that was resolved
abbrev pub disclosed_options : VerifyWithConsentOptions → Codes → VerifyDisclosedOptions
disclosed_options o scope = record {
  signed_root = o.signed_root;
  presentation_pub_key = o.presentation_pub_key;
  expected_verifier_id = o.expected_verifier_id;
  expected_nonce = o.expected_nonce;
  expected_consent_receipt_id = some scope;
  allow_unscoped_consent = false;
  now = o.now;
}

-- `consentCovers`: `none` if it throws
unfoldable pub consent_covers :
    ConsentPrimitives
    → List ConsentRecord
    → (scope audience commitment : Codes) → ResolveOptions
    → Option ConsentCoverageResult
consent_covers prims ledger scope audience commitment options =
    covers audience (prims.to_lower commitment)
      (resolve_effective_consent prims ledger scope options)

module _ {Claim : Type 0} (prims : Primitives Claim) (jcs : ConsentRecordBody → Option Bytes) where
  abbrev pub consent_primitives : ConsentPrimitives
  consent_primitives = record {
    sha256 = prims.sha256;
    to_lower = prims.to_lower;
    jcs = jcs;
    ed25519 = prims.ed25519;
  }

  -- the authority check, and the check of the claim
  abbrev pub check_grantor :
      DisclosedClaim Claim
      → VerifyWithConsentOptions
      → Codes
      → Coverage
      → Result BridgeError BridgeResult
  check_grantor d o grantor (denied reason) = ok (refused (consent_denied reason))
  check_grantor d o grantor (covered r) =
      if codes_eq (prims.to_lower r.body.grantor) (prims.to_lower grantor)
      then bridged
          (verify_disclosed_claim prims d (disclosed_options o d.challenge.consent_receipt_id))
      else ok (refused grantor_mismatch)

  abbrev pub check_coverage :
      DisclosedClaim Claim
      → VerifyWithConsentOptions
      → Codes
      → Option ConsentCoverageResult
      → Result BridgeError BridgeResult
  check_coverage d o grantor none = throw record_not_canonical
  check_coverage d o grantor (some c) = check_grantor d o grantor c.coverage

  abbrev pub check_consent :
      DisclosedClaim Claim
      → VerifyWithConsentOptions
      → Codes
      → Option Codes
      → Result BridgeError BridgeResult
  check_consent d o grantor none = ok (refused recompute_failed)
  check_consent d o grantor (some commitment) = check_coverage d o grantor (
      consent_covers consent_primitives o.ledger d.challenge.consent_receipt_id
        o.expected_verifier_id commitment (resolve_options o))

  abbrev pub with_grantor :
      DisclosedClaim Claim
      → VerifyWithConsentOptions
      → Option Codes
      → Result BridgeError BridgeResult
  with_grantor d o none = throw grantor_required
  with_grantor d o (some []) = throw grantor_required
  with_grantor d o (some (g ∷ gs)) =
      check_consent d o (g ∷ gs) (compute_commitment prims d.salt d.claim)

  -- `verifyDisclosedClaimWithConsent`
  unfoldable pub verify_disclosed_claim_with_consent :
      DisclosedClaim Claim → VerifyWithConsentOptions → Result BridgeError BridgeResult
  verify_disclosed_claim_with_consent d o = with_grantor d o o.expected_grantor
