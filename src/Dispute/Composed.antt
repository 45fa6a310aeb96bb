-- ===== src/Dispute/Composed.antt =====
-- src/lib/dispute.ts over src/lib/consent.ts and src/lib/disclose.ts: what stands behind each claim of
-- a bundle that passes.
use pathos_dacs_ref.Prelude.{
  String, Codes, codes, Bool, true, false, Option, none, some, List, [], ◌∷◌, ◌≡◌, refl, All, ok,
  throw, Result,
}
use pathos_dacs_ref.Crypto.Hex.{Bytes, hex_to_bytes}
use pathos_dacs_ref.Crypto.Separators.{verify}
use pathos_dacs_ref.Disclose.Merkle.{MerklePathStep}
use pathos_dacs_ref.Disclose.Reveal.{Primitives, finite, DisclosedClaim}
use pathos_dacs_ref.Consent.{ConsentRecordBody, ConsentRecord}
use pathos_dacs_ref.Consent.Bridge.{
  VerifyWithConsentOptions, BridgeResult, BridgeError, accepted, refused,
  verify_disclosed_claim_with_consent,
}
use pathos_dacs_ref.Consent.Bridge.Disclosed.{Authorised, verify_with_consent-Authorised}
use pathos_dacs_ref.Platform.{Platform}
use pathos_dacs_ref.Dispute.{
  Challenge, Disclosure, DisputeEvidenceBundle, DiscloseVerifyResult, ConsentOptions, Layers, Seen,
  VerifyDisputeBundleOptions, DisputeBundleVerifyResult, consent_options, verify_dispute_bundle,
}
use pathos_dacs_ref.Dispute.Accepted.{verify-Proven}

-- a disclosed claim without its challenge
pub record Shown (Claim : Type 0) : Type 0 where
  pub claim : Claim
  pub salt : Codes
  pub merkle_path : List MerklePathStep
  pub reveal_sig : Codes

abbrev pub claim_of : {Claim : Type 0} → Shown Claim → Challenge → DisclosedClaim Claim
claim_of s c = record {
  claim = s.claim;
  salt = s.salt;
  merkle_path = s.merkle_path;
  reveal_sig = s.reveal_sig;
  challenge = record {
    verifier_id = codes c.verifier_id;
    consent_receipt_id = codes c.consent_receipt_id;
    nonce = codes c.nonce;
    expiry = finite c.expiry;
  };
}

-- what `verifyDisputeBundle` tells the consent check
abbrev pub options_of : ConsentOptions (List ConsentRecord) → VerifyWithConsentOptions
options_of o = record {
  signed_root = codes o.signed_root;
  presentation_pub_key = codes o.presentation_pub_key;
  expected_verifier_id = codes o.expected_verifier_id;
  expected_nonce = codes o.expected_nonce;
  now = o.now;
  ledger = o.ledger;
  expected_grantor = some (codes o.expected_grantor);
  resolve_now = some o.now;
  require_valid_signatures = true;
}

-- An exception of the consent check ends the program's check, so it accepts nothing.
abbrev result_of : Result BridgeError BridgeResult → DiscloseVerifyResult
result_of (ok accepted) = record { ok = true; reason = "" }
result_of (ok (refused reason)) = record { ok = false; reason = "refused" }
result_of (throw e) = record { ok = false; reason = "thrown" }

module _ {Claim : Type 0} (prims : Primitives Claim) (jcs : ConsentRecordBody → Option Bytes) where
  -- the signature check of the root, of texts that were decoded
  abbrev pub root_verifies : Option Bytes → Option Bytes → Codes → Option Bool
  root_verifies (some sig) (some key) root =
      some (verify prims.ed25519 "dacs-x-dispute-bundle:v1:" sig (prims.utf8 root) key none)
  root_verifies _ _ root = none

  abbrev pub check_of :
      Option Challenge → Shown Claim → ConsentOptions (List ConsentRecord) → DiscloseVerifyResult
  check_of none s o = record { ok = false; reason = "no challenge" }
  check_of (some c) s o =
      result_of (verify_disclosed_claim_with_consent prims jcs (claim_of s c) (options_of o))

  -- the layers below, as the program has them
  abbrev pub layers_of : Layers (Shown Claim) (List ConsentRecord)
  layers_of = record {
    root_sig_verifies = λ sig root key.
        root_verifies (hex_to_bytes (codes sig)) (hex_to_bytes (codes key)) (codes root);
    verify_with_consent = λ d o. check_of d.challenge d.claim o;
  }

  -- the claim is authorised, under the challenge that it carries
  pub record Shows (o : ConsentOptions (List ConsentRecord)) (d : Disclosure (Shown Claim))
      : Type 0 where
    pub challenge : Challenge
    pub carried : d.challenge ≡ some challenge
    pub authorised : Authorised prims jcs (claim_of d.claim challenge) (options_of o)

  result_accepted :
      (r : Result BridgeError BridgeResult) → (result_of r).ok ≡ true → r ≡ ok accepted
  result_accepted (ok accepted) h = refl
  result_accepted (ok (refused reason)) h = absurd cc
  result_accepted (throw e) h = absurd cc

  check-Shows :
      (o : ConsentOptions (List ConsentRecord)) (d : Disclosure (Shown Claim))
      (c : Option Challenge)
      → d.challenge ≡ c
      → (check_of c d.claim o).ok ≡ true
      → Shows o d
  check-Shows o d none e h = absurd cc
  check-Shows o d (some c) e h = record {
    challenge = c;
    carried = e;
    authorised = verify_with_consent-Authorised prims jcs (claim_of d.claim c) (options_of o) (
        result_accepted
          (verify_disclosed_claim_with_consent prims jcs (claim_of d.claim c) (options_of o)) h);
  }

  each_one :
      (o : ConsentOptions (List ConsentRecord)) (ds : List (Disclosure (Shown Claim)))
      → All (λ d. (check_of d.challenge d.claim o).ok ≡ true) ds
      → All (Shows o) ds
  each_one o [] h = tt
  each_one o (d ∷ ds) (h, hs) = (check-Shows o d d.challenge refl h, each_one o ds hs)

  pub record Adjudicated (platform : Platform)
      (bundle : DisputeEvidenceBundle (Shown Claim) (List ConsentRecord))
      (options : VerifyDisputeBundleOptions) : Type 0 where
    pub key : String
    pub root : String
    pub presenter : bundle.presentation_pub_key ≡ some key
    pub signed : bundle.signed_root ≡ some root
    pub bound :
        root_verifies
          (hex_to_bytes (codes bundle.root_sig))
          (hex_to_bytes (codes (platform.to_lower key)))
          (codes (platform.to_lower root))
        ≡ some true
    pub shows :
        All
          (Shows (consent_options platform layers_of bundle options (platform.to_lower key) root))
          bundle.disclosures

  -- If a bundle passes, its presenter signed its root, and of each of its claims: a grant by the
  -- presenter is in force for the challenge's scope and lists the claim's commitment, the commitment is
  -- a member under the root, and the presenter signed its reveal to this resolver.
  pub verify_dispute_bundle-Adjudicated :
      (platform : Platform) (bundle : DisputeEvidenceBundle (Shown Claim) (List ConsentRecord))
      (options : VerifyDisputeBundleOptions) (seen after : Seen) (r : DisputeBundleVerifyResult)
      → verify_dispute_bundle platform layers_of bundle options seen ≡ ok (r, after)
      → r.ok ≡ true
      → Adjudicated platform bundle options
  verify_dispute_bundle-Adjudicated platform bundle options seen after r h passed =
      let proven = verify-Proven platform layers_of bundle options seen r after h passed in
      record {
        key = proven.key;
        root = proven.root;
        presenter = proven.presenter;
        signed = proven.signed;
        bound = proven.bound;
        shows =
            each_one
              (consent_options platform layers_of bundle options (platform.to_lower proven.key)
                proven.root)
              bundle.disclosures proven.challenged.consented;
      }
