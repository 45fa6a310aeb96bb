-- ===== src/Tests/Consent.antt =====
-- src/lib/consent.ts, and the bundles of src/lib/dispute.ts above it, at concrete inputs.
use pathos_dacs_ref.Prelude.{true, false, none, some, [], ◌∷◌, ◌++◌, codes, codes_eq, ok, ◌≡◌, refl}
use pathos_dacs_ref.Crypto.Hex.{
  hex_to_bytes, bytes_to_hex, hex-bytes, digit_value, without_prefix, byte_pairs, hex_char,
}
use pathos_dacs_ref.Crypto.Separators.{
  build_signed_bytes, sign, verify, assert_emittable_separator, assert_known_separator,
  is_legacy_read_separator,
}
use pathos_dacs_ref.Disclose.Encode.{len_delimit, len_prefix}
use pathos_dacs_ref.Disclose.Merkle.{
  codes_lt, insert, unique_sorted, fold_path, decode32, verify_merkle_path,
}
use pathos_dacs_ref.Disclose.Reveal.{
  finite, compute_commitment, reveal_preimage_body, verify_disclosed_claim, checks, check_binding,
  check_commitment, check_signature, check_config, is_hex_text,
}
use pathos_dacs_ref.Consent.{
  grant, revoke, ConsentRecordBody, ConsentRecord, revoked, ResolveOptions,
  compute_consent_record_id, sign_consent_record, verify_consent_record, is_scoped, scoped,
  fold_records, resolve_effective_consent,
}
use pathos_dacs_ref.Consent.Authentic.{verify-sign_consent_record}
use pathos_dacs_ref.Consent.Ruling.{authority, latest}
use pathos_dacs_ref.Consent.Effective.{resolve_described}
use pathos_dacs_ref.Consent.Anchor.{
  ConsentAnchor, create, append, append_all, Valid, append_all-Valid,
}
use pathos_dacs_ref.Consent.Bridge.{
  VerifyWithConsentOptions, accepted, consent_covers, verify_disclosed_claim_with_consent,
}
use pathos_dacs_ref.Consent.Bridge.Disclosed.{Authorised, verify_with_consent-Authorised}
use pathos_dacs_ref.Tests.Primitives.{
  digest, key, key-Is32, ed25519, prims, body_bytes, consent_prims, consent_reliable, flat,
}
use pathos_dacs_ref.Tests.Disclose.{preimage, revealed}

-- a grant for the claim of the other tests, its revocation, and a revocation by a stranger
abbrev granting : ConsentRecordBody
granting = record {
  action = grant;
  consent_receipt_id = codes "c";
  grantor = bytes_to_hex key;
  audience = codes "v";
  commitments = bytes_to_hex (digest preimage) ∷ [];
  issued_at = finite 1;
  expires_at = finite 9;
  supersedes = none;
}

abbrev signed_of : ConsentRecordBody → ConsentRecord
signed_of b = record {
  body = b;
  record_id = bytes_to_hex (
      digest (
        codes "dacs-x-consent:v1:"
        ++ (b.consent_receipt_id
            ++ 0 ∷ (b.grantor ++ 0 ∷ (b.audience ++ 0 ∷ flat b.commitments)))));
  signature = bytes_to_hex (
      ed25519.sign
        (codes "dacs-x-consent:v1:"
          ++ (b.consent_receipt_id
              ++ 0 ∷ (b.grantor ++ 0 ∷ (b.audience ++ 0 ∷ flat b.commitments))))
        key);
}

abbrev given : ConsentRecord
given = signed_of granting

signs : sign_consent_record consent_prims granting key ≡ some given
unfolding sign_consent_record compute_consent_record_id unique_sorted insert codes_lt codes_eq sign
    build_signed_bytes assert_emittable_separator assert_known_separator is_legacy_read_separator
    bytes_to_hex hex_char
signs = refl

verify-sign_consent_record_example : verify_consent_record consent_prims given ≡ some true
verify-sign_consent_record_example =
    verify-sign_consent_record consent_prims key key consent_reliable granting given refl
      (hex-bytes key key-Is32.1) signs

abbrev withdrawn : ConsentRecord
withdrawn = record {
  body = record {
    action = revoke;
    consent_receipt_id = codes "c";
    grantor = bytes_to_hex key;
    audience = codes "v";
    commitments = [];
    issued_at = finite 2;
    expires_at = finite 9;
    supersedes = none;
  };
  record_id = codes "b";
  signature = [];
}

abbrev foreign : ConsentRecord
foreign = record {
  body = record {
    action = revoke;
    consent_receipt_id = codes "c";
    grantor = codes "stranger";
    audience = codes "v";
    commitments = [];
    issued_at = finite 2;
    expires_at = finite 9;
    supersedes = none;
  };
  record_id = codes "c";
  signature = [];
}

abbrev unchecked : ResolveOptions
unchecked = record { now = 5; require_valid_signatures = false }

-- a stranger's revocation changes nothing, the grantor's ends the consent
resolve_described_example :
    resolve_effective_consent consent_prims
      (given ∷ foreign ∷ withdrawn ∷ foreign ∷ [])
      (codes "c")
      unchecked
    ≡ some (record { consent_receipt_id = codes "c"; status = revoked withdrawn })
unfolding scoped is_scoped authority latest codes_eq bytes_to_hex hex_char
resolve_described_example =
    resolve_described consent_prims (given ∷ foreign ∷ withdrawn ∷ foreign ∷ []) (codes "c")
      unchecked

append_all-Valid_example :
    Valid consent_prims (append_all consent_prims (create none) (given ∷ foreign ∷ given ∷ []))
append_all-Valid_example = append_all-Valid consent_prims none (given ∷ foreign ∷ given ∷ [])

abbrev anchor : ConsentAnchor
anchor = record { records = given ∷ []; seen = given.record_id ∷ []; validate_on_append = true }

appends : append consent_prims (create none) given ≡ ok (given.record_id, anchor)
unfolding append create verify_consent_record compute_consent_record_id unique_sorted insert
    codes_lt codes_eq verify build_signed_bytes assert_known_separator hex_to_bytes without_prefix
    byte_pairs digit_value bytes_to_hex hex_char
appends = refl

abbrev asks : VerifyWithConsentOptions
asks = record {
  signed_root = bytes_to_hex (digest (0 ∷ digest preimage));
  presentation_pub_key = bytes_to_hex key;
  expected_verifier_id = codes "v";
  expected_nonce = codes "n";
  now = 5;
  ledger = given ∷ foreign ∷ [];
  expected_grantor = some (bytes_to_hex key);
  resolve_now = none;
  require_valid_signatures = true;
}

passes : verify_disclosed_claim_with_consent prims body_bytes revealed asks ≡ ok accepted
unfolding verify_disclosed_claim_with_consent consent_covers resolve_effective_consent scoped
    is_scoped fold_records verify_consent_record compute_consent_record_id unique_sorted insert
    codes_lt verify_disclosed_claim checks check_binding check_commitment check_signature
    check_config is_hex_text verify_merkle_path fold_path decode32 compute_commitment
    reveal_preimage_body hex_to_bytes bytes_to_hex hex_char without_prefix byte_pairs digit_value
    len_delimit len_prefix codes_eq verify build_signed_bytes assert_known_separator
passes = refl

verify_with_consent-Authorised_example : Authorised prims body_bytes revealed asks
verify_with_consent-Authorised_example =
    verify_with_consent-Authorised prims body_bytes revealed asks passes
