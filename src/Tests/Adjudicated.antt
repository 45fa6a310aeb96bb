-- ===== src/Tests/Adjudicated.antt =====
-- A bundle of src/lib/dispute.ts that passes, over the checks of src/lib/consent.ts.
use pathos_dacs_ref.Prelude.{
  true, none, some, List, [], ◌∷◌, ◌++◌, String, Codes, codes, codes_eq, ok, ◌≡◌, refl,
}
use pathos_dacs_ref.Crypto.Hex.{
  Bytes, hex_to_bytes, bytes_to_hex, digit_value, without_prefix, byte_pairs, hex_char,
}
use pathos_dacs_ref.Crypto.Separators.{
  sign, assert_emittable_separator, is_legacy_read_separator, build_signed_bytes, verify,
  assert_known_separator,
}
use pathos_dacs_ref.Disclose.Encode.{len_delimit, len_prefix}
use pathos_dacs_ref.Disclose.Merkle.{
  codes_lt, insert, unique_sorted, fold_path, decode32, verify_merkle_path,
}
use pathos_dacs_ref.Disclose.Reveal.{
  finite, compute_commitment, reveal_preimage_body, verify_disclosed_claim, checks, check_binding,
  check_commitment, check_signature, check_config, is_hex_text,
}
use pathos_dacs_ref.Consent.{
  grant, ConsentRecordBody, ConsentRecord, compute_consent_record_id, verify_consent_record,
  is_scoped, scoped, fold_records, resolve_effective_consent,
}
use pathos_dacs_ref.Consent.Bridge.{consent_covers, verify_disclosed_claim_with_consent}
use pathos_dacs_ref.Dispute.{
  Disclosure, check_challenge, diverges_from, Challenge, DisputeEvidenceBundle, Seen,
  VerifyDisputeBundleOptions, DisputeBundleVerifyResult, verified, verify_dispute_bundle,
  consumption_key, is_hex, is_lower_hex, hex_floor, consume_if_absent,
}
use pathos_dacs_ref.Dispute.Composed.{
  Shown, layers_of, Adjudicated, verify_dispute_bundle-Adjudicated,
}
use pathos_dacs_ref.Dispute.Assemble.{
  AssembleArgs, assemble_dispute_bundle, sign_bundle_root, hex_text, mint_consent_receipt_id,
}
use pathos_dacs_ref.Dispute.Assemble.Checked.{verify-assemble}
use pathos_dacs_ref.Tests.Concrete.{plain}
use pathos_dacs_ref.Tests.Primitives.{
  signature_64, own, digest, key, ed25519, prims, body_bytes, flat,
}
use pathos_dacs_ref.Tests.Disclose.{salt, preimage}

abbrev scope : String
scope = "0123456789abcdef0123456789abcdef"

abbrev challenge : Challenge
challenge = record { verifier_id = "v"; consent_receipt_id = scope; nonce = "n"; expiry = 9 }

abbrev consent : ConsentRecordBody
consent = record {
  action = grant;
  consent_receipt_id = codes scope;
  grantor = bytes_to_hex key;
  audience = codes "v";
  commitments = bytes_to_hex (digest preimage) ∷ [];
  issued_at = finite 1;
  expires_at = finite 9;
  supersedes = none;
}

abbrev consent_bytes : Bytes
consent_bytes =
    codes "dacs-x-consent:v1:"
    ++ (codes scope ++ 0 ∷ (bytes_to_hex key ++ 0 ∷ (codes "v" ++ 0 ∷ flat consent.commitments)))

abbrev given : ConsentRecord
given = record {
  body = consent;
  record_id = bytes_to_hex (digest consent_bytes);
  signature = bytes_to_hex (ed25519.sign consent_bytes key);
}

abbrev reveal_bytes : Bytes
reveal_bytes =
    codes "dacs-x-claim-reveal:v1:"
    ++ (0
        ∷ 0
        ∷ 0
        ∷ 1
        ∷ b'v'
        ∷ 0
        ∷ 0
        ∷ 0
        ∷ 32
        ∷ (codes scope
            ++ 0
              ∷ 0
              ∷ 0
              ∷ 1
              ∷ b'n'
              ∷ 0
              ∷ 0
              ∷ 0
              ∷ 1
              ∷ 9
              ∷ 0
              ∷ 0
              ∷ 0
              ∷ 64
              ∷ bytes_to_hex (digest preimage)))

abbrev shown : Shown Codes
shown = record {
  claim = codes "ok";
  salt = bytes_to_hex salt;
  merkle_path = [];
  reveal_sig = bytes_to_hex (ed25519.sign reveal_bytes key);
}

abbrev evidence_root : String
evidence_root = "21e9000000000000000000000000000000000000000000000000000000000000"

abbrev evidence : DisputeEvidenceBundle (Shown Codes) (List ConsentRecord)
evidence = record {
  presentation_pub_key = some "0709000000000000000000000000000000000000000000000000000000000000";
  signed_root = some evidence_root;
  root_sig =
      "797e000000000000000000000000000000000000000000000000000000000000596e000000000000000000000000000000000000000000000000000000000000";
  disclosures = record { challenge = some challenge; claim = shown } ∷ [];
  consent_ledger = given ∷ [];
}

abbrev asks : VerifyDisputeBundleOptions
asks = record {
  expected_verifier_id = "v";
  expected_nonce = "n";
  min_receipt_id_hex_len = none;
  now = 5;
}

abbrev passed : DisputeBundleVerifyResult
passed = record {
  ok = true;
  reason = verified;
  per_disclosure = record { ok = true; reason = "" } ∷ [];
}

abbrev consumed : Seen
consumed = consumption_key plain (layers_of prims body_bytes) "v" scope "n" ∷ []

passes :
    verify_dispute_bundle plain (layers_of prims body_bytes) evidence asks []
    ≡ ok (passed, consumed)
unfolding verify_dispute_bundle is_hex is_lower_hex hex_floor consume_if_absent codes_eq
    verify_disclosed_claim_with_consent consent_covers resolve_effective_consent scoped is_scoped
    fold_records verify_consent_record compute_consent_record_id unique_sorted insert codes_lt
    verify_disclosed_claim checks check_binding check_commitment check_signature check_config
    is_hex_text verify_merkle_path fold_path decode32 compute_commitment reveal_preimage_body
    hex_to_bytes bytes_to_hex hex_char without_prefix byte_pairs digit_value len_delimit len_prefix
    verify build_signed_bytes assert_known_separator
passes = refl

verify_dispute_bundle-Adjudicated_example : Adjudicated prims body_bytes plain evidence asks
verify_dispute_bundle-Adjudicated_example =
    verify_dispute_bundle-Adjudicated prims body_bytes plain evidence asks [] consumed passed passes
      refl

-- the bundle above, as its presenter assembles it
abbrev args : AssembleArgs (Shown Codes) (List ConsentRecord)
args = record {
  presentation_pub_key = "0709000000000000000000000000000000000000000000000000000000000000";
  presenter_priv = key;
  signed_root = evidence_root;
  disclosures = record { challenge = some challenge; claim = shown } ∷ [];
  consent_ledger = given ∷ [];
}

assembles : assemble_dispute_bundle plain prims args ≡ ok evidence
unfolding assemble_dispute_bundle sign_bundle_root is_hex hex_text sign assert_emittable_separator
    assert_known_separator is_legacy_read_separator build_signed_bytes diverges_from
assembles = refl

verify-assemble_example :
    (d : Disclosure (Shown Codes)) × (ds : List (Disclosure (Shown Codes))) × (c : Challenge)
    × (evidence.disclosures ≡ d ∷ ds)
    × (d.challenge ≡ some c)
    × (verify_dispute_bundle plain (layers_of prims body_bytes) evidence asks []
        ≡ ok (
            check_challenge plain
              (layers_of prims body_bytes)
              evidence
              asks
              []
              "0709000000000000000000000000000000000000000000000000000000000000"
              evidence_root
              c))
unfolding is_hex is_lower_hex hex_to_bytes without_prefix byte_pairs digit_value
verify-assemble_example =
    verify-assemble plain prims body_bytes key key (λ b. (signature_64 b).1) own (λ s. refl) args
      evidence asks [] assembles refl refl refl refl refl refl

minted : mint_consent_receipt_id salt ≡ some "0102030405060708090a0b0c0d0e0f10"
unfolding mint_consent_receipt_id hex_text
minted = refl
