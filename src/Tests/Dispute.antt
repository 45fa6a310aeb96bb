-- ===== src/Tests/Dispute.antt =====
-- `verifyDisputeBundle` at a bundle that passes, is replayed, and is refused.
use pathos_dacs_ref.Prelude.{
  String, Bool, true, false, some, none, [], ◌∷◌, ◌≡◌, refl, codes_eq, ok,
}
use pathos_dacs_ref.Tests.Concrete.{plain}
use pathos_dacs_ref.Dispute.{
  Challenge, DisputeEvidenceBundle, Layers, Seen, VerifyDisputeBundleOptions, verify_dispute_bundle,
  DisputeBundleVerifyResult, verified, replay, consumption_key, is_hex, is_lower_hex, hex_floor,
  consume_if_absent,
}
use pathos_dacs_ref.Dispute.Accepted.{Proven, verify-Proven}
use pathos_dacs_ref.Dispute.SingleUse.{replay_refused, rejected_keeps}

-- The claim says whether the layer below accepts it.
abbrev layers : Layers Bool String
layers = record {
  root_sig_verifies = λ sig root key. some true;
  verify_with_consent = λ d o. record { ok = d.claim; reason = "" };
}

abbrev challenge : Challenge
challenge = record {
  verifier_id = "resolver";
  consent_receipt_id = "0123456789abcdef0123456789abcdef";
  nonce = "n1";
  expiry = 9;
}

abbrev evidence : DisputeEvidenceBundle Bool String
evidence = record {
  presentation_pub_key = some "ab";
  signed_root = some "cd";
  root_sig = "ef";
  disclosures = record { challenge = some challenge; claim = true } ∷ [];
  consent_ledger = "";
}

abbrev asks : VerifyDisputeBundleOptions
asks = record {
  expected_verifier_id = "resolver";
  expected_nonce = "n1";
  min_receipt_id_hex_len = none;
  now = 5;
}

abbrev consumed : Seen
consumed = consumption_key plain layers "resolver" "0123456789abcdef0123456789abcdef" "n1" ∷ []

abbrev passed : DisputeBundleVerifyResult
passed = record {
  ok = true;
  reason = verified;
  per_disclosure = record { ok = true; reason = "" } ∷ [];
}

abbrev replayed : DisputeBundleVerifyResult
replayed = record {
  ok = false;
  reason = replay;
  per_disclosure = record { ok = true; reason = "" } ∷ [];
}

accepted : verify_dispute_bundle plain layers evidence asks [] ≡ ok (passed, consumed)
unfolding verify_dispute_bundle is_hex is_lower_hex hex_floor consume_if_absent
accepted = refl

again : verify_dispute_bundle plain layers evidence asks consumed ≡ ok (replayed, consumed)
unfolding verify_dispute_bundle is_hex is_lower_hex hex_floor consume_if_absent codes_eq
again = refl

verify-Proven_example : Proven plain layers evidence asks [] passed consumed
verify-Proven_example = verify-Proven plain layers evidence asks [] passed consumed accepted refl

replay_refused_example : replayed.ok ≡ false
replay_refused_example =
    replay_refused plain layers evidence asks asks [] consumed consumed consumed passed replayed
      accepted refl (λ key h. h) again

rejected_keeps_example : consumed ≡ consumed
rejected_keeps_example =
    rejected_keeps plain layers evidence asks consumed consumed replayed again refl
