-- ===== src/Dispute.antt =====
-- src/lib/dispute.ts: a bundle of disclosed claims, presented to the resolver of a dispute.
pub mod Accepted
pub mod Assemble
pub mod Composed
pub mod SingleUse
use pathos_dacs_ref.Prelude.{
  ℕ, suc, String, Codes, codes, codes_eq, Bool, true, false, not, ◌&&◌, ◌||◌, Option, none, some,
  List, [], ◌∷◌, ◌++◌, length, all, any, str_eq, leb, ltb, ◌==◌, ◌%◌, max, if◌then◌else◌, Result,
  ok, throw,
}
use pathos_dacs_ref.Platform.{Platform}

pub record Challenge : Type 0 where
  pub verifier_id : String
  pub consent_receipt_id : String
  pub nonce : String
  pub expiry : ℕ

-- `DisclosedClaim`: its challenge, if it has one, and the rest, which only the consent check reads
pub record Disclosure (Claim : Type 0) : Type 0 where
  pub challenge : Option Challenge
  pub claim : Claim

-- `presentation_pub_key` is `none` if it is missing, `signed_root` if it is no string; a
-- `disclosures` that is no array counts as an empty one.
pub record DisputeEvidenceBundle (Claim Ledger : Type 0) : Type 0 where
  pub presentation_pub_key : Option String
  pub signed_root : Option String
  pub root_sig : String
  pub disclosures : List (Disclosure Claim)
  pub consent_ledger : Ledger

pub record DiscloseVerifyResult : Type 0 where
  pub ok : Bool
  pub reason : String

-- what `verifyDisclosedClaimWithConsent` is told; the signatures are always required to be valid
pub record ConsentOptions (Ledger : Type 0) : Type 0 where
  pub signed_root : String
  pub presentation_pub_key : String
  pub expected_verifier_id : String
  pub expected_nonce : String
  pub expected_grantor : String
  pub ledger : Ledger
  pub now : ℕ

-- The layers below: the signature check of the root under its separator (`none` if a hex text is
-- malformed), and the consent check of src/lib/consent.ts.
pub record Layers (Claim Ledger : Type 0) : Type 0 where
  pub root_sig_verifies : (sig root key : String) → Option Bool
  pub verify_with_consent : Disclosure Claim → ConsentOptions Ledger → DiscloseVerifyResult

-- The keys that were consumed.
abbrev pub Seen : Type 0
Seen = List Codes

-- `none` where the override is no integer; `now` has its default filled in
pub record VerifyDisputeBundleOptions : Type 0 where
  pub expected_verifier_id : String
  pub expected_nonce : String
  pub min_receipt_id_hex_len : Option ℕ
  pub now : ℕ

pub data Misconfigured : Type 0 where
  no_verifier_id no_nonce : Misconfigured

pub data Reason : Type 0 where
  empty_bundle malformed_key malformed_root malformed_root_sig root_not_bound scope_not_hex
        scope_too_short scope_not_aligned audience_mismatch nonce_mismatch replay verified :
      Reason
  mixed_challenge disclosure_rejected : ℕ → Reason

pub record DisputeBundleVerifyResult : Type 0 where
  pub ok : Bool
  pub reason : Reason
  pub per_disclosure : List DiscloseVerifyResult

-- `MIN_RECEIPT_ID_HEX_LEN`
abbrev pub min_receipt_id_hex_len : ℕ
min_receipt_id_hex_len = 32

abbrev is_hex_digit : ℕ → Bool
is_hex_digit c =
    (leb b'0' c && leb c b'9') || ((leb b'a' c && leb c b'f') || (leb b'A' c && leb c b'F'))

-- `/^[0-9a-fA-F]+$/`
unfoldable pub is_hex : String → Bool
is_hex s = leb 1 (length (codes s)) && all is_hex_digit (codes s)

abbrev is_lower_hex_digit : ℕ → Bool
is_lower_hex_digit c = (leb b'0' c && leb c b'9') || (leb b'a' c && leb c b'f')

-- `/^[0-9a-f]+$/`
unfoldable pub is_lower_hex : String → Bool
is_lower_hex s = leb 1 (length (codes s)) && all is_lower_hex_digit (codes s)

abbrev pub seen_has : Codes → Seen → Bool
seen_has key seen = any (λ k. codes_eq k key) seen

-- `consumeIfAbsent` of the store in memory: whether the key was inserted, and the store after
unfoldable pub consume_if_absent : Codes → Seen → Bool × Seen
consume_if_absent key seen = if seen_has key seen then (false, seen) else (true, key ∷ seen)

-- `Math.max(validOverride, MIN_RECEIPT_ID_HEX_LEN)`
unfoldable pub hex_floor : Option ℕ → ℕ
hex_floor none = min_receipt_id_hex_len
hex_floor (some n) = if ltb 0 n then max n min_receipt_id_hex_len else min_receipt_id_hex_len

abbrev pub same_challenge : Challenge → Challenge → Bool
same_challenge c d =
    str_eq c.verifier_id d.verifier_id
    && (str_eq c.consent_receipt_id d.consent_receipt_id
        && (str_eq c.nonce d.nonce && c.expiry == d.expiry))

abbrev pub carries : Challenge → Option Challenge → Bool
carries c none = false
carries c (some d) = same_challenge d c

-- the loop of `firstChallengeDivergence`: the index of the first claim of another challenge
unfoldable pub diverges_from : {Claim : Type 0} → Challenge → ℕ → List (Disclosure Claim) → Option ℕ
diverges_from c i [] = none
diverges_from c i (d ∷ ds) =
    let rest = diverges_from c (suc i) ds in if carries c d.challenge then rest else some i

abbrev failed : Reason → DisputeBundleVerifyResult
failed reason = record { ok = false; reason = reason; per_disclosure = [] }

module _ {Claim Ledger : Type 0} (platform : Platform) (layers : Layers Claim Ledger) where
  -- `consumptionKey`
  abbrev pub consumption_key : String → String → String → Codes
  consumption_key verifier scope nonce =
      codes verifier ++ 0x1f ∷ (codes (platform.to_lower scope) ++ 0x1f ∷ codes nonce)

  abbrev pub Checked : Type 0
  Checked = DisputeBundleVerifyResult × Seen

  -- the loop over the disclosures: the first one that is rejected, if any, and all results so far
  pub check_all :
      ConsentOptions Ledger → ℕ → List (Disclosure Claim) → Option ℕ × List DiscloseVerifyResult
  check_all options i [] = (none, [])
  check_all options i (d ∷ ds) =
      let r = layers.verify_with_consent d options in
      let (bad, results) = check_all options (suc i) ds in
      if r.ok then (bad, r ∷ results) else (some i, r ∷ [])

  -- step 8
  pub burn : Codes → Seen → Option ℕ × List DiscloseVerifyResult → Checked
  unfolding consume_if_absent
  burn key seen (some i, results) =
      (record { ok = false; reason = disclosure_rejected i; per_disclosure = results }, seen)
  burn key seen (none, results) =
      let (inserted, seen') = consume_if_absent key seen in
      if inserted
      then (record { ok = true; reason = verified; per_disclosure = results }, seen')
      else (record { ok = false; reason = replay; per_disclosure = results }, seen')

  -- step 7: the grantor that is expected is the presenter
  abbrev pub consent_options :
      DisputeEvidenceBundle Claim Ledger
      → VerifyDisputeBundleOptions
      → (key root : String) → ConsentOptions Ledger
  consent_options bundle options key root = record {
    signed_root = root;
    presentation_pub_key = key;
    expected_verifier_id = options.expected_verifier_id;
    expected_nonce = options.expected_nonce;
    expected_grantor = key;
    ledger = bundle.consent_ledger;
    now = options.now;
  }

  -- steps 4 to 8, of the challenge that all claims share
  pub check_challenge :
      DisputeEvidenceBundle Claim Ledger
      → VerifyDisputeBundleOptions
      → Seen
      → (key root : String) → Challenge
      → Checked
  unfolding check_all burn hex_floor is_hex
  check_challenge bundle options seen key root c =
      let scope = c.consent_receipt_id in
      let verdict =
        burn (consumption_key options.expected_verifier_id scope c.nonce) seen
          (check_all (consent_options bundle options key root) 0 bundle.disclosures) in
      if not (is_hex scope)
      then (failed scope_not_hex, seen)
      else if ltb (length (codes scope)) (hex_floor options.min_receipt_id_hex_len)
      then (failed scope_too_short, seen)
      else if not (length (codes scope) % 2 == 0)
      then (failed scope_not_aligned, seen)
      else if not (str_eq c.verifier_id options.expected_verifier_id)
      then (failed audience_mismatch, seen)
      else if not (str_eq c.nonce options.expected_nonce)
      then (failed nonce_mismatch, seen)
      else verdict

  -- step 3
  pub check_divergence :
      DisputeEvidenceBundle Claim Ledger
      → VerifyDisputeBundleOptions
      → Seen
      → (key root : String) → Challenge
      → Option ℕ
      → Checked
  unfolding check_challenge
  check_divergence bundle options seen key root c (some i) = (failed (mixed_challenge i), seen)
  check_divergence bundle options seen key root c none =
      check_challenge bundle options seen key root c

  pub check_first :
      DisputeEvidenceBundle Claim Ledger
      → VerifyDisputeBundleOptions
      → Seen
      → (key root : String) → Option Challenge
      → List (Disclosure Claim)
      → Checked
  unfolding check_divergence diverges_from
  check_first bundle options seen key root none ds = (failed (mixed_challenge 0), seen)
  check_first bundle options seen key root (some c) ds =
      check_divergence bundle options seen key root c (diverges_from c 1 ds)

  pub check_shared :
      DisputeEvidenceBundle Claim Ledger
      → VerifyDisputeBundleOptions
      → Seen
      → (key root : String) → List (Disclosure Claim)
      → Checked
  unfolding check_first
  check_shared bundle options seen key root [] = (failed empty_bundle, seen)
  check_shared bundle options seen key root (d ∷ ds) =
      check_first bundle options seen key root d.challenge ds

  -- step 2
  pub check_root_sig :
      DisputeEvidenceBundle Claim Ledger
      → VerifyDisputeBundleOptions
      → Seen
      → (key root : String) → Option Bool
      → Checked
  unfolding check_shared
  check_root_sig bundle options seen key root none = (failed malformed_root_sig, seen)
  check_root_sig bundle options seen key root (some false) = (failed root_not_bound, seen)
  check_root_sig bundle options seen key root (some true) =
      check_shared bundle options seen key root bundle.disclosures

  -- step 1
  pub check_root :
      DisputeEvidenceBundle Claim Ledger
      → VerifyDisputeBundleOptions
      → Seen
      → (key : String) → Option String
      → Checked
  unfolding check_root_sig is_hex
  check_root bundle options seen key none = (failed malformed_root, seen)
  check_root bundle options seen key (some root) =
      if not (is_hex root)
      then (failed malformed_root, seen)
      else check_root_sig bundle options seen key root
          (layers.root_sig_verifies bundle.root_sig (platform.to_lower root) key)

  pub check_key :
      DisputeEvidenceBundle Claim Ledger
      → VerifyDisputeBundleOptions
      → Seen
      → Option String
      → Checked
  unfolding check_root is_lower_hex
  check_key bundle options seen none = (failed malformed_key, seen)
  check_key bundle options seen (some key) =
      if not (is_lower_hex (platform.to_lower key))
      then (failed malformed_key, seen)
      else check_root bundle options seen (platform.to_lower key) bundle.signed_root

  -- the check that there is a disclosure
  pub check_shape :
      DisputeEvidenceBundle Claim Ledger
      → VerifyDisputeBundleOptions
      → Seen
      → List (Disclosure Claim)
      → Checked
  unfolding check_key
  check_shape bundle options seen [] = (failed empty_bundle, seen)
  check_shape bundle options seen (d ∷ ds) =
      check_key bundle options seen bundle.presentation_pub_key

  -- `verifyDisputeBundle`
  unfoldable pub verify_dispute_bundle :
      DisputeEvidenceBundle Claim Ledger
      → VerifyDisputeBundleOptions
      → Seen
      → Result Misconfigured Checked
  unfolding check_shape
  verify_dispute_bundle bundle options seen =
      if str_eq options.expected_verifier_id ""
      then throw no_verifier_id
      else if str_eq options.expected_nonce ""
      then throw no_nonce
      else ok (check_shape bundle options seen bundle.disclosures)
