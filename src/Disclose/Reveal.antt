-- ===== src/Disclose/Reveal.antt =====
-- Claim commitments of src/lib/disclose.ts, their reveal to one verifier, and the check of a reveal.
-- A text is the list of its code units.
pub mod Accepted
pub mod Produced
use pathos_dacs_ref.Prelude.{
  ℕ, Bool, true, false, not, ◌&&◌, ◌||◌, Option, none, some, List, [], ◌∷◌, ◌++◌, Codes, codes,
  codes_eq, length, all, leb, ltb, ◌==◌, if◌then◌else◌, Result, ok, throw, ◌>>=◌, ◌>>◌, require,
}
use pathos_dacs_ref.Crypto.Hex.{Bytes, hex_to_bytes, bytes_to_hex}
use pathos_dacs_ref.Crypto.Separators.{Ed25519, sign, verify}
use pathos_dacs_ref.Disclose.Encode.{len_delimit}
use pathos_dacs_ref.Disclose.Merkle.{MerklePathStep, verify_merkle_path}

-- a number of the runtime; `not_finite` is NaN or an infinity
pub data Number : Type 0 where
  finite : ℕ → Number
  not_finite : Number

-- The libraries and the runtime: SHA-256 and ed25519, the encoder and the case map of texts, the text
-- of a number, and `jcsCanonical`, which is `none` if it throws.
pub record Primitives (Claim : Type 0) : Type 0 where
  pub sha256 : Bytes → Bytes
  pub utf8 : Codes → Bytes
  pub to_lower : Codes → Codes
  pub number_text : Number → Codes
  pub jcs : Claim → Option Bytes
  pub ed25519 : Ed25519

-- `verified_by_ref` rides along and is read by no operation
pub record ClaimCommitment (Claim : Type 0) : Type 0 where
  pub claim : Claim
  pub salt : Codes
  pub commitment : Codes
  pub verified_by_ref : Option Codes

pub record RevealChallenge : Type 0 where
  pub verifier_id : Codes
  pub consent_receipt_id : Codes
  pub nonce : Codes
  pub expiry : Number

pub record DisclosedClaim (Claim : Type 0) : Type 0 where
  pub claim : Claim
  pub salt : Codes
  pub merkle_path : List MerklePathStep
  pub reveal_sig : Codes
  pub challenge : RevealChallenge

-- `now` has its default filled in
pub record VerifyDisclosedOptions : Type 0 where
  pub signed_root : Codes
  pub presentation_pub_key : Codes
  pub expected_verifier_id : Codes
  pub expected_nonce : Codes
  pub expected_consent_receipt_id : Option Codes
  pub allow_unscoped_consent : Bool
  pub now : ℕ

pub data Reason : Type 0 where
  audience_mismatch nonce_mismatch consent_mismatch expired salt_not_hex salt_malformed salt_short
        recompute_failed not_member key_malformed key_width sig_malformed sig_width sig_rejected :
      Reason

pub data DiscloseVerifyResult : Type 0 where
  pass : DiscloseVerifyResult
  fail : Reason → DiscloseVerifyResult

pub data DiscloseError : Type 0 where
  contradictory_consent consent_required field_too_long salt_invalid short_salt cannot_recompute
        does_not_open cannot_sign :
      DiscloseError

-- why the checks of a reveal end early: its rejection, or an exception
pub data Halt : Type 0 where
  rejected : Reason → Halt
  thrown : DiscloseError → Halt

abbrev pub settle : Result Halt (Unit {0}) → Result DiscloseError DiscloseVerifyResult
settle (ok _) = ok pass
settle (throw (rejected reason)) = ok (fail reason)
settle (throw (thrown error)) = throw error

-- `MIN_SALT_BYTES`
abbrev pub min_salt_bytes : ℕ
min_salt_bytes = 16

abbrev is_hex_digit : ℕ → Bool
is_hex_digit c =
    (leb b'0' c && leb c b'9') || ((leb b'a' c && leb c b'f') || (leb b'A' c && leb c b'F'))

-- `salt.length !== 0 && /^[0-9a-fA-F]+$/.test(salt)`
unfoldable pub is_hex_text : Codes → Bool
is_hex_text s = leb 1 (length s) && all is_hex_digit s

-- a value that is there, or the end of the checks
abbrev pub or_halt {ℓ} : {A : Type ℓ} {E : Type 0} → Option A → E → Result E A
or_halt none e = throw e
or_halt (some a) e = ok a

abbrev pub before : ℕ → Number → Bool
before now not_finite = false
before now (finite expiry) = ltb now expiry

-- `hasExpectedConsent && challenge.consent_receipt_id !== expectedConsentReceiptId`, negated
abbrev pub in_scope : Codes → Option Codes → Bool
in_scope scope none = true
in_scope scope (some expected) = codes_eq scope expected

-- the consent configuration
unfoldable pub check_config : Option Codes → Bool → Result DiscloseError (Unit {0})
check_config (some scope) true = throw contradictory_consent
check_config none false = throw consent_required
check_config _ _ = ok tt

module _ {Claim : Type 0} (prims : Primitives Claim) where
  abbrev pub commitment_preimage : Option Bytes → Option Bytes
  commitment_preimage none = none
  commitment_preimage (some body) = some (codes "dacs-x-claim-commit:v1:" ++ body)

  abbrev pub body_of : Option Bytes → Option Bytes → Option Bytes
  body_of (some salt) (some claim) = len_delimit (salt ∷ claim ∷ [])
  body_of _ _ = none

  abbrev pub hashed : Option Bytes → Option Codes
  hashed none = none
  hashed (some preimage) = some (bytes_to_hex (prims.sha256 preimage))

  -- `computeCommitment`: `none` if it throws
  unfoldable pub compute_commitment : Codes → Claim → Option Codes
  compute_commitment salt claim =
      hashed (commitment_preimage (body_of (hex_to_bytes salt) (prims.jcs claim)))

  -- `revealPreimageBody`: `none` if it throws
  unfoldable pub reveal_preimage_body : RevealChallenge → Codes → Option Bytes
  reveal_preimage_body challenge commitment = len_delimit (
      prims.utf8 challenge.verifier_id
      ∷ prims.utf8 challenge.consent_receipt_id
      ∷ prims.utf8 challenge.nonce
      ∷ prims.utf8 (prims.number_text challenge.expiry)
      ∷ prims.utf8 (prims.to_lower commitment)
      ∷ [])

  -- `attestClaimCommitment` over the bytes that `randomBytes` drew
  unfoldable pub attest_claim_commitment :
      Claim → Option Codes → Bytes → Result DiscloseError (ClaimCommitment Claim)
  attest_claim_commitment claim verified_by_ref salt_bytes = do
    require (leb min_salt_bytes (length salt_bytes)) short_salt
    commitment ← or_halt (compute_commitment (bytes_to_hex salt_bytes) claim) cannot_recompute
    ok (record {
      claim = claim;
      salt = bytes_to_hex salt_bytes;
      commitment = commitment;
      verified_by_ref = verified_by_ref;
    })

  abbrev pub signature_of : {E : Type 0} → Result E Bytes → Result DiscloseError Bytes
  signature_of (ok sig) = ok sig
  signature_of (throw e) = throw cannot_sign

  -- `produceReveal`
  unfoldable pub produce_reveal :
      ClaimCommitment Claim
      → List MerklePathStep
      → RevealChallenge
      → Bytes
      → Result DiscloseError (DisclosedClaim Claim)
  produce_reveal c path challenge key = do
    require (is_hex_text c.salt) salt_invalid
    salt_bytes ← or_halt (hex_to_bytes c.salt) salt_invalid
    require (leb min_salt_bytes (length salt_bytes)) short_salt
    recomputed ← or_halt (compute_commitment c.salt c.claim) cannot_recompute
    require (codes_eq (prims.to_lower recomputed) (prims.to_lower c.commitment)) does_not_open
    body ← or_halt (reveal_preimage_body challenge c.commitment) field_too_long
    sig ← signature_of (sign prims.ed25519 "dacs-x-claim-reveal:v1:" body key none)
    ok (record {
      claim = c.claim;
      salt = c.salt;
      merkle_path = path;
      reveal_sig = bytes_to_hex sig;
      challenge = challenge;
    })

  -- steps (e): the key, the signature, and the signature's check
  unfoldable pub check_signature :
      DisclosedClaim Claim → VerifyDisclosedOptions → Codes → Result Halt (Unit {0})
  check_signature d options recomputed = do
    key ← or_halt (hex_to_bytes options.presentation_pub_key) (rejected key_malformed)
    require (length key == 32) (rejected key_width)
    sig ← or_halt (hex_to_bytes d.reveal_sig) (rejected sig_malformed)
    require (length sig == 64) (rejected sig_width)
    body ← or_halt (reveal_preimage_body d.challenge recomputed) (thrown field_too_long)
    require (verify prims.ed25519 "dacs-x-claim-reveal:v1:" sig body key none)
        (rejected sig_rejected)

  -- steps (a) and (b): the commitment and its membership
  unfoldable pub check_commitment : DisclosedClaim Claim → Codes → Result Halt Codes
  check_commitment d signed_root = do
    require (is_hex_text d.salt) (rejected salt_not_hex)
    salt_bytes ← or_halt (hex_to_bytes d.salt) (rejected salt_malformed)
    require (leb min_salt_bytes (length salt_bytes)) (rejected salt_short)
    recomputed ← or_halt (compute_commitment d.salt d.claim) (rejected recompute_failed)
    require (verify_merkle_path prims.sha256 prims.to_lower recomputed d.merkle_path signed_root)
        (rejected not_member)
    ok recomputed

  -- steps (c), (c2) and (d): the challenge
  unfoldable pub check_binding : RevealChallenge → VerifyDisclosedOptions → Result Halt (Unit {0})
  check_binding challenge options = do
    require (codes_eq challenge.verifier_id options.expected_verifier_id)
        (rejected audience_mismatch)
    require (codes_eq challenge.nonce options.expected_nonce) (rejected nonce_mismatch)
    require (in_scope challenge.consent_receipt_id options.expected_consent_receipt_id)
        (rejected consent_mismatch)
    require (before options.now challenge.expiry) (rejected expired)

  unfoldable pub checks : DisclosedClaim Claim → VerifyDisclosedOptions → Result Halt (Unit {0})
  checks d options = do
    check_binding d.challenge options
    recomputed ← check_commitment d options.signed_root
    check_signature d options recomputed

  -- `verifyDisclosedClaim`
  unfoldable pub verify_disclosed_claim :
      DisclosedClaim Claim → VerifyDisclosedOptions → Result DiscloseError DiscloseVerifyResult
  verify_disclosed_claim d options = do
    check_config options.expected_consent_receipt_id options.allow_unscoped_consent
    settle (checks d options)
