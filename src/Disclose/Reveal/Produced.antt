-- ===== src/Disclose/Reveal/Produced.antt =====
-- src/lib/disclose.ts from end to end: a claim is attested, its commitment put into a set, the claim
-- revealed to a verifier, and the reveal checked.
use pathos_dacs_ref.Prelude.{
  ℕ, ◌/◌, ◌%◌, ◌≤◌, ◌<◌, true, false, Option, none, some, List, [], ◌∷◌, Codes, codes_eq,
  codes_eq_iff, length, leb, ◌==◌, ok, ◌>>=◌, ◌>>◌, require, ◌≡◌, refl, sym, ap, ◌∙◌, subst, arith,
}
use pathos_dacs_ref.Crypto.Hex.{Bytes, IsBytes, hex_to_bytes, bytes_to_hex, hex-bytes, hex_char}
use pathos_dacs_ref.Crypto.Separators.{verify, build_signed_bytes}
use pathos_dacs_ref.Crypto.Separators.PrefixFree.{sign-ok}
use pathos_dacs_ref.Disclose.Merkle.{MerklePathStep, verify_merkle_path}
use pathos_dacs_ref.Disclose.Merkle.Paths.{Is32}
use pathos_dacs_ref.Disclose.Reveal.{
  Primitives, ClaimCommitment, RevealChallenge, DisclosedClaim, VerifyDisclosedOptions, pass,
  short_salt, cannot_recompute, min_salt_bytes, is_hex_text, or_halt, before, check_config,
  compute_commitment, reveal_preimage_body, attest_claim_commitment, produce_reveal,
  check_signature, check_commitment, check_binding, checks, verify_disclosed_claim, hashed, body_of,
  commitment_preimage,
}

hex_char-hex : (n : ℕ) → n < 16 → is_hex_text (hex_char n ∷ []) ≡ true
unfolding hex_char is_hex_text
hex_char-hex n h = ground arith

is_hex_text_cons :
    (c : ℕ) (s : Codes)
    → is_hex_text (c ∷ []) ≡ true
    → is_hex_text s ≡ true
    → is_hex_text (c ∷ s) ≡ true
unfolding is_hex_text
is_hex_text_cons c s h k = ground arith

is_hex_text-bytes_to_hex :
    (b : ℕ) (bs : Bytes) → IsBytes (b ∷ bs) → is_hex_text (bytes_to_hex (b ∷ bs)) ≡ true
unfolding bytes_to_hex
is_hex_text-bytes_to_hex b [] (h, _) =
    is_hex_text_cons (hex_char (b / 16)) (hex_char (b % 16) ∷ [])
      (hex_char-hex (b / 16) (omega arith)) (hex_char-hex (b % 16) (omega arith))
is_hex_text-bytes_to_hex b (c ∷ bs) (h, hs) =
    let rest = is_hex_text-bytes_to_hex c bs hs in
    is_hex_text_cons (hex_char (b / 16)) (hex_char (b % 16) ∷ bytes_to_hex (c ∷ bs))
      (hex_char-hex (b / 16) (omega arith))
      (is_hex_text_cons (hex_char (b % 16)) (bytes_to_hex (c ∷ bs))
        (hex_char-hex (b % 16) (omega arith)) rest)

pub salt_text :
    (salt : Bytes)
    → IsBytes salt
    → min_salt_bytes ≤ length salt
    → is_hex_text (bytes_to_hex salt) ≡ true
salt_text [] h floor = absurd (omega arith)
salt_text (b ∷ bs) h floor = is_hex_text-bytes_to_hex b bs h

codes_eq_refl : (s : Codes) → codes_eq s s ≡ true
codes_eq_refl s = (codes_eq_iff s s).1 refl

module _ {Claim : Type 0} (prims : Primitives Claim)
    (digest : (b : Bytes) → Is32 (prims.sha256 b)) where
  -- a commitment is the text of a digest
  pub commitment-Is32 :
      (salt : Codes) (claim : Claim) (c : Codes)
      → compute_commitment prims salt claim ≡ some c
      → (b : Bytes) × (hex_to_bytes c ≡ some b) × (length b ≡ 32)
  unfolding compute_commitment
  commitment-Is32 salt claim c h =
      go (commitment_preimage prims (body_of prims (hex_to_bytes salt) (prims.jcs claim))) h
    where
      go :
          (o : Option Bytes)
          → hashed prims o ≡ some c
          → (b : Bytes) × (hex_to_bytes c ≡ some b) × (length b ≡ 32)
      go none h = absurd cc
      go (some preimage) h =
          let (width, bytes) = digest preimage in
          let same : bytes_to_hex (prims.sha256 preimage) ≡ c = cc in
          (
            prims.sha256 preimage,
            ap hex_to_bytes (sym same) ∙ hex-bytes (prims.sha256 preimage) bytes,
            width,
          )

  abbrev pub Attested : Claim → Bytes → ClaimCommitment Claim → Type 0
  Attested claim salt c =
      (min_salt_bytes ≤ length salt)
      × (c.claim ≡ claim)
      × (c.salt ≡ bytes_to_hex salt)
      × (compute_commitment prims c.salt c.claim ≡ some c.commitment)

  pub attest-Attested :
      (claim : Claim) (ref : Option Codes) (salt : Bytes) (c : ClaimCommitment Claim)
      → attest_claim_commitment prims claim ref salt ≡ ok c
      → Attested claim salt c
  unfolding attest_claim_commitment
  attest-Attested claim ref salt c h =
      go (compute_commitment prims (bytes_to_hex salt) claim) refl (ground arith)
    where
      go :
          (o : Option Codes)
          → compute_commitment prims (bytes_to_hex salt) claim ≡ o
          → (require (leb min_salt_bytes (length salt)) short_salt
              >> (or_halt o cannot_recompute >>= (λ x. ok (record {
                claim = claim;
                salt = bytes_to_hex salt;
                commitment = x;
                verified_by_ref = ref;
              }))))
            ≡ ok c
          → Attested claim salt c
      go none e k = absurd (ground arith)
      go (some x) e k =
          let made : record {
            claim = claim;
            salt = bytes_to_hex salt;
            commitment = x;
            verified_by_ref = ref;
          }
              ≡ c =
            (ground arith) in
          (
            ground arith,
            ap (λ y. y.claim) (sym made),
            ap (λ y. y.salt) (sym made),
            subst (λ y. compute_commitment prims y.salt y.claim ≡ some y.commitment) made e,
          )

  -- the artifact that `produceReveal` mints
  abbrev pub minted :
      ClaimCommitment Claim
      → List MerklePathStep
      → RevealChallenge
      → Bytes
      → Bytes
      → DisclosedClaim Claim
  minted c path challenge key body = record {
    claim = c.claim;
    salt = c.salt;
    merkle_path = path;
    reveal_sig =
        bytes_to_hex
          (prims.ed25519.sign (build_signed_bytes "dacs-x-claim-reveal:v1:" body none) key);
    challenge = challenge;
  }

  pub produces :
      (c : ClaimCommitment Claim) (path : List MerklePathStep) (challenge : RevealChallenge)
      (key body salt : Bytes)
      → is_hex_text c.salt ≡ true
      → hex_to_bytes c.salt ≡ some salt
      → leb min_salt_bytes (length salt) ≡ true
      → compute_commitment prims c.salt c.claim ≡ some c.commitment
      → reveal_preimage_body prims challenge c.commitment ≡ some body
      → produce_reveal prims c path challenge key ≡ ok (minted c path challenge key body)
  unfolding produce_reveal
  produces c path challenge key body salt h e f g b =
      rw
        (
          h,
          e,
          f,
          g,
          codes_eq_refl (prims.to_lower c.commitment),
          b,
          sign-ok prims.ed25519 "dacs-x-claim-reveal:v1:" body key none refl refl,
        )
        refl

  pub accepts_signature :
      (d : DisclosedClaim Claim) (options : VerifyDisclosedOptions) (c : Codes)
      (key sig body : Bytes)
      → hex_to_bytes options.presentation_pub_key ≡ some key
      → (length key == 32) ≡ true
      → hex_to_bytes d.reveal_sig ≡ some sig
      → (length sig == 64) ≡ true
      → reveal_preimage_body prims d.challenge c ≡ some body
      → verify prims.ed25519 "dacs-x-claim-reveal:v1:" sig body key none ≡ true
      → check_signature prims d options c ≡ ok tt
  unfolding check_signature
  accepts_signature d options c key sig body e w f v b verifies = rw (e, w, f, v, b, verifies) refl

  pub accepts_commitment :
      (d : DisclosedClaim Claim) (root c : Codes) (salt : Bytes)
      → is_hex_text d.salt ≡ true
      → hex_to_bytes d.salt ≡ some salt
      → leb min_salt_bytes (length salt) ≡ true
      → compute_commitment prims d.salt d.claim ≡ some c
      → verify_merkle_path prims.sha256 prims.to_lower c d.merkle_path root ≡ true
      → check_commitment prims d root ≡ ok c
  unfolding check_commitment
  accepts_commitment d root c salt h e f g m = rw (h, e, f, g, m) refl

  -- the options of the verifier that issued the challenge
  abbrev pub issued :
      RevealChallenge → (root : Codes) → (public_key : Bytes) → ℕ → VerifyDisclosedOptions
  issued challenge root public_key now = record {
    signed_root = root;
    presentation_pub_key = bytes_to_hex public_key;
    expected_verifier_id = challenge.verifier_id;
    expected_nonce = challenge.nonce;
    expected_consent_receipt_id = some challenge.consent_receipt_id;
    allow_unscoped_consent = false;
    now = now;
  }

  pub accepts_binding :
      (challenge : RevealChallenge) (root : Codes) (public_key : Bytes) (now : ℕ)
      → before now challenge.expiry ≡ true
      → check_binding prims challenge (issued challenge root public_key now) ≡ ok tt
  unfolding check_binding
  accepts_binding challenge root public_key now h =
      rw
        (
          codes_eq_refl challenge.verifier_id,
          codes_eq_refl challenge.nonce,
          codes_eq_refl challenge.consent_receipt_id,
          h,
        )
        refl

  pub accepts_all :
      (d : DisclosedClaim Claim) (options : VerifyDisclosedOptions) (c : Codes)
      → check_config options.expected_consent_receipt_id options.allow_unscoped_consent ≡ ok tt
      → check_binding prims d.challenge options ≡ ok tt
      → check_commitment prims d options.signed_root ≡ ok c
      → check_signature prims d options c ≡ ok tt
      → verify_disclosed_claim prims d options ≡ ok pass
  unfolding verify_disclosed_claim checks
  accepts_all d options c z b m s = rw (z, b, m, s) refl
