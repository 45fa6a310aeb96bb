-- ===== src/Disclose/RoundTrip.antt =====
-- src/lib/disclose.ts from end to end: a claim is attested, its commitment put into a set, the claim
-- revealed to a verifier, and the reveal checked.
use pathos_dacs_ref.Prelude.{
  ℕ, ◌<◌, true, Option, none, some, List, Codes, length, leb, ok, Memᴰ, All, ◌≡◌, refl, ap, ◌∙◌,
  arith,
}
use pathos_dacs_ref.Crypto.Hex.{Bytes, IsBytes, hex_to_bytes, hex-bytes}
use pathos_dacs_ref.Crypto.Separators.{build_signed_bytes}
use pathos_dacs_ref.Crypto.Separators.PrefixFree.{sign-ok, verify-sign}
use pathos_dacs_ref.Disclose.Merkle.{MerklePathStep, compute_commitment_root, build_merkle_path}
use pathos_dacs_ref.Disclose.Merkle.Paths.{Is32, IsHex}
use pathos_dacs_ref.Disclose.Merkle.Membership.{verify-build_merkle_path}
use pathos_dacs_ref.Disclose.Reveal.{
  finite, before, Primitives, ClaimCommitment, RevealChallenge, DisclosedClaim, pass,
  min_salt_bytes, is_hex_text, reveal_preimage_body, attest_claim_commitment, produce_reveal,
  check_signature, verify_disclosed_claim, check_config,
}
use pathos_dacs_ref.Disclose.Reveal.Produced.{
  salt_text, commitment-Is32, attest-Attested, minted, produces, issued, accepts_signature,
  accepts_commitment, accepts_binding, accepts_all,
}

-- what the digests, the case map and a key pair are relied on for
pub record Reliable {Claim : Type 0} (prims : Primitives Claim) (private_key public_key : Bytes)
    : Type 0 where
  pub digest : (b : Bytes) → Is32 (prims.sha256 b)
  pub lower_keeps :
      (c : Codes) (b : Bytes) → hex_to_bytes c ≡ some b → hex_to_bytes (prims.to_lower c) ≡ some b
  pub public_32 : Is32 public_key
  pub signature_64 :
      (b : Bytes)
      → (length (prims.ed25519.sign b private_key) ≡ 64)
        × IsBytes (prims.ed25519.sign b private_key)
  pub own :
      (b : Bytes) → prims.ed25519.verify (prims.ed25519.sign b private_key) b public_key ≡ true

module _ {Claim : Type 0} (prims : Primitives Claim) (private_key public_key : Bytes)
    (reliable : Reliable prims private_key public_key) where
  signature_accepted :
      (c : ClaimCommitment Claim) (path : List MerklePathStep) (challenge : RevealChallenge)
      (root : Codes) (now : ℕ) (body : Bytes)
      → reveal_preimage_body prims challenge c.commitment ≡ some body
      → check_signature prims
          (minted prims reliable.digest c path challenge private_key body)
          (issued prims reliable.digest challenge root public_key now)
          c.commitment
        ≡ ok tt
  signature_accepted c path challenge root now body b =
      let (key_width, key_bytes) = reliable.public_32 in
      let sig : Bytes =
        prims.ed25519.sign (build_signed_bytes "dacs-x-claim-reveal:v1:" body none) private_key in
      let (sig_width, sig_bytes) =
        reliable.signature_64 (build_signed_bytes "dacs-x-claim-reveal:v1:" body none) in
      let signed =
        sign-ok prims.ed25519 "dacs-x-claim-reveal:v1:" body private_key none refl refl in
      let (_, _, verifies) =
        verify-sign prims.ed25519 private_key public_key reliable.own "dacs-x-claim-reveal:v1:" body
          sig none signed in
      accepts_signature prims reliable.digest
        (minted prims reliable.digest c path challenge private_key body)
        (issued prims reliable.digest challenge root public_key now) c.commitment public_key sig
        body (hex-bytes public_key key_bytes) (ground arith) (hex-bytes sig sig_bytes)
        (ground arith) b verifies

  -- A claim that was attested over a salt of bytes, whose commitment is in a set of hexadecimal
  -- texts, can be disclosed: the root of the set and the audit path are computed, the reveal is
  -- produced, it carries the attested claim, and the verifier that issued the challenge accepts it under that root
  -- until the challenge expires. The challenge is taken to have
  -- fields of less than 2^32 bytes, digests 32 bytes and signatures 64, the keys to be a pair, and
  -- lower case to keep the bytes of a hexadecimal text.
  pub disclosure_accepted :
      (claim : Claim) (ref : Option Codes) (salt : Bytes) (c : ClaimCommitment Claim)
      (commitments : List Codes) (challenge : RevealChallenge) (body : Bytes) (t now : ℕ)
      → IsBytes salt
      → attest_claim_commitment prims claim ref salt ≡ ok c
      → All IsHex commitments
      → Memᴰ c.commitment commitments
      → reveal_preimage_body prims challenge c.commitment ≡ some body
      → challenge.expiry ≡ finite t
      → now < t
      → (root : Codes) × (path : List MerklePathStep) × (d : DisclosedClaim Claim)
        × (compute_commitment_root prims.sha256 prims.to_lower commitments ≡ some root)
        × (build_merkle_path prims.sha256 prims.to_lower commitments c.commitment ≡ some path)
        × (produce_reveal prims c path challenge private_key ≡ ok d)
        × (d.claim ≡ claim)
        × (verify_disclosed_claim prims d
              (issued prims reliable.digest challenge root public_key now)
            ≡ ok pass)
  unfolding check_config
  disclosure_accepted claim ref salt c commitments challenge body t now salt_bytes attested hex
        member bound window fresh =
      let digest = reliable.digest in
      let (floor, same, salted, opens) = attest-Attested prims digest claim ref salt c attested in
      let (commitment, decoded, width) =
        commitment-Is32 prims digest c.salt c.claim c.commitment opens in
      let (root, path, rooted, built, verified) =
        verify-build_merkle_path prims.sha256 prims.to_lower digest reliable.lower_keeps commitments
          c.commitment commitment hex member decoded width in
      let text : is_hex_text c.salt ≡ true =
        ap is_hex_text salted ∙ salt_text salt salt_bytes floor in
      let read : hex_to_bytes c.salt ≡ some salt =
        ap hex_to_bytes salted ∙ hex-bytes salt salt_bytes in
      let long : leb min_salt_bytes (length salt) ≡ true = (ground arith) in
      let d : DisclosedClaim Claim = minted prims digest c path challenge private_key body in
      (
        root,
        path,
        d,
        rooted,
        built,
        produces prims digest c path challenge private_key body salt text read long opens bound,
        same,
        accepts_all prims digest d (issued prims digest challenge root public_key now) c.commitment
            refl
            (accepts_binding prims digest challenge root public_key now
              (ap (before now) window ∙ (ground arith)))
            (accepts_commitment prims digest d root c.commitment salt text read long opens verified)
            (signature_accepted c path challenge root now body bound),
      )
