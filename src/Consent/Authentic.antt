-- ===== src/Consent/Authentic.antt =====
-- `signConsentRecord` and `verifyConsentRecord` of src/lib/consent.ts.
use pathos_dacs_ref.Prelude.{
  true, false, ◌&&◌, Option, none, some, List, [], ◌∷◌, ◌++◌, Codes, codes, codes_eq, codes_eq_iff,
  length, ◌==◌, if◌then◌else◌, map, All, ◌≡◌, refl, sym, ap, ◌∙◌, subst,
}
use mathlib.Core.Path.{ap₂}
use pathos_dacs_ref.Crypto.Hex.{Bytes, IsBytes, hex_to_bytes, bytes_to_hex, hex-bytes}
use pathos_dacs_ref.Crypto.Separators.{build_signed_bytes}
use pathos_dacs_ref.Crypto.Separators.PrefixFree.{sign-ok, verify-sign}
use pathos_dacs_ref.Disclose.Merkle.{unique_sorted}
use pathos_dacs_ref.Disclose.Merkle.Order.{unique_sorted-All, unique_sorted_twice}
use pathos_dacs_ref.Disclose.Merkle.Paths.{Is32}
use pathos_dacs_ref.Consent.{
  ConsentRecordBody, ConsentRecord, ConsentPrimitives, is_known, canonical_commitments,
  canonical_body, id_of, compute_consent_record_id, sign_canonical, sign_consent_record,
  verify_widths, verify_id, verify_consent_record,
}

-- what the digests, the case map and a key pair are relied on for
pub record Reliable (prims : ConsentPrimitives) (private_key public_key : Bytes) : Type 0 where
  pub digest : (b : Bytes) → Is32 (prims.sha256 b)
  pub lower_once : (s : Codes) → prims.to_lower (prims.to_lower s) ≡ prims.to_lower s
  pub lower_hex : (b : Bytes) → IsBytes b → prims.to_lower (bytes_to_hex b) ≡ bytes_to_hex b
  pub public_32 : length public_key ≡ 32
  pub signature_64 :
      (b : Bytes)
      → (length (prims.ed25519.sign b private_key) ≡ 64)
        × IsBytes (prims.ed25519.sign b private_key)
  pub own :
      (b : Bytes) → prims.ed25519.verify (prims.ed25519.sign b private_key) b public_key ≡ true

some_injective {ℓ} : {A : Type ℓ} (a b : A) → some a ≡ some b → a ≡ b
some_injective a b e = cc

map_fixed : (f : Codes → Codes) (ss : List Codes) → All (λ s. f s ≡ s) ss → map f ss ≡ ss
map_fixed f [] h = refl
map_fixed f (s ∷ ss) (h, hs) = ap₂ (λ x xs. x ∷ xs) h (map_fixed f ss hs)

module _ (prims : ConsentPrimitives) (private_key public_key : Bytes)
    (reliable : Reliable prims private_key public_key) where
  lowered : (ss : List Codes) → All (λ s. prims.to_lower s ≡ s) (map prims.to_lower ss)
  lowered [] = tt
  lowered (s ∷ ss) = (reliable.lower_once s, lowered ss)

  commitments_twice :
      (ss : List Codes)
      → canonical_commitments prims (canonical_commitments prims ss)
        ≡ canonical_commitments prims ss
  commitments_twice ss =
      ap unique_sorted (
        map_fixed prims.to_lower (canonical_commitments prims ss)
          (unique_sorted-All (λ s. prims.to_lower s ≡ s) (map prims.to_lower ss) (lowered ss)))
      ∙ unique_sorted_twice (map prims.to_lower ss)

  -- a canonical body is its own canonical form
  canonical_twice :
      (b : ConsentRecordBody)
      → canonical_body prims (canonical_body prims b) ≡ canonical_body prims b
  canonical_twice b =
      ap₂
        (λ g cs. record {
          action = b.action;
          consent_receipt_id = b.consent_receipt_id;
          grantor = g;
          audience = b.audience;
          commitments = cs;
          issued_at = b.issued_at;
          expires_at = b.expires_at;
          supersedes = b.supersedes;
        })
        (reliable.lower_once b.grantor) (commitments_twice b.commitments)

  -- the record of a canonical body
  abbrev made : ConsentRecordBody → Bytes → ConsentRecord
  made cb jcs = record {
    body = cb;
    record_id = bytes_to_hex (prims.sha256 (codes "dacs-x-consent:v1:" ++ jcs));
    signature =
        bytes_to_hex
          (prims.ed25519.sign (build_signed_bytes "dacs-x-consent:v1:" jcs none) private_key);
  }

  made_id :
      (b : ConsentRecordBody) (jcs : Bytes)
      → prims.jcs (canonical_body prims b) ≡ some jcs
      → compute_consent_record_id prims (canonical_body prims b)
        ≡ some (made (canonical_body prims b) jcs).record_id
  unfolding compute_consent_record_id
  made_id b jcs e = ap (λ x. id_of prims (prims.jcs x)) (canonical_twice b) ∙ ap (id_of prims) e

  signs :
      (b : ConsentRecordBody) (jcs : Bytes)
      → prims.jcs (canonical_body prims b) ≡ some jcs
      → sign_consent_record prims b private_key ≡ some (made (canonical_body prims b) jcs)
  unfolding sign_consent_record
  signs b jcs e =
      rw
        (
          e,
          made_id b jcs e,
          sign-ok prims.ed25519 "dacs-x-consent:v1:" jcs private_key none refl refl,
        )
        refl

  made_widths :
      (cb : ConsentRecordBody) (jcs : Bytes)
      → hex_to_bytes cb.grantor ≡ some public_key
      → verify_widths prims (hex_to_bytes cb.grantor) (hex_to_bytes (made cb jcs).signature) jcs
        ≡ true
  made_widths cb jcs g =
      let sig : Bytes =
        prims.ed25519.sign (build_signed_bytes "dacs-x-consent:v1:" jcs none) private_key in
      let (width, bytes) =
        reliable.signature_64 (build_signed_bytes "dacs-x-consent:v1:" jcs none) in
      let signed = sign-ok prims.ed25519 "dacs-x-consent:v1:" jcs private_key none refl refl in
      let (_, _, verifies) =
        verify-sign prims.ed25519 private_key public_key reliable.own "dacs-x-consent:v1:" jcs sig
          none signed in
      let key_width : (length public_key == 32) ≡ true = rw (reliable.public_32) refl in
      let sig_width : (length sig == 64) ≡ true = rw width refl in
      rw (g, hex-bytes sig bytes, key_width, sig_width) verifies

  made_verifies :
      (b : ConsentRecordBody) (jcs : Bytes)
      → prims.jcs (canonical_body prims b) ≡ some jcs
      → is_known b.action ≡ true
      → hex_to_bytes (prims.to_lower b.grantor) ≡ some public_key
      → verify_consent_record prims (made (canonical_body prims b) jcs) ≡ some true
  unfolding verify_consent_record
  made_verifies b jcs e known g =
      let cb = canonical_body prims b in
      let id : Codes = (made cb jcs).record_id in
      let (_, bytes) = reliable.digest (codes "dacs-x-consent:v1:" ++ jcs) in
      let same : codes_eq id (prims.to_lower id) ≡ true =
        (codes_eq_iff id (prims.to_lower id)).1
          (sym (reliable.lower_hex (prims.sha256 (codes "dacs-x-consent:v1:" ++ jcs)) bytes)) in
      let identified : compute_consent_record_id prims (canonical_body prims cb) ≡ some id =
        ap (compute_consent_record_id prims) (canonical_twice b) ∙ made_id b jcs e in
      let encoded : prims.jcs (canonical_body prims cb) ≡ some jcs =
        ap prims.jcs (canonical_twice b) ∙ e in
      ap
        (λ t.
          if t
          then verify_id prims (made cb jcs)
              (compute_consent_record_id prims (canonical_body prims cb))
              (prims.jcs (canonical_body prims cb))
          else some false)
        known
      ∙ ap₂ (verify_id prims (made cb jcs)) identified encoded
      ∙ ap₂ (λ x y. some (x && y)) same (made_widths cb jcs g)

  signed_jcs :
      (b : ConsentRecordBody) (r : ConsentRecord) (o : Option Bytes)
      → sign_canonical prims (canonical_body prims b) private_key o ≡ some r
      → (jcs : Bytes) × (o ≡ some jcs)
  signed_jcs b r none h = absurd cc
  signed_jcs b r (some jcs) h = (jcs, refl)

  -- A consent record that is signed as a grant or a revocation, with the private key of the grantor
  -- that it names, is authentic. Digests are taken to have 32 bytes and signatures 64, the keys to be a
  -- pair, and lower case to be idempotent and to keep the texts that bytes are written as.
  pub verify-sign_consent_record :
      (b : ConsentRecordBody) (r : ConsentRecord)
      → is_known b.action ≡ true
      → hex_to_bytes (prims.to_lower b.grantor) ≡ some public_key
      → sign_consent_record prims b private_key ≡ some r
      → verify_consent_record prims r ≡ some true
  unfolding sign_consent_record
  verify-sign_consent_record b r known g h =
      let (jcs, e) = signed_jcs b r (prims.jcs (canonical_body prims b)) h in
      let same : made (canonical_body prims b) jcs ≡ r =
        some_injective (made (canonical_body prims b) jcs) r (sym (signs b jcs e) ∙ h) in
      subst (λ x. verify_consent_record prims x ≡ some true) same (made_verifies b jcs e known g)
