-- ===== src/Consent.antt =====
-- src/lib/consent.ts: consent records, their signatures, and the consent that is in force after an
-- append-only list of them.
pub mod Authentic
pub mod Effective
pub mod Resolve
pub mod Ruling
pub mod Anchor
pub mod Bridge
use pathos_dacs_ref.Prelude.{
  ℕ, Bool, true, false, not, ◌&&◌, ◌||◌, Option, none, some, List, [], ◌∷◌, ◌++◌, Codes, codes,
  codes_eq, length, any, ltb, ◌==◌, map, if◌then◌else◌, Result, ok, throw, ◌>>=◌, ◌>>◌, require,
}
use pathos_dacs_ref.Crypto.Hex.{Bytes, hex_to_bytes, bytes_to_hex}
use pathos_dacs_ref.Crypto.Separators.{Ed25519, sign, verify}
use pathos_dacs_ref.Disclose.Merkle.{unique_sorted}
use pathos_dacs_ref.Disclose.Reveal.{Number, finite, not_finite, before}

-- An `action` that was read may be any text.
pub data ConsentAction : Type 0 where
  grant revoke : ConsentAction
  unknown_action : Codes → ConsentAction

pub record ConsentRecordBody : Type 0 where
  pub action : ConsentAction
  pub consent_receipt_id : Codes
  pub grantor : Codes
  pub audience : Codes
  pub commitments : List Codes
  pub issued_at : Number
  pub expires_at : Number
  pub supersedes : Option Codes

-- `ConsentRecord` extends its body.
pub record ConsentRecord : Type 0 where
  pub body : ConsentRecordBody
  pub record_id : Codes
  pub signature : Codes

-- The libraries and the runtime; `jcs` is `none` if `jcsCanonical` throws.
pub record ConsentPrimitives : Type 0 where
  pub sha256 : Bytes → Bytes
  pub to_lower : Codes → Codes
  pub jcs : ConsentRecordBody → Option Bytes
  pub ed25519 : Ed25519

pub data ConsentStatus : Type 0 where
  granted revoked expired : ConsentRecord → ConsentStatus
  no_consent : ConsentStatus

pub record EffectiveConsent : Type 0 where
  pub consent_receipt_id : Codes
  pub status : ConsentStatus

-- `now` and `require_valid_signatures` have their defaults filled in
pub record ResolveOptions : Type 0 where
  pub now : ℕ
  pub require_valid_signatures : Bool

-- the variables of the loop of `resolveEffectiveConsent`
pub record Folded : Type 0 where
  pub establishing_grantor : Option Codes
  pub in_force_grant : Option ConsentRecord
  pub revoked_by : Option ConsentRecord

abbrev pub is_known : ConsentAction → Bool
is_known grant = true
is_known revoke = true
is_known (unknown_action text) = false

abbrev pub is_grantor : Codes → Option Codes → Bool
is_grantor grantor none = false
is_grantor grantor (some establishing) = codes_eq grantor establishing

module _ (prims : ConsentPrimitives) where
  -- `canonicalCommitments`
  abbrev pub canonical_commitments : List Codes → List Codes
  canonical_commitments commitments = unique_sorted (map prims.to_lower commitments)

  -- `canonicalBody`
  abbrev pub canonical_body : ConsentRecordBody → ConsentRecordBody
  canonical_body b = record {
    action = b.action;
    consent_receipt_id = b.consent_receipt_id;
    grantor = prims.to_lower b.grantor;
    audience = b.audience;
    commitments = canonical_commitments b.commitments;
    issued_at = b.issued_at;
    expires_at = b.expires_at;
    supersedes = b.supersedes;
  }

  abbrev pub id_of : Option Bytes → Option Codes
  id_of none = none
  id_of (some jcs) = some (bytes_to_hex (prims.sha256 (codes "dacs-x-consent:v1:" ++ jcs)))

  -- `computeConsentRecordId`: `none` if it throws
  unfoldable pub compute_consent_record_id : ConsentRecordBody → Option Codes
  compute_consent_record_id b = id_of (prims.jcs (canonical_body b))

  abbrev pub signed_record :
      {E : Type 0} → ConsentRecordBody → Option Codes → Result E Bytes → Option ConsentRecord
  signed_record b (some id) (ok sig) =
      some (record { body = b; record_id = id; signature = bytes_to_hex sig })
  signed_record b _ _ = none

  abbrev pub sign_canonical : ConsentRecordBody → Bytes → Option Bytes → Option ConsentRecord
  sign_canonical cb key none = none
  sign_canonical cb key (some jcs) =
      signed_record cb (compute_consent_record_id cb)
        (sign prims.ed25519 "dacs-x-consent:v1:" jcs key none)

  -- `signConsentRecord`: `none` if it throws
  unfoldable pub sign_consent_record : ConsentRecordBody → Bytes → Option ConsentRecord
  sign_consent_record b key = sign_canonical (canonical_body b) key (prims.jcs (canonical_body b))

  -- the check of a signature, of inputs that were decoded
  abbrev pub verify_widths : Option Bytes → Option Bytes → Bytes → Bool
  verify_widths (some key) (some sig) jcs =
      (length key == 32)
      && ((length sig == 64) && verify prims.ed25519 "dacs-x-consent:v1:" sig jcs key none)
  verify_widths _ _ jcs = false

  abbrev pub verify_id : ConsentRecord → Option Codes → Option Bytes → Option Bool
  verify_id r (some id) (some jcs) = some (
      codes_eq id (prims.to_lower r.record_id)
      && verify_widths (hex_to_bytes r.body.grantor) (hex_to_bytes r.signature) jcs)
  verify_id r _ _ = none

  -- `verifyConsentRecord`: `none` if it throws
  unfoldable pub verify_consent_record : ConsentRecord → Option Bool
  verify_consent_record r =
      if is_known r.body.action
      then verify_id r (compute_consent_record_id (canonical_body r.body))
          (prims.jcs (canonical_body r.body))
      else some false

  -- whether a record is kept by the filter; `none` if the test throws
  unfoldable pub is_scoped : Codes → Bool → ConsentRecord → Option Bool
  is_scoped scope require_signature r =
      if codes_eq r.body.consent_receipt_id scope
      then if require_signature then verify_consent_record r else some true
      else some false

  abbrev pub keep :
      ConsentRecord → Option Bool → Option (List ConsentRecord) → Option (List ConsentRecord)
  keep r (some true) (some rs) = some (r ∷ rs)
  keep r (some false) (some rs) = some rs
  keep r _ _ = none

  -- the records of this scope, in the order of the ledger
  unfoldable pub scoped : Codes → Bool → List ConsentRecord → Option (List ConsentRecord)
  unfolding is_scoped
  scoped scope require_signature [] = some []
  scoped scope require_signature (r ∷ rs) =
      keep r (is_scoped scope require_signature r) (scoped scope require_signature rs)

  abbrev pub establish : Codes → Option Codes → Option Codes
  establish grantor none = some grantor
  establish grantor (some establishing) = some establishing

  -- the body of the loop, of the action of a record
  abbrev pub step_action : Folded → ConsentRecord → ConsentAction → Folded
  step_action st r grant =
      let establishing = establish (prims.to_lower r.body.grantor) st.establishing_grantor in
      if is_grantor (prims.to_lower r.body.grantor) establishing
      then record {
        establishing_grantor = establishing;
        in_force_grant = some r;
        revoked_by = none;
      }
      else st
  step_action st r revoke =
      if is_grantor (prims.to_lower r.body.grantor) st.establishing_grantor
      then record {
        establishing_grantor = st.establishing_grantor;
        in_force_grant = none;
        revoked_by = some r;
      }
      else st
  step_action st r (unknown_action text) = st

  -- the loop
  unfoldable pub fold_records : Folded → List ConsentRecord → Folded
  fold_records st [] = st
  fold_records st (r ∷ rs) = fold_records (step_action st r r.body.action) rs

  abbrev pub start : Folded
  start = record { establishing_grantor = none; in_force_grant = none; revoked_by = none }

  abbrev pub windowed : ℕ → ConsentRecord → ConsentStatus
  windowed now r = if before now r.body.expires_at then granted r else expired r

  -- what is returned after the loop
  abbrev pub status_of : ℕ → Option ConsentRecord → Option ConsentRecord → ConsentStatus
  status_of now (some r) revoked_by = windowed now r
  status_of now none (some r) = revoked r
  status_of now none none = no_consent

  abbrev pub effective : ℕ → Codes → Option (List ConsentRecord) → Option EffectiveConsent
  unfolding fold_records
  effective now scope none = none
  effective now scope (some rs) =
      let st = fold_records start rs in
      some (record {
        consent_receipt_id = scope;
        status = status_of now st.in_force_grant st.revoked_by;
      })

  -- `resolveEffectiveConsent`: `none` if it throws
  unfoldable pub resolve_effective_consent :
      List ConsentRecord → Codes → ResolveOptions → Option EffectiveConsent
  unfolding scoped effective
  resolve_effective_consent ledger scope options =
      effective options.now scope (scoped scope options.require_valid_signatures ledger)
