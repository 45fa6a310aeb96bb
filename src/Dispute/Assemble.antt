-- ===== src/Dispute/Assemble.antt =====
-- src/lib/dispute.ts: minting a scope id, signing the root of a bundle, and assembling the bundle.
pub mod Checked
use Prim.Native.Char.{Char}
use pathos_dacs_ref.Prelude.{
  ℕ, zero, suc, ◌/◌, ◌%◌, String, codes, Bool, true, false, Option, none, some, List, [], ◌∷◌,
  length, leb, if◌then◌else◌, Result, ok, throw,
}
use pathos_dacs_ref.Crypto.Hex.{Bytes}
use pathos_dacs_ref.Crypto.Separators.{sign}
use pathos_dacs_ref.Disclose.Reveal.{Primitives}
use pathos_dacs_ref.Platform.{Platform}
use pathos_dacs_ref.Dispute.{Challenge, Disclosure, DisputeEvidenceBundle, is_hex, diverges_from}

abbrev pub char_of : ℕ → List Char → Char
char_of n [] = "f"
char_of zero (c ∷ cs) = c
char_of (suc n) (c ∷ cs) = char_of n cs

abbrev pub hex_digits : List Char
hex_digits =
    "0" ∷ "1" ∷ "2" ∷ "3" ∷ "4" ∷ "5" ∷ "6" ∷ "7" ∷ "8" ∷ "9" ∷ "a" ∷ "b" ∷ "c" ∷ "d" ∷ "e" ∷ "f"
    ∷ []

abbrev pub digit_char : ℕ → Char
digit_char n = char_of n hex_digits

-- `bytesToHex`, as a text
unfoldable pub hex_text : Bytes → String
hex_text [] = ""
hex_text (b ∷ bytes) =
    String.◌∷◌ (digit_char (b / 16)) (String.◌∷◌ (digit_char (b % 16)) (hex_text bytes))

-- `MIN_RECEIPT_ID_BYTES`
abbrev pub min_receipt_id_bytes : ℕ
min_receipt_id_bytes = 16

-- `mintConsentReceiptId` over the bytes that `randomBytes` drew: `none` if it throws
unfoldable pub mint_consent_receipt_id : Bytes → Option String
mint_consent_receipt_id drawn =
    if leb min_receipt_id_bytes (length drawn) then some (hex_text drawn) else none

pub data AssembleError : Type 0 where
  no_disclosure malformed_root cannot_sign : AssembleError
  mixed_challenge : ℕ → AssembleError

pub record AssembleArgs (Claim Ledger : Type 0) : Type 0 where
  pub presentation_pub_key : String
  pub presenter_priv : Bytes
  pub signed_root : String
  pub disclosures : List (Disclosure Claim)
  pub consent_ledger : Ledger

-- `assertSingleChallenge` of the first disclosure and the others
abbrev pub single_challenge :
    {Claim : Type 0} → Option Challenge → List (Disclosure Claim) → Option ℕ
unfolding diverges_from
single_challenge none ds = some 0
single_challenge (some c) ds = diverges_from c 1 ds

module _ {C : Type 0} (platform : Platform) (prims : Primitives C) where
  abbrev pub signature_text : {E : Type 0} → Result E Bytes → Result AssembleError String
  signature_text (ok sig) = ok (hex_text sig)
  signature_text (throw e) = throw cannot_sign

  -- `signBundleRoot`
  unfoldable pub sign_bundle_root : String → Bytes → Result AssembleError String
  unfolding is_hex
  sign_bundle_root root key =
      if is_hex root
      then signature_text (
          sign prims.ed25519 "dacs-x-dispute-bundle:v1:"
            (prims.utf8 (codes (platform.to_lower root))) key none)
      else throw malformed_root

  abbrev pub signed_bundle :
      {Claim Ledger : Type 0}
      → AssembleArgs Claim Ledger
      → Result AssembleError String
      → Result AssembleError (DisputeEvidenceBundle Claim Ledger)
  signed_bundle args (throw e) = throw e
  signed_bundle args (ok sig) = ok (record {
    presentation_pub_key = some (platform.to_lower args.presentation_pub_key);
    signed_root = some (platform.to_lower args.signed_root);
    root_sig = sig;
    disclosures = args.disclosures;
    consent_ledger = args.consent_ledger;
  })

  abbrev pub assemble_single :
      {Claim Ledger : Type 0}
      → AssembleArgs Claim Ledger
      → Option ℕ
      → Result AssembleError (DisputeEvidenceBundle Claim Ledger)
  unfolding sign_bundle_root
  assemble_single args (some i) = throw (mixed_challenge i)
  assemble_single args none =
      signed_bundle args (sign_bundle_root args.signed_root args.presenter_priv)

  abbrev pub assemble_from :
      {Claim Ledger : Type 0}
      → AssembleArgs Claim Ledger
      → List (Disclosure Claim)
      → Result AssembleError (DisputeEvidenceBundle Claim Ledger)
  unfolding single_challenge
  assemble_from args [] = throw no_disclosure
  assemble_from args (d ∷ ds) = assemble_single args (single_challenge d.challenge ds)

  -- `assembleDisputeBundle`
  unfoldable pub assemble_dispute_bundle :
      {Claim Ledger : Type 0}
      → AssembleArgs Claim Ledger
      → Result AssembleError (DisputeEvidenceBundle Claim Ledger)
  unfolding assemble_from
  assemble_dispute_bundle args = assemble_from args args.disclosures
