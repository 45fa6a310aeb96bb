-- ===== src/Crypto/Separators.antt =====
-- src/domain-sep.ts and src/lib/sign.ts: the closed registry of domain separators, and the bytes
-- that are signed. A separator of the registry is ASCII, so its code units are its UTF-8 bytes.
pub mod PrefixFree
use pathos_dacs_ref.Prelude.{
  ℕ, String, Bool, true, false, not, ◌&&◌, Option, none, some, List, [], ◌∷◌, ◌++◌, Codes, codes,
  any, str_eq, Result, ok, throw, ◌>>=◌, ◌>>◌, require, if◌then◌else◌,
}
use pathos_dacs_ref.Crypto.Hex.{Bytes}

abbrev pub domain_separators : List String
domain_separators =
    "dacs-listing:v1:" ∷ "dacs-bundle-presentation:v1:" ∷ "dacs-session-binding:v1:"
    ∷ "dacs-verifyresult:v1:" ∷ "dacs-composite:v1:" ∷ "dacs-channelmsg:v1:" ∷ "dacs-agreement:v1:"
    ∷ "dacs-commitment:v1:" ∷ "dacs-evidence:v1:" ∷ "dacs-bundle:v1:" ∷ "dacs-rating:v1:"
    ∷ "dacs-bundle-binding:v1:" ∷ "dacs-fault-bundle:v1:" ∷ "dacs-fault-bundle-pointer:v1:" ∷ []

abbrev pub additive_domain_separators : List String
additive_domain_separators =
    "dacs-payee-bound-agreement:v1:" ∷ "dacs-finality-commitment:v1:"
    ∷ "dacs-evidence-bound-fault-bundle:v1:" ∷ "dacs-evidence-bound-fault-bundle-pointer:v1:" ∷ []

abbrev pub legacy_read_separators : List String
legacy_read_separators = "dacs5-bundle:v1:" ∷ []

abbrev pub dacs_x_extension_separators : List String
dacs_x_extension_separators =
    "dacs-x-agent-identity:v1:" ∷ "dacs-x-attestation-ref:v1:" ∷ "dacs-x-cbp-commit:v1:"
    ∷ "dacs-x-rule-ref:v1:" ∷ "dacs-x-payment-auth:v1:" ∷ "dacs-x-delivery-receipt:v1:"
    ∷ "dacs-x-session-record:v1:" ∷ "dacs-x-sealed-envelope-open:v1:" ∷ "dacs-x-claim-commit:v1:"
    ∷ "dacs-x-claim-reveal:v1:" ∷ "dacs-x-consent:v1:" ∷ "dacs-x-dispute-bundle:v1:"
    ∷ "dacs-x-ap2-receipt:v1:" ∷ []

abbrev pub reviewed_dacs_x_extension_separators : List String
reviewed_dacs_x_extension_separators = "dacs-x-channel-envelope:v1:" ∷ []

abbrev pub pathos_extension_separators : List String
pathos_extension_separators =
    "dacs-cross-vps-attestation:v1:" ∷ "dacs-bridge-release-attestation:v1:"
    ∷ "dacs-tank-lock-attestation:v1:" ∷ "dacs-tank-refund-attestation:v1:"
    ∷ "pathos-delivery-receipt:v1:" ∷ []

abbrev pub known : List String
known =
    domain_separators
    ++ (additive_domain_separators
        ++ (legacy_read_separators
            ++ (dacs_x_extension_separators
                ++ (reviewed_dacs_x_extension_separators ++ pathos_extension_separators))))

abbrev pub includes : List String → String → Bool
includes xs s = any (λ x. str_eq x s) xs

pub data SeparatorError : Type 0 where
  unknown_separator legacy_separator : SeparatorError

-- `assertKnownSeparator`
unfoldable pub assert_known_separator : String → Result SeparatorError (Unit {0})
assert_known_separator sep = require (includes known sep) unknown_separator

-- `isLegacyReadSeparator`
unfoldable pub is_legacy_read_separator : String → Bool
is_legacy_read_separator sep = includes legacy_read_separators sep

-- `assertEmittableSeparator`
unfoldable pub assert_emittable_separator : String → Result SeparatorError (Unit {0})
unfolding assert_known_separator is_legacy_read_separator
assert_emittable_separator sep = do
  require (not (is_legacy_read_separator sep)) legacy_separator
  assert_known_separator sep

abbrev pub or_empty : Option Bytes → Bytes
or_empty none = []
or_empty (some h) = h

-- `buildSignedBytes`
unfoldable pub build_signed_bytes : String → Bytes → Option Bytes → Bytes
build_signed_bytes separator body intermediate_hash =
    codes separator ++ (or_empty intermediate_hash ++ body)

-- The two operations of the ed25519 library that are used; `verify` answers false if it throws.
pub record Ed25519 : Type 0 where
  pub sign : (bytes private_key : Bytes) → Bytes
  pub verify : (sig bytes public_key : Bytes) → Bool

abbrev pub and_then : Result SeparatorError (Unit {0}) → Bool → Bool
and_then (throw e) answer = false
and_then (ok _) answer = answer

module _ (ed25519 : Ed25519) where
  -- `sign` of src/lib/sign.ts
  unfoldable pub sign :
      String → (body private_key : Bytes) → Option Bytes → Result SeparatorError Bytes
  unfolding assert_emittable_separator build_signed_bytes
  sign separator body private_key hash = do
    assert_emittable_separator separator
    ok (ed25519.sign (build_signed_bytes separator body hash) private_key)

  -- `verify` of src/lib/sign.ts
  unfoldable pub verify : String → (sig body public_key : Bytes) → Option Bytes → Bool
  unfolding assert_known_separator build_signed_bytes
  verify separator sig body public_key hash =
      and_then (assert_known_separator separator)
        (ed25519.verify sig (build_signed_bytes separator body hash) public_key)
