-- ===== src/Consent/Ruling.antt =====
-- What `resolveEffectiveConsent` of src/lib/consent.ts is to decide: the first grant of a scope names
-- its authority, and the latest grant or revocation of the authority decides.
use pathos_dacs_ref.Prelude.{
  ℕ, Bool, ◌&&◌, Option, none, some, List, [], ◌∷◌, Codes, codes_eq, if◌then◌else◌,
}
use pathos_dacs_ref.Disclose.Reveal.{before}
use pathos_dacs_ref.Consent.{
  ConsentAction, grant, revoke, unknown_action, ConsentRecord, ConsentPrimitives, ConsentStatus,
  granted, revoked, expired, no_consent, is_known,
}

abbrev pub or_else : Option Codes → Option Codes → Option Codes
or_else (some g) o = some g
or_else none o = o

abbrev pub grantor_of : ConsentAction → Codes → Option Codes
grantor_of grant g = some g
grantor_of revoke g = none
grantor_of (unknown_action text) g = none

abbrev pub latest_of : Option ConsentRecord → Option ConsentRecord → Option ConsentRecord
latest_of earlier none = earlier
latest_of earlier (some r) = some r

abbrev pub decided : ConsentAction → ℕ → ConsentRecord → ConsentStatus
decided grant now r = if before now r.body.expires_at then granted r else expired r
decided revoke now r = revoked r
decided (unknown_action text) now r = no_consent

module _ (prims : ConsentPrimitives) where
  -- the grantor of the first grant
  unfoldable pub authority : List ConsentRecord → Option Codes
  authority [] = none
  authority (r ∷ rs) =
      or_else (grantor_of r.body.action (prims.to_lower r.body.grantor)) (authority rs)

  -- a grant or a revocation of the authority
  abbrev pub governs : Codes → ConsentRecord → Bool
  governs g r = is_known r.body.action && codes_eq (prims.to_lower r.body.grantor) g

  -- the latest record of the authority
  unfoldable pub latest : Codes → List ConsentRecord → Option ConsentRecord
  latest g [] = none
  latest g (r ∷ rs) = latest_of (if governs g r then some r else none) (latest g rs)

  abbrev pub ruling : ℕ → Option ConsentRecord → ConsentStatus
  ruling now none = no_consent
  ruling now (some r) = decided r.body.action now r

  abbrev pub ruled : ℕ → List ConsentRecord → Option Codes → ConsentStatus
  ruled now rs none = no_consent
  ruled now rs (some g) = ruling now (latest g rs)

  -- the description
  abbrev pub ruling_of : ℕ → List ConsentRecord → ConsentStatus
  ruling_of now rs = ruled now rs (authority rs)
