-- ===== src/Consent/Effective.antt =====
-- `resolveEffectiveConsent` of src/lib/consent.ts: what it decides, and what a grant in force is.
use pathos_dacs_ref.Prelude.{
  ℕ, Bool, true, false, Option, none, some, List, [], ◌∷◌, Codes, codes_eq, codes_eq_iff,
  if◌then◌else◌, Memᴰ, ◌≡◌, refl, sym, ap, ◌∙◌, subst, Bool-cases, Option-cases, inl, inr, arith,
}
use pathos_dacs_ref.Disclose.Reveal.{before}
use pathos_dacs_ref.Consent.{
  ConsentAction, grant, revoke, unknown_action, ConsentRecord, ConsentPrimitives, granted,
  EffectiveConsent, ResolveOptions, verify_consent_record, is_scoped, keep, scoped, effective,
  resolve_effective_consent,
}
use pathos_dacs_ref.Consent.Resolve.{fold_status}
use pathos_dacs_ref.Consent.Ruling.{
  authority, latest, latest_of, governs, decided, ruling, ruled, ruling_of,
}

module _ (prims : ConsentPrimitives) where
  abbrev described : ℕ → Codes → Option (List ConsentRecord) → Option EffectiveConsent
  described now scope none = none
  described now scope (some rs) =
      some (record { consent_receipt_id = scope; status = ruling_of prims now rs })

  -- The consent in force is decided by the latest grant or revocation, among the records of the scope
  -- that are kept, of the grantor of their first grant: a grant is in force until it expires, a
  -- revocation ends the consent, and without a first grant there is none. Records of other grantors,
  -- revocations before the first grant and unknown actions decide nothing. Where the check
  -- of a record throws, there is no answer.
  pub resolve_described :
      (ledger : List ConsentRecord) (scope : Codes) (options : ResolveOptions)
      → resolve_effective_consent prims ledger scope options
        ≡ described options.now scope (scoped prims scope options.require_valid_signatures ledger)
  unfolding resolve_effective_consent
  resolve_described ledger scope options =
      go (scoped prims scope options.require_valid_signatures ledger)
    where
      go :
          (o : Option (List ConsentRecord))
          → effective prims options.now scope o ≡ described options.now scope o
      go none = refl
      go (some rs) =
          ap (λ s. some (record { consent_receipt_id = scope; status = s }))
            (fold_status prims options.now rs)

  latest_of-head :
      (b : Bool) (r x : ConsentRecord) (o : Option ConsentRecord)
      → latest_of (if b then some r else none) o ≡ some x
      → o ≡ none
      → (b ≡ true) × (x ≡ r)
  latest_of-head b r x o e f = ground arith

  Governing : Codes → List ConsentRecord → ConsentRecord → Type 0
  Governing g rs x = Memᴰ x rs × (governs prims g x ≡ true)

  latest-Governing :
      (g : Codes) (rs : List ConsentRecord) (x : ConsentRecord)
      → latest prims g rs ≡ some x
      → Governing g rs x
  unfolding latest Governing
  latest-Governing g [] x e = absurd cc
  latest-Governing g (r ∷ rs) x e = elim (Option-cases (latest prims g rs)) [
    | inl missing ↦
        (let (own, same) = latest_of-head (governs prims g r) r x (latest prims g rs) e missing in
          (Memᴰ.head same, subst (λ y. governs prims g y ≡ true) (sym same) own))
    | inr (y, found) ↦
        (let same : some y ≡ some x =
            sym (ap (latest_of (if governs prims g r then some r else none)) found) ∙ e in
          let (member, own) = latest-Governing g rs x (found ∙ same) in (Memᴰ.tail member, own))
  ]

  keep-some :
      (r : ConsentRecord) (b : Option Bool) (o : Option (List ConsentRecord))
      (rs : List ConsentRecord)
      → keep prims r b o ≡ some rs
      → (c : Bool) × (ks : List ConsentRecord) × (b ≡ some c)
        × (o ≡ some ks)
        × (rs ≡ (if c then r ∷ ks else ks))
  keep-some r (some true) (some ks) rs e = (true, ks, refl, refl, cc)
  keep-some r (some false) (some ks) rs e = (false, ks, refl, refl, cc)
  keep-some r none o rs e = absurd cc
  keep-some r (some true) none rs e = absurd cc
  keep-some r (some false) none rs e = absurd cc

  kept-Mem {κ} :
      (r x : ConsentRecord) (c : Bool) (ks ledger : List ConsentRecord) (P : ConsentRecord → Type κ)
      → Memᴰ x (if c then r ∷ ks else ks)
      → (c ≡ true → P r)
      → (Memᴰ x ks → Memᴰ x ledger × P x)
      → Memᴰ x (r ∷ ledger) × P x
  kept-Mem r x true ks ledger P (Memᴰ.head e) own rest = (Memᴰ.head e, subst P (sym e) (own refl))
  kept-Mem r x true ks ledger P (Memᴰ.tail m) own rest =
      let (member, holds) = rest m in (Memᴰ.tail member, holds)
  kept-Mem r x false ks ledger P m own rest =
      let (member, holds) = rest m in (Memᴰ.tail member, holds)

  -- a record that is kept stands in the ledger and passed the filter
  scoped-Mem :
      (scope : Codes) (b : Bool) (ledger rs : List ConsentRecord) (x : ConsentRecord)
      → scoped prims scope b ledger ≡ some rs
      → Memᴰ x rs
      → Memᴰ x ledger × (is_scoped prims scope b x ≡ some true)
  unfolding scoped
  scoped-Mem scope b [] rs x e m =
      let nothing : rs ≡ [] = cc in let m' : Memᴰ x [] = subst (Memᴰ x) nothing m in elim m' [ ]
  scoped-Mem scope b (r ∷ ledger) rs x e m =
      let (c, ks, tested, later, same) =
        keep-some r (is_scoped prims scope b r) (scoped prims scope b ledger) rs e in
      kept-Mem r x c ks ledger (λ k. is_scoped prims scope b k ≡ some true) (subst (Memᴰ x) same m)
        (λ on. tested ∙ ap some on) (scoped-Mem scope b ledger ks x later)

  -- what `verifyConsentRecord` was asked, for the records that are kept
  Kept : Codes → Bool → ConsentRecord → Type 0
  Kept scope b x =
      (x.body.consent_receipt_id ≡ scope) × (b ≡ true → verify_consent_record prims x ≡ some true)

  is_scoped-Kept :
      (scope : Codes) (b : Bool) (x : ConsentRecord)
      → is_scoped prims scope b x ≡ some true
      → Kept scope b x
  unfolding is_scoped Kept
  is_scoped-Kept scope b x h = elim (Bool-cases (codes_eq x.body.consent_receipt_id scope)) [
    | inl same ↦ ((codes_eq_iff x.body.consent_receipt_id scope).0 same, λ on. rw (same, on) at h)
    | inr apart ↦ absurd (ground arith)
  ]

  decided-granted :
      (a : ConsentAction) (now : ℕ) (x r : ConsentRecord)
      → x.body.action ≡ a
      → decided a now x ≡ granted r
      → (x ≡ r) × (x.body.action ≡ grant) × (before now x.body.expires_at ≡ true)
  decided-granted grant now x r e h = elim (Bool-cases (before now x.body.expires_at)) [
    | inl current ↦ (ground arith, e, current)
    | inr over ↦ absurd (ground arith)
  ]
  decided-granted revoke now x r e h = absurd cc
  decided-granted (unknown_action text) now x r e h = absurd cc

  -- What a grant in force is, at a time, in a ledger.
  pub record InForce (ledger : List ConsentRecord) (scope : Codes) (options : ResolveOptions)
      (r : ConsentRecord) : Type 0 where
    pub member : Memᴰ r ledger
    pub scope_of : r.body.consent_receipt_id ≡ scope
    pub is_grant : r.body.action ≡ grant
    pub current : before options.now r.body.expires_at ≡ true
    pub authentic :
        options.require_valid_signatures ≡ true → verify_consent_record prims r ≡ some true
    pub records : List ConsentRecord
    pub kept : scoped prims scope options.require_valid_signatures ledger ≡ some records
    pub authoritative : authority prims records ≡ some (prims.to_lower r.body.grantor)
    pub last : latest prims (prims.to_lower r.body.grantor) records ≡ some r

  ruled-granted :
      (now : ℕ) (rs : List ConsentRecord) (r : ConsentRecord) (o : Option Codes)
      → authority prims rs ≡ o
      → ruled prims now rs o ≡ granted r
      → (authority prims rs ≡ some (prims.to_lower r.body.grantor))
        × (latest prims (prims.to_lower r.body.grantor) rs ≡ some r)
        × Memᴰ r rs
        × (r.body.action ≡ grant)
        × (before now r.body.expires_at ≡ true)
  unfolding Governing
  ruled-granted now rs r none f e = absurd cc
  ruled-granted now rs r (some g) f e = go (latest prims g rs) refl e
    where
      go :
          (p : Option ConsentRecord)
          → latest prims g rs ≡ p
          → ruling prims now p ≡ granted r
          → (authority prims rs ≡ some (prims.to_lower r.body.grantor))
            × (latest prims (prims.to_lower r.body.grantor) rs ≡ some r)
            × Memᴰ r rs
            × (r.body.action ≡ grant)
            × (before now r.body.expires_at ≡ true)
      go none l h = absurd cc
      go (some x) l h =
          let (same, action, current) = decided-granted x.body.action now x r refl h in
          let (member, own) = latest-Governing g rs x l in
          let named : codes_eq (prims.to_lower x.body.grantor) g ≡ true = (ground arith) in
          let grantor : g ≡ prims.to_lower r.body.grantor =
            sym ((codes_eq_iff (prims.to_lower x.body.grantor) g).0 named)
            ∙ ap (λ y. prims.to_lower y.body.grantor) same in
          (
            f ∙ ap some grantor,
            subst (λ k. latest prims k rs ≡ some r) grantor (l ∙ ap some same),
            subst (λ y. Memᴰ y rs) same member,
            subst (λ y. y.body.action ≡ grant) same action,
            subst (λ y. before now y.body.expires_at ≡ true) same current,
          )

  -- A consent that is in force rests on a grant that stands in the ledger, is of the scope, authentic
  -- where signatures are required and not expired, and is the latest record of the scope's authority.
  pub resolve-InForce :
      (ledger : List ConsentRecord) (scope : Codes) (options : ResolveOptions)
      (e : EffectiveConsent) (r : ConsentRecord)
      → resolve_effective_consent prims ledger scope options ≡ some e
      → e.status ≡ granted r
      → InForce ledger scope options r
  unfolding Kept
  resolve-InForce ledger scope options e r h g =
      go (scoped prims scope options.require_valid_signatures ledger) refl
        (sym (resolve_described ledger scope options) ∙ h)
    where
      go :
          (o : Option (List ConsentRecord))
          → scoped prims scope options.require_valid_signatures ledger ≡ o
          → described options.now scope o ≡ some e
          → InForce ledger scope options r
      go none k d = absurd cc
      go (some rs) k d =
          let made : ◌≡◌ {A = EffectiveConsent}
              (record { consent_receipt_id = scope; status = ruling_of prims options.now rs }) e =
            cc in
          let status : ruling_of prims options.now rs ≡ granted r = ap (λ x. x.status) made ∙ g in
          let (authoritative, last, member, is_grant, current) =
            ruled-granted options.now rs r (authority prims rs) refl status in
          let (in_ledger, passed) =
            scoped-Mem scope options.require_valid_signatures ledger rs r k member in
          let (scope_of, authentic) =
            is_scoped-Kept scope options.require_valid_signatures r passed in
          record {
            member = in_ledger;
            scope_of = scope_of;
            is_grant = is_grant;
            current = current;
            authentic = authentic;
            records = rs;
            kept = k;
            authoritative = authoritative;
            last = last;
          }
