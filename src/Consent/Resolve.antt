-- ===== src/Consent/Resolve.antt =====
-- The loop of `resolveEffectiveConsent` of src/lib/consent.ts, against Consent.Ruling.
use pathos_dacs_ref.Prelude.{
  ℕ, true, ◌&&◌, Option, none, some, List, [], ◌∷◌, Codes, codes_eq, codes_eq_iff, if◌then◌else◌,
  ◌≡◌, refl, sym, ap, ◌∙◌, subst, Bool-cases, inl, inr,
}
use pathos_dacs_ref.Consent.{
  ConsentAction, grant, revoke, unknown_action, ConsentRecord, ConsentPrimitives, ConsentStatus,
  Folded, is_known, step_action, fold_records, start, status_of,
}
use pathos_dacs_ref.Consent.Ruling.{
  or_else, grantor_of, latest_of, decided, authority, governs, latest, ruling, ruled, ruling_of,
}

module _ (prims : ConsentPrimitives) where
  -- the loop's variables after a record of the authority
  after_action : ConsentAction → Codes → ConsentRecord → Folded
  after_action grant g r = record {
    establishing_grantor = some g;
    in_force_grant = some r;
    revoked_by = none;
  }
  after_action revoke g r = record {
    establishing_grantor = some g;
    in_force_grant = none;
    revoked_by = some r;
  }
  after_action (unknown_action text) g r = record {
    establishing_grantor = some g;
    in_force_grant = none;
    revoked_by = none;
  }

  after : Codes → ConsentRecord → Folded
  after g r = after_action r.body.action g r

  after-establishing :
      (g : Codes) (r : ConsentRecord) (a : ConsentAction)
      → (after_action a g r).establishing_grantor ≡ some g
  unfolding after_action
  after-establishing g r grant = refl
  after-establishing g r revoke = refl
  after-establishing g r (unknown_action text) = refl

  -- one round of the loop once there is an authority
  step_after :
      (g : Codes) (st : Folded) (r : ConsentRecord) (a : ConsentAction)
      → st.establishing_grantor ≡ some g
      → step_action prims st r a ≡ (
          if is_known a && codes_eq (prims.to_lower r.body.grantor) g
          then after_action a g r
          else st)
  unfolding after_action
  step_after g st r grant e = elim (Bool-cases (codes_eq (prims.to_lower r.body.grantor) g)) [
    | inl own ↦ rw (e, own) refl
    | inr foreign ↦ rw (e, foreign) refl
  ]
  step_after g st r revoke e = elim (Bool-cases (codes_eq (prims.to_lower r.body.grantor) g)) [
    | inl own ↦ rw (e, own) refl
    | inr foreign ↦ rw (e, foreign) refl
  ]
  step_after g st r (unknown_action text) e = refl

  abbrev settled : Folded → Codes → Option ConsentRecord → Folded
  unfolding after
  settled st g none = st
  settled st g (some r) = after g r

  settled_later :
      (st : Folded) (g : Codes) (r : ConsentRecord) (o : Option ConsentRecord)
      → settled (after g r) g o ≡ settled st g (latest_of (some r) o)
  unfolding after
  settled_later st g r none = refl
  settled_later st g r (some x) = refl

  latest_of-none : (o : Option ConsentRecord) → latest_of none o ≡ o
  latest_of-none none = refl
  latest_of-none (some r) = refl

  -- the loop keeps the latest record of the authority
  fold_after :
      (g : Codes) (st : Folded) (rs : List ConsentRecord)
      → st.establishing_grantor ≡ some g
      → fold_records prims st rs ≡ settled st g (latest prims g rs)
  unfolding latest after fold_records
  fold_after g st [] e = refl
  fold_after g st (r ∷ rs) e =
      let stepped = step_after g st r r.body.action e in
      elim (Bool-cases (governs prims g r)) [
        | inl own ↦
            (let here : step_action prims st r r.body.action ≡ after g r =
                stepped ∙ ap (λ b. if b then after g r else st) own in
              ap (λ s. fold_records prims s rs) here
              ∙ fold_after g (after g r) rs (after-establishing g r r.body.action)
              ∙ settled_later st g r (latest prims g rs)
              ∙ ap (λ b. settled st g (latest_of (if b then some r else none) (latest prims g rs)))
                  (sym own))
        | inr foreign ↦
            (let here : step_action prims st r r.body.action ≡ st =
                stepped ∙ ap (λ b. if b then after g r else st) foreign in
              ap (λ s. fold_records prims s rs) here
              ∙ fold_after g st rs e
              ∙ ap (settled st g) (sym (latest_of-none (latest prims g rs)))
              ∙ ap (λ b. settled st g (latest_of (if b then some r else none) (latest prims g rs)))
                  (sym foreign))
      ]

  -- what is returned after the loop's variables of a record of the authority
  status_after :
      (now : ℕ) (g : Codes) (r : ConsentRecord) (a : ConsentAction)
      → r.body.action ≡ a
      → status_of prims now (after_action a g r).in_force_grant (after_action a g r).revoked_by
        ≡ decided a now r
  unfolding after_action
  status_after now g r grant e = refl
  status_after now g r revoke e = refl
  status_after now g r (unknown_action text) e = refl

  abbrev pub outcome : ℕ → Folded → ConsentStatus
  outcome now st = status_of prims now st.in_force_grant st.revoked_by

  own_grant :
      (r : ConsentRecord)
      → r.body.action ≡ grant
      → governs prims (prims.to_lower r.body.grantor) r ≡ true
  own_grant r e =
      rw e ((codes_eq_iff (prims.to_lower r.body.grantor) (prims.to_lower r.body.grantor)).1 refl)

  latest_of-some :
      (o p : Option ConsentRecord) (x : ConsentRecord)
      → p ≡ some x
      → (y : ConsentRecord) × (latest_of o p ≡ some y)
  latest_of-some o none x e = absurd cc
  latest_of-some o (some y) x e = (y, refl)

  latest_of-own :
      (r : ConsentRecord) (p : Option ConsentRecord)
      → (y : ConsentRecord) × (latest_of (some r) p ≡ some y)
  latest_of-own r none = (r, refl)
  latest_of-own r (some y) = (y, refl)

  HasLatest : Codes → List ConsentRecord → Type 0
  HasLatest g rs = (x : ConsentRecord) × (latest prims g rs ≡ some x)

  HasLatest-cons :
      (g : Codes) (r : ConsentRecord) (rs : List ConsentRecord) (a : ConsentAction)
      → r.body.action ≡ a
      → or_else (grantor_of a (prims.to_lower r.body.grantor)) (authority prims rs) ≡ some g
      → (authority prims rs ≡ some g → HasLatest g rs)
      → HasLatest g (r ∷ rs)
  unfolding HasLatest latest
  HasLatest-cons g r rs grant f e rest =
      let same : prims.to_lower r.body.grantor ≡ g = cc in
      let own : governs prims g r ≡ true =
        subst (λ y. governs prims y r ≡ true) same (own_grant r f) in
      rw own (latest_of-own r (latest prims g rs))
  HasLatest-cons g r rs revoke f e rest =
      let (x, later) = rest e in
      latest_of-some (if governs prims g r then some r else none) (latest prims g rs) x later
  HasLatest-cons g r rs (unknown_action text) f e rest =
      let (x, later) = rest e in
      latest_of-some (if governs prims g r then some r else none) (latest prims g rs) x later

  -- where there is an authority it has a latest record
  authority-HasLatest :
      (g : Codes) (rs : List ConsentRecord) → authority prims rs ≡ some g → HasLatest g rs
  unfolding authority HasLatest
  authority-HasLatest g [] e = absurd cc
  authority-HasLatest g (r ∷ rs) e =
      HasLatest-cons g r rs r.body.action refl e (authority-HasLatest g rs)

  -- a record that is no grant does not establish an authority
  ruled_skip :
      (now : ℕ) (r : ConsentRecord) (rs : List ConsentRecord) (o : Option Codes)
      → authority prims rs ≡ o
      → ruled prims now rs o ≡ ruled prims now (r ∷ rs) o
  unfolding latest HasLatest
  ruled_skip now r rs none f = refl
  ruled_skip now r rs (some g) f =
      let (x, last) = authority-HasLatest g rs f in
      ap (ruling prims now)
        (last ∙ sym (ap (latest_of (if governs prims g r then some r else none)) last))

  outcome_settled :
      (now : ℕ) (st : Folded) (g : Codes) (r : ConsentRecord) (o : Option ConsentRecord)
      → outcome now (settled (after g r) g o) ≡ ruling prims now (latest_of (some r) o)
  unfolding after
  outcome_settled now st g r none = status_after now g r r.body.action refl
  outcome_settled now st g r (some x) = status_after now g x x.body.action refl

  -- the first grant establishes its grantor
  fold_grant :
      (now : ℕ) (r : ConsentRecord) (rs : List ConsentRecord)
      → r.body.action ≡ grant
      → outcome now (fold_records prims (step_action prims (start prims) r grant) rs)
        ≡ ruled prims now (r ∷ rs) (some (prims.to_lower r.body.grantor))
  unfolding latest after after_action
  fold_grant now r rs e =
      let g = prims.to_lower r.body.grantor in
      let own : codes_eq g g ≡ true = (codes_eq_iff g g).1 refl in
      let begun : step_action prims (start prims) r grant ≡ after g r = rw (e, own) refl in
      ap (λ st. outcome now (fold_records prims st rs)) begun
      ∙ ap (outcome now) (fold_after g (after g r) rs (after-establishing g r r.body.action))
      ∙ outcome_settled now (start prims) g r (latest prims g rs)
      ∙ ap (λ b. ruling prims now (latest_of (if b then some r else none) (latest prims g rs)))
          (sym (own_grant r e))

  fold_step :
      (now : ℕ) (r : ConsentRecord) (rs : List ConsentRecord) (a : ConsentAction)
      → r.body.action ≡ a
      → outcome now (fold_records prims (start prims) rs) ≡ ruling_of prims now rs
      → outcome now (fold_records prims (step_action prims (start prims) r a) rs)
        ≡ ruled prims now
            (r ∷ rs)
            (or_else (grantor_of a (prims.to_lower r.body.grantor)) (authority prims rs))
  fold_step now r rs grant e rest = fold_grant now r rs e
  fold_step now r rs revoke e rest = rest ∙ ruled_skip now r rs (authority prims rs) refl
  fold_step now r rs (unknown_action text) e rest =
      rest ∙ ruled_skip now r rs (authority prims rs) refl

  -- the loop decides what the description does
  pub fold_status :
      (now : ℕ) (rs : List ConsentRecord)
      → outcome now (fold_records prims (start prims) rs) ≡ ruling_of prims now rs
  unfolding fold_records authority latest
  fold_status now [] = refl
  fold_status now (r ∷ rs) = fold_step now r rs r.body.action refl (fold_status now rs)
