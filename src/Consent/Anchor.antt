-- ===== src/Consent/Anchor.antt =====
-- `InMemoryConsentAnchor` of src/lib/consent.ts: an append-only list of consent records.
use pathos_dacs_ref.Prelude.{
  Bool, true, false, Option, none, some, List, [], ◌∷◌, ◌++◌, Codes, codes_eq, codes_eq_iff, any,
  All, if◌then◌else◌, Result, ok, throw, ◌≡◌, refl, sym, ap, ◌∙◌, subst, Bool-cases, inl, inr,
  arith,
}
use pathos_dacs_ref.Consent.{ConsentRecord, ConsentPrimitives, verify_consent_record}

-- `seen` holds the ids of the records; `validate_on_append` is set once, by the constructor.
pub record ConsentAnchor : Type 0 where
  pub records : List ConsentRecord
  pub seen : List Codes
  pub validate_on_append : Bool

pub data AnchorError : Type 0 where
  unauthentic not_canonical : AnchorError

-- the constructor
unfoldable pub create : Option Bool → ConsentAnchor
create none = record { records = []; seen = []; validate_on_append = true }
create (some option) = record { records = []; seen = []; validate_on_append = option }

abbrev pub seen_has : Codes → List Codes → Bool
seen_has id seen = any (λ s. codes_eq s id) seen

other_id :
    (id own : Codes) (seen : List Codes)
    → seen_has id seen ≡ false
    → seen_has own seen ≡ true
    → codes_eq own id ≡ false
other_id id own seen u h = elim (Bool-cases (codes_eq own id)) [
  | inl same ↦
      (let e : seen_has id seen ≡ true =
          subst (λ k. seen_has k seen ≡ true) ((codes_eq_iff own id).0 same) h in
        absurd cc)
  | inr apart ↦ apart
]

module _ (prims : ConsentPrimitives) where
  abbrev pub id_of : ConsentRecord → Codes
  id_of r = prims.to_lower r.record_id

  abbrev pub push : ConsentAnchor → ConsentRecord → ConsentAnchor
  push a r = record {
    records = a.records ++ (r ∷ []);
    seen = id_of r ∷ a.seen;
    validate_on_append = a.validate_on_append;
  }

  abbrev pub admit :
      ConsentAnchor → ConsentRecord → Option Bool → Result AnchorError (Codes × ConsentAnchor)
  admit a r none = throw not_canonical
  admit a r (some false) = throw unauthentic
  admit a r (some true) =
      if seen_has (id_of r) a.seen then ok (id_of r, a) else ok (id_of r, push a r)

  -- `append`
  unfoldable pub append : ConsentAnchor → ConsentRecord → Result AnchorError (Codes × ConsentAnchor)
  append a r = admit a r (if a.validate_on_append then verify_consent_record prims r else some true)

  abbrev after_append : ConsentAnchor → Result AnchorError (Codes × ConsentAnchor) → ConsentAnchor
  after_append a (throw e) = a
  after_append a (ok (id, b)) = b

  -- a run of appends; one that throws leaves the anchor as it is
  unfoldable pub append_all : ConsentAnchor → List ConsentRecord → ConsentAnchor
  append_all a [] = a
  append_all a (r ∷ rs) = append_all (after_append a (append a r)) rs

  -- no record of the list has this id
  Apart : Codes → List ConsentRecord → Type 0
  Apart id rs = All (λ r. codes_eq (id_of r) id ≡ false) rs

  pub Distinct : List ConsentRecord → Type 0
  Distinct [] = Unit
  Distinct (r ∷ rs) = All (λ s. codes_eq (id_of r) (id_of s) ≡ false) rs × Distinct rs

  pub record Valid (a : ConsentAnchor) : Type 0 where
    pub authentic :
        a.validate_on_append ≡ true → All (λ r. verify_consent_record prims r ≡ some true) a.records
    pub covered : All (λ r. seen_has (id_of r) a.seen ≡ true) a.records
    pub distinct : Distinct a.records

  All-append {κ} :
      (P : ConsentRecord → Type κ) (rs : List ConsentRecord) (r : ConsentRecord)
      → All P rs
      → P r
      → All P (rs ++ (r ∷ []))
  All-append P [] r h p = (p, tt)
  All-append P (s ∷ rs) r (h, hs) p = (h, All-append P rs r hs p)

  Distinct_append :
      (rs : List ConsentRecord) (r : ConsentRecord)
      → Distinct rs
      → Apart (id_of r) rs
      → Distinct (rs ++ (r ∷ []))
  unfolding Distinct Apart
  Distinct_append [] r h k = (tt, tt)
  Distinct_append (s ∷ rs) r (h, hs) (k, ks) =
      (All-append (λ t. codes_eq (id_of s) (id_of t) ≡ false) rs r h k, Distinct_append rs r hs ks)

  -- an id that was not seen is not that of a record
  unseen-Apart :
      (id : Codes) (seen : List Codes) (rs : List ConsentRecord)
      → seen_has id seen ≡ false
      → All (λ r. seen_has (id_of r) seen ≡ true) rs
      → Apart id rs
  unfolding Apart
  unseen-Apart id seen [] u h = tt
  unseen-Apart id seen (r ∷ rs) u (h, hs) =
      (other_id id (id_of r) seen u h, unseen-Apart id seen rs u hs)

  covered_more :
      (id : Codes) (seen : List Codes) (rs : List ConsentRecord)
      → All (λ r. seen_has (id_of r) seen ≡ true) rs
      → All (λ r. seen_has (id_of r) (id ∷ seen) ≡ true) rs
  covered_more id seen [] h = tt
  covered_more id seen (r ∷ rs) (h, hs) = (ground arith, covered_more id seen rs hs)

  push-Valid :
      (a : ConsentAnchor) (r : ConsentRecord)
      → Valid a
      → (a.validate_on_append ≡ true → verify_consent_record prims r ≡ some true)
      → seen_has (id_of r) a.seen ≡ false
      → Valid (push a r)
  push-Valid a r v authentic u =
      let own : codes_eq (id_of r) (id_of r) ≡ true = (codes_eq_iff (id_of r) (id_of r)).1 refl in
      record {
        authentic = λ on.
            All-append (λ s. verify_consent_record prims s ≡ some true) a.records r (v.authentic on)
              (authentic on);
        covered =
            All-append (λ s. seen_has (id_of s) (id_of r ∷ a.seen) ≡ true) a.records r
              (covered_more (id_of r) a.seen a.records v.covered) (ground arith);
        distinct =
            Distinct_append a.records r v.distinct
              (unseen-Apart (id_of r) a.seen a.records u v.covered);
      }

  admit-Valid :
      (a : ConsentAnchor) (r : ConsentRecord) (o : Option Bool)
      → Valid a
      → (a.validate_on_append ≡ true → verify_consent_record prims r ≡ o)
      → Valid (after_append a (admit a r o))
  admit-Valid a r none v e = v
  admit-Valid a r (some false) v e = v
  admit-Valid a r (some true) v e = elim (Bool-cases (seen_has (id_of r) a.seen)) [
    | inl known ↦ rw known v
    | inr fresh ↦ rw fresh (push-Valid a r v e fresh)
  ]

  append-Valid :
      (a : ConsentAnchor) (r : ConsentRecord) → Valid a → Valid (after_append a (append a r))
  unfolding append
  append-Valid a r v =
      admit-Valid a r (if a.validate_on_append then verify_consent_record prims r else some true) v
        (λ on. rw on refl)

  append_all-keeps :
      (a : ConsentAnchor) (rs : List ConsentRecord) → Valid a → Valid (append_all a rs)
  unfolding append_all
  append_all-keeps a [] v = v
  append_all-keeps a (r ∷ rs) v =
      append_all-keeps (after_append a (append a r)) rs (append-Valid a r v)

  create-Valid : (option : Option Bool) → Valid (create option)
  unfolding create Distinct
  create-Valid none = record { authentic = λ on. tt; covered = tt; distinct = tt }
  create-Valid (some option) = record { authentic = λ on. tt; covered = tt; distinct = tt }

  -- Whatever is appended to a new anchor, and whatever of it is refused: its records are authentic
  -- unless the validation was turned off, the id of each was seen, and no two of them have one id.
  pub append_all-Valid :
      (option : Option Bool) (rs : List ConsentRecord) → Valid (append_all (create option) rs)
  append_all-Valid option rs = append_all-keeps (create option) rs (create-Valid option)

  Admitted : ConsentAnchor → ConsentRecord → Codes → ConsentAnchor → Type 0
  Admitted a r id b =
      (id ≡ id_of r)
      × (b.validate_on_append ≡ a.validate_on_append)
      × (seen_has (id_of r) b.seen ≡ true)

  admit-Admitted :
      (a b : ConsentAnchor) (r : ConsentRecord) (id : Codes) (o : Option Bool)
      → admit a r o ≡ ok (id, b)
      → (o ≡ some true) × Admitted a r id b
  unfolding Admitted
  admit-Admitted a b r id none h = absurd cc
  admit-Admitted a b r id (some false) h = absurd cc
  admit-Admitted a b r id (some true) h = elim (Bool-cases (seen_has (id_of r) a.seen)) [
    | inl known ↦
        (let e : ◌≡◌ {A = Result AnchorError (Codes × ConsentAnchor)} (ok (id_of r, a))
              (ok (id, b)) =
            rw known at h in
          let same : a ≡ b = cc in
          (
            refl,
            (
              cc,
              ap (λ x. x.validate_on_append) (sym same),
              subst (λ x. seen_has (id_of r) x.seen ≡ true) same known,
            ),
          ))
    | inr fresh ↦
        (let e : ◌≡◌ {A = Result AnchorError (Codes × ConsentAnchor)} (ok (id_of r, push a r))
              (ok (id, b)) =
            rw fresh at h in
          let same : push a r ≡ b = cc in
          let own : codes_eq (id_of r) (id_of r) ≡ true =
            (codes_eq_iff (id_of r) (id_of r)).1 refl in
          (
            refl,
            (
              cc,
              ap (λ x. x.validate_on_append) (sym same),
              subst (λ x. seen_has (id_of r) x.seen ≡ true) same (rw own refl),
            ),
          ))
  ]

  -- Appending a record that was appended just before changes nothing, and answers the same id.
  pub append_twice :
      (a b : ConsentAnchor) (r : ConsentRecord) (id : Codes)
      → append a r ≡ ok (id, b)
      → append b r ≡ ok (id, b)
  unfolding append Admitted
  append_twice a b r id h =
      let (passed, (named, option, known)) =
        admit-Admitted a b r id
          (if a.validate_on_append then verify_consent_record prims r else some true) h in
      ap (λ v. admit b r (if v then verify_consent_record prims r else some true)) option
      ∙ ap (admit b r) passed
      ∙ ap (λ t. if t then ok (id_of r, b) else ok (id_of r, push b r)) known
      ∙ ap (λ x. ok (x, b)) (sym named)
