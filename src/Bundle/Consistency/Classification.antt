-- ===== src/Bundle/Consistency/Classification.antt =====
-- When the two copies count as one account, and when one copy stands alone.
use pathos_dacs_ref.Prelude.{
  ap, ◌∙◌, Bool, true, false, Option, none, some, [], ◌≡◌, ◌≢◌, refl, ◌↔◌, arith,
}
use pathos_dacs_ref.Bundle.Consistency.{
  BundleRole, buyer, seller, SignatureSetClass, full, single, invalid, Copy, Divergence, Rejected,
  unified, Standing, missing, dropped, stands, classed, standing, rejection, lone, compared, judge,
  bundle_consistency_v1, canonical_divergence_v1,
}
use pathos_dacs_ref.Bundle.Consistency.Agreement.{Consistent, canonical_divergence_iff}

-- A copy was given for a role, and the classifier did not find its signatures invalid.
abbrev pub Valid :
    (Copy → BundleRole → SignatureSetClass) → BundleRole → Option Copy → Copy → Type 0
Valid classify role o x = (o ≡ some x) × (classify x role ≢ invalid)

-- The two valid copies that agree, if the verdict is `unified`.
abbrev pub Unified : (Copy → BundleRole → SignatureSetClass) → Option Copy → Option Copy → Type 0
Unified classify b s =
    (a : Copy) × (c : Copy) × Valid classify buyer b a × Valid classify seller s c × Consistent a c

classed-same :
    (y x : Copy) (f : Bool) (k : SignatureSetClass)
    → classed y k ≡ stands x f
    → (y ≡ x) × (k ≢ invalid)
classed-same y x f full h = (cc, λ i. absurd cc)
classed-same y x f single h = (cc, λ i. absurd cc)
classed-same y x f invalid h = absurd cc

standing-Valid :
    (classify : Copy → BundleRole → SignatureSetClass) (role : BundleRole) (o : Option Copy)
    (x : Copy) (f : Bool)
    → standing classify role o ≡ stands x f
    → Valid classify role o x
standing-Valid classify role none x f h = absurd cc
standing-Valid classify role (some y) x f h =
    let same = classed-same y x f (classify y role) h in
    (ap some same.0, λ i. same.1 (ap (λ z. classify z role) same.0 ∙ i))

classed-stands :
    (x : Copy) (k : SignatureSetClass) → k ≢ invalid → (f : Bool) × (classed x k ≡ stands x f)
classed-stands x full h = (true, refl)
classed-stands x single h = (false, refl)
classed-stands x invalid h = absurd (h refl)

Valid-standing :
    (classify : Copy → BundleRole → SignatureSetClass) (role : BundleRole) (o : Option Copy)
    (x : Copy)
    → Valid classify role o x
    → (f : Bool) × (standing classify role o ≡ stands x f)
Valid-standing classify role none x (e, v) = absurd cc
Valid-standing classify role (some y) x (e, v) =
    let same : y ≡ x = cc in
    let found = classed-stands x (classify x role) v in
    (found.0, ap (λ z. classed z (classify z role)) same ∙ found.1)

compared-unified : (o : Option Divergence) → compared o ≡ unified → o ≡ none
compared-unified none h = refl
compared-unified (some d) h = cc

lone_apart :
    (role : BundleRole) (x : Copy) (f : Bool) (r : Rejected) → (lone role x f r).0 ≢ unified
unfolding lone
lone_apart role x true r h = cc
lone_apart role x false r h = ground arith

judge-unified :
    (p q : Standing) (r : Rejected)
    → (judge p q r).0 ≡ unified
    → (a : Copy) × (f : Bool) × (c : Copy) × (g : Bool) × (p ≡ stands a f)
      × (q ≡ stands c g)
      × Consistent a c
unfolding judge
judge-unified (stands a f) (stands c g) r h = (
  a,
  f,
  c,
  g,
  refl,
  refl,
  (canonical_divergence_iff a c).0 (compared-unified (canonical_divergence_v1 a c) h),
)
judge-unified (stands a f) missing r h = absurd (lone_apart buyer a f r h)
judge-unified (stands a f) dropped r h = absurd (lone_apart buyer a f r h)
judge-unified missing (stands c g) r h = absurd (lone_apart seller c g r h)
judge-unified dropped (stands c g) r h = absurd (lone_apart seller c g r h)
judge-unified missing missing r h = cc
judge-unified missing dropped r h = cc
judge-unified dropped missing r h = cc
judge-unified dropped dropped r h = cc

unified-judge :
    (p q : Standing) (r : Rejected) (a c : Copy) (f g : Bool)
    → p ≡ stands a f
    → q ≡ stands c g
    → Consistent a c
    → (judge p q r).0 ≡ unified
unfolding judge
unified-judge p q r a c f g ep eq_q h =
    let none_found = (canonical_divergence_iff a c).1 h in rw (ep, eq_q, none_found)

-- `bundleConsistencyV1` gives the verdict "unified" exactly if a buyer's and a seller's copy are
-- given, the classifier finds neither one's signatures invalid, and the two copies are consistent:
-- strictly equal outcomes and, at every phase index, entries that agree or none in either.
pub unified_iff :
    (classify : Copy → BundleRole → SignatureSetClass) (b s : Option Copy)
    → (bundle_consistency_v1 classify b s).0 ≡ unified ↔ Unified classify b s
unfolding bundle_consistency_v1
unified_iff classify b s = (sound, complete)
  where
    rejected : Rejected
    rejected =
        rejection buyer (standing classify buyer b)
          (rejection seller (standing classify seller s) [])

    sound : (bundle_consistency_v1 classify b s).0 ≡ unified → Unified classify b s
    sound h =
        let w = judge-unified (standing classify buyer b) (standing classify seller s) rejected h in
        (
          w.0,
          w.2,
          standing-Valid classify buyer b w.0 w.1 w.4,
          standing-Valid classify seller s w.2 w.3 w.5,
          w.6,
        )

    complete : Unified classify b s → (bundle_consistency_v1 classify b s).0 ≡ unified
    complete w =
        let p = Valid-standing classify buyer b w.0 w.2 in
        let q = Valid-standing classify seller s w.1 w.3 in
        unified-judge (standing classify buyer b) (standing classify seller s) rejected w.0 w.1 p.0
          q.0 p.1 q.1 w.4
