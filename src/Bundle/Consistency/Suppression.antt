-- ===== src/Bundle/Consistency/Suppression.antt =====
-- When the one remaining copy is believed although only its own party signed it.
use pathos_dacs_ref.Prelude.{
  Bool, true, false, Option, none, some, ◌≡◌, ◌≢◌, refl, ap, ◌∙◌, sym, arith,
}
use pathos_dacs_ref.Bundle.Consistency.{
  BundleRole, buyer, seller, SignatureSetClass, full, single, invalid, Copy, Divergence, Rejected,
  one_sided, abort_suppression, Standing, missing, dropped, stands, classed, standing, lone,
  compared, judge, bundle_consistency_v1, canonical_divergence_v1, is_abort,
}

-- what belongs to a role, of a pair of the buyer's and the seller's
abbrev pub of_role {ℓ} : {A : Type ℓ} → BundleRole → A → A → A
of_role buyer b s = b
of_role seller b s = s

abbrev pub other : BundleRole → BundleRole
other buyer = seller
other seller = buyer

-- No copy, or one that is classified invalid.
abbrev pub Fallen : (Copy → BundleRole → SignatureSetClass) → BundleRole → Option Copy → Type 0
Fallen classify role none = Unit
Fallen classify role (some y) = classify y role ≡ invalid

-- A copy of the role, signed by one party alone, that tells of an abort, beside no valid other copy.
abbrev pub Suppressed :
    (Copy → BundleRole → SignatureSetClass) → BundleRole → Option Copy → Option Copy → Type 0
Suppressed classify role b s =
    (x : Copy) × (of_role role b s ≡ some x)
    × (classify x role ≡ single)
    × (is_abort x.outcome ≡ true)
    × Fallen classify (other role) (of_role (other role) b s)

abbrev Down : Standing → Type 0
Down (stands x f) = ⊥
Down missing = Unit
Down dropped = Unit

lone_abort :
    (role r : BundleRole) (x : Copy) (f : Bool) (more : Rejected)
    → (lone role x f more).0 ≡ one_sided r abort_suppression
    → (role ≡ r) × (f ≡ false) × (is_abort x.outcome ≡ true)
unfolding lone
lone_abort role r x true more h = absurd cc
lone_abort role r x false more h = ground arith

compared_apart :
    (o : Option Divergence) (role : BundleRole) → compared o ≢ one_sided role abort_suppression
compared_apart none role h = cc
compared_apart (some d) role h = cc

alone_buyer :
    (role : BundleRole) (x : Copy) (f : Bool) (q : Standing)
    → Down q
    → (buyer ≡ role) × (f ≡ false) × (is_abort x.outcome ≡ true)
    → (y : Copy) × (of_role role (stands x f) q ≡ stands y false)
      × (is_abort y.outcome ≡ true)
      × Down (of_role (other role) (stands x f) q)
alone_buyer buyer x f q d h = (x, ap (stands x) h.1, h.2, d)
alone_buyer seller x f q d h = absurd cc

alone_seller :
    (role : BundleRole) (x : Copy) (f : Bool) (p : Standing)
    → Down p
    → (seller ≡ role) × (f ≡ false) × (is_abort x.outcome ≡ true)
    → (y : Copy) × (of_role role p (stands x f) ≡ stands y false)
      × (is_abort y.outcome ≡ true)
      × Down (of_role (other role) p (stands x f))
alone_seller seller x f p d h = (x, ap (stands x) h.1, h.2, d)
alone_seller buyer x f p d h = absurd cc

judge_abort :
    (p q : Standing) (r : Rejected) (role : BundleRole)
    → (judge p q r).0 ≡ one_sided role abort_suppression
    → (x : Copy) × (of_role role p q ≡ stands x false)
      × (is_abort x.outcome ≡ true)
      × Down (of_role (other role) p q)
unfolding judge
judge_abort (stands a f) (stands c g) r role h =
    absurd (compared_apart (canonical_divergence_v1 a c) role h)
judge_abort (stands a f) missing r role h =
    alone_buyer role a f missing tt (lone_abort buyer role a f r h)
judge_abort (stands a f) dropped r role h =
    alone_buyer role a f dropped tt (lone_abort buyer role a f r h)
judge_abort missing (stands c g) r role h =
    alone_seller role c g missing tt (lone_abort seller role c g r h)
judge_abort dropped (stands c g) r role h =
    alone_seller role c g dropped tt (lone_abort seller role c g r h)
judge_abort missing missing r role h = absurd cc
judge_abort missing dropped r role h = absurd cc
judge_abort dropped missing r role h = absurd cc
judge_abort dropped dropped r role h = absurd cc

classed-single :
    (y x : Copy) (k : SignatureSetClass) → classed y k ≡ stands x false → (y ≡ x) × (k ≡ single)
classed-single y x full h = absurd cc
classed-single y x single h = (cc, refl)
classed-single y x invalid h = absurd cc

standing-single :
    (classify : Copy → BundleRole → SignatureSetClass) (role : BundleRole) (o : Option Copy)
    (x : Copy)
    → standing classify role o ≡ stands x false
    → (o ≡ some x) × (classify x role ≡ single)
standing-single classify role none x h = absurd cc
standing-single classify role (some y) x h =
    let same = classed-single y x (classify y role) h in
    (ap some same.0, ap (λ z. classify z role) (sym same.0) ∙ same.1)

classed-Down : (y : Copy) (k : SignatureSetClass) → Down (classed y k) → k ≡ invalid
classed-Down y full h = absurd h
classed-Down y single h = absurd h
classed-Down y invalid h = refl

standing-Fallen :
    (classify : Copy → BundleRole → SignatureSetClass) (role : BundleRole) (o : Option Copy)
    → Down (standing classify role o)
    → Fallen classify role o
standing-Fallen classify role none h = tt
standing-Fallen classify role (some y) h = classed-Down y (classify y role) h

-- If `bundleConsistencyV1` gives the verdict "one-sided" with standing "abort-suppression", the
-- copy of the role it names was given, is classified as signed by a single party and has an abort
-- outcome, and the copy of the other role is missing or was classified invalid.
pub suppression_backed :
    (classify : Copy → BundleRole → SignatureSetClass) (b s : Option Copy) (role : BundleRole)
    → (bundle_consistency_v1 classify b s).0 ≡ one_sided role abort_suppression
    → Suppressed classify role b s
unfolding bundle_consistency_v1
suppression_backed classify b s buyer h =
    let w = judge_abort (standing classify buyer b) (standing classify seller s) _ buyer h in
    let x = standing-single classify buyer b w.0 w.1 in
    (w.0, x.0, x.1, w.2, standing-Fallen classify seller s w.3)
suppression_backed classify b s seller h =
    let w = judge_abort (standing classify buyer b) (standing classify seller s) _ seller h in
    let x = standing-single classify seller s w.0 w.1 in
    (w.0, x.0, x.1, w.2, standing-Fallen classify buyer b w.3)
