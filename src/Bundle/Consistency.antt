-- ===== src/Bundle/Consistency.antt =====
-- src/lib/bundle-consistency-v1.ts: the verdict on the two copies of a session's bundle.
pub mod Agreement
pub mod Classification
pub mod Suppression
use pathos_dacs_ref.Prelude.{
  ℕ, String, Bool, true, false, not, ◌&&◌, ◌||◌, Option, none, some, List, [], ◌∷◌, ◌++◌, str_eq,
  ◌==◌, leb, if◌then◌else◌,
}
use pathos_dacs_ref.Bundle.Value.{Value, text, composite, or_null, strict_eq}

pub data BundleRole : Type 0 where
  buyer seller : BundleRole

pub data SignatureSetClass : Type 0 where
  full single invalid : SignatureSetClass

pub data OneSidedStanding : Type 0 where
  full_signatures abort_suppression : OneSidedStanding

-- an entry of `phaseSummary`: an object with a numeric index
pub record PhaseEntry : Type 0 where
  pub index : ℕ
  pub outcome : Value
  pub error_class : Value

-- A copy that is an object. `signatures` is the length of that array, if it is one; an entry of
-- `phaseSummary` is `none` if it is no object or its index is no number.
pub record Copy : Type 0 where
  pub outcome : Value
  pub signatures : Option ℕ
  pub phase_summary : List (Option PhaseEntry)

pub data Divergence : Type 0 where
  outcome_contradiction : Divergence
  only_in_a only_in_b phase_outcome phase_error_class : ℕ → Divergence

pub data RejectReason : Type 0 where
  classified_invalid single_without_abort : RejectReason

abbrev pub Rejected : Type 0
Rejected = List (BundleRole × RejectReason)

pub data Verdict : Type 0 where
  absent unified : Verdict
  one_sided : BundleRole → OneSidedStanding → Verdict
  divergent : Divergence → Verdict

-- `structuralSignatureClass`
unfoldable pub structural_signature_class : Copy → SignatureSetClass
structural_signature_class copy = elim copy.signatures [
  | none ↦ invalid
  | some n ↦ if leb 2 n then full else if n == 1 then single else invalid
]

-- a `Map` from indices to entries, in the order of insertion
abbrev pub Phases : Type 0
Phases = List (ℕ × PhaseEntry)

unfoldable pub lookup : ℕ → Phases → Option PhaseEntry
lookup i [] = none
lookup i ((j, e) ∷ m) = if j == i then some e else lookup i m

-- `out.set(i, e)`
insert : ℕ → PhaseEntry → Phases → Phases
insert i e [] = (i, e) ∷ []
insert i e ((j, d) ∷ m) = if j == i then (i, e) ∷ m else (j, d) ∷ insert i e m

phases_from : Phases → List (Option PhaseEntry) → Phases
unfolding insert
phases_from m [] = m
phases_from m (none ∷ entries) = phases_from m entries
phases_from m (some e ∷ entries) = phases_from (insert e.index e m) entries

-- `phasesByIndex`
pub phases_by_index : Copy → Phases
unfolding phases_from
phases_by_index copy = phases_from [] copy.phase_summary

abbrev pub unless_found : Option PhaseEntry → Divergence → Option Divergence → Option Divergence
unless_found none d later = some d
unless_found (some _) d later = later

-- the first key of a map that another has not
only_in : (ℕ → Divergence) → Phases → Phases → Option Divergence
unfolding lookup
only_in report [] m = none
only_in report ((i, e) ∷ rest) m =
    let later = only_in report rest m in unless_found (lookup i m) (report i) later

contradiction : ℕ → PhaseEntry → PhaseEntry → Option Divergence
contradiction i a b =
    if not (strict_eq a.outcome b.outcome)
    then some (phase_outcome i)
    else if not (strict_eq (or_null a.error_class) (or_null b.error_class))
    then some (phase_error_class i)
    else none

-- the first of two results that is one
abbrev pub first : Option Divergence → Option Divergence → Option Divergence
first none o = o
first (some d) o = some d

abbrev pub against : ℕ → PhaseEntry → Option PhaseEntry → Option Divergence
unfolding contradiction
against i a none = none
against i a (some b) = contradiction i a b

-- the first shared index whose entries disagree
conflict : Phases → Phases → Option Divergence
unfolding lookup
conflict [] m = none
conflict ((i, a) ∷ rest) m = let later = conflict rest m in first (against i a (lookup i m)) later

phases_divergence : Phases → Phases → Option Divergence
unfolding only_in conflict
phases_divergence pa pb =
    first (only_in only_in_a pa pb) (first (only_in only_in_b pb pa) (conflict pa pb))

-- `canonicalDivergenceV1`
unfoldable pub canonical_divergence_v1 : Copy → Copy → Option Divergence
unfolding phases_by_index phases_divergence
canonical_divergence_v1 a b =
    if not (strict_eq a.outcome b.outcome)
    then some outcome_contradiction
    else phases_divergence (phases_by_index a) (phases_by_index b)

abbrev pub is_abort_text : String → Bool
is_abort_text s = str_eq s "aborted-by-self" || str_eq s "aborted-by-other"

-- `ABORT_OUTCOMES.has(String(outcome))`
abbrev pub is_abort : Value → Bool
is_abort (text s) = is_abort_text s
is_abort (composite s) = is_abort_text s
is_abort _ = false

-- the copies that stand, of one role, with what was rejected
pub data Standing : Type 0 where
  missing dropped : Standing
  stands : Copy → (is_full : Bool) → Standing

abbrev pub classed : Copy → SignatureSetClass → Standing
classed copy invalid = dropped
classed copy full = stands copy true
classed copy single = stands copy false

abbrev pub standing : (Copy → BundleRole → SignatureSetClass) → BundleRole → Option Copy → Standing
standing classify role none = missing
standing classify role (some copy) = classed copy (classify copy role)

abbrev pub rejection : BundleRole → Standing → Rejected → Rejected
rejection role dropped more = (role, classified_invalid) ∷ more
rejection role _ more = more

pub lone : BundleRole → Copy → Bool → Rejected → Verdict × Rejected
lone role copy true rejected = (one_sided role full_signatures, rejected)
lone role copy false rejected =
    if is_abort copy.outcome
    then (one_sided role abort_suppression, rejected)
    else (absent, rejected ++ (role, single_without_abort) ∷ [])

abbrev pub compared : Option Divergence → Verdict
compared none = unified
compared (some d) = divergent d

pub judge : Standing → Standing → Rejected → Verdict × Rejected
unfolding lone canonical_divergence_v1
judge (stands a fa) (stands b fb) rejected = (compared (canonical_divergence_v1 a b), rejected)
judge (stands a fa) missing rejected = lone buyer a fa rejected
judge (stands a fa) dropped rejected = lone buyer a fa rejected
judge missing (stands b fb) rejected = lone seller b fb rejected
judge dropped (stands b fb) rejected = lone seller b fb rejected
judge _ _ rejected = (absent, rejected)

-- `bundleConsistencyV1`
unfoldable pub bundle_consistency_v1 :
    (Copy → BundleRole → SignatureSetClass) → Option Copy → Option Copy → Verdict × Rejected
unfolding judge
bundle_consistency_v1 classify b s =
    let sb = standing classify buyer b in
    let ss = standing classify seller s in judge sb ss (rejection buyer sb (rejection seller ss []))
