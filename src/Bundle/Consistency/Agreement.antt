-- ===== src/Bundle/Consistency/Agreement.antt =====
-- What it means that two copies do not diverge.
use pathos_dacs_ref.Prelude.{
  ℕ, true, Option, none, some, List, [], ◌∷◌, ◌≡◌, refl, ◌↔◌, inl, inr, arith, ◌==◌, if◌then◌else◌,
  Bool-cases, ==_iff,
}
use pathos_dacs_ref.Bundle.Value.{or_null, strict_eq}
use pathos_dacs_ref.Bundle.Consistency.{
  PhaseEntry, Copy, Divergence, Phases, lookup, insert, phases_from, phases_by_index, only_in,
  contradiction, unless_found, first, against, conflict, phases_divergence, canonical_divergence_v1,
  only_in_a, only_in_b,
}

-- Two entries tell the same.
abbrev pub SamePhase : PhaseEntry → PhaseEntry → Type 0
SamePhase a b =
    (strict_eq a.outcome b.outcome ≡ true)
    × (strict_eq (or_null a.error_class) (or_null b.error_class) ≡ true)

-- At one index: both copies lack the phase, or both have it and tell the same.
abbrev pub Agrees : Option PhaseEntry → Option PhaseEntry → Type 0
Agrees none none = Unit
Agrees (some a) (some b) = SamePhase a b
Agrees _ _ = ⊥

abbrev pub Consistent : Copy → Copy → Type 0
Consistent a b =
    (strict_eq a.outcome b.outcome ≡ true)
    × ((i : ℕ) → Agrees (lookup i (phases_by_index a)) (lookup i (phases_by_index b)))

-- a map has each key once
abbrev Unique : Phases → Type 0
Unique [] = Unit
Unique ((i, e) ∷ m) = (lookup i m ≡ none) × Unique m

lookup-insert :
    (i j : ℕ) (e : PhaseEntry) (m : Phases)
    → lookup j (insert i e m) ≡ (if i == j then some e else lookup j m)
unfolding lookup insert
lookup-insert i j e [] = refl
lookup-insert i j e ((k, d) ∷ m) = ground (arith, lookup-insert i j e m)

insert-Unique : (i : ℕ) (e : PhaseEntry) (m : Phases) → Unique m → Unique (insert i e m)
unfolding insert lookup
insert-Unique i e [] u = (refl, tt)
insert-Unique i e ((j, d) ∷ m) (n, u) = elim (Bool-cases (j == i)) [
  | inl h ↦ ground (arith, ==_iff j i)
  | inr h ↦ ground (arith, ==_iff i j, ==_iff j i, lookup-insert i j e m, insert-Unique i e m u)
]

phases_from-Unique :
    (m : Phases) (entries : List (Option PhaseEntry)) → Unique m → Unique (phases_from m entries)
unfolding phases_from
phases_from-Unique m [] u = u
phases_from-Unique m (none ∷ es) u = phases_from-Unique m es u
phases_from-Unique m (some e ∷ es) u =
    phases_from-Unique (insert e.index e m) es (insert-Unique e.index e m u)

phases_by_index-Unique : (copy : Copy) → Unique (phases_by_index copy)
unfolding phases_by_index
phases_by_index-Unique copy = phases_from-Unique [] copy.phase_summary tt

unless_found-none :
    (o : Option PhaseEntry) (d : Divergence) (later : Option Divergence)
    → unless_found o d later ≡ none
    → ¬ (o ≡ none)
unless_found-none none d later h k = cc
unless_found-none (some e) d later h k = cc

unless_found-later :
    (o : Option PhaseEntry) (d : Divergence) (later : Option Divergence)
    → unless_found o d later ≡ none
    → later ≡ none
unless_found-later none d later h = cc
unless_found-later (some e) d later h = h

unless_found-found :
    (o : Option PhaseEntry) (d : Divergence) → ¬ (o ≡ none) → unless_found o d none ≡ none
unless_found-found none d h = absurd (h refl)
unless_found-found (some e) d h = refl

-- A map that `only_in` finds nothing in has no key the other lacks, and conversely.
only_in_sound :
    (report : ℕ → Divergence) (m n : Phases)
    → only_in report m n ≡ none
    → (i : ℕ) → lookup i n ≡ none
    → lookup i m ≡ none
unfolding only_in lookup
only_in_sound report [] n h i k = refl
only_in_sound report ((j, d) ∷ m) n h i k =
    let found = unless_found-none (lookup j n) (report j) (only_in report m n) h in
    let rest =
      only_in_sound report m n (unless_found-later (lookup j n) (report j) (only_in report m n) h) i
        k in
    elim (Bool-cases (j == i)) [
      | inl e ↦ absurd (found (ground (arith, ==_iff j i)))
      | inr e ↦ ground arith
    ]

missing_tail :
    (i j : ℕ) (d : PhaseEntry) (m : Phases) → lookup i ((j, d) ∷ m) ≡ none → lookup i m ≡ none
unfolding lookup
missing_tail i j d m h = ground arith

head_present : (j : ℕ) (d : PhaseEntry) (m : Phases) → ¬ (lookup j ((j, d) ∷ m) ≡ none)
unfolding lookup
head_present j d m h = ground (arith, ==_iff j j)

only_in_complete :
    (report : ℕ → Divergence) (m n : Phases)
    → Unique m
    → ((i : ℕ) → lookup i n ≡ none → lookup i m ≡ none)
    → only_in report m n ≡ none
unfolding only_in lookup
only_in_complete report [] n u w = refl
only_in_complete report ((j, d) ∷ m) n (fresh, u) w =
    let rest = only_in_complete report m n u (λ i k. missing_tail i j d m (w i k)) in
    rw rest (unless_found-found (lookup j n) (report j) (λ k. head_present j d m (w j k)))

-- what `contradiction` finds
contradiction-SamePhase : (i : ℕ) (a b : PhaseEntry) → contradiction i a b ≡ none → SamePhase a b
unfolding contradiction
contradiction-SamePhase i a b h = ground arith

SamePhase-contradiction : (i : ℕ) (a b : PhaseEntry) → SamePhase a b → contradiction i a b ≡ none
unfolding contradiction
SamePhase-contradiction i a b h = ground arith

first-none : (o r : Option Divergence) → first o r ≡ none → (o ≡ none) × (r ≡ none)
first-none none r h = (refl, h)
first-none (some d) r h = cc

against_sound :
    (i : ℕ) (a : PhaseEntry) (o : Option PhaseEntry) (b : PhaseEntry)
    → against i a o ≡ none
    → o ≡ some b
    → SamePhase a b
unfolding against
against_sound i a none b h e = cc
against_sound i a (some c) b h e = let same = contradiction-SamePhase i a c h in ground arith

against_complete :
    (i : ℕ) (a : PhaseEntry) (o : Option PhaseEntry)
    → ((b : PhaseEntry) → o ≡ some b → SamePhase a b)
    → against i a o ≡ none
unfolding against
against_complete i a none h = refl
against_complete i a (some c) h = SamePhase-contradiction i a c (h c refl)

lookup-head : (j : ℕ) (d : PhaseEntry) (m : Phases) → lookup j ((j, d) ∷ m) ≡ some d
unfolding lookup
lookup-head j d m = ground (arith, ==_iff j j)

lookup-tail :
    (i j : ℕ) (d a : PhaseEntry) (m : Phases)
    → lookup j m ≡ none
    → lookup i m ≡ some a
    → lookup i ((j, d) ∷ m) ≡ some a
unfolding lookup
lookup-tail i j d a m fresh h = ground (arith, ==_iff j i)

conflict_sound :
    (m n : Phases)
    → conflict m n ≡ none
    → (i : ℕ) (a b : PhaseEntry) → lookup i m ≡ some a
    → lookup i n ≡ some b
    → SamePhase a b
unfolding conflict lookup
conflict_sound [] n h i a b la lb = cc
conflict_sound ((j, d) ∷ m) n h i a b la lb =
    let both = first-none (against j d (lookup j n)) (conflict m n) h in
    elim (Bool-cases (j == i)) [
      | inl e ↦ ground (arith, ==_iff j i, against_sound j d (lookup j n) b both.0)
      | inr e ↦ conflict_sound m n both.1 i a b (ground arith) lb
    ]

conflict_complete :
    (m n : Phases)
    → Unique m
    → ((i : ℕ) (a b : PhaseEntry) → lookup i m ≡ some a → lookup i n ≡ some b → SamePhase a b)
    → conflict m n ≡ none
unfolding conflict
conflict_complete [] n u w = refl
conflict_complete ((j, d) ∷ m) n (fresh, u) w =
    let here = against_complete j d (lookup j n) (λ b k. w j d b (lookup-head j d m) k) in
    rw here (conflict_complete m n u (λ i a b la lb. w i a b (lookup-tail i j d a m fresh la) lb))

-- all three passes, told as one condition on every index
pairs-Agrees :
    (o r : Option PhaseEntry)
    → (r ≡ none → o ≡ none)
    → (o ≡ none → r ≡ none)
    → ((a b : PhaseEntry) → o ≡ some a → r ≡ some b → SamePhase a b)
    → Agrees o r
pairs-Agrees none none f g h = tt
pairs-Agrees none (some b) f g h = let e = g refl in absurd (cc)
pairs-Agrees (some a) none f g h = let e = f refl in absurd (cc)
pairs-Agrees (some a) (some b) f g h = h a b refl refl

Agrees-missing : (o r : Option PhaseEntry) → Agrees o r → r ≡ none → o ≡ none
Agrees-missing none r h k = refl
Agrees-missing (some a) none h k = absurd h
Agrees-missing (some a) (some b) h k = cc

Agrees-missing_back : (o r : Option PhaseEntry) → Agrees o r → o ≡ none → r ≡ none
Agrees-missing_back none none h k = refl
Agrees-missing_back none (some b) h k = absurd h
Agrees-missing_back (some a) r h k = cc

Agrees-SamePhase :
    (o r : Option PhaseEntry) (a b : PhaseEntry)
    → Agrees o r
    → o ≡ some a
    → r ≡ some b
    → SamePhase a b
Agrees-SamePhase (some c) (some d) a b h k l = ground arith
Agrees-SamePhase none r a b h k l = cc
Agrees-SamePhase (some c) none a b h k l = absurd h

divergence-none :
    (pa pb : Phases)
    → Unique pa
    → Unique pb
    → phases_divergence pa pb ≡ none ↔ ((i : ℕ) → Agrees (lookup i pa) (lookup i pb))
unfolding phases_divergence
divergence-none pa pb ua ub = (sound, complete)
  where
    sound : phases_divergence pa pb ≡ none → (i : ℕ) → Agrees (lookup i pa) (lookup i pb)
    sound h i =
        let p =
          first-none (only_in only_in_a pa pb) (first (only_in only_in_b pb pa) (conflict pa pb))
            h in
        let q = first-none (only_in only_in_b pb pa) (conflict pa pb) p.1 in
        pairs-Agrees (lookup i pa) (lookup i pb) (only_in_sound only_in_a pa pb p.0 i)
          (only_in_sound only_in_b pb pa q.0 i) (conflict_sound pa pb q.1 i)

    complete : ((i : ℕ) → Agrees (lookup i pa) (lookup i pb)) → phases_divergence pa pb ≡ none
    complete h =
        let only_a =
          only_in_complete only_in_a pa pb ua
            (λ i. Agrees-missing (lookup i pa) (lookup i pb) (h i)) in
        let only_b =
          only_in_complete only_in_b pb pa ub
            (λ i. Agrees-missing_back (lookup i pa) (lookup i pb) (h i)) in
        let shared =
          conflict_complete pa pb ua
            (λ i a b. Agrees-SamePhase (lookup i pa) (lookup i pb) a b (h i)) in
        rw (only_a, only_b, shared)

-- `canonicalDivergenceV1` reports nothing exactly if the two copies have strictly equal outcomes
-- and, at every phase index, both lack an entry or both have one, the last of its copy, with
-- strictly equal outcomes and error classes, an undefined error class counting as null.
pub canonical_divergence_iff : (a b : Copy) → canonical_divergence_v1 a b ≡ none ↔ Consistent a b
unfolding canonical_divergence_v1
canonical_divergence_iff a b = (sound, complete)
  where
    phases :
        phases_divergence (phases_by_index a) (phases_by_index b) ≡ none
        ↔ ((i : ℕ) → Agrees (lookup i (phases_by_index a)) (lookup i (phases_by_index b)))
    phases =
        divergence-none (phases_by_index a) (phases_by_index b) (phases_by_index-Unique a)
          (phases_by_index-Unique b)

    sound : canonical_divergence_v1 a b ≡ none → Consistent a b
    sound h = elim (Bool-cases (strict_eq a.outcome b.outcome)) [
      | inl e ↦ (e, phases.0 (ground arith))
      | inr e ↦ ground arith
    ]

    complete : Consistent a b → canonical_divergence_v1 a b ≡ none
    complete h = let rest = phases.1 h.1 in ground (arith, h.0)
