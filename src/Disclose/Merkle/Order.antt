-- ===== src/Disclose/Merkle/Order.antt =====
-- `Array.from(new Set(texts)).sort()` of src/lib/disclose.ts: the members of its result, and that the
-- order in which the texts were given is forgotten.
use pathos_dacs_ref.Prelude.{
  ℕ, zero, suc, true, false, some, List, [], ◌∷◌, Codes, codes_eq, codes_eq_iff, get_elem?, All,
  Memᴰ, ◌≡◌, refl, sym, arith, Bool-cases, inl, inr, ap, ◌∙◌, subst,
}
use mathlib.Core.Bool.{false≢true}
use mathlib.Core.Path.{ap₂}
use pathos_dacs_ref.Disclose.Merkle.{codes_lt, insert, unique_sorted, index_of}

pub insert-All {κ} :
    (P : Codes → Type κ) (s : Codes) (ts : List Codes) → P s → All P ts → All P (insert s ts)
unfolding insert
insert-All P s [] p h = (p, tt)
insert-All P s (t ∷ ts) p (h, hs) = elim (Bool-cases (codes_eq s t)) [
  | inl same ↦ rw same (h, hs)
  | inr apart ↦ elim (Bool-cases (codes_lt s t)) [
    | inl before ↦ rw (apart, before) (p, (h, hs))
    | inr after ↦ rw (apart, after) (h, insert-All P s ts p hs)
  ]
]

pub unique_sorted-All {κ} :
    (P : Codes → Type κ) (ss : List Codes) → All P ss → All P (unique_sorted ss)
unfolding unique_sorted
unique_sorted-All P [] h = tt
unique_sorted-All P (s ∷ ss) (h, hs) =
    insert-All P s (unique_sorted ss) h (unique_sorted-All P ss hs)

Mem_insert : (u s : Codes) (ts : List Codes) → Memᴰ u (s ∷ ts) → Memᴰ u (insert s ts)
unfolding insert
Mem_insert u s [] m = m
Mem_insert u s (t ∷ ts) m = elim (Bool-cases (codes_eq s t)) [
  | inl same ↦
      rw same (elim m [
        | Memᴰ.head e ↦ Memᴰ.head (e ∙ (codes_eq_iff s t).0 same)
        | Memᴰ.tail later ↦ later
      ])
  | inr apart ↦ elim (Bool-cases (codes_lt s t)) [
    | inl before ↦ rw (apart, before) m
    | inr after ↦
        rw (apart, after)
          (elim m [
            | Memᴰ.head e ↦ Memᴰ.tail (Mem_insert u s ts (Memᴰ.head e))
            | Memᴰ.tail later ↦ elim later [
              | Memᴰ.head e ↦ Memᴰ.head e
              | Memᴰ.tail rest ↦ Memᴰ.tail (Mem_insert u s ts (Memᴰ.tail rest))
            ]
          ])
  ]
]

pub Mem_unique_sorted : (u : Codes) (ss : List Codes) → Memᴰ u ss → Memᴰ u (unique_sorted ss)
unfolding unique_sorted
Mem_unique_sorted u [] m = elim m [ ]
Mem_unique_sorted u (s ∷ ss) (Memᴰ.head e) = Mem_insert u s (unique_sorted ss) (Memᴰ.head e)
Mem_unique_sorted u (s ∷ ss) (Memᴰ.tail m) =
    Mem_insert u s (unique_sorted ss) (Memᴰ.tail (Mem_unique_sorted u ss m))

pub index_of-some :
    (u : Codes) (ss : List Codes)
    → Memᴰ u ss
    → (i : ℕ) × (index_of u ss ≡ some i) × (get_elem? ss i ≡ some u)
unfolding index_of
index_of-some u [] m = elim m [ ]
index_of-some u (s ∷ ss) m = elim (Bool-cases (codes_eq u s)) [
  | inl same ↦ (zero, rw same refl, ap some (sym ((codes_eq_iff u s).0 same)))
  | inr apart ↦ elim m [
    | Memᴰ.head e ↦ absurd (ground (arith, codes_eq_iff u s))
    | Memᴰ.tail later ↦
        (let (i, found, at) = index_of-some u ss later in (suc i, rw (apart, found) refl, at))
  ]
]

All-Mem {κ} : (P : Codes → Type κ) (u : Codes) (ts : List Codes) → All P ts → Memᴰ u ts → P u
All-Mem P u [] h m = elim m [ ]
All-Mem P u (t ∷ ts) (h, hs) (Memᴰ.head e) = subst P (sym e) h
All-Mem P u (t ∷ ts) (h, hs) (Memᴰ.tail m) = All-Mem P u ts hs m

Within : List Codes → List Codes → Type 0
Within ss ts = All (λ s. Memᴰ s ts) ss

Within-grow : (t : Codes) (ss ts : List Codes) → Within ss ts → Within ss (t ∷ ts)
unfolding Within
Within-grow t [] ts h = tt
Within-grow t (s ∷ ss) ts (h, hs) = (Memᴰ.tail h, Within-grow t ss ts hs)

Within-refl : (ss : List Codes) → Within ss ss
unfolding Within
Within-refl [] = tt
Within-refl (s ∷ ss) = (Memᴰ.head refl, Within-grow s ss ss (Within-refl ss))

-- nothing is in the result that was not given
unique_sorted-Within : (ss : List Codes) → Within (unique_sorted ss) ss
unfolding Within
unique_sorted-Within ss = unique_sorted-All (λ s. Memᴰ s ss) ss (Within-refl ss)

codes_lt_irrefl : (s : Codes) → codes_lt s s ≡ false
unfolding codes_lt
codes_lt_irrefl [] = refl
codes_lt_irrefl (c ∷ s) = ground (arith, codes_lt_irrefl s)

codes_lt_trans : (r s t : Codes) → codes_lt r s ≡ true → codes_lt s t ≡ true → codes_lt r t ≡ true
unfolding codes_lt
codes_lt_trans [] [] t h k = absurd cc
codes_lt_trans [] (c ∷ s) [] h k = absurd cc
codes_lt_trans [] (c ∷ s) (d ∷ t) h k = refl
codes_lt_trans (b ∷ r) [] t h k = absurd cc
codes_lt_trans (b ∷ r) (c ∷ s) [] h k = absurd cc
codes_lt_trans (b ∷ r) (c ∷ s) (d ∷ t) h k = ground (arith, codes_lt_trans r s t)

codes_lt_total : (s t : Codes) → codes_eq s t ≡ false → codes_lt s t ≡ false → codes_lt t s ≡ true
unfolding codes_lt codes_eq
codes_lt_total [] [] h k = absurd cc
codes_lt_total [] (d ∷ t) h k = absurd cc
codes_lt_total (c ∷ s) [] h k = refl
codes_lt_total (c ∷ s) (d ∷ t) h k = ground (arith, codes_lt_total s t)

Before : Codes → List Codes → Type 0
Before s ts = All (λ t. codes_lt s t ≡ true) ts

IsSorted : List Codes → Type 0
IsSorted [] = Unit
IsSorted (s ∷ ss) = Before s ss × IsSorted ss

Before-trans : (s t : Codes) (us : List Codes) → codes_lt s t ≡ true → Before t us → Before s us
unfolding Before
Before-trans s t [] h k = tt
Before-trans s t (u ∷ us) h (k, ks) = (codes_lt_trans s t u h k, Before-trans s t us h ks)

insert-IsSorted : (s : Codes) (ts : List Codes) → IsSorted ts → IsSorted (insert s ts)
unfolding insert IsSorted Before
insert-IsSorted s [] h = (tt, tt)
insert-IsSorted s (t ∷ ts) (h, hs) = elim (Bool-cases (codes_eq s t)) [
  | inl same ↦ rw same (h, hs)
  | inr apart ↦ elim (Bool-cases (codes_lt s t)) [
    | inl before ↦ rw (apart, before) ((before, Before-trans s t ts before h), (h, hs))
    | inr after ↦
        rw (apart, after)
          (
            insert-All (λ u. codes_lt t u ≡ true) s ts (codes_lt_total s t apart after) h,
            insert-IsSorted s ts hs,
          )
  ]
]

unique_sorted-IsSorted : (ss : List Codes) → IsSorted (unique_sorted ss)
unfolding unique_sorted IsSorted
unique_sorted-IsSorted [] = tt
unique_sorted-IsSorted (s ∷ ss) = insert-IsSorted s (unique_sorted ss) (unique_sorted-IsSorted ss)

-- a member of what comes after `s` is not `s`
Before-Mem :
    (s u : Codes) (ts : List Codes)
    → Before s ts
    → Memᴰ u (s ∷ ts)
    → codes_lt s u ≡ true
    → Memᴰ u ts
Before-Mem s u ts h (Memᴰ.head e) k =
    absurd (false≢true (sym (codes_lt_irrefl s) ∙ subst (λ x. codes_lt s x ≡ true) e k))
Before-Mem s u ts h (Memᴰ.tail m) k = m

Within-drop :
    (s : Codes) (us ss ts : List Codes)
    → Before s us
    → Before s ts
    → Within us (s ∷ ts)
    → Within us ts
unfolding Within Before
Within-drop s [] ss ts h k w = tt
Within-drop s (u ∷ us) ss ts (h, hs) k (w, ws) =
    (Before-Mem s u ts k w h, Within-drop s us ss ts hs k ws)

-- of two sorted lists that hold the same texts, the first ones are the same
heads_same :
    (s t : Codes) (ss ts : List Codes)
    → Before s ss
    → Before t ts
    → Memᴰ s (t ∷ ts)
    → Memᴰ t (s ∷ ss)
    → s ≡ t
unfolding Before
heads_same s t ss ts h k (Memᴰ.head e) n = e
heads_same s t ss ts h k (Memᴰ.tail m) (Memᴰ.head e) = sym e
heads_same s t ss ts h k (Memᴰ.tail m) (Memᴰ.tail n) =
    let below : codes_lt s t ≡ true = All-Mem (λ x. codes_lt s x ≡ true) t ss h n in
    let above : codes_lt t s ≡ true = All-Mem (λ x. codes_lt t x ≡ true) s ts k m in
    absurd (false≢true (sym (codes_lt_irrefl s) ∙ codes_lt_trans s t s below above))

sorted_same :
    (ss ts : List Codes) → IsSorted ss → IsSorted ts → Within ss ts → Within ts ss → ss ≡ ts
unfolding IsSorted Within
sorted_same [] [] h k v w = refl
sorted_same [] (t ∷ ts) h k v (w, ws) = elim w [ ]
sorted_same (s ∷ ss) [] h k (v, vs) w = elim v [ ]
sorted_same (s ∷ ss) (t ∷ ts) (h, hs) (k, ks) (v, vs) (w, ws) =
    let first : s ≡ t = heads_same s t ss ts h k v w in
    let k' : Before s ts = subst (λ x. Before x ts) (sym first) k in
    let rest : ss ≡ ts =
      sorted_same ss ts hs ks
        (Within-drop s ss ss ts h k' (subst (λ x. Within ss (x ∷ ts)) (sym first) vs))
        (Within-drop s ts ts ss k' h ws) in
    ap₂ (λ x xs. x ∷ xs) first rest

Within-Mem : (u : Codes) (ss ts : List Codes) → Within ss ts → Memᴰ u ss → Memᴰ u ts
unfolding Within
Within-Mem u ss ts h m = All-Mem (λ s. Memᴰ s ts) u ss h m

Within-sorted : (ss ts us : List Codes) → Within us ss → Within ss ts → Within us (unique_sorted ts)
unfolding Within
Within-sorted ss ts [] h k = tt
Within-sorted ss ts (u ∷ us) (h, hs) k =
    (Mem_unique_sorted u ts (Within-Mem u ss ts k h), Within-sorted ss ts us hs k)

-- Two lists that hold the same texts have one sorted list.
pub unique_sorted_same :
    (ss ts : List Codes)
    → All (λ s. Memᴰ s ts) ss
    → All (λ t. Memᴰ t ss) ts
    → unique_sorted ss ≡ unique_sorted ts
unfolding Within
unique_sorted_same ss ts v w =
    sorted_same (unique_sorted ss) (unique_sorted ts) (unique_sorted-IsSorted ss)
      (unique_sorted-IsSorted ts)
      (Within-sorted ss ts (unique_sorted ss) (unique_sorted-Within ss) v)
      (Within-sorted ts ss (unique_sorted ts) (unique_sorted-Within ts) w)

-- what is sorted and without duplicates stays as it is
pub unique_sorted_twice : (ss : List Codes) → unique_sorted (unique_sorted ss) ≡ unique_sorted ss
unfolding Within
unique_sorted_twice ss =
    unique_sorted_same (unique_sorted ss) ss (unique_sorted-Within ss)
      (Within-sorted ss ss ss (Within-refl ss) (Within-refl ss))
