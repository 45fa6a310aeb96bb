-- ===== src/Disclose/Merkle.antt =====
-- The Merkle tree of src/lib/disclose.ts over the commitments of a claim set: its root, the audit
-- path of a member, and the check of a path.
pub mod Order
pub mod Membership
pub mod Paths
use pathos_dacs_ref.Prelude.{
  ℕ, zero, suc, ◌+◌, ◌-◌, ◌/◌, ◌%◌, Bool, true, false, ◌&&◌, Option, none, some, List, [], ◌∷◌,
  ◌++◌, Codes, codes_eq, length, get_elem?, leb, ltb, ◌==◌, if◌then◌else◌, map,
}
use pathos_dacs_ref.Crypto.Hex.{Bytes, hex_to_bytes, bytes_to_hex}

-- `side` of a step of an untrusted path
pub data Side : Type 0 where
  left right other : Side

pub record MerklePathStep : Type 0 where
  pub sibling : Codes
  pub side : Side

-- `a < b` of two texts, by their code units
unfoldable pub codes_lt : Codes → Codes → Bool
codes_lt [] [] = false
codes_lt [] (d ∷ t) = true
codes_lt (c ∷ s) [] = false
codes_lt (c ∷ s) (d ∷ t) = let rest = codes_lt s t in if c == d then rest else ltb c d

unfoldable pub insert : Codes → List Codes → List Codes
unfolding codes_lt
insert s [] = s ∷ []
insert s (t ∷ ts) =
    let later = insert s ts in
    if codes_eq s t then t ∷ ts else if codes_lt s t then s ∷ t ∷ ts else t ∷ later

-- `Array.from(new Set(texts)).sort()`
unfoldable pub unique_sorted : List Codes → List Codes
unfolding insert
unique_sorted [] = []
unique_sorted (s ∷ ss) = insert s (unique_sorted ss)

-- `indexOf`
unfoldable pub index_of : Codes → List Codes → Option ℕ
index_of s [] = none
index_of s (t ∷ ts) =
    let later = index_of s ts in
    if codes_eq s t then some zero else elim later [ none ↦ none | some i ↦ some (suc i) ]

-- `if (b.length === 32) b else null`, of bytes that were decoded
abbrev pub of_width : ℕ → Option Bytes → Option Bytes
of_width n none = none
of_width n (some b) = if length b == n then some b else none

-- `decode32`
unfoldable pub decode32 : Codes → Option Bytes
decode32 hex = of_width 32 (hex_to_bytes hex)

abbrev cons : Option Bytes → Option (List Bytes) → Option (List Bytes)
cons (some b) (some bs) = some (b ∷ bs)
cons _ _ = none

abbrev hex_of : Option Bytes → Option Codes
hex_of none = none
hex_of (some b) = some (bytes_to_hex b)

abbrev pub sibling_index : ℕ → ℕ
sibling_index i = if i % 2 == 1 then i - 1 else i + 1

abbrev pub or_self : Bytes → Option Bytes → Bytes
or_self node none = node
or_self node (some sibling) = sibling

abbrev pub side_of : ℕ → Side
side_of i = if i % 2 == 1 then left else right

abbrev step_of : List Bytes → ℕ → Option Bytes → Option MerklePathStep
step_of level i none = none
step_of level i (some node) = some (record {
  sibling = bytes_to_hex (or_self node (get_elem? level (sibling_index i)));
  side = side_of i;
})

abbrev prepend : Option MerklePathStep → Option (List MerklePathStep) → Option (List MerklePathStep)
prepend (some step) (some path) = some (step ∷ path)
prepend _ _ = none

module _ (sha256 : Bytes → Bytes) (to_lower : Codes → Codes) where
  abbrev pub merkle_leaf : Bytes → Bytes
  merkle_leaf commitment = sha256 (0x00 ∷ commitment)

  abbrev pub merkle_parent : Bytes → Bytes → Bytes
  merkle_parent l r = sha256 (0x01 ∷ (l ++ r))

  -- the leaves of decoded commitments; one that is no hex text throws
  unfoldable pub leaves_of : List Codes → Option (List Bytes)
  leaves_of [] = some []
  leaves_of (c ∷ cs) =
      cons (elim (hex_to_bytes c) [ none ↦ none | some b ↦ some (merkle_leaf b) ]) (leaves_of cs)

  abbrev pub canonical : List Codes → List Codes
  canonical commitments = unique_sorted (map to_lower commitments)

  -- `canonicalLeaves`
  abbrev pub canonical_leaves : List Codes → Option (List Bytes)
  canonical_leaves commitments = leaves_of (canonical commitments)

  -- one round of the loop over a level; a last node without a sibling is its own
  unfoldable pub next_level : List Bytes → List Bytes
  next_level [] = []
  next_level (l ∷ []) = merkle_parent l l ∷ []
  next_level (l ∷ r ∷ rest) = merkle_parent l r ∷ next_level rest

  -- `while (level.length > 1)`, on fuel
  unfoldable pub climb : ℕ → List Bytes → Option Bytes
  unfolding next_level
  climb zero level = none
  climb (suc fuel) [] = none
  climb (suc fuel) (node ∷ []) = some node
  climb (suc fuel) (l ∷ r ∷ rest) = climb fuel (next_level (l ∷ r ∷ rest))

  abbrev climbed : Option (List Bytes) → Option Codes
  unfolding climb
  climbed none = none
  climbed (some level) = hex_of (climb (length level) level)

  -- `computeCommitmentRoot`: `none` if it throws
  unfoldable pub compute_commitment_root : List Codes → Option Codes
  unfolding climbed
  compute_commitment_root commitments = climbed (canonical_leaves commitments)

  -- the loop of `buildMerklePath`, on fuel
  unfoldable pub descend : ℕ → List Bytes → ℕ → Option (List MerklePathStep)
  unfolding next_level
  descend zero level i = none
  descend (suc fuel) [] i = some []
  descend (suc fuel) (node ∷ []) i = some []
  descend (suc fuel) (l ∷ r ∷ rest) i =
      prepend (step_of (l ∷ r ∷ rest) i (get_elem? (l ∷ r ∷ rest) i))
        (descend fuel (next_level (l ∷ r ∷ rest)) (i / 2))

  abbrev descended : Option ℕ → Option (List Bytes) → Option (List MerklePathStep)
  unfolding descend
  descended (some i) (some level) = descend (length level) level i
  descended _ _ = none

  -- `buildMerklePath`: `none` if it throws
  unfoldable pub build_merkle_path : List Codes → Codes → Option (List MerklePathStep)
  unfolding descended index_of leaves_of
  build_merkle_path commitments target =
      descended (index_of (to_lower target) (canonical commitments)) (canonical_leaves commitments)

  -- one step of the fold; `none` is the answer false
  abbrev pub fold_step : Side → Bytes → Option Bytes → Option Bytes
  fold_step side running none = none
  fold_step left running (some sibling) = some (merkle_parent sibling running)
  fold_step right running (some sibling) = some (merkle_parent running sibling)
  fold_step other running (some sibling) = none

  unfoldable pub fold_path : Option Bytes → List MerklePathStep → Option Bytes
  fold_path none path = none
  fold_path (some running) [] = some running
  fold_path (some running) (step ∷ path) =
      fold_path (fold_step step.side running (decode32 step.sibling)) path

  abbrev same_root : Option Bytes → Bytes → Bool
  same_root none root = false
  same_root (some running) root =
      codes_eq (to_lower (bytes_to_hex running)) (to_lower (bytes_to_hex root))

  abbrev verify_decoded : Option Bytes → Option Bytes → List MerklePathStep → Bool
  unfolding fold_path
  verify_decoded (some root) (some commitment) path =
      same_root (fold_path (some (merkle_leaf commitment)) path) root
  verify_decoded _ _ path = false

  -- `verifyMerklePath`
  unfoldable pub verify_merkle_path : Codes → List MerklePathStep → Codes → Bool
  unfolding verify_decoded
  verify_merkle_path commitment path root =
      verify_decoded (decode32 root) (decode32 commitment) path
