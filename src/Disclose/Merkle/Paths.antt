-- ===== src/Disclose/Merkle/Paths.antt =====
-- The audit path that src/lib/disclose.ts builds for a member of a commitment set, and its check.
use pathos_dacs_ref.Prelude.{
  ℕ, zero, suc, ◌/◌, ◌≤◌, ◌<◌, true, some, List, [], ◌∷◌, ◌++◌, Codes, codes_eq_iff, length,
  get_elem?, All, ◌≡◌, refl, sym, subst, ap, ◌∙◌, arith, Option-cases, inl, inr,
}
use pathos_dacs_ref.Crypto.Hex.{Bytes, IsBytes, hex_to_bytes, bytes_to_hex, hex-bytes}
use pathos_dacs_ref.Disclose.Merkle.{
  MerklePathStep, decode32, merkle_leaf, merkle_parent, leaves_of, next_level, climb, sibling_index,
  or_self, side_of, descend, fold_step, fold_path, verify_merkle_path,
}

-- a digest
abbrev pub Is32 : Bytes → Type 0
Is32 b = (length b ≡ 32) × IsBytes b

pub decode32-hex : (b : Bytes) → Is32 b → decode32 (bytes_to_hex b) ≡ some b
unfolding decode32
decode32-hex b (width, bytes) = rw (hex-bytes b bytes) (ground arith)

get_elem?-All {ℓ κ} :
    {A : Type ℓ} (P : A → Type κ) (xs : List A) (i : ℕ) (x : A)
    → All P xs
    → get_elem? xs i ≡ some x
    → P x
get_elem?-All P [] i x h e = absurd cc
get_elem?-All P (y ∷ ys) zero x (h, hs) e = subst P (cc) h
get_elem?-All P (y ∷ ys) (suc i) x (h, hs) e = get_elem?-All P ys i x hs e

sibling_index_two : (i : ℕ) → sibling_index (suc (suc i)) ≡ suc (suc (sibling_index i))
sibling_index_two i = ground arith

half_two : (i : ℕ) → suc (suc i) / 2 ≡ suc (i / 2)
half_two i = omega arith

side_of_two : (i : ℕ) → side_of (suc (suc i)) ≡ side_of i
side_of_two i = ground arith

or_self-All {κ} :
    (P : Bytes → Type κ) (level : List Bytes) (node : Bytes) (j : ℕ)
    → All P level
    → P node
    → P (or_self node (get_elem? level j))
or_self-All P level node j h own = elim (Option-cases (get_elem? level j)) [
  | inl missing ↦ rw missing own
  | inr (sibling, found) ↦ rw found (get_elem?-All P level j sibling h found)
]

-- a text of hexadecimal digits
abbrev pub IsHex : Codes → Type 0
IsHex c = (b : Bytes) × (hex_to_bytes c ≡ some b)

module _ (sha256 : Bytes → Bytes) (to_lower : Codes → Codes)
    (digest : (b : Bytes) → Is32 (sha256 b)) where
  next_level-Is32 :
      (level : List Bytes) → All Is32 level → All Is32 (next_level sha256 to_lower level)
  unfolding next_level
  next_level-Is32 [] h = h
  next_level-Is32 (l ∷ []) h = (digest (0x01 ∷ (l ++ l)), tt)
  next_level-Is32 (l ∷ r ∷ rest) (_, (_, h)) = (digest (0x01 ∷ (l ++ r)), next_level-Is32 rest h)

  length-next_level :
      (level : List Bytes) → length (next_level sha256 to_lower level) ≤ length level
  unfolding next_level
  length-next_level [] = omega arith
  length-next_level (l ∷ []) = omega arith
  length-next_level (l ∷ r ∷ rest) = omega (arith, length-next_level rest)

  -- the node above, and the fold step that computes it
  Above : List Bytes → ℕ → Bytes → Type 0
  Above level i node =
      (parent : Bytes) × (get_elem? (next_level sha256 to_lower level) (i / 2) ≡ some parent)
      × (fold_step sha256 to_lower (side_of i) node
            (some (or_self node (get_elem? level (sibling_index i))))
          ≡ some parent)

  above :
      (level : List Bytes) (i : ℕ) (node : Bytes)
      → get_elem? level i ≡ some node
      → Above level i node
  unfolding Above next_level
  above [] i node e = absurd cc
  above (l ∷ []) zero node e = (merkle_parent sha256 to_lower l l, refl, cc)
  above (l ∷ []) (suc i) node e = absurd cc
  above (l ∷ r ∷ rest) zero node e = (merkle_parent sha256 to_lower l r, refl, cc)
  above (l ∷ r ∷ rest) (suc zero) node e = (merkle_parent sha256 to_lower l r, refl, cc)
  above (l ∷ r ∷ rest) (suc (suc i)) node e =
      let (parent, up, folded) = above rest i node e in
      (parent, rw (half_two i) up, rw (sibling_index_two i, side_of_two i) folded)

  pub climb-Is32 :
      (fuel : ℕ) (level : List Bytes) (root : Bytes)
      → All Is32 level
      → climb sha256 to_lower fuel level ≡ some root
      → Is32 root
  unfolding climb
  climb-Is32 zero level root h e = absurd cc
  climb-Is32 (suc fuel) [] root h e = absurd cc
  climb-Is32 (suc fuel) (node ∷ []) root (h, _) e = subst Is32 (cc) h
  climb-Is32 (suc fuel) (l ∷ r ∷ rest) root h e =
      climb-Is32 fuel (next_level sha256 to_lower (l ∷ r ∷ rest)) root
        (next_level-Is32 (l ∷ r ∷ rest) h) e

  -- enough fuel reaches the root
  pub climb-some :
      (fuel : ℕ) (level : List Bytes)
      → length level ≤ fuel
      → 0 < length level
      → (root : Bytes) × (climb sha256 to_lower fuel level ≡ some root)
  unfolding climb
  climb-some zero level enough some_node = absurd (omega arith)
  climb-some (suc fuel) [] enough some_node = absurd (omega arith)
  climb-some (suc fuel) (node ∷ []) enough some_node = (node, refl)
  climb-some (suc fuel) (l ∷ r ∷ rest) enough some_node =
      climb-some fuel (merkle_parent sha256 to_lower l r ∷ next_level sha256 to_lower rest)
        (omega (arith, length-next_level rest)) (omega arith)

  fold_path_step :
      (running s parent : Bytes) (step : MerklePathStep) (path : List MerklePathStep)
      → decode32 step.sibling ≡ some s
      → fold_step sha256 to_lower step.side running (some s) ≡ some parent
      → fold_path sha256 to_lower (some running) (step ∷ path)
        ≡ fold_path sha256 to_lower (some parent) path
  unfolding fold_path
  fold_path_step running s parent step path read folded =
      ap (λ o. fold_path sha256 to_lower o path)
        (ap (λ o. fold_step sha256 to_lower step.side running o) read ∙ folded)

  -- a path of the level's heights, which folds to the level's root
  abbrev pub Audited : ℕ → List Bytes → ℕ → Bytes → Type 0
  Audited fuel level i node =
      (path : List MerklePathStep) × (descend sha256 to_lower fuel level i ≡ some path)
      × (fold_path sha256 to_lower (some node) path ≡ climb sha256 to_lower fuel level)

  pub descend-fold :
      (fuel : ℕ) (level : List Bytes) (i : ℕ) (node : Bytes)
      → All Is32 level
      → length level ≤ fuel
      → get_elem? level i ≡ some node
      → Audited fuel level i node
  unfolding climb descend fold_path Above next_level
  descend-fold zero [] i node h enough e = absurd cc
  descend-fold zero (l ∷ rest) i node h enough e = absurd (omega arith)
  descend-fold (suc fuel) [] i node h enough e = absurd cc
  descend-fold (suc fuel) (l ∷ []) zero node h enough e = ([], refl, sym e)
  descend-fold (suc fuel) (l ∷ []) (suc i) node h enough e = absurd cc
  descend-fold (suc fuel) (l ∷ r ∷ rest) i node h enough e =
      let level : List Bytes = l ∷ r ∷ rest in
      let (parent, up, folded) = above level i node e in
      let (path, walked, same) =
        descend-fold fuel (next_level sha256 to_lower level) (i / 2) parent
          (next_level-Is32 level h) (omega (arith, length-next_level rest)) up in
      let sibling : Bytes = or_self node (get_elem? level (sibling_index i)) in
      let digest_32 : Is32 sibling =
        or_self-All Is32 level node (sibling_index i) h (get_elem?-All Is32 level i node h e) in
      let step : MerklePathStep = record { sibling = bytes_to_hex sibling; side = side_of i } in
      (
        step ∷ path,
        rw (e, walked) refl,
        fold_path_step node sibling parent step path (decode32-hex sibling digest_32) folded ∙ same,
      )

  -- each leaf is at the index of its commitment
  abbrev pub LeafAt : List Codes → List Bytes → Type 0
  LeafAt cs level =
      (i : ℕ) (c : Codes) (b : Bytes)
      → get_elem? cs i ≡ some c
      → hex_to_bytes c ≡ some b
      → get_elem? level i ≡ some (merkle_leaf sha256 to_lower b)

  LeafAt-cons :
      (x : Codes) (xs : List Codes) (b : Bytes) (level : List Bytes)
      → hex_to_bytes x ≡ some b
      → LeafAt xs level
      → LeafAt (x ∷ xs) (merkle_leaf sha256 to_lower b ∷ level)
  LeafAt-cons x xs b level decoded at zero c d e f = cc
  LeafAt-cons x xs b level decoded at (suc i) c d e f = at i c d e f

  pub leaves_of-some :
      (cs : List Codes)
      → All IsHex cs
      → (level : List Bytes) × (leaves_of sha256 to_lower cs ≡ some level)
        × All Is32 level
        × LeafAt cs level
  unfolding leaves_of
  leaves_of-some [] h = ([], refl, tt, λ i c b e d. absurd cc)
  leaves_of-some (x ∷ xs) ((b, decoded), hs) =
      let (level, read, all_32, at) = leaves_of-some xs hs in
      (
        merkle_leaf sha256 to_lower b ∷ level,
        rw (decoded, read) refl,
        (digest (0x00 ∷ b), all_32),
        LeafAt-cons x xs b level decoded at,
      )

  -- `verifyMerklePath` where its three inputs decode
  pub accepts :
      (target : Codes) (path : List MerklePathStep) (commitment root : Bytes)
      → decode32 target ≡ some commitment
      → decode32 (bytes_to_hex root) ≡ some root
      → fold_path sha256 to_lower (some (merkle_leaf sha256 to_lower commitment)) path ≡ some root
      → verify_merkle_path sha256 to_lower target path (bytes_to_hex root) ≡ true
  unfolding verify_merkle_path
  accepts target path commitment root e f g =
      rw (f, e, g)
        ((codes_eq_iff (to_lower (bytes_to_hex root)) (to_lower (bytes_to_hex root))).1 refl)
