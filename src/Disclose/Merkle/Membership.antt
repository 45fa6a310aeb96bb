-- ===== src/Disclose/Merkle/Membership.antt =====
-- The commitment sets of src/lib/disclose.ts: the root and the audit paths exist, agree, and do not
-- depend on the order of the commitments.
use pathos_dacs_ref.Prelude.{
  ℕ, ◌<◌, true, some, List, [], ◌∷◌, Codes, length, get_elem?, All, map, Memᴰ, ◌≡◌, refl, ap, ◌∙◌,
  arith,
}
use pathos_dacs_ref.Crypto.Hex.{Bytes, hex_to_bytes, bytes_to_hex}
use pathos_dacs_ref.Disclose.Merkle.{
  MerklePathStep, decode32, merkle_leaf, canonical, compute_commitment_root, build_merkle_path,
  verify_merkle_path,
}
use pathos_dacs_ref.Disclose.Merkle.Order.{
  unique_sorted-All, Mem_unique_sorted, index_of-some, unique_sorted_same,
}
use pathos_dacs_ref.Disclose.Merkle.Paths.{
  Is32, IsHex, decode32-hex, climb-some, climb-Is32, descend-fold, leaves_of-some, accepts,
}

map-All {κ} :
    (P : Codes → Type κ) (f : Codes → Codes) (ss : List Codes)
    → All (λ s. P (f s)) ss
    → All P (map f ss)
map-All P f [] h = tt
map-All P f (s ∷ ss) (h, hs) = (h, map-All P f ss hs)

map-Mem : (f : Codes → Codes) (u : Codes) (ss : List Codes) → Memᴰ u ss → Memᴰ (f u) (map f ss)
map-Mem f u [] m = elim m [ ]
map-Mem f u (s ∷ ss) (Memᴰ.head e) = Memᴰ.head (ap f e)
map-Mem f u (s ∷ ss) (Memᴰ.tail m) = Memᴰ.tail (map-Mem f u ss m)

IsHex-lower :
    (to_lower : Codes → Codes)
    (lower_keeps : (c : Codes) (b : Bytes)
      → hex_to_bytes c ≡ some b
      → hex_to_bytes (to_lower c) ≡ some b)
    (ss : List Codes)
    → All IsHex ss
    → All (λ s. IsHex (to_lower s)) ss
IsHex-lower to_lower lower_keeps [] h = tt
IsHex-lower to_lower lower_keeps (s ∷ ss) ((b, e), hs) =
    ((b, lower_keeps s b e), IsHex-lower to_lower lower_keeps ss hs)

get_elem?-length : (xs : List Bytes) (i : ℕ) (x : Bytes) → get_elem? xs i ≡ some x → 0 < length xs
get_elem?-length [] i x e = absurd cc
get_elem?-length (y ∷ ys) i x e = omega arith

width-decode32 :
    (c : Codes) (b : Bytes) → hex_to_bytes c ≡ some b → length b ≡ 32 → decode32 c ≡ some b
unfolding decode32
width-decode32 c b e l = rw e (ground arith)

-- For every set of commitments that are hexadecimal texts, and every member of it of 32 bytes, the
-- root and the member's audit path are computed, the fuel being enough, and the check accepts the
-- path under the root. The digests are taken to have 32 bytes, and changing a hexadecimal text to
-- lower case to keep its bytes.
pub verify-build_merkle_path :
    (sha256 : Bytes → Bytes) (to_lower : Codes → Codes) (digest : (b : Bytes) → Is32 (sha256 b))
    (lower_keeps : (c : Codes) (b : Bytes)
      → hex_to_bytes c ≡ some b
      → hex_to_bytes (to_lower c) ≡ some b)
    (commitments : List Codes) (target : Codes) (commitment : Bytes)
    → All IsHex commitments
    → Memᴰ target commitments
    → hex_to_bytes target ≡ some commitment
    → length commitment ≡ 32
    → (root : Codes) × (path : List MerklePathStep) × (compute_commitment_root sha256 to_lower
          commitments
        ≡ some root)
      × (build_merkle_path sha256 to_lower commitments target ≡ some path)
      × (verify_merkle_path sha256 to_lower target path root ≡ true)
unfolding compute_commitment_root build_merkle_path
verify-build_merkle_path sha256 to_lower digest lower_keeps commitments target commitment hex member
      e width =
    let lowered : All IsHex (canonical sha256 to_lower commitments) =
      unique_sorted-All IsHex (map to_lower commitments)
        (map-All IsHex to_lower commitments (IsHex-lower to_lower lower_keeps commitments hex)) in
    let (i, found, at) = index_of-some (to_lower target) (canonical sha256 to_lower commitments) (
      Mem_unique_sorted (to_lower target) (map to_lower commitments)
        (map-Mem to_lower target commitments member)) in
    let (level, read, all_32, leaf_at) =
      leaves_of-some sha256 to_lower digest (canonical sha256 to_lower commitments) lowered in
    let own : get_elem? level i ≡ some (merkle_leaf sha256 to_lower commitment) =
      leaf_at i (to_lower target) commitment at (lower_keeps target commitment e) in
    let (root, climbed) =
      climb-some sha256 to_lower digest (length level) level (omega arith)
        (get_elem?-length level i (merkle_leaf sha256 to_lower commitment) own) in
    let (path, walked, folded) =
      descend-fold sha256 to_lower digest (length level) level i
        (merkle_leaf sha256 to_lower commitment) all_32 (omega arith) own in
    (
      bytes_to_hex root,
      path,
      rw (read, climbed) refl,
      rw (found, read) walked,
      accepts sha256 to_lower digest target path commitment root
          (width-decode32 target commitment e width)
          (decode32-hex root
            (climb-Is32 sha256 to_lower digest (length level) level root all_32 climbed))
          (folded ∙ climbed),
    )

-- Two lists of commitments that hold the same texts, apart from case, have the same root: order and
-- repetition are forgotten. Where one throws, so does the other.
pub compute_commitment_root_same :
    (sha256 : Bytes → Bytes) (to_lower : Codes → Codes) (ss ts : List Codes)
    → All (λ s. Memᴰ s (map to_lower ts)) (map to_lower ss)
    → All (λ t. Memᴰ t (map to_lower ss)) (map to_lower ts)
    → compute_commitment_root sha256 to_lower ss ≡ compute_commitment_root sha256 to_lower ts
unfolding compute_commitment_root
compute_commitment_root_same sha256 to_lower ss ts v w =
    rw (unique_sorted_same (map to_lower ss) (map to_lower ts) v w) refl
