-- ===== src/SealedBid/Binding.antt =====
-- The commitments of src/lib/sealed-bid.ts open to what was committed, and to nothing else.
use pathos_dacs_ref.Prelude.{
  ◌≤◌, ◌<◌, Bool, true, false, not, Option, none, some, [], ◌∷◌, Codes, codes_eq, codes_eq_iff,
  length, All, ltb, ◌==◌, if◌then◌else◌, ◌≡◌, ◌≢◌, ◌⊎◌, inl, inr, refl, sym, ap, ◌∙◌, arith,
  Bool-cases,
}
use mathlib.Core.Bool.{false≢true}
use pathos_dacs_ref.Crypto.Hex.{
  Bytes, IsBytes, hex_to_bytes, bytes_to_hex, hex-bytes, without_prefix, without_prefix-hex,
}
use pathos_dacs_ref.SealedBid.{
  SealedBid, SealedBidCommitment, commitment, Salt, raw, hex, min_salt_bytes,
  build_commitment_preimage, salt_bytes, diff, same_hash, commit_bytes, commit_sealed_bid,
  check_hash, check_salt, verify_reveal,
}

diff-true : (s t : Codes) → diff true s t ≡ true
unfolding diff
diff-true [] t = refl
diff-true (c ∷ s) [] = refl
diff-true (c ∷ s) (d ∷ t) = diff-true s t

-- over texts of one length the loop finds a difference exactly if they differ
diff-codes_eq : (s t : Codes) → length s ≡ length t → diff false s t ≡ not (codes_eq s t)
unfolding diff codes_eq
diff-codes_eq [] [] h = refl
diff-codes_eq [] (d ∷ t) h = absurd (omega arith)
diff-codes_eq (c ∷ s) [] h = absurd (omega arith)
diff-codes_eq (c ∷ s) (d ∷ t) h = elim (Bool-cases (c == d)) [
  | inl same ↦ rw same (diff-codes_eq s t (omega arith))
  | inr apart ↦ rw apart (diff-true s t)
]

same_hash_iff : (s t : Codes) → same_hash s t ≡ true → s ≡ t
unfolding same_hash
same_hash_iff s t h = elim (Bool-cases (length s == length t)) [
  | inl same ↦ ground (arith, diff-codes_eq s t, codes_eq_iff s t)
  | inr apart ↦ absurd (ground arith)
]

same_hash_refl : (s : Codes) → same_hash s s ≡ true
unfolding same_hash
same_hash_refl s = ground (arith, diff-codes_eq s s refl, codes_eq_iff s s)

abbrev NoZero : Bytes → Type 0
NoZero b = All (λ x. 0 < x) b

-- The preimage determines the canonical form of the bid and the salt, since a canonical form has no
-- zero byte.
pub build_commitment_preimage_injective :
    (a b s t : Bytes)
    → All (λ x. 0 < x) a
    → All (λ x. 0 < x) b
    → build_commitment_preimage a s ≡ build_commitment_preimage b t
    → (a ≡ b) × (s ≡ t)
unfolding build_commitment_preimage
build_commitment_preimage_injective [] [] s t h k e = (refl, cc)
build_commitment_preimage_injective [] (y ∷ b) s t h (k, ks) e = absurd (ground arith)
build_commitment_preimage_injective (x ∷ a) [] s t (h, hs) k e = absurd (ground arith)
build_commitment_preimage_injective (x ∷ a) (y ∷ b) s t (h, hs) (k, ks) e =
    let (same, rest) = build_commitment_preimage_injective a b s t hs ks (cc) in (cc, rest)

bytes_to_hex_injective :
    (a b : Bytes) → IsBytes a → IsBytes b → bytes_to_hex a ≡ bytes_to_hex b → a ≡ b
bytes_to_hex_injective a b h k e =
    let same : some a ≡ some b = sym (hex-bytes a h) ∙ ap hex_to_bytes e ∙ hex-bytes b k in cc

module _ {Terms : Type 0} (sha256 : Bytes → Bytes) (to_lower : Codes → Codes)
    (jcs : SealedBid Terms → Option Bytes) (digest : (b : Bytes) → IsBytes (sha256 b))
    (lower_hex : (b : Bytes) → IsBytes b → to_lower (bytes_to_hex b) ≡ bytes_to_hex b) where
  committed_parts :
      (bid : SealedBid Terms) (salt : Bytes) (c : SealedBidCommitment)
      → commit_sealed_bid sha256 to_lower jcs bid salt ≡ some c
      → (bytes : Bytes) × (jcs bid ≡ some bytes)
        × (ltb (length salt) min_salt_bytes ≡ false)
        × (c.bid_hash ≡ bytes_to_hex (sha256 (build_commitment_preimage bytes salt)))
        × (c.salt_hex ≡ bytes_to_hex salt)
  unfolding commit_sealed_bid
  committed_parts bid salt c h = go (jcs bid) refl (ltb (length salt) min_salt_bytes) refl h
    where
      go :
          (o : Option Bytes)
          → jcs bid ≡ o
          → (b : Bool) → ltb (length salt) min_salt_bytes ≡ b
          → (if b then none else commit_bytes sha256 to_lower jcs o salt) ≡ some c
          → (bytes : Bytes) × (jcs bid ≡ some bytes)
            × (ltb (length salt) min_salt_bytes ≡ false)
            × (c.bid_hash ≡ bytes_to_hex (sha256 (build_commitment_preimage bytes salt)))
            × (c.salt_hex ≡ bytes_to_hex salt)
      go o e true f h = absurd cc
      go none e false f h = absurd cc
      go (some bytes) e false f h =
          let made : record {
            bid_hash = bytes_to_hex (sha256 (build_commitment_preimage bytes salt));
            salt_hex = bytes_to_hex salt;
          }
              ≡ c =
            cc in
          (bytes, e, f, sym (ap (λ x. x.bid_hash) made), sym (ap (λ x. x.salt_hex) made))

  -- the hash that is compared with is the hash that was committed
  normal_hash :
      (c : SealedBidCommitment) (b : Bytes)
      → IsBytes b
      → c.bid_hash ≡ bytes_to_hex b
      → to_lower (without_prefix c.bid_hash) ≡ bytes_to_hex b
  normal_hash c b h e =
      ap (λ s. to_lower (without_prefix s)) e ∙ ap to_lower (without_prefix-hex b h) ∙ lower_hex b h

  accepts :
      (c : SealedBidCommitment) (bid : SealedBid Terms) (salt : Bytes) (o : Salt)
      → commit_sealed_bid sha256 to_lower jcs bid salt ≡ some c
      → salt_bytes o ≡ some salt
      → verify_reveal sha256 to_lower jcs (commitment c) bid o ≡ true
  unfolding verify_reveal
  accepts c bid salt o h s =
      let (bytes, e, floor, hashed, _) = committed_parts bid salt c h in
      let preimage : Bytes = build_commitment_preimage bytes salt in
      rw (normal_hash c (sha256 preimage) (digest preimage) hashed, s, floor, e)
        (same_hash_refl (bytes_to_hex (sha256 preimage)))

  -- What was committed can be revealed: the bid is accepted with its salt, as bytes and as the
  -- text that the commitment carries. Digests are taken to be bytes, and lower case to keep the texts
  -- that bytes are written as.
  pub verify_reveal-commit :
      (bid : SealedBid Terms) (salt : Bytes) (c : SealedBidCommitment)
      → IsBytes salt
      → commit_sealed_bid sha256 to_lower jcs bid salt ≡ some c
      → (verify_reveal sha256 to_lower jcs (commitment c) bid (raw salt) ≡ true)
        × (verify_reveal sha256 to_lower jcs (commitment c) bid (hex c.salt_hex) ≡ true)
  verify_reveal-commit bid salt c h e =
      let (_, _, _, _, text) = committed_parts bid salt c e in
      (
        accepts c bid salt (raw salt) e refl,
        accepts c bid salt (hex c.salt_hex) e (ap hex_to_bytes text ∙ hex-bytes salt h),
      )

  -- two inputs of one digest
  pub Collision : Type 0
  Collision = (a : Bytes) × (b : Bytes) × (a ≢ b) × (sha256 a ≡ sha256 b)

  -- the bid has the canonical form of the committed one, and the salt is the committed one
  abbrev pub Same : SealedBid Terms → Bytes → SealedBid Terms → Salt → Type 0
  Same bid salt revealed o =
      (bytes : Bytes) × (jcs bid ≡ some bytes)
      × (jcs revealed ≡ some bytes)
      × (salt_bytes o ≡ some salt)

  revealed_parts :
      (committed : Codes) (revealed : SealedBid Terms) (o : Option Bytes)
      → check_salt sha256 to_lower jcs committed revealed o ≡ true
      → (salt : Bytes) × (o ≡ some salt)
        × (min_salt_bytes ≤ length salt)
        × ((bytes : Bytes) × (jcs revealed ≡ some bytes)
            × (bytes_to_hex (sha256 (build_commitment_preimage bytes salt)) ≡ committed))
  unfolding check_salt
  revealed_parts committed revealed none h = absurd cc
  revealed_parts committed revealed (some salt) h =
      go (jcs revealed) refl (ltb (length salt) min_salt_bytes) refl h
    where
      go :
          (p : Option Bytes)
          → jcs revealed ≡ p
          → (b : Bool) → ltb (length salt) min_salt_bytes ≡ b
          → (if b then false else check_hash sha256 to_lower jcs committed p salt) ≡ true
          → (s : Bytes) × (some salt ≡ some s)
            × (min_salt_bytes ≤ length s)
            × ((bytes : Bytes) × (jcs revealed ≡ some bytes)
                × (bytes_to_hex (sha256 (build_commitment_preimage bytes s)) ≡ committed))
      go p e true f h = absurd cc
      go none e false f h = absurd cc
      go (some bytes) e false f h = (
        salt,
        refl,
        ground arith,
        (
          bytes,
          e,
          same_hash_iff (bytes_to_hex (sha256 (build_commitment_preimage bytes salt))) committed h,
        ),
      )

  -- A reveal that is accepted under a commitment opens it to the committed bid, up to its canonical
  -- form, with the committed salt, or two inputs with one digest have been found. Canonical forms are
  -- taken to have no zero byte, digests to be bytes, and lower case to keep the texts that bytes are
  -- written as.
  pub verify_reveal-Same :
      (no_zero : (b : SealedBid Terms) (bytes : Bytes)
        → jcs b ≡ some bytes
        → All (λ x. 0 < x) bytes)
      (bid revealed : SealedBid Terms) (salt : Bytes) (o : Salt) (c : SealedBidCommitment)
      → commit_sealed_bid sha256 to_lower jcs bid salt ≡ some c
      → verify_reveal sha256 to_lower jcs (commitment c) revealed o ≡ true
      → Same bid salt revealed o ⊎ Collision
  unfolding verify_reveal Collision
  verify_reveal-Same no_zero bid revealed salt o c h k =
      let (bytes, e, floor, hashed, _) = committed_parts bid salt c h in
      let p : Bytes = build_commitment_preimage bytes salt in
      let (salt', s, long, (bytes', f, same)) =
        revealed_parts (to_lower (without_prefix c.bid_hash)) revealed (salt_bytes o) k in
      let q : Bytes = build_commitment_preimage bytes' salt' in
      let one_hash : sha256 q ≡ sha256 p =
        bytes_to_hex_injective (sha256 q) (sha256 p) (digest q) (digest p)
          (same ∙ normal_hash c (sha256 p) (digest p) hashed) in
      elim (Bool-cases (codes_eq q p)) [
        | inl equal ↦
            (let (canonical, salts) =
                build_commitment_preimage_injective bytes' bytes salt' salt
                  (no_zero revealed bytes' f) (no_zero bid bytes e) ((codes_eq_iff q p).0 equal) in
              inl (bytes, e, f ∙ ap some canonical, s ∙ ap some salts))
        | inr apart ↦
            inr (q, p, (λ equal. false≢true (sym apart ∙ (codes_eq_iff q p).1 equal)), one_hash)
      ]
