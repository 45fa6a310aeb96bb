-- ===== src/SealedBid.antt =====
-- src/lib/sealed-bid.ts: a salted commitment to a bid, and the check of its reveal. A text is the list
-- of its code units.
pub mod Binding
pub mod Roles
use pathos_dacs_ref.Prelude.{
  ℕ, Bool, true, false, not, ◌&&◌, ◌||◌, Option, none, some, List, [], ◌∷◌, ◌++◌, Codes, length,
  leb, ltb, ◌==◌, if◌then◌else◌,
}
use pathos_dacs_ref.Crypto.Hex.{Bytes, hex_to_bytes, bytes_to_hex, without_prefix}

pub record PriceTerm : Type 0 where
  pub amount : Codes
  pub currency : Codes
  pub substrate : Option Codes

-- `terms` is any object.
pub record SealedBid (Terms : Type 0) : Type 0 where
  pub price : PriceTerm
  pub deliverable : Option Codes
  pub terms : Option Terms

-- its version is a constant
pub record SealedBidCommitment : Type 0 where
  pub bid_hash : Codes
  pub salt_hex : Codes

-- the two forms of the arguments of `verifyReveal`
pub data Committed : Type 0 where
  commitment : SealedBidCommitment → Committed
  hash_text : Codes → Committed

pub data Salt : Type 0 where
  raw : Bytes → Salt
  hex : Codes → Salt

-- `MIN_SALT_BYTES`
abbrev pub min_salt_bytes : ℕ
min_salt_bytes = 16

-- `buildCommitmentPreimage`
unfoldable pub build_commitment_preimage : Bytes → Bytes → Bytes
build_commitment_preimage jcs salt = jcs ++ 0x00 ∷ salt

abbrev pub hash_of : Committed → Codes
hash_of (commitment c) = c.bid_hash
hash_of (hash_text s) = s

abbrev pub salt_bytes : Salt → Option Bytes
salt_bytes (raw salt) = some salt
salt_bytes (hex salt) = hex_to_bytes salt

-- the loop of the comparison over texts of one length: whether `diff` is not 0, where the bits in
-- which two units differ are added to it
unfoldable pub diff : Bool → Codes → Codes → Bool
diff acc [] t = acc
diff acc (c ∷ s) [] = acc
diff acc (c ∷ s) (d ∷ t) = diff (acc || not (c == d)) s t

abbrev pub same_hash : Codes → Codes → Bool
unfolding diff
same_hash recomputed committed =
    if not (length recomputed == length committed)
    then false
    else not (diff false recomputed committed)

-- SHA-256, the case map of texts, and `jcsCanonical` of a bid, `none` if it throws
module _ {Terms : Type 0} (sha256 : Bytes → Bytes) (to_lower : Codes → Codes)
    (jcs : SealedBid Terms → Option Bytes) where
  abbrev pub commit_bytes : Option Bytes → Bytes → Option SealedBidCommitment
  commit_bytes none salt = none
  commit_bytes (some bytes) salt = some (record {
    bid_hash = bytes_to_hex (sha256 (build_commitment_preimage bytes salt));
    salt_hex = bytes_to_hex salt;
  })

  -- `commitSealedBid`: `none` if it throws
  unfoldable pub commit_sealed_bid : SealedBid Terms → Bytes → Option SealedBidCommitment
  commit_sealed_bid bid salt =
      if ltb (length salt) min_salt_bytes then none else commit_bytes (jcs bid) salt

  abbrev pub check_hash : Codes → Option Bytes → Bytes → Bool
  unfolding same_hash
  check_hash committed none salt = false
  check_hash committed (some bytes) salt =
      same_hash (bytes_to_hex (sha256 (build_commitment_preimage bytes salt))) committed

  abbrev pub check_salt : Codes → SealedBid Terms → Option Bytes → Bool
  unfolding check_hash
  check_salt committed bid none = false
  check_salt committed bid (some salt) =
      if ltb (length salt) min_salt_bytes then false else check_hash committed (jcs bid) salt

  -- `verifyReveal`
  unfoldable pub verify_reveal : Committed → SealedBid Terms → Salt → Bool
  unfolding check_salt
  verify_reveal c bid salt =
      check_salt (to_lower (without_prefix (hash_of c))) bid (salt_bytes salt)
