-- ===== src/Tests/Primitives.antt =====
-- Concrete digests, signatures and encodings, for the tests of disclosures and of consent.
use pathos_dacs_ref.Prelude.{
  ℕ, ◌+◌, ◌%◌, true, Option, some, List, [], ◌∷◌, ◌++◌, Codes, codes_eq, codes_eq_iff, length, ◌≡◌,
  refl, arith,
}
use pathos_dacs_ref.Crypto.Hex.{Bytes, IsBytes}
use pathos_dacs_ref.Crypto.Separators.{Ed25519}
use pathos_dacs_ref.Disclose.Merkle.Paths.{Is32}
use pathos_dacs_ref.Disclose.Reveal.{finite, not_finite, Primitives}
use pathos_dacs_ref.Disclose.RoundTrip.{Reliable as ReliableDisclosure}
use pathos_dacs_ref.Consent.{ConsentRecordBody, ConsentPrimitives}
use pathos_dacs_ref.Consent.Authentic.{Reliable as ReliableConsent}

abbrev pub total : Bytes → ℕ
total [] = 0
total (b ∷ bs) = b + total bs

abbrev zeros : Bytes
zeros = 0 ∷ 0 ∷ 0 ∷ 0 ∷ 0 ∷ 0 ∷ 0 ∷ 0 ∷ 0 ∷ 0 ∷ []

abbrev pub digest : Bytes → Bytes
digest b = (length b % 256) ∷ (total b % 256) ∷ (zeros ++ (zeros ++ zeros))

zeros-IsBytes : IsBytes zeros
zeros-IsBytes = ground arith

all_append : (a b : Bytes) → IsBytes a → IsBytes b → IsBytes (a ++ b)
all_append [] b h k = k
all_append (x ∷ a) b (h, hs) k = (h, all_append a b hs k)

pub digest-Is32 : (b : Bytes) → Is32 (digest b)
digest-Is32 b = (
  refl,
  (
    omega arith,
    (
      omega arith,
      all_append zeros (zeros ++ zeros) zeros-IsBytes
          (all_append zeros zeros zeros-IsBytes zeros-IsBytes),
    ),
  ),
)

abbrev pub key : Bytes
key = 7 ∷ 9 ∷ (zeros ++ (zeros ++ zeros))

pub key-Is32 : Is32 key
key-Is32 = (
  refl,
  (
    ground arith,
    (
      ground arith,
      all_append zeros (zeros ++ zeros) zeros-IsBytes
          (all_append zeros zeros zeros-IsBytes zeros-IsBytes),
    ),
  ),
)

-- a signature under a key is two digests of the bytes that depend on the key
abbrev pub ed25519 : Ed25519
ed25519 = record {
  sign = λ bytes private_key. digest (private_key ++ bytes) ++ digest bytes;
  verify = λ sig bytes public_key. codes_eq sig (digest (public_key ++ bytes) ++ digest bytes);
}

pub signature_64 : (b : Bytes) → (length (ed25519.sign b key) ≡ 64) × IsBytes (ed25519.sign b key)
signature_64 b =
    (refl, all_append (digest (key ++ b)) (digest b) (digest-Is32 (key ++ b)).1 (digest-Is32 b).1)

pub own : (b : Bytes) → ed25519.verify (ed25519.sign b key) b key ≡ true
own b = (codes_eq_iff (ed25519.sign b key) (ed25519.sign b key)).1 refl

-- a claim is its own canonical form
abbrev pub prims : Primitives Codes
prims = record {
  sha256 = digest;
  utf8 = λ s. s;
  to_lower = λ s. s;
  number_text = λ n. elim n [ finite t ↦ t ∷ [] | not_finite ↦ [] ];
  jcs = λ claim. some claim;
  ed25519 = ed25519;
}

pub reliable : ReliableDisclosure prims key key
reliable = record {
  digest = digest-Is32;
  lower_keeps = λ c b e. e;
  public_32 = key-Is32;
  signature_64 = signature_64;
  own = own;
}

abbrev pub flat : List Codes → Codes
flat [] = []
flat (s ∷ ss) = s ++ 0 ∷ flat ss

abbrev pub body_bytes : ConsentRecordBody → Option Bytes
body_bytes b =
    some (b.consent_receipt_id ++ 0 ∷ (b.grantor ++ 0 ∷ (b.audience ++ 0 ∷ flat b.commitments)))

abbrev pub consent_prims : ConsentPrimitives
consent_prims = record { sha256 = digest; to_lower = λ s. s; jcs = body_bytes; ed25519 = ed25519 }

pub consent_reliable : ReliableConsent consent_prims key key
consent_reliable = record {
  digest = digest-Is32;
  lower_once = λ s. refl;
  lower_hex = λ b h. refl;
  public_32 = refl;
  signature_64 = signature_64;
  own = own;
}
