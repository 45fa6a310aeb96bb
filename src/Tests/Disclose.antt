-- ===== src/Tests/Disclose.antt =====
-- src/lib/disclose.ts, and the encodings it stands on, at concrete inputs.
use pathos_dacs_ref.Prelude.{
  true, none, some, List, [], ◌∷◌, ◌++◌, Codes, codes, codes_eq, Memᴰ, ok, ◌≡◌, String, refl, arith,
}
use pathos_dacs_ref.Crypto.Hex.{
  Bytes, hex_to_bytes, bytes_to_hex, hex-bytes, digit_value, without_prefix, byte_pairs, hex_char,
}
use pathos_dacs_ref.Crypto.Separators.{or_empty, build_signed_bytes, verify, assert_known_separator}
use pathos_dacs_ref.Crypto.Separators.PrefixFree.{separator_bound}
use pathos_dacs_ref.Disclose.Encode.{len_delimit, len_prefix, len_delimit_injective}
use pathos_dacs_ref.Disclose.Merkle.{
  fold_path, decode32, MerklePathStep, compute_commitment_root, build_merkle_path,
  verify_merkle_path,
}
use pathos_dacs_ref.Disclose.Merkle.Membership.{
  verify-build_merkle_path, compute_commitment_root_same,
}
use pathos_dacs_ref.Disclose.Reveal.{
  finite, ClaimCommitment, RevealChallenge, DisclosedClaim, VerifyDisclosedOptions, pass,
  compute_commitment, reveal_preimage_body, attest_claim_commitment, produce_reveal,
  verify_disclosed_claim, checks, check_binding, check_commitment, check_signature, check_config,
  is_hex_text,
}
use pathos_dacs_ref.Disclose.Reveal.Produced.{issued}
use pathos_dacs_ref.Disclose.RoundTrip.{disclosure_accepted}
use pathos_dacs_ref.Tests.Primitives.{digest, digest-Is32, key, ed25519, prims, reliable}

hex-bytes_example : hex_to_bytes (bytes_to_hex (0 ∷ 171 ∷ 255 ∷ [])) ≡ some (0 ∷ 171 ∷ 255 ∷ [])
hex-bytes_example = hex-bytes (0 ∷ 171 ∷ 255 ∷ []) (ground arith)

-- a prefix is taken off, and half a byte is an error
hex_read : (hex_to_bytes (codes "0xAb") ≡ some (171 ∷ [])) × (hex_to_bytes (codes "abc") ≡ none)
unfolding hex_to_bytes without_prefix byte_pairs digit_value
hex_read = (refl, refl)

separator_bound_example :
    (◌≡◌ {A = String} "dacs-x-consent:v1:" "dacs-x-consent:v1:")
    × (or_empty (some (5 ∷ [])) ++ (6 ∷ []) ≡ or_empty none ++ (5 ∷ 6 ∷ []))
unfolding build_signed_bytes
separator_bound_example =
    separator_bound "dacs-x-consent:v1:" "dacs-x-consent:v1:" (6 ∷ []) (5 ∷ 6 ∷ []) (some (5 ∷ []))
      none refl refl refl

abbrev pub salt : Bytes
salt = 1 ∷ 2 ∷ 3 ∷ 4 ∷ 5 ∷ 6 ∷ 7 ∷ 8 ∷ 9 ∷ 10 ∷ 11 ∷ 12 ∷ 13 ∷ 14 ∷ 15 ∷ 16 ∷ []

-- the commitments of three claims
abbrev one : Codes
one = bytes_to_hex (digest (1 ∷ []))

abbrev two : Codes
two = bytes_to_hex (digest (2 ∷ []))

abbrev three : Codes
three = bytes_to_hex (digest (3 ∷ []))

-- the set is the same in another order, with a repetition
compute_commitment_root_same_example :
    compute_commitment_root digest (λ s. s) (one ∷ two ∷ three ∷ [])
    ≡ compute_commitment_root digest (λ s. s) (three ∷ one ∷ three ∷ two ∷ [])
compute_commitment_root_same_example =
    compute_commitment_root_same digest (λ s. s) (one ∷ two ∷ three ∷ [])
      (three ∷ one ∷ three ∷ two ∷ [])
      (
        Memᴰ.tail (Memᴰ.head refl),
        (Memᴰ.tail (Memᴰ.tail (Memᴰ.tail (Memᴰ.head refl))), (Memᴰ.head refl, tt)),
      )
      (
        Memᴰ.tail (Memᴰ.tail (Memᴰ.head refl)),
        (
          Memᴰ.head refl,
          (Memᴰ.tail (Memᴰ.tail (Memᴰ.head refl)), (Memᴰ.tail (Memᴰ.head refl), tt)),
        ),
      )

len_delimit_injective_example : ◌≡◌ {A = List Bytes} ((1 ∷ []) ∷ [] ∷ []) ((1 ∷ []) ∷ [] ∷ [])
unfolding len_delimit len_prefix
len_delimit_injective_example =
    len_delimit_injective ((1 ∷ []) ∷ [] ∷ []) ((1 ∷ []) ∷ [] ∷ [])
      (0 ∷ 0 ∷ 0 ∷ 1 ∷ 1 ∷ 0 ∷ 0 ∷ 0 ∷ 0 ∷ []) refl refl

-- the root of three commitments: the last one is its own sibling
verify-build_merkle_path_example :
    (root : Codes) × (path : List MerklePathStep) × (compute_commitment_root digest
        (λ s. s)
        (one ∷ two ∷ three ∷ [])
      ≡ some root)
    × (build_merkle_path digest (λ s. s) (one ∷ two ∷ three ∷ []) three ≡ some path)
    × (verify_merkle_path digest (λ s. s) three path root ≡ true)
verify-build_merkle_path_example =
    verify-build_merkle_path digest (λ s. s) digest-Is32 (λ c b e. e) (one ∷ two ∷ three ∷ []) three
      (digest (3 ∷ []))
      (
        (digest (1 ∷ []), hex-bytes (digest (1 ∷ [])) (digest-Is32 (1 ∷ [])).1),
        (
          (digest (2 ∷ []), hex-bytes (digest (2 ∷ [])) (digest-Is32 (2 ∷ [])).1),
          ((digest (3 ∷ []), hex-bytes (digest (3 ∷ [])) (digest-Is32 (3 ∷ [])).1), tt),
        ),
      )
      (Memᴰ.tail (Memᴰ.tail (Memᴰ.head refl)))
      (hex-bytes (digest (3 ∷ [])) (digest-Is32 (3 ∷ [])).1) refl

-- the commitment of the claim under the salt
abbrev pub preimage : Bytes
preimage =
    codes "dacs-x-claim-commit:v1:" ++ (0 ∷ 0 ∷ 0 ∷ 16 ∷ (salt ++ 0 ∷ 0 ∷ 0 ∷ 2 ∷ codes "ok"))

abbrev attested : ClaimCommitment Codes
attested = record {
  claim = codes "ok";
  salt = bytes_to_hex salt;
  commitment = bytes_to_hex (digest preimage);
  verified_by_ref = none;
}

abbrev pub challenge : RevealChallenge
challenge = record {
  verifier_id = codes "v";
  consent_receipt_id = codes "c";
  nonce = codes "n";
  expiry = finite 9;
}

attests : attest_claim_commitment prims (codes "ok") none salt ≡ ok attested
unfolding attest_claim_commitment compute_commitment hex_to_bytes bytes_to_hex hex_char
    without_prefix byte_pairs digit_value len_delimit len_prefix
attests = refl

abbrev pub body : Bytes
body =
    0
      ∷ 0
      ∷ 0
      ∷ 1
      ∷ b'v'
      ∷ 0
      ∷ 0
      ∷ 0
      ∷ 1
      ∷ b'c'
      ∷ 0
      ∷ 0
      ∷ 0
      ∷ 1
      ∷ b'n'
      ∷ 0
      ∷ 0
      ∷ 0
      ∷ 1
      ∷ 9
      ∷ 0
      ∷ 0
      ∷ 0
      ∷ 64
      ∷ bytes_to_hex (digest preimage)
    ++ []

encodes : reveal_preimage_body prims challenge attested.commitment ≡ some body
unfolding reveal_preimage_body len_delimit len_prefix bytes_to_hex hex_char
encodes = refl

disclosure_accepted_example :
    (root : Codes) × (path : List MerklePathStep) × (d : DisclosedClaim Codes)
    × (compute_commitment_root digest (λ s. s) (two ∷ attested.commitment ∷ []) ≡ some root)
    × (build_merkle_path digest (λ s. s) (two ∷ attested.commitment ∷ []) attested.commitment
        ≡ some path)
    × (produce_reveal prims attested path challenge key ≡ ok d)
    × (d.claim ≡ codes "ok")
    × (verify_disclosed_claim prims d (issued prims reliable.digest challenge root key 5) ≡ ok pass)
disclosure_accepted_example =
    disclosure_accepted prims key key reliable (codes "ok") none salt attested
      (two ∷ attested.commitment ∷ []) challenge body 9 5 (ground arith) attests
      (
        (digest (2 ∷ []), hex-bytes (digest (2 ∷ [])) (digest-Is32 (2 ∷ [])).1),
        ((digest preimage, hex-bytes (digest preimage) (digest-Is32 preimage).1), tt),
      )
      (Memᴰ.tail (Memᴰ.head refl)) encodes refl (ground arith)

-- a set of one claim, and its reveal
abbrev pub revealed : DisclosedClaim Codes
revealed = record {
  claim = codes "ok";
  salt = bytes_to_hex salt;
  merkle_path = [];
  challenge = challenge;
  reveal_sig = bytes_to_hex (ed25519.sign (codes "dacs-x-claim-reveal:v1:" ++ body) key);
}

abbrev asks : VerifyDisclosedOptions
asks = issued prims reliable.digest challenge (bytes_to_hex (digest (0 ∷ digest preimage))) key 5

passes : verify_disclosed_claim prims revealed asks ≡ ok pass
unfolding verify_disclosed_claim checks check_binding check_commitment check_signature check_config
    is_hex_text verify_merkle_path fold_path decode32 compute_commitment reveal_preimage_body
    hex_to_bytes bytes_to_hex hex_char without_prefix byte_pairs digit_value len_delimit len_prefix
    codes_eq verify build_signed_bytes assert_known_separator
passes = refl
