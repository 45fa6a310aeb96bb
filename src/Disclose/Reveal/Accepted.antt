-- ===== src/Disclose/Reveal/Accepted.antt =====
-- What `verifyDisclosedClaim` of src/lib/disclose.ts has established of a reveal that it accepts.
use pathos_dacs_ref.Prelude.{
  ℕ, ◌≤◌, ◌<◌, Bool, true, false, Option, none, some, Codes, codes_eq, codes_eq_iff, length, leb,
  ◌==◌, Result, ok, throw, ◌>>=◌, ◌>>◌, require, >>=-eq-ok, >>-eq-ok, ◌≡◌, refl, arith,
}
use pathos_dacs_ref.Crypto.Hex.{Bytes, hex_to_bytes}
use pathos_dacs_ref.Crypto.Separators.{verify}
use pathos_dacs_ref.Disclose.Merkle.{verify_merkle_path}
use pathos_dacs_ref.Disclose.Reveal.{
  Number, finite, not_finite, not_member, salt_not_hex, salt_malformed, salt_short,
  recompute_failed, key_malformed, key_width, sig_malformed, sig_width, sig_rejected,
  field_too_long, Primitives, DisclosedClaim, VerifyDisclosedOptions, pass, Halt, rejected, thrown,
  settle, min_salt_bytes, is_hex_text, or_halt, before, in_scope, check_config, compute_commitment,
  reveal_preimage_body, check_signature, check_commitment, check_binding, checks,
  verify_disclosed_claim,
}

-- a link of a chain that went on
require-true : {E : Type 0} (b : Bool) (e : E) → require b e ≡ ok tt → b ≡ true
require-true true e h = refl
require-true false e h = absurd cc

or_halt-some {ℓ} :
    {A : Type ℓ} {E : Type 0} (o : Option A) (e : E) (a : A) → or_halt o e ≡ ok a → o ≡ some a
or_halt-some none e a h = absurd cc
or_halt-some (some b) e a h = cc

settle_pass : (r : Result Halt (Unit {0})) → settle r ≡ ok pass → r ≡ ok tt
settle_pass (ok x) h = refl
settle_pass (throw (rejected reason)) h = absurd cc
settle_pass (throw (thrown error)) h = absurd cc

before_finite :
    (now : ℕ) (expiry : Number)
    → before now expiry ≡ true
    → (t : ℕ) × (expiry ≡ finite t) × (now < t)
before_finite now not_finite h = absurd cc
before_finite now (finite t) h = (t, refl, ground arith)

module _ {Claim : Type 0} (prims : Primitives Claim) (d : DisclosedClaim Claim)
    (options : VerifyDisclosedOptions) where
  -- `c` is the commitment that the revealed claim and salt open
  pub record Opened : Type 0 where
    pub salt : Bytes
    pub commitment : Codes
    pub key : Bytes
    pub sig : Bytes
    pub body : Bytes
    pub expiry : ℕ
    pub audience : d.challenge.verifier_id ≡ options.expected_verifier_id
    pub nonce : d.challenge.nonce ≡ options.expected_nonce
    pub scope : in_scope d.challenge.consent_receipt_id options.expected_consent_receipt_id ≡ true
    pub window : d.challenge.expiry ≡ finite expiry
    pub fresh : options.now < expiry
    pub salted : hex_to_bytes d.salt ≡ some salt
    pub floor : min_salt_bytes ≤ length salt
    pub opens : compute_commitment prims d.salt d.claim ≡ some commitment
    pub member :
        verify_merkle_path prims.sha256 prims.to_lower commitment d.merkle_path options.signed_root
        ≡ true
    pub keyed : hex_to_bytes options.presentation_pub_key ≡ some key
    pub key_bytes : length key ≡ 32
    pub signed : hex_to_bytes d.reveal_sig ≡ some sig
    pub sig_bytes : length sig ≡ 64
    pub bound : reveal_preimage_body prims d.challenge commitment ≡ some body
    pub verifies : verify prims.ed25519 "dacs-x-claim-reveal:v1:" sig body key none ≡ true

  Bound : Type 0
  Bound =
      (codes_eq d.challenge.verifier_id options.expected_verifier_id ≡ true)
      × (codes_eq d.challenge.nonce options.expected_nonce ≡ true)
      × (in_scope d.challenge.consent_receipt_id options.expected_consent_receipt_id ≡ true)
      × (before options.now d.challenge.expiry ≡ true)

  binding_parts : check_binding prims d.challenge options ≡ ok tt → Bound
  unfolding check_binding Bound
  binding_parts h = ground arith

  Committed : Codes → Type 0
  Committed c =
      (salt : Bytes) × (hex_to_bytes d.salt ≡ some salt)
      × (min_salt_bytes ≤ length salt)
      × (compute_commitment prims d.salt d.claim ≡ some c)
      × (verify_merkle_path prims.sha256 prims.to_lower c d.merkle_path options.signed_root ≡ true)

  commitment_parts : (c : Codes) → check_commitment prims d options.signed_root ≡ ok c → Committed c
  unfolding check_commitment Committed
  commitment_parts c h =
      salted (hex_to_bytes d.salt) (compute_commitment prims d.salt d.claim) refl refl
        (>>-eq-ok (require (is_hex_text d.salt) (rejected salt_not_hex))
          (salted_rest (hex_to_bytes d.salt) (compute_commitment prims d.salt d.claim)) h).1
    where
      rest : Codes → Result Halt Codes
      rest r = do
        require (verify_merkle_path prims.sha256 prims.to_lower r d.merkle_path options.signed_root)
            (rejected not_member)
        ok r

      salted_rest : Option Bytes → Option Codes → Result Halt Codes
      salted_rest o r = do
        salt_bytes ← or_halt o (rejected salt_malformed)
        require (leb min_salt_bytes (length salt_bytes)) (rejected salt_short)
        recomputed ← or_halt r (rejected recompute_failed)
        rest recomputed

      salted :
          (o : Option Bytes) (r : Option Codes)
          → hex_to_bytes d.salt ≡ o
          → compute_commitment prims d.salt d.claim ≡ r
          → salted_rest o r ≡ ok c
          → Committed c
      salted none r e f h = absurd cc
      salted (some b) none e f h = absurd (ground arith)
      salted (some b) (some x) e f h = (b, e, ground arith, ground arith, ground arith)

  Signed : Codes → Type 0
  Signed c =
      (key : Bytes) × (hex_to_bytes options.presentation_pub_key ≡ some key)
      × (length key ≡ 32)
      × ((sig : Bytes) × (hex_to_bytes d.reveal_sig ≡ some sig)
          × (length sig ≡ 64)
          × ((body : Bytes) × (reveal_preimage_body prims d.challenge c ≡ some body)
              × (verify prims.ed25519 "dacs-x-claim-reveal:v1:" sig body key none ≡ true)))

  signature_parts : (c : Codes) → check_signature prims d options c ≡ ok tt → Signed c
  unfolding check_signature Signed
  signature_parts c h =
      go (hex_to_bytes options.presentation_pub_key) (hex_to_bytes d.reveal_sig)
        (reveal_preimage_body prims d.challenge c) refl refl refl h
    where
      chain : Option Bytes → Option Bytes → Option Bytes → Result Halt (Unit {0})
      chain k s b = do
        key ← or_halt k (rejected key_malformed)
        require (length key == 32) (rejected key_width)
        sig ← or_halt s (rejected sig_malformed)
        require (length sig == 64) (rejected sig_width)
        body ← or_halt b (thrown field_too_long)
        require (verify prims.ed25519 "dacs-x-claim-reveal:v1:" sig body key none)
            (rejected sig_rejected)

      go :
          (k s b : Option Bytes)
          → hex_to_bytes options.presentation_pub_key ≡ k
          → hex_to_bytes d.reveal_sig ≡ s
          → reveal_preimage_body prims d.challenge c ≡ b
          → chain k s b ≡ ok tt
          → Signed c
      go none s b e f g h = absurd cc
      go (some k) none b e f g h = absurd (ground arith)
      go (some k) (some s) none e f g h = absurd (ground arith)
      go (some k) (some s) (some b) e f g h =
          (k, e, ground arith, (s, f, ground arith, (b, g, ground arith)))

  -- A reveal passes only if it is aimed at this verifier, its nonce and its consent scope, its window is
  -- open, its salt has at least 16 bytes, the commitment that its claim and salt open is a member under
  -- the signed root, and the 64 bytes of its signature verify, under the 32 bytes of the presentation
  -- key, over the encoding of the whole challenge and of that commitment.
  pub verify_disclosed_claim-Opened : verify_disclosed_claim prims d options ≡ ok pass → Opened
  unfolding verify_disclosed_claim checks Committed Signed Bound
  verify_disclosed_claim-Opened h =
      let passed : checks prims d options ≡ ok tt =
        settle_pass (checks prims d options)
          (>>-eq-ok
            (check_config options.expected_consent_receipt_id options.allow_unscoped_consent)
            (settle (checks prims d options)) h).1 in
      let (bind, rest) =
        >>-eq-ok (check_binding prims d.challenge options)
          (check_commitment prims d options.signed_root
            >>= (λ c. check_signature prims d options c))
          passed in
      let (c, committed, signed) =
        >>=-eq-ok (check_commitment prims d options.signed_root)
          (λ c. check_signature prims d options c) rest in
      let (audience, nonce, scope, window) = binding_parts bind in
      let (t, at, fresh) = before_finite options.now d.challenge.expiry window in
      let (salt, salted, floor, opens, member) = commitment_parts c committed in
      let (key, keyed, wide_key, (sig, sig_at, wide_sig, (body, bound, verifies))) =
        signature_parts c signed in
      record {
        salt = salt;
        commitment = c;
        key = key;
        sig = sig;
        body = body;
        expiry = t;
        audience = (codes_eq_iff d.challenge.verifier_id options.expected_verifier_id).0 audience;
        nonce = (codes_eq_iff d.challenge.nonce options.expected_nonce).0 nonce;
        scope = scope;
        window = at;
        fresh = fresh;
        salted = salted;
        floor = floor;
        opens = opens;
        member = member;
        keyed = keyed;
        key_bytes = wide_key;
        signed = sig_at;
        sig_bytes = wide_sig;
        bound = bound;
        verifies = verifies;
      }
