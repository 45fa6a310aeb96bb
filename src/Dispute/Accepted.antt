-- ===== src/Dispute/Accepted.antt =====
-- What a bundle that passes has proved.
use pathos_dacs_ref.Prelude.{
  ℕ, suc, ◌≤◌, String, Codes, codes, Bool, true, false, Option, none, some, List, [], ◌∷◌, ◌≡◌,
  refl, inl, inr, length, All, str_eq, eq_iff, arith, ok, Bool-cases, ltb, ==_iff,
}
use pathos_dacs_ref.Platform.{Platform}
use pathos_dacs_ref.Dispute.{
  Challenge, Disclosure, DisputeEvidenceBundle, DiscloseVerifyResult, ConsentOptions, Layers, Seen,
  VerifyDisputeBundleOptions, DisputeBundleVerifyResult, seen_has, consume_if_absent, hex_floor,
  same_challenge, carries, diverges_from, consumption_key, check_all, burn, consent_options,
  check_challenge, check_divergence, check_first, check_shared, check_root_sig, check_root,
  check_key, check_shape, verify_dispute_bundle,
}

module _ {Claim Ledger : Type 0} (platform : Platform) (layers : Layers Claim Ledger)
    (bundle : DisputeEvidenceBundle Claim Ledger) (options : VerifyDisputeBundleOptions)
    (seen : Seen) (r : DisputeBundleVerifyResult) (after : Seen) where
  -- Each disclosure carries the challenge.
  abbrev pub Carries : Challenge → Disclosure Claim → Type 0
  Carries c d = carries c d.challenge ≡ true

  -- The layer below accepts the disclosure, the presenter being the grantor it expects.
  abbrev pub Consented : ConsentOptions Ledger → Disclosure Claim → Type 0
  Consented o d = (layers.verify_with_consent d o).ok ≡ true

  -- One challenge, fresh and of this resolver, and each disclosure consented to by the presenter.
  pub record Challenged (key root : String) (c : Challenge) : Type 0 where
    pub shared : All (Carries c) bundle.disclosures
    pub audience : c.verifier_id ≡ options.expected_verifier_id
    pub nonce : c.nonce ≡ options.expected_nonce
    pub unguessable : 32 ≤ length (codes c.consent_receipt_id)
    pub consented :
        All (Consented (consent_options platform layers bundle options key root)) bundle.disclosures
    pub consumed :
        after
        ≡ consumption_key platform layers options.expected_verifier_id c.consent_receipt_id c.nonce
          ∷ seen
    pub unused :
        seen_has
          (consumption_key platform layers options.expected_verifier_id c.consent_receipt_id
            c.nonce)
          seen
        ≡ false

  pub record Proven : Type 0 where
    pub key : String
    pub root : String
    pub challenge : Challenge
    pub presenter : bundle.presentation_pub_key ≡ some key
    pub signed : bundle.signed_root ≡ some root
    pub bound :
        layers.root_sig_verifies bundle.root_sig (platform.to_lower root) (platform.to_lower key)
        ≡ some true
    pub challenged : Challenged (platform.to_lower key) root challenge

  check_all-Consented :
      (o : ConsentOptions Ledger) (i : ℕ) (ds : List (Disclosure Claim))
      → (check_all platform layers o i ds).0 ≡ none
      → All (Consented o) ds
  unfolding check_all
  check_all-Consented o i [] h = tt
  check_all-Consented o i (d ∷ ds) h = elim (Bool-cases (layers.verify_with_consent d o).ok) [
    | inl e ↦ (e, check_all-Consented o (suc i) ds (ground arith))
    | inr e ↦ absurd (ground arith)
  ]

  burn_passed :
      (key : Codes) (p : Option ℕ × List DiscloseVerifyResult)
      → burn platform layers key seen p ≡ (r, after)
      → r.ok ≡ true
      → (p.0 ≡ none) × (seen_has key seen ≡ false) × (after ≡ key ∷ seen)
  unfolding burn consume_if_absent
  burn_passed key (some i, results) h p = absurd (ground arith)
  burn_passed key (none, results) h p = (refl, ground arith, ground arith)

  floor_least : (o : Option ℕ) → 32 ≤ hex_floor o
  unfolding hex_floor
  floor_least none = omega arith
  floor_least (some n) = ground arith

  diverges_from-Carries :
      (c : Challenge) (i : ℕ) (ds : List (Disclosure Claim))
      → diverges_from c i ds ≡ none
      → All (Carries c) ds
  unfolding diverges_from
  diverges_from-Carries c i [] h = tt
  diverges_from-Carries c i (d ∷ ds) h = elim (Bool-cases (carries c d.challenge)) [
    | inl e ↦ (e, diverges_from-Carries c (suc i) ds (ground arith))
    | inr e ↦ absurd (ground arith)
  ]

  carries_own : (c : Challenge) → same_challenge c c ≡ true
  carries_own c = ground (
    arith,
    eq_iff c.verifier_id c.verifier_id,
    eq_iff c.consent_receipt_id c.consent_receipt_id,
    eq_iff c.nonce c.nonce,
    ==_iff c.expiry c.expiry,
  )

  -- the key that is consumed, and the verdict on each disclosure
  abbrev key_of : Challenge → Codes
  key_of c =
      consumption_key platform layers options.expected_verifier_id c.consent_receipt_id c.nonce

  abbrev all_checked : (key root : String) → Option ℕ × List DiscloseVerifyResult
  all_checked key root =
      check_all platform layers (consent_options platform layers bundle options key root) 0
        bundle.disclosures

  tests_passed :
      (key root : String) (c : Challenge)
      → check_challenge platform layers bundle options seen key root c ≡ (r, after)
      → r.ok ≡ true
      → (str_eq c.verifier_id options.expected_verifier_id ≡ true)
        × (str_eq c.nonce options.expected_nonce ≡ true)
        × (ltb (length (codes c.consent_receipt_id)) (hex_floor options.min_receipt_id_hex_len)
            ≡ false)
        × (burn platform layers (key_of c) seen (all_checked key root) ≡ (r, after))
  unfolding check_challenge
  tests_passed key root c h p = (ground arith, ground arith, ground arith, ground arith)

  challenge_passed :
      (key root : String) (c : Challenge)
      → All (Carries c) bundle.disclosures
      → check_challenge platform layers bundle options seen key root c ≡ (r, after)
      → r.ok ≡ true
      → Challenged key root c
  challenge_passed key root c s h p =
      let w = tests_passed key root c h p in
      let b = burn_passed (key_of c) (all_checked key root) w.3 p in
      let least = floor_least options.min_receipt_id_hex_len in
      let long = w.2 in
      record {
        shared = s;
        audience = (eq_iff c.verifier_id options.expected_verifier_id).0 w.0;
        nonce = (eq_iff c.nonce options.expected_nonce).0 w.1;
        unguessable = ground (arith, least, long);
        consented =
            check_all-Consented (consent_options platform layers bundle options key root) 0
              bundle.disclosures b.0;
        unused = b.1;
        consumed = b.2;
      }

  divergence_passed :
      (key root : String) (d : Disclosure Claim) (ds : List (Disclosure Claim)) (c : Challenge)
      → bundle.disclosures ≡ d ∷ ds
      → d.challenge ≡ some c
      → (o : Option ℕ) → diverges_from c 1 ds ≡ o
      → check_divergence platform layers bundle options seen key root c o ≡ (r, after)
      → r.ok ≡ true
      → Challenged key root c
  unfolding check_divergence
  divergence_passed key root d ds c e f (some i) n h p = absurd (ground arith)
  divergence_passed key root d ds c e f none n h p =
      challenge_passed key root c (rw (e, f) (carries_own c, diverges_from-Carries c 1 ds n)) h p

  first_passed :
      (key root : String) (d : Disclosure Claim) (ds : List (Disclosure Claim))
      (o : Option Challenge)
      → bundle.disclosures ≡ d ∷ ds
      → d.challenge ≡ o
      → check_first platform layers bundle options seen key root o ds ≡ (r, after)
      → r.ok ≡ true
      → (c : Challenge) × Challenged key root c
  unfolding check_first
  first_passed key root d ds none e f h p = absurd (ground arith)
  first_passed key root d ds (some c) e f h p =
      (c, divergence_passed key root d ds c e f (diverges_from c 1 ds) refl h p)

  shared_passed :
      (key root : String) (ds : List (Disclosure Claim))
      → bundle.disclosures ≡ ds
      → check_shared platform layers bundle options seen key root ds ≡ (r, after)
      → r.ok ≡ true
      → (c : Challenge) × Challenged key root c
  unfolding check_shared
  shared_passed key root [] e h p = absurd (ground arith)
  shared_passed key root (d ∷ ds) e h p = first_passed key root d ds d.challenge e refl h p

  root_sig_passed :
      (key root : String) (o : Option Bool)
      → check_root_sig platform layers bundle options seen key root o ≡ (r, after)
      → r.ok ≡ true
      → (o ≡ some true) × ((c : Challenge) × Challenged key root c)
  unfolding check_root_sig
  root_sig_passed key root none h p = absurd (ground arith)
  root_sig_passed key root (some false) h p = absurd (ground arith)
  root_sig_passed key root (some true) h p =
      (refl, shared_passed key root bundle.disclosures refl h p)

  root_passed :
      (k : String) (o : Option String)
      → bundle.presentation_pub_key ≡ some k
      → bundle.signed_root ≡ o
      → check_root platform layers bundle options seen (platform.to_lower k) o ≡ (r, after)
      → r.ok ≡ true
      → Proven
  unfolding check_root
  root_passed k none e f h p = absurd (ground arith)
  root_passed k (some root) e f h p =
      let key = platform.to_lower k in
      let w =
        root_sig_passed key root
          (layers.root_sig_verifies bundle.root_sig (platform.to_lower root) key) (ground arith)
          p in
      record {
        key = k;
        root = root;
        challenge = w.1.0;
        presenter = e;
        signed = f;
        bound = w.0;
        challenged = w.1.1;
      }

  key_passed :
      (o : Option String)
      → bundle.presentation_pub_key ≡ o
      → check_key platform layers bundle options seen o ≡ (r, after)
      → r.ok ≡ true
      → Proven
  unfolding check_key
  key_passed none e h p = absurd (ground arith)
  key_passed (some k) e h p = root_passed k bundle.signed_root e refl (ground arith) p

  shape_passed :
      (ds : List (Disclosure Claim))
      → check_shape platform layers bundle options seen ds ≡ (r, after)
      → r.ok ≡ true
      → Proven
  unfolding check_shape
  shape_passed [] h p = absurd (ground arith)
  shape_passed (d ∷ ds) h p = key_passed bundle.presentation_pub_key refl h p

  pub verify-shape :
      verify_dispute_bundle platform layers bundle options seen ≡ ok (r, after)
      → check_shape platform layers bundle options seen bundle.disclosures ≡ (r, after)
  unfolding verify_dispute_bundle
  verify-shape h = ground arith

  -- A bundle passes only if its root is signed by its presenter, all its disclosures carry one
  -- challenge, of the expected verifier and nonce, whose scope has at least 32 code points and whose
  -- key was not consumed before and is consumed now, and the consent check accepted each disclosure
  -- with the presenter as the grantor it expects.
  pub verify-Proven :
      verify_dispute_bundle platform layers bundle options seen ≡ ok (r, after)
      → r.ok ≡ true
      → Proven
  verify-Proven h p = shape_passed bundle.disclosures (verify-shape h) p
