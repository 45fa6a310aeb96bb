-- ===== src/Dispute/SingleUse.antt =====
-- A challenge is consumed once, and only by a bundle that passes.
use pathos_dacs_ref.Prelude.{
  ℕ, String, Codes, codes_eq_iff, Bool, true, false, Option, none, some, List, [], ◌∷◌, ◌≡◌, ◌≢◌,
  refl, sym, ap, ◌∙◌, eq_iff, arith, ok, All, inl, inr, Bool-cases,
}
use pathos_dacs_ref.Platform.{Platform}
use pathos_dacs_ref.Dispute.{
  Challenge, Disclosure, DisputeEvidenceBundle, DiscloseVerifyResult, Layers, Seen,
  VerifyDisputeBundleOptions, DisputeBundleVerifyResult, seen_has, consume_if_absent, carries,
  diverges_from, consumption_key, check_all, burn, consent_options, check_challenge,
  check_divergence, check_first, check_shared, check_root_sig, check_root, check_key, check_shape,
  verify_dispute_bundle,
}
use pathos_dacs_ref.Dispute.Accepted.{verify-shape, verify-Proven}

-- What was consumed stays consumed.
abbrev pub Grows : Seen → Seen → Type 0
Grows seen later = (key : Codes) → seen_has key seen ≡ true → seen_has key later ≡ true

same_tuple :
    (c d : Challenge) (o : Option Challenge)
    → carries c o ≡ true
    → carries d o ≡ true
    → (c.verifier_id ≡ d.verifier_id)
      × (c.consent_receipt_id ≡ d.consent_receipt_id)
      × (c.nonce ≡ d.nonce)
same_tuple c d none h k = absurd cc
same_tuple c d (some e) h k =
    let u : (e.verifier_id ≡ c.verifier_id)
        × (e.consent_receipt_id ≡ c.consent_receipt_id)
        × (e.nonce ≡ c.nonce) =
      same_fields e c h in
    let v : (e.verifier_id ≡ d.verifier_id)
        × (e.consent_receipt_id ≡ d.consent_receipt_id)
        × (e.nonce ≡ d.nonce) =
      same_fields e d k in
    (sym u.0 ∙ v.0, sym u.1 ∙ v.1, sym u.2 ∙ v.2)
  where
    same_fields :
        (e c : Challenge)
        → carries c (some e) ≡ true
        → (e.verifier_id ≡ c.verifier_id)
          × (e.consent_receipt_id ≡ c.consent_receipt_id)
          × (e.nonce ≡ c.nonce)
    same_fields e c h = (
      ground (arith, eq_iff e.verifier_id c.verifier_id),
      ground (arith, eq_iff e.consent_receipt_id c.consent_receipt_id),
      ground (arith, eq_iff e.nonce c.nonce),
    )

module _ {Claim Ledger : Type 0} (platform : Platform) (layers : Layers Claim Ledger)
    (bundle : DisputeEvidenceBundle Claim Ledger) where
  shape_inhabited :
      (options : VerifyDisputeBundleOptions) (seen : Seen) (r : DisputeBundleVerifyResult)
      (after : Seen) (ds : List (Disclosure Claim))
      → check_shape platform layers bundle options seen ds ≡ (r, after)
      → r.ok ≡ true
      → ds ≢ []
  unfolding check_shape
  shape_inhabited options seen r after [] h p = absurd (ground arith)
  shape_inhabited options seen r after (d ∷ ds) h p = λ e. cc

  shared_tuple :
      (c d : Challenge) (ds : List (Disclosure Claim))
      → ds ≢ []
      → All (λ x. carries c x.challenge ≡ true) ds
      → All (λ x. carries d x.challenge ≡ true) ds
      → (c.verifier_id ≡ d.verifier_id)
        × (c.consent_receipt_id ≡ d.consent_receipt_id)
        × (c.nonce ≡ d.nonce)
  shared_tuple c d [] n u v = absurd (n refl)
  shared_tuple c d (x ∷ xs) n u v = same_tuple c d x.challenge u.0 v.0

  abbrev key_of : VerifyDisputeBundleOptions → Challenge → Codes
  key_of options c =
      consumption_key platform layers options.expected_verifier_id c.consent_receipt_id c.nonce

  head_taken : (key : Codes) (seen after : Seen) → after ≡ key ∷ seen → seen_has key after ≡ true
  head_taken key seen after e = ground (arith, codes_eq_iff key key)

  clash :
      (options options' : VerifyDisputeBundleOptions) (c d : Challenge) (later : Seen)
      → c.verifier_id ≡ options.expected_verifier_id
      → d.verifier_id ≡ options'.expected_verifier_id
      → (c.verifier_id ≡ d.verifier_id)
        × (c.consent_receipt_id ≡ d.consent_receipt_id)
        × (c.nonce ≡ d.nonce)
      → seen_has (key_of options c) later ≡ true
      → seen_has (key_of options' d) later ≡ false
      → ⊥
  clash options options' c d later a b (v, s, n) taken fresh =
      let vid : options.expected_verifier_id ≡ options'.expected_verifier_id = sym a ∙ v ∙ b in
      let keys : key_of options c ≡ key_of options' d = cc in
      let both : true ≡ false = sym taken ∙ ap (λ k. seen_has k later) keys ∙ fresh in absurd cc

  -- A bundle that passed never passes again, under whatever options, on a store in which what was
  -- consumed stays consumed.
  pub replay_refused :
      (options options' : VerifyDisputeBundleOptions) (seen after later final : Seen)
      (r r' : DisputeBundleVerifyResult)
      → verify_dispute_bundle platform layers bundle options seen ≡ ok (r, after)
      → r.ok ≡ true
      → Grows after later
      → verify_dispute_bundle platform layers bundle options' later ≡ ok (r', final)
      → r'.ok ≡ false
  replay_refused options options' seen after later final r r' h p g h' = elim (Bool-cases r'.ok) [
    | inr e ↦ e
    | inl p' ↦ absurd (twice p')
  ]
    where
      twice : r'.ok ≡ true → ⊥
      twice p' =
          let u = verify-Proven platform layers bundle options seen r after h p in
          let v = verify-Proven platform layers bundle options' later r' final h' p' in
          let inhabited =
            shape_inhabited options seen r after bundle.disclosures
              (verify-shape platform layers bundle options seen r after h) p in
          let same =
            shared_tuple u.challenge v.challenge bundle.disclosures inhabited u.challenged.shared
              v.challenged.shared in
          let fresh = v.challenged.unused in
          let taken =
            g (key_of options u.challenge)
              (head_taken (key_of options u.challenge) seen after u.challenged.consumed) in
          clash options options' u.challenge v.challenge later u.challenged.audience
            v.challenged.audience same taken fresh

  -- rejections, layer by layer
  module _ (options : VerifyDisputeBundleOptions) (seen : Seen) (r : DisputeBundleVerifyResult)
      (after : Seen) (rejected : r.ok ≡ false) where
    burn_kept :
        (key : Codes) (p : Option ℕ × List DiscloseVerifyResult)
        → burn platform layers key seen p ≡ (r, after)
        → after ≡ seen
    unfolding burn consume_if_absent
    burn_kept key (some i, results) h = ground arith
    burn_kept key (none, results) h = ground arith

    challenge_kept :
        (key root : String) (c : Challenge)
        → check_challenge platform layers bundle options seen key root c ≡ (r, after)
        → after ≡ seen
    unfolding check_challenge
    challenge_kept key root c h =
        let last = burn_kept (key_of options c) (
          check_all platform layers (consent_options platform layers bundle options key root) 0
            bundle.disclosures) in
        ground (arith, last)

    divergence_kept :
        (key root : String) (c : Challenge) (o : Option ℕ)
        → check_divergence platform layers bundle options seen key root c o ≡ (r, after)
        → after ≡ seen
    unfolding check_divergence
    divergence_kept key root c none h = challenge_kept key root c h
    divergence_kept key root c (some i) h = ground arith

    first_kept :
        (key root : String) (o : Option Challenge) (ds : List (Disclosure Claim))
        → check_first platform layers bundle options seen key root o ds ≡ (r, after)
        → after ≡ seen
    unfolding check_first
    first_kept key root none ds h = ground arith
    first_kept key root (some c) ds h = divergence_kept key root c (diverges_from c 1 ds) h

    shared_kept :
        (key root : String) (ds : List (Disclosure Claim))
        → check_shared platform layers bundle options seen key root ds ≡ (r, after)
        → after ≡ seen
    unfolding check_shared
    shared_kept key root [] h = ground arith
    shared_kept key root (d ∷ ds) h = first_kept key root d.challenge ds h

    root_sig_kept :
        (key root : String) (o : Option Bool)
        → check_root_sig platform layers bundle options seen key root o ≡ (r, after)
        → after ≡ seen
    unfolding check_root_sig
    root_sig_kept key root none h = ground arith
    root_sig_kept key root (some false) h = ground arith
    root_sig_kept key root (some true) h = shared_kept key root bundle.disclosures h

    root_kept :
        (key : String) (o : Option String)
        → check_root platform layers bundle options seen key o ≡ (r, after)
        → after ≡ seen
    unfolding check_root
    root_kept key none h = ground arith
    root_kept key (some root) h =
        let signed =
          root_sig_kept key root
            (layers.root_sig_verifies bundle.root_sig (platform.to_lower root) key) in
        ground (arith, signed)

    key_kept :
        (o : Option String)
        → check_key platform layers bundle options seen o ≡ (r, after)
        → after ≡ seen
    unfolding check_key
    key_kept none h = ground arith
    key_kept (some k) h =
        let signed = root_kept (platform.to_lower k) bundle.signed_root in ground (arith, signed)

    shape_kept :
        (ds : List (Disclosure Claim))
        → check_shape platform layers bundle options seen ds ≡ (r, after)
        → after ≡ seen
    unfolding check_shape
    shape_kept [] h = ground arith
    shape_kept (d ∷ ds) h = key_kept bundle.presentation_pub_key h

  -- A bundle that is rejected consumes nothing.
  pub rejected_keeps :
      (options : VerifyDisputeBundleOptions) (seen after : Seen) (r : DisputeBundleVerifyResult)
      → verify_dispute_bundle platform layers bundle options seen ≡ ok (r, after)
      → r.ok ≡ false
      → after ≡ seen
  rejected_keeps options seen after r h p =
      shape_kept options seen r after p bundle.disclosures
        (verify-shape platform layers bundle options seen r after h)
