-- ===== src/Dispute/Assemble/Checked.antt =====
-- The bundles that `assembleDisputeBundle` of src/lib/dispute.ts returns, and their check.
use Prim.Native.Char.{Char, code}
use pathos_dacs_ref.Prelude.{
  ℕ, zero, suc, ◌+◌, ◌/◌, ◌%◌, ◌<◌, String, codes, true, false, Option, none, some, List, [], ◌∷◌,
  length, str_eq, if◌then◌else◌, Result, ok, throw, ◌≡◌, refl, sym, ap, ◌∙◌, subst, arith,
  Bool-cases, inl, inr,
}
use pathos_dacs_ref.Crypto.Hex.{Bytes, IsBytes, hex_to_bytes, bytes_to_hex, hex_char, hex-bytes}
use pathos_dacs_ref.Crypto.Separators.{sign, build_signed_bytes}
use pathos_dacs_ref.Crypto.Separators.PrefixFree.{sign-ok, verify-sign}
use pathos_dacs_ref.Disclose.Reveal.{Primitives}
use pathos_dacs_ref.Consent.{ConsentRecordBody, ConsentRecord}
use pathos_dacs_ref.Platform.{Platform}
use pathos_dacs_ref.Dispute.{
  no_verifier_id, no_nonce, Challenge, Disclosure, DisputeEvidenceBundle, Layers, Seen,
  VerifyDisputeBundleOptions, is_hex, is_lower_hex, diverges_from, check_challenge,
  check_divergence, check_first, check_shared, check_root_sig, check_root, check_key, check_shape,
  verify_dispute_bundle,
}
use pathos_dacs_ref.Dispute.Composed.{Shown, root_verifies, layers_of}
use pathos_dacs_ref.Dispute.Assemble.{
  AssembleArgs, AssembleError, malformed_root, single_challenge, signature_text, sign_bundle_root,
  signed_bundle, assemble_single, assemble_from, assemble_dispute_bundle, char_of, hex_digits,
  digit_char, hex_text,
}

-- the table from the digit of a number on
Digits : ℕ → List Char → Type 0
Digits k [] = Unit
Digits k (c ∷ cs) = (code c ≡ hex_char k) × Digits (suc k) cs

code-char_of :
    (k n : ℕ) (cs : List Char)
    → Digits k cs
    → n < length cs
    → code (char_of n cs) ≡ hex_char (n + k)
unfolding Digits
code-char_of k n [] h l = absurd (omega arith)
code-char_of k zero (c ∷ cs) (h, hs) l = h ∙ ap hex_char (omega arith)
code-char_of k (suc n) (c ∷ cs) (h, hs) l =
    code-char_of (suc k) n cs hs (omega arith) ∙ ap hex_char (omega arith)

code-digit_char : (n : ℕ) → n < 16 → code (digit_char n) ≡ hex_char n
unfolding Digits hex_char
code-digit_char n h =
    code-char_of 0 n hex_digits
      (
        refl,
        (
          refl,
          (
            refl,
            (
              refl,
              (
                refl,
                (
                  refl,
                  (
                    refl,
                    (refl, (refl, (refl, (refl, (refl, (refl, (refl, (refl, (refl, tt))))))))),
                  ),
                ),
              ),
            ),
          ),
        ),
      )
      h
    ∙ ap hex_char (omega arith)

codes-hex_text : (bytes : Bytes) → IsBytes bytes → codes (hex_text bytes) ≡ bytes_to_hex bytes
unfolding hex_text bytes_to_hex
codes-hex_text [] h = refl
codes-hex_text (b ∷ bytes) (h, hs) =
    rw
      (
        code-digit_char (b / 16) (omega arith),
        code-digit_char (b % 16) (omega arith),
        codes-hex_text bytes hs,
      )
      refl

module _ {Claim : Type 0} (platform : Platform) (prims : Primitives Claim)
    (jcs : ConsentRecordBody → Option Bytes) (private_key public_key : Bytes)
    (signature_bytes : (b : Bytes) → IsBytes (prims.ed25519.sign b private_key))
    (own : (b : Bytes)
      → prims.ed25519.verify (prims.ed25519.sign b private_key) b public_key ≡ true)
    (lower_once : (s : String)
      → platform.to_lower (platform.to_lower s) ≡ platform.to_lower s) where
  abbrev root_bytes : String → Bytes
  root_bytes root = prims.utf8 (codes (platform.to_lower root))

  -- the signature of a root verifies as the check computes it
  signed_root :
      (root sig : String)
      → sign_bundle_root platform prims root private_key ≡ ok sig
      → (is_hex root ≡ true)
        × (root_verifies prims jcs
              (hex_to_bytes (codes sig))
              (some public_key)
              (codes (platform.to_lower root))
            ≡ some true)
  unfolding sign_bundle_root
  signed_root root sig h = elim (Bool-cases (is_hex root)) [
    | inl hexadecimal ↦
        (let body = root_bytes root in
          let raw : Bytes =
            prims.ed25519.sign (build_signed_bytes "dacs-x-dispute-bundle:v1:" body none)
              private_key in
          let signed =
            sign-ok prims.ed25519 "dacs-x-dispute-bundle:v1:" body private_key none refl refl in
          let e : signature_text platform prims
                (sign prims.ed25519 "dacs-x-dispute-bundle:v1:" body private_key none)
              ≡ ok sig =
            rw hexadecimal at h in
          let f : ◌≡◌ {A = Result AssembleError String} (ok (hex_text raw)) (ok sig) =
            rw signed at e in
          let text : hex_text raw ≡ sig = cc in
          let bytes = signature_bytes (build_signed_bytes "dacs-x-dispute-bundle:v1:" body none) in
          let decoded : hex_to_bytes (codes sig) ≡ some raw =
            ap (λ t. hex_to_bytes (codes t)) (sym text)
            ∙ ap hex_to_bytes (codes-hex_text raw bytes)
            ∙ hex-bytes raw bytes in
          let (_, _, verifies) =
            verify-sign prims.ed25519 private_key public_key own "dacs-x-dispute-bundle:v1:" body
              raw none signed in
          (
            hexadecimal,
            ap (λ o. root_verifies prims jcs o (some public_key) (codes (platform.to_lower root)))
                  decoded
                ∙ ap some verifies,
          ))
    | inr other ↦
        (let e : ◌≡◌ {A = Result AssembleError String} (throw malformed_root) (ok sig) =
            rw other at h in
          absurd cc)
  ]

  -- what an assembled bundle consists of
  record Assembled (args : AssembleArgs (Shown Claim) (List ConsentRecord))
      (bundle : DisputeEvidenceBundle (Shown Claim) (List ConsentRecord)) : Type 0 where
    first : Disclosure (Shown Claim)
    others : List (Disclosure (Shown Claim))
    challenge : Challenge
    sig : String
    shown : args.disclosures ≡ first ∷ others
    carried : first.challenge ≡ some challenge
    shared : diverges_from challenge 1 others ≡ none
    signed : sign_bundle_root platform prims args.signed_root args.presenter_priv ≡ ok sig
    made : bundle ≡ record {
      presentation_pub_key = some (platform.to_lower args.presentation_pub_key);
      signed_root = some (platform.to_lower args.signed_root);
      root_sig = sig;
      disclosures = args.disclosures;
      consent_ledger = args.consent_ledger;
    }

  assemble-Assembled :
      (args : AssembleArgs (Shown Claim) (List ConsentRecord))
      (bundle : DisputeEvidenceBundle (Shown Claim) (List ConsentRecord))
      → assemble_dispute_bundle platform prims args ≡ ok bundle
      → Assembled args bundle
  unfolding assemble_dispute_bundle single_challenge assemble_single sign_bundle_root
  assemble-Assembled args bundle h = from args.disclosures refl h
    where
      signed_from :
          (d : Disclosure (Shown Claim)) (ds : List (Disclosure (Shown Claim))) (c : Challenge)
          (o : Result AssembleError String)
          → args.disclosures ≡ d ∷ ds
          → d.challenge ≡ some c
          → diverges_from c 1 ds ≡ none
          → sign_bundle_root platform prims args.signed_root args.presenter_priv ≡ o
          → signed_bundle platform prims args o ≡ ok bundle
          → Assembled args bundle
      signed_from d ds c (throw e) a b f g k = absurd cc
      signed_from d ds c (ok sig) a b f g k = record {
        first = d;
        others = ds;
        challenge = c;
        sig = sig;
        shown = a;
        carried = b;
        shared = f;
        signed = g;
        made = (cc);
      }

      single :
          (d : Disclosure (Shown Claim)) (ds : List (Disclosure (Shown Claim))) (c : Challenge)
          (o : Option ℕ)
          → args.disclosures ≡ d ∷ ds
          → d.challenge ≡ some c
          → diverges_from c 1 ds ≡ o
          → assemble_single platform prims args o ≡ ok bundle
          → Assembled args bundle
      single d ds c (some i) a b f k = absurd cc
      single d ds c none a b f k =
          signed_from d ds c (sign_bundle_root platform prims args.signed_root args.presenter_priv)
            a b f refl k

      first_from :
          (d : Disclosure (Shown Claim)) (ds : List (Disclosure (Shown Claim)))
          (o : Option Challenge)
          → args.disclosures ≡ d ∷ ds
          → d.challenge ≡ o
          → assemble_single platform prims args (single_challenge o ds) ≡ ok bundle
          → Assembled args bundle
      first_from d ds none a b k = absurd cc
      first_from d ds (some c) a b k = single d ds c (diverges_from c 1 ds) a b refl k

      from :
          (ds : List (Disclosure (Shown Claim)))
          → args.disclosures ≡ ds
          → assemble_from platform prims args ds ≡ ok bundle
          → Assembled args bundle
      from [] a k = absurd cc
      from (d ∷ ds) a k = first_from d ds d.challenge a refl k

  -- the layers that the check asks
  abbrev pub below : Layers (Shown Claim) (List ConsentRecord)
  below = layers_of prims jcs

  reaches :
      (bundle : DisputeEvidenceBundle (Shown Claim) (List ConsentRecord))
      (options : VerifyDisputeBundleOptions) (seen : Seen) (key root sig : String)
      (d : Disclosure (Shown Claim)) (ds : List (Disclosure (Shown Claim))) (c : Challenge)
      → bundle.presentation_pub_key ≡ some key
      → bundle.signed_root ≡ some root
      → bundle.root_sig ≡ sig
      → bundle.disclosures ≡ d ∷ ds
      → d.challenge ≡ some c
      → diverges_from c 1 ds ≡ none
      → platform.to_lower key ≡ key
      → platform.to_lower root ≡ root
      → is_lower_hex key ≡ true
      → is_hex root ≡ true
      → root_verifies prims jcs (hex_to_bytes (codes sig)) (hex_to_bytes (codes key)) (codes root)
        ≡ some true
      → check_shape platform below bundle options seen bundle.disclosures
        ≡ check_challenge platform below bundle options seen key root c
  unfolding check_shape check_key check_root check_root_sig check_shared check_first
      check_divergence
  reaches bundle options seen key root sig d ds c k r g shown carried shared lower_key lower_root
        hex_key hex_root verifies =
      let at_key : check_shape platform below bundle options seen bundle.disclosures
          ≡ check_key platform below bundle options seen (some key) =
        ap (check_shape platform below bundle options seen) shown
        ∙ ap (check_key platform below bundle options seen) k in
      let at_root : check_key platform below bundle options seen (some key)
          ≡ check_root platform below bundle options seen key (some root) =
        rw (lower_key, hex_key) (ap (check_root platform below bundle options seen key) r) in
      let at_sig : check_root platform below bundle options seen key (some root)
          ≡ check_root_sig platform below bundle options seen key root (some true) =
        rw (hex_root, lower_root, g)
          (ap (check_root_sig platform below bundle options seen key root) verifies) in
      let at_first : check_root_sig platform below bundle options seen key root (some true)
          ≡ check_first platform below bundle options seen key root (some c) ds =
        ap (check_shared platform below bundle options seen key root) shown
        ∙ ap (λ o. check_first platform below bundle options seen key root o ds) carried in
      at_key
      ∙ at_root
      ∙ at_sig
      ∙ at_first
      ∙ ap (check_divergence platform below bundle options seen key root c) shared

  -- An assembled bundle is never refused for its key, its root, its signature or its challenges: its
  -- check comes to the steps that compare the challenge of its first disclosure with the resolver's.
  -- The presenter's
  -- keys are taken to be a pair, signatures to be bytes, lower case to be idempotent, key and root to be
  -- hexadecimal, and the resolver's id and nonce not to be empty.
  pub verify-assemble :
      (args : AssembleArgs (Shown Claim) (List ConsentRecord))
      (bundle : DisputeEvidenceBundle (Shown Claim) (List ConsentRecord))
      (options : VerifyDisputeBundleOptions) (seen : Seen)
      → assemble_dispute_bundle platform prims args ≡ ok bundle
      → args.presenter_priv ≡ private_key
      → hex_to_bytes (codes (platform.to_lower args.presentation_pub_key)) ≡ some public_key
      → is_lower_hex (platform.to_lower args.presentation_pub_key) ≡ true
      → is_hex (platform.to_lower args.signed_root) ≡ true
      → str_eq options.expected_verifier_id "" ≡ false
      → str_eq options.expected_nonce "" ≡ false
      → (d : Disclosure (Shown Claim)) × (ds : List (Disclosure (Shown Claim))) × (c : Challenge)
        × (bundle.disclosures ≡ d ∷ ds)
        × (d.challenge ≡ some c)
        × (verify_dispute_bundle platform below bundle options seen
            ≡ ok (
                check_challenge platform below bundle options seen
                  (platform.to_lower args.presentation_pub_key)
                  (platform.to_lower args.signed_root)
                  c))
  unfolding verify_dispute_bundle
  verify-assemble args bundle options seen h priv keyed hex_key hex_root verifier nonce =
      let a = assemble-Assembled args bundle h in
      let key = platform.to_lower args.presentation_pub_key in
      let root = platform.to_lower args.signed_root in
      let signed = signed_root args.signed_root a.sig (
        subst (λ k. sign_bundle_root platform prims args.signed_root k ≡ ok a.sig) priv a.signed) in
      let shown = ap (λ b. b.disclosures) a.made ∙ a.shown in
      let verifies : root_verifies prims jcs (hex_to_bytes (codes a.sig)) (hex_to_bytes (codes key))
            (codes root)
          ≡ some true =
        ap (λ k. root_verifies prims jcs (hex_to_bytes (codes a.sig)) k (codes root)) keyed
        ∙ signed.1 in
      let shape =
        reaches bundle options seen key root a.sig a.first a.others a.challenge
          (ap (λ b. b.presentation_pub_key) a.made) (ap (λ b. b.signed_root) a.made)
          (ap (λ b. b.root_sig) a.made) shown a.carried a.shared
          (lower_once args.presentation_pub_key) (lower_once args.signed_root) hex_key hex_root
          verifies in
      (
        a.first,
        a.others,
        a.challenge,
        shown,
        a.carried,
        ap
              (λ t.
                if t
                then throw no_verifier_id
                else if str_eq options.expected_nonce ""
                then throw no_nonce
                else ok (check_shape platform below bundle options seen bundle.disclosures))
              verifier
            ∙ ap
                (λ t.
                  if t
                  then throw no_nonce
                  else ok (check_shape platform below bundle options seen bundle.disclosures))
                nonce
            ∙ ap ok shape,
      )
