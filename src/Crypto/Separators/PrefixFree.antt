-- ===== src/Crypto/Separators/PrefixFree.antt =====
-- No separator begins another, so signed bytes tell their separator.
use pathos_dacs_ref.Prelude.{
  String, Bool, true, false, not, ◌&&◌, ◌||◌, Option, List, [], ◌∷◌, ◌++◌, ◌≡◌, refl, ◌⊎◌, inl, inr,
  Codes, codes, all, str_eq, eq_iff, arith, ok, require, ◌>>◌, >>-eq-ok, ◌==◌, ==_iff, Bool-cases,
  ap, sym, ◌∙◌,
}
use pathos_dacs_ref.Crypto.Hex.{Bytes}
use pathos_dacs_ref.Crypto.Separators.{
  known, includes, or_empty, build_signed_bytes, Ed25519, sign, verify, assert_known_separator,
  assert_emittable_separator, is_legacy_read_separator, legacy_read_separators, unknown_separator,
  legacy_separator, and_then,
}

-- whether the second text begins with the first
starts : Codes → Codes → Bool
starts [] t = true
starts (c ∷ s) [] = false
starts (c ∷ s) (d ∷ t) = c == d && starts s t

-- of two texts with continuations that agree, one begins the other
starts_either : (s t a b : Codes) → s ++ a ≡ t ++ b → (starts s t ≡ true) ⊎ (starts t s ≡ true)
unfolding starts
starts_either [] t a b e = inl refl
starts_either (c ∷ s) [] a b e = inr refl
starts_either (c ∷ s) (d ∷ t) a b e =
    let head : c ≡ d = cc in
    let tail : s ++ a ≡ t ++ b = cc in
    ground (arith, ==_iff c d, ==_iff d c, starts_either s t a b tail)

apart : String → String → Bool
unfolding starts
apart s t = str_eq s t || not (starts (codes s) (codes t))

all_apart : List String → Bool
unfolding apart
all_apart xs = all (λ s. all (apart s) xs) xs

known_apart : all_apart known ≡ true
unfolding all_apart
known_apart = refl

includes-all :
    (p : String → Bool) (xs : List String) (s : String)
    → includes xs s ≡ true
    → all p xs ≡ true
    → p s ≡ true
includes-all p [] s m h = absurd cc
includes-all p (x ∷ xs) s m h = elim (Bool-cases (str_eq x s)) [
  | inl e ↦ let same : x ≡ s = (eq_iff x s).0 e in ap p (sym same) ∙ first_true p x xs h
  | inr n ↦ includes-all p xs s (ground arith) (ground arith)
]
  where
    first_true :
        (p : String → Bool) (x : String) (xs : List String) → all p (x ∷ xs) ≡ true → p x ≡ true
    first_true p x xs h = ground arith

append_cancel : (s a b : Codes) → s ++ a ≡ s ++ b → a ≡ b
append_cancel [] a b e = e
append_cancel (c ∷ s) a b e = append_cancel s a b (cc)

known-apart : (s t : String) → includes known s ≡ true → includes known t ≡ true → apart s t ≡ true
unfolding all_apart
known-apart s t hs ht =
    includes-all (apart s) known t ht
      (includes-all (λ x. all (apart x) known) known s hs known_apart)

same_separator :
    (s t : String) (a b : Codes)
    → includes known s ≡ true
    → includes known t ≡ true
    → codes s ++ a ≡ codes t ++ b
    → s ≡ t
unfolding apart
same_separator s t a b hs ht e = elim (starts_either (codes s) (codes t) a b e) [
  | inl p ↦ (eq_iff s t).0 (ground (arith, known-apart s t hs ht))
  | inr q ↦ sym ((eq_iff t s).0 (ground (arith, known-apart t s ht hs)))
]

-- The bytes that are signed under two separators of the registry agree only if the separators are
-- the same and what stands behind them, the intermediate hash and the body, is the same.
pub separator_bound :
    (s t : String) (a b : Bytes) (h k : Option Bytes)
    → includes known s ≡ true
    → includes known t ≡ true
    → build_signed_bytes s a h ≡ build_signed_bytes t b k
    → (s ≡ t) × (or_empty h ++ a ≡ or_empty k ++ b)
unfolding build_signed_bytes
separator_bound s t a b h k hs ht e =
    let same = same_separator s t (or_empty h ++ a) (or_empty k ++ b) hs ht e in
    (
      same,
      append_cancel (codes s) (or_empty h ++ a) (or_empty k ++ b)
          (e ∙ ap (λ x. codes x ++ (or_empty k ++ b)) (sym same)),
    )

known-ok : (s : String) → includes known s ≡ true → assert_known_separator s ≡ ok tt
unfolding assert_known_separator
known-ok s h = ap (λ b. require b unknown_separator) h

-- what a separator that may be emitted is
emittable_parts :
    (s : String)
    → assert_emittable_separator s ≡ ok tt
    → (includes known s ≡ true) × (includes legacy_read_separators s ≡ false)
unfolding assert_emittable_separator assert_known_separator is_legacy_read_separator
emittable_parts s = parts (includes legacy_read_separators s) (includes known s) refl refl
  where
    parts :
        (l k : Bool)
        → includes legacy_read_separators s ≡ l
        → includes known s ≡ k
        → (require (not l) legacy_separator >> require k unknown_separator) ≡ ok tt
        → (includes known s ≡ true) × (includes legacy_read_separators s ≡ false)
    parts true k el ek h = absurd cc
    parts false true el ek h = (ek, el)
    parts false false el ek h = absurd cc

-- `sign` returns a signature only under a separator of the registry that is not read-only, and what
-- it returns `verify` accepts, if the signature library accepts its own signatures.
pub verify-sign :
    (ed25519 : Ed25519) (private_key public_key : Bytes)
    → ((bytes : Bytes) → ed25519.verify (ed25519.sign bytes private_key) bytes public_key ≡ true)
    → (s : String) (body sig : Bytes) (h : Option Bytes)
    → sign ed25519 s body private_key h ≡ ok sig
    → (includes known s ≡ true)
      × (includes legacy_read_separators s ≡ false)
      × (verify ed25519 s sig body public_key h ≡ true)
unfolding sign verify
verify-sign ed25519 private_key public_key own s body sig h e =
    let w =
      >>-eq-ok (assert_emittable_separator s)
        (ok (ed25519.sign (build_signed_bytes s body h) private_key)) e in
    let parts = emittable_parts s w.0 in
    let same : ed25519.sign (build_signed_bytes s body h) private_key ≡ sig = cc in
    (
      parts.0,
      parts.1,
      ap (λ r. and_then r (ed25519.verify sig (build_signed_bytes s body h) public_key))
            (known-ok s parts.0)
          ∙ ap (λ x. ed25519.verify x (build_signed_bytes s body h) public_key) (sym same)
          ∙ own (build_signed_bytes s body h),
    )

-- under such a separator `sign` does return
pub sign-ok :
    (ed25519 : Ed25519) (s : String) (body private_key : Bytes) (h : Option Bytes)
    → includes known s ≡ true
    → includes legacy_read_separators s ≡ false
    → sign ed25519 s body private_key h
      ≡ ok (ed25519.sign (build_signed_bytes s body h) private_key)
unfolding sign assert_emittable_separator assert_known_separator is_legacy_read_separator
sign-ok ed25519 s body private_key h k l = rw (l, k) refl
