-- ===== src/Payment/Amount/RoundTrip.antt =====
-- `demToOs` reads back what `osToDem` of src/adapters/dacs/pay-dem.ts writes.
use pathos_dacs_ref.Prelude.{
  ℕ, zero, suc, ◌+◌, ◌-◌, ◌*◌, ◌/◌, ◌%◌, ◌≤◌, ◌<◌, Bool, true, false, not, ◌&&◌, none, some, [],
  ◌∷◌, ◌++◌, ◌≡◌, refl, sym, ap, ◌∙◌, subst, Codes, is_digit, ltb, leb, if◌then◌else◌, length,
  length-append, all, Result, ok, throw, arith, inl, inr, ◌⊎◌,
}
use mathlib.Core.Path.{ap₂}
use pathos_dacs_ref.Payment.Amount.{
  AmountError, too_many_digits, invalid_amount, not_positive, os_per_dem, before_dot, after_dot,
  fraction_of, is_positive_integer, is_integer, ends_nonzero, is_canonical_dem, decimal, pad_end,
  dem_to_os, digits, to_string, zeros, pad_start, strip_zeros, os_to_dem,
}
use pathos_dacs_ref.Payment.Amount.Digits.{
  decimal-digits, digits_positive, length-digits, is_positive_integer_lem, positive_digits,
  before_dot-digits, after_dot-digits, before_dot-append, after_dot-append, pad_end-strip_zeros,
  length-strip_zeros, strip_zeros-ends, zeros-digits, decimal-zeros, length-zeros,
}

to_string_positive : (n : ℕ) → 0 < n → is_positive_integer (to_string n) ≡ true
unfolding to_string
to_string_positive n p = digits_positive (suc n) n [] (omega arith) p refl

to_string_integer : (n : ℕ) → is_integer (to_string n) ≡ true
unfolding to_string digits is_integer
to_string_integer zero = refl
to_string_integer (suc n) =
    is_positive_integer_lem (to_string (suc n)) (to_string_positive (suc n) (omega arith))

to_string_digits : (n : ℕ) → all is_digit (to_string n) ≡ true
unfolding to_string digits
to_string_digits zero = refl
to_string_digits (suc n) =
    positive_digits (to_string (suc n)) (to_string_positive (suc n) (omega arith))

decimal-to_string : (n : ℕ) → decimal 0 (to_string n) ≡ n
unfolding to_string
decimal-to_string n = decimal-digits (suc n) n (omega arith)

-- the nine digits of the fraction
nine : ℕ → Codes
nine r = pad_start 9 (to_string r)

length-nine : (r : ℕ) → r < 1000000000 → length (nine r) ≡ 9
unfolding nine pad_start to_string
length-nine r h =
    let short : length (digits (suc r) r []) ≤ 9 = length-digits (suc r) 8 r [] h in
    omega (
      arith,
      length-append (zeros (9 - length (digits (suc r) r []))) (digits (suc r) r []),
      length-zeros (9 - length (digits (suc r) r [])),
    )

nine_digits : (r : ℕ) → all is_digit (nine r) ≡ true
unfolding nine pad_start
nine_digits r = zeros-digits (9 - length (to_string r)) (to_string r) (to_string_digits r)

decimal-nine : (r : ℕ) → decimal 0 (nine r) ≡ r
unfolding nine pad_start
decimal-nine r = decimal-zeros (9 - length (to_string r)) (to_string r) ∙ decimal-to_string r

decimal_padded : (r : ℕ) → r < 1000000000 → decimal 0 (pad_end 9 (strip_zeros (nine r))) ≡ r
decimal_padded r h =
    ap (λ k. decimal 0 (pad_end k (strip_zeros (nine r)))) (sym (length-nine r h))
    ∙ ap (decimal 0) (pad_end-strip_zeros (nine r))
    ∙ decimal-nine r

-- what `dem_to_os` answers of a text with a whole part and a fraction
judged : (whole fraction : Codes) → Bool → Result AmountError ℕ
judged whole fraction canonical =
    if ltb 9 (length fraction)
    then throw too_many_digits
    else if not canonical
    then throw invalid_amount
    else let amount = decimal 0 whole * os_per_dem + decimal 0 (pad_end 9 fraction) in
      if leb amount 0 then throw not_positive else ok amount

judged_ok :
    (whole fraction : Codes)
    → length fraction ≤ 9
    → 0 < decimal 0 whole * os_per_dem + decimal 0 (pad_end 9 fraction)
    → judged whole fraction true
      ≡ ok (decimal 0 whole * os_per_dem + decimal 0 (pad_end 9 fraction))
unfolding judged
judged_ok whole fraction short positive =
    let fits : ltb 9 (length fraction) ≡ false = (ground arith) in
    let more : leb (decimal 0 whole * os_per_dem + decimal 0 (pad_end 9 fraction)) 0 ≡ false =
      (ground arith) in
    rw (fits, more) refl

read_parts :
    (s whole fraction : Codes)
    → before_dot s ≡ whole
    → fraction_of s ≡ fraction
    → is_canonical_dem s ≡ true
    → dem_to_os s ≡ judged whole fraction true
unfolding dem_to_os judged
read_parts s whole fraction e f c =
    ap (λ b. judged (before_dot s) (fraction_of s) b) c
    ∙ ap (λ w. judged w (fraction_of s) true) e
    ∙ ap (λ x. judged whole x true) f

no_dot :
    (s : Codes)
    → after_dot s ≡ none
    → (fraction_of s ≡ []) × (is_canonical_dem s ≡ is_positive_integer s)
unfolding fraction_of is_canonical_dem
no_dot s e = (
  ap (λ o. elim o [ none ↦ [] | some rest ↦ before_dot rest ]) e,
  ap
      (λ o. elim o [
        | none ↦ is_positive_integer s
        | some rest ↦ is_integer (before_dot s) && ends_nonzero rest
      ])
      e,
)

one_dot :
    (s rest : Codes)
    → after_dot s ≡ some rest
    → (fraction_of s ≡ before_dot rest)
      × (is_canonical_dem s ≡ (is_integer (before_dot s) && ends_nonzero rest))
unfolding fraction_of is_canonical_dem
one_dot s rest e = (
  ap (λ o. elim o [ none ↦ [] | some rest ↦ before_dot rest ]) e,
  ap
      (λ o. elim o [
        | none ↦ is_positive_integer s
        | some rest ↦ is_integer (before_dot s) && ends_nonzero rest
      ])
      e,
)

-- a whole number of DEM
read_whole : (q : ℕ) → 0 < q → dem_to_os (to_string q) ≡ ok (q * os_per_dem)
unfolding pad_end decimal
read_whole q p =
    let w = to_string q in
    let dotless = no_dot w (after_dot-digits w (to_string_digits q)) in
    let value : decimal 0 w ≡ q = decimal-to_string q in
    read_parts w w [] (before_dot-digits w (to_string_digits q)) dotless.0
      (dotless.1 ∙ to_string_positive q p)
    ∙ judged_ok w [] (omega arith) (rw value (omega arith))
    ∙ ap ok (rw value (omega arith))

-- a number of DEM with a fraction
read_fraction :
    (q : ℕ) (f : Codes)
    → all is_digit f ≡ true
    → ends_nonzero f ≡ true
    → length f ≤ 9
    → 0 < q * os_per_dem + decimal 0 (pad_end 9 f)
    → dem_to_os (to_string q ++ b'.' ∷ f) ≡ ok (q * os_per_dem + decimal 0 (pad_end 9 f))
read_fraction q f digit ends short positive =
    let w = to_string q in
    let text = w ++ b'.' ∷ f in
    let value : decimal 0 w ≡ q = decimal-to_string q in
    let before : before_dot text ≡ w = before_dot-append w f (to_string_digits q) in
    let dotted = one_dot text f (after_dot-append w f (to_string_digits q)) in
    let canonical : is_canonical_dem text ≡ true =
      dotted.1
      ∙ ap (λ x. is_integer x && ends_nonzero f) before
      ∙ ap₂ (λ x y. x && y) (to_string_integer q) ends in
    read_parts text w f before (dotted.0 ∙ before_dot-digits f digit) canonical
    ∙ judged_ok w f short (rw value positive)
    ∙ ap (λ x. ok (x * os_per_dem + decimal 0 (pad_end 9 f))) value

fraction_nonzero : (r : ℕ) → r < 1000000000 → strip_zeros (nine r) ≡ [] → r ≡ 0
unfolding pad_end decimal
fraction_nonzero r h e = sym (decimal_padded r h) ∙ ap (λ f. decimal 0 (pad_end 9 f)) e

printed : ℕ → Codes → Codes
printed q [] = to_string q
printed q (d ∷ t) = to_string q ++ b'.' ∷ d ∷ t

os_to_dem_parts :
    (n : ℕ) → os_to_dem n ≡ printed (n / os_per_dem) (strip_zeros (nine (n % os_per_dem)))
unfolding os_to_dem printed nine
os_to_dem_parts n = go (strip_zeros (pad_start 9 (to_string (n % os_per_dem))))
  where
    go :
        (f : Codes)
        → elim f [
          | [] ↦ to_string (n / os_per_dem)
          | d ∷ t ↦ to_string (n / os_per_dem) ++ b'.' ∷ d ∷ t
        ]
          ≡ printed (n / os_per_dem) f
    go [] = refl
    go (d ∷ t) = refl

read_printed :
    (n : ℕ) (f : Codes)
    → 0 < n
    → strip_zeros (nine (n % os_per_dem)) ≡ f
    → dem_to_os (printed (n / os_per_dem) f) ≡ ok n
unfolding printed
read_printed n [] p e =
    let none_left : n % os_per_dem ≡ 0 = fraction_nonzero (n % os_per_dem) (omega arith) e in
    read_whole (n / os_per_dem) (omega arith) ∙ ap ok (omega arith)
read_printed n (d ∷ t) p e =
    let r = n % os_per_dem in
    let padded : decimal 0 (pad_end 9 (d ∷ t)) ≡ r =
      subst (λ f. decimal 0 (pad_end 9 f) ≡ r) e (decimal_padded r (omega arith)) in
    let ended =
      subst (λ f. (all is_digit f ≡ true) × ((f ≡ []) ⊎ (ends_nonzero f ≡ true))) e
        (strip_zeros-ends (nine r) (nine_digits r)) in
    let short : length (d ∷ t) ≤ 9 =
      subst (λ f. length f ≤ 9) e
        (omega (arith, length-strip_zeros (nine r), length-nine r (omega arith))) in
    let ends : ends_nonzero (d ∷ t) ≡ true = elim ended.1 [
      | inl nothing ↦ absurd cc
      | inr last ↦ last
    ] in
    read_fraction (n / os_per_dem) (d ∷ t) ended.0 ends short (rw padded (omega arith))
    ∙ ap ok (rw padded (omega arith))

-- `demToOs` reads every positive amount back from the text that `osToDem` writes for it.
pub dem_to_os-os_to_dem : (n : ℕ) → 0 < n → dem_to_os (os_to_dem n) ≡ ok n
dem_to_os-os_to_dem n p =
    ap dem_to_os (os_to_dem_parts n) ∙ read_printed n (strip_zeros (nine (n % os_per_dem))) p refl
