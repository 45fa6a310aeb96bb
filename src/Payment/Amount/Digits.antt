-- ===== src/Payment/Amount/Digits.antt =====
-- The texts of numbers in src/adapters/dacs/pay-dem.ts: printing, padding and stripping.
use pathos_dacs_ref.Prelude.{
  ℕ, zero, suc, ◌+◌, ◌-◌, ◌*◌, ◌/◌, ◌%◌, ◌≤◌, ◌<◌, true, none, some, [], ◌∷◌, ◌++◌, ◌≡◌, refl, sym,
  ap, Codes, is_digit, ltb, ◌==◌, if◌then◌else◌, length, all, arith, Bool-cases, inl, inr, ==_iff,
  ◌⊎◌,
}
use mathlib.Core.Path.{ap₂}
use pathos_dacs_ref.Payment.Amount.{
  before_dot, after_dot, is_positive_integer, is_integer, ends_nonzero, decimal, pad_end, digits,
  zeros, strip_zeros,
}

pub decimal-append : (n : ℕ) (s t : Codes) → decimal n (s ++ t) ≡ decimal (decimal n s) t
unfolding decimal
decimal-append n [] t = refl
decimal-append n (c ∷ s) t = decimal-append (n * 10 + (c - b'0')) s t

pub digits-append : (fuel n : ℕ) (s t : Codes) → digits fuel n (s ++ t) ≡ digits fuel n s ++ t
unfolding digits
digits-append zero n s t = refl
digits-append (suc fuel) n s t = elim (Bool-cases (ltb n 10)) [
  | inl last ↦ rw last refl
  | inr more ↦ rw more (digits-append fuel (n / 10) ((b'0' + n % 10) ∷ s) t)
]

pub decimal-digits : (fuel n : ℕ) → n < fuel → decimal 0 (digits fuel n []) ≡ n
unfolding digits decimal
decimal-digits zero n h = absurd (omega arith)
decimal-digits (suc fuel) n h = elim (Bool-cases (ltb n 10)) [
  | inl last ↦ rw last (omega arith)
  | inr more ↦
      (let big : 10 ≤ n = (ground arith) in
        let rest : decimal 0 (digits fuel (n / 10) []) ≡ n / 10 =
          decimal-digits fuel (n / 10) (omega arith) in
        rw
          (
            more,
            digits-append fuel (n / 10) [] ((b'0' + n % 10) ∷ []),
            decimal-append 0 (digits fuel (n / 10) []) ((b'0' + n % 10) ∷ []),
            rest,
          )
          (omega arith))
]

pub digits_positive :
    (fuel n : ℕ) (out : Codes)
    → n < fuel
    → 0 < n
    → all is_digit out ≡ true
    → is_positive_integer (digits fuel n out) ≡ true
unfolding digits is_positive_integer
digits_positive zero n out h p d = absurd (omega arith)
digits_positive (suc fuel) n out h p d = elim (Bool-cases (ltb n 10)) [
  | inl last ↦ rw last (ground arith)
  | inr more ↦
      (let big : 10 ≤ n = (ground arith) in
        rw more (
          digits_positive fuel (n / 10) ((b'0' + n % 10) ∷ out) (omega arith) (omega arith)
            (ground arith)))
]

abbrev pub pow10 : ℕ → ℕ
pow10 zero = 1
pow10 (suc k) = 10 * pow10 k

pub length-digits :
    (fuel k n : ℕ) (out : Codes)
    → n < pow10 (suc k)
    → length (digits fuel n out) ≤ suc k + length out
unfolding digits
length-digits zero k n out h = omega arith
length-digits (suc fuel) zero n out h = elim (Bool-cases (ltb n 10)) [
  | inl last ↦ rw last (omega arith)
  | inr more ↦ absurd (ground arith)
]
length-digits (suc fuel) (suc k) n out h = elim (Bool-cases (ltb n 10)) [
  | inl last ↦ rw last (omega arith)
  | inr more ↦
      rw more (omega (arith, length-digits fuel k (n / 10) ((b'0' + n % 10) ∷ out) (omega arith)))
]

pub is_positive_integer_lem : (s : Codes) → is_positive_integer s ≡ true → is_integer s ≡ true
unfolding is_positive_integer is_integer
is_positive_integer_lem [] h = h
is_positive_integer_lem (c ∷ []) h = ground arith
is_positive_integer_lem (c ∷ d ∷ s) h = h

pub positive_digits : (s : Codes) → is_positive_integer s ≡ true → all is_digit s ≡ true
unfolding is_positive_integer
positive_digits [] h = refl
positive_digits (c ∷ s) h = ground arith

pub before_dot-digits : (s : Codes) → all is_digit s ≡ true → before_dot s ≡ s
unfolding before_dot
before_dot-digits [] h = refl
before_dot-digits (c ∷ s) h = ground (arith, before_dot-digits s)

pub after_dot-digits : (s : Codes) → all is_digit s ≡ true → after_dot s ≡ none
unfolding after_dot
after_dot-digits [] h = refl
after_dot-digits (c ∷ s) h = ground (arith, after_dot-digits s)

pub before_dot-append : (s t : Codes) → all is_digit s ≡ true → before_dot (s ++ b'.' ∷ t) ≡ s
unfolding before_dot
before_dot-append [] t h = refl
before_dot-append (c ∷ s) t h = ground (arith, before_dot-append s t)

pub after_dot-append : (s t : Codes) → all is_digit s ≡ true → after_dot (s ++ b'.' ∷ t) ≡ some t
unfolding after_dot
after_dot-append [] t h = refl
after_dot-append (c ∷ s) t h = ground (arith, after_dot-append s t)

-- a text without its trailing zeros, padded again
pub pad_end-strip_zeros : (s : Codes) → pad_end (length s) (strip_zeros s) ≡ s
unfolding pad_end strip_zeros
pad_end-strip_zeros [] = refl
pad_end-strip_zeros (c ∷ s) = padded (strip_zeros s) (pad_end-strip_zeros s)
  where
    padded :
        (o : Codes)
        → pad_end (length s) o ≡ s
        → pad_end
            (suc (length s))
            (elim o [ [] ↦ if c == b'0' then [] else c ∷ [] | d ∷ t ↦ c ∷ d ∷ t ])
          ≡ c ∷ s
    padded [] e = elim (Bool-cases (c == b'0')) [
      | inl zero_digit ↦ rw zero_digit (ap₂ (λ x xs. x ∷ xs) (sym ((==_iff c b'0').0 zero_digit)) e)
      | inr other ↦ rw other (ap (λ xs. c ∷ xs) e)
    ]
    padded (d ∷ t) e = ap (λ xs. c ∷ xs) e

pub length-strip_zeros : (s : Codes) → length (strip_zeros s) ≤ length s
unfolding strip_zeros
length-strip_zeros [] = omega arith
length-strip_zeros (c ∷ s) = shorter (strip_zeros s) (length-strip_zeros s)
  where
    shorter :
        (o : Codes)
        → length o ≤ length s
        → length (elim o [ [] ↦ if c == b'0' then [] else c ∷ [] | d ∷ t ↦ c ∷ d ∷ t ])
          ≤ suc (length s)
    shorter [] h = ground arith
    shorter (d ∷ t) h = omega arith

-- what is left ends with a digit other than zero
pub strip_zeros-ends :
    (s : Codes)
    → all is_digit s ≡ true
    → (all is_digit (strip_zeros s) ≡ true)
      × ((strip_zeros s ≡ []) ⊎ (ends_nonzero (strip_zeros s) ≡ true))
unfolding strip_zeros ends_nonzero
strip_zeros-ends [] h = (refl, inl refl)
strip_zeros-ends (c ∷ s) h = ended (strip_zeros s) (strip_zeros-ends s (ground arith))
  where
    ended :
        (o : Codes)
        → (all is_digit o ≡ true) × ((o ≡ []) ⊎ (ends_nonzero o ≡ true))
        → (all is_digit (elim o [ [] ↦ if c == b'0' then [] else c ∷ [] | d ∷ t ↦ c ∷ d ∷ t ])
            ≡ true)
          × ((elim o [ [] ↦ if c == b'0' then [] else c ∷ [] | d ∷ t ↦ c ∷ d ∷ t ] ≡ [])
              ⊎ (ends_nonzero (elim o [ [] ↦ if c == b'0' then [] else c ∷ [] | d ∷ t ↦ c ∷ d ∷ t ])
                  ≡ true))
    ended [] e = ground arith
    ended (d ∷ t) (digit, inl nothing) = absurd cc
    ended (d ∷ t) (digit, inr ends) = ground arith

pub zeros-digits : (k : ℕ) (s : Codes) → all is_digit s ≡ true → all is_digit (zeros k ++ s) ≡ true
zeros-digits zero s h = h
zeros-digits (suc k) s h = ground (arith, zeros-digits k s)

pub decimal-zeros : (k : ℕ) (s : Codes) → decimal 0 (zeros k ++ s) ≡ decimal 0 s
unfolding decimal
decimal-zeros zero s = refl
decimal-zeros (suc k) s = decimal-zeros k s

pub length-zeros : (k : ℕ) → length (zeros k) ≡ k
length-zeros zero = refl
length-zeros (suc k) = omega (arith, length-zeros k)
