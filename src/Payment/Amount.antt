-- ===== src/Payment/Amount.antt =====
-- DEM amounts: `demToOs` and `osToDem` of src/adapters/dacs/pay-dem.ts.
-- A text is the list of its UTF-16 code units; a bigint is a natural number, which is all that
-- the two functions meet.
pub mod Digits
pub mod RoundTrip
use pathos_dacs_ref.Prelude.{
  ℕ, zero, suc, ◌+◌, ◌-◌, ◌*◌, ◌/◌, ◌%◌, Bool, false, not, ◌&&◌, Option, none, some, [], ◌∷◌, ◌++◌,
  Result, ok, throw, Codes, is_digit, ltb, leb, ◌==◌, if◌then◌else◌, length, all,
}

abbrev pub os_per_dem : ℕ
os_per_dem = 1000000000

pub data AmountError : Type 0 where
  too_many_digits invalid_amount not_positive : AmountError

-- `s.split('.')`: the piece before the first dot, and the text behind that dot
unfoldable pub before_dot : Codes → Codes
before_dot [] = []
before_dot (c ∷ s) = if c == b'.' then [] else c ∷ before_dot s

unfoldable pub after_dot : Codes → Option Codes
after_dot [] = none
after_dot (c ∷ s) = if c == b'.' then some s else after_dot s

-- `const [, fraction = ''] = s.split('.')`
unfoldable pub fraction_of : Codes → Codes
unfolding before_dot after_dot
fraction_of s = elim (after_dot s) [ none ↦ [] | some rest ↦ before_dot rest ]

abbrev pub is_nonzero_digit : ℕ → Bool
is_nonzero_digit c = leb b'1' c && leb c b'9'

-- `[1-9]\d*`
unfoldable pub is_positive_integer : Codes → Bool
is_positive_integer [] = false
is_positive_integer (c ∷ s) = is_nonzero_digit c && all is_digit s

-- `0|[1-9]\d*`
unfoldable pub is_integer : Codes → Bool
unfolding is_positive_integer
is_integer [] = false
is_integer (c ∷ []) = is_digit c
is_integer (c ∷ d ∷ s) = is_positive_integer (c ∷ d ∷ s)

-- `\d*[1-9]`
unfoldable pub ends_nonzero : Codes → Bool
ends_nonzero [] = false
ends_nonzero (c ∷ []) = is_nonzero_digit c
ends_nonzero (c ∷ d ∷ s) = is_digit c && ends_nonzero (d ∷ s)

-- `CANONICAL_DEM_RE`; the alternatives differ in whether there is a dot
unfoldable pub is_canonical_dem : Codes → Bool
unfolding before_dot after_dot is_integer ends_nonzero
is_canonical_dem s = elim (after_dot s) [
  | none ↦ is_positive_integer s
  | some rest ↦ is_integer (before_dot s) && ends_nonzero rest
]

-- `BigInt(s)` on a text of digits
unfoldable pub decimal : ℕ → Codes → ℕ
decimal n [] = n
decimal n (c ∷ s) = decimal (n * 10 + (c - b'0')) s

-- `s.padEnd(n, '0')`
unfoldable pub pad_end : ℕ → Codes → Codes
pad_end zero s = s
pad_end (suc n) [] = b'0' ∷ pad_end n []
pad_end (suc n) (c ∷ s) = c ∷ pad_end n s

unfoldable pub dem_to_os : Codes → Result AmountError ℕ
unfolding fraction_of is_canonical_dem decimal pad_end
dem_to_os s =
    if ltb 9 (length (fraction_of s))
    then throw too_many_digits
    else if not (is_canonical_dem s)
    then throw invalid_amount
    else let amount =
        decimal 0 (before_dot s) * os_per_dem + decimal 0 (pad_end 9 (fraction_of s)) in
      if leb amount 0 then throw not_positive else ok amount

-- `n.toString()`: the digits of `n`, on more fuel than `n` has digits
unfoldable pub digits : ℕ → ℕ → Codes → Codes
digits zero n out = out
digits (suc fuel) n out =
    let rest = digits fuel (n / 10) ((b'0' + n % 10) ∷ out) in
    if ltb n 10 then (b'0' + n) ∷ out else rest

unfoldable pub to_string : ℕ → Codes
unfolding digits
to_string n = digits (suc n) n []

abbrev pub zeros : ℕ → Codes
zeros zero = []
zeros (suc n) = b'0' ∷ zeros n

-- `s.padStart(n, '0')`
unfoldable pub pad_start : ℕ → Codes → Codes
pad_start n s = zeros (n - length s) ++ s

-- `s.replace(/0+$/, '')`
unfoldable pub strip_zeros : Codes → Codes
strip_zeros [] = []
strip_zeros (c ∷ s) =
    let rest = strip_zeros s in
    elim rest [ [] ↦ if c == b'0' then [] else c ∷ [] | d ∷ t ↦ c ∷ d ∷ t ]

unfoldable pub os_to_dem : ℕ → Codes
unfolding to_string pad_start strip_zeros
os_to_dem os =
    let whole = to_string (os / os_per_dem) in
    let fraction = strip_zeros (pad_start 9 (to_string (os % os_per_dem))) in
    elim fraction [ [] ↦ whole | d ∷ t ↦ whole ++ b'.' ∷ d ∷ t ]
