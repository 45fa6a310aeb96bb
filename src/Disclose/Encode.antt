-- ===== src/Disclose/Encode.antt =====
-- `lenPrefix` and `lenDelimit` of src/lib/disclose.ts: no two tuples of fields have one preimage.
use pathos_dacs_ref.Prelude.{
  ℕ, ◌/◌, ◌%◌, ◌≤◌, Option, none, some, List, [], ◌∷◌, ◌++◌, ◌≡◌, refl, ap, sym, ◌∙◌, inl, inr,
  length, ltb, if◌then◌else◌, arith, Bool-cases,
}
use pathos_dacs_ref.Crypto.Hex.{Bytes}

-- the four bytes of a 32-bit number, the highest first
abbrev pub big_endian : ℕ → Bytes
big_endian n = (n / 16777216 % 256) ∷ (n / 65536 % 256) ∷ (n / 256 % 256) ∷ (n % 256) ∷ []

-- `lenPrefix`: `none` if it throws
unfoldable pub len_prefix : Bytes → Option Bytes
len_prefix field = if ltb 4294967295 (length field) then none else some (big_endian (length field))

abbrev pub join : Option Bytes → Bytes → Option Bytes → Option Bytes
join (some prefix) field (some rest) = some (prefix ++ (field ++ rest))
join _ _ _ = none

-- `lenDelimit`
unfoldable pub len_delimit : List Bytes → Option Bytes
unfolding len_prefix
len_delimit [] = some []
len_delimit (field ∷ fields) = join (len_prefix field) field (len_delimit fields)

big_endian_injective :
    (m n : ℕ)
    → m ≤ 4294967295
    → n ≤ 4294967295
    → m / 16777216 % 256 ≡ n / 16777216 % 256
    → m / 65536 % 256 ≡ n / 65536 % 256
    → m / 256 % 256 ≡ n / 256 % 256
    → m % 256 ≡ n % 256
    → m ≡ n
big_endian_injective m n a b p q r s = omega arith

append_split : (f g a b : Bytes) → length f ≡ length g → f ++ a ≡ g ++ b → (f ≡ g) × (a ≡ b)
append_split [] [] a b l e = (refl, e)
append_split [] (x ∷ g) a b l e = absurd (omega arith)
append_split (x ∷ f) [] a b l e = absurd (omega arith)
append_split (x ∷ f) (y ∷ g) a b l e =
    let rest = append_split f g a b (omega arith) (cc) in (cc, rest.1)

-- what an encoding of at least one field consists of
abbrev Encoded : Bytes → List Bytes → Bytes → Type 0
Encoded f fs b =
    (rest : Bytes) × (length f ≤ 4294967295)
    × (len_delimit fs ≡ some rest)
    × (b ≡ big_endian (length f) ++ (f ++ rest))

join-some :
    (f : Bytes) (fs : List Bytes) (b : Bytes) (p o : Option Bytes)
    → len_prefix f ≡ p
    → len_delimit fs ≡ o
    → join p f o ≡ some b
    → Encoded f fs b
unfolding len_prefix
join-some f fs b none o ep eo h = absurd cc
join-some f fs b (some q) none ep eo h = absurd cc
join-some f fs b (some q) (some rest) ep eo h = elim (Bool-cases (ltb 4294967295 (length f))) [
  | inl long ↦ absurd (ground arith)
  | inr short ↦ (rest, ground arith, eo, ground arith)
]

len_delimit-Encoded :
    (f : Bytes) (fs : List Bytes) (b : Bytes) → len_delimit (f ∷ fs) ≡ some b → Encoded f fs b
unfolding len_delimit
len_delimit-Encoded f fs b h = join-some f fs b (len_prefix f) (len_delimit fs) refl refl h

-- two encoded fields with the same encoding
encoded_same :
    (f g r s : Bytes)
    → length f ≤ 4294967295
    → length g ≤ 4294967295
    → big_endian (length f) ++ (f ++ r) ≡ big_endian (length g) ++ (g ++ s)
    → (f ≡ g) × (r ≡ s)
encoded_same f g r s lf lg e =
    let same : length f ≡ length g =
      big_endian_injective (length f) (length g) lf lg (cc) (cc) (cc) (cc) in
    append_split f g r s same (cc)

nil_apart :
    (g : Bytes) (gs : List Bytes) (b : Bytes)
    → len_delimit [] ≡ some b
    → len_delimit (g ∷ gs) ≡ some b
    → ⊥
unfolding len_delimit
nil_apart g gs b h k =
    let (r, lg, hg, eg) = len_delimit-Encoded g gs b k in let e : [] ≡ b = cc in absurd (cc)

-- Two tuples of fields with one length-delimited encoding are equal, also if they were to differ in
-- how many fields they have.
pub len_delimit_injective :
    (fs gs : List Bytes) (b : Bytes) → len_delimit fs ≡ some b → len_delimit gs ≡ some b → fs ≡ gs
len_delimit_injective [] [] b h k = refl
len_delimit_injective [] (g ∷ gs) b h k = absurd (nil_apart g gs b h k)
len_delimit_injective (f ∷ fs) [] b h k = absurd (nil_apart f fs b k h)
len_delimit_injective (f ∷ fs) (g ∷ gs) b h k =
    let (r, lf, hf, ef) = len_delimit-Encoded f fs b h in
    let (s, lg, hg, eg) = len_delimit-Encoded g gs b k in
    let (same, rest) = encoded_same f g r s lf lg (sym ef ∙ eg) in
    let tails = len_delimit_injective fs gs r hf (hg ∙ ap some (sym rest)) in cc
