-- ===== src/Prelude/Texts.antt =====
-- Texts: the native `String` where the program only compares whole texts, and the list of its
-- UTF-16 code units where it walks them.
use Prim.Native.Char.{code}
use Prim.Native.String.{String}
use mathlib.Core.Bool.{Bool, true, false, ◌&&◌, false≢true}
use mathlib.Core.List.{List, [], ◌∷◌, Memᴰ}
use Prim.Native.Nat.{ℕ}
use pathos_dacs_ref.Prelude.Tests.{leb, ◌==◌, Bool-cases}
use mathlib.Core.Path.{◌≡◌, sym}
use mathlib.Core.Logic.{◌↔◌, inl, inr}
use text.Mathlib.TextEquality.{eq_iff}
use pathos_dacs_ref.Prelude.Lists.{any}
use native.Mathlib.Omega.{arith}
pub use text.Mathlib.Text.{◌==◌ as str_eq}

abbrev pub Codes : Type 0
Codes = List ℕ

abbrev pub codes : String → Codes
codes String.[] = []
codes (String.◌∷◌ c s) = code c ∷ codes s

abbrev pub is_digit : ℕ → Bool
is_digit c = leb b'0' c && leb c b'9'

-- `===` on two texts given by their code units
unfoldable pub codes_eq : Codes → Codes → Bool
codes_eq [] [] = true
codes_eq (c ∷ s) (d ∷ t) = (c == d) && codes_eq s t
codes_eq _ _ = false

pub codes_eq_iff : (s t : Codes) → (codes_eq s t ≡ true) ↔ (s ≡ t)
unfolding codes_eq
codes_eq_iff [] [] = ground arith
codes_eq_iff [] (d ∷ t) = ground arith
codes_eq_iff (c ∷ s) [] = ground arith
codes_eq_iff (c ∷ s) (d ∷ t) = ground (arith, codes_eq_iff s t)

pub any-str_eq-Mem : (x : String) (xs : List String) → any (λ y. str_eq y x) xs ≡ true → Memᴰ x xs
any-str_eq-Mem x [] h = absurd (false≢true h)
any-str_eq-Mem x (y ∷ xs) h = elim (Bool-cases (str_eq y x)) [
  | inl e ↦ Memᴰ.head (sym ((eq_iff y x).0 e))
  | inr e ↦ Memᴰ.tail (any-str_eq-Mem x xs (ground arith))
]

pub any-str_eq_of_Mem :
    (x : String) (xs : List String) → Memᴰ x xs → any (λ y. str_eq y x) xs ≡ true
any-str_eq_of_Mem x [] m = elim m [ ]
any-str_eq_of_Mem x (y ∷ xs) (Memᴰ.head e) = ground (arith, eq_iff y x)
any-str_eq_of_Mem x (y ∷ xs) (Memᴰ.tail m) = ground (arith, any-str_eq_of_Mem x xs m)
