-- ===== src/Bundle/Value.antt =====
-- Fields of parsed JSON, as far as `===` and `??` tell them apart. Objects and arrays of two parsed
-- documents are never the same object, so `===` never holds between them; `composite` keeps what
-- `String` makes of one. A number stands for any number of JSON, which only `===` looks at.
use pathos_dacs_ref.Prelude.{ℕ, String, Bool, true, false, ◌≡◌, arith, str_eq, eq_iff, ◌==◌, refl}

pub data Value : Type 0 where
  undefined null : Value
  composite : (as_string : String) → Value
  boolean : Bool → Value
  number : ℕ → Value
  text : String → Value

bool_eq : Bool → Bool → Bool
bool_eq true b = b
bool_eq false true = false
bool_eq false false = true

-- `a === b`
unfoldable pub strict_eq : Value → Value → Bool
unfolding bool_eq
strict_eq undefined undefined = true
strict_eq null null = true
strict_eq (boolean a) (boolean b) = bool_eq a b
strict_eq (number a) (number b) = a == b
strict_eq (text a) (text b) = str_eq a b
strict_eq _ _ = false

-- `v ?? null`
abbrev pub or_null : Value → Value
or_null undefined = null
or_null v = v

pub strict_eq_comm : (a b : Value) → strict_eq a b ≡ true → strict_eq b a ≡ true
unfolding strict_eq
strict_eq_comm undefined undefined h = refl
strict_eq_comm (text a) (text b) h = ground (arith, eq_iff a b, eq_iff b a)
strict_eq_comm a b h = ground arith
