-- ===== src/Crypto/Hex.antt =====
-- src/lib/verify-bundle.ts: `hexToBytes` and `bytesToHex`, on the code units of a text.
use pathos_dacs_ref.Prelude.{
  ℕ, ◌+◌, ◌-◌, ◌*◌, ◌/◌, ◌%◌, ◌<◌, false, ◌&&◌, Option, none, some, List, [], ◌∷◌, ◌≡◌, refl, Codes,
  leb, ltb, ◌==◌, if◌then◌else◌, All, arith, length,
}

abbrev pub Bytes : Type 0
Bytes = List ℕ

abbrev pub IsBytes : Bytes → Type 0
IsBytes = All (λ b. b < 256)

-- `parseInt(c, 16)` of one character of `[0-9a-fA-F]`
unfoldable pub digit_value : ℕ → Option ℕ
digit_value c =
    if leb b'0' c && leb c b'9'
    then some (c - b'0')
    else if leb b'a' c && leb c b'f'
    then some (c - b'a' + 10)
    else if leb b'A' c && leb c b'F'
    then some (c - b'A' + 10)
    else none

-- `hex.startsWith('0x') ? hex.slice(2) : hex`
unfoldable pub without_prefix : Codes → Codes
without_prefix (c ∷ d ∷ s) = if c == b'0' && d == b'x' then s else c ∷ d ∷ s
without_prefix s = s

abbrev pub byte_of : Option ℕ → Option ℕ → Option Bytes → Option Bytes
byte_of (some h) (some l) (some bytes) = some ((h * 16 + l) ∷ bytes)
byte_of _ _ _ = none

-- the bytes of pairs of digits; an odd length and another character are errors
unfoldable pub byte_pairs : Codes → Option Bytes
unfolding digit_value
byte_pairs [] = some []
byte_pairs (c ∷ []) = none
byte_pairs (c ∷ d ∷ s) = byte_of (digit_value c) (digit_value d) (byte_pairs s)

-- `hexToBytes`: `none` if it throws
unfoldable pub hex_to_bytes : Codes → Option Bytes
unfolding without_prefix byte_pairs
hex_to_bytes s = byte_pairs (without_prefix s)

unfoldable pub hex_char : ℕ → ℕ
hex_char n = if ltb n 10 then b'0' + n else b'a' + (n - 10)

-- `bytesToHex`
unfoldable pub bytes_to_hex : Bytes → Codes
unfolding hex_char
bytes_to_hex [] = []
bytes_to_hex (b ∷ bytes) = hex_char (b / 16) ∷ hex_char (b % 16) ∷ bytes_to_hex bytes

digit-hex_char : (n : ℕ) → n < 16 → digit_value (hex_char n) ≡ some n
unfolding digit_value hex_char
digit-hex_char n h = ground arith

hex_char_no_x : (n : ℕ) → n < 16 → (hex_char n == b'x') ≡ false
unfolding hex_char
hex_char_no_x n h = ground arith

pub without_prefix-hex :
    (bytes : Bytes) → IsBytes bytes → without_prefix (bytes_to_hex bytes) ≡ bytes_to_hex bytes
unfolding without_prefix bytes_to_hex
without_prefix-hex [] h = refl
without_prefix-hex (b ∷ bytes) (h, hs) = ground (arith, hex_char_no_x (b % 16))

pairs-hex : (bytes : Bytes) → IsBytes bytes → byte_pairs (bytes_to_hex bytes) ≡ some bytes
unfolding byte_pairs bytes_to_hex
pairs-hex [] h = refl
pairs-hex (b ∷ bytes) (h, hs) =
    let high : digit_value (hex_char (b / 16)) ≡ some (b / 16) =
      digit-hex_char (b / 16) (omega arith) in
    let low : digit_value (hex_char (b % 16)) ≡ some (b % 16) =
      digit-hex_char (b % 16) (omega arith) in
    ground (arith, high, low, pairs-hex bytes hs)

-- `hexToBytes` reads back the bytes that `bytesToHex` wrote.
pub hex-bytes : (bytes : Bytes) → IsBytes bytes → hex_to_bytes (bytes_to_hex bytes) ≡ some bytes
unfolding hex_to_bytes
hex-bytes bytes h = rw (without_prefix-hex bytes h) (pairs-hex bytes h)

pub length-bytes_to_hex : (bytes : Bytes) → length (bytes_to_hex bytes) ≡ length bytes * 2
unfolding bytes_to_hex
length-bytes_to_hex [] = refl
length-bytes_to_hex (b ∷ bytes) = omega (arith, length-bytes_to_hex bytes)
