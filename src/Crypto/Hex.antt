-- ===== src/Crypto/Hex.antt =====
-- `bytesToHex` and `hexToBytes` of src/lib/crypto.ts.
use kody_celld.Prelude.{
  between, ℕ, ◌+◌, ◌-◌, ◌*◌, ◌/◌, ◌%◌, ◌<◌, Bool, ◌||◌, Option, none, some, List, [], ◌∷◌, Text,
  ltb, ◌==◌, if◌then◌else◌, ◌≡◌, refl, arith, All,
}

-- `b.toString(16).padStart(2, '0')` for a byte
abbrev pub hex_digit : ℕ → ℕ
hex_digit n = if ltb n 10 then 48 + n else 87 + n

unfoldable pub bytes_to_hex : List ℕ → Text
bytes_to_hex [] = []
bytes_to_hex (b ∷ bytes) = hex_digit (b / 16) ∷ hex_digit (b % 16) ∷ bytes_to_hex bytes

unfoldable pub digit_value : ℕ → Option ℕ
digit_value c =
    if between 48 57 c
    then some (c - 48)
    else if between 97 102 c
    then some (c - 87)
    else if between 65 70 c
    then some (c - 55)
    else none

-- The characters that parseInt skips in front of a number.
abbrev is_space : ℕ → Bool
is_space c =
    between 9 13 c
    || (c == 32)
    || (c == 160)
    || (c == 0x1680)
    || between 0x2000 0x200a c
    || between 0x2028 0x2029 c
    || (c == 0x202f)
    || (c == 0x205f)
    || (c == 0x3000)
    || (c == 0xfeff)

-- NaN becomes 0 in the array.
abbrev or_zero : Option ℕ → ℕ
or_zero none = 0
or_zero (some n) = n

-- What parseInt makes of the first character `a` and the second, each with its value as a digit.
abbrev byte_by : (a : ℕ) → Option ℕ → Option ℕ → ℕ
byte_by a (some high) (some low) = high * 16 + low
byte_by a (some high) none = high
byte_by a none low =
    if (a == 43) || is_space a
    then or_zero low
    else if a == 45
    then (256 - or_zero low) % 256
    else 0

-- `parseInt(pair, 16)` as an item of a Uint8Array: the longest run of digits counts, behind white
-- space and one sign, and a negative number wraps around. (`0x` has no digit behind it: NaN.)
unfoldable pub byte_of : ℕ → ℕ → ℕ
unfolding digit_value
byte_of a b = byte_by a (digit_value a) (digit_value b)

-- The length `hex.length / 2` is rounded down, so that an odd last character is not read.
unfoldable pub hex_to_bytes : Text → List ℕ
unfolding byte_of
hex_to_bytes [] = []
hex_to_bytes (a ∷ []) = []
hex_to_bytes (a ∷ b ∷ hex) = byte_of a b ∷ hex_to_bytes hex

abbrev pub IsByte : ℕ → Type 0
IsByte b = b < 256

digit_value-hex_digit : (n : ℕ) → n < 16 → digit_value (hex_digit n) ≡ some n
unfolding digit_value
digit_value-hex_digit n h = ground arith

byte_round_trip : (b : ℕ) → b < 256 → byte_of (hex_digit (b / 16)) (hex_digit (b % 16)) ≡ b
unfolding byte_of
byte_round_trip b h =
    rw (digit_value-hex_digit (b / 16) (omega arith), digit_value-hex_digit (b % 16) (omega arith))
      (omega arith)

-- Bytes are read back from their hex text.
pub hex_to_bytes-bytes_to_hex :
    (bytes : List ℕ) → All IsByte bytes → hex_to_bytes (bytes_to_hex bytes) ≡ bytes
unfolding hex_to_bytes bytes_to_hex
hex_to_bytes-bytes_to_hex [] h = refl
hex_to_bytes-bytes_to_hex (b ∷ bytes) h =
    rw (byte_round_trip b h.0, hex_to_bytes-bytes_to_hex bytes h.1) refl
