-- ===== src/Base/HexText.antt =====
-- `{b:02x}` of a format string, and the reading of it.
use Prim.Native.Nat.{ℕ, ◌+◌, ◌-◌, ◌*◌, ◌/◌, ◌%◌, ◌<◌, ◌≤◌}
use mathlib.Core.Path.{◌≡◌}
use mathlib.Core.Logic.{◌≢◌}
use mathlib.Core.Bool.{◌&&◌}
use mathlib.Core.List.{[], ◌∷◌, ◌++◌}
use mathlib.Core.Option.{Option, none, some}
use native.Mathlib.Omega.{arith}
use kirb_la_snoop.Base.Logic.{ltb, leb, ◌==◌, if◌then◌else◌, ◌>>=◌}
use kirb_la_snoop.Base.Words.{Bytes, Text}

-- A digit in base 16.
unfoldable pub hex_char : ℕ → ℕ
hex_char n = if ltb n 10 then b'0' + n else b'a' + (n - 10)

-- `{b:02x}`, for a byte.
abbrev pub hex_byte : ℕ → Text
hex_byte b = hex_char (b / 16) ∷ hex_char (b % 16) ∷ []

unfoldable pub hex_text : Bytes → Text
hex_text [] = []
hex_text (b ∷ bs) = hex_byte b ++ hex_text bs

-- `char::to_digit(16)`
unfoldable pub hex_digit : ℕ → Option ℕ
hex_digit c =
    if leb b'0' c && leb c b'9'
    then some (c - b'0')
    else if leb b'a' c && leb c b'f'
    then some (c - b'a' + 10)
    else if leb b'A' c && leb c b'F'
    then some (c - b'A' + 10)
    else none

-- `u8::from_str_radix` of two characters in base 16: it takes a plus sign for the first.
unfoldable pub from_hex : ℕ → ℕ → Option ℕ
unfolding hex_digit
from_hex hi lo =
    if hi == b'+' then hex_digit lo else (do h ← hex_digit hi; l ← hex_digit lo; some (h * 16 + l))

pub hex_digit-hex_char : (n : ℕ) → n < 16 → hex_digit (hex_char n) ≡ some n
unfolding hex_digit hex_char
hex_digit-hex_char n h = ground arith

pub hex_char_range : (n : ℕ) → n < 16 → (48 ≤ hex_char n) × (hex_char n < 0x67)
unfolding hex_char
hex_char_range n h = ground arith

pub hex_char-ne-colon : (n : ℕ) → n < 16 → hex_char n ≢ b':'
unfolding hex_char
hex_char-ne-colon n h e = ground (arith, e)

-- A printed byte reads back.
pub from_hex-hex_byte :
    (b : ℕ) → b < 256 → from_hex (hex_char (b / 16)) (hex_char (b % 16)) ≡ some b
unfolding from_hex
from_hex-hex_byte b h =
    ground
      (arith, hex_char_range (b / 16), hex_digit-hex_char (b / 16), hex_digit-hex_char (b % 16))
