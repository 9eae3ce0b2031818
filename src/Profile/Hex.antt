-- ===== src/Profile/Hex.antt =====
-- src/profile.rs: `parse_hex`. The cleaned text is sliced by its bytes, two at a time; a slice that
-- would cut a character in two is a panic of `str`.
pub mod Read
use kirb_la_snoop.Base.{
  ℕ, ◌+◌, ◌-◌, ◌*◌, ◌%◌, Bool, false, ◌&&◌, ◌||◌, Option, none, some, [], ◌∷◌, Bytes, Text, length,
  leb, ltb, ◌==◌, if◌then◌else◌, Result, ok, err, and_then, ok_or, ◌>>=◌,
}
use kirb_la_snoop.Base.Strings.{is_ascii_whitespace}
use kirb_la_snoop.Base.Utf8.{as_bytes}
use kirb_la_snoop.Base.HexText.{from_hex}

pub data HexError : Type 0 where
  odd_digits bad_byte not_char_boundary : HexError

-- A byte inside a character of UTF-8.
abbrev pub is_continuation : ℕ → Bool
is_continuation b = leb 0x80 b && ltb b 0xc0

abbrev pub starts_inside : Bytes → Bool
starts_inside [] = false
starts_inside (b ∷ bs) = is_continuation b

-- The map over the even offsets, stopped by the first error.
pub parse_pairs : Bytes → Result HexError Bytes
parse_pairs [] = ok []
parse_pairs (a ∷ []) = err odd_digits
parse_pairs (a ∷ b ∷ rest) =
    if is_continuation a || starts_inside rest
    then err not_char_boundary
    else (and_then (ok_or (from_hex a b) bad_byte)
        λ v. and_then (parse_pairs rest) λ vs. ok (v ∷ vs))

is_separator : ℕ → Bool
is_separator c = is_ascii_whitespace c || c == b':' || c == b'-' || c == b','

-- The text without its separators.
pub clean : Text → Text
unfolding is_separator
clean [] = []
clean (c ∷ cs) = if is_separator c then clean cs else c ∷ clean cs

-- `cleaned.strip_prefix("0x").unwrap_or(&cleaned)`
unfoldable pub strip_0x : Bytes → Bytes
strip_0x (c ∷ d ∷ rest) = if c == b'0' && d == b'x' then rest else c ∷ d ∷ rest
strip_0x short = short

-- `parse_hex`
unfoldable pub parse_hex : Text → Result HexError Bytes
unfolding parse_pairs clean strip_0x from_hex
parse_hex s =
    let cleaned = strip_0x (as_bytes (clean s)) in
    if length cleaned % 2 == 0 then parse_pairs cleaned else err odd_digits
