-- ===== src/Base/Lossy.antt =====
-- `String::from_utf8_lossy` and `str::from_utf8`, as a machine that takes one byte at a time.
use Prim.Native.Nat.{ℕ, ◌+◌, ◌-◌, ◌*◌}
use mathlib.Core.Path.{◌≡◌, refl}
use mathlib.Core.Bool.{Bool, ◌&&◌, ◌||◌}
use mathlib.Core.List.{[], ◌∷◌, ◌++◌}
use mathlib.Core.Option.{Option, none, some}
use mathlib.Core.Option
use native.Mathlib.Omega.{arith}
use kirb_la_snoop.Base.Logic.{ltb, leb, ◌==◌, if◌then◌else◌}
use kirb_la_snoop.Base.Lists.{All}
use kirb_la_snoop.Base.Words.{Bytes, Text}
use kirb_la_snoop.Base.Utf8.{IsAscii}

-- Where a decoder stands: between characters, or inside one, with the number of bytes to come, the
-- bits so far, and the range of the byte that comes next.
pub data Inside : Type 0 where
  between : Inside
  inside : ℕ → ℕ → ℕ → ℕ → Inside

-- U+FFFD, which stands for what is not UTF-8.
abbrev pub replacement : ℕ
replacement = 0xfffd

-- A byte between two characters.
abbrev pub first_byte : ℕ → Text × Inside
first_byte b =
    if ltb b 0x80
    then (b ∷ [], between)
    else if ltb b 0xc2
    then (replacement ∷ [], between)
    else if ltb b 0xe0
    then ([], inside 1 (b - 0xc0) 0x80 0xbf)
    else if b == 0xe0
    then ([], inside 2 0 0xa0 0xbf)
    else if b == 0xed
    then ([], inside 2 13 0x80 0x9f)
    else if ltb b 0xf0
    then ([], inside 2 (b - 0xe0) 0x80 0xbf)
    else if b == 0xf0
    then ([], inside 3 0 0x90 0xbf)
    else if ltb b 0xf4
    then ([], inside 3 (b - 0xf0) 0x80 0xbf)
    else if b == 0xf4
    then ([], inside 3 4 0x80 0x8f)
    else (replacement ∷ [], between)

-- A byte, and the characters that it completes.
abbrev pub next_byte : Inside → ℕ → Text × Inside
next_byte between b = first_byte b
next_byte (inside left bits lo hi) b =
    if leb lo b && leb b hi
    then (if left == 1
        then ((bits * 64 + (b - 0x80)) ∷ [], between)
        else ([], inside (left - 1) (bits * 64 + (b - 0x80)) 0x80 0xbf))
    else (replacement ∷ (first_byte b).0, (first_byte b).1)

pub decode_from : Inside → Bytes → Text
decode_from between [] = []
decode_from (inside left bits lo hi) [] = replacement ∷ []
decode_from at (b ∷ bs) = (next_byte at b).0 ++ decode_from (next_byte at b).1 bs

-- `String::from_utf8_lossy`
unfoldable pub from_utf8_lossy : Bytes → Text
unfolding decode_from
from_utf8_lossy = decode_from between

-- `first_byte` where the byte starts a character.
abbrev pub starts_char : ℕ → Bool
starts_char b = ltb b 0x80 || leb 0xc2 b && leb b 0xf4

-- `str::from_utf8(..).ok()`
unfoldable pub strict_from : Inside → Bytes → Option Text
strict_from between [] = some []
strict_from (inside left bits lo hi) [] = none
strict_from between (b ∷ bs) =
    let rest = strict_from (first_byte b).1 bs in
    if starts_char b then Option.map (◌++◌ (first_byte b).0) rest else none
strict_from (inside left bits lo hi) (b ∷ bs) =
    let rest = strict_from (next_byte (inside left bits lo hi) b).1 bs in
    if leb lo b && leb b hi
    then Option.map (◌++◌ (next_byte (inside left bits lo hi) b).0) rest
    else none

unfoldable pub from_utf8 : Bytes → Option Text
unfolding strict_from
from_utf8 = strict_from between

-- ASCII bytes are the characters that they decode to.
pub from_utf8_lossy_ascii : (bs : Bytes) → All IsAscii bs → from_utf8_lossy bs ≡ bs
unfolding from_utf8_lossy
from_utf8_lossy_ascii [] h = refl
from_utf8_lossy_ascii (b ∷ bs) h = ground (arith, h.0, from_utf8_lossy_ascii bs h.1)
