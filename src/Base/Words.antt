-- ===== src/Base/Words.antt =====
-- Bytes, and the machine words of the program: u16, u32, u64 (`usize` is a u64 here).
use Prim.Native.Nat.{ℕ, ◌+◌, ◌-◌, ◌/◌, ◌%◌, ◌^◌, ◌<◌}
use Prim.Native.Char.{code}
use Prim.Native.String.{String}
use mathlib.Core.List.{List, [], ◌∷◌}
use kirb_la_snoop.Base.Lists.{All}

abbrev pub Bytes : Type 0
Bytes = List ℕ

-- A text, as the code points of its characters.
abbrev pub Text : Type 0
Text = List ℕ

abbrev pub codes : String → Text
codes String.[] = []
codes (String.◌∷◌ c s) = code c ∷ codes s

abbrev pub IsByte : ℕ → Type 0
IsByte b = b < 256

abbrev pub IsBytes : Bytes → Type 0
IsBytes = All IsByte

-- `a + b` on u64, which wraps.
abbrev pub add_u64 : ℕ → ℕ → ℕ
add_u64 a b = (a + b) % 2 ^ 64

-- `a - b` on u64, which wraps.
abbrev pub sub_u64 : ℕ → ℕ → ℕ
sub_u64 a b = (a + 2 ^ 64 - b % 2 ^ 64) % 2 ^ 64

-- `(x as u16).to_be_bytes()`: the cast keeps the low 16 bits.
abbrev pub u16_be_bytes : ℕ → Bytes
u16_be_bytes x = (x / 2 ^ 8) % 2 ^ 8 ∷ x % 2 ^ 8 ∷ []

-- `u32::to_be_bytes`
abbrev pub u32_be_bytes : ℕ → Bytes
u32_be_bytes x = (x / 2 ^ 24) % 2 ^ 8 ∷ (x / 2 ^ 16) % 2 ^ 8 ∷ (x / 2 ^ 8) % 2 ^ 8 ∷ x % 2 ^ 8 ∷ []
