-- ===== src/Base/Utf8.antt =====
-- `char::encode_utf8` and `str::as_bytes`.
use Prim.Native.Nat.{ℕ, ◌+◌, ◌/◌, ◌%◌, ◌<◌}
use mathlib.Core.Path.{◌≡◌, refl, ap₂}
use mathlib.Core.List.{[], ◌∷◌, ◌++◌}
use native.Mathlib.Omega.{arith}
use kirb_la_snoop.Base.Logic.{ltb, if◌then◌else◌}
use kirb_la_snoop.Base.Lists.{All}
use kirb_la_snoop.Base.Words.{Bytes, Text}

unfoldable pub encode_utf8 : ℕ → Bytes
encode_utf8 c =
    if ltb c 0x80
    then c ∷ []
    else if ltb c 0x800
    then (0xc0 + c / 64) ∷ (0x80 + c % 64) ∷ []
    else if ltb c 0x10000
    then (0xe0 + c / 4096) ∷ (0x80 + c / 64 % 64) ∷ (0x80 + c % 64) ∷ []
    else (0xf0 + c / 262144) ∷ (0x80 + c / 4096 % 64) ∷ (0x80 + c / 64 % 64) ∷ (0x80 + c % 64) ∷ []

unfoldable pub as_bytes : Text → Bytes
unfolding encode_utf8
as_bytes [] = []
as_bytes (c ∷ cs) = encode_utf8 c ++ as_bytes cs

abbrev pub IsAscii : ℕ → Type 0
IsAscii c = c < 0x80

-- The bytes of an ASCII text are its characters.
pub as_bytes_ascii : (t : Text) → All IsAscii t → as_bytes t ≡ t
unfolding as_bytes
as_bytes_ascii [] h = refl
as_bytes_ascii (c ∷ cs) h =
    ap₂ ◌++◌ {y = c ∷ []} (unfold encode_utf8 in ground (arith, h.0)) (as_bytes_ascii cs h.1)
