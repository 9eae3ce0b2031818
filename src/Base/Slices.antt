-- ===== src/Base/Slices.antt =====
-- `slice::get` with an index or a range.
use Prim.Native.Nat.{ℕ, ◌+◌, ◌-◌, ◌*◌, ◌≤◌}
use mathlib.Core.Path.{◌≡◌}
use mathlib.Core.Bool.{◌&&◌}
use mathlib.Core.List.{List, [], ◌∷◌}
use mathlib.Core.Option.{Option, none, some}
use native.Mathlib.Omega.{arith}
use kirb_la_snoop.Base.Logic.{leb, le→leb, if◌then◌else◌}
use kirb_la_snoop.Base.Lists.{length, take, drop, length-take, length-drop}
use kirb_la_snoop.Base.Words.{Bytes}

-- `xs.get(from..to)`
unfoldable pub get_range {ℓ} : {A : Type ℓ} → List A → ℕ → ℕ → Option (List A)
get_range xs from to =
    if leb from to && leb to (length xs) then some (take (to - from) (drop from xs)) else none

-- What `get` returns lies in the slice, and has the length of the range.
pub get_range-eq-some {ℓ} :
    {A : Type ℓ} (xs : List A) (from to : ℕ) {ys : List A}
    → get_range xs from to ≡ some ys
    → (from ≤ to)
      × (to ≤ length xs)
      × (length ys ≡ to - from)
      × (ys ≡ take (to - from) (drop from xs))
unfolding get_range
get_range-eq-some xs from to h =
    ground (arith, length-take (to - from) (drop from xs), length-drop from xs)

pub get_range-within {ℓ} :
    {A : Type ℓ} (xs : List A) (from to : ℕ)
    → from ≤ to
    → to ≤ length xs
    → get_range xs from to ≡ some (take (to - from) (drop from xs))
unfolding get_range
get_range-within xs from to h k = rw (le→leb from to h, le→leb to (length xs) k)

-- `u16::from_be_bytes(b.try_into().ok()?)`
unfoldable pub u16_from_be : Bytes → Option ℕ
u16_from_be (hi ∷ lo ∷ []) = some (hi * 256 + lo)
u16_from_be _ = none
