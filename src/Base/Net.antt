-- ===== src/Base/Net.antt =====
-- Addresses of `std::net`: an address is the number that its octets spell.
use Prim.Native.Nat.{ℕ, ◌+◌, ◌*◌, ◌/◌, ◌%◌, ◌^◌, ◌<◌}
use mathlib.Core.Path.{◌≡◌, ap, ◌∙◌}
use native.Mathlib.Omega.{arith}
use mathlib.Core.List.{[], ◌∷◌, ◌++◌}
use kirb_la_snoop.Base.Words.{Bytes, u32_be_bytes}

abbrev pub Ipv4Addr : Type 0
Ipv4Addr = ℕ

abbrev pub Ipv6Addr : Type 0
Ipv6Addr = ℕ

-- `Ipv4Addr::octets`
abbrev pub octets4 : Ipv4Addr → Bytes
octets4 = u32_be_bytes

-- `Ipv6Addr::octets`
abbrev pub octets6 : Ipv6Addr → Bytes
octets6 ip =
    u32_be_bytes (ip / 2 ^ 96)
    ++ (u32_be_bytes (ip / 2 ^ 64) ++ (u32_be_bytes (ip / 2 ^ 32) ++ u32_be_bytes ip))

-- `Ipv4Addr::from` and `Ipv6Addr::from`: octets, the first one highest, after those that gave `acc`.
unfoldable pub from_octets : ℕ → Bytes → ℕ
from_octets acc [] = acc
from_octets acc (b ∷ bs) = from_octets (acc * 256 + b) bs

from_octets-u32 :
    (acc x : ℕ) (rest : Bytes)
    → from_octets acc (u32_be_bytes x ++ rest) ≡ from_octets (acc * 2 ^ 32 + x % 2 ^ 32) rest
unfolding from_octets
from_octets-u32 acc x rest = ap (λ n. from_octets n rest) (omega arith)

pub from_octets-octets4 : (ip : ℕ) → ip < 2 ^ 32 → from_octets 0 (octets4 ip) ≡ ip
unfolding from_octets
from_octets-octets4 ip h = omega arith

pub from_octets-octets6 : (ip : ℕ) → ip < 2 ^ 128 → from_octets 0 (octets6 ip) ≡ ip
from_octets-octets6 ip h =
    from_octets-u32 0 (ip / 2 ^ 96) _
    ∙ from_octets-u32 (0 * 2 ^ 32 + (ip / 2 ^ 96) % 2 ^ 32) (ip / 2 ^ 64) _
    ∙ from_octets-u32 _ (ip / 2 ^ 32) _
    ∙ (unfold from_octets in omega arith)
