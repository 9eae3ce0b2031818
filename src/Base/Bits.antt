-- ===== src/Base/Bits.antt =====
-- Bit masks on bytes and u16, checked over the whole range.
use Prim.Native.Nat.{ℕ, zero, suc, ◌/◌, ◌^◌, ◌<◌, bit_and}
use mathlib.Core.Path.{◌≡◌, refl}
use mathlib.Core.Bool.{Bool, true, false, ◌&&◌, not}
use native.Mathlib.Omega.{arith}
use kirb_la_snoop.Base.Logic.{ltb, ◌==◌}

-- Whether a test passes at each number under a bound: a table that evaluation checks.
unfoldable pub holds_under : (ℕ → Bool) → ℕ → Bool
holds_under test zero = true
holds_under test (suc k) = holds_under test k && test k

pub table_entry :
    (test : ℕ → Bool) (bound k : ℕ) → holds_under test bound ≡ true → k < bound → test k ≡ true
unfolding holds_under
table_entry test zero k checked below = absurd (omega arith)
table_entry test (suc bound) k checked below = ground (arith, table_entry test bound k)

-- Boolean equality, to state an equivalence of tests as a table.
abbrev same : Bool → Bool → Bool
same true b = b
same false b = not b

abbrev top_bits_test : ℕ → Bool
top_bits_test x = same (bit_and x 0xc0 == 0) (ltb x 64)

top_bits_table : holds_under top_bits_test 256 ≡ true
unfolding holds_under
top_bits_table = refl

-- The two top bits of a byte are clear exactly below 64.
pub top_bits_clear : (x : ℕ) → x < 256 → (bit_and x 0xc0 == 0) ≡ ltb x 64
top_bits_clear x h = ground (arith, table_entry top_bits_test 256 x top_bits_table h)

abbrev query_bits_test : ℕ → Bool
query_bits_test x = same (bit_and x 0x8000 == 0 && bit_and (x / 2 ^ 11) 0x0f == 0) (ltb x 2048)

query_bits_table : holds_under query_bits_test (2 ^ 16) ≡ true
unfolding holds_under
query_bits_table = refl

-- A u16 has its top bit and the four bits below it clear exactly below 2048.
pub query_bits_clear :
    (x : ℕ) → x < 2 ^ 16 → (bit_and x 0x8000 == 0 && bit_and (x / 2 ^ 11) 0x0f == 0) ≡ ltb x 2048
query_bits_clear x h = ground (arith, table_entry query_bits_test (2 ^ 16) x query_bits_table h)
