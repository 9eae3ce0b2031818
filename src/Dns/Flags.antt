-- ===== src/Dns/Flags.antt =====
-- src/dns.rs: the flags word of a reply.
use kirb_la_snoop.Base.{
  ℕ, ◌+◌, ◌*◌, ◌/◌, ◌%◌, ◌<◌, ◌≡◌, refl, Bool, true, ◌==◌, ==_iff, holds_under, table_entry,
}
use kirb_la_snoop.Dns.{answer_flags}

abbrev flags_test : ℕ → Bool
flags_test x = answer_flags x == 0x8080 + x / 256 % 2 * 256

answer_flags_table : holds_under flags_test 2048 ≡ true
unfolding holds_under answer_flags
answer_flags_table = refl

-- The flags of the answer to a query: QR, RA, and the query's RD.
pub answer_flags_lem : (x : ℕ) → x < 2048 → answer_flags x ≡ 0x8080 + x / 256 % 2 * 256
answer_flags_lem x h =
    (==_iff (answer_flags x) (0x8080 + x / 256 % 2 * 256)).0
      (table_entry flags_test 2048 x answer_flags_table h)
