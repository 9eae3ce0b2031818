-- ===== src/Dns.antt =====
-- src/dns.rs: a reply built from a query. A message is the list of its bytes.
pub mod Be16
pub mod Flags
pub mod Layout
pub mod Names
pub mod Records
pub mod Reply
pub mod Tcp
mod Tests
pub mod Parse
pub mod ReadName
use kirb_la_snoop.Base.{
  ℕ, zero, suc, ◌+◌, ◌-◌, ◌/◌, ◌^◌, min, bit_and, bit_or, Bool, true, false, not, ◌&&◌, ◌||◌,
  Option, none, some, List, [], ◌∷◌, ◌++◌, Bytes, length, get_elem?, get_range, u16_from_be,
  u16_be_bytes, u32_be_bytes, ltb, ◌==◌, if◌then◌else◌, ◌>>=◌, ◌>>◌, guard, is_some,
}
use kirb_la_snoop.Base.Net.{Ipv4Addr, Ipv6Addr, octets4, octets6}
use mathlib.Core.Option

abbrev pub type_a : ℕ
type_a = 1

abbrev pub type_aaaa : ℕ
type_aaaa = 28

abbrev pub class_in : ℕ
class_in = 1

abbrev pub header_len : ℕ
header_len = 12

-- `Answer`
pub record Answer : Type 0 where
  pub a : Option Ipv4Addr
  pub aaaa : Option Ipv6Addr
  pub ttl : ℕ

-- `Query`; the question is the range from `start` to `stop`.
pub record Query : Type 0 where
  pub id : ℕ
  pub flags : ℕ
  pub qtype : ℕ
  pub qclass : ℕ
  pub start : ℕ
  pub stop : ℕ

-- `be16`
unfoldable pub be16 : Bytes → ℕ → Option ℕ
be16 b at = do w ← get_range b at (at + 2); u16_from_be w

-- The loop over the labels of the name, at position `p` with `labels` of them read. The outer
-- option is `none` when the fuel runs out, the inner one when the name is refused.
pub walk_name : ℕ → Bytes → ℕ → ℕ → Option (Option ℕ)
walk_name zero msg p labels = none
walk_name (suc fuel) msg p labels =
    let next = λ (len : ℕ). walk_name fuel msg (p + 1 + len) (labels + 1) in
    elim (get_elem? msg p) [
      | none ↦ some none
      | some len ↦
          if len == 0
          then some (some (p + 1))
          else if not (bit_and len 0xc0 == 0) || ltb 127 labels
          then some none
          else elim (get_range msg (p + 1) (p + 1 + len)) [ none ↦ some none | some _ ↦ next len ]
    ]

-- No name has more than 128 labels, so 129 rounds are enough.
abbrev pub name_fuel : ℕ
name_fuel = 129

abbrev flatten : Option (Option ℕ) → Option ℕ
flatten none = none
flatten (some o) = o

-- The end of the name that starts at `p`.
unfoldable pub end_of_name : Bytes → ℕ → Option ℕ
unfolding walk_name
end_of_name msg p = flatten (walk_name name_fuel msg p 0)

-- `parse`
unfoldable pub parse : Bytes → Option Query
parse msg = do
  guard (not (ltb (length msg) header_len))
  id ← be16 msg 0
  flags ← be16 msg 2
  guard (bit_and flags 0x8000 == 0 && bit_and (flags / 2 ^ 11) 0x0f == 0)
  qdcount ← be16 msg 4
  guard (qdcount == 1)
  p ← end_of_name msg header_len
  qtype ← be16 msg p
  qclass ← be16 msg (p + 2)
  some (record {
    id = id;
    flags = flags;
    qtype = qtype;
    qclass = qclass;
    start = header_len;
    stop = p + 4;
  })

-- The record data to answer with, if any.
unfoldable pub rdata_for : Query → Answer → Option Bytes
rdata_for q ans =
    if not (q.qclass == class_in)
    then none
    else if q.qtype == type_a
    then Option.map octets4 ans.a
    else if q.qtype == type_aaaa
    then Option.map octets6 ans.aaaa
    else none

-- QR set, opcode and RD copied from the query, RA set, rcode 0
unfoldable pub answer_flags : ℕ → ℕ
answer_flags flags =
    bit_or (bit_or (bit_or 0x8000 (bit_and flags 0x7800)) (bit_and flags 0x0100)) 0x0080

-- The answer section, behind a pointer to the name in the question.
unfoldable pub answer_record : Query → Answer → Option Bytes → Bytes
answer_record q ans none = []
answer_record q ans (some rd) =
    0xc0
    ∷ header_len
    ∷ (u16_be_bytes q.qtype
        ++ (u16_be_bytes class_in ++ (u32_be_bytes ans.ttl ++ (u16_be_bytes (length rd) ++ rd))))

-- The header of a reply with `ancount` answers.
unfoldable pub reply_header : Query → ℕ → Bytes
unfolding answer_flags
reply_header q ancount =
    u16_be_bytes q.id
    ++ (u16_be_bytes (answer_flags q.flags)
        ++ (u16_be_bytes 1 ++ (u16_be_bytes ancount ++ (u16_be_bytes 0 ++ u16_be_bytes 0))))

-- `reply`
unfoldable pub reply : Bytes → Answer → Option Bytes
reply msg ans = do
  q ← parse msg
  let rdata = rdata_for q ans
  question ← get_range msg q.start q.stop
  some (reply_header q (if is_some rdata then 1 else 0) ++ (question ++ answer_record q ans rdata))

-- `reply_tcp`
unfoldable pub reply_tcp : Bytes → Answer → Option Bytes
reply_tcp msg ans = do
  declared ← be16 msg 0
  body ← get_range msg 2 (2 + min declared (length msg - 2))
  inner ← reply body ans
  some (u16_be_bytes (length inner) ++ inner)
