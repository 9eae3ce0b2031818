-- ===== src/Dns/Tests.antt =====
-- src/dns.rs: the runs of its tests, and the theorems at concrete inputs.
use kirb_la_snoop.Base.{
  ℕ, ◌+◌, ◌*◌, ◌/◌, ◌%◌, ◌≤◌, none, some, [], ◌∷◌, ◌++◌, ◌≡◌, ◌≢◌, ◌↔◌, refl, Bytes, IsBytes,
  length, take, drop, u16_be_bytes, u32_be_bytes, u16_from_be, arith, get_range, inl, inr,
}
use kirb_la_snoop.Base.Net.{octets4}
use mathlib.Core.Option
use kirb_la_snoop.Dns.{
  Query, Answer, reply_header, be16, walk_name, end_of_name, parse, reply, reply_tcp, rdata_for,
  answer_record,
}
use kirb_la_snoop.Dns.Names.{walk_name_total}
use kirb_la_snoop.Dns.Parse.{IsQuery, parse_iff}
use kirb_la_snoop.Dns.Reply.{reply_not_answered}
use kirb_la_snoop.Dns.Layout.{Answers, reply_layout, length-reply}
use kirb_la_snoop.Dns.Records.{reply_unconfigured, reply_configured}
use kirb_la_snoop.Dns.Tcp.{frame, reply_tcp_lem}

abbrev header : Bytes
header = 0x12 ∷ 0x34 ∷ 1 ∷ 0 ∷ 0 ∷ 1 ∷ 0 ∷ 0 ∷ 0 ∷ 0 ∷ 0 ∷ 0 ∷ []

-- "a.io"
abbrev wire_name : Bytes
wire_name = 1 ∷ b'a' ∷ 2 ∷ b'i' ∷ b'o' ∷ 0 ∷ []

abbrev query_a : Bytes
query_a = header ++ (wire_name ++ (0 ∷ 1 ∷ 0 ∷ 1 ∷ []))

abbrev query_aaaa : Bytes
query_aaaa = header ++ (wire_name ++ (0 ∷ 28 ∷ 0 ∷ 1 ∷ []))

abbrev answer : Answer
answer = record { a = some 0xc0000201; aaaa = none; ttl = 60 }

abbrev asked : ℕ → Query
asked t = record { id = 0x1234; flags = 0x100; qtype = t; qclass = 1; start = 12; stop = 22 }

abbrev answered : Bytes
answered =
    0x12
    ∷ 0x34
    ∷ 0x81
    ∷ 0x80
    ∷ 0
    ∷ 1
    ∷ 0
    ∷ 1
    ∷ 0
    ∷ 0
    ∷ 0
    ∷ 0
    ∷ (wire_name
        ++ (0 ∷ 1 ∷ 0 ∷ 1 ∷ 0xc0 ∷ 12 ∷ 0 ∷ 1 ∷ 0 ∷ 1 ∷ 0 ∷ 0 ∷ 0 ∷ 60 ∷ 0 ∷ 4 ∷ 192 ∷ 0 ∷ 2 ∷ 1
            ∷ []))

query_a-IsBytes : IsBytes query_a
query_a-IsBytes = omega arith

parse-query_a : parse query_a ≡ some (asked 1)
unfolding parse be16 end_of_name get_range u16_from_be
parse-query_a = refl

parse-query_aaaa : parse query_aaaa ≡ some (asked 28)
unfolding parse be16 end_of_name get_range u16_from_be
parse-query_aaaa = refl

reply-query_a : reply query_a answer ≡ some answered
unfolding reply parse be16 end_of_name get_range u16_from_be rdata_for answer_record reply_header
reply-query_a = refl

garbage_is_not_answered : (reply [] answer ≡ none) × (reply (0xde ∷ 0xad ∷ []) answer ≡ none)
unfolding reply parse be16
garbage_is_not_answered = (refl, refl)

walk_name_total_example : walk_name 129 query_a 12 0 ≢ none
walk_name_total_example = walk_name_total 129 query_a 12 0 (omega arith) (omega arith)

parse_iff_example : (parse query_a ≡ some (asked 1)) ↔ IsQuery query_a (asked 1)
parse_iff_example = parse_iff query_a (asked 1) query_a-IsBytes

reply_not_answered_example : (parse answered ≡ none) × (reply answered answer ≡ none)
reply_not_answered_example =
    reply_not_answered query_a answer answer answered query_a-IsBytes reply-query_a

reply_layout_example : (q : Query) × IsQuery query_a q × Answers query_a q answer answered
reply_layout_example = reply_layout query_a answer answered query_a-IsBytes reply-query_a

length-reply_example : (length answered ≤ length query_a + 28) × (length answered ≤ 8237)
length-reply_example = length-reply query_a answer answered query_a-IsBytes reply-query_a

reply_unconfigured_example :
    (r : Bytes) × (reply query_aaaa answer ≡ some r)
    × (length r ≡ 22)
    × (take 8 (drop 4 r) ≡ 0 ∷ 1 ∷ 0 ∷ 0 ∷ 0 ∷ 0 ∷ 0 ∷ 0 ∷ [])
    × (take 2 (drop 2 r) ≡ u16_be_bytes (0x8080 + 0x100 / 256 % 2 * 256))
reply_unconfigured_example =
    reply_unconfigured query_aaaa (asked 28) answer (omega arith) parse-query_aaaa
      (inr (inr (inr (refl, refl))))

reply_configured_example :
    (r : Bytes) × (reply query_a answer ≡ some r)
    × (take 8 (drop 4 r) ≡ 0 ∷ 1 ∷ 0 ∷ 1 ∷ 0 ∷ 0 ∷ 0 ∷ 0 ∷ [])
    × (drop 22 r ≡ 0xc0 ∷ 12 ∷ 0 ∷ 1 ∷ 0 ∷ 1 ∷ (u32_be_bytes 60 ++ (0 ∷ 4 ∷ octets4 0xc0000201)))
reply_configured_example =
    reply_configured query_a (asked 1) answer 0xc0000201 query_a-IsBytes parse-query_a refl
      (inl (refl, refl))

reply_tcp_lem_example :
    (reply_tcp (u16_be_bytes 22 ++ query_a) answer
      ≡ Option.map frame (reply (take 22 query_a) answer))
    × ((r : Bytes) → reply (take 22 query_a) answer ≡ some r → be16 (frame r) 0 ≡ some (length r))
reply_tcp_lem_example = reply_tcp_lem 22 query_a answer (omega arith) query_a-IsBytes
