-- ===== src/Dns/Records.antt =====
-- src/dns.rs: which record a reply carries.
use kirb_la_snoop.Base.{
  ℕ, ◌+◌, ◌*◌, ◌/◌, ◌%◌, Option, none, some, [], ◌∷◌, ◌++◌, ◌≡◌, ◌≢◌, ◌⊎◌, refl, ap, ◌∙◌, Bytes,
  IsBytes, length, take, drop, u16_be_bytes, u32_be_bytes, ◌==◌, if◌then◌else◌, is_some, arith,
  length-append,
}
use kirb_la_snoop.Dns.{
  Query, Answer, parse, reply, rdata_for, answer_record, reply_header, type_a, type_aaaa, class_in,
}
use kirb_la_snoop.Base.Net.{octets4, octets6}
use kirb_la_snoop.Dns.Parse.{IsQuery, question_of, parse-IsQuery}
use kirb_la_snoop.Dns.Reply.{reply_to, reply-IsQuery, length-reply_header}
use kirb_la_snoop.Dns.Layout.{Answers, reply_to-Answers}

-- A query that no record is configured for is still answered: NOERROR, with no answer.
pub reply_unconfigured :
    (msg : Bytes) (q : Query) (ans : Answer)
    → IsBytes msg
    → parse msg ≡ some q
    → (q.qclass ≢ class_in)
      ⊎ ((q.qtype ≢ type_a) × (q.qtype ≢ type_aaaa))
      ⊎ ((q.qtype ≡ type_a) × (ans.a ≡ none))
      ⊎ ((q.qtype ≡ type_aaaa) × (ans.aaaa ≡ none))
    → (r : Bytes) × (reply msg ans ≡ some r)
      × (length r ≡ q.stop)
      × (take 8 (drop 4 r) ≡ 0 ∷ 1 ∷ 0 ∷ 0 ∷ 0 ∷ 0 ∷ 0 ∷ 0 ∷ [])
      × (take 2 (drop 2 r) ≡ u16_be_bytes (0x8080 + q.flags / 256 % 2 * 256))
reply_unconfigured msg q ans h e why = (
  reply_to q w.names ans,
  reply-IsQuery msg q ans w,
  omega (
    arith,
    length-reply_header q count,
    length-append (reply_header q count) (question ++ answer_record q ans (rdata_for q ans)),
    length-append question (answer_record q ans (rdata_for q ans)),
    ap length nothing,
    w.range_is,
  ),
  shape.counts_are
      ∙ ap (λ (o : Option Bytes). 0 ∷ 1 ∷ 0 ∷ (if is_some o then 1 else 0) ∷ 0 ∷ 0 ∷ 0 ∷ 0 ∷ [])
          no_data,
  shape.flags_are,
)
  where
    w : IsQuery msg q
    w = parse-IsQuery msg q h e

    question : Bytes
    question = question_of w.names q.qtype q.qclass

    count : ℕ
    count = if is_some (rdata_for q ans) then 1 else 0

    no_data : rdata_for q ans ≡ none
    no_data = unfold rdata_for in ground arith

    nothing : answer_record q ans (rdata_for q ans) ≡ []
    nothing = ap (answer_record q ans) no_data ∙ (unfold answer_record in refl)

    shape : Answers msg q ans (reply_to q w.names ans)
    shape = reply_to-Answers msg q ans w

-- A query for an address that is configured is answered with it, behind a pointer to the question.
pub reply_configured :
    (msg : Bytes) (q : Query) (ans : Answer) (ip : ℕ)
    → IsBytes msg
    → parse msg ≡ some q
    → q.qclass ≡ class_in
    → (q.qtype ≡ type_a) × (ans.a ≡ some ip) ⊎ (q.qtype ≡ type_aaaa) × (ans.aaaa ≡ some ip)
    → (r : Bytes) × (reply msg ans ≡ some r)
      × (take 8 (drop 4 r) ≡ 0 ∷ 1 ∷ 0 ∷ 1 ∷ 0 ∷ 0 ∷ 0 ∷ 0 ∷ [])
      × (drop q.stop r
          ≡ 0xc0
            ∷ 12
            ∷ 0
            ∷ q.qtype
            ∷ 0
            ∷ 1
            ∷ (u32_be_bytes ans.ttl
                ++ (if q.qtype == type_a then 0 ∷ 4 ∷ octets4 ip else 0 ∷ 16 ∷ octets6 ip)))
reply_configured msg q ans ip h e in_class which = (
  reply_to q w.names ans,
  reply-IsQuery msg q ans w,
  shape.counts_are
      ∙ ap (λ (o : Option Bytes). 0 ∷ 1 ∷ 0 ∷ (if is_some o then 1 else 0) ∷ 0 ∷ 0 ∷ 0 ∷ 0 ∷ [])
          data_is,
  shape.answer_is ∙ ap (answer_record q ans) data_is ∙ (unfold answer_record in ground arith),
)
  where
    w : IsQuery msg q
    w = parse-IsQuery msg q h e

    data_is : rdata_for q ans ≡ some (if q.qtype == type_a then octets4 ip else octets6 ip)
    data_is = unfold rdata_for in ground arith

    shape : Answers msg q ans (reply_to q w.names ans)
    shape = reply_to-Answers msg q ans w
