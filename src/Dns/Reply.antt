-- ===== src/Dns/Reply.antt =====
-- src/dns.rs: what `reply` sends.
use kirb_la_snoop.Base.{
  ℕ, ◌+◌, ◌-◌, ◌*◌, ◌/◌, ◌%◌, ◌<◌, none, some, List, ◌++◌, ◌≡◌, ◌↔◌, refl, sym, ap, ◌∙◌, Bytes,
  IsBytes, length, take, drop, get_range, u16_be_bytes, if◌then◌else◌, is_some, arith,
  get_range-within, take-length-append, Option-cases, inl, inr, query_bits_clear, take_eq,
}
use kirb_la_snoop.Dns.{Query, Answer, be16, parse, reply, rdata_for, answer_record, reply_header}
use kirb_la_snoop.Dns.Be16.{be16-drop, parse-Steps}
use kirb_la_snoop.Dns.Parse.{IsQuery, question_of, parse-IsQuery, IsQuery-parse}
use kirb_la_snoop.Dns.Flags.{answer_flags_lem}

-- The reply to a query: header, the question as it came, and the answer.
abbrev pub reply_to : Query → List Bytes → Answer → Bytes
reply_to q names ans =
    reply_header q (if is_some (rdata_for q ans) then 1 else 0)
    ++ (question_of names q.qtype q.qclass ++ answer_record q ans (rdata_for q ans))

question_range :
    (msg : Bytes) (q : Query) (w : IsQuery msg q)
    → get_range msg q.start q.stop ≡ some (question_of w.names q.qtype q.qclass)
question_range msg q w =
    let question = question_of w.names q.qtype q.qclass in
    let n = w.range_is in
    ap (λ (k : ℕ). get_range msg k q.stop) n.0
    ∙ get_range-within msg 12 q.stop (omega arith) w.inside
    ∙ ap some (
        take_eq {m = q.stop - 12} {n = length question} (drop 12 msg) (omega arith)
        ∙ ap (take (length question)) w.question_is
        ∙ take-length-append question (drop q.stop msg))

-- Every query is answered, with the reply of its parts.
pub reply-IsQuery :
    (msg : Bytes) (q : Query) (ans : Answer) (w : IsQuery msg q)
    → reply msg ans ≡ some (reply_to q w.names ans)
unfolding reply
reply-IsQuery msg q ans w = rw (IsQuery-parse msg q w) (rw (question_range msg q w) refl)

-- What is not a query is not answered.
pub reply_refused : (msg : Bytes) (ans : Answer) → parse msg ≡ none → reply msg ans ≡ none
unfolding reply
reply_refused msg ans e = rw e refl

-- `reply` answers exactly the queries.
pub reply_iff :
    (msg : Bytes) (ans : Answer) (r : Bytes)
    → IsBytes msg
    → (reply msg ans ≡ some r) ↔ ((q : Query) × (w : IsQuery msg q) × (r ≡ reply_to q w.names ans))
reply_iff msg ans r h = (forth, λ (q, w, e). reply-IsQuery msg q ans w ∙ ap some (sym e))
  where
    forth :
        reply msg ans ≡ some r → (q : Query) × (w : IsQuery msg q) × (r ≡ reply_to q w.names ans)
    forth k = elim (Option-cases (parse msg)) [
      | inl refused ↦ absurd (cc (reply_refused msg ans refused, k))
      | inr (q, e) ↦ let w = parse-IsQuery msg q h e in (q, w, cc (k, reply-IsQuery msg q ans w))
    ]

pub length-reply_header : (q : Query) (n : ℕ) → length (reply_header q n) ≡ 12
unfolding reply_header
length-reply_header q n = refl

flags_of_reply :
    (q : Query) (n : ℕ) (rest : Bytes)
    → q.flags < 2048
    → be16 (reply_header q n ++ rest) 2 ≡ some (0x8080 + q.flags / 256 % 2 * 256)
unfolding reply_header
flags_of_reply q n rest h =
    be16-drop (reply_header q n ++ rest)
      (u16_be_bytes 1 ++ (u16_be_bytes n ++ (u16_be_bytes 0 ++ (u16_be_bytes 0 ++ rest)))) 2
      (0x8080 + q.flags / 256 % 2 * 256)
      (ap
        (λ (f : ℕ).
          u16_be_bytes f
          ++ (u16_be_bytes 1 ++ (u16_be_bytes n ++ (u16_be_bytes 0 ++ (u16_be_bytes 0 ++ rest)))))
        (answer_flags_lem q.flags h))
      (omega arith)

-- A reply is never itself answered, so two of these servers cannot keep one another busy.
pub reply_not_answered :
    (msg : Bytes) (ans ans' : Answer) (r : Bytes)
    → IsBytes msg
    → reply msg ans ≡ some r
    → (parse r ≡ none) × (reply r ans' ≡ none)
reply_not_answered msg ans ans' r h k =
    let refused = unanswerable in (refused, reply_refused r ans' refused)
  where
    unanswerable : parse r ≡ none
    unanswerable = elim (Option-cases (parse r)) [
      | inl refused ↦ refused
      | inr (q', e) ↦
          let (q, w, shape) = (reply_iff msg ans r h).0 k in
          let s = parse-Steps r q' e in
          let flags =
            flags_of_reply q (if is_some (rdata_for q ans) then 1 else 0)
              (question_of w.names q.qtype q.qclass ++ answer_record q ans (rdata_for q ans))
              w.is_query in
          let known : q'.flags ≡ 0x8080 + q.flags / 256 % 2 * 256 = cc (s.flags_at, flags) in
          absurd (ground (arith, known, s.bits, query_bits_clear q'.flags (omega (arith, known))))
    ]
