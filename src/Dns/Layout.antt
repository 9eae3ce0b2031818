-- ===== src/Dns/Layout.antt =====
-- src/dns.rs: the parts of a reply, and its size.
use kirb_la_snoop.Base.{
  ℕ, ◌+◌, ◌-◌, ◌*◌, ◌/◌, ◌%◌, ◌≤◌, ◌<◌, some, List, [], ◌∷◌, ◌++◌, ◌≡◌, refl, sym, ap, subst, ◌∙◌,
  Bytes, IsBytes, All, length, take, drop, u16_be_bytes, if◌then◌else◌, is_some, arith,
  length-append, take_eq, drop-drop, take-length-append, drop-length-append, drop_eq,
}
use kirb_la_snoop.Dns.{Query, Answer, reply, rdata_for, answer_record, answer_flags, reply_header}
use kirb_la_snoop.Dns.Names.{IsLabel, encode_name}
use kirb_la_snoop.Dns.Parse.{IsQuery, question_of}
use kirb_la_snoop.Dns.Reply.{reply_to, reply_iff, length-reply_header}
use kirb_la_snoop.Dns.Flags.{answer_flags_lem}

-- How `r` answers the message `msg`, which asks `q`.
pub record Answers (msg : Bytes) (q : Query) (ans : Answer) (r : Bytes) : Type 0 where
  pub same_id : take 2 r ≡ take 2 msg
  pub flags_are : take 2 (drop 2 r) ≡ u16_be_bytes (0x8080 + q.flags / 256 % 2 * 256)
  pub counts_are :
      take 8 (drop 4 r)
      ≡ 0 ∷ 1 ∷ 0 ∷ (if is_some (rdata_for q ans) then 1 else 0) ∷ 0 ∷ 0 ∷ 0 ∷ 0 ∷ []
  pub same_question : take (q.stop - 12) (drop 12 r) ≡ take (q.stop - 12) (drop 12 msg)
  pub answer_is : drop q.stop r ≡ answer_record q ans (rdata_for q ans)

header_parts :
    (q : Query) (n : ℕ) (rest : Bytes)
    → n < 256
    → (take 2 (reply_header q n ++ rest) ≡ u16_be_bytes q.id)
      × (take 2 (drop 2 (reply_header q n ++ rest)) ≡ u16_be_bytes (answer_flags q.flags))
      × (take 8 (drop 4 (reply_header q n ++ rest)) ≡ 0 ∷ 1 ∷ 0 ∷ n ∷ 0 ∷ 0 ∷ 0 ∷ 0 ∷ [])
      × (drop 12 (reply_header q n ++ rest) ≡ rest)
unfolding reply_header
header_parts q n rest h = (refl, refl, ground arith, refl)

pub reply_to-Answers :
    (msg : Bytes) (q : Query) (ans : Answer) (w : IsQuery msg q)
    → Answers msg q ans (reply_to q w.names ans)
reply_to-Answers msg q ans w = record {
  same_id = parts.0 ∙ sym w.id_is;
  flags_are = parts.1 ∙ ap u16_be_bytes (answer_flags_lem q.flags w.is_query);
  counts_are = parts.2;
  same_question =
      ap (take (q.stop - 12)) parts.3
      ∙ front (answer_record q ans (rdata_for q ans))
      ∙ sym (ap (take (q.stop - 12)) w.question_is ∙ front (drop q.stop msg));
  answer_is =
      drop_eq {m = q.stop} {n = 12 + length question} r w.range_is.1
      ∙ sym (drop-drop (length question) 12 r)
      ∙ ap (drop (length question)) parts.3
      ∙ drop-length-append question (answer_record q ans (rdata_for q ans));
}
  where
    question : Bytes
    question = question_of w.names q.qtype q.qclass

    r : Bytes
    r = reply_to q w.names ans

    count : ℕ
    count = if is_some (rdata_for q ans) then 1 else 0

    parts :
        (take 2 r ≡ u16_be_bytes q.id)
        × (take 2 (drop 2 r) ≡ u16_be_bytes (answer_flags q.flags))
        × (take 8 (drop 4 r) ≡ 0 ∷ 1 ∷ 0 ∷ count ∷ 0 ∷ 0 ∷ 0 ∷ 0 ∷ [])
        × (drop 12 r ≡ question ++ answer_record q ans (rdata_for q ans))
    parts = header_parts q count (question ++ answer_record q ans (rdata_for q ans)) (ground arith)

    front : (rest : Bytes) → take (q.stop - 12) (question ++ rest) ≡ question
    front rest =
        take_eq {m = q.stop - 12} {n = length question} (question ++ rest)
          (omega (arith, w.range_is.1))
        ∙ take-length-append question rest

-- A reply repeats the query's id and question, sets QR and RA, copies RD, leaves rcode 0, and
-- counts one question and the one answer, if it has it, which stands behind the question.
pub reply_layout :
    (msg : Bytes) (ans : Answer) (r : Bytes)
    → IsBytes msg
    → reply msg ans ≡ some r
    → (q : Query) × IsQuery msg q × Answers msg q ans r
reply_layout msg ans r h k =
    let (q, w, e) = (reply_iff msg ans r h).0 k in
    (q, w, subst (Answers msg q ans) (sym e) (reply_to-Answers msg q ans w))

length_answer : (q : Query) (ans : Answer) → length (answer_record q ans (rdata_for q ans)) ≤ 28
unfolding answer_record rdata_for
length_answer q ans = ground arith

length_name :
    (names : List Bytes) → All IsLabel names → length (encode_name names) ≤ 64 * length names + 1
unfolding encode_name
length_name [] h = omega arith
length_name (l ∷ ls) h = omega (arith, length_name ls h.1, h.0, length-append l (encode_name ls))

-- A reply is at most 28 bytes longer than its query, and never longer than 8237 bytes.
pub length-reply :
    (msg : Bytes) (ans : Answer) (r : Bytes)
    → IsBytes msg
    → reply msg ans ≡ some r
    → (length r ≤ length msg + 28) × (length r ≤ 8237)
length-reply msg ans r h k =
    let (q, w, e) = (reply_iff msg ans r h).0 k in
    let question = question_of w.names q.qtype q.qclass in
    let answer = answer_record q ans (rdata_for q ans) in
    let sized : length r ≡ 12 + (length question + length answer) = omega (
      arith,
      ap length e,
      length-reply_header q (if is_some (rdata_for q ans) then 1 else 0),
      length-append (reply_header q (if is_some (rdata_for q ans) then 1 else 0))
          (question ++ answer),
      length-append question answer,
    ) in
    (
      omega (arith, sized, length_answer q ans, w.range_is, w.inside),
      omega (
        arith,
        sized,
        length_answer q ans,
        length_name w.names w.are_labels,
        w.few,
        length-append (encode_name w.names) (u16_be_bytes q.qtype ++ u16_be_bytes q.qclass),
      ),
    )
