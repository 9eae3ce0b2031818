-- ===== src/Dns/Parse.antt =====
-- src/dns.rs: what `parse` accepts, against the wire format of a query.
use kirb_la_snoop.Base.{
  ℕ, ◌+◌, ◌-◌, ◌^◌, ◌≤◌, ◌<◌, none, some, List, ◌++◌, ◌≡◌, ◌↔◌, refl, sym, ap, subst, ◌∙◌, Bytes,
  IsBytes, All, length, take, drop, u16_be_bytes, arith, length-append, take-append-drop, drop-drop,
  drop-length-append, drop_eq, append_assoc, Option-cases, inl, inr, query_bits_clear, lt→ltb,
  ltb→lt,
}
use kirb_la_snoop.Dns.{Query, be16, walk_name, name_fuel, end_of_name, parse}
use kirb_la_snoop.Dns.Names.{IsLabel, encode_name, walk_name-encode_name}
use kirb_la_snoop.Dns.ReadName.{ReadName, walk_name-ReadName}
use kirb_la_snoop.Dns.Be16.{be16-drop, be16-eq-some, Steps, parse-Steps}

-- The question section: name, type and class.
abbrev pub question_of : List Bytes → ℕ → ℕ → Bytes
question_of names qtype qclass = encode_name names ++ (u16_be_bytes qtype ++ u16_be_bytes qclass)

-- What `parse` has seen of a message.
pub record IsQuery (msg : Bytes) (q : Query) : Type 0 where
  pub names : List Bytes
  pub are_labels : All IsLabel names
  pub few : length names ≤ 128
  pub id_is : take 2 msg ≡ u16_be_bytes q.id
  pub flags_is : take 2 (drop 2 msg) ≡ u16_be_bytes q.flags
  pub count_is : take 2 (drop 4 msg) ≡ u16_be_bytes 1
  pub question_is : drop 12 msg ≡ question_of names q.qtype q.qclass ++ drop q.stop msg
  pub is_query : q.flags < 2048
  pub words : (q.id < 2 ^ 16) × (q.qtype < 2 ^ 16) × (q.qclass < 2 ^ 16)
  pub range_is : (q.start ≡ 12) × (q.stop ≡ 12 + length (question_of names q.qtype q.qclass))
  pub inside : q.stop ≤ length msg

end_of_name-ReadName :
    (msg : Bytes) {e : ℕ} → IsBytes msg → end_of_name msg 12 ≡ some e → ReadName msg 12 0 e
unfolding end_of_name
end_of_name-ReadName msg {e} h k = elim (Option-cases (walk_name name_fuel msg 12 0)) [
  | inl out ↦ absurd (ground (arith, out))
  | inr (some p, w) ↦
      subst (ReadName msg 12 0) (ground (arith, w))
        (walk_name-ReadName name_fuel msg 12 0 h (omega arith) w)
  | inr (none, w) ↦ absurd (ground (arith, w))
]

-- What `parse` accepts is a query: QR and opcode clear, one question, a name of at most 128 labels
-- that is not compressed, and the range of the question is exactly name, type and class.
pub parse-IsQuery : (msg : Bytes) (q : Query) → IsBytes msg → parse msg ≡ some q → IsQuery msg q
parse-IsQuery msg q h e = record {
  names = n.names;
  are_labels = n.are_labels;
  few = omega (arith, n.few);
  id_is = ap (take 2) id.1;
  flags_is = ap (take 2) flags.1;
  count_is = ap (take 2) count.1;
  question_is =
      n.reads
      ∙ ap (◌++◌ (encode_name n.names)) (
          qtype.1
          ∙ ap (◌++◌ (u16_be_bytes q.qtype)) (
              qclass.1
              ∙ ap (◌++◌ (u16_be_bytes q.qclass))
                  (drop_eq {m = q.stop - 4 + 2 + 2} {n = q.stop} msg (omega (arith, s.stop_ge)))))
      ∙ sym (
          append_assoc (encode_name n.names) (u16_be_bytes q.qtype ++ u16_be_bytes q.qclass)
            (drop q.stop msg));
  is_query = ltb→lt q.flags 2048 (sym (query_bits_clear q.flags flags.2) ∙ s.bits);
  words = (id.2, qtype.2, qclass.2);
  range_is = (
    s.start_is,
    omega (
      arith,
      n.ends,
      s.stop_ge,
      length-append (encode_name n.names) (u16_be_bytes q.qtype ++ u16_be_bytes q.qclass),
    ),
  );
  inside = omega (arith, qclass.0, s.stop_ge);
}
  where
    s : Steps msg q
    s = parse-Steps msg q e

    n : ReadName msg 12 0 (q.stop - 4)
    n = end_of_name-ReadName msg h s.name_at

    id : (2 ≤ length msg) × (drop 0 msg ≡ u16_be_bytes q.id ++ drop 2 msg) × (q.id < 2 ^ 16)
    id = be16-eq-some msg 0 h s.id_at

    flags :
        (4 ≤ length msg) × (drop 2 msg ≡ u16_be_bytes q.flags ++ drop 4 msg) × (q.flags < 2 ^ 16)
    flags = be16-eq-some msg 2 h s.flags_at

    count : (6 ≤ length msg) × (drop 4 msg ≡ u16_be_bytes 1 ++ drop 6 msg) × (1 < 2 ^ 16)
    count = be16-eq-some msg 4 h s.one_question

    qtype :
        (q.stop - 4 + 2 ≤ length msg)
        × (drop (q.stop - 4) msg ≡ u16_be_bytes q.qtype ++ drop (q.stop - 4 + 2) msg)
        × (q.qtype < 2 ^ 16)
    qtype = be16-eq-some msg (q.stop - 4) h s.qtype_at

    qclass :
        (q.stop - 4 + 2 + 2 ≤ length msg)
        × (drop (q.stop - 4 + 2) msg ≡ u16_be_bytes q.qclass ++ drop (q.stop - 4 + 2 + 2) msg)
        × (q.qclass < 2 ^ 16)
    qclass = be16-eq-some msg (q.stop - 4 + 2) h s.qclass_at

pub be16-take :
    (b : Bytes) (at x : ℕ) → take 2 (drop at b) ≡ u16_be_bytes x → x < 2 ^ 16 → be16 b at ≡ some x
be16-take b at x e h =
    be16-drop b (drop 2 (drop at b)) at x
      (sym (take-append-drop 2 (drop at b)) ∙ ap (λ (w : Bytes). w ++ drop 2 (drop at b)) e) h

end_of_name-names :
    (msg rest : Bytes) (names : List Bytes)
    → drop 12 msg ≡ encode_name names ++ rest
    → All IsLabel names
    → length names ≤ 128
    → end_of_name msg 12 ≡ some (12 + length (encode_name names))
unfolding end_of_name
end_of_name-names msg rest names e h k =
    rw (walk_name-encode_name names name_fuel msg rest 12 0 e h (omega arith) (omega arith)) refl

-- The type and the class stand behind the name.
pub drop-type :
    (msg : Bytes) (q : Query) (w : IsQuery msg q)
    → drop (12 + length (encode_name w.names)) msg
      ≡ u16_be_bytes q.qtype ++ (u16_be_bytes q.qclass ++ drop q.stop msg)
drop-type msg q w =
    let type_class = u16_be_bytes q.qtype ++ u16_be_bytes q.qclass in
    sym (drop-drop (length (encode_name w.names)) 12 msg)
    ∙ ap (drop (length (encode_name w.names)))
        (w.question_is ∙ append_assoc (encode_name w.names) type_class (drop q.stop msg))
    ∙ drop-length-append (encode_name w.names) (type_class ++ drop q.stop msg)

-- Every such query is accepted.
pub IsQuery-parse : (msg : Bytes) (q : Query) → IsQuery msg q → parse msg ≡ some q
unfolding parse
IsQuery-parse msg q w = ground (
  arith,
  be16-take msg 0 q.id w.id_is w.words.0,
  be16-take msg 2 q.flags w.flags_is (omega (arith, w.is_query)),
  query_bits_clear q.flags (omega (arith, w.is_query)),
  lt→ltb q.flags 2048 w.is_query,
  be16-take msg 4 1 w.count_is (omega arith),
  end_of_name-names msg (type_class ++ drop q.stop msg) w.names
      (w.question_is ∙ append_assoc (encode_name w.names) type_class (drop q.stop msg)) w.are_labels
      w.few,
  be16-drop msg (u16_be_bytes q.qclass ++ drop q.stop msg) p q.qtype (drop-type msg q w) w.words.1,
  be16-drop msg (drop q.stop msg) (p + 2) q.qclass at_class w.words.2,
  w.range_is,
  w.inside,
  length-append (encode_name w.names) type_class,
)
  where
    type_class : Bytes
    type_class = u16_be_bytes q.qtype ++ u16_be_bytes q.qclass

    p : ℕ
    p = 12 + length (encode_name w.names)

    at_class : drop (p + 2) msg ≡ u16_be_bytes q.qclass ++ drop q.stop msg
    at_class = sym (drop-drop 2 p msg) ∙ ap (drop 2) (drop-type msg q w)

-- `parse` accepts a message exactly when it is a query on the wire, and returns its parts.
pub parse_iff : (msg : Bytes) (q : Query) → IsBytes msg → (parse msg ≡ some q) ↔ IsQuery msg q
parse_iff msg q h = (parse-IsQuery msg q h, IsQuery-parse msg q)
