-- ===== src/Classify/Dns/Hint.antt =====
-- src/classify.rs: the hint on a well-formed query.
use kirb_la_snoop.Base.{
  ℕ, ◌+◌, ◌≤◌, ◌<◌, true, some, List, [], ◌∷◌, ◌++◌, ◌≡◌, sym, ap, ap₂, ◌∙◌, Bytes, Text, All,
  length, take, drop, get_elem?, arith, append-nil, append_assoc, length-append, length-drop,
  drop-drop, take_eq, take-length-append, get_range, get_range-within, top_bits_clear, lt→ltb,
  u16_be_bytes, query_bits_clear, codes,
}
use kirb_la_snoop.Base.Strings.{join}
use kirb_la_snoop.Base.Utf8.{IsAscii}
use kirb_la_snoop.Base.Lossy.{from_utf8_lossy_ascii}
use kirb_la_snoop.Base.Loop.{next, done, loop-next, loop-done}
use kirb_la_snoop.Dns.{Query}
use kirb_la_snoop.Dns.Parse.{IsQuery, be16-take, drop-type}
use kirb_la_snoop.Dns.Be16.{be16-drop}
use kirb_la_snoop.Dns.Names.{IsLabel, encode_name, get_elem?-drop, drop_label}
use kirb_la_snoop.Classify.Dns.{
  all_graphic, read_label, read_labels, read_label-Falls, to_read, dns, qtype_name,
}

-- A label of graphic ASCII characters.
abbrev pub IsGraphic : Bytes → Type 0
IsGraphic l = all_graphic l ≡ true

graphic-IsAscii : (l : Bytes) → IsGraphic l → All IsAscii l
graphic-IsAscii [] h = tt
graphic-IsAscii (c ∷ cs) h = (ground (arith, h), graphic-IsAscii cs (ground (arith, h)))

pub label_in :
    (d l rest : Bytes) (p : ℕ)
    → drop p d ≡ length l ∷ (l ++ rest)
    → get_range d (p + 1) (p + 1 + length l) ≡ some l
label_in d l rest p e =
    get_range-within d (p + 1) (p + 1 + length l) (omega arith)
      (omega (arith, length-drop p d, ap length e, length-append l rest))
    ∙ ap some (
        take_eq (drop (p + 1) d) (omega arith)
        ∙ ap (take (length l)) (sym (drop-drop 1 p d) ∙ ap (drop 1) e)
        ∙ take-length-append l rest)

turn_label :
    (d l rest : Bytes) (p : ℕ) (labels : List Text)
    → drop p d ≡ length l ∷ (l ++ rest)
    → IsLabel l
    → IsGraphic l
    → length labels < 64
    → read_label d (record { p = p; labels = labels })
      ≡ next (record { p = p + 1 + length l; labels = labels ++ l ∷ [] })
unfolding read_label
turn_label d l rest p labels e h g k = ground (
  arith,
  get_elem?-drop d p ∙ ap (λ (xs : Bytes). get_elem? xs 0) e,
  top_bits_clear (length l) (omega arith),
  lt→ltb (length l) 64 h.1,
  label_in d l rest p e,
  from_utf8_lossy_ascii l (graphic-IsAscii l g),
)

turn_end :
    (d rest : Bytes) (p : ℕ) (labels : List Text)
    → drop p d ≡ 0 ∷ rest
    → read_label d (record { p = p; labels = labels })
      ≡ done (some (record { p = p + 1; labels = labels }))
unfolding read_label
turn_end d rest p labels e =
    ground (arith, get_elem?-drop d p ∙ ap (λ (xs : Bytes). get_elem? xs 0) e)

-- The loop reads the labels of a name to its end.
pub read_labels-encode_name :
    (ls : List Bytes) (d rest : Bytes) (p : ℕ) (labels : List Text)
    → drop p d ≡ encode_name ls ++ rest
    → All IsLabel ls
    → All IsGraphic ls
    → length ls + length labels ≤ 64
    → read_labels d (record { p = p; labels = labels })
      ≡ some (record { p = p + length (encode_name ls); labels = labels ++ ls })
unfolding encode_name read_labels
read_labels-encode_name [] d rest p labels e h g k =
    loop-done (read_label d) (to_read d) (read_label-Falls d) _ (turn_end d rest p labels e)
    ∙ ap (λ ts. some (record { p = p + 1; labels = ts })) (sym (append-nil labels))
read_labels-encode_name (l ∷ ls) d rest p labels e h g k =
    let e' : drop p d ≡ length l ∷ (l ++ (encode_name ls ++ rest)) =
      e ∙ ap (◌∷◌ (length l)) (append_assoc l (encode_name ls) rest) in
    loop-next (read_label d) (to_read d) (read_label-Falls d) _ _
      (turn_label d l (encode_name ls ++ rest) p labels e' h.0 g.0 (omega arith))
    ∙ read_labels-encode_name ls d rest (p + 1 + length l) (labels ++ l ∷ [])
        (drop_label d l (encode_name ls ++ rest) p e') h.1 g.1
        (omega (arith, length-append labels (l ∷ [])))
    ∙ ap₂ (λ q ts. some (record { p = q; labels = ts }))
        (omega (arith, length-append l (encode_name ls))) (append_assoc labels (l ∷ []) ls)

labels_of :
    (msg : Bytes) (q : Query) (w : IsQuery msg q)
    → All IsGraphic w.names
    → length w.names ≤ 64
    → read_labels msg (record { p = 12; labels = [] })
      ≡ some (record { p = 12 + length (encode_name w.names); labels = w.names })
labels_of msg q w g k =
    let type_class = u16_be_bytes q.qtype ++ u16_be_bytes q.qclass in
    read_labels-encode_name w.names msg (type_class ++ drop q.stop msg) 12 []
      (w.question_is ∙ append_assoc (encode_name w.names) type_class (drop q.stop msg)) w.are_labels
      g (omega (arith, k))

-- `dns` hints at a message that `parse` of the dns responder accepts with its type and its name, where
-- it holds no answers and its name is 1 to 64 labels of graphic ASCII characters.
pub dns-IsQuery :
    (msg : Bytes) (q : Query) (w : IsQuery msg q)
    → All IsGraphic w.names
    → 0 < length w.names
    → length w.names ≤ 64
    → take 2 (drop 6 msg) ≡ u16_be_bytes 0
    → dns msg
      ≡ some (codes "DNS query " ++ (qtype_name q.qtype ++ (b' ' ∷ join (codes ".") w.names)))
unfolding dns
dns-IsQuery msg q w g some_label few no_answers = ground (
  arith,
  w.inside,
  w.range_is,
  length-append (encode_name w.names) (u16_be_bytes q.qtype ++ u16_be_bytes q.qclass),
  be16-take msg 2 q.flags w.flags_is (omega (arith, w.is_query)),
  query_bits_clear q.flags (omega (arith, w.is_query)),
  lt→ltb q.flags 2048 w.is_query,
  be16-take msg 4 1 w.count_is (omega arith),
  be16-take msg 6 0 no_answers (omega arith),
  labels_of msg q w g few,
  lt→ltb 0 (length w.names) some_label,
  be16-drop msg (u16_be_bytes q.qclass ++ drop q.stop msg) (12 + length (encode_name w.names))
      q.qtype (drop-type msg q w) w.words.1,
)
