-- ===== src/Classify/Dns.antt =====
-- src/classify.rs: the hint on a dns query: `dns`. The loop over the labels ends, since each turn
-- moves on in the message.
pub mod Hint
use kirb_la_snoop.Base.{
  ℕ, zero, suc, ◌+◌, ◌-◌, ◌/◌, ◌^◌, ◌<◌, ◌≤◌, bit_and, Bool, true, false, not, ◌&&◌, ◌||◌, Option,
  none, some, List, [], ◌∷◌, ◌++◌, ◌≡◌, Bytes, Text, length, get_elem?, get_range, leb, ltb, ◌==◌,
  if◌then◌else◌, ◌>>=◌, ◌>>◌, guard, arith, codes, get_range-eq-some, Option-cases, Bool-cases, inl,
  inr,
}
use kirb_la_snoop.Base.Decimal.{decimal}
use kirb_la_snoop.Base.Strings.{is_ascii_graphic, join}
use kirb_la_snoop.Base.Lossy.{from_utf8_lossy}
use kirb_la_snoop.Base.Loop.{Turn, next, done, or_done, Falls, loop}
use kirb_la_snoop.Dns.{be16}

-- `qtype_name`
unfoldable pub qtype_name : ℕ → Text
qtype_name t =
    if t == 1
    then codes "A"
    else if t == 2
    then codes "NS"
    else if t == 5
    then codes "CNAME"
    else if t == 6
    then codes "SOA"
    else if t == 12
    then codes "PTR"
    else if t == 15
    then codes "MX"
    else if t == 16
    then codes "TXT"
    else if t == 28
    then codes "AAAA"
    else if t == 33
    then codes "SRV"
    else if t == 65
    then codes "HTTPS"
    else codes "TYPE" ++ decimal t

abbrev pub all_graphic : Bytes → Bool
all_graphic [] = true
all_graphic (c ∷ cs) = is_ascii_graphic c && all_graphic cs

-- The position in the message, and the labels that are read.
pub record Labels : Type 0 where
  pub p : ℕ
  pub labels : List Text

-- What the loop leaves with: nothing when the name is refused.
abbrev pub LabelTurn : Type 0
LabelTurn = Turn Labels (Option Labels)

label_of : Bytes → Labels → ℕ → LabelTurn
label_of d s len =
    if not (bit_and len 0xc0 == 0) || ltb 63 (length s.labels)
    then done none
    else elim (get_range d (s.p + 1) (s.p + 1 + len)) [
      | none ↦ done none
      | some label ↦
          if all_graphic label
          then next (record { p = s.p + 1 + len; labels = s.labels ++ from_utf8_lossy label ∷ [] })
          else done none
    ]

-- One turn of the loop.
unfoldable pub read_label : Bytes → Labels → LabelTurn
unfolding label_of
read_label d s = elim (get_elem? d s.p) [
  | none ↦ done none
  | some len ↦ if len == 0 then done (some (record s { p = s.p + 1 })) else label_of d s len
]

abbrev pub to_read : Bytes → Labels → ℕ
to_read d s = length d + 1 - s.p

label_of-falls :
    (d : Bytes) (s s' : Labels) (len : ℕ) → label_of d s len ≡ next s' → to_read d s' < to_read d s
unfolding label_of
label_of-falls d s s' len h = elim (Option-cases (get_range d (s.p + 1) (s.p + 1 + len))) [
  | inl out ↦ absurd (ground (arith, h, out))
  | inr (label, e) ↦
      let (_, inside, _, _) = get_range-eq-some d (s.p + 1) (s.p + 1 + len) e in
      ground (arith, h, e, inside)
]

pub read_label-Falls : (d : Bytes) → Falls (read_label d) (to_read d)
unfolding read_label
read_label-Falls d s s' h = elim (Option-cases (get_elem? d s.p)) [
  | inl out ↦ absurd (ground (arith, h, out))
  | inr (len, e) ↦ ground (arith, h, e, label_of-falls d s s' len)
]

-- The loop over the labels.
unfoldable pub read_labels : Bytes → Labels → Option Labels
read_labels d = loop (read_label d) (to_read d) (read_label-Falls d)

-- `dns`
unfoldable pub dns : Bytes → Option Text
unfolding read_labels
dns d = if ltb (length d) 12 then none else (do
  flags ← be16 d 2
  qdcount ← be16 d 4
  guard (bit_and flags 0x8000 == 0 && bit_and (flags / 2 ^ 11) 0x0f == 0 && qdcount == 1)
  ancount ← be16 d 6
  guard (ancount == 0)
  name ← read_labels d (record { p = 12; labels = [] })
  guard (ltb 0 (length name.labels))
  qtype ← be16 d name.p
  some (codes "DNS query " ++ (qtype_name qtype ++ (b' ' ∷ join (codes ".") name.labels))))
