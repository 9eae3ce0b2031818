-- ===== src/Dns/ReadName.antt =====
-- src/dns.rs: what the label loop accepts is a name of the wire format.
use kirb_la_snoop.Base.{
  ℕ, zero, suc, ◌+◌, ◌≤◌, ◌<◌, bit_and, true, some, List, [], ◌∷◌, ◌++◌, ◌≡◌, ◌≢◌, ◌⊎◌, sym, ap,
  ◌∙◌, Bytes, IsBytes, All, length, take, drop, get_elem?, get_range, ◌==◌, arith, length-append,
  length-drop, length-take, take-append-drop, get_range-eq-some, drop-drop, drop_eq, append_assoc,
  Bool-cases, Option-cases, inl, inr, top_bits_clear,
}
use kirb_la_snoop.Dns.{walk_name}
use kirb_la_snoop.Base.{ap₂, ltb→lt}
use kirb_la_snoop.Dns.Names.{IsLabel, encode_name}

-- The name that the loop has read.
pub record ReadName (msg : Bytes) (p labels e : ℕ) : Type 0 where
  pub names : List Bytes
  pub are_labels : All IsLabel names
  pub few : length names + labels ≤ 128
  pub reads : drop p msg ≡ encode_name names ++ drop e msg
  pub ends : e ≡ p + length (encode_name names)

IsByte-get_elem? : (xs : Bytes) (n : ℕ) {x : ℕ} → IsBytes xs → get_elem? xs n ≡ some x → x < 256
IsByte-get_elem? [] n h e = absurd (cc)
IsByte-get_elem? (y ∷ ys) zero h e = ground (arith, h.0)
IsByte-get_elem? (y ∷ ys) (suc n) h e = IsByte-get_elem? ys n h.1 e

drop-get_elem? :
    (xs : Bytes) (n : ℕ) {x : ℕ} → get_elem? xs n ≡ some x → drop n xs ≡ x ∷ drop (n + 1) xs
drop-get_elem? [] n e = absurd (cc)
drop-get_elem? (y ∷ ys) zero e = ground arith
drop-get_elem? (y ∷ ys) (suc n) {x} e =
    drop-get_elem? ys n e
    ∙ ap (◌∷◌ x) (drop_eq {m = suc (n + 1)} {n = suc n + 1} (y ∷ ys) (omega arith))

-- What a round that goes on has seen.
record Goes (fuel : ℕ) (msg : Bytes) (p labels e : ℕ) : Type 0 where
  len : ℕ
  at_p : get_elem? msg p ≡ some len
  nonzero : len ≢ 0
  short : (bit_and len 0xc0 == 0) ≡ true
  room : labels < 128
  inside : p + 1 + len ≤ length msg
  later : walk_name fuel msg (p + 1 + len) (labels + 1) ≡ some (some e)

walk_cases :
    (fuel : ℕ) (msg : Bytes) (p labels : ℕ) {e : ℕ}
    → walk_name (suc fuel) msg p labels ≡ some (some e)
    → (get_elem? msg p ≡ some 0) × (e ≡ p + 1) ⊎ Goes fuel msg p labels e
unfolding walk_name
walk_cases fuel msg p labels {e} w = elim (Option-cases (get_elem? msg p)) [
  | inl out ↦ absurd (ground (arith, out))
  | inr (len, at_p) ↦ elim (Bool-cases (len == 0)) [
    | inl zero_byte ↦ inl (ground (arith, at_p, zero_byte), ground (arith, at_p, zero_byte))
    | inr more ↦ elim (Option-cases (get_range msg (p + 1) (p + 1 + len))) [
      | inl outside ↦ absurd (ground (arith, at_p, more, outside))
      | inr (l, inside) ↦ inr (record {
        len = len;
        at_p = at_p;
        nonzero = ground (arith, more);
        short = ground (arith, at_p, more, inside);
        room = ground (arith, at_p, more, inside);
        inside = (get_range-eq-some msg (p + 1) (p + 1 + len) inside).1;
        later = ground (arith, at_p, more, inside);
      })
    ]
  ]
]

ReadName-cons :
    (fuel : ℕ) (msg : Bytes) (p labels e : ℕ)
    → IsBytes msg
    → (g : Goes fuel msg p labels e) → ReadName msg (p + 1 + g.len) (labels + 1) e
    → ReadName msg p labels e
unfolding encode_name
ReadName-cons fuel msg p labels e h g r = record {
  names = l ∷ r.names;
  are_labels = (
    (
      (let n = g.nonzero in omega (arith, sized)),
      (let low =
            ltb→lt g.len 64
              (sym (top_bits_clear g.len (IsByte-get_elem? msg p h g.at_p)) ∙ g.short) in
          omega (arith, sized)),
    ),
    r.are_labels,
  );
  few = omega (arith, r.few);
  reads =
      drop-get_elem? msg p g.at_p
      ∙ ap₂ ◌∷◌ (sym sized) (
          sym (take-append-drop g.len (drop (p + 1) msg))
          ∙ ap (◌++◌ l) (drop-drop g.len (p + 1) msg ∙ r.reads)
          ∙ sym (append_assoc l (encode_name r.names) (drop e msg)));
  ends = omega (arith, r.ends, sized, length-append l (encode_name r.names));
}
  where
    l : Bytes
    l = take g.len (drop (p + 1) msg)

    sized : length l ≡ g.len
    sized = omega (arith, length-take g.len (drop (p + 1) msg), length-drop (p + 1) msg, g.inside)

-- What the loop accepts is a name: at most 128 labels of 1 to 63 bytes, and a zero.
pub walk_name-ReadName :
    (fuel : ℕ) (msg : Bytes) (p labels : ℕ) {e : ℕ}
    → IsBytes msg
    → labels ≤ 128
    → walk_name fuel msg p labels ≡ some (some e)
    → ReadName msg p labels e
unfolding encode_name walk_name
walk_name-ReadName zero msg p labels h k w = absurd (cc)
walk_name-ReadName (suc fuel) msg p labels {e} h k w = elim (walk_cases fuel msg p labels w) [
  | inl (at_p, ends) ↦ record {
    names = [];
    are_labels = tt;
    few = omega arith;
    reads = drop-get_elem? msg p at_p ∙ ap (λ (n : ℕ). 0 ∷ drop n msg) (sym ends);
    ends = ends;
  }
  | inr g ↦ ReadName-cons fuel msg p labels e h g (
      walk_name-ReadName fuel msg (p + 1 + g.len) (labels + 1) {e = e} h (omega (arith, g.room))
        g.later)
]
