-- ===== src/Dns/Names.antt =====
-- src/dns.rs: the names that the label loop accepts, against the wire format of a name.
use kirb_la_snoop.Base.{
  ℕ, zero, suc, ◌+◌, ◌≤◌, ◌<◌, none, some, List, [], ◌∷◌, ◌++◌, ◌≡◌, ◌≢◌, refl, sym, ap, ◌∙◌, Bytes,
  All, length, drop, get_elem?, arith, length-append, length-drop, drop-drop, get_range-within,
  drop_eq, drop-length-append, append_assoc, Option-cases, inl, inr, top_bits_clear, lt→ltb,
}
use kirb_la_snoop.Dns.{walk_name}

-- A label has 1 to 63 bytes.
abbrev pub IsLabel : Bytes → Type 0
IsLabel l = (0 < length l) × (length l < 64)

-- A name on the wire: each label behind its length, and a zero.
unfoldable pub encode_name : List Bytes → Bytes
encode_name [] = 0 ∷ []
encode_name (l ∷ ls) = length l ∷ (l ++ encode_name ls)

pub get_elem?-drop : (xs : Bytes) (n : ℕ) → get_elem? xs n ≡ get_elem? (drop n xs) 0
get_elem?-drop [] zero = refl
get_elem?-drop [] (suc n) = refl
get_elem?-drop (x ∷ xs) zero = refl
get_elem?-drop (x ∷ xs) (suc n) = get_elem?-drop xs n

-- Each round of the loop reads a label, or ends it.
walk_end :
    (fuel : ℕ) (msg rest : Bytes) (p labels : ℕ)
    → drop p msg ≡ 0 ∷ rest
    → walk_name (suc fuel) msg p labels ≡ some (some (p + 1))
unfolding walk_name
walk_end fuel msg rest p labels e =
    ground (arith, get_elem?-drop msg p ∙ ap (λ (xs : Bytes). get_elem? xs 0) e)

walk_label :
    (fuel : ℕ) (msg l rest : Bytes) (p labels : ℕ)
    → drop p msg ≡ length l ∷ (l ++ rest)
    → IsLabel l
    → labels < 128
    → walk_name (suc fuel) msg p labels ≡ walk_name fuel msg (p + 1 + length l) (labels + 1)
unfolding walk_name
walk_label fuel msg l rest p labels e h k = ground (
  arith,
  get_elem?-drop msg p ∙ ap (λ (xs : Bytes). get_elem? xs 0) e,
  top_bits_clear (length l) (omega arith),
  lt→ltb (length l) 64 h.1,
  get_range-within msg (p + 1) (p + 1 + length l) (omega arith)
      (omega (arith, length-drop p msg, ap length e, length-append l rest)),
)

-- What is left of the message behind a label.
pub drop_label :
    (msg l rest : Bytes) (p : ℕ)
    → drop p msg ≡ length l ∷ (l ++ rest)
    → drop (p + 1 + length l) msg ≡ rest
drop_label msg l rest p e =
    drop_eq {m = p + 1 + length l} {n = p + suc (length l)} msg (omega arith)
    ∙ sym (drop-drop (suc (length l)) p msg)
    ∙ ap (drop (suc (length l))) e
    ∙ drop-length-append l rest

-- A well-formed name is read to its end.
pub walk_name-encode_name :
    (ls : List Bytes) (fuel : ℕ) (msg rest : Bytes) (p labels : ℕ)
    → drop p msg ≡ encode_name ls ++ rest
    → All IsLabel ls
    → length ls + labels ≤ 128
    → length ls < fuel
    → walk_name fuel msg p labels ≡ some (some (p + length (encode_name ls)))
unfolding encode_name
walk_name-encode_name ls zero msg rest p labels e h k f = absurd (omega arith)
walk_name-encode_name [] (suc fuel) msg rest p labels e h k f = walk_end fuel msg rest p labels e
walk_name-encode_name (l ∷ ls) (suc fuel) msg rest p labels e h k f =
    let e' : drop p msg ≡ length l ∷ (l ++ (encode_name ls ++ rest)) =
      e ∙ ap (◌∷◌ (length l)) (append_assoc l (encode_name ls) rest) in
    walk_label fuel msg l (encode_name ls ++ rest) p labels e' h.0 (omega arith)
    ∙ walk_name-encode_name ls fuel msg rest (p + 1 + length l) (labels + 1)
        (drop_label msg l (encode_name ls ++ rest) p e') h.1 (omega arith) (omega arith)
    ∙ ap (λ (n : ℕ). some (some n)) (omega (arith, length-append l (encode_name ls)))

-- With a round for each label that is still allowed, and one to end, the fuel does not run out.
pub walk_name_total :
    (fuel : ℕ) (msg : Bytes) (p labels : ℕ)
    → labels ≤ 128
    → 128 < fuel + labels
    → walk_name fuel msg p labels ≢ none
unfolding walk_name
walk_name_total zero msg p labels h k = absurd (omega arith)
walk_name_total (suc fuel) msg p labels h k = elim (Option-cases (get_elem? msg p)) [
  | inl out ↦ ground (arith, out)
  | inr (len, e) ↦ ground (arith, e, walk_name_total fuel msg (p + 1 + len) (labels + 1))
]
