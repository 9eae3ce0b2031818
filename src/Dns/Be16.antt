-- ===== src/Dns/Be16.antt =====
-- src/dns.rs: `be16`, and the steps that a successful `parse` takes.
use kirb_la_snoop.Base.{
  ℕ, ◌+◌, ◌-◌, ◌/◌, ◌^◌, ◌≤◌, ◌<◌, bit_and, true, ◌&&◌, some, [], ◌∷◌, ◌++◌, ◌≡◌, sym, ap, ap₂,
  subst, ◌∙◌, Bytes, IsByte, IsBytes, length, take, drop, get_range, u16_from_be, u16_be_bytes,
  ◌==◌, arith, length-drop, take-append-drop, drop-drop, get_range-within, get_range-eq-some,
  Option-cases, inl, inr, All-take, All-drop,
}
use kirb_la_snoop.Dns.{Query, be16, end_of_name, parse, header_len}

-- The two bytes at a place.
pub be16-drop :
    (b rest : Bytes) (at x : ℕ)
    → drop at b ≡ u16_be_bytes x ++ rest
    → x < 2 ^ 16
    → be16 b at ≡ some x
unfolding be16 u16_from_be
be16-drop b rest at x e h =
    rw (get_range-within b at (at + 2) (omega arith) (omega (arith, length-drop at b, ap length e)))
      (rw (let two : at + 2 - at ≡ 2 = omega arith in two) (rw e (ap some (omega arith))))

u16_from_be-eq-some :
    (w : Bytes) {x : ℕ} → IsBytes w → u16_from_be w ≡ some x → (w ≡ u16_be_bytes x) × (x < 2 ^ 16)
unfolding u16_from_be
u16_from_be-eq-some [] h e = absurd (cc)
u16_from_be-eq-some (hi ∷ []) h e = absurd (cc)
u16_from_be-eq-some (hi ∷ lo ∷ []) h e = ground (arith, h.0, h.1.0)
u16_from_be-eq-some (hi ∷ lo ∷ c ∷ w) h e = absurd (cc)

pub be16-eq-some :
    (b : Bytes) (at : ℕ) {x : ℕ}
    → IsBytes b
    → be16 b at ≡ some x
    → (at + 2 ≤ length b) × (drop at b ≡ u16_be_bytes x ++ drop (at + 2) b) × (x < 2 ^ 16)
unfolding be16
be16-eq-some b at {x} h k = elim (Option-cases (get_range b at (at + 2))) [
  | inl out ↦ absurd (ground (arith, out))
  | inr (w, e) ↦
      let (_, inside, _, shown) = get_range-eq-some b at (at + 2) e in
      let two : w ≡ take 2 (drop at b) =
        shown ∙ ap (λ (n : ℕ). take n (drop at b)) {y = 2} (omega arith) in
      let (spelled, small) =
        u16_from_be-eq-some w {x = x}
          (subst IsBytes (sym two) (All-take IsByte 2 (drop at b) (All-drop IsByte at b h)))
          (ground (arith, e)) in
      (
        inside,
        sym (take-append-drop 2 (drop at b)) ∙ ap₂ ◌++◌ (sym two ∙ spelled) (drop-drop 2 at b),
        small,
      )
]

-- The steps of a successful `parse`.
pub record Steps (msg : Bytes) (q : Query) : Type 0 where
  pub id_at : be16 msg 0 ≡ some q.id
  pub flags_at : be16 msg 2 ≡ some q.flags
  pub bits : (bit_and q.flags 0x8000 == 0 && bit_and (q.flags / 2 ^ 11) 0x0f == 0) ≡ true
  pub one_question : be16 msg 4 ≡ some 1
  pub name_at : end_of_name msg header_len ≡ some (q.stop - 4)
  pub qtype_at : be16 msg (q.stop - 4) ≡ some q.qtype
  pub qclass_at : be16 msg (q.stop - 4 + 2) ≡ some q.qclass
  pub start_is : q.start ≡ header_len
  pub stop_ge : 4 ≤ q.stop

pub parse-Steps : (msg : Bytes) (q : Query) → parse msg ≡ some q → Steps msg q
unfolding parse
parse-Steps msg q h = record {
  id_at = ground arith;
  flags_at = ground arith;
  bits = ground arith;
  one_question = ground arith;
  name_at = ground arith;
  qtype_at = ground arith;
  qclass_at = ground arith;
  start_is = ground arith;
  stop_ge = ground arith;
}
