-- ===== src/Stream/RoundTrip.antt =====
-- src/stream.rs: `parse_size` reads a size that `human` prints with no fraction.
use kirb_la_snoop.Base.{
  ℕ, ◌-◌, ◌*◌, ◌/◌, ◌%◌, ◌^◌, ◌≤◌, ◌<◌, [], ◌∷◌, ◌++◌, Text, ◌==◌, if◌then◌else◌, ◌≡◌, ◌≢◌, refl,
  ap, ◌∙◌, false, ◌||◌, some, ok, arith, and_then, ok_or, All, Bool-cases, Option-cases, inl, inr,
  sym, subst, ==_iff, ◌⊎◌, lt→ltb,
}
use kirb_la_snoop.Base.Decimal.{decimal, parse_u64, parse_u64-decimal, IsDigit, decimal-digits}
use kirb_la_snoop.Base.Strings.{
  split_last, split_last-append, split_last-All, trim_solid, IsSolid, is_whitespace,
}
use kirb_la_snoop.Stream.Human.{human, unit_of, suffix_of}
use kirb_la_snoop.Base.{All-append}
use mathlib.Core.List.{concat-ne-nil}
use kirb_la_snoop.Stream.Size.{
  bad_size, overflows, strip_b, strip_b_of, split_unit, split_unit_of, checked_mul, scaled,
  parse_trimmed, parse_size,
}

digits-IsSolid : (t : Text) → All IsDigit t → IsSolid t
digits-IsSolid [] h = tt
digits-IsSolid (c ∷ cs) h = (unfold is_whitespace in ground (arith, h.0), digits-IsSolid cs h.1)

IsSolid-append :
    (t : Text) (c : ℕ) → All IsDigit t → is_whitespace c ≡ false → IsSolid (t ++ c ∷ [])
IsSolid-append t c h k =
    All-append (λ d. is_whitespace d ≡ false) t (c ∷ []) (digits-IsSolid t h) (k, tt)

parse_trimmed-ne-nil : (s t : Text) → t ≢ [] → parse_trimmed s t ≡ scaled s (split_unit (strip_b t))
parse_trimmed-ne-nil s [] h = absurd (h refl)
parse_trimmed-ne-nil s (c ∷ cs) h = refl

-- The steps of `parse_size` on a text that ends in a letter `c` behind its digits.
parse_size-suffix :
    (t : Text) (c : ℕ)
    → All IsDigit t
    → is_whitespace c ≡ false
    → parse_size (t ++ c ∷ [])
      ≡ scaled (t ++ c ∷ []) (split_unit (if c == b'b' || c == b'B' then t else t ++ c ∷ []))
unfolding parse_size
parse_size-suffix t c h k =
    ap (parse_trimmed (t ++ c ∷ [])) (trim_solid (t ++ c ∷ []) (IsSolid-append t c h k))
    ∙ parse_trimmed-ne-nil (t ++ c ∷ []) (t ++ c ∷ []) (concat-ne-nil c t)
    ∙ ap (λ o. scaled (t ++ c ∷ []) (split_unit (strip_b_of (t ++ c ∷ []) o)))
        (split_last-append t c)

split_unit-suffix :
    (t : Text) (c : ℕ) → split_unit (t ++ c ∷ []) ≡ split_unit_of (t ++ c ∷ []) (some (t, c))
unfolding split_unit
split_unit-suffix t c = ap (split_unit_of (t ++ c ∷ [])) (split_last-append t c)

split_unit-digits : (t : Text) → All IsDigit t → split_unit t ≡ (t, 1)
unfolding split_unit
split_unit-digits t h = elim (Option-cases (split_last t)) [
  | inl nothing ↦ ap (split_unit_of t) nothing
  | inr ((before, c), e) ↦ ap (split_unit_of t) e ∙ ground (arith, split_last-All IsDigit t h e)
]

scaled-decimal :
    (s : Text) (n mult : ℕ)
    → n < 2 ^ 64
    → n * mult < 2 ^ 64
    → scaled s (decimal n, mult) ≡ ok (n * mult)
scaled-decimal s n mult h k =
    ap
      (λ t.
        and_then (ok_or (parse_u64 t) (bad_size s)) λ m. ok_or (checked_mul m mult) (overflows s))
      (trim_solid (decimal n) (digits-IsSolid (decimal n) (decimal-digits n)))
    ∙ ap (λ o. and_then (ok_or o (bad_size s)) λ m. ok_or (checked_mul m mult) (overflows s))
        (parse_u64-decimal n h)
    ∙ rw (lt→ltb (n * mult) (2 ^ 64) k) refl

-- Digits behind one of the letters `K`, `M`, `G`, `B` read as that many units.
parse_size-decimal :
    (n c mult : ℕ)
    → (c ≡ b'K') × (mult ≡ 2 ^ 10)
      ⊎ (c ≡ b'M') × (mult ≡ 2 ^ 20)
      ⊎ (c ≡ b'G') × (mult ≡ 2 ^ 30)
      ⊎ (c ≡ b'B') × (mult ≡ 1)
    → n * mult < 2 ^ 64
    → parse_size (decimal n ++ c ∷ []) ≡ ok (n * mult)
parse_size-decimal n c mult which fits =
    parse_size-suffix (decimal n) c (decimal-digits n) (unfold is_whitespace in ground arith)
    ∙ ap (scaled (decimal n ++ c ∷ [])) (
        ground (
          arith,
          split_unit-suffix (decimal n) c,
          split_unit-digits (decimal n) (decimal-digits n),
        ))
    ∙ scaled-decimal (decimal n ++ c ∷ []) n mult (ground arith) fits

human_zero : human 0 ≡ decimal 0 ++ b'B' ∷ []
unfolding human decimal
human_zero = refl

human_whole :
    (n : ℕ)
    → n % unit_of n * 10 / unit_of n ≡ 0
    → human n ≡ decimal (n / unit_of n) ++ suffix_of n ∷ []
human_whole n h = elim (Bool-cases (n == 0)) [
  | inl nothing ↦
      subst (λ k. human k ≡ decimal (k / unit_of k) ++ suffix_of k ∷ [])
        (sym ((==_iff n 0).0 nothing)) human_zero
  | inr something ↦
      unfold human in ground (arith, ap decimal (let e : n / 1 ≡ n = omega arith in e))
]

unit_suffix :
    (n : ℕ)
    → (suffix_of n ≡ b'K') × (unit_of n ≡ 2 ^ 10)
      ⊎ (suffix_of n ≡ b'M') × (unit_of n ≡ 2 ^ 20)
      ⊎ (suffix_of n ≡ b'G') × (unit_of n ≡ 2 ^ 30)
      ⊎ (suffix_of n ≡ b'B') × (unit_of n ≡ 1)
unit_suffix n = ground arith

-- A size that `human` prints with no fraction reads back, by `parse_size`, as the whole units of
-- the number: what is lost is less than a tenth of the unit.
pub parse_size-human :
    (n : ℕ)
    → n < 2 ^ 64
    → n % unit_of n * 10 / unit_of n ≡ 0
    → (parse_size (human n) ≡ ok (n / unit_of n * unit_of n))
      × (n / unit_of n * unit_of n ≤ n)
      × ((n - n / unit_of n * unit_of n) * 10 < unit_of n)
parse_size-human n fits h = (
  ap parse_size (human_whole n h)
      ∙ parse_size-decimal (n / unit_of n) (suffix_of n) (unit_of n) (unit_suffix n) (ground arith),
  ground arith,
  ground arith,
)
