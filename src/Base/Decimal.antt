-- ===== src/Base/Decimal.antt =====
-- Numbers in decimal: `{n}` of a format string, and `str::parse::<u64>`.
use Prim.Native.Nat.{ℕ, zero, suc, ◌+◌, ◌-◌, ◌*◌, ◌/◌, ◌%◌, ◌^◌, ◌<◌, ◌≤◌}
use mathlib.Core.Path.{◌≡◌, refl, sym, ap, subst, ◌∙◌}
use mathlib.Core.Logic.{◌≢◌, inl, inr}
use mathlib.Core.Bool.{Bool, true, false, ◌&&◌}
use mathlib.Core.List.{[], ◌∷◌, ◌++◌, concat-ne-nil}
use mathlib.Core.Option.{Option, none, some}
use native.Mathlib.Omega.{arith}
use kirb_la_snoop.Base.Logic.{ltb, leb, ltb→lt, ◌==◌, if◌then◌else◌, ◌>>=◌, Bool-cases}
use kirb_la_snoop.Base.Lists.{All, All-append}
use kirb_la_snoop.Base.Words.{Text}

-- `char::is_ascii_digit`
abbrev pub is_ascii_digit : ℕ → Bool
is_ascii_digit c = leb b'0' c && leb c b'9'

abbrev pub IsDigit : ℕ → Type 0
IsDigit c = (b'0' ≤ c) × (c ≤ b'9')

pub decimal_within : ℕ → ℕ → Text
decimal_within zero n = []
decimal_within (suc f) n = elim (ltb n 10) [
  | true ↦ (b'0' + n) ∷ []
  | false ↦ decimal_within f (n / 10) ++ (b'0' + n % 10) ∷ []
]

-- `format!("{n}")`; there are at most n + 1 digits.
unfoldable pub decimal : ℕ → Text
unfolding decimal_within
decimal n = decimal_within (suc n) n

-- The digits of a `u64`, after those that gave `acc`.
pub parse_digits : ℕ → Text → Option ℕ
parse_digits acc [] = some acc
parse_digits acc (c ∷ cs) =
    let rest = parse_digits (acc * 10 + (c - b'0')) cs in
    if is_ascii_digit c && ltb (acc * 10 + (c - b'0')) (2 ^ 64) then rest else none

-- `text.parse::<u64>().ok()`: a sign alone is no number.
unfoldable pub parse_u64 : Text → Option ℕ
unfolding parse_digits
parse_u64 [] = none
parse_u64 (c ∷ []) = if c == b'+' then none else parse_digits 0 (c ∷ [])
parse_u64 (c ∷ d ∷ cs) = if c == b'+' then parse_digits 0 (d ∷ cs) else parse_digits 0 (c ∷ d ∷ cs)

decimal_within_step :
    (f n : ℕ)
    → decimal_within (suc f) n
      ≡ (if ltb n 10 then (b'0' + n) ∷ [] else decimal_within f (n / 10) ++ (b'0' + n % 10) ∷ [])
unfolding decimal_within
decimal_within_step f n = ground arith

decimal_within_small : (f n : ℕ) → ltb n 10 ≡ true → decimal_within (suc f) n ≡ (b'0' + n) ∷ []
decimal_within_small f n h = decimal_within_step f n ∙ rw h refl

decimal_within_large :
    (f n : ℕ)
    → ltb n 10 ≡ false
    → decimal_within (suc f) n ≡ decimal_within f (n / 10) ++ (b'0' + n % 10) ∷ []
decimal_within_large f n h = decimal_within_step f n ∙ rw h refl

parse_digits-append :
    (xs ys : Text) (acc : ℕ)
    → parse_digits acc (xs ++ ys) ≡ (parse_digits acc xs >>= λ a. parse_digits a ys)
unfolding parse_digits
parse_digits-append [] ys acc = refl
parse_digits-append (x ∷ xs) ys acc =
    ground (arith, parse_digits-append xs ys (acc * 10 + (x - b'0')))

parse_digits_one :
    (acc d : ℕ)
    → d < 10
    → acc * 10 + d < 2 ^ 64
    → parse_digits acc ((b'0' + d) ∷ []) ≡ some (acc * 10 + d)
unfolding parse_digits
parse_digits_one acc d h k = ground arith

parse_digits-decimal_within :
    (f n : ℕ) → n < f → n < 2 ^ 64 → parse_digits 0 (decimal_within f n) ≡ some n
parse_digits-decimal_within zero n h k = absurd (omega arith)
parse_digits-decimal_within (suc f) n h k = elim (Bool-cases (ltb n 10)) [
  | inl small ↦
      rw (decimal_within_step, small)
        (parse_digits_one 0 n (ground (arith, small)) (omega arith) ∙ ap some (omega arith))
  | inr large ↦
      rw (decimal_within_step, large)
        (parse_digits-append (decimal_within f (n / 10)) ((b'0' + n % 10) ∷ []) 0
          ∙ rw (parse_digits-decimal_within f (n / 10) (ground (arith, large)) (omega arith)) (
              parse_digits_one (n / 10) (n % 10) (omega arith) (omega arith)
              ∙ ap some (let e : n / 10 * 10 + n % 10 ≡ n = omega arith in e)))
]

decimal_within-digits : (f n : ℕ) → All IsDigit (decimal_within f n)
decimal_within-digits zero n = unfold decimal_within in tt
decimal_within-digits (suc f) n = elim (Bool-cases (ltb n 10)) [
  | inl small ↦
      subst (All IsDigit) (sym (decimal_within_small f n small))
        (let h = ltb→lt n 10 small in ((omega arith, omega arith), tt))
  | inr large ↦ subst (All IsDigit) (sym (decimal_within_step f n ∙ rw large refl)) (
      All-append IsDigit (decimal_within f (n / 10)) ((b'0' + n % 10) ∷ [])
        (decimal_within-digits f (n / 10)) ((omega arith, omega arith), tt))
]

pub decimal-digits : (n : ℕ) → All IsDigit (decimal n)
unfolding decimal
decimal-digits n = decimal_within-digits (suc n) n

pub decimal-ne-nil : (n : ℕ) → decimal n ≢ []
unfolding decimal
decimal-ne-nil n e = elim (Bool-cases (ltb n 10)) [
  | inl small ↦ cc (
    decimal_within_step n n,
    ap (λ b. if b then (b'0' + n) ∷ [] else decimal_within n (n / 10) ++ (b'0' + n % 10) ∷ [])
        small,
    e,
  )
  | inr large ↦
      concat-ne-nil (b'0' + n % 10) (decimal_within n (n / 10))
        (sym (decimal_within_step n n ∙ rw large refl) ∙ e)
]

-- Text that starts with a digit is read by the digit loop alone.
parse_u64-digits : (t : Text) → All IsDigit t → t ≢ [] → parse_u64 t ≡ parse_digits 0 t
unfolding parse_u64
parse_u64-digits [] h ne = absurd (ne refl)
parse_u64-digits (c ∷ []) h ne = ground (arith, h.0)
parse_u64-digits (c ∷ d ∷ cs) h ne = ground (arith, h.0)

-- A printed u64 reads back as itself.
pub parse_u64-decimal : (n : ℕ) → n < 2 ^ 64 → parse_u64 (decimal n) ≡ some n
parse_u64-decimal n h =
    parse_u64-digits (decimal n) (decimal-digits n) (decimal-ne-nil n)
    ∙ (unfold decimal in parse_digits-decimal_within (suc n) n (omega arith) h)
