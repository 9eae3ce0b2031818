-- ===== src/Ts/Calendar.antt =====
-- src/ts.rs: `civil_from_days` against a calendar that counts days by leap years and the lengths of
-- the months.
use kirb_la_snoop.Base.{
  ℕ, zero, suc, ◌+◌, ◌-◌, ◌*◌, ◌/◌, ◌%◌, ◌≤◌, ◌<◌, Bool, true, not, ◌&&◌, ◌||◌, ◌≡◌, refl, ap, ◌∙◌,
  ltb, leb, ◌==◌, if◌then◌else◌, arith, holds_under, table_entry, Bool-cases, inl, inr,
}
use kirb_la_snoop.Ts.{Ymd}

-- The Gregorian leap years.
unfoldable pub is_leap : ℕ → Bool
is_leap y = y % 4 == 0 && not (y % 100 == 0) || y % 400 == 0

-- The length of a month, in a leap year or another.
unfoldable pub days_in_month : Bool → ℕ → ℕ
days_in_month leap m =
    if m == 2
    then (if leap then 29 else 28)
    else if m == 4 || m == 6 || m == 9 || m == 11
    then 30
    else 31

-- The days of the months before one.
unfoldable pub days_before_month : Bool → ℕ → ℕ
unfolding days_in_month
days_before_month leap zero = 0
days_before_month leap (suc zero) = 0
days_before_month leap (suc (suc m)) = days_before_month leap (suc m) + days_in_month leap (suc m)

-- The days before a year: 365 for each year from year 0, and one more for each leap year.
unfoldable pub days_before_year : ℕ → ℕ
unfolding is_leap
days_before_year zero = 0
days_before_year (suc y) = days_before_year y + (if is_leap y then 366 else 365)

-- The number of a ymd, from 0 for the first day of year 0.
unfoldable pub day_number : Ymd → ℕ
day_number t = days_before_year t.y + days_before_month (is_leap t.y) t.m + (t.d - 1)

pub record IsValid (t : Ymd) : Type 0 where
  pub month_in : (0 < t.m) × (t.m < 13)
  pub day_in : (0 < t.d) × (t.d ≤ days_in_month (is_leap t.y) t.m)

pub days_before_year_lem :
    (y : ℕ) → days_before_year y + (y + 99) / 100 ≡ y * 365 + (y + 3) / 4 + (y + 399) / 400
unfolding days_before_year
days_before_year_lem zero = omega arith
days_before_year_lem (suc y) = ground (arith, days_before_year_lem y)

pub days_before_year-suc :
    (y : ℕ) → days_before_year (y + 1) ≡ days_before_year y + 365 + (if is_leap y then 1 else 0)
unfolding days_before_year
days_before_year-suc y =
    ap days_before_year (let e : y + 1 ≡ suc y = omega arith in e) ∙ ground arith

abbrev pub yoe_of : ℕ → ℕ
yoe_of doe = (doe - doe / 1460 + doe / 36524 - doe / 146096) / 365

-- The days of an era before a year that starts in March.
abbrev pub before_yoe : ℕ → ℕ
before_yoe yoe = 365 * yoe + yoe / 4 - yoe / 100

yoe_mono : (a b : ℕ) → a ≤ b → b < 146097 → yoe_of a ≤ yoe_of b
yoe_mono a b le small = omega arith

abbrev yoe_test : ℕ → Bool
yoe_test y = yoe_of (before_yoe y) == y && yoe_of (before_yoe (y + 1) - 1) == y

yoe_table : holds_under yoe_test 400 ≡ true
unfolding holds_under
yoe_table = refl

yoe_first : (y : ℕ) → y < 400 → yoe_of (before_yoe y) ≡ y
yoe_first y h = ground (arith, table_entry yoe_test 400 y yoe_table h)

yoe_last : (y : ℕ) → y < 400 → yoe_of (before_yoe (y + 1) - 1) ≡ y
yoe_last y h = ground (arith, table_entry yoe_test 400 y yoe_table h)

pub yoe_starts : (doe : ℕ) → doe < 146097 → before_yoe (yoe_of doe) ≤ doe
yoe_starts doe small = elim (Bool-cases (leb (before_yoe (yoe_of doe)) doe)) [
  | inl le ↦ ground (arith, le)
  | inr gt ↦ absurd (
      let y = yoe_of doe in
      let small_y : yoe_of doe < 400 = omega arith in
      let pos : 1 ≤ yoe_of doe = ground (arith, gt) in
      let same : yoe_of doe - 1 + 1 ≡ yoe_of doe = omega (arith, pos) in
      let last = yoe_last (yoe_of doe - 1) (omega arith) in
      let le : doe ≤ before_yoe (yoe_of doe - 1 + 1) - 1 = rw same (ground (arith, gt)) in
      omega (arith, pos, last, yoe_mono doe (before_yoe (yoe_of doe - 1 + 1) - 1) le (omega arith)))
]

yoe_ends : (doe : ℕ) → doe < 146097 → yoe_of doe < 399 → doe < before_yoe (yoe_of doe + 1)
yoe_ends doe small early = elim (Bool-cases (ltb doe (before_yoe (yoe_of doe + 1)))) [
  | inl lt ↦ ground (arith, lt)
  | inr ge ↦ absurd (
      let le : before_yoe (yoe_of doe + 1) ≤ doe = ground (arith, ge) in
      omega (
        arith,
        yoe_first (yoe_of doe + 1) (omega arith),
        yoe_mono (before_yoe (yoe_of doe + 1)) doe le small,
      ))
]

abbrev pub leap_day : ℕ → ℕ
leap_day y = if is_leap y then 1 else 0

year_length :
    (era y : ℕ) → y < 399 → before_yoe (y + 1) ≤ before_yoe y + (365 + leap_day (y + era * 400 + 1))
unfolding is_leap
year_length era y h = ground arith

last_leap : (era : ℕ) → leap_day (399 + era * 400 + 1) ≡ 1
unfolding is_leap
last_leap era = ground arith

-- A day of an era, counted from the start of its year, is one of 365, or of 366 before March of a
-- leap year.
pub doy_bound :
    (era doe : ℕ)
    → doe < 146097
    → doe - before_yoe (yoe_of doe) ≤ 364 + leap_day (yoe_of doe + era * 400 + 1)
doy_bound era doe small = elim (Bool-cases (ltb (yoe_of doe) 399)) [
  | inl early ↦
      let y_small : yoe_of doe < 399 = ground (arith, early) in
      omega (
        arith,
        yoe_ends doe small y_small,
        yoe_starts doe small,
        year_length era (yoe_of doe) y_small,
      )
  | inr late ↦
      let at_end : yoe_of doe ≡ 399 = ground (arith, late) in
      rw at_end (omega (arith, last_leap era))
]
