-- ===== src/Ts/Civil.antt =====
-- src/ts.rs: `civil_from_days` gives valid dates, each with the number of its day.
use kirb_la_snoop.Base.{
  ℕ, ◌+◌, ◌-◌, ◌*◌, ◌/◌, ◌≤◌, ◌<◌, Bool, true, false, not, ◌&&◌, ◌||◌, ◌≡◌, refl, subst, ltb, leb,
  ◌==◌, if◌then◌else◌, arith, holds_under, table_entry, Bool-cases, inl, inr,
}
use kirb_la_snoop.Ts.{Ymd, ymd, civil_of_era, civil_from_days}
use kirb_la_snoop.Ts.Calendar.{
  is_leap, days_in_month, days_before_month, days_before_year, day_number, IsValid,
  days_before_year_lem, days_before_year-suc, yoe_of, before_yoe, yoe_starts, leap_day, doy_bound,
}

abbrev mp_of : ℕ → ℕ
mp_of doy = (5 * doy + 2) / 153

abbrev day_of : ℕ → ℕ
day_of doy = doy - (153 * mp_of doy + 2) / 5 + 1

abbrev late_test : ℕ → Bool
late_test doy =
    let m = mp_of doy + 3 in
    leb m 12
    && leb (day_of doy) (days_in_month false m)
    && leb (day_of doy) (days_in_month true m)
    && days_before_month false m + day_of doy == 60 + doy
    && days_before_month true m + day_of doy == 61 + doy

-- The months from March to December.
late_table : holds_under late_test 306 ≡ true
unfolding holds_under days_before_month
late_table = refl

abbrev early_test : ℕ → Bool
early_test doy =
    ltb doy 306
    || (let m = mp_of doy - 9 in
        not (ltb (mp_of doy) 10)
        && leb 1 m
        && leb m 2
        && (leb (day_of doy) (days_in_month false m) || doy == 365)
        && leb (day_of doy) (days_in_month true m)
        && days_before_month false m + day_of doy + 305 == doy
        && days_before_month true m + day_of doy + 305 == doy)

-- January and February.
early_table : holds_under early_test 366 ≡ true
unfolding holds_under days_before_month
early_table = refl

-- The date of a day of a year that starts in March.
abbrev march_date : ℕ → ℕ → Ymd
march_date y doy =
    if ltb (mp_of doy) 10
    then ymd y (mp_of doy + 3) (day_of doy)
    else ymd (y + 1) (mp_of doy - 9) (day_of doy)

day_of_pos : (doy : ℕ) → 1 ≤ day_of doy
day_of_pos doy = omega arith

late_facts :
    (leap : Bool) (doy : ℕ)
    → doy < 306
    → (day_of doy ≤ days_in_month leap (mp_of doy + 3))
      × (days_before_month leap (mp_of doy + 3) + day_of doy ≡ 60 + (if leap then 1 else 0) + doy)
late_facts true doy h = ground (arith, table_entry late_test 306 doy late_table h)
late_facts false doy h = ground (arith, table_entry late_test 306 doy late_table h)

early_facts :
    (leap : Bool) (doy : ℕ)
    → 306 ≤ doy
    → doy ≤ 364 + (if leap then 1 else 0)
    → (day_of doy ≤ days_in_month leap (mp_of doy - 9))
      × (days_before_month leap (mp_of doy - 9) + day_of doy + 305 ≡ doy)
early_facts true doy h k = ground (arith, table_entry early_test 366 doy early_table)
early_facts false doy h k = ground (arith, table_entry early_test 366 doy early_table)

leap_day_le : (y : ℕ) → leap_day y ≤ 1
leap_day_le y = ground arith

mp_bound : (y doy : ℕ) → doy ≤ 364 + leap_day (y + 1) → mp_of doy - 9 < 13
mp_bound y doy h = omega (arith, h, leap_day_le (y + 1))

march_date_lem :
    (y doy : ℕ)
    → doy ≤ 364 + leap_day (y + 1)
    → IsValid (march_date y doy)
      × (day_number (march_date y doy) ≡ days_before_year y + 59 + leap_day y + doy)
march_date_lem y doy h = elim (Bool-cases (ltb (mp_of doy) 10)) [
  | inl late ↦
      let (fits, number) = late_facts (is_leap y) doy (ground (arith, late)) in
      rw late (
        record { month_in = (omega arith, ground (arith, late)); day_in = (day_of_pos doy, fits) },
        unfold day_number in omega (arith, number, day_of_pos doy),
      )
  | inr early ↦
      let (fits, number) = early_facts (is_leap (y + 1)) doy (ground (arith, early)) h in
      rw early (
        record {
          month_in = (ground (arith, early), mp_bound y doy h);
          day_in = (day_of_pos doy, fits);
        },
        unfold day_number in omega (arith, number, day_of_pos doy, days_before_year-suc y),
      )
]

-- A date of an era is that of its year that starts in March.
shifted :
    (era yoe doy : ℕ)
    → doy ≤ 365
    → ymd
        ((if leb (if ltb (mp_of doy) 10 then mp_of doy + 3 else mp_of doy - 9) 2
            then yoe + 1
            else yoe)
          + era * 400)
        (if ltb (mp_of doy) 10 then mp_of doy + 3 else mp_of doy - 9)
        (day_of doy)
      ≡ march_date (yoe + era * 400) doy
shifted era yoe doy h = elim (Bool-cases (ltb (mp_of doy) 10)) [
  | inl late ↦ let after : leb (mp_of doy + 3) 2 ≡ false = ground arith in rw (late, after) refl
  | inr early ↦
      let before : leb (mp_of doy - 9) 2 ≡ true = ground (arith, h) in
      let next : yoe + 1 + era * 400 ≡ yoe + era * 400 + 1 = omega arith in
      rw (early, before, next) refl
]

civil_of_era_lem :
    (era doe : ℕ)
    → doe - before_yoe (yoe_of doe) ≤ 365
    → ymd ((civil_of_era doe).y + era * 400) (civil_of_era doe).m (civil_of_era doe).d
      ≡ march_date (yoe_of doe + era * 400) (doe - before_yoe (yoe_of doe))
unfolding civil_of_era
civil_of_era_lem era doe h = shifted era (yoe_of doe) (doe - before_yoe (yoe_of doe)) h

-- The number of the day on which the year from March `y` has its day `doy`.
march_number :
    (y : ℕ) → days_before_year y + 59 + leap_day y ≡ 365 * y + y / 4 - y / 100 + y / 400 + 60
unfolding is_leap
march_number y = ground (arith, days_before_year_lem y)

-- What is wanted of the date of a day of an era.
abbrev Right : ℕ → Ymd → Type 0
Right n t = IsValid t × (day_number t ≡ n)

era_number :
    (era yoe : ℕ)
    → yoe < 400
    → days_before_year (yoe + era * 400) + 59 + leap_day (yoe + era * 400)
      ≡ before_yoe yoe + era * 146097 + 60
era_number era yoe h = omega (arith, march_number (yoe + era * 400))

civil_of_era-Right :
    (era doe : ℕ)
    → doe < 146097
    → Right
        (era * 146097 + doe + 60)
        (ymd ((civil_of_era doe).y + era * 400) (civil_of_era doe).m (civil_of_era doe).d)
civil_of_era-Right era doe h =
    let y = yoe_of doe + era * 400 in
    let bound = doy_bound era doe h in
    let (valid, number) = march_date_lem y (doe - before_yoe (yoe_of doe)) bound in
    let total = era_number era (yoe_of doe) (omega (arith, h)) in
    let same = civil_of_era_lem era doe (omega (arith, bound, leap_day_le (y + 1))) in
    rw same (valid, omega (arith, number, total, yoe_starts doe h))

-- `civil_from_days` gives the date of the calendar that has the number of the day, where 719528 days
-- lie before 1970-01-01; the date is valid.
pub civil_from_days_lem :
    (days : ℕ)
    → IsValid (civil_from_days days) × (day_number (civil_from_days days) ≡ days + 719528)
unfolding civil_from_days
civil_from_days_lem days =
    let z = days + 719468 in
    let era = z / 146097 in
    let sum : era * 146097 + (z - era * 146097) + 60 ≡ days + 719528 = omega arith in
    subst (λ n. Right n (civil_from_days days)) sum
      (civil_of_era-Right era (z - era * 146097) (omega arith))
