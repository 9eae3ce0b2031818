-- ===== src/Ts.antt =====
-- src/ts.rs: the texts of a time. A time is the milliseconds since 1970, a u64, so that the days are
-- never negative and the branch of `civil_from_days` for negative days is not reached.
pub mod Calendar
pub mod Civil
mod Tests
use kirb_la_snoop.Base.{
  ℕ, ◌+◌, ◌-◌, ◌*◌, ◌/◌, ◌%◌, Bool, true, false, [], ◌∷◌, ◌++◌, Text, length, replicate, ltb, leb,
  ◌==◌, if◌then◌else◌, codes,
}
use kirb_la_snoop.Base.Decimal.{decimal}

-- `(y, m, d)`
pub record Ymd : Type 0 where
  pub y : ℕ
  pub m : ℕ
  pub d : ℕ

abbrev pub ymd : ℕ → ℕ → ℕ → Ymd
ymd y m d = record { y = y; m = m; d = d }

-- The date of a day of an era of 400 years, from March of its year 0; the year is from the era's.
unfoldable pub civil_of_era : ℕ → Ymd
civil_of_era doe =
    let yoe = (doe - doe / 1460 + doe / 36524 - doe / 146096) / 365 in
    let doy = doe - (365 * yoe + yoe / 4 - yoe / 100) in
    let mp = (5 * doy + 2) / 153 in
    let d = doy - (153 * mp + 2) / 5 + 1 in
    let m = if ltb mp 10 then mp + 3 else mp - 9 in ymd (if leb m 2 then yoe + 1 else yoe) m d

-- `civil_from_days`
unfoldable pub civil_from_days : ℕ → Ymd
unfolding civil_of_era
civil_from_days days =
    let z = days + 719468 in
    let era = z / 146097 in
    let c = civil_of_era (z - era * 146097) in record c { y = c.y + era * 400 }

-- `parts`
pub record Parts : Type 0 where
  pub on : Ymd
  pub hour : ℕ
  pub minute : ℕ
  pub second : ℕ
  pub sub : ℕ

unfoldable pub parts : ℕ → Parts
parts ms =
    let secs = ms / 1000 in
    let rem = secs % 86400 in
    record {
      on = civil_from_days (secs / 86400);
      hour = rem / 3600;
      minute = rem % 3600 / 60;
      second = rem % 60;
      sub = ms % 1000;
    }

-- `{n:0w}`
unfoldable pub padded : ℕ → ℕ → Text
padded w n = replicate (w - length (decimal n)) b'0' ++ decimal n

abbrev hms : Parts → Text
hms p = padded 2 p.hour ++ (b':' ∷ (padded 2 p.minute ++ (b':' ∷ padded 2 p.second)))

-- `iso8601`
unfoldable pub iso8601 : ℕ → Text
unfolding parts
iso8601 ms =
    let p = parts ms in
    padded 4 p.on.y
    ++ (b'-'
        ∷ (padded 2 p.on.m
            ++ (b'-'
                ∷ (padded 2 p.on.d ++ (b'T' ∷ (hms p ++ (b'.' ∷ (padded 3 p.sub ++ codes "Z"))))))))

-- `clock`
unfoldable pub clock : ℕ → Text
unfolding parts
clock ms = let p = parts ms in hms p ++ (b'.' ∷ padded 3 p.sub)

-- `stamp`
unfoldable pub stamp : ℕ → Text
unfolding parts
stamp ms =
    let p = parts ms in
    padded 4 p.on.y
    ++ (padded 2 p.on.m
        ++ (padded 2 p.on.d
            ++ (b'-' ∷ (padded 2 p.hour ++ (padded 2 p.minute ++ padded 2 p.second)))))
