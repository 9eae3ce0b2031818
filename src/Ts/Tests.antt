-- ===== src/Ts/Tests.antt =====
-- src/ts.rs: some times as texts, and the theorems at concrete inputs.
use kirb_la_snoop.Base.{◌≡◌, refl, codes}
use kirb_la_snoop.Base.Decimal.{decimal}
use kirb_la_snoop.Ts.{ymd, civil_from_days, iso8601, clock, stamp, padded}
use kirb_la_snoop.Ts.Calendar.{IsValid, day_number}
use kirb_la_snoop.Ts.Civil.{civil_from_days_lem}

leap_day_date : civil_from_days 19782 ≡ ymd 2024 2 29
unfolding civil_from_days
leap_day_date = refl

iso8601_epoch : iso8601 0 ≡ codes "1970-01-01T00:00:00.000Z"
unfolding iso8601 padded decimal civil_from_days
iso8601_epoch = refl

clock_text : clock 1786646412345 ≡ codes "18:40:12.345"
unfolding clock padded decimal
clock_text = refl

stamp_text : stamp 1786646412345 ≡ codes "20260813-184012"
unfolding stamp padded decimal civil_from_days
stamp_text = refl

civil_from_days_lem_example :
    IsValid (civil_from_days 19782) × (day_number (civil_from_days 19782) ≡ 739310)
civil_from_days_lem_example = civil_from_days_lem 19782
