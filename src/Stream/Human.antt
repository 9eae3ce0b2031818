-- ===== src/Stream/Human.antt =====
-- src/stream.rs: `human`, sizes as log lines print them.
use kirb_la_snoop.Base.{
  ℕ, ◌*◌, ◌/◌, ◌%◌, ◌^◌, List, [], ◌∷◌, ◌++◌, Text, leb, ◌==◌, if◌then◌else◌, codes,
}
use kirb_la_snoop.Base.Decimal.{decimal}

-- The table `UNITS`: a scale and its suffix.
abbrev pub units : List (ℕ × ℕ)
units = (2 ^ 30, b'G') ∷ (2 ^ 20, b'M') ∷ (2 ^ 10, b'K') ∷ (1, b'B') ∷ []

-- A number in the unit that fits it.
unfoldable pub human_unit : ℕ → ℕ → ℕ → Text
human_unit n scale suffix =
    if scale == 1
    then decimal n ++ b'B' ∷ []
    else (let whole = n / scale in
        let frac = n % scale * 10 / scale in
        if frac == 0
        then decimal whole ++ suffix ∷ []
        else decimal whole ++ b'.' ∷ (decimal frac ++ suffix ∷ []))

-- The loop over the units, largest first.
unfoldable pub human_in : List (ℕ × ℕ) → ℕ → Text
unfolding human_unit
human_in [] n = codes "0B"
human_in ((scale, suffix) ∷ rest) n =
    if leb scale n then human_unit n scale suffix else human_in rest n

-- `human`
unfoldable pub human : ℕ → Text
unfolding human_in
human n = human_in units n

-- The unit that `human` picks.
abbrev pub unit_of : ℕ → ℕ
unit_of n =
    if leb (2 ^ 30) n
    then 2 ^ 30
    else if leb (2 ^ 20) n
    then 2 ^ 20
    else if leb (2 ^ 10) n
    then 2 ^ 10
    else 1

abbrev pub suffix_of : ℕ → ℕ
suffix_of n =
    if leb (2 ^ 30) n
    then b'G'
    else if leb (2 ^ 20) n
    then b'M'
    else if leb (2 ^ 10) n
    then b'K'
    else b'B'
