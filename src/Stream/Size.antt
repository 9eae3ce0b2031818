-- ===== src/Stream/Size.antt =====
-- src/stream.rs: `parse_size`, the sizes of the command line.
use kirb_la_snoop.Base.{
  ℕ, ◌*◌, ◌^◌, [], ◌∷◌, Text, ltb, ◌==◌, if◌then◌else◌, ◌||◌, Option, none, some, Result, err,
  and_then, ok_or,
}
use kirb_la_snoop.Base.Decimal.{parse_u64}
use kirb_la_snoop.Base.Strings.{trim, split_last}

-- The messages, by kind; the last two quote the text.
pub data SizeError : Type 0 where
  empty_size : SizeError
  bad_size overflows : Text → SizeError

abbrev pub strip_b_of : Text → Option (Text × ℕ) → Text
strip_b_of t none = t
strip_b_of t (some (before, c)) = if c == b'b' || c == b'B' then before else t

-- `t.strip_suffix(['b', 'B']).unwrap_or(t)`
unfoldable pub strip_b : Text → Text
strip_b t = strip_b_of t (split_last t)

abbrev pub split_unit_of : Text → Option (Text × ℕ) → Text × ℕ
split_unit_of t none = (t, 1)
split_unit_of t (some (digits, c)) =
    if c == b'k' || c == b'K'
    then (digits, 2 ^ 10)
    else if c == b'm' || c == b'M'
    then (digits, 2 ^ 20)
    else if c == b'g' || c == b'G'
    then (digits, 2 ^ 30)
    else (t, 1)

-- The digits and the multiplier, by the last character.
unfoldable pub split_unit : Text → Text × ℕ
split_unit t = split_unit_of t (split_last t)

-- `checked_mul` of u64
abbrev pub checked_mul : ℕ → ℕ → Option ℕ
checked_mul a b = if ltb (a * b) (2 ^ 64) then some (a * b) else none

abbrev pub scaled : Text → Text × ℕ → Result SizeError ℕ
scaled s (digits, mult) =
    and_then (ok_or (parse_u64 (trim digits)) (bad_size s))
      λ n. ok_or (checked_mul n mult) (overflows s)

abbrev pub parse_trimmed : Text → Text → Result SizeError ℕ
parse_trimmed s [] = err empty_size
parse_trimmed s (c ∷ cs) = scaled s (split_unit (strip_b (c ∷ cs)))

-- `parse_size`
unfoldable pub parse_size : Text → Result SizeError ℕ
unfolding strip_b split_unit
parse_size s = parse_trimmed s (trim s)
