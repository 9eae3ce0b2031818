-- ===== src/Classify/Other.antt =====
-- src/classify.rs: what is said of a message that is no protocol's: `other`.
use kirb_la_snoop.Base.{
  ℕ, ◌+◌, ◌*◌, Bool, not, ◌&&◌, ◌||◌, Option, none, some, [], ◌∷◌, ◌++◌, Bytes, Text, length, take,
  leb, ◌==◌, if◌then◌else◌, codes,
}
use kirb_la_snoop.Base.Strings.{is_ascii_whitespace, is_ascii_graphic}
use kirb_la_snoop.Profile.Needle.{starts_with}

abbrev on_line : ℕ → Bool
on_line c = not (c == 13) && not (c == 10)

-- The bytes before the end of the line.
unfoldable pub first_line : Bytes → Text
first_line [] = []
first_line (c ∷ cs) = let rest = first_line cs in if on_line c then c ∷ rest else []

-- The bytes from the first that is not white space.
unfoldable pub trimmed : Bytes → Option Bytes
trimmed [] = none
trimmed (c ∷ cs) = let rest = trimmed cs in if is_ascii_whitespace c then rest else some (c ∷ cs)

abbrev is_printable : ℕ → Bool
is_printable b = is_ascii_graphic b || b == 32 || b == 13 || b == 10 || b == 9

unfoldable pub count_printable : Bytes → ℕ
count_printable [] = 0
count_printable (b ∷ bs) = (if is_printable b then 1 else 0) + count_printable bs

-- `other`
unfoldable pub other : Bytes → Option Text
unfolding first_line trimmed count_printable starts_with
other d =
    if starts_with d (codes "SSH-")
    then some (codes "SSH banner " ++ first_line (take 64 d))
    else elim (trimmed d) [
      | none ↦ none
      | some body ↦
          if starts_with body (codes "{") || starts_with body (codes "[")
          then some (codes "JSON-ish")
          else if starts_with body (codes "<?xml") || starts_with body (codes "<")
          then some (codes "XML/markup-ish")
          else if leb (length (take 512 d) * 9) (count_printable (take 512 d) * 10)
          then some (codes "text/ascii")
          else none
    ]
