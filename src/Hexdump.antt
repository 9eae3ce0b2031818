-- ===== src/Hexdump.antt =====
-- src/hexdump.rs: `render`, the rows of offset, hex and text, and `ascii_line`.
pub mod Printable
mod Tests
use kirb_la_snoop.Base.{
  ℕ, zero, suc, ◌+◌, ◌-◌, ◌*◌, ◌/◌, ◌%◌, ◌<◌, min, Bool, true, false, ◌&&◌, ◌||◌, [], ◌∷◌, ◌++◌,
  ◌≡◌, ap, Bytes, Text, length, take, drop, replicate, ltb, leb, ◌==◌, if◌then◌else◌, arith, codes,
  length-drop,
}
use kirb_la_snoop.Base.Decimal.{decimal}
use kirb_la_snoop.Base.HexText.{hex_char, hex_byte}
use kirb_la_snoop.Base.Strings.{is_ascii_graphic}
use kirb_la_snoop.Base.Loop.{Turn, next, done, Falls, loop}

-- `limit`
abbrev pub limit_of : Bytes → ℕ → ℕ
limit_of bytes max_bytes = if max_bytes == 0 then length bytes else min (length bytes) max_bytes

-- A number in base 16, with at most as many digits as the fuel.
pub hex_within : ℕ → ℕ → Text
hex_within zero n = []
hex_within (suc fuel) n =
    let high = hex_within fuel (n / 16) in (if ltb n 16 then [] else high) ++ hex_char (n % 16) ∷ []

-- `{n:08x}`, for a u64, which has at most 16 digits.
unfoldable pub offset_text : ℕ → Text
unfolding hex_within
offset_text n = replicate (8 - length (hex_within 16 n)) b'0' ++ hex_within 16 n

-- The cell of a byte, or of none.
abbrev pub cell : Bytes → Text
cell [] = codes "   "
cell (b ∷ bs) = hex_byte b ++ b' ' ∷ []

-- The last `k` of the 16 cells of a row, with a gap in the middle.
unfoldable pub cells : ℕ → Bytes → Text
cells zero chunk = []
cells (suc k) chunk = cell chunk ++ ((if k == 8 then b' ' ∷ [] else []) ++ cells k (drop 1 chunk))

abbrev pub shown : ℕ → ℕ
shown b = if is_ascii_graphic b || b == b' ' then b else b'.'

unfoldable pub shown_text : Bytes → Text
shown_text [] = []
shown_text (b ∷ bs) = shown b ∷ shown_text bs

-- A row of the dump.
unfoldable pub row_text : Text → ℕ → Bytes → Text
unfolding offset_text cells shown_text
row_text indent row chunk =
    indent
    ++ (offset_text (row * 16)
        ++ (codes "  " ++ (cells 16 chunk ++ (codes " |" ++ (shown_text chunk ++ codes "|\n")))))

-- The rows so far, and the bytes that are left.
pub record Rows : Type 0 where
  pub row : ℕ
  pub rest : Bytes
  pub out : Text

-- One turn of the loop over the chunks.
abbrev after_row : Text → ℕ → Text → Bytes → Turn Rows Text
after_row indent row out [] = done out
after_row indent row out (b ∷ bs) = next (record {
  row = row + 1;
  rest = drop 15 bs;
  out = out ++ row_text indent row (take 16 (b ∷ bs));
})

unfoldable pub row_turn : Text → Rows → Turn Rows Text
row_turn indent s = after_row indent s.row s.out s.rest

after_row-falls :
    (indent : Text) (row : ℕ) (out : Text) (rest : Bytes) (s' : Rows)
    → after_row indent row out rest ≡ next s'
    → length s'.rest < length rest
after_row-falls indent row out [] s' h = absurd (cc)
after_row-falls indent row out (b ∷ bs) s' h =
    let same : drop 15 bs ≡ s'.rest = cc in omega (arith, length-drop 15 bs, ap length same)

pub row_turn-Falls : (indent : Text) → Falls (row_turn indent) (λ s. length s.rest)
unfolding row_turn
row_turn-Falls indent s s' h = after_row-falls indent s.row s.out s.rest s' h

-- `render`
unfoldable pub render : Bytes → ℕ → Text → Text
render bytes max_bytes indent =
    let limit = limit_of bytes max_bytes in
    let start : Rows = record { row = 0; rest = take limit bytes; out = [] } in
    let rows = loop (row_turn indent) (λ s. length s.rest) (row_turn-Falls indent) start in
    rows
    ++ (if ltb limit (length bytes)
        then indent ++ (codes "... " ++ (decimal (length bytes - limit) ++ codes " more bytes\n"))
        else [])

-- A byte of `ascii_line`.
unfoldable pub escaped : ℕ → Text
escaped b =
    if b == 13
    then codes "\\r"
    else if b == 10
    then codes "\\n"
    else if b == 9
    then codes "\\t"
    else if leb 0x20 b && leb b 0x7e
    then b ∷ []
    else codes "\\x" ++ hex_byte b

unfoldable pub escaped_text : Bytes → Text
unfolding escaped
escaped_text [] = []
escaped_text (b ∷ bs) = escaped b ++ escaped_text bs

-- `ascii_line`
unfoldable pub ascii_line : Bytes → ℕ → Text
unfolding escaped_text
ascii_line bytes max_bytes =
    let limit = limit_of bytes max_bytes in
    escaped_text (take limit bytes)
    ++ (if ltb limit (length bytes)
        then codes " ...(+" ++ (decimal (length bytes - limit) ++ codes ")")
        else [])
