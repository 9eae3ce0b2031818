-- ===== src/Hexdump/Printable.antt =====
-- src/hexdump.rs: `ascii_line` is one line of printable characters.
use kirb_la_snoop.Base.{
  ℕ, ◌-◌, ◌/◌, ◌%◌, ◌≤◌, Bool, true, false, [], ◌∷◌, ◌++◌, Bytes, IsByte, IsBytes, Text, All,
  All-append, All-take, length, ltb, if◌then◌else◌, arith, codes, take,
}
use kirb_la_snoop.Base.HexText.{hex_char_range}
use kirb_la_snoop.Base.Decimal.{IsDigit, decimal, decimal-digits}
use kirb_la_snoop.Hexdump.{limit_of, escaped, escaped_text, ascii_line}

-- The characters from space to tilde.
abbrev pub IsPrintable : ℕ → Type 0
IsPrintable c = (0x20 ≤ c) × (c ≤ 0x7e)

escaped-IsPrintable : (b : ℕ) → IsByte b → All IsPrintable (escaped b)
unfolding escaped
escaped-IsPrintable b h = ground (arith, hex_char_range (b / 16), hex_char_range (b % 16))

escaped_text-IsPrintable : (bs : Bytes) → IsBytes bs → All IsPrintable (escaped_text bs)
unfolding escaped_text
escaped_text-IsPrintable [] h = tt
escaped_text-IsPrintable (b ∷ bs) h =
    All-append IsPrintable (escaped b) (escaped_text bs) (escaped-IsPrintable b h.0)
      (escaped_text-IsPrintable bs h.1)

digits-IsPrintable : (t : Text) → All IsDigit t → All IsPrintable t
digits-IsPrintable [] h = tt
digits-IsPrintable (c ∷ cs) h =
    ((omega (arith, h.0), omega (arith, h.0)), digits-IsPrintable cs h.1)

more-IsPrintable : (n : ℕ) → All IsPrintable (codes " ...(+" ++ (decimal n ++ codes ")"))
more-IsPrintable n =
    let number = digits-IsPrintable (decimal n) (decimal-digits n) in
    All-append IsPrintable (codes " ...(+") (decimal n ++ codes ")") (ground arith)
      (All-append IsPrintable (decimal n) (codes ")") number (ground arith))

tail-IsPrintable :
    (cut : Bool) (n : ℕ)
    → All IsPrintable (if cut then codes " ...(+" ++ (decimal n ++ codes ")") else [])
tail-IsPrintable true n = more-IsPrintable n
tail-IsPrintable false n = tt

-- `ascii_line` of bytes is characters from space to tilde only, so it is one line without controls.
pub ascii_line-IsPrintable :
    (bytes : Bytes) (max_bytes : ℕ) → IsBytes bytes → All IsPrintable (ascii_line bytes max_bytes)
unfolding ascii_line
ascii_line-IsPrintable bytes max_bytes h =
    let limit = limit_of bytes max_bytes in
    All-append IsPrintable (escaped_text (take limit bytes)) _
      (escaped_text-IsPrintable (take limit bytes) (All-take IsByte limit bytes h))
      (tail-IsPrintable (ltb limit (length bytes)) (length bytes - limit))
