-- ===== src/Profile/Hex/Read.antt =====
-- src/profile.rs: what `parse_hex` reads back, and when it does not panic.
use kirb_la_snoop.Base.{
  ℕ, ◌*◌, ◌/◌, ◌%◌, ◌<◌, Bool, true, false, ◌&&◌, [], ◌∷◌, ◌≡◌, ◌≢◌, refl, sym, ap, ◌∙◌, Bytes,
  IsBytes, Text, All, length, ◌==◌, if◌then◌else◌, arith, Result, ok, err, Bool-cases, inl, inr,
}
use kirb_la_snoop.Base.Strings.{is_ascii_whitespace}
use kirb_la_snoop.Base.Utf8.{as_bytes, as_bytes_ascii, IsAscii}
use kirb_la_snoop.Base.HexText.{
  hex_char, hex_text, from_hex-hex_byte, hex_char_range, hex_char-ne-colon,
}
use kirb_la_snoop.Profile.Hex.{
  HexError, odd_digits, not_char_boundary, parse_pairs, starts_inside, is_separator, clean,
  strip_0x, parse_hex,
}

pub All-clean {κ} : (P : ℕ → Type κ) (t : Text) → All P t → All P (clean t)
unfolding clean
All-clean P [] h = tt
All-clean P (c ∷ cs) h = elim (Bool-cases (is_separator c)) [
  | inl gone ↦ rw gone (All-clean P cs h.1)
  | inr kept ↦ rw kept (h.0, All-clean P cs h.1)
]

All-strip_0x {κ} : (P : ℕ → Type κ) (t : Bytes) → All P t → All P (strip_0x t)
unfolding strip_0x
All-strip_0x P [] h = h
All-strip_0x P (c ∷ []) h = h
All-strip_0x P (c ∷ d ∷ rest) h = elim (Bool-cases (c == b'0' && d == b'x')) [
  | inl prefixed ↦ rw prefixed (h.1.1)
  | inr bare ↦ rw bare h
]

ascii_starts : (t : Bytes) → All IsAscii t → starts_inside t ≡ false
ascii_starts [] h = refl
ascii_starts (b ∷ bs) h = ground (arith, h.0)

ascii_pairs : (t : Bytes) → All IsAscii t → parse_pairs t ≢ err not_char_boundary
unfolding parse_pairs
ascii_pairs [] h e = absurd (cc)
ascii_pairs (a ∷ []) h e = absurd (cc)
ascii_pairs (a ∷ b ∷ rest) h e =
    ground (arith, h.0, ascii_starts rest h.1.1, ascii_pairs rest h.1.1)

-- `parse_hex` from its cleaned text.
parse_hex_cleaned :
    (t : Text) (digits : Bytes)
    → strip_0x (as_bytes (clean t)) ≡ digits
    → parse_hex t ≡ (if length digits % 2 == 0 then parse_pairs digits else err odd_digits)
unfolding parse_hex
parse_hex_cleaned t digits same =
    ap (λ d. if length d % 2 == 0 then parse_pairs d else err odd_digits) same

even_panics :
    (even : Bool) (r : Result HexError Bytes)
    → (if even then r else err odd_digits) ≡ err not_char_boundary
    → r ≡ err not_char_boundary
even_panics true r h = h
even_panics false r h = absurd (cc)

-- On ASCII text `parse_hex` does not panic: it reads bytes, or it reports an error.
pub parse_hex_ascii : (t : Text) → All IsAscii t → parse_hex t ≢ err not_char_boundary
parse_hex_ascii t h e =
    let cleaned = All-clean IsAscii t h in
    let digits = strip_0x (clean t) in
    let same = parse_hex_cleaned t digits (ap strip_0x (as_bytes_ascii (clean t) cleaned)) in
    ascii_pairs digits (All-strip_0x IsAscii (clean t) cleaned)
      (even_panics (length digits % 2 == 0) (parse_pairs digits) (sym same ∙ e))

hex_char-plain : (n : ℕ) → n < 16 → is_separator (hex_char n) ≡ false
unfolding is_separator is_ascii_whitespace
hex_char-plain n h = ground (arith, hex_char_range n, hex_char-ne-colon n)

clean-hex_text : (bs : Bytes) → IsBytes bs → clean (hex_text bs) ≡ hex_text bs
unfolding clean hex_text
clean-hex_text [] h = refl
clean-hex_text (b ∷ bs) h =
    ground (arith, h.0, hex_char-plain (b / 16), hex_char-plain (b % 16), clean-hex_text bs h.1)

hex_text-IsAscii : (bs : Bytes) → IsBytes bs → All IsAscii (hex_text bs)
unfolding hex_text
hex_text-IsAscii [] h = tt
hex_text-IsAscii (b ∷ bs) h =
    let hi = hex_char_range (b / 16) (omega (arith, h.0)) in
    let lo = hex_char_range (b % 16) (omega arith) in
    (omega (arith, hi), (omega (arith, lo), hex_text-IsAscii bs h.1))

strip_0x-hex_text : (bs : Bytes) → IsBytes bs → strip_0x (hex_text bs) ≡ hex_text bs
unfolding strip_0x hex_text
strip_0x-hex_text [] h = refl
strip_0x-hex_text (b ∷ bs) h = ground (arith, hex_char_range (b % 16))

length-hex_text : (bs : Bytes) → length (hex_text bs) ≡ 2 * length bs
unfolding hex_text
length-hex_text [] = omega arith
length-hex_text (b ∷ bs) = omega (arith, length-hex_text bs)

parse_pairs-hex_text : (bs : Bytes) → IsBytes bs → parse_pairs (hex_text bs) ≡ ok bs
unfolding parse_pairs hex_text
parse_pairs-hex_text [] h = refl
parse_pairs-hex_text (b ∷ bs) h = ground (
  arith,
  h.0,
  hex_char_range (b / 16),
  ascii_starts (hex_text bs) (hex_text-IsAscii bs h.1),
  from_hex-hex_byte b,
  parse_pairs-hex_text bs h.1,
)

-- Bytes printed in hex read back as themselves.
pub parse_hex-hex_text : (bs : Bytes) → IsBytes bs → parse_hex (hex_text bs) ≡ ok bs
parse_hex-hex_text bs h =
    let plain : strip_0x (as_bytes (clean (hex_text bs))) ≡ hex_text bs =
      ap (λ t. strip_0x (as_bytes t)) (clean-hex_text bs h)
      ∙ ap strip_0x (as_bytes_ascii (hex_text bs) (hex_text-IsAscii bs h))
      ∙ strip_0x-hex_text bs h in
    let even : (length (hex_text bs) % 2 == 0) ≡ true = ground (arith, length-hex_text bs) in
    parse_hex_cleaned (hex_text bs) (hex_text bs) plain ∙ rw even (parse_pairs-hex_text bs h)
