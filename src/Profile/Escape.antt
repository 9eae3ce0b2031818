-- ===== src/Profile/Escape.antt =====
-- src/profile.rs: `unescape`. The iterator over the characters is taken one character at a time:
-- what the loop has read of an escape is its state.
use kirb_la_snoop.Base.{
  ℕ, ◌<◌, true, not, ◌&&◌, [], ◌∷◌, ◌++◌, ◌≡◌, ◌≢◌, refl, ap, ◌∙◌, Bytes, IsBytes, Text, All, leb,
  ◌==◌, if◌then◌else◌, arith, Result, ok, err, and_then, ok_or,
}
use kirb_la_snoop.Base.Utf8.{encode_utf8, as_bytes}
use kirb_la_snoop.Base.HexText.{hex_byte, from_hex, from_hex-hex_byte}

pub data EscapeError : Type 0 where
  truncated_escape bad_escape unknown_escape trailing_backslash : EscapeError

pub data Reading : Type 0 where
  literal backslash hex_first : Reading
  hex_second : ℕ → Reading

abbrev pub after_backslash : ℕ → Result EscapeError (Reading × Bytes)
after_backslash c =
    if c == b'n'
    then ok (literal, 10 ∷ [])
    else if c == b'r'
    then ok (literal, 13 ∷ [])
    else if c == b't'
    then ok (literal, 9 ∷ [])
    else if c == b'0'
    then ok (literal, 0 ∷ [])
    else if c == b'\\'
    then ok (literal, b'\\' ∷ [])
    else if c == b'"'
    then ok (literal, b'"' ∷ [])
    else if c == b'x'
    then ok (hex_first, [])
    else err unknown_escape

-- One character: the new state, and the bytes it adds.
unfoldable pub read_char : Reading → ℕ → Result EscapeError (Reading × Bytes)
read_char literal c = if not (c == b'\\') then ok (literal, encode_utf8 c) else ok (backslash, [])
read_char backslash c = after_backslash c
read_char hex_first c = ok (hex_second c, [])
read_char (hex_second hi) c = and_then (ok_or (from_hex hi c) bad_escape) λ v. ok (literal, v ∷ [])

-- The end of the text.
abbrev pub at_end : Reading → Result EscapeError Bytes
at_end literal = ok []
at_end backslash = err trailing_backslash
at_end hex_first = err truncated_escape
at_end (hex_second hi) = err truncated_escape

unfoldable pub read_chars : Reading → Text → Result EscapeError Bytes
read_chars st [] = at_end st
read_chars st (c ∷ cs) =
    and_then (read_char st c) λ r. and_then (read_chars r.0 cs) λ out. ok (r.1 ++ out)

-- `unescape`
unfoldable pub unescape : Text → Result EscapeError Bytes
unfolding read_chars
unescape s = read_chars literal s

-- A writer of escapes: printable characters stand for themselves.
unfoldable pub escape_byte : ℕ → Text
escape_byte b =
    if b == 10
    then b'\\' ∷ b'n' ∷ []
    else if b == 13
    then b'\\' ∷ b'r' ∷ []
    else if b == 9
    then b'\\' ∷ b't' ∷ []
    else if b == b'\\'
    then b'\\' ∷ b'\\' ∷ []
    else if leb b' ' b && leb b b'~'
    then b ∷ []
    else b'\\' ∷ b'x' ∷ hex_byte b

unfoldable pub escape : Bytes → Text
unfolding escape_byte
escape [] = []
escape (b ∷ bs) = escape_byte b ++ escape bs

read_chars-escape_byte :
    (b : ℕ) (rest : Text)
    → b < 256
    → read_chars literal (escape_byte b ++ rest)
      ≡ and_then (read_chars literal rest) λ out. ok (b ∷ out)
unfolding read_chars read_char escape_byte encode_utf8
read_chars-escape_byte b rest small = ground (arith, from_hex-hex_byte b)

-- Whatever bytes are written with escapes, `unescape` reads them back.
pub unescape-escape : (bs : Bytes) → IsBytes bs → unescape (escape bs) ≡ ok bs
unfolding unescape escape
unescape-escape [] h = refl
unescape-escape (b ∷ bs) h =
    read_chars-escape_byte b (escape bs) h.0
    ∙ ap (λ r. and_then r λ out. ok (b ∷ out)) (unescape-escape bs h.1)

-- Text with no backslash stands for its UTF-8 bytes.
pub unescape_plain : (s : Text) → All (λ c. c ≢ b'\\') s → unescape s ≡ ok (as_bytes s)
unfolding unescape read_char as_bytes
unescape_plain [] h = refl
unescape_plain (c ∷ cs) h =
    let other : not (c == b'\\') ≡ true = ground (arith, h.0) in
    rw other (ap (λ r. and_then r λ out. ok (encode_utf8 c ++ out)) (unescape_plain cs h.1))
