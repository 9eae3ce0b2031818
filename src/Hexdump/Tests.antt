-- ===== src/Hexdump/Tests.antt =====
-- src/hexdump.rs: a dump, and the theorem at concrete input.
use kirb_la_snoop.Base.{[], ◌∷◌, ◌≡◌, refl, Bytes, All, codes, arith}
use kirb_la_snoop.Base.Decimal.{decimal}
use kirb_la_snoop.Base.HexText.{hex_char}
use kirb_la_snoop.Base.Loop.{loop}
use kirb_la_snoop.Hexdump.{render, row_turn, row_text, ascii_line}
use kirb_la_snoop.Hexdump.Printable.{IsPrintable, ascii_line-IsPrintable}

abbrev mixed : Bytes
mixed = 0x47 ∷ 13 ∷ 10 ∷ 0xff ∷ 0x20 ∷ []

mixed_line : ascii_line mixed 4 ≡ codes "G\\r\\n\\xff ...(+1)"
unfolding ascii_line decimal hex_char
mixed_line = refl

mixed_dump :
    render mixed 3 (codes "> ")
    ≡ codes
        "> 00000000  47 0d 0a                                          |G..|\n> ... 2 more bytes\n"
unfolding render loop row_turn row_text decimal hex_char
mixed_dump = refl

ascii_line-IsPrintable_example : All IsPrintable (ascii_line mixed 4)
ascii_line-IsPrintable_example =
    ascii_line-IsPrintable mixed 4
      (omega arith, (omega arith, (omega arith, (omega arith, (omega arith, tt)))))
