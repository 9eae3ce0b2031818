-- ===== src/Classify/Tls.antt =====
-- src/classify.rs: the hint on a tls record: `tls`, `parse_sni`, `parse_alpn`. The loops end, since
-- each turn moves on in the bytes.
pub mod Alpn
pub mod Entries
pub mod Extensions
use kirb_la_snoop.Base.{
  ℕ, zero, suc, ◌+◌, ◌-◌, ◌/◌, ◌<◌, ◌≤◌, min, bit_and, Bool, true, false, not, ◌&&◌, ◌||◌, Option,
  none, some, List, [], ◌∷◌, ◌++◌, ◌≡◌, Bytes, Text, length, get_elem?, get_range, leb, ltb, ◌==◌,
  if◌then◌else◌, ◌>>=◌, ◌>>◌, guard, arith, codes,
}
use kirb_la_snoop.Base.Decimal.{decimal}
use kirb_la_snoop.Base.Lossy.{from_utf8_lossy}
use kirb_la_snoop.Base.Loop.{Turn, next, done, or_done, Falls, loop}
use kirb_la_snoop.Classify.Tls.Entries.{parse_sni, parse_alpn, highest}
use kirb_la_snoop.Base.Strings.{join}
use kirb_la_snoop.Dns.{be16}

-- `tls_version`
unfoldable pub tls_version : ℕ → Text
tls_version v =
    if v == 0x0300
    then codes "SSL 3.0"
    else if v == 0x0301
    then codes "TLS 1.0"
    else if v == 0x0302
    then codes "TLS 1.1"
    else if v == 0x0303
    then codes "TLS 1.2"
    else if v == 0x0304
    then codes "TLS 1.3"
    else codes "TLS ?"

-- What the loop over the extensions keeps.
pub record Hello : Type 0 where
  pub p : ℕ
  pub sni : Option Text
  pub alpn : List Text
  pub supported_max : ℕ

-- What an extension adds.
unfoldable pub extension : ℕ → Bytes → Hello → Option Hello
extension etype body s =
    if etype == 0x0000
    then some (record s { sni = parse_sni body })
    else if etype == 0x0010
    then some (record s { alpn = parse_alpn body })
    else if etype == 0x002b
    then (do v ← highest body s.supported_max; some (record s { supported_max = v }))
    else some s

-- One turn of the loop over the extensions.
unfoldable pub extension_turn : Bytes → ℕ → Hello → Turn Hello (Option Hello)
extension_turn d end s =
    if leb (s.p + 4) end
    then or_done none (do
      etype ← be16 d s.p
      elen ← be16 d (s.p + 2)
      body ← get_range d (s.p + 4) (s.p + 4 + elen)
      s' ← extension etype body s
      some (next (record s' { p = s.p + 4 + elen })))
    else done (some s)

pub extension_turn-Falls : (d : Bytes) (end : ℕ) → Falls (extension_turn d end) (λ s. end - s.p)
unfolding extension_turn
extension_turn-Falls d end s s' h = ground arith

-- The extensions, where their length is there.
abbrev pub extensions_of : Bytes → Hello → Option ℕ → Option Hello
extensions_of d s none = some s
extensions_of d s (some ext_total) =
    let p = s.p + 2 in
    let end = min (p + ext_total) (length d) in
    loop (extension_turn d end) (λ s. end - s.p) (extension_turn-Falls d end) (record s { p = p })

unfoldable pub extensions : Bytes → Hello → Option Hello
extensions d s = extensions_of d s (be16 d s.p)

-- The parts that `write!` adds.
abbrev sni_text : Option Text → Text
sni_text none = []
sni_text (some s) = codes " sni=" ++ s

abbrev alpn_text : List Text → Text
alpn_text [] = []
alpn_text (t ∷ ts) = codes " alpn=" ++ join (codes ",") (t ∷ ts)

-- The text of a client hello.
unfoldable pub hello_text : Hello → ℕ → Text
unfolding tls_version
hello_text s cipher_count =
    tls_version s.supported_max
    ++ (codes " ClientHello"
        ++ (sni_text s.sni ++ (alpn_text s.alpn ++ (codes " ciphers=" ++ decimal cipher_count))))

-- The client hello of a record.
unfoldable pub client_hello : Bytes → Option Text
unfolding extensions hello_text
client_hello d = do
  legacy ← be16 d 9
  let p = 11 + 32
  sid_len ← get_elem? d p
  let p = p + (1 + sid_len)
  cs_len ← be16 d p
  let p = p + (2 + cs_len)
  comp_len ← get_elem? d p
  let p = p + (1 + comp_len)
  hello ← extensions d (record { p = p; sni = none; alpn = []; supported_max = legacy })
  some (hello_text hello (cs_len / 2))

-- `tls`
unfoldable pub tls : Bytes → Option Text
unfolding client_hello
tls d = do
  kind ← get_elem? d 0
  guard (kind == 0x16)
  major ← get_elem? d 1
  guard (major == 0x03)
  message ← get_elem? d 5
  if message == 0x01
      then client_hello d
      else (do v ← be16 d 1; some (tls_version v ++ codes " handshake"))
