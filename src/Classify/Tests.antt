-- ===== src/Classify/Tests.antt =====
-- src/classify.rs: hints of some messages, and the theorems at concrete inputs.
use kirb_la_snoop.Base.{some, List, [], ◌∷◌, ◌++◌, ◌≡◌, refl, codes, Bytes}
use kirb_la_snoop.Classify.Tls.{Hello, extensions}
use kirb_la_snoop.Classify.Tls.Extensions.{
  encode_extensions, read_all, extensions-encode_extensions,
}
use kirb_la_snoop.Base.{get_range, u16_from_be, u16_be_bytes, length, ℕ, none}
use kirb_la_snoop.Classify.Tls.Alpn.{encode_protos}
use kirb_la_snoop.Base.Strings.{is_whitespace, split_once, text_eq, trim, lowercase, join}
use kirb_la_snoop.Base.Lossy.{from_utf8, from_utf8_lossy}
use kirb_la_snoop.Base.Loop.{loop}
use kirb_la_snoop.Dns.{Query, be16}
use kirb_la_snoop.Dns.Names.{encode_name}
use kirb_la_snoop.Dns.Parse.{IsQuery}
use kirb_la_snoop.Classify.{classify}
use kirb_la_snoop.Classify.Query.{classify-IsQuery}
use native.Mathlib.Omega.{arith}
use kirb_la_snoop.Classify.Dns.{dns, qtype_name, read_label}
use kirb_la_snoop.Classify.Http.{http, split_whitespace, split_lines}
use kirb_la_snoop.Classify.Tls.Entries.{parse_alpn, alpn_turn}

abbrev api_request : Bytes
api_request =
    codes "GET /v1/status HTTP/1.1\r\nHost: api.example.com\r\nUser-Agent: curl/8.5.0\r\n\r\n"

http_hint : http api_request ≡ some (codes "HTTP GET /v1/status host=api.example.com ua=curl/8.5.0")
unfolding http from_utf8 split_whitespace is_whitespace split_lines from_utf8_lossy split_once
    text_eq trim lowercase
http_hint = refl

abbrev api_query : Bytes
api_query =
    0x12 ∷ 0x34 ∷ 1 ∷ 0 ∷ 0 ∷ 1 ∷ 0 ∷ 0 ∷ 0 ∷ 0 ∷ 0 ∷ 0 ∷ (3 ∷ codes "api")
    ++ 2 ∷ 0x69 ∷ 0x6f ∷ 0 ∷ 0 ∷ 28 ∷ 0 ∷ 1 ∷ []

dns_hint : dns api_query ≡ some (codes "DNS query AAAA api.io")
unfolding dns be16 get_range u16_from_be loop read_label qtype_name join from_utf8_lossy
dns_hint = refl

alpn_names :
    parse_alpn (0 ∷ 12 ∷ 2 ∷ codes "h2" ++ (8 ∷ codes "http/1.1"))
    ≡ codes "h2" ∷ codes "http/1.1" ∷ []
unfolding parse_alpn loop alpn_turn get_range from_utf8_lossy
alpn_names = refl

abbrev api_labels : List Bytes
api_labels = codes "api" ∷ codes "io" ∷ []

abbrev api_asked : Query
api_asked = record { id = 0x1234; flags = 0x100; qtype = 28; qclass = 1; start = 12; stop = 24 }

abbrev api_query_parts : IsQuery api_query api_asked
unfolding encode_name
api_query_parts = record {
  names = api_labels;
  are_labels = ((omega arith, omega arith), ((omega arith, omega arith), tt));
  few = omega arith;
  id_is = refl;
  flags_is = refl;
  count_is = refl;
  question_is = refl;
  is_query = omega arith;
  words = (omega arith, omega arith, omega arith);
  range_is = (refl, refl);
  inside = omega arith;
}

classify-IsQuery_example :
    classify api_query
    ≡ some (codes "DNS query " ++ (qtype_name 28 ++ (32 ∷ join (codes ".") api_labels)))
unfolding api_query_parts
classify-IsQuery_example =
    classify-IsQuery api_query api_asked api_query_parts (refl, (refl, tt)) (omega arith)
      (omega arith) refl (λ e. omega (arith, e))

abbrev h2_h3 : List Bytes
h2_h3 = codes "h2" ∷ codes "h3" ∷ []

-- A server name and two protocols.
abbrev hello_extensions : List (ℕ × Bytes)
hello_extensions =
    (0, 0 ∷ 7 ∷ 0 ∷ 0 ∷ 4 ∷ codes "a.io") ∷ (0x10, u16_be_bytes 6 ++ encode_protos h2_h3) ∷ []

abbrev nothing_read : Hello
nothing_read = record { p = 0; sni = none; alpn = []; supported_max = 0x0303 }

abbrev extension_bytes : Bytes
unfolding encode_extensions encode_protos
extension_bytes =
    u16_be_bytes (length (encode_extensions hello_extensions)) ++ encode_extensions hello_extensions

extensions-encode_extensions_example :
    extensions extension_bytes nothing_read
    ≡ read_all hello_extensions (record nothing_read { p = 2 })
unfolding encode_extensions encode_protos extension_bytes
extensions-encode_extensions_example =
    extensions-encode_extensions hello_extensions extension_bytes nothing_read refl (omega arith)
      ((omega arith, omega arith), ((omega arith, omega arith), tt))
