-- ===== src/Profile/Load/Tests.antt =====
-- src/profile.rs: loading some profiles, and the theorems at concrete inputs.
use kirb_la_snoop.Base.{none, some, [], ◌≡◌, refl, codes}
use kirb_la_snoop.Base.Addr.{parse_ipv4, parse_ipv6}
use kirb_la_snoop.Base.HexText.{hex_digit}
use kirb_la_snoop.Base.Strings.{text_eq}
use kirb_la_snoop.Base.Paths.{parent, extension_of}

dotted : parse_ipv4 (codes "192.0.2.5") ≡ some 0xc0000205
unfolding parse_ipv4
dotted = refl

dotted_leading_zero : parse_ipv4 (codes "192.0.2.05") ≡ none
unfolding parse_ipv4
dotted_leading_zero = refl

loopback6 : parse_ipv6 (codes "::1") ≡ some 1
unfolding parse_ipv6 hex_digit
loopback6 = refl

mapped6 : parse_ipv6 (codes "::ffff:192.0.2.5") ≡ some 0xffffc0000205
unfolding parse_ipv6 hex_digit
mapped6 = refl

full6 : parse_ipv6 (codes "2001:db8:0:0:0:0:0:1") ≡ some 0x20010db8000000000000000000000001
unfolding parse_ipv6 hex_digit
full6 = refl

parent_relative : parent (codes "profiles/http.toml") ≡ some (codes "profiles")
unfolding parent
parent_relative = refl

parent_bare : parent (codes "http.toml") ≡ some []
unfolding parent
parent_bare = refl

parent_root : parent (codes "/http.toml/") ≡ some (codes "/")
unfolding parent
parent_root = refl

extension_toml : extension_of (codes "profiles/a.b.toml") ≡ some (codes "toml")
unfolding extension_of text_eq
extension_toml = refl
