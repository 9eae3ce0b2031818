-- ===== src/Config/Tests.antt =====
-- src/config.rs: the runs of its tests, and the theorems at concrete inputs.
use kirb_la_snoop.Base.{none, some, ◌≡◌, ◌↔◌, refl, codes, ok, err}
use kirb_la_snoop.Base.Strings.{split_once, text_eq, lowercase}
use kirb_la_snoop.Config.{
  Listener, tcp, udp, empty_profile, no_colon, unsupported_protocol, parse_spec, split_profile,
  parse_proto, bind_of,
}
use kirb_la_snoop.Config.Spelling.{Spells, parse_spec_iff}
use kirb_la_snoop.Config.Refusals.{Wrong, parse_spec-Wrong}

abbrev web : Listener
web = record {
  proto = tcp;
  bind = codes "0.0.0.0:80";
  profile = some (codes "http");
  name = none;
  iface = none;
  upstream = none;
}

profile_suffix : parse_spec (codes "TCP:80=http") ≡ ok web
unfolding parse_spec split_profile parse_proto bind_of split_once text_eq lowercase
profile_suffix = refl

explicit_address :
    parse_spec (codes "udp:[::1]:53")
    ≡ ok (record (web) { proto = udp; bind = codes "[::1]:53"; profile = none })
unfolding parse_spec split_profile parse_proto bind_of split_once text_eq lowercase
explicit_address = refl

no_protocol : parse_spec (codes "9000") ≡ err no_colon
unfolding parse_spec split_profile split_once
no_protocol = refl

strange_protocol : parse_spec (codes "sctp:9000") ≡ err unsupported_protocol
unfolding parse_spec split_profile parse_proto split_once text_eq lowercase
strange_protocol = refl

empty_suffix : parse_spec (codes "tcp:9000=") ≡ err empty_profile
unfolding parse_spec split_profile split_once
empty_suffix = refl

parse_spec_iff_example :
    (parse_spec (codes "TCP:80=http") ≡ ok web) ↔ Spells (codes "TCP:80=http") web
parse_spec_iff_example = parse_spec_iff (codes "TCP:80=http") web

parse_spec-Wrong_example : Wrong (codes "tcp:9000=") empty_profile
parse_spec-Wrong_example = parse_spec-Wrong (codes "tcp:9000=") empty_profile empty_suffix
