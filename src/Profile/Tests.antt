-- ===== src/Profile/Tests.antt =====
-- src/profile.rs: the runs of its tests, and the theorems at concrete inputs.
use kirb_la_snoop.Base.{
  ◌+◌, ◌≤◌, true, false, none, some, [], ◌∷◌, ◌≡◌, ◌≢◌, ◌↔◌, refl, Bytes, codes, ok, err,
}
use kirb_la_snoop.Profile.{
  Match, Action, Compiled, matches, eval, eval_rules, responds, max_response_bytes, builds,
}
use kirb_la_snoop.Base.Strings.{lowercase, is_ascii_whitespace}
use kirb_la_snoop.Base.Utf8.{as_bytes}
use kirb_la_snoop.Profile.Needle
use kirb_la_snoop.Profile.Needle.{OccursAt, find, find_first, find-OccursAt}
use kirb_la_snoop.Profile.Hex.{parse_hex, not_char_boundary}
use kirb_la_snoop.Profile.Respond.{FirstMatch, IsFixed, eval-FirstMatch, max_response_bytes_bound}
use kirb_la_snoop.Base.{arith}
use kirb_la_snoop.Base.HexText.{hex_char}
use kirb_la_snoop.Profile.Spec.{Meets, matches_iff}
use kirb_la_snoop.Profile.Escape.{unescape, escape, unescape-escape}

abbrev anything : Match
anything = record {
  any = none;
  starts_with = none;
  contains = none;
  ends_with = none;
  prefix_hex = none;
  contains_hex = none;
  min_len = none;
  max_len = none;
  len = none;
  first_only = none;
  ignore_case = false;
}

abbrev says : Bytes → Action
says payload = record { payload = payload; echo = false; delay_ms = 0; close = false; dns = none }

abbrev banner_service : Compiled
banner_service = record {
  name = codes "ftp";
  description = [];
  on_connect = some (says (codes "220 ready"));
  rules =
      record {
        name = codes "user";
        matcher = record (anything) { starts_with = some (codes "user"); ignore_case = true };
        action = says (codes "331");
      }
      ∷ record { name = codes "else"; matcher = anything; action = says (codes "500 no") }
      ∷ [];
}

abbrev mute_service : Compiled
mute_service = record {
  name = codes "mute";
  description = [];
  on_connect = none;
  rules = record { name = codes "drop"; matcher = anything; action = says [] } ∷ [];
}

user_of_service :
    eval banner_service (codes "USER x") true ≡ some (some (codes "user", says (codes "331")))
unfolding eval eval_rules matches Needle.starts_with as_bytes lowercase
user_of_service = refl

hex_of_text : parse_hex (codes "0x0a: FF") ≡ ok (0x0a ∷ 0xff ∷ [])
unfolding parse_hex as_bytes is_ascii_whitespace
hex_of_text = refl

-- Hex text with a character of two bytes at an odd offset is not an error but a panic.
split_of_text : parse_hex (0x61 ∷ 0xe9 ∷ 0x61 ∷ []) ≡ err not_char_boundary
unfolding parse_hex as_bytes is_ascii_whitespace
split_of_text = refl

ab_not_empty : codes "ab" ≢ []
ab_not_empty = λ e. absurd (cc)

find-OccursAt_example : OccursAt (codes "xab") (codes "ab") 1
find-OccursAt_example = find-OccursAt (codes "xab") (codes "ab") 1 (unfold find in refl)

eval-FirstMatch_example :
    FirstMatch banner_service.rules (codes "USER x") true (codes "user") (says (codes "331"))
eval-FirstMatch_example =
    eval-FirstMatch banner_service (codes "USER x") true (codes "user") (says (codes "331"))
      user_of_service

bound_of_service : max_response_bytes banner_service ≡ some 15
unfolding max_response_bytes
bound_of_service = refl

max_response_bytes_bound_example :
    (9 + 3 ≤ 15) × (builds (says (codes "331")) ≡ false) × IsFixed banner_service.on_connect
max_response_bytes_bound_example =
    max_response_bytes_bound banner_service 15 (codes "USER x") true (codes "user")
      (says (codes "331")) bound_of_service user_of_service

drop_of_service : eval mute_service (codes "x") false ≡ some (some (codes "drop", says []))
unfolding eval eval_rules matches Needle.starts_with as_bytes lowercase
drop_of_service = refl

quiet_of_service : responds mute_service ≡ false
unfolding responds
quiet_of_service = refl

matches_iff_example :
    (matches
        (record (anything) { prefix_hex = some (codes "0a"); min_len = some 2 })
        (10 ∷ 11 ∷ [])
        true
      ≡ some true)
    ↔ Meets
        (record (anything) { prefix_hex = some (codes "0a"); min_len = some 2 })
        (10 ∷ 11 ∷ [])
        true
matches_iff_example =
    matches_iff (record (anything) { prefix_hex = some (codes "0a"); min_len = some 2 })
      (10 ∷ 11 ∷ []) true

escapes_of_bytes : escape (0x47 ∷ 0 ∷ 10 ∷ 0xff ∷ []) ≡ codes "G\\x00\\n\\xff"
unfolding escape hex_char
escapes_of_bytes = refl

unescape-escape_example :
    unescape (escape (0x47 ∷ 0 ∷ 10 ∷ 0xff ∷ [])) ≡ ok (0x47 ∷ 0 ∷ 10 ∷ 0xff ∷ [])
unescape-escape_example = unescape-escape (0x47 ∷ 0 ∷ 10 ∷ 0xff ∷ []) (omega arith)
