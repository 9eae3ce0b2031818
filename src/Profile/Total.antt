-- ===== src/Profile/Total.antt =====
-- src/profile.rs: the profiles that never panic, those whose hex text is ASCII.
use kirb_la_snoop.Base.{
  Bool, true, false, Option, none, some, List, [], ◌∷◌, ◌≡◌, ◌≢◌, refl, Bytes, Text, All,
  if◌then◌else◌, is_some, arith, ok, err, Result,
}
use kirb_la_snoop.Base.Utf8.{IsAscii}
use kirb_la_snoop.Profile.{
  Match, Action, CompiledRule, Compiled, rejected, hex_outcome, hex_field, matches, eval_rules,
  eval,
}
use kirb_la_snoop.Profile.Hex.{HexError, odd_digits, bad_byte, not_char_boundary, parse_hex}
use kirb_la_snoop.Profile.Hex.Read.{parse_hex_ascii}
use kirb_la_snoop.Profile.Needle
use kirb_la_snoop.Profile.Spec.{Holds}

-- The hex fields of a matcher are ASCII text.
abbrev pub HasAsciiHex : Match → Type 0
HasAsciiHex m = Holds m.prefix_hex (All IsAscii) × Holds m.contains_hex (All IsAscii)

abbrev pub AllAsciiHex : List CompiledRule → Type 0
AllAsciiHex = All (λ (r : CompiledRule). HasAsciiHex r.matcher)

hex_outcome_total :
    (r : Result HexError Bytes) (test : Bytes → Bool)
    → r ≢ err not_char_boundary
    → (b : Bool) × (hex_outcome r test ≡ some b)
hex_outcome_total (ok needle) test h = (test needle, refl)
hex_outcome_total (err odd_digits) test h = (false, refl)
hex_outcome_total (err bad_byte) test h = (false, refl)
hex_outcome_total (err not_char_boundary) test h = absurd (h refl)

hex_field_total :
    (field : Option Text) (test : Bytes → Bool)
    → Holds field (All IsAscii)
    → (b : Bool) × (hex_field field test ≡ some b)
hex_field_total none test h = (true, refl)
hex_field_total (some t) test h = hex_outcome_total (parse_hex t) test (parse_hex_ascii t h)

-- A matcher with ASCII hex fields gives a verdict on every message.
pub matches_total :
    (m : Match) (chunk : Bytes) (first : Bool)
    → HasAsciiHex m
    → (b : Bool) × (matches m chunk first ≡ some b)
unfolding matches
matches_total m chunk first h =
    let (p, prefixed) =
      hex_field_total m.prefix_hex (λ needle. Needle.starts_with chunk needle) h.0 in
    let (c, contained) =
      hex_field_total m.contains_hex (λ needle. is_some (Needle.find chunk needle)) h.1 in
    (
      if rejected m chunk first then false else if p then c else false,
      ground (arith, prefixed, contained),
    )

eval_rules_total :
    (rules : List CompiledRule) (chunk : Bytes) (first : Bool)
    → AllAsciiHex rules
    → (hit : Option (Text × Action)) × (eval_rules rules chunk first ≡ some hit)
unfolding eval_rules
eval_rules_total [] chunk first h = (none, refl)
eval_rules_total (r ∷ rs) chunk first h =
    let (later, rest) = eval_rules_total rs chunk first h.1 in
    let (b, verdict) = matches_total r.matcher chunk first h.0 in
    (if b then some (r.name, r.action) else later, ground (arith, rest, verdict))

-- A profile with ASCII hex fields answers, or declines to, on every message.
pub eval_total :
    (c : Compiled) (chunk : Bytes) (first : Bool)
    → AllAsciiHex c.rules
    → (hit : Option (Text × Action)) × (eval c chunk first ≡ some hit)
unfolding eval
eval_total c chunk first h = eval_rules_total c.rules chunk first h
