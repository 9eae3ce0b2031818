-- ===== src/Profile.antt =====
-- src/profile.rs: what the fake service says back. The rules as they are after loading, which is
-- in Profile/Load.antt. `none` of a match is a panic of the task.
pub mod Hex
pub mod Needle
pub mod Respond
pub mod Escape
pub mod Load
pub mod Spec
pub mod Total
mod Tests
use kirb_la_snoop.Base.{
  ℕ, ◌+◌, max, Bool, true, false, not, ◌&&◌, ◌||◌, Option, none, some, List, [], ◌∷◌, Bytes, Text,
  length, ltb, leb, ◌==◌, if◌then◌else◌, is_some, ◌>>=◌, Result, ok, err,
}
use kirb_la_snoop.Base.Strings.{lowercase, to_ascii_lowercase}
use kirb_la_snoop.Base.Utf8.{as_bytes}
use kirb_la_snoop.Profile.Hex.{HexError, odd_digits, bad_byte, not_char_boundary, parse_hex}
use kirb_la_snoop.Profile.Needle
use kirb_la_snoop.Dns.{Answer}

-- `Match`
pub record Match : Type 0 where
  pub any : Option Bool
  pub starts_with : Option Text
  pub contains : Option Text
  pub ends_with : Option Text
  pub prefix_hex : Option Text
  pub contains_hex : Option Text
  pub min_len : Option ℕ
  pub max_len : Option ℕ
  pub len : Option ℕ
  pub first_only : Option Bool
  pub ignore_case : Bool

-- `Action`
pub record Action : Type 0 where
  pub payload : Bytes
  pub echo : Bool
  pub delay_ms : ℕ
  pub close : Bool
  pub dns : Option Answer

-- `Action::is_silent`
unfoldable pub is_silent : Action → Bool
is_silent a = length a.payload == 0 && not a.echo && not (is_some a.dns)

-- `CompiledRule`
pub record CompiledRule : Type 0 where
  pub name : Text
  pub matcher : Match
  pub action : Action

-- `Compiled`
pub record Compiled : Type 0 where
  pub name : Text
  pub description : Text
  pub on_connect : Option Action
  pub rules : List CompiledRule

-- `if let Some(x) = field && test(x) { return false; }`
abbrev pub rejects {ℓ} : {A : Type ℓ} → Option A → (A → Bool) → Bool
rejects none test = false
rejects (some x) test = test x

-- The needle of a text field, and the bytes that it is looked for in.
abbrev pub fold : Match → Bytes → Bytes
fold m bytes = if m.ignore_case then to_ascii_lowercase bytes else bytes

-- The early returns of `matches` on the fields that cannot panic.
unfoldable pub rejected : Match → Bytes → Bool → Bool
rejected m chunk first =
    rejects m.any not
    || rejects m.first_only (λ only. only && not first)
    || rejects m.len (λ n. not (length chunk == n))
    || rejects m.min_len (λ n. ltb (length chunk) n)
    || rejects m.max_len (λ n. ltb n (length chunk))
    || rejects m.starts_with (λ s. not (Needle.starts_with (fold m chunk) (fold m (as_bytes s))))
    || rejects m.ends_with (λ s. not (Needle.ends_with (fold m chunk) (fold m (as_bytes s))))
    || rejects m.contains (λ s. not (is_some (Needle.find (fold m chunk) (fold m (as_bytes s)))))

abbrev pub hex_outcome : Result HexError Bytes → (Bytes → Bool) → Option Bool
hex_outcome (ok needle) test = some (test needle)
hex_outcome (err odd_digits) test = some false
hex_outcome (err bad_byte) test = some false
hex_outcome (err not_char_boundary) test = none

-- A hex field: it has to parse, and its bytes have to pass the test.
abbrev pub hex_field : Option Text → (Bytes → Bool) → Option Bool
hex_field none test = some true
hex_field (some h) test = hex_outcome (parse_hex h) test

-- `Match::matches`
unfoldable pub matches : Match → Bytes → Bool → Option Bool
unfolding rejected
matches m chunk first =
    if rejected m chunk first
    then some false
    else (hex_field m.prefix_hex (λ needle. Needle.starts_with chunk needle) >>= λ prefixed.
        if prefixed
        then hex_field m.contains_hex (λ needle. is_some (Needle.find chunk needle))
        else some false)

-- The loop of `eval`.
unfoldable pub eval_rules : List CompiledRule → Bytes → Bool → Option (Option (Text × Action))
eval_rules [] chunk first = some none
eval_rules (r ∷ rs) chunk first =
    let later = eval_rules rs chunk first in
    (matches r.matcher chunk first >>= λ hit. if hit then some (some (r.name, r.action)) else later)

-- `Compiled::eval`
unfoldable pub eval : Compiled → Bytes → Bool → Option (Option (Text × Action))
unfolding eval_rules
eval c chunk first = eval_rules c.rules chunk first

abbrev pub is_some_and {ℓ} : {A : Type ℓ} → Option A → (A → Bool) → Bool
is_some_and = rejects

-- `rules.iter().any(|r| test(&r.action))`
pub any_action : List CompiledRule → (Action → Bool) → Bool
any_action [] test = false
any_action (r ∷ rs) test = test r.action || any_action rs test

-- `Compiled::responds`
unfoldable pub responds : Compiled → Bool
unfolding any_action is_silent
responds c =
    is_some_and c.on_connect (λ a. not (is_silent a)) || any_action c.rules (λ a. not (is_silent a))

-- The longest payload of the rules, 0 for none.
pub max_payload : List CompiledRule → ℕ
max_payload [] = 0
max_payload (r ∷ rs) = max (length r.action.payload) (max_payload rs)

abbrev pub builds : Action → Bool
builds a = a.echo || is_some a.dns

abbrev pub payload_len : Option Action → ℕ
payload_len none = 0
payload_len (some a) = length a.payload

-- `Compiled::max_response_bytes`
unfoldable pub max_response_bytes : Compiled → Option ℕ
unfolding any_action max_payload
max_response_bytes c =
    if is_some_and c.on_connect builds || any_action c.rules builds
    then none
    else some (payload_len c.on_connect + max_payload c.rules)
