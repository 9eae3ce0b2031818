-- ===== src/Profile/Load.antt =====
-- src/profile.rs: from a profile file to the compiled profile: `compile_respond`, `load`, `resolve`.
-- The reader of toml is a parameter, which gives the profile with the defaults of serde filled in.
pub mod Built
mod Tests
use kirb_la_snoop.Base.{
  ℕ, zero, suc, ◌+◌, ◌*◌, ◌^◌, Bool, true, false, not, ◌&&◌, Option, none, some, List, [], ◌∷◌,
  ◌++◌, Bytes, Text, codes, length, concat, replicate, ltb, leb, ◌==◌, if◌then◌else◌, Result, ok,
  err, and_then, ok_or,
}
use kirb_la_snoop.Base.Addr.{parse_ipv4, parse_ipv6}
use kirb_la_snoop.Base.Decimal.{decimal}
use kirb_la_snoop.Base.Paths.{Files, is_absolute, join_path, parent}
use kirb_la_snoop.Dns.{Answer}
use kirb_la_snoop.Profile.{Match, Action, CompiledRule, Compiled}
use kirb_la_snoop.Profile.Escape.{EscapeError, unescape}
use kirb_la_snoop.Profile.Hex.{HexError, parse_hex}

-- `DnsRespond`
pub record DnsRespond : Type 0 where
  pub a : Option Text
  pub aaaa : Option Text
  pub ttl : ℕ

-- `Respond`
pub record Respond : Type 0 where
  pub text : Option Text
  pub hex : Option Text
  pub file : Option Text
  pub echo : Bool
  pub delay_ms : ℕ
  pub repeat : Option ℕ
  pub close : Bool
  pub dns : Option DnsRespond

-- `Rule`
pub record Rule : Type 0 where
  pub name : Option Text
  pub matcher : Match
  pub respond : Option Respond

-- `Profile`
pub record Profile : Type 0 where
  pub name : Text
  pub description : Text
  pub on_connect : Option Respond
  pub rules : List Rule

-- What is outside of the loading.
pub record Reader : Type 0 where
  pub files : Files
  pub from_toml : Text → Option Profile

-- How `load` and `resolve` fail. A capacity overflow is a panic, as is a hex text that is cut inside
-- a character.
pub data LoadError : Type 0 where
  escape_error : EscapeError → LoadError
  hex_error : HexError → LoadError
  reading_file : Text → LoadError
  capacity_overflow : LoadError
  bad_a : Text → LoadError
  bad_aaaa : Text → LoadError
  reading_profile : Text → LoadError
  parsing_profile : Text → LoadError
  not_found : Text → LoadError

-- The context of an error.
abbrev pub map_err {ℓ κ} :
    {E : Type ℓ} {F : Type ℓ} {A : Type κ} → (E → F) → Result E A → Result F A
map_err f (ok a) = ok a
map_err f (err e) = err (f e)

-- The bytes that a field adds to the payload, none where it is absent.
abbrev pub added : {A : Type 0} → (A → Result LoadError Bytes) → Option A → Result LoadError Bytes
added f none = ok []
added f (some a) = f a

-- The bytes of a file, by a path that is relative to the profile's directory.
unfoldable pub read_payload : Files → Text → Text → Result LoadError Bytes
read_payload fs base p =
    let path = if is_absolute p then p else join_path base p in
    ok_or (fs.read path) (reading_file path)

-- `payload.repeat(n)`: a length over isize::MAX is a panic.
unfoldable pub repeated : Option ℕ → Bytes → Result LoadError Bytes
repeated none payload = ok payload
repeated (some n) payload =
    if ltb (length payload * n) (2 ^ 63)
    then ok (concat (replicate n payload))
    else err capacity_overflow

-- `s.parse()` with its context, where there is an `s`.
abbrev pub parsed :
    (Text → Option ℕ) → (Text → LoadError) → Option Text → Result LoadError (Option ℕ)
parsed parse context none = ok none
parsed parse context (some s) = and_then (ok_or (parse s) (context s)) λ ip. ok (some ip)

unfoldable pub dns_answer : Option DnsRespond → Result LoadError (Option Answer)
dns_answer none = ok none
dns_answer (some d) = and_then (parsed parse_ipv4 bad_a d.a) λ a.
    and_then (parsed parse_ipv6 bad_aaaa d.aaaa)
      λ aaaa. ok (some (record { a = a; aaaa = aaaa; ttl = d.ttl }))

-- `compile_respond`
unfoldable pub compile_respond : Files → Respond → Text → Result LoadError Action
compile_respond fs r base = and_then (added (λ t. map_err escape_error (unescape t)) r.text) λ text.
    and_then (added (λ h. map_err hex_error (parse_hex h)) r.hex) λ hex.
      and_then (added (read_payload fs base) r.file) λ file.
        and_then (repeated r.repeat (text ++ (hex ++ file))) λ payload.
          and_then (dns_answer r.dns) λ dns. ok (record {
            payload = payload;
            echo = r.echo;
            delay_ms = r.delay_ms;
            close = r.close;
            dns = dns;
          })

-- `Action::default()`
abbrev pub default_action : Action
default_action = record { payload = []; echo = false; delay_ms = 0; close = false; dns = none }

abbrev pub rule_action : Files → Text → Option Respond → Result LoadError Action
rule_action fs base none = ok default_action
rule_action fs base (some r) = compile_respond fs r base

abbrev pub rule_name : ℕ → Option Text → Text
rule_name i (some name) = name
rule_name i none = codes "rule[" ++ (decimal i ++ codes "]")

-- The loop over the rules, from place `i`.
unfoldable pub compile_rules : Files → Text → ℕ → List Rule → Result LoadError (List CompiledRule)
compile_rules fs base i [] = ok []
compile_rules fs base i (r ∷ rs) = and_then (rule_action fs base r.respond) λ action.
    and_then (compile_rules fs base (suc i) rs)
      λ rest. ok (record { name = rule_name i r.name; matcher = r.matcher; action = action } ∷ rest)

abbrev pub banner_of : Files → Text → Option Respond → Result LoadError (Option Action)
banner_of fs base none = ok none
banner_of fs base (some r) = and_then (compile_respond fs r base) λ action. ok (some action)

-- `path.parent().unwrap_or(".")`
abbrev pub base_of : Text → Text
base_of path = elim (parent path) [ some base ↦ base | none ↦ codes "." ]

-- A profile that is read, compiled.
unfoldable pub compile : Files → Text → Profile → Result LoadError Compiled
unfolding compile_rules
compile fs base p = and_then (banner_of fs base p.on_connect) λ on_connect.
    and_then (compile_rules fs base 0 p.rules) λ rules. ok (record {
      name = p.name;
      description = p.description;
      on_connect = on_connect;
      rules = rules;
    })

-- `load`
unfoldable pub load : Reader → Text → Result LoadError Compiled
load r path = and_then (ok_or (r.files.read_to_string path) (reading_profile path)) λ text.
    and_then (ok_or (r.from_toml text) (parsing_profile path)) λ p. compile r.files (base_of path) p

-- `resolve`
unfoldable pub resolve : Files → Text → Text → Result LoadError Text
resolve fs spec dir =
    let named = join_path dir (spec ++ codes ".toml") in
    if fs.is_file spec then ok spec else if fs.is_file named then ok named else err (not_found spec)
