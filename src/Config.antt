-- ===== src/Config.antt =====
-- src/config.rs: the listener specifications of the command line. The reader of toml is
-- a parameter.
pub mod Refusals
pub mod Spelling
mod Tests
use kirb_la_snoop.Base.{
  Bool, true, false, not, ◌&&◌, Option, none, some, List, [], ◌∷◌, ◌++◌, Text, codes, length, ◌==◌,
  if◌then◌else◌, Result, ok, err, and_then, ok_or,
}
use kirb_la_snoop.Base.Decimal.{is_ascii_digit}
use kirb_la_snoop.Base.Paths.{Files}
use kirb_la_snoop.Base.Strings.{to_ascii_lowercase, text_eq, split_once}

-- `Proto`
pub data Proto : Type 0 where
  tcp udp : Proto

-- `Proto::tag`
abbrev pub tag : Proto → Text
tag tcp = codes "tcp"
tag udp = codes "udp"

-- `Listener`
pub record Listener : Type 0 where
  pub proto : Proto
  pub bind : Text
  pub profile : Option Text
  pub name : Option Text
  pub iface : Option Text
  pub upstream : Option Text

-- The three ways that `parse_spec` fails.
pub data SpecError : Type 0 where
  empty_profile no_colon unsupported_protocol : SpecError

abbrev pub profile_of : Text → Option (Text × Text) → Result SpecError (Text × Option Text)
profile_of spec none = ok (spec, none)
profile_of spec (some (body, [])) = err empty_profile
profile_of spec (some (body, c ∷ cs)) = ok (body, some (c ∷ cs))

-- The body of a specification, and its profile.
unfoldable pub split_profile : Text → Result SpecError (Text × Option Text)
split_profile spec = profile_of spec (split_once b'=' spec)

abbrev pub proto_of : Text → Result SpecError Proto
proto_of t =
    if text_eq t (codes "tcp")
    then ok tcp
    else if text_eq t (codes "udp")
    then ok udp
    else err unsupported_protocol

unfoldable pub parse_proto : Text → Result SpecError Proto
parse_proto t = proto_of (to_ascii_lowercase t)

-- `chars().all(|c| c.is_ascii_digit())`
unfoldable pub all_digits : Text → Bool
all_digits [] = true
all_digits (c ∷ cs) = is_ascii_digit c && all_digits cs

-- A bare port is on all interfaces.
unfoldable pub bind_of : Text → Text
unfolding all_digits
bind_of rest = if all_digits rest && not (length rest == 0) then codes "0.0.0.0:" ++ rest else rest

-- `parse_spec`
unfoldable pub parse_spec : Text → Result SpecError Listener
parse_spec spec = and_then (split_profile spec) λ parts.
    and_then (ok_or (split_once b':' parts.0) no_colon) λ body.
      and_then (parse_proto body.0) λ proto. ok (record {
        proto = proto;
        bind = bind_of body.1;
        profile = parts.1;
        name = none;
        iface = none;
        upstream = none;
      })

-- What is outside of the reading of a config file: the toml library gives the listeners.
abbrev pub ListenReader : Type 0
ListenReader = Text → Option (List Listener)

pub data ConfigError : Type 0 where
  reading parsing : ConfigError

-- `load`, for the listeners of the file
unfoldable pub load : Files → ListenReader → Text → Result ConfigError (List Listener)
load fs from_toml path =
    and_then (ok_or (fs.read_to_string path) reading) λ text. ok_or (from_toml text) parsing
