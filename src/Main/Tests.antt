-- ===== src/Main/Tests.antt =====
-- src/main.rs: a run of the program, and the theorems at concrete inputs.
use kirb_la_snoop.Base.{
  true, false, none, some, List, [], ◌∷◌, ◌≡◌, refl, Text, codes, ok, err, if◌then◌else◌,
}
use kirb_la_snoop.Base.Decimal.{decimal}
use kirb_la_snoop.Base.Paths.{Files, join_path, parent, extension_of}
use kirb_la_snoop.Base.Strings.{text_eq, lowercase, split_once, is_ascii_whitespace}
use kirb_la_snoop.Base.Utf8.{encode_utf8, as_bytes}
use kirb_la_snoop.Config.{tcp, udp, parse_spec, split_profile, parse_proto, bind_of}
use kirb_la_snoop.Profile.{Compiled}
use kirb_la_snoop.Profile.Escape.{unescape, read_char}
use kirb_la_snoop.Profile.Load.{
  Profile, Respond, Reader, hex_error, load, resolve, compile, compile_respond, repeated,
  dns_answer,
}
use kirb_la_snoop.Profile.Load.Built.{LoadedFrom, load-LoadedFrom}
use kirb_la_snoop.Main.Dirs.{resolve_profile_dir}
use kirb_la_snoop.Main.Transparent.{v4_rule}
use kirb_la_snoop.Main.Listing.{list_profiles, panics}
use kirb_la_snoop.Main.Listing.Lines.{ListsAs, list_profiles-ListsAs}
use kirb_la_snoop.Profile.Hex.{parse_hex, not_char_boundary}
use kirb_la_snoop.Main.{
  Cli, World, Heard, ctrl_c, joined, failed, panicked, prepare, Prepared, tasks_from, load_profiles,
  load_profile, lookup_profile,
}
use kirb_la_snoop.Main.Profiles.{Ready, load_profiles-Ready}
use kirb_la_snoop.Main.Tasks.{TasksFor, prepare-TasksFor}
use mathlib.Core.Option

abbrev banner : Respond
banner = record {
  text = some (codes "hello");
  hex = none;
  file = none;
  echo = false;
  delay_ms = 0;
  repeat = none;
  close = false;
  dns = none;
}

abbrev greeter : Profile
greeter = record {
  name = codes "greeter";
  description = codes "says hello";
  on_connect = some banner;
  rules = [];
}

-- One profile, profiles/hi.toml.
abbrev hi_path : Text
hi_path = codes "profiles/hi.toml"

abbrev hi_files : Files
unfolding text_eq
hi_files = record {
  read = λ p. none;
  read_to_string = λ p. if text_eq p hi_path then some [] else none;
  is_file = λ p. text_eq p hi_path;
  is_dir = λ p. text_eq p (codes "profiles");
  read_dir = λ p. some (hi_path ∷ codes "profiles/README" ∷ []);
}

abbrev hi_reader : Reader
unfolding hi_files
hi_reader = record { files = hi_files; from_toml = λ t. some greeter }

abbrev greeting : Compiled
greeting = record {
  name = codes "greeter";
  description = codes "says hello";
  on_connect =
      some
        (record { payload = codes "hello"; echo = false; delay_ms = 0; close = false; dns = none });
  rules = [];
}

load_hi : load hi_reader hi_path ≡ ok greeting
unfolding load hi_reader parent unescape read_char encode_utf8 compile compile_respond repeated
    dns_answer
load_hi = refl

load-LoadedFrom_example : LoadedFrom hi_reader hi_path greeting
load-LoadedFrom_example = load-LoadedFrom hi_reader hi_path greeting load_hi

listing :
    list_profiles hi_reader (codes "profiles")
    ≡ ok (codes "greeter          0 rules  says hello" ∷ [])
unfolding list_profiles hi_reader extension_of load parent unescape read_char encode_utf8 compile
    compile_respond repeated dns_answer text_eq decimal
listing = refl

list_profiles-ListsAs_example :
    ListsAs hi_reader (codes "profiles") (list_profiles hi_reader (codes "profiles"))
list_profiles-ListsAs_example = list_profiles-ListsAs hi_reader (codes "profiles")

-- The same directory, with hex text that is cut inside a character.
abbrev cut_reader : Reader
unfolding hi_files
cut_reader = record {
  files = hi_files;
  from_toml = λ t. some (record (greeter) {
    on_connect = some (record (banner) { hex = some (0x61 ∷ 0xe9 ∷ 0x61 ∷ []) });
  });
}

panic_of_listing :
    list_profiles cut_reader (codes "profiles") ≡ err (panics (hex_error not_char_boundary))
unfolding list_profiles cut_reader extension_of load parent unescape read_char encode_utf8 compile
    compile_respond text_eq parse_hex as_bytes is_ascii_whitespace
panic_of_listing = refl

abbrev hi_cli : Cli
hi_cli = record {
  specs = codes "tcp:80=hi" ∷ codes "udp:53" ∷ [];
  config = none;
  profile = none;
  profile_dir = none;
  no_raw = false;
  no_jsonl = false;
  no_files = false;
  jsonl_max_data = 256;
  stream_head = 0;
  stream_tail = 0;
  ring = none;
  max_run_bytes = 1073741824;
  upstream = none;
  iface = none;
  udp_idle = 60;
  udp_max_peers = 4096;
  cmd = none;
}

abbrev hi_world : World
unfolding hi_reader
hi_world = record {
  reader = hi_reader;
  listeners_of = λ t. none;
  env = record { xdg_data_home = none; home = none };
  log_opens = true;
  runtime_starts = true;
}

abbrev hi_prepared : Prepared
hi_prepared = record {
  listeners =
      record {
        proto = tcp;
        bind = codes "0.0.0.0:80";
        profile = some (codes "hi");
        name = none;
        iface = none;
        upstream = none;
      }
      ∷ record {
        proto = udp;
        bind = codes "0.0.0.0:53";
        profile = none;
        name = none;
        iface = none;
        upstream = none;
      }
      ∷ [];
  table = (codes "hi", greeting) ∷ [];
  options = record {
    jsonl = true;
    raw = true;
    jsonl_max_data = 256;
    stream_limits = record { head = 0; tail = 0 };
    max_run_bytes = 1073741824;
  };
}

prepare_hi : prepare hi_world hi_cli (codes "profiles") ≡ ok hi_prepared
unfolding prepare hi_world parse_spec split_profile split_once parse_proto bind_of load_profiles
    load_profile lookup_profile resolve join_path load parent unescape read_char encode_utf8 compile
    compile_respond repeated dns_answer lowercase text_eq
prepare_hi = refl

prepare-TasksFor_example :
    TasksFor hi_world.reader
      (codes "profiles")
      hi_cli
      0
      hi_prepared.listeners
      (tasks_from hi_cli hi_prepared.table 0 hi_prepared.listeners)
prepare-TasksFor_example =
    prepare-TasksFor hi_world hi_cli (codes "profiles") hi_prepared prepare_hi

profiles_hi :
    load_profiles hi_reader (codes "profiles") none [] hi_prepared.listeners ≡ ok hi_prepared.table
unfolding hi_reader load_profiles load_profile lookup_profile resolve join_path load parent unescape
    read_char encode_utf8 compile compile_respond repeated dns_answer text_eq
profiles_hi = refl

load_profiles-Ready_example :
    Ready hi_reader (codes "profiles") none hi_prepared.table hi_prepared.listeners
load_profiles-Ready_example =
    load_profiles-Ready hi_reader (codes "profiles") none hi_prepared.table hi_prepared.listeners
      profiles_hi

abbrev ends : List Heard
ends = joined panicked ∷ joined failed ∷ ctrl_c ∷ []

first_dir :
    resolve_profile_dir hi_files (record { xdg_data_home = none; home = some (codes "/root") }) none
    ≡ codes "profiles"
unfolding resolve_profile_dir hi_files text_eq join_path
first_dir = refl

redirect :
    v4_rule
      (record { port = 9999; uid = codes "snoop"; dport = none; include_loopback = false })
      (codes "-A")
    ≡ codes
        "sudo iptables  -t nat -A OUTPUT -p tcp -m owner --uid-owner snoop ! -d 127.0.0.0/8 -j REDIRECT --to-ports 9999"
unfolding v4_rule decimal
redirect = refl
