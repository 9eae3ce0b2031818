-- ===== src/Main.antt =====
-- src/main.rs: from the command line to the listeners, and the wait for them. The parser of the
-- arguments is a library; what is said on the error stream is not modelled.
pub mod Dirs
pub mod Transparent
pub mod Listing
pub mod Profiles
pub mod Tasks
pub mod Wait
mod Tests
use kirb_la_snoop.Base.{
  ℕ, zero, suc, ◌+◌, ◌-◌, ◌<◌, ltb, Bool, true, false, not, ◌&&◌, ◌||◌, Option, none, some, List,
  [], ◌∷◌, ◌++◌, Text, codes, length, ◌==◌, if◌then◌else◌, Result, ok, err, and_then, ok_or, map,
}
use kirb_la_snoop.Base.Decimal.{decimal}
use kirb_la_snoop.Base.Strings.{text_eq}
use kirb_la_snoop.Config
use kirb_la_snoop.Config.{Proto, Listener, ListenReader, ConfigError, SpecError, parse_spec}
use kirb_la_snoop.Log.State.{Options}
use kirb_la_snoop.Profile.{Compiled}
use kirb_la_snoop.Profile.Load
use kirb_la_snoop.Profile.Load.{Reader, LoadError, resolve}
use kirb_la_snoop.Main.Dirs.{Environment, resolve_profile_dir}
use kirb_la_snoop.Main.Transparent.{Capture, print_transparent}
use kirb_la_snoop.Main.Listing.{ListError, list_profiles}
use mathlib.Core.Option

-- `Cmd`
pub data Cmd : Type 0 where
  profiles : Cmd
  transparent : Capture → Cmd

-- `Cli`, without the directory and the rendering of the console.
pub record Cli : Type 0 where
  pub specs : List Text
  pub config : Option Text
  pub profile : Option Text
  pub profile_dir : Option Text
  pub no_raw : Bool
  pub no_jsonl : Bool
  pub no_files : Bool
  pub jsonl_max_data : ℕ
  pub stream_head : ℕ
  pub stream_tail : ℕ
  pub ring : Option ℕ
  pub max_run_bytes : ℕ
  pub upstream : Option Text
  pub iface : Option Text
  pub udp_idle : ℕ
  pub udp_max_peers : ℕ
  pub cmd : Option Cmd

-- What is outside: the files and the readers of toml, the environment, whether the log directory
-- can be made and the runtime starts.
pub record World : Type 0 where
  pub reader : Reader
  pub listeners_of : ListenReader
  pub env : Environment
  pub log_opens : Bool
  pub runtime_starts : Bool

pub data MainError : Type 0 where
  listing_error : ListError → MainError
  config_error : ConfigError → MainError
  spec_error : SpecError → MainError
  nothing_to_listen_on : MainError
  profile_error : LoadError → MainError
  no_log : MainError
  no_runtime : MainError
  every_listener_failed : MainError

abbrev pub in_main {ℓ κ} :
    {E : Type ℓ} {A : Type κ} → (E → MainError) → Result E A → Result MainError A
in_main f (ok a) = ok a
in_main f (err e) = err (f e)

-- The listeners of the config file.
abbrev pub config_listeners : World → Option Text → Result MainError (List Listener)
config_listeners w none = ok []
config_listeners w (some path) =
    in_main config_error (Config.load w.reader.files w.listeners_of path)

-- The listeners of the specifications; the first that is wrong is reported.
unfoldable pub spec_listeners : List Text → Result MainError (List Listener)
spec_listeners [] = ok []
spec_listeners (spec ∷ specs) =
    and_then (in_main spec_error (parse_spec spec))
      λ l. and_then (spec_listeners specs) λ ls. ok (l ∷ ls)

abbrev pub not_empty : List Listener → Result MainError (List Listener)
not_empty [] = err nothing_to_listen_on
not_empty (l ∷ ls) = ok (l ∷ ls)

-- Listeners come from the config file, then from the command line.
unfoldable pub all_listeners : World → Cli → Result MainError (List Listener)
unfolding spec_listeners
all_listeners w cli = and_then (config_listeners w cli.config) λ from_config.
    and_then (spec_listeners cli.specs) λ from_specs. not_empty (from_config ++ from_specs)

-- `a.or(b)`
abbrev pub or_default {ℓ} : {A : Type ℓ} → Option A → Option A → Option A
or_default (some a) b = some a
or_default none b = b

-- The compiled profiles, by the name that a listener asks for.
abbrev pub Table : Type 0
Table = List (Text × Compiled)

unfoldable pub lookup_profile : Text → Table → Option Compiled
lookup_profile spec [] = none
lookup_profile spec ((s, c) ∷ table) =
    let rest = lookup_profile spec table in if text_eq s spec then some c else rest

-- A profile that is found and loaded.
unfoldable pub load_profile : Reader → Text → Text → Result LoadError Compiled
load_profile r dir spec = and_then (resolve r.files spec dir) λ path. Load.load r path

abbrev pub add_missing : Reader → Text → Table → Text → Option Compiled → Result LoadError Table
add_missing r dir table spec (some c) = ok table
add_missing r dir table spec none = and_then (load_profile r dir spec) λ c. ok ((spec, c) ∷ table)

-- The profile of one listener is loaded, if it asks for one that is not there.
abbrev pub add_profile : Reader → Text → Table → Option Text → Result LoadError Table
add_profile r dir table none = ok table
add_profile r dir table (some spec) = add_missing r dir table spec (lookup_profile spec table)

-- The loop that loads the profiles, one for each distinct name.
unfoldable pub load_profiles :
    Reader → Text → Option Text → Table → List Listener → Result LoadError Table
load_profiles r dir default_profile table [] = ok table
load_profiles r dir default_profile table (l ∷ ls) =
    and_then (add_profile r dir table (or_default l.profile default_profile))
      λ table'. load_profiles r dir default_profile table' ls

abbrev pub or_else_size : Option ℕ → ℕ → ℕ
or_else_size none n = n
or_else_size (some ring) n = ring

-- The options of the logger.
unfoldable pub log_options : Cli → Options
log_options cli = record {
  jsonl = not cli.no_jsonl && not cli.no_files;
  raw = not cli.no_raw && not cli.no_files;
  jsonl_max_data = cli.jsonl_max_data;
  stream_limits = record {
    head = or_else_size cli.ring cli.stream_head;
    tail = or_else_size cli.ring cli.stream_tail;
  };
  max_run_bytes = cli.max_run_bytes;
}

-- What a listener is started with.
pub record Start : Type 0 where
  pub name : Text
  pub bind : Text
  pub profile : Option Compiled
  pub iface : Option Text

-- A task that is spawned. Only a tcp listener forwards; only a udp listener tracks peers.
pub data Task : Type 0 where
  tcp_run : Start → Option Text → Task
  udp_run : Start → ℕ → ℕ → Task

abbrev pub default_name : Proto → ℕ → Text
default_name p i = Config.tag p ++ (b':' ∷ decimal i)

abbrev pub name_or : Option Text → Text → Text
name_or (some name) other = name
name_or none other = other

abbrev pub profile_in : Table → Option Text → Option Compiled
profile_in table none = none
profile_in table (some spec) = lookup_profile spec table

unfoldable pub start_of : Cli → Table → ℕ → Listener → Start
start_of cli table i l = record {
  name = name_or l.name (default_name l.proto i);
  bind = l.bind;
  profile = profile_in table (or_default l.profile cli.profile);
  iface = or_default l.iface cli.iface;
}

abbrev pub task_for : Cli → Start → Option Text → Proto → Task
task_for cli s upstream Proto.tcp = tcp_run s upstream
task_for cli s upstream Proto.udp = udp_run s cli.udp_idle cli.udp_max_peers

unfoldable pub task_of : Cli → Table → ℕ → Listener → Task
unfolding start_of
task_of cli table i l =
    task_for cli (start_of cli table i l) (or_default l.upstream cli.upstream) l.proto

-- The loop that spawns the tasks, from place `i`.
unfoldable pub tasks_from : Cli → Table → ℕ → List Listener → List Task
tasks_from cli table i [] = []
tasks_from cli table i (l ∷ ls) = task_of cli table i l ∷ tasks_from cli table (suc i) ls

-- How a task ends: it returns, returns an error, or panics.
pub data Joined : Type 0 where
  returned failed panicked : Joined

-- What the loop of `select!` hears.
pub data Heard : Type 0 where
  ctrl_c : Heard
  joined : Joined → Heard

abbrev pub count_failed : ℕ → Joined → ℕ
count_failed n failed = n + 1
count_failed n returned = n
count_failed n panicked = n

-- The loop, with `live` tasks in the set: how many are left, and how many have failed. `none` where
-- it still waits.
unfoldable pub wait : ℕ → ℕ → List Heard → Option (ℕ × ℕ)
wait live n [] = none
wait live n (ctrl_c ∷ hs) = some (live, n)
wait live n (joined j ∷ hs) =
    let rest = wait (live - 1) (count_failed n j) hs in
    if live - 1 == 0 then some (0, count_failed n j) else rest

-- The result, once the loop has ended.
abbrev pub result_of : ℕ × ℕ → Result MainError (Unit {0})
result_of (live, n) = if ltb 0 n && live == 0 then err every_listener_failed else ok tt

-- All that is made before the tasks are spawned.
pub record Prepared : Type 0 where
  pub listeners : List Listener
  pub table : Table
  pub options : Options

abbrev pub demand : Bool → MainError → Result MainError (Unit {0})
demand true e = ok tt
demand false e = err e

unfoldable pub prepare : World → Cli → Text → Result MainError Prepared
unfolding all_listeners log_options
prepare w cli dir = and_then (all_listeners w cli) λ ls.
    and_then (in_main profile_error (load_profiles w.reader dir cli.profile [] ls)) λ table.
      and_then (demand w.log_opens no_log) λ _.
        and_then (demand w.runtime_starts no_runtime)
          λ _. ok (record { listeners = ls; table = table; options = log_options cli })

-- What a run does: it prints some lines, or it starts the tasks and ends as they do. `none` where it
-- still waits for them.
pub data Run : Type 0 where
  prints : Text → Run
  lists : List Text → Run
  serves : Options → List Task → Option (Result MainError (Unit {0})) → Run

abbrev pub serve_all : Cli → List Heard → Prepared → Run
serve_all cli heard p =
    let tasks = tasks_from cli p.table 0 p.listeners in
    serves p.options tasks (Option.map result_of (wait (length tasks) 0 heard))

abbrev pub run_cmd : World → Cli → List Heard → Text → Option Cmd → Result MainError Run
run_cmd w cli heard dir (some profiles) =
    and_then (in_main listing_error (list_profiles w.reader dir)) λ lines. ok (lists lines)
run_cmd w cli heard dir (some (transparent c)) = ok (prints (print_transparent c))
run_cmd w cli heard dir none = and_then (prepare w cli dir) λ p. ok (serve_all cli heard p)

-- `main`
unfoldable pub main : World → Cli → List Heard → Result MainError Run
unfolding prepare tasks_from wait
main w cli heard =
    run_cmd w cli heard (resolve_profile_dir w.reader.files w.env cli.profile_dir) cli.cmd
