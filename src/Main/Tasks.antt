-- ===== src/Main/Tasks.antt =====
-- src/main.rs: what the tasks are started with.
use kirb_la_snoop.Base.{
  ℕ, suc, Option, none, some, List, [], ◌∷◌, ◌≡◌, refl, subst, Text, All, Result, ok, err,
  and_then-eq-ok,
}
use kirb_la_snoop.Config.{Proto, Listener}
use kirb_la_snoop.Profile.{Compiled}
use kirb_la_snoop.Profile.Load.{Reader}
use kirb_la_snoop.Main.{
  Cli, World, Table, Start, Task, tcp_run, udp_run, default_name, name_or, or_default, start_of,
  task_of, tasks_from, load_profile, load_profiles, profile_in, all_listeners, prepare, Prepared,
  in_main, profile_error, MainError, task_for, demand, log_options, no_log, no_runtime,
}
use kirb_la_snoop.Main.Profiles.{IsSound, Served, load_profiles-Ready}

-- The profile that a task is given: the one that its listener asks for, or the default one, loaded.
abbrev pub Given : Reader → Text → Option Text → Option Compiled → Type 0
Given r dir none p = p ≡ none
Given r dir (some spec) p = (c : Compiled) × (p ≡ some c) × (load_profile r dir spec ≡ ok c)

-- What a listener is started with: its own name, interface and upstream where it has them.
pub record StartFor (r : Reader) (dir : Text) (cli : Cli) (i : ℕ) (l : Listener) (s : Start)
    : Type 0 where
  pub name_is : s.name ≡ name_or l.name (default_name l.proto i)
  pub bind_is : s.bind ≡ l.bind
  pub iface_is : s.iface ≡ or_default l.iface cli.iface
  pub profile_is : Given r dir (or_default l.profile cli.profile) s.profile

abbrev pub TaskFor : Reader → Text → Cli → ℕ → Listener → Task → Type 0
TaskFor r dir cli i l (tcp_run s upstream) =
    StartFor r dir cli i l s
    × (l.proto ≡ Proto.tcp)
    × (upstream ≡ or_default l.upstream cli.upstream)
TaskFor r dir cli i l (udp_run s idle max_peers) =
    StartFor r dir cli i l s
    × (l.proto ≡ Proto.udp)
    × (idle ≡ cli.udp_idle)
    × (max_peers ≡ cli.udp_max_peers)

-- One task for each listener, in the same order.
abbrev pub TasksFor : Reader → Text → Cli → ℕ → List Listener → List Task → Type 0
TasksFor r dir cli i [] [] = Unit
TasksFor r dir cli i [] (t ∷ ts) = ⊥
TasksFor r dir cli i (l ∷ ls) [] = ⊥
TasksFor r dir cli i (l ∷ ls) (t ∷ ts) = TaskFor r dir cli i l t × TasksFor r dir cli (suc i) ls ts

profile_in-Given :
    (r : Reader) (dir : Text) (table : Table) (o : Option Text)
    → IsSound r dir table
    → Served table o
    → Given r dir o (profile_in table o)
profile_in-Given r dir table none sound served = refl
profile_in-Given r dir table (some spec) sound (c, e) = (c, e, sound spec c e)

start_of-StartFor :
    (r : Reader) (dir : Text) (cli : Cli) (table : Table) (i : ℕ) (l : Listener)
    → IsSound r dir table
    → Served table (or_default l.profile cli.profile)
    → StartFor r dir cli i l (start_of cli table i l)
unfolding start_of
start_of-StartFor r dir cli table i l sound served = record {
  name_is = refl;
  bind_is = refl;
  iface_is = refl;
  profile_is = profile_in-Given r dir table (or_default l.profile cli.profile) sound served;
}

task_for-TaskFor :
    (r : Reader) (dir : Text) (cli : Cli) (i : ℕ) (l : Listener) (s : Start) (p : Proto)
    → l.proto ≡ p
    → StartFor r dir cli i l s
    → TaskFor r dir cli i l (task_for cli s (or_default l.upstream cli.upstream) p)
task_for-TaskFor r dir cli i l s Proto.tcp is st = (st, is, refl)
task_for-TaskFor r dir cli i l s Proto.udp is st = (st, is, refl, refl)

tasks_from-TasksFor :
    (r : Reader) (dir : Text) (cli : Cli) (table : Table) (i : ℕ) (ls : List Listener)
    → IsSound r dir table
    → All (λ l. Served table (or_default l.profile cli.profile)) ls
    → TasksFor r dir cli i ls (tasks_from cli table i ls)
unfolding tasks_from task_of
tasks_from-TasksFor r dir cli table i [] sound served = tt
tasks_from-TasksFor r dir cli table i (l ∷ ls) sound served =
    let st = start_of-StartFor r dir cli table i l sound served.0 in
    (
      task_for-TaskFor r dir cli i l (start_of cli table i l) l.proto refl st,
      tasks_from-TasksFor r dir cli table (suc i) ls sound served.1,
    )

in_main-ok {ℓ κ} :
    {E : Type ℓ} {A : Type κ} (f : E → MainError) (r : Result E A) {a : A}
    → in_main f r ≡ ok a
    → r ≡ ok a
in_main-ok f (ok a) h = cc
in_main-ok f (err e) h = absurd (cc)

prepared_table :
    (w : World) (cli : Cli) (dir : Text) (p : Prepared)
    → prepare w cli dir ≡ ok p
    → load_profiles w.reader dir cli.profile [] p.listeners ≡ ok p.table
unfolding prepare
prepared_table w cli dir p h =
    let (ls, h1, els) = and_then-eq-ok (all_listeners w cli) _ h in
    let (table, h2, et) =
      and_then-eq-ok (in_main profile_error (load_profiles w.reader dir cli.profile [] ls)) _ h1 in
    let (u, h3, eu) = and_then-eq-ok (demand w.log_opens no_log) _ h2 in
    let (v, h4, ev) = and_then-eq-ok (demand w.runtime_starts no_runtime) _ h3 in
    let same : record { listeners = ls; table = table; options = log_options cli } ≡ p = cc in
    subst (λ (x : Prepared). load_profiles w.reader dir cli.profile [] x.listeners ≡ ok x.table)
      same (in_main-ok profile_error (load_profiles w.reader dir cli.profile [] ls) et)

-- Where the preparation succeeds, each listener has one task, in the same order, of its protocol,
-- with its own name, interface and upstream before those of the command line, and with the profile
-- that it asks for, or the default one, resolved and loaded: none is started without the profile
-- that was asked for.
pub prepare-TasksFor :
    (w : World) (cli : Cli) (dir : Text) (p : Prepared)
    → prepare w cli dir ≡ ok p
    → TasksFor w.reader dir cli 0 p.listeners (tasks_from cli p.table 0 p.listeners)
prepare-TasksFor w cli dir p h =
    let ready =
      load_profiles-Ready w.reader dir cli.profile p.table p.listeners
        (prepared_table w cli dir p h) in
    tasks_from-TasksFor w.reader dir cli p.table 0 p.listeners ready.is_sound ready.all_served
