-- ===== src/Udp/Warned.antt =====
-- src/listener/udp.rs: the warning at the start of a listener on an address that is not loopback.
use kirb_la_snoop.Base.{
  ℕ, false, Option, none, some, List, [], ◌≡◌, sym, ap, ◌∙◌, Text, Result, ok, arith,
}
use kirb_la_snoop.Base.{true, ◌∷◌, ◌++◌, ◌≢◌, refl, subst, Bytes, codes, Bool-cases, inl, inr}
use kirb_la_snoop.Base.{if◌then◌else◌}
use kirb_la_snoop.Log.Budget.{Stopped, emit-Obeys}
use kirb_la_snoop.Log.Events
use kirb_la_snoop.Log.Lines.{emit_writes}
use kirb_la_snoop.Log.Raw.{if_true}
use kirb_la_snoop.Log.State.{Event, Options, Logger, Outside}
use kirb_la_snoop.Origdst.{SocketAddr}
use kirb_la_snoop.Profile.{Compiled, responds}
use kirb_la_snoop.Udp.{Network, Setup, Listener, Input, start, run}
use kirb_la_snoop.Udp.Runs.{run_silent, run_unserved}
use kirb_la_snoop.Udp.Start.{
  Sockets, StartError, announce, reflector_note, profile_name, is_loopback, warns, start_run,
  open_socket,
}

quiet_run :
    (w : Network) (u : Setup) (l : Logger) (st : Listener) (is : List Input) (addr : SocketAddr)
    (p : Option Compiled)
    → u.profile ≡ p
    → warns addr p ≡ false
    → is_loopback addr.ip ≡ false
    → run w u (start l) is ≡ some st
    → st.sent ≡ []
quiet_run w u l st is addr none served quiet open_bind h = run_unserved w u l st is served h
quiet_run w u l st is addr (some c) served quiet open_bind h =
    let silent : responds c ≡ false = unfold warns in ground (arith, quiet, open_bind) in
    run_silent w u l st is c served silent h

-- What a start gives, once its socket is open.
started :
    (k : Sockets) (o : Outside) (name bind : Text) (p : Option Compiled) (l : Logger)
    (idle_secs max_peers : ℕ) (iface : Option Text) (u : Setup) (st : Listener) (addr : SocketAddr)
    → open_socket k bind iface ≡ ok addr
    → start_run k o name bind p l idle_secs max_peers iface ≡ ok (u, st)
    → (u.profile ≡ p) × (st ≡ start (announce k o name addr p l))
unfolding start_run
started k o name bind p l idle_secs max_peers iface u st addr opened h =
    let setup : Setup = record {
      name = name;
      local = k.to_string addr;
      profile = p;
      idle_secs = idle_secs;
      max_peers = max_peers;
    } in
    let made : Result StartError (Setup × Listener) =
      ok (setup, start (announce k o name addr p l)) in
    let both : made ≡ ok (u, st) = (rw opened at h) in
    (ap (λ (x : Setup). x.profile) (sym (let e : setup ≡ u = cc in e)), cc)

-- The warning about a profile, as the last event of the log.
pub record IsWarned (k : Sockets) (o : Outside) (name : Text) (p : Option Compiled) (l : Logger)
    : Type 0 where
  pub profile : Compiled
  pub served : p ≡ some profile
  pub ev : Event
  pub is_warning : (ev.event ≡ codes "warning") × (ev.proto ≡ codes "udp")
  pub of_listener : ev.listener ≡ some name
  pub says : ev.note ≡ some (reflector_note k profile)
  pub line : Bytes
  pub printed : o.to_json ev ≡ some line
  pub before : List Bytes
  pub is_last : l.events ≡ before ++ line ∷ []

warn-IsWarned :
    (k : Sockets) (o : Outside) (name : Text) (c : Compiled) (l : Logger)
    → l.opts.jsonl ≡ true
    → ((ev : Event) → (line : Bytes) × (o.to_json ev ≡ some line))
    → ¬ Stopped (Events.warn o l (codes "udp") name (reflector_note k c))
    → IsWarned k o name (some c) (Events.warn o l (codes "udp") name (reflector_note k c))
unfolding Events.warn
warn-IsWarned k o name c l on prints running =
    let (line, printed) = prints _ in
    record {
      profile = c;
      served = refl;
      ev = _;
      is_warning = (refl, refl);
      of_listener = refl;
      says = refl;
      line = line;
      printed = printed;
      before = l.events;
      is_last = emit_writes o l _ line on running printed;
    }

announce-IsWarned :
    (k : Sockets) (o : Outside) (name : Text) (addr : SocketAddr) (p : Option Compiled) (l : Logger)
    → l.opts.jsonl ≡ true
    → ((ev : Event) → (line : Bytes) × (o.to_json ev ≡ some line))
    → warns addr p ≡ true
    → ¬ Stopped (announce k o name addr p l)
    → IsWarned k o name p (announce k o name addr p l)
unfolding announce
announce-IsWarned k o name addr none l on prints due running =
    absurd (let clash : false ≡ true = unfold warns in due in cc)
announce-IsWarned k o name addr (some c) l on prints due running =
    let heard =
      Events.listening o l (codes "udp") name (k.to_string addr) (profile_name (some c)) in
    let same : (if warns addr (some c)
          then Events.warn o heard (codes "udp") name (reflector_note k c)
          else heard)
        ≡ Events.warn o heard (codes "udp") name (reflector_note k c) =
      if_true (warns addr (some c)) _ _ due in
    let still : heard.opts ≡ l.opts = unfold Events.listening in (emit-Obeys o l _).same_opts in
    subst (IsWarned k o name (some c)) (sym same) (
      warn-IsWarned k o name c heard (ap (λ (x : Options). x.jsonl) still ∙ on) prints
        (subst (λ x. ¬ Stopped x) same running))

-- Where events are written (with no cap that stops them), a listener that starts on an address that
-- is not loopback and ever sends anything, whatever arrives, has been warned about: when its loop
-- begins, the last event is the warning, with the name of the listener and the note on the profile.
pub run-IsWarned :
    (k : Sockets) (w : Network) (name bind : Text) (p : Option Compiled) (l : Logger)
    (idle_secs max_peers : ℕ) (iface : Option Text) (u : Setup) (st st' : Listener)
    (addr : SocketAddr) (is : List Input)
    → open_socket k bind iface ≡ ok addr
    → start_run k w.log name bind p l idle_secs max_peers iface ≡ ok (u, st)
    → is_loopback addr.ip ≡ false
    → l.opts.jsonl ≡ true
    → ((ev : Event) → (line : Bytes) × (w.log.to_json ev ≡ some line))
    → ¬ Stopped st.logger
    → run w u st is ≡ some st'
    → st'.sent ≢ []
    → IsWarned k w.log name p st.logger
run-IsWarned k w name bind p l idle_secs max_peers iface u st st' addr is opened h open_bind on
      prints running ran sent =
    let (served, begins) =
      started k w.log name bind p l idle_secs max_peers iface u st addr opened h in
    let logger_is : st.logger ≡ announce k w.log name addr p l =
      ap (λ (x : Listener). x.logger) begins ∙ refl in
    elim (Bool-cases (warns addr p)) [
      | inl due ↦ subst (IsWarned k w.log name p) (sym logger_is) (
          announce-IsWarned k w.log name addr p l on prints due
            (subst (λ x. ¬ Stopped x) logger_is running))
      | inr quiet ↦ absurd (
          sent (
            quiet_run w u (announce k w.log name addr p l) st' is addr p served quiet open_bind
              (ap (λ s. run w u s is) (sym begins) ∙ ran)))
    ]
