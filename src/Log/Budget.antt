-- ===== src/Log/Budget.antt =====
-- src/log.rs: the cap on what a run writes to disk.
use kirb_la_snoop.Base.{
  ℕ, ◌^◌, ◌≤◌, ◌<◌, Bool, true, false, not, ◌||◌, Option, none, some, List, [], ◌∷◌, ◌≡◌, ◌≢◌, refl,
  sym, ap, ◌∙◌, Bytes, Text, length, ◌==◌, if◌then◌else◌, add_u64, arith, Bool-cases, inl, inr,
}
use kirb_la_snoop.Stream.{Stream, Summary, finish}
use kirb_la_snoop.Log.State.{
  Dir, rx, tx, Event, Options, Stats, Key, Logger, Outside, charge, append_line, emit_line, emit,
  lookup, remove, new_logger, open_stream, write_open, write_granted, raw_write,
}
use kirb_la_snoop.Log.Events
use kirb_la_snoop.Log.Calls.{Call, call, run_calls}

-- A capped logger has charged no more than its cap.
abbrev pub WithinCap : Logger → Type 0
WithinCap l =
    l.opts.max_run_bytes ≢ 0
    → (l.opts.max_run_bytes < 2 ^ 64) × (l.disk_used ≤ l.opts.max_run_bytes)

abbrev pub Stopped : Logger → Type 0
Stopped l = (l.opts.max_run_bytes ≢ 0) × (l.disk_stopped ≡ true)

-- What no call does: change the options, pass the cap, or write an event once it has stopped.
pub record Obeys (l l' : Logger) : Type 0 where
  pub same_opts : l'.opts ≡ l.opts
  pub keeps_cap : WithinCap l → WithinCap l'
  pub stays_stopped : Stopped l → (l'.disk_stopped ≡ true) × (l'.events ≡ l.events)

Obeys-refl : (l : Logger) → Obeys l l
Obeys-refl l = record { same_opts = refl; keeps_cap = λ w. w; stays_stopped = λ s. (s.1, refl) }

Obeys-trans : {l m n : Logger} → Obeys l m → Obeys m n → Obeys l n
Obeys-trans p q = record {
  same_opts = q.same_opts ∙ p.same_opts;
  keeps_cap = λ w. q.keeps_cap (p.keeps_cap w);
  stays_stopped = λ s.
      let first = p.stays_stopped s in
      let second =
        q.stays_stopped
          ((λ e. s.0 (ap (λ (x : Options). x.max_run_bytes) (sym p.same_opts) ∙ e)), first.0) in
      (second.0, second.1 ∙ first.1);
}

-- A logger that is not stopped was not stopped before.
pub Obeys-running : {l l' : Logger} → Obeys l l' → ¬ Stopped l' → ¬ Stopped l
Obeys-running q running s =
    let (still, same_events) = q.stays_stopped s in
    running ((λ e. s.0 (ap (λ (x : Options). x.max_run_bytes) (sym q.same_opts) ∙ e)), still)

Obeys-if : (b : Bool) {l x y : Logger} → Obeys l x → Obeys l y → Obeys l (if b then x else y)
Obeys-if true p q = p
Obeys-if false p q = q

charge-Obeys : (l : Logger) (n : ℕ) → Obeys l (charge l n).0
unfolding charge
charge-Obeys l n = record {
  same_opts = ground arith;
  keeps_cap = λ w. elim (Bool-cases (l.opts.max_run_bytes == 0)) [
    | inl off ↦ rw off w
    | inr on ↦
        let (small, within) = w (ground (arith, on)) in
        rw on (λ _. (ground arith, ground (arith, within, small)))
  ];
  stays_stopped = λ s. (ground (arith, s.0, s.1), ground (arith, s.0, s.1));
}

-- A stopped logger grants nothing.
charge-Stopped : (l : Logger) (n : ℕ) → Stopped l → (charge l n).1 ≡ false
unfolding charge
charge-Stopped l n s = ground (arith, s.0, s.1)

append_line-Obeys :
    (l : Logger) (line : Bytes) → Obeys l (append_line (charge l (add_u64 (length line) 1)) line)
append_line-Obeys l line =
    let n = add_u64 (length line) 1 in
    let paid = charge-Obeys l n in
    record {
      same_opts = elim (Bool-cases (charge l n).1) [
        | inl granted ↦ rw granted paid.same_opts
        | inr refused ↦ rw refused paid.same_opts
      ];
      keeps_cap = λ w. elim (Bool-cases (charge l n).1) [
        | inl granted ↦ rw granted (paid.keeps_cap w)
        | inr refused ↦ rw refused (paid.keeps_cap w)
      ];
      stays_stopped = λ s. rw (charge-Stopped l n s) (paid.stays_stopped s);
    }

emit_line-Obeys : (l : Logger) (line : Option Bytes) → Obeys l (emit_line l line)
emit_line-Obeys l none = Obeys-refl l
emit_line-Obeys l (some line) = append_line-Obeys l line

pub emit-Obeys : (o : Outside) (l : Logger) (ev : Event) → Obeys l (emit o l ev)
unfolding emit
emit-Obeys o l ev = Obeys-if (not l.opts.jsonl) (Obeys-refl l) (emit_line-Obeys l (o.to_json ev))

write_open-Obeys :
    (l : Logger) (k : Key) (bytes : Bytes) (s : Option Stream) → Obeys l (write_open l k bytes s)
write_open-Obeys l k bytes none = Obeys-refl l
write_open-Obeys l k bytes (some s) = record {
  same_opts = refl;
  keeps_cap = λ w. w;
  stays_stopped = λ h. (h.1, refl);
}

pub write_granted-Obeys :
    (o : Outside) (l : Logger) (conn : ℕ) (proto peer : Text) (dir : Dir) (bytes : Bytes) (b : Bool)
    → Obeys l (write_granted o conn proto peer dir bytes (l, b))
write_granted-Obeys o l conn proto peer dir bytes b =
    Obeys-if b (write_open-Obeys l (conn, dir) bytes (open_stream o l conn proto peer dir))
      (Obeys-refl l)

raw_write-Obeys :
    (o : Outside) (l : Logger) (conn : ℕ) (proto peer : Text) (dir : Dir) (bytes : Bytes)
    → Obeys l (raw_write o l conn proto peer dir bytes)
unfolding raw_write
raw_write-Obeys o l conn proto peer dir bytes =
    Obeys-if (not l.opts.raw || length bytes == 0) (Obeys-refl l) (
      Obeys-trans (charge-Obeys l (length bytes)) (
        write_granted-Obeys o (charge l (length bytes)).0 conn proto peer dir bytes
          (charge l (length bytes)).1))

-- A change of the counters or of the open streams is within the rules.
with_stats-Obeys : (l : Logger) (st : Stats) → Obeys l (record l { stats = st })
with_stats-Obeys l st = record {
  same_opts = refl;
  keeps_cap = λ w. w;
  stays_stopped = λ s. (s.1, refl);
}

with_raw-Obeys : (l : Logger) (m : List (Key × Stream)) → Obeys l (record l { raw = m })
with_raw-Obeys l m = record {
  same_opts = refl;
  keeps_cap = λ w. w;
  stays_stopped = λ s. (s.1, refl);
}

report_gap-Obeys :
    (o : Outside) (l : Logger) (conn : ℕ) (proto name peer : Text) (dir : Dir) (sum : Summary)
    → Obeys l (Events.report_gap o l conn proto name peer dir sum)
report_gap-Obeys o l conn proto name peer dir sum =
    Obeys-if (sum.dropped == 0) (Obeys-refl l) (emit-Obeys o l _)

report-Obeys :
    (o : Outside) (l : Logger) (conn : ℕ) (proto name peer : Text) (dir : Dir) (s : Option Stream)
    → Obeys l (Events.report o l conn proto name peer dir s)
report-Obeys o l conn proto name peer dir none = Obeys-refl l
report-Obeys o l conn proto name peer dir (some s) =
    report_gap-Obeys o l conn proto name peer dir (finish (o.opens s.tail_path) s).0

close_raw-Obeys :
    (o : Outside) (l : Logger) (conn : ℕ) (proto name peer : Text)
    → Obeys l (Events.close_raw o l conn proto name peer)
unfolding Events.close_raw
close_raw-Obeys o l conn proto name peer = Obeys-if (not l.opts.raw) (Obeys-refl l) (
    Obeys-trans (with_raw-Obeys l (remove (conn, tx) (remove (conn, rx) l.raw))) (
      Obeys-trans (report-Obeys o _ conn proto name peer rx (lookup (conn, rx) l.raw))
        (report-Obeys o _ conn proto name peer tx (lookup (conn, tx) (remove (conn, rx) l.raw)))))

pub call-Obeys : (o : Outside) (c : Call) (l : Logger) → Obeys l (call o l c)
unfolding call Events.listening Events.open_conn Events.log_data Events.close_conn Events.warn
    Events.error Events.flush
call-Obeys o (Call.listening proto name local profile) l = emit-Obeys o l _
call-Obeys o (Call.open_conn proto name conn local peer orig) l =
    Obeys-trans (with_stats-Obeys l _) (emit-Obeys o _ _)
call-Obeys o (Call.log_data proto name conn peer dir bytes rule) l =
    Obeys-trans (with_stats-Obeys l _)
      (Obeys-trans (raw_write-Obeys o _ conn proto peer dir bytes) (emit-Obeys o _ _))
call-Obeys o (Call.close_conn proto name conn peer why) l =
    Obeys-trans (close_raw-Obeys o l conn proto name peer) (emit-Obeys o _ _)
call-Obeys o (Call.warn proto name msg) l = emit-Obeys o l _
call-Obeys o (Call.error proto name conn msg) l = emit-Obeys o l _
call-Obeys o Call.flush l = with_raw-Obeys l []

pub run_calls-Obeys : (o : Outside) (cs : List Call) (l : Logger) → Obeys l (run_calls o l cs)
unfolding run_calls
run_calls-Obeys o [] l = Obeys-refl l
run_calls-Obeys o (c ∷ cs) l = Obeys-trans (call-Obeys o c l) (run_calls-Obeys o cs (call o l c))

-- Whatever calls are made of a new logger with a cap, what it has charged to disk stays within it.
pub run_calls-WithinCap :
    (o : Outside) (opts : Options) (cs : List Call)
    → opts.max_run_bytes ≢ 0
    → opts.max_run_bytes < 2 ^ 64
    → (run_calls o (new_logger opts) cs).disk_used ≤ opts.max_run_bytes
run_calls-WithinCap o opts cs capped small =
    let obeys = run_calls-Obeys o cs (new_logger opts) in
    let same : (run_calls o (new_logger opts) cs).opts.max_run_bytes ≡ opts.max_run_bytes =
      ap (λ (x : Options). x.max_run_bytes) obeys.same_opts ∙ (unfold new_logger in refl) in
    let kept = obeys.keeps_cap (unfold new_logger in λ _. (small, omega arith)) in
    omega (arith, same, (kept (λ e. capped (sym same ∙ e))).1)

-- Once the cap has stopped the logger, no call writes another event, and it stays stopped.
pub run_calls-Stopped :
    (o : Outside) (l : Logger) (cs : List Call)
    → Stopped l
    → ((run_calls o l cs).disk_stopped ≡ true) × ((run_calls o l cs).events ≡ l.events)
run_calls-Stopped o l cs = (run_calls-Obeys o cs l).stays_stopped
