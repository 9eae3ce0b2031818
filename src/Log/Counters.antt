-- ===== src/Log/Counters.antt =====
-- src/log.rs: the counters over a run of calls.
use kirb_la_snoop.Base.{
  ℕ, ◌+◌, ◌^◌, ◌<◌, Bool, true, false, not, Option, none, some, List, [], ◌∷◌, ◌≡◌, refl, ap, ◌∙◌,
  Bytes, Text, length, ◌==◌, ◌||◌, if◌then◌else◌, add_u64, arith,
}
use kirb_la_snoop.Stream.{Stream, finish}
use kirb_la_snoop.Log.State.{
  Dir, rx, tx, Event, Stats, Key, Options, Logger, Outside, charge, append_line, emit_line, emit,
  lookup, remove, open_stream, write_open, raw_write, new_logger,
}
use kirb_la_snoop.Log.Events
use kirb_la_snoop.Log.Calls.{Call, call, run_calls}

charge_stats : (l : Logger) (n : ℕ) → (charge l n).0.stats ≡ l.stats
unfolding charge
charge_stats l n = ground arith

if_stats :
    (b : Bool) (st : Stats) (x y : Logger)
    → x.stats ≡ st
    → y.stats ≡ st
    → (if b then x else y).stats ≡ st
if_stats true st x y p q = p
if_stats false st x y p q = q

append_line_stats :
    (l : Logger) (b : Bool) (line : Bytes) → (append_line (l, b) line).stats ≡ l.stats
append_line_stats l true line = refl
append_line_stats l false line = refl

emit_line_stats : (l : Logger) (line : Option Bytes) → (emit_line l line).stats ≡ l.stats
emit_line_stats l none = refl
emit_line_stats l (some line) =
    let n = add_u64 (length line) 1 in
    append_line_stats (charge l n).0 (charge l n).1 line ∙ charge_stats l n

emit_stats : (o : Outside) (l : Logger) (ev : Event) → (emit o l ev).stats ≡ l.stats
unfolding emit
emit_stats o l ev = if_stats (not l.opts.jsonl) l.stats _ _ refl (emit_line_stats l (o.to_json ev))

report_stats :
    (o : Outside) (l : Logger) (conn : ℕ) (proto name peer : Text) (dir : Dir) (s : Option Stream)
    → (Events.report o l conn proto name peer dir s).stats ≡ l.stats
report_stats o l conn proto name peer dir none = refl
report_stats o l conn proto name peer dir (some s) =
    if_stats ((finish (o.opens s.tail_path) s).0.dropped == 0) l.stats _ _ refl (emit_stats o l _)

close_raw_stats :
    (o : Outside) (l : Logger) (conn : ℕ) (proto name peer : Text)
    → (Events.close_raw o l conn proto name peer).stats ≡ l.stats
unfolding Events.close_raw
close_raw_stats o l conn proto name peer = if_stats (not l.opts.raw) l.stats _ _ refl (
    report_stats o _ conn proto name peer tx (lookup (conn, tx) (remove (conn, rx) l.raw))
    ∙ report_stats o _ conn proto name peer rx (lookup (conn, rx) l.raw))

write_open_stats :
    (l : Logger) (k : Key) (bytes : Bytes) (s : Option Stream)
    → (write_open l k bytes s).stats ≡ l.stats
write_open_stats l k bytes none = refl
write_open_stats l k bytes (some s) = refl

raw_write_stats :
    (o : Outside) (l : Logger) (conn : ℕ) (proto peer : Text) (dir : Dir) (bytes : Bytes)
    → (raw_write o l conn proto peer dir bytes).stats ≡ l.stats
unfolding raw_write
raw_write_stats o l conn proto peer dir bytes =
    let paid = (charge l (length bytes)).0 in
    if_stats (not l.opts.raw || length bytes == 0) l.stats _ _ refl (
      if_stats (charge l (length bytes)).1 l.stats _ _
        (write_open_stats paid (conn, dir) bytes (open_stream o paid conn proto peer dir)
          ∙ charge_stats l (length bytes))
        (charge_stats l (length bytes)))

-- The counters behind one call.
abbrev pub counted : Stats → Call → Stats
counted st (Call.open_conn proto name conn local peer orig) = record st {
  conns = add_u64 st.conns 1;
}
counted st (Call.log_data proto name conn peer dir bytes rule) =
    Events.count_data st dir (length bytes)
counted st (Call.listening proto name local profile) = st
counted st (Call.close_conn proto name conn peer why) = st
counted st (Call.warn proto name msg) = st
counted st (Call.error proto name conn msg) = st
counted st Call.flush = st

call_stats : (o : Outside) (l : Logger) (c : Call) → (call o l c).stats ≡ counted l.stats c
unfolding call Events.listening Events.open_conn Events.log_data Events.close_conn Events.warn
    Events.error Events.flush
call_stats o l (Call.listening proto name local profile) = emit_stats o l _
call_stats o l (Call.open_conn proto name conn local peer orig) = emit_stats o _ _
call_stats o l (Call.log_data proto name conn peer dir bytes rule) =
    emit_stats o _ _ ∙ raw_write_stats o _ conn proto peer dir bytes
call_stats o l (Call.close_conn proto name conn peer why) =
    emit_stats o _ _ ∙ close_raw_stats o l conn proto name peer
call_stats o l (Call.warn proto name msg) = emit_stats o l _
call_stats o l (Call.error proto name conn msg) = emit_stats o l _
call_stats o l Call.flush = refl

-- What one call adds to a counter.
abbrev pub opens : Call → ℕ
opens (Call.open_conn proto name conn local peer orig) = 1
opens c = 0

abbrev in_dir : Dir → Dir → ℕ → ℕ
in_dir rx rx n = n
in_dir tx tx n = n
in_dir rx tx n = 0
in_dir tx rx n = 0

abbrev pub messages : Dir → Call → ℕ
messages d (Call.log_data proto name conn peer dir bytes rule) = in_dir d dir 1
messages d c = 0

abbrev pub volume : Dir → Call → ℕ
volume d (Call.log_data proto name conn peer dir bytes rule) = in_dir d dir (length bytes)
volume d c = 0

abbrev pub total : (Call → ℕ) → List Call → ℕ
total f [] = 0
total f (c ∷ cs) = f c + total f cs

abbrev pub messages_in : Dir → Stats → ℕ
messages_in rx st = st.rx_msgs
messages_in tx st = st.tx_msgs

abbrev pub bytes_in : Dir → Stats → ℕ
bytes_in rx st = st.rx_bytes
bytes_in tx st = st.tx_bytes

-- A counter that each call raises by what it adds.
abbrev Raises : (Stats → ℕ) → (Call → ℕ) → Type 0
Raises f add = (st : Stats) (c : Call) → f st + add c < 2 ^ 64 → f (counted st c) ≡ f st + add c

run_counter :
    (f : Stats → ℕ) (add : Call → ℕ)
    → Raises f add
    → (o : Outside) (l : Logger) (cs : List Call) → f l.stats + total add cs < 2 ^ 64
    → f (run_calls o l cs).stats ≡ f l.stats + total add cs
unfolding run_calls
run_counter f add raises o l [] fits = omega arith
run_counter f add raises o l (c ∷ cs) fits =
    let step : f (call o l c).stats ≡ f l.stats + add c =
      ap f (call_stats o l c) ∙ raises l.stats c (omega (arith, fits)) in
    let rest = run_counter f add raises o (call o l c) cs (omega (arith, fits, step)) in
    omega (arith, rest, step)

from_zero :
    (f : Stats → ℕ) (add : Call → ℕ)
    → Raises f add
    → (o : Outside) (opts : Options) (cs : List Call) → f (new_logger opts).stats ≡ 0
    → total add cs < 2 ^ 64
    → f (run_calls o (new_logger opts) cs).stats ≡ total add cs
from_zero f add raises o opts cs zero_first fits =
    let counts =
      run_counter f add raises o (new_logger opts) cs (omega (arith, fits, zero_first)) in
    omega (arith, counts, zero_first)

conns-Raises : Raises (λ st. st.conns) opens
conns-Raises st (Call.open_conn proto name conn local peer orig) fits = omega (arith, fits)
conns-Raises st (Call.log_data proto name conn peer rx bytes rule) fits =
    unfold Events.count_data in omega arith
conns-Raises st (Call.log_data proto name conn peer tx bytes rule) fits =
    unfold Events.count_data in omega arith
conns-Raises st (Call.listening proto name local profile) fits = omega arith
conns-Raises st (Call.close_conn proto name conn peer why) fits = omega arith
conns-Raises st (Call.warn proto name msg) fits = omega arith
conns-Raises st (Call.error proto name conn msg) fits = omega arith
conns-Raises st Call.flush fits = omega arith

messages-Raises : (d : Dir) → Raises (messages_in d) (messages d)
messages-Raises rx st (Call.log_data proto name conn peer rx bytes rule) fits =
    unfold Events.count_data in omega (arith, fits)
messages-Raises rx st (Call.log_data proto name conn peer tx bytes rule) fits =
    unfold Events.count_data in omega (arith, fits)
messages-Raises tx st (Call.log_data proto name conn peer rx bytes rule) fits =
    unfold Events.count_data in omega (arith, fits)
messages-Raises tx st (Call.log_data proto name conn peer tx bytes rule) fits =
    unfold Events.count_data in omega (arith, fits)
messages-Raises rx st (Call.open_conn proto name conn local peer orig) fits = omega arith
messages-Raises tx st (Call.open_conn proto name conn local peer orig) fits = omega arith
messages-Raises rx st (Call.listening proto name local profile) fits = omega arith
messages-Raises tx st (Call.listening proto name local profile) fits = omega arith
messages-Raises rx st (Call.close_conn proto name conn peer why) fits = omega arith
messages-Raises tx st (Call.close_conn proto name conn peer why) fits = omega arith
messages-Raises rx st (Call.warn proto name msg) fits = omega arith
messages-Raises tx st (Call.warn proto name msg) fits = omega arith
messages-Raises rx st (Call.error proto name conn msg) fits = omega arith
messages-Raises tx st (Call.error proto name conn msg) fits = omega arith
messages-Raises rx st Call.flush fits = omega arith
messages-Raises tx st Call.flush fits = omega arith

bytes-Raises : (d : Dir) → Raises (bytes_in d) (volume d)
bytes-Raises rx st (Call.log_data proto name conn peer rx bytes rule) fits =
    unfold Events.count_data in omega (arith, fits)
bytes-Raises rx st (Call.log_data proto name conn peer tx bytes rule) fits =
    unfold Events.count_data in omega (arith, fits)
bytes-Raises tx st (Call.log_data proto name conn peer rx bytes rule) fits =
    unfold Events.count_data in omega (arith, fits)
bytes-Raises tx st (Call.log_data proto name conn peer tx bytes rule) fits =
    unfold Events.count_data in omega (arith, fits)
bytes-Raises rx st (Call.open_conn proto name conn local peer orig) fits = omega arith
bytes-Raises tx st (Call.open_conn proto name conn local peer orig) fits = omega arith
bytes-Raises rx st (Call.listening proto name local profile) fits = omega arith
bytes-Raises tx st (Call.listening proto name local profile) fits = omega arith
bytes-Raises rx st (Call.close_conn proto name conn peer why) fits = omega arith
bytes-Raises tx st (Call.close_conn proto name conn peer why) fits = omega arith
bytes-Raises rx st (Call.warn proto name msg) fits = omega arith
bytes-Raises tx st (Call.warn proto name msg) fits = omega arith
bytes-Raises rx st (Call.error proto name conn msg) fits = omega arith
bytes-Raises tx st (Call.error proto name conn msg) fits = omega arith
bytes-Raises rx st Call.flush fits = omega arith
bytes-Raises tx st Call.flush fits = omega arith

-- As long as they stay below 2^64, the counters of a run are the number of connections opened and,
-- for each direction, the number of messages logged and of their bytes, whatever was kept on disk.
pub run_calls-Counts :
    (o : Outside) (opts : Options) (cs : List Call) (d : Dir)
    → total opens cs < 2 ^ 64
    → total (messages d) cs < 2 ^ 64
    → total (volume d) cs < 2 ^ 64
    → let st = (run_calls o (new_logger opts) cs).stats in
      (st.conns ≡ total opens cs)
      × (messages_in d st ≡ total (messages d) cs)
      × (bytes_in d st ≡ total (volume d) cs)
run_calls-Counts o opts cs rx fits_conns fits_messages fits_bytes = (
  from_zero (λ st. st.conns) opens conns-Raises o opts cs (unfold new_logger in refl) fits_conns,
  from_zero (messages_in rx) (messages rx) (messages-Raises rx) o opts cs
      (unfold new_logger in refl) fits_messages,
  from_zero (bytes_in rx) (volume rx) (bytes-Raises rx) o opts cs (unfold new_logger in refl)
      fits_bytes,
)
run_calls-Counts o opts cs tx fits_conns fits_messages fits_bytes = (
  from_zero (λ st. st.conns) opens conns-Raises o opts cs (unfold new_logger in refl) fits_conns,
  from_zero (messages_in tx) (messages tx) (messages-Raises tx) o opts cs
      (unfold new_logger in refl) fits_messages,
  from_zero (bytes_in tx) (volume tx) (bytes-Raises tx) o opts cs (unfold new_logger in refl)
      fits_bytes,
)
