-- ===== src/Log/Tests.antt =====
-- src/log.rs: a run of the logger, and the theorems at concrete inputs.
use kirb_la_snoop.Base.{
  ◌≤◌, true, false, none, some, List, [], ◌∷◌, ◌≡◌, refl, sym, ◌∙◌, codes, arith,
}
use kirb_la_snoop.Log.Runs.{run_calls-Landed}
use kirb_la_snoop.Log.Recorded.{said}
use kirb_la_snoop.Stream.{Stream, finish, write, create}
use kirb_la_snoop.Stream.Runs.{Landed}
use kirb_la_snoop.Log.State.{
  lookup, same_key, insert, rx, tx, Event, Options, Logger, Outside, new_logger, charge, emit,
  raw_write, open_stream, remove,
}
use kirb_la_snoop.Log
use kirb_la_snoop.Log.Summary.{mode_of, no_console, closing}
use kirb_la_snoop.Base.{ok, err}
use kirb_la_snoop.Base.Strings.{lowercase, text_eq}
use kirb_la_snoop.Stream.Human.{human}
use kirb_la_snoop.Base.Decimal.{decimal}
use kirb_la_snoop.Log.Counters.{run_calls-Counts, messages_in, bytes_in}
use kirb_la_snoop.Log.Calls.{Call, run_calls}
use kirb_la_snoop.Log.Budget.{run_calls-WithinCap, run_calls-Stopped}

-- An outside whose events are printed as their names.
abbrev outside : Outside
outside = record {
  to_json = λ (ev : Event). some ev.event;
  encode = λ b. b;
  classify = λ b. none;
  opens = λ name. true;
}

abbrev capped : Options
capped = record {
  jsonl = true;
  raw = true;
  jsonl_max_data = 0;
  stream_limits = record { head = 4; tail = 3 };
  max_run_bytes = 20;
}

abbrev session : List Call
session =
    Call.open_conn (codes "tcp") (codes "web") 1 [] (codes "peer") none
    ∷ Call.log_data (codes "tcp") (codes "web") 1 (codes "peer") rx (1 ∷ 2 ∷ 3 ∷ 4 ∷ 5 ∷ []) none
    ∷ Call.log_data (codes "tcp") (codes "web") 1 (codes "peer") tx (6 ∷ 7 ∷ 8 ∷ []) none
    ∷ Call.close_conn (codes "tcp") (codes "web") 1 (codes "peer") (codes "peer eof")
    ∷ []

abbrev events_only : Options
events_only = record (capped) { raw = false; max_run_bytes = 12 }

-- The first two lines fit in the cap; the third is refused and its charge given back.
events_of_session :
    (run_calls outside (new_logger events_only) session).events ≡ codes "open" ∷ codes "data" ∷ []
unfolding run_calls Log.Events.open_conn Log.Events.log_data Log.Events.close_conn
    Log.Events.close_raw Log.Events.data_event emit raw_write charge new_logger
events_of_session = refl

disk_of_session : (run_calls outside (new_logger events_only) session).disk_used ≡ 10
unfolding run_calls Log.Events.open_conn Log.Events.log_data Log.Events.close_conn
    Log.Events.close_raw Log.Events.data_event emit raw_write charge new_logger
disk_of_session = refl

run_calls-WithinCap_example : (run_calls outside (new_logger capped) session).disk_used ≤ 20
run_calls-WithinCap_example =
    run_calls-WithinCap outside capped session (λ e. omega (arith, e)) (omega arith)

abbrev stopped : Logger
stopped = record {
  opts = capped;
  events = codes "open" ∷ [];
  raw = [];
  next_conn = 2;
  disk_used = 18;
  disk_stopped = true;
  stats = record { conns = 1; rx_msgs = 0; rx_bytes = 0; tx_msgs = 0; tx_bytes = 0 };
}

run_calls-Stopped_example :
    ((run_calls outside stopped session).disk_stopped ≡ true)
    × ((run_calls outside stopped session).events ≡ codes "open" ∷ [])
run_calls-Stopped_example =
    run_calls-Stopped outside stopped session ((λ e. omega (arith, e)), refl)

abbrev roomy : Options
roomy = record (capped) { max_run_bytes = 1000 }

-- Two connections at once; the first one has a stream for each direction.
abbrev two_at_once : List Call
two_at_once =
    Call.log_data (codes "tcp") (codes "web") 1 (codes "peer") rx (1 ∷ 2 ∷ 3 ∷ 4 ∷ 5 ∷ []) none
    ∷ Call.log_data (codes "udp") (codes "dns") 2 (codes "other") rx (9 ∷ []) none
    ∷ Call.log_data (codes "tcp") (codes "web") 1 (codes "peer") tx (6 ∷ []) none
    ∷ Call.log_data (codes "tcp") (codes "web") 1 (codes "peer") rx (6 ∷ 7 ∷ 8 ∷ 9 ∷ []) none
    ∷ Call.close_conn (codes "udp") (codes "dns") 2 (codes "other") (codes "idle")
    ∷ []

running_of_two : (run_calls outside (new_logger roomy) two_at_once).disk_stopped ≡ false
unfolding run_calls Log.Events.log_data Log.Events.close_conn Log.Events.close_raw
    Log.Events.data_event emit raw_write charge new_logger open_stream lookup insert same_key remove
    finish write create
running_of_two = refl

said_of_two : said (1, rx) [] two_at_once ≡ 1 ∷ 2 ∷ 3 ∷ 4 ∷ 5 ∷ 6 ∷ 7 ∷ 8 ∷ 9 ∷ []
unfolding same_key
said_of_two = refl

run_calls-Landed_example :
    (s : Stream) × (lookup (1, rx) (run_calls outside (new_logger roomy) two_at_once).raw ≡ some s)
    × Landed roomy.stream_limits (said (1, rx) [] two_at_once) s (finish true s).0
run_calls-Landed_example =
    run_calls-Landed outside roomy two_at_once (1, rx) true (λ name. refl) refl (omega arith)
      (λ s. absurd (let e : true ≡ false = sym s.1 ∙ running_of_two in cc))
      (λ e.
        absurd (let gone : 1 ∷ 2 ∷ 3 ∷ 4 ∷ 5 ∷ 6 ∷ 7 ∷ 8 ∷ 9 ∷ [] ≡ [] = sym said_of_two ∙ e in cc))
      (rw said_of_two (omega arith))

mode_of_off : mode_of (codes "OFF") ≡ ok no_console
unfolding mode_of lowercase text_eq
mode_of_off = refl

mode_of_other : mode_of (codes "Hexa") ≡ err (codes "hexa")
unfolding mode_of lowercase text_eq
mode_of_other = refl

-- What `main` prints of the stopped logger, and that no stream is left open.
closing_of_stopped : closing outside (codes "run") stopped ≡ (
  stopped,
  []
      ∷ codes "conns 1  rx 0 msgs / 0 bytes  tx 0 msgs / 0 bytes"
      ∷ codes "capture: run (18B written)"
      ∷ codes "WARNING: the 20B run cap was hit, so this capture is incomplete on disk"
      ∷ [],
)
unfolding closing human decimal
closing_of_stopped = refl

run_calls-Counts_example :
    let st = (run_calls outside (new_logger capped) two_at_once).stats in
    (st.conns ≡ 0) × (messages_in rx st ≡ 3) × (bytes_in rx st ≡ 10)
run_calls-Counts_example =
    run_calls-Counts outside capped two_at_once rx (omega arith) (omega arith) (omega arith)
