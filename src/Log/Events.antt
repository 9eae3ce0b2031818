-- ===== src/Log/Events.antt =====
-- src/log.rs: the calls of the logger.
use kirb_la_snoop.Base.{
  ℕ, true, not, ◌&&◌, Option, none, some, List, [], ◌∷◌, ◌++◌, Bytes, Text, length, take, ltb, ◌==◌,
  if◌then◌else◌, add_u64, codes,
}
use kirb_la_snoop.Stream.{Stream, Summary, finish}
use kirb_la_snoop.Stream.Human.{human}
use kirb_la_snoop.Log.State.{
  Dir, rx, tx, tag, Event, Options, Stats, Key, Logger, Outside, emit, lookup, remove, raw_write,
}

-- An event that carries only what every event does.
abbrev plain : Text → Text → Event
plain event proto = record {
  event = event;
  proto = proto;
  listener = none;
  conn = none;
  local = none;
  peer = none;
  orig_dst = none;
  dir = none;
  hint = none;
  len = none;
  rule = none;
  note = none;
  payload = none;
  data_truncated = none;
}

-- `Logger::listening`
unfoldable pub listening : Outside → Logger → Text → Text → Text → Text → Logger
listening o l proto name local profile = emit o l (record (plain (codes "listen") proto) {
  listener = some name;
  local = some local;
  note = some profile;
})

-- `Logger::open`
unfoldable pub open_conn : Outside → Logger → Text → Text → ℕ → Text → Text → Option Text → Logger
open_conn o l proto name conn local peer orig =
    emit o (record l { stats = record (l.stats) { conns = add_u64 l.stats.conns 1 } })
      (record (plain (codes "open") proto) {
        listener = some name;
        conn = some conn;
        local = some local;
        peer = some peer;
        orig_dst = orig;
      })

-- The counters of `data`.
unfoldable pub count_data : Stats → Dir → ℕ → Stats
count_data st rx n = record st { rx_msgs = add_u64 st.rx_msgs 1; rx_bytes = add_u64 st.rx_bytes n }
count_data st tx n = record st { tx_msgs = add_u64 st.tx_msgs 1; tx_bytes = add_u64 st.tx_bytes n }

-- The event of a message: all of it, or the first bytes with a mark.
unfoldable pub data_event :
    Outside → Options → Text → Text → ℕ → Text → Dir → Bytes → Option Text → Event
data_event o opts proto name conn peer dir bytes rule =
    let clipped = ltb 0 opts.jsonl_max_data && ltb opts.jsonl_max_data (length bytes) in
    record (plain (codes "data") proto) {
      listener = some name;
      conn = some conn;
      peer = some peer;
      dir = some (tag dir);
      hint = o.classify bytes;
      len = some (length bytes);
      rule = rule;
      payload = some (o.encode (if clipped then take opts.jsonl_max_data bytes else bytes));
      data_truncated = if clipped then some true else none;
    }

-- `Logger::data`
unfoldable pub log_data :
    Outside → Logger → Text → Text → ℕ → Text → Dir → Bytes → Option Text → Logger
log_data o l proto name conn peer dir bytes rule =
    let counted = record l { stats = count_data l.stats dir (length bytes) } in
    emit o (raw_write o counted conn proto peer dir bytes)
      (data_event o l.opts proto name conn peer dir bytes rule)

abbrev tail_note : Option Text → Text
tail_note none = []
tail_note (some name) = codes ", tail in " ++ name

-- The note of a truncated stream.
unfoldable pub truncation_note : Dir → Summary → Text
truncation_note dir sum =
    tag dir
    ++ (codes " truncated: "
        ++ (human (add_u64 sum.head sum.tail)
            ++ (codes " of "
                ++ (human sum.total
                    ++ (codes " kept ("
                        ++ (human sum.head
                            ++ (codes " head + "
                                ++ (human sum.tail
                                    ++ (codes " tail), "
                                        ++ (human sum.dropped
                                            ++ (codes " dropped"
                                                ++ tail_note sum.tail_path)))))))))))

abbrev pub report_gap : Outside → Logger → ℕ → Text → Text → Text → Dir → Summary → Logger
report_gap o l conn proto name peer dir sum =
    if sum.dropped == 0
    then l
    else emit o l (record (plain (codes "truncated") proto) {
      listener = some name;
      conn = some conn;
      peer = some peer;
      dir = some (tag dir);
      len = some sum.total;
      note = some (truncation_note dir sum);
    })

abbrev pub report : Outside → Logger → ℕ → Text → Text → Text → Dir → Option Stream → Logger
report o l conn proto name peer dir none = l
report o l conn proto name peer dir (some s) =
    report_gap o l conn proto name peer dir (finish (o.opens s.tail_path) s).0

-- `Logger::close_raw`: both streams leave the map, then each reports its gap.
unfoldable pub close_raw : Outside → Logger → ℕ → Text → Text → Text → Logger
close_raw o l conn proto name peer =
    if not l.opts.raw
    then l
    else (let closed = record l { raw = remove (conn, tx) (remove (conn, rx) l.raw) } in
        let reported = report o closed conn proto name peer rx (lookup (conn, rx) l.raw) in
        report o reported conn proto name peer tx (lookup (conn, tx) (remove (conn, rx) l.raw)))

-- `Logger::close`
unfoldable pub close_conn : Outside → Logger → Text → Text → ℕ → Text → Text → Logger
close_conn o l proto name conn peer why =
    emit o (close_raw o l conn proto name peer) (record (plain (codes "close") proto) {
      listener = some name;
      conn = some conn;
      peer = some peer;
      note = some why;
    })

-- `Logger::warn`
unfoldable pub warn : Outside → Logger → Text → Text → Text → Logger
warn o l proto name msg =
    emit o l (record (plain (codes "warning") proto) { listener = some name; note = some msg })

-- `Logger::error`
unfoldable pub error : Outside → Logger → Text → Text → Option ℕ → Text → Logger
error o l proto name conn msg =
    emit o l
      (record (plain (codes "error") proto) { listener = some name; conn = conn; note = some msg })

finish_all : Outside → List (Key × Stream) → List (Key × Summary)
finish_all o [] = []
finish_all o ((k, s) ∷ rest) = (k, (finish (o.opens s.tail_path) s).0) ∷ finish_all o rest

-- `Logger::flush`, with the summaries of the streams that it finishes.
unfoldable pub flush : Outside → Logger → Logger × List (Key × Summary)
unfolding finish_all
flush o l = (record l { raw = [] }, finish_all o l.raw)
