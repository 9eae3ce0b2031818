-- ===== src/Log/State.antt =====
-- src/log.rs: the state of the logger, the disk budget, the event log and the raw streams.
use kirb_la_snoop.Base.{
  ℕ, ◌-◌, Bool, true, false, not, ◌&&◌, ◌||◌, Option, none, some, List, [], ◌∷◌, ◌++◌, Bytes, Text,
  length, ltb, leb, ◌==◌, if◌then◌else◌, add_u64, sub_u64, codes, map, replicate,
}
use kirb_la_snoop.Base.Decimal.{decimal, is_ascii_digit}
use kirb_la_snoop.Stream.{Stream, Limits, create, write}

pub data Dir : Type 0 where
  rx tx : Dir

-- `Dir::tag`
abbrev pub tag : Dir → Text
tag rx = codes "rx"
tag tx = codes "tx"

-- `Event`, without the two fields of the time.
pub record Event : Type 0 where
  pub event : Text
  pub proto : Text
  pub listener : Option Text
  pub conn : Option ℕ
  pub local : Option Text
  pub peer : Option Text
  pub orig_dst : Option Text
  pub dir : Option Text
  pub hint : Option Text
  pub len : Option ℕ
  pub rule : Option Text
  pub note : Option Text
  pub payload : Option Text
  pub data_truncated : Option Bool

-- `Options`, without the directory and the console.
pub record Options : Type 0 where
  pub jsonl : Bool
  pub raw : Bool
  pub jsonl_max_data : ℕ
  pub stream_limits : Limits
  pub max_run_bytes : ℕ

pub record Stats : Type 0 where
  pub conns : ℕ
  pub rx_msgs : ℕ
  pub rx_bytes : ℕ
  pub tx_msgs : ℕ
  pub tx_bytes : ℕ

abbrev pub Key : Type 0
Key = ℕ × Dir

-- `Logger`; `events` are the lines of events.jsonl.
pub record Logger : Type 0 where
  pub opts : Options
  pub events : List Bytes
  pub raw : List (Key × Stream)
  pub next_conn : ℕ
  pub disk_used : ℕ
  pub disk_stopped : Bool
  pub stats : Stats

-- What the logger calls and does not implement: serde_json, base64, the classifier, and the file
-- system, by the name of a file.
pub record Outside : Type 0 where
  pub to_json : Event → Option Bytes
  pub encode : Bytes → Text
  pub classify : Bytes → Option Text
  pub opens : Text → Bool

-- `Logger::new`, with its directory and event log open.
unfoldable pub new_logger : Options → Logger
new_logger opts = record {
  opts = opts;
  events = [];
  raw = [];
  next_conn = 1;
  disk_used = 0;
  disk_stopped = false;
  stats = record { conns = 0; rx_msgs = 0; rx_bytes = 0; tx_msgs = 0; tx_bytes = 0 };
}

-- `Logger::charge`
unfoldable pub charge : Logger → ℕ → Logger × Bool
charge l n =
    if l.opts.max_run_bytes == 0
    then (l, true)
    else if l.disk_stopped
    then (l, false)
    else if ltb l.opts.max_run_bytes (add_u64 l.disk_used n)
    then (record l { disk_used = sub_u64 (add_u64 l.disk_used n) n; disk_stopped = true }, false)
    else (record l { disk_used = add_u64 l.disk_used n }, true)

-- `Logger::next_conn_id`
unfoldable pub next_conn_id : Logger → Logger × ℕ
next_conn_id l = (record l { next_conn = add_u64 l.next_conn 1 }, l.next_conn)

abbrev pub append_line : Logger × Bool → Bytes → Logger
append_line (l, granted) line = if granted then record l { events = l.events ++ line ∷ [] } else l

abbrev pub emit_line : Logger → Option Bytes → Logger
emit_line l none = l
emit_line l (some line) = append_line (charge l (add_u64 (length line) 1)) line

-- `Logger::emit`
unfoldable pub emit : Outside → Logger → Event → Logger
emit o l ev = if not l.opts.jsonl then l else emit_line l (o.to_json ev)

abbrev pub same_dir : Dir → Dir → Bool
same_dir rx rx = true
same_dir tx tx = true
same_dir rx tx = false
same_dir tx rx = false

unfoldable pub same_key : Key → Key → Bool
same_key (c, d) (c', d') = c == c' && same_dir d d'

-- The map of open streams.
unfoldable pub lookup : Key → List (Key × Stream) → Option Stream
lookup k [] = none
lookup k ((j, s) ∷ rest) = if same_key j k then some s else lookup k rest

unfoldable pub insert : Key → Stream → List (Key × Stream) → List (Key × Stream)
insert k s [] = (k, s) ∷ []
insert k s ((j, t) ∷ rest) = if same_key j k then (k, s) ∷ rest else (j, t) ∷ insert k s rest

unfoldable pub remove : Key → List (Key × Stream) → List (Key × Stream)
remove k [] = []
remove k ((j, t) ∷ rest) = if same_key j k then remove k rest else (j, t) ∷ remove k rest

abbrev alphanumeric : ℕ → Bool
alphanumeric c = is_ascii_digit c || leb b'a' c && leb c b'z' || leb b'A' c && leb c b'Z'

-- `{conn:04}`
abbrev padded : Text → Text
padded t = replicate (4 - length t) b'0' ++ t

-- The name of a raw stream's files, without their endings.
unfoldable pub stem : ℕ → Text → Text → Dir → Text
stem conn proto peer dir =
    padded (decimal conn)
    ++ (b'-'
        ∷ (proto
            ++ (b'-' ∷ (map (λ c. if alphanumeric c then c else b'_') peer ++ (b'.' ∷ tag dir)))))

-- The stream to write to: the open one, or a new one if its head file opens.
unfoldable pub open_stream : Outside → Logger → ℕ → Text → Text → Dir → Option Stream
open_stream o l conn proto peer dir = elim (lookup (conn, dir) l.raw) [
  | some s ↦ some s
  | none ↦
      if o.opens (stem conn proto peer dir ++ codes ".bin")
      then some (create (stem conn proto peer dir ++ codes ".tail.bin") l.opts.stream_limits)
      else none
]

abbrev pub write_open : Logger → Key → Bytes → Option Stream → Logger
write_open l k bytes none = l
write_open l k bytes (some s) = record l { raw = insert k (write s bytes).0 l.raw }

-- `Logger::raw_write`, once the bytes are charged.
abbrev pub write_granted : Outside → ℕ → Text → Text → Dir → Bytes → Logger × Bool → Logger
write_granted o conn proto peer dir bytes (l, granted) =
    if granted then write_open l (conn, dir) bytes (open_stream o l conn proto peer dir) else l

-- `Logger::raw_write`
unfoldable pub raw_write : Outside → Logger → ℕ → Text → Text → Dir → Bytes → Logger
raw_write o l conn proto peer dir bytes =
    if not l.opts.raw || length bytes == 0
    then l
    else write_granted o conn proto peer dir bytes (charge l (length bytes))
