-- ===== src/Udp.antt =====
-- src/listener/udp.rs: the udp listener. One event of its loop is one `step`; the socket, whether a
-- send goes through, the text of an address and of an error are parameters. `none` is the panic
-- that a rule of the profile can raise.
pub mod Peers
pub mod Replies
pub mod Runs
pub mod Start
pub mod Warned
mod Tests
use kirb_la_snoop.Base.{
  ℕ, ◌+◌, ◌*◌, ◌-◌, ◌^◌, min, Bool, true, false, not, ◌&&◌, ◌||◌, Option, none, some, List, [], ◌∷◌,
  ◌++◌, Bytes, Text, length, ltb, leb, ◌==◌, if◌then◌else◌, ◌>>=◌, is_some, add_u64, codes,
}
use kirb_la_snoop.Base.Decimal.{decimal}
use kirb_la_snoop.Log.State.{Logger, Outside, rx, tx, next_conn_id}
use kirb_la_snoop.Log.Events
use kirb_la_snoop.Profile.{Action, Compiled, is_silent, eval}
use kirb_la_snoop.Dns

-- A source address, by a number: only its equality and its text are used.
abbrev pub Addr : Type 0
Addr = ℕ

-- `Peer`
pub record Peer : Type 0 where
  pub conn : ℕ
  pub last_seen : ℕ

-- What the listener is started with.
pub record Setup : Type 0 where
  pub name : Text
  pub local : Text
  pub profile : Option Compiled
  pub idle_secs : ℕ
  pub max_peers : ℕ

-- What is outside of the listener.
pub record Network : Type 0 where
  pub log : Outside
  pub to_string : Addr → Text
  pub sends : Addr → Bytes → Bool
  pub send_error : Addr → Bytes → Text

-- The variables of `run`, the logger, and the datagrams sent.
pub record Listener : Type 0 where
  pub peers : List (Addr × Peer)
  pub overflow_conn : Option ℕ
  pub overflow_count : ℕ
  pub logger : Logger
  pub sent : List (Addr × Bytes)

abbrev pub start : Logger → Listener
start l = record { peers = []; overflow_conn = none; overflow_count = 0; logger = l; sent = [] }

unfoldable pub lookup_peer : Addr → List (Addr × Peer) → Option Peer
lookup_peer a [] = none
lookup_peer a ((b, p) ∷ rest) = if b == a then some p else lookup_peer a rest

-- `entry.last_seen = now`
unfoldable pub touch : Addr → ℕ → List (Addr × Peer) → List (Addr × Peer)
touch a now [] = []
touch a now ((b, p) ∷ rest) =
    if b == a then (b, record p { last_seen = now }) ∷ rest else (b, p) ∷ touch a now rest

-- The payload of `reply`; `none` where there is no dns answer.
unfoldable pub reply_payload : Action → Bytes → Option Bytes
reply_payload action received =
    if action.echo
    then some received
    else (elim action.dns [ some answer ↦ Dns.reply received answer | none ↦ some action.payload ])

abbrev pub transmit : Network → Setup → Listener → Addr → ℕ → Text → Option Bytes → Listener
transmit w u st to conn rule none = st
transmit w u st to conn rule (some payload) =
    if length payload == 0
    then st
    else if w.sends to payload
    then record st {
      sent = st.sent ++ (to, payload) ∷ [];
      logger =
          Events.log_data w.log st.logger (codes "udp") u.name conn (w.to_string to) tx payload
            (some rule);
    }
    else record st {
      logger =
          Events.error w.log st.logger (codes "udp") u.name (some conn)
            (codes "send: " ++ w.send_error to payload);
    }

-- `reply`
unfoldable pub reply : Network → Setup → Listener → Addr → Action → Bytes → ℕ → Text → Listener
reply w u st to action received conn rule =
    if is_silent action then st else transmit w u st to conn rule (reply_payload action received)

abbrev pub reply_hit :
    Network → Setup → Listener → Addr → Bytes → ℕ → Option (Text × Action) → Listener
reply_hit w u st to received conn none = st
reply_hit w u st to received conn (some (rule, action)) = reply w u st to action received conn rule

abbrev pub greet : Network → Setup → Listener → Addr → Bytes → ℕ → Bool → Option Action → Listener
greet w u st to received conn first none = st
greet w u st to received conn first (some action) =
    if first then reply w u st to action received conn (codes "on_connect") else st

-- The banner on a first message, then the rule that matches. A panic of `eval` ends the task that
-- runs the loop, and with it the run: what was sent before it is in no state.
unfoldable pub respond :
    Network → Setup → Listener → Addr → Bytes → ℕ → Bool → Option Compiled → Option Listener
respond w u st to received conn first none = some st
respond w u st to received conn first (some p) =
    (eval p received first >>= λ hit.
    some (reply_hit w u (greet w u st to received conn first p.on_connect) to received conn hit))

-- `recv_from` fails.
unfoldable pub receive_failed : Network → Setup → Listener → Text → Listener
receive_failed w u st e = record st {
  logger = Events.error w.log st.logger (codes "udp") u.name none (codes "recv: " ++ e);
}

abbrev log_rx : Network → Setup → Logger → Addr → Bytes → ℕ → Logger
log_rx w u l from bytes conn =
    Events.log_data w.log l (codes "udp") u.name conn (w.to_string from) rx bytes none

abbrev full_table : ℕ → Text
full_table max_peers =
    codes "peer table hit "
    ++ (decimal max_peers
        ++ codes
            " entries. further new sources are captured under one overflow stream, untracked and unanswered. raise --udp-max-peers if this is legitimate traffic")

-- The connection of the overflow stream, opened on first use.
unfoldable pub overflow_stream : Network → Setup → Logger → Option ℕ → Logger × ℕ
overflow_stream w u l (some conn) = (l, conn)
overflow_stream w u l none =
    let (l', conn) = next_conn_id l in
    (
      Events.warn w.log
          (Events.open_conn w.log l' (codes "udp") u.name conn u.local (codes "overflow") none)
          (codes "udp") u.name (full_table u.max_peers),
      conn,
    )

-- A datagram from a new source when the table is full.
unfoldable pub receive_overflow : Network → Setup → Listener → Addr → Bytes → Listener
receive_overflow w u st from bytes =
    let (l, conn) = overflow_stream w u st.logger st.overflow_conn in
    record st {
      overflow_conn = some conn;
      overflow_count = add_u64 st.overflow_count 1;
      logger = log_rx w u l from bytes conn;
    }

-- A datagram from a new source that is given a place in the table.
unfoldable pub receive_new : Network → Setup → Listener → ℕ → Addr → Bytes → Option Listener
receive_new w u st now from bytes =
    let (l, conn) = next_conn_id st.logger in
    let opened =
      Events.open_conn w.log l (codes "udp") u.name conn u.local (w.to_string from) none in
    respond w u
      (record st {
        peers = (from, record { conn = conn; last_seen = now }) ∷ st.peers;
        logger = log_rx w u opened from bytes conn;
      })
      from bytes conn true u.profile

-- A datagram from a source in the table.
unfoldable pub receive_known :
    Network → Setup → Listener → ℕ → Addr → Bytes → Peer → Option Listener
receive_known w u st now from bytes p =
    respond w u
      (record st {
        peers = touch from now st.peers;
        logger = log_rx w u st.logger from bytes p.conn;
      })
      from bytes p.conn false u.profile

abbrev pub receive_from :
    Network → Setup → Listener → ℕ → Addr → Bytes → Option Peer → Option Listener
receive_from w u st now from bytes (some p) = receive_known w u st now from bytes p
receive_from w u st now from bytes none =
    if leb u.max_peers (length st.peers)
    then some (receive_overflow w u st from bytes)
    else receive_new w u st now from bytes

-- The branch of `recv_from`.
unfoldable pub receive : Network → Setup → Listener → ℕ → Addr → Bytes → Option Listener
receive w u st now from bytes = receive_from w u st now from bytes (lookup_peer from st.peers)

unfoldable pub is_recent : Setup → ℕ → Peer → Bool
is_recent u now p = ltb (now - p.last_seen) (min (u.idle_secs * 1000) (2 ^ 64 - 1))

abbrev pub close_idle : Network → Setup → ℕ → Logger → Addr → Peer → Logger
close_idle w u now l a p =
    if is_recent u now p
    then l
    else Events.close_conn w.log l (codes "udp") u.name p.conn (w.to_string a)
        (codes "idle timeout")

-- `peers.retain`, closing those who go.
unfoldable pub retain :
    Network → Setup → ℕ → Logger → List (Addr × Peer) → Logger × List (Addr × Peer)
retain w u now l [] = (l, [])
retain w u now l ((a, p) ∷ rest) =
    let (l', kept) = retain w u now (close_idle w u now l a p) rest in
    (l', if is_recent u now p then (a, p) ∷ kept else kept)

abbrev pub close_overflow : Network → Setup → Listener → Option ℕ → Listener
close_overflow w u st none = st
close_overflow w u st (some conn) = record st {
  overflow_conn = none;
  overflow_count = 0;
  logger =
      Events.close_conn w.log st.logger (codes "udp") u.name conn (codes "overflow")
        (decimal st.overflow_count ++ codes " untracked datagrams");
}

-- The branch of the sweep.
unfoldable pub sweep : Network → Setup → Listener → ℕ → Listener
sweep w u st now =
    let (l, kept) = retain w u now st.logger st.peers in
    let swept = record st { peers = kept; logger = l } in
    if ltb (length kept) u.max_peers then close_overflow w u swept swept.overflow_conn else swept

pub data Input : Type 0 where
  failed : Text → Input
  received : ℕ → Addr → Bytes → Input
  tick : ℕ → Input

-- One turn of the loop.
unfoldable pub step : Network → Setup → Listener → Input → Option Listener
step w u st (failed e) = some (receive_failed w u st e)
step w u st (received now from bytes) = receive w u st now from bytes
step w u st (tick now) = some (sweep w u st now)

unfoldable pub run : Network → Setup → Listener → List Input → Option Listener
unfolding step
run w u st [] = some st
run w u st (i ∷ is) = step w u st i >>= λ st'. run w u st' is
