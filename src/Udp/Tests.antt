-- ===== src/Udp/Tests.antt =====
-- src/listener/udp.rs: a run of the listener, and the theorems at concrete inputs.
use kirb_la_snoop.Base.{
  ℕ, ◌≤◌, ◌*◌, true, false, none, some, ok, List, [], ◌∷◌, ◌≡◌, refl, Bytes, All, codes, length,
}
use kirb_la_snoop.Log
use kirb_la_snoop.Log.State.{
  Event, Options, Logger, new_logger, next_conn_id, emit, raw_write, charge,
}
use kirb_la_snoop.Profile.{Match, Action, CompiledRule, Compiled, responds, max_response_bytes}
use kirb_la_snoop.Profile
use kirb_la_snoop.Udp
use kirb_la_snoop.Udp.{Setup, Network, Listener, Addr, Input, received, tick, failed, start, run}
use kirb_la_snoop.Udp.Replies.{bytes_sent}
use kirb_la_snoop.Udp.Start.{Sockets, open_socket, start_run, announce, warns, is_loopback}
use kirb_la_snoop.Udp.Warned.{IsWarned, run-IsWarned}
use kirb_la_snoop.Origdst.{SocketAddr, v4}
use kirb_la_snoop.Udp.Runs.{is_source, datagrams, run_within_max_peers, run_reflects_bounded}

abbrev net : Network
net = record {
  log = record {
    to_json = λ (ev : Event). some ev.event;
    encode = λ b. b;
    classify = λ b. none;
    opens = λ name. true;
  };
  to_string = λ a. a ∷ [];
  sends = λ a payload. true;
  send_error = λ a payload. codes "no";
}

abbrev console_only : Options
console_only = record {
  jsonl = false;
  raw = false;
  jsonl_max_data = 0;
  stream_limits = record { head = 0; tail = 0 };
  max_run_bytes = 0;
}

abbrev anything : Match
anything = record {
  any = none;
  starts_with = none;
  contains = none;
  ends_with = none;
  prefix_hex = none;
  contains_hex = none;
  min_len = none;
  max_len = none;
  len = none;
  first_only = none;
  ignore_case = false;
}

abbrev says : Bytes → Action
says payload = record { payload = payload; echo = false; delay_ms = 0; close = false; dns = none }

-- A profile that sends one payload as its banner and as every answer.
abbrev service : Bytes → Compiled
service payload = record {
  name = codes "s";
  description = [];
  on_connect = some (says payload);
  rules = record { name = codes "r"; matcher = anything; action = says payload } ∷ [];
}

abbrev setup : Compiled → Setup
setup c = record {
  name = codes "u";
  local = codes "l";
  profile = some c;
  idle_secs = 5;
  max_peers = 1;
}

-- The second source finds the table full; the sweep finds the first one recent.
abbrev arrivals : List Input
arrivals = received 5000 7 (1 ∷ []) ∷ received 6000 8 (2 ∷ 3 ∷ []) ∷ tick 7000 ∷ []

abbrev after : List (Addr × Bytes) → Logger → Listener
after sent logger = record {
  peers = (7, record { conn = 1; last_seen = 5000 }) ∷ [];
  overflow_conn = some 2;
  overflow_count = 1;
  logger = logger;
  sent = sent;
}

abbrev log_after : ℕ → ℕ → Logger
log_after msgs bytes = record {
  opts = console_only;
  events = [];
  raw = [];
  next_conn = 3;
  disk_used = 0;
  disk_stopped = false;
  stats = record { conns = 2; rx_msgs = 2; rx_bytes = 3; tx_msgs = msgs; tx_bytes = bytes };
}

abbrev answered : Listener
answered = after ((7, 65 ∷ []) ∷ (7, 65 ∷ []) ∷ []) (log_after 2 2)

run_of_arrivals :
    run net (setup (service (65 ∷ []))) (start (new_logger console_only)) arrivals ≡ some answered
unfolding run Udp.receive Udp.lookup_peer Udp.receive_new Udp.respond Profile.eval
    Profile.eval_rules Profile.matches Udp.reply Profile.is_silent Udp.reply_payload Udp.sweep
    Udp.retain Udp.receive_overflow Udp.is_recent next_conn_id Udp.overflow_stream
    Log.Events.log_data Log.Events.open_conn Log.Events.warn Log.Events.count_data new_logger emit
    raw_write
run_of_arrivals = refl

mute_of_arrivals :
    run net (setup (service [])) (start (new_logger console_only)) arrivals
    ≡ some (after [] (log_after 0 0))
unfolding run Udp.receive Udp.lookup_peer Udp.receive_new Udp.respond Profile.eval
    Profile.eval_rules Profile.matches Udp.reply Profile.is_silent Udp.reply_payload Udp.sweep
    Udp.retain Udp.receive_overflow Udp.is_recent next_conn_id Udp.overflow_stream
    Log.Events.log_data Log.Events.open_conn Log.Events.warn Log.Events.count_data new_logger emit
    raw_write
mute_of_arrivals = refl

bound_of_service : max_response_bytes (service (65 ∷ [])) ≡ some 2
unfolding max_response_bytes
bound_of_service = refl

quiet_of_service : responds (service []) ≡ false
unfolding responds
quiet_of_service = refl

run_within_max_peers_example : length answered.peers ≤ 1
run_within_max_peers_example =
    run_within_max_peers net (setup (service (65 ∷ []))) (new_logger console_only) answered arrivals
      run_of_arrivals

run_reflects_bounded_example :
    (bytes_sent answered.sent ≤ 2 * datagrams arrivals)
    × All (λ (d : Addr × Bytes). is_source d.0 arrivals ≡ true) answered.sent
run_reflects_bounded_example =
    run_reflects_bounded net (setup (service (65 ∷ []))) (new_logger console_only) answered arrivals
      (service (65 ∷ [])) 2 refl bound_of_service run_of_arrivals

abbrev wide_open : SocketAddr
wide_open = record { ip = v4 0xc0000201; port = 53 }

-- A socket that is open at 192.0.2.1:53.
abbrev at_udp_53 : Sockets
at_udp_53 = record {
  binds = λ bind. true;
  setsockopt = λ level option buffer. none;
  local_addr = λ bind. some wide_open;
  to_string = λ addr. codes "l";
  debug = λ text. text;
}

opened_at_udp_53 : open_socket at_udp_53 (codes "b") none ≡ ok wide_open
unfolding open_socket
opened_at_udp_53 = refl

-- A profile that sends is warned about on this address.
warned_of_service : warns wide_open (some (service (65 ∷ []))) ≡ true
unfolding warns responds is_loopback
warned_of_service = refl

wide_open_far : is_loopback wide_open.ip ≡ false
unfolding is_loopback
wide_open_far = refl

abbrev loud : Logger
loud = new_logger (record (console_only) { jsonl = true })

-- The logger when the loop begins, and behind one datagram that is answered twice.
abbrev warned : Logger
unfolding new_logger
warned = record (loud) { events = codes "listen" ∷ codes "warning" ∷ [] }

abbrev one_answered : Listener
unfolding warned
one_answered = record {
  peers = (7, record { conn = 1; last_seen = 5000 }) ∷ [];
  overflow_conn = none;
  overflow_count = 0;
  logger = record (warned) {
    events =
        codes "listen"
        ∷ codes "warning"
        ∷ codes "open"
        ∷ codes "data"
        ∷ codes "data"
        ∷ codes "data"
        ∷ [];
    next_conn = 2;
    stats = record { conns = 1; rx_msgs = 1; rx_bytes = 1; tx_msgs = 2; tx_bytes = 2 };
  };
  sent = (7, 65 ∷ []) ∷ (7, 65 ∷ []) ∷ [];
}

start_of_loud :
    start_run at_udp_53 net.log (codes "u") (codes "b") (some (service (65 ∷ []))) loud 5 1 none
    ≡ ok (setup (service (65 ∷ [])), start warned)
unfolding start_run open_socket announce warns is_loopback responds Log.Events.listening
    Log.Events.warn emit new_logger charge warned
start_of_loud = refl

run_of_loud :
    run net (setup (service (65 ∷ []))) (start warned) (received 5000 7 (1 ∷ []) ∷ [])
    ≡ some one_answered
unfolding run Udp.receive Udp.lookup_peer Udp.receive_new Udp.respond Profile.eval
    Profile.eval_rules Profile.matches Udp.reply Profile.is_silent Udp.reply_payload next_conn_id
    Log.Events.log_data Log.Events.open_conn Log.Events.count_data Log.Events.data_event new_logger
    emit raw_write charge warned one_answered
run_of_loud = refl

run-IsWarned_example :
    IsWarned at_udp_53 net.log (codes "u") (some (service (65 ∷ []))) (start warned).logger
unfolding warned one_answered new_logger
run-IsWarned_example =
    run-IsWarned at_udp_53 net (codes "u") (codes "b") (some (service (65 ∷ []))) loud 5 1 none
      (setup (service (65 ∷ []))) (start warned) one_answered wide_open
      (received 5000 7 (1 ∷ []) ∷ []) opened_at_udp_53 start_of_loud wide_open_far refl
      (λ ev. (ev.event, refl)) (λ s. s.0 refl) run_of_loud
      (λ e. absurd (let gone : (7, 65 ∷ []) ∷ (7, 65 ∷ []) ∷ [] ≡ [] = e in cc))
