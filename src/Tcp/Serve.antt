-- ===== src/Tcp/Serve.antt =====
-- src/listener/tcp.rs: `send`, `serve` and the handling of one accepted connection. `none` for a
-- connection is the panic that a rule of the profile can raise.
use kirb_la_snoop.Base.{
  Bool, true, false, Option, none, some, List, [], ◌∷◌, ◌++◌, Bytes, Text, length, ◌==◌,
  if◌then◌else◌, ◌>>=◌, codes,
}
use kirb_la_snoop.Log.State.{Logger, rx, tx, next_conn_id}
use kirb_la_snoop.Log.Events
use kirb_la_snoop.Dns.{reply_tcp}
use kirb_la_snoop.Profile.{Action, Compiled, is_silent, eval, responds}
use kirb_la_snoop.Tcp.{Read, arrived, eof, failed, Wire, Session, Far, write_all}

-- The payload of `send`; `none` where there is no dns answer.
unfoldable pub send_payload : Action → Bytes → Option Bytes
send_payload action received =
    if action.echo
    then some received
    else (elim action.dns [ some answer ↦ reply_tcp received answer | none ↦ some action.payload ])

-- The end of `send`: whether to hang up.
abbrev pub hang_up : Far → Action → Far × Option Bool
hang_up f action = (if action.close then record f { shut = true } else f, some action.close)

abbrev pub log_tx : Wire → Session → Far → Bytes → Text → Far
log_tx w s f payload rule = record f {
  logger = Events.log_data w.log f.logger (codes "tcp") s.name s.conn s.peer tx payload (some rule);
}

-- After `write_all` and `flush`: an error of theirs is `none`.
abbrev pub after_write : Wire → Session → Action → Bytes → Text → Far × Bool → Far × Option Bool
after_write w s action payload rule (f, true) = hang_up (log_tx w s f payload rule) action
after_write w s action payload rule (f, false) = (f, none)

abbrev pub transmit : Wire → Session → Far → Action → Text → Option Bytes → Far × Option Bool
transmit w s f action rule none = (f, some action.close)
transmit w s f action rule (some payload) =
    if length payload == 0
    then hang_up f action
    else after_write w s action payload rule (write_all w f payload)

-- `send`
unfoldable pub send : Wire → Session → Far → Action → Bytes → Text → Far × Option Bool
send w s f action received rule =
    if is_silent action
    then (f, some action.close)
    else transmit w s f action rule (send_payload action received)

-- How `serve` returns, or `waiting` where it is still reading.
pub data Outcome : Type 0 where
  profile_close peer_eof io_error waiting : Outcome

pub data Next : Type 0 where
  go_on : Next
  stop : Outcome → Next

-- `if send(..).await? { return Ok("profile close"); }`
abbrev pub after_send : Far × Option Bool → Far × Next
after_send (f, none) = (f, stop io_error)
after_send (f, some true) = (f, stop profile_close)
after_send (f, some false) = (f, go_on)

abbrev pub send_banner : Wire → Session → Far → Option Action → Far × Next
send_banner w s f none = (f, go_on)
send_banner w s f (some action) = after_send (send w s f action [] (codes "on_connect"))

-- The banner of `serve`.
abbrev pub greet : Wire → Session → Far → Option Compiled → Far × Next
greet w s f none = (f, go_on)
greet w s f (some p) = send_banner w s f p.on_connect

abbrev pub send_hit : Wire → Session → Far → Bytes → Option (Text × Action) → Far × Next
send_hit w s f received none = (f, go_on)
send_hit w s f received (some (rule, action)) = after_send (send w s f action received rule)

abbrev pub log_rx : Wire → Session → Far → Bytes → Far
log_rx w s f received = record f {
  logger = Events.log_data w.log f.logger (codes "tcp") s.name s.conn s.peer rx received none;
}

-- One message: it is logged, and the rule that matches answers.
unfoldable pub answer : Wire → Session → Option Compiled → Far → Bytes → Bool → Option (Far × Next)
answer w s none f received first = some (log_rx w s f received, go_on)
answer w s (some p) f received first =
    (eval p received first >>= λ hit. some (send_hit w s (log_rx w s f received) received hit))

-- The loop of `serve`, as far as the reads go.
unfoldable pub serve_loop :
    Wire → Session → Option Compiled → Far → Bool → List Read → Option (Far × Outcome)
serve_loop w s p f first [] = some (f, waiting)
serve_loop w s p f first (eof ∷ reads) = some (f, peer_eof)
serve_loop w s p f first (failed ∷ reads) = some (f, io_error)
serve_loop w s p f first (arrived b bs ∷ reads) = answer w s p f (b ∷ bs) first >>= λ turn.
    let later = serve_loop w s p turn.0 false reads in
    elim turn.1 [ go_on ↦ later | stop why ↦ some (turn.0, why) ]

abbrev pub serve_greeted :
    Wire → Session → Option Compiled → List Read → Far × Next → Option (Far × Outcome)
serve_greeted w s p reads (f, go_on) = serve_loop w s p f true reads
serve_greeted w s p reads (f, stop o) = some (f, o)

-- `serve`
unfoldable pub serve : Wire → Session → Option Compiled → Far → List Read → Option (Far × Outcome)
serve w s p f reads = serve_greeted w s p reads (greet w s f p)

-- The reason that a connection is closed with.
unfoldable pub why : Outcome → Text
why profile_close = codes "profile close"
why peer_eof = codes "peer eof"
why io_error = codes "error"
why waiting = []

-- The end of the task of a connection, with the text of the error.
unfoldable pub close_task : Wire → Session → Text → Far × Outcome → Far
unfolding why
close_task w s e (f, waiting) = f
close_task w s e (f, io_error) = record f {
  logger =
      Events.close_conn w.log (Events.error w.log f.logger (codes "tcp") s.name (some s.conn) e)
        (codes "tcp") s.name s.conn s.peer (codes "error");
}
close_task w s e (f, peer_eof) = record f {
  logger = Events.close_conn w.log f.logger (codes "tcp") s.name s.conn s.peer (why peer_eof);
}
close_task w s e (f, profile_close) = record f {
  logger = Events.close_conn w.log f.logger (codes "tcp") s.name s.conn s.peer (why profile_close);
}

-- `accept` gives a connection: its id, its opening, and its task where there is no upstream.
unfoldable pub accept :
    Wire
    → Text
    → Text
    → Text
    → Option Text
    → Option Compiled
    → Text
    → Logger
    → List Read
    → Option Far
accept w name local peer orig p e l reads =
    let (l', conn) = next_conn_id l in
    let s : Session = record { conn = conn; name = name; peer = peer } in
    let opened = Events.open_conn w.log l' (codes "tcp") name conn local peer orig in
    (serve w s p (record { logger = opened; written = []; shut = false }) reads >>= λ end.
    some (close_task w s e end))

-- What a listener says it does.
unfoldable pub mode : Option Text → Option Compiled → Text
mode (some up) p = codes "forward->" ++ up
mode none (some p) = p.name
mode none none = codes "none"

abbrev both_set : Text
both_set =
    codes
      "an upstream and a responding profile are both set; the upstream wins and the profile's rules will not fire"

abbrev pub warns : Option Text → Option Compiled → Bool
warns (some up) (some p) = responds p
warns (some up) none = false
warns none p = false

-- The start of `run`, once the socket listens.
unfoldable pub start_up : Wire → Text → Text → Option Text → Option Compiled → Logger → Logger
unfolding mode
start_up w name local upstream p l =
    let listening = Events.listening w.log l (codes "tcp") name local (mode upstream p) in
    if warns upstream p then Events.warn w.log listening (codes "tcp") name both_set else listening
