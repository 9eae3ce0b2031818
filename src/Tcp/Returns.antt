-- ===== src/Tcp/Returns.antt =====
-- src/listener/tcp.rs: that the task of a connection ends.
use kirb_la_snoop.Base.{
  ℕ, Bool, true, false, Option, none, some, List, [], ◌∷◌, ◌≡◌, ◌≢◌, refl, Bytes, Text,
}
use kirb_la_snoop.Profile.{Action, Compiled}
use kirb_la_snoop.Profile.Total.{AllAsciiHex, eval_total}
use kirb_la_snoop.Tcp.{Read, arrived, eof, failed, Wire, Session, Far}
use kirb_la_snoop.Tcp.Relay.{ends}
use kirb_la_snoop.Tcp.Serve.{
  Outcome, peer_eof, io_error, waiting, Next, go_on, stop, after_send, send, send_hit, send_banner,
  log_rx, answer, serve_loop, serve_greeted, serve,
}

-- A turn that stops gives a reason to.
abbrev Decided : Next → Type 0
Decided go_on = Unit {0}
Decided (stop o) = o ≢ waiting

after_send-Decided : (r : Far × Option Bool) → Decided (after_send r).1
after_send-Decided (f, none) = λ e. absurd (cc)
after_send-Decided (f, some true) = λ e. absurd (cc)
after_send-Decided (f, some false) = tt

send_hit-Decided :
    (w : Wire) (s : Session) (f : Far) (received : Bytes) (hit : Option (Text × Action))
    → Decided (send_hit w s f received hit).1
send_hit-Decided w s f received none = tt
send_hit-Decided w s f received (some (rule, action)) =
    after_send-Decided (send w s f action received rule)

banner-Decided :
    (w : Wire) (s : Session) (f : Far) (banner : Option Action)
    → Decided (send_banner w s f banner).1
banner-Decided w s f none = tt
banner-Decided w s f (some action) = after_send-Decided (send w s f action [] _)

-- The result of a loop, with a reason if the reads come to an end.
abbrev Returned : Option (Far × Outcome) → List Read → Type 0
Returned r reads = (end : Far × Outcome) × (r ≡ some end) × (ends reads ≡ true → end.1 ≢ waiting)

answer_total :
    (w : Wire) (s : Session) (c : Compiled) (f : Far) (received : Bytes) (first : Bool)
    → AllAsciiHex c.rules
    → (turn : Far × Next) × (answer w s (some c) f received first ≡ some turn) × Decided turn.1
unfolding answer
answer_total w s c f received first h =
    let (hit, found) = eval_total c received first h in
    (
      send_hit w s (log_rx w s f received) received hit,
      rw found refl,
      send_hit-Decided w s (log_rx w s f received) received hit,
    )

after_turn :
    (w : Wire) (s : Session) (c : Compiled) (f : Far) (first : Bool) (b : ℕ) (bs : Bytes)
    (reads : List Read) (turn : Far × Next)
    → answer w s (some c) f (b ∷ bs) first ≡ some turn
    → Decided turn.1
    → ((far : Far) → Returned (serve_loop w s (some c) far false reads) reads)
    → Returned (serve_loop w s (some c) f first (arrived b bs ∷ reads)) (arrived b bs ∷ reads)
unfolding serve_loop ends
after_turn w s c f first b bs reads (far, go_on) turned decided later =
    let (end, looped, reason) = later far in (end, rw turned looped, reason)
after_turn w s c f first b bs reads (far, stop o) turned decided later =
    ((far, o), rw turned refl, λ e. decided)

loop_returns :
    (w : Wire) (s : Session) (c : Compiled) (f : Far) (first : Bool) (reads : List Read)
    → AllAsciiHex c.rules
    → Returned (serve_loop w s (some c) f first reads) reads
unfolding serve_loop ends
loop_returns w s c f first [] h = ((f, waiting), refl, λ e. absurd (cc))
loop_returns w s c f first (eof ∷ reads) h = ((f, peer_eof), refl, λ e k. absurd (cc))
loop_returns w s c f first (failed ∷ reads) h = ((f, io_error), refl, λ e k. absurd (cc))
loop_returns w s c f first (arrived b bs ∷ reads) h =
    let (turn, turned, decided) = answer_total w s c f (b ∷ bs) first h in
    after_turn w s c f first b bs reads turn turned decided
      (λ far. loop_returns w s c far false reads h)

greeted_returns :
    (w : Wire) (s : Session) (c : Compiled) (reads : List Read) (turn : Far × Next)
    → AllAsciiHex c.rules
    → Decided turn.1
    → Returned (serve_greeted w s (some c) reads turn) reads
greeted_returns w s c reads (f, go_on) h decided = loop_returns w s c f true reads h
greeted_returns w s c reads (f, stop o) h decided = ((f, o), refl, λ e. decided)

-- Under a profile whose hex fields are ASCII, `serve` never panics, and once the reads of the
-- client end or fail it has returned, with a reason to close.
pub serve_returns :
    (w : Wire) (s : Session) (c : Compiled) (f : Far) (reads : List Read)
    → AllAsciiHex c.rules
    → (end : Far × Outcome) × (serve w s (some c) f reads ≡ some end)
      × (ends reads ≡ true → end.1 ≢ waiting)
unfolding serve
serve_returns w s c f reads h =
    greeted_returns w s c reads (send_banner w s f c.on_connect) h
      (banner-Decided w s f c.on_connect)
