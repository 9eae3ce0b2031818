-- ===== src/Tcp/Captures.antt =====
-- src/listener/tcp.rs: what `serve` logs and sends.
use kirb_la_snoop.Base.{
  Bool, true, false, not, Option, none, some, List, [], ◌∷◌, ◌≡◌, refl, sym, ap, ◌∙◌, Bytes, Text,
  codes, arith, Option-cases, inl, inr,
}
use kirb_la_snoop.Log.State.{rx}
use kirb_la_snoop.Log.Calls.{Call, run_calls, call}
use kirb_la_snoop.Profile.{Action, Compiled, is_silent, eval, responds, is_some_and}
use kirb_la_snoop.Profile.Respond.{responds_silent}
use kirb_la_snoop.Tcp.{Read, arrived, eof, failed, Wire, Session, Far}
use kirb_la_snoop.Tcp.Serve.{
  send, Outcome, peer_eof, io_error, waiting, Next, go_on, stop, after_send, send_banner, send_hit,
  log_rx, answer, serve_loop, serve_greeted, serve,
}

-- The calls that log the messages of a client.
unfoldable pub rx_calls : Session → List Read → List Call
rx_calls s [] = []
rx_calls s (eof ∷ reads) = []
rx_calls s (failed ∷ reads) = []
rx_calls s (arrived b bs ∷ reads) =
    Call.log_data (codes "tcp") s.name s.conn s.peer rx (b ∷ bs) none ∷ rx_calls s reads

-- How the reads of a client end.
unfoldable pub ending : List Read → Outcome
ending [] = waiting
ending (eof ∷ reads) = peer_eof
ending (failed ∷ reads) = io_error
ending (arrived b bs ∷ reads) = ending reads

loop_logs :
    (w : Wire) (s : Session) (f : Far) (first : Bool) (reads : List Read)
    → serve_loop w s none f first reads
      ≡ some (record f { logger = run_calls w.log f.logger (rx_calls s reads) }, ending reads)
unfolding serve_loop rx_calls ending run_calls answer call
loop_logs w s f first [] = refl
loop_logs w s f first (eof ∷ reads) = refl
loop_logs w s f first (failed ∷ reads) = refl
loop_logs w s f first (arrived b bs ∷ reads) = loop_logs w s (log_rx w s f (b ∷ bs)) false reads

-- With no profile, a connection is sent nothing, each of its messages is logged byte for byte and
-- in order, and it ends the way that the reads end.
pub serve_logs :
    (w : Wire) (s : Session) (f : Far) (reads : List Read)
    → serve w s none f reads
      ≡ some (record f { logger = run_calls w.log f.logger (rx_calls s reads) }, ending reads)
unfolding serve
serve_logs w s f reads = loop_logs w s f true reads

after_send_far : (r : Far × Option Bool) → (after_send r).0 ≡ r.0
after_send_far (f, none) = refl
after_send_far (f, some true) = refl
after_send_far (f, some false) = refl

-- An action that is silent sends nothing.
send_silent :
    (w : Wire) (s : Session) (f : Far) (action : Action) (received : Bytes) (rule : Text)
    → is_silent action ≡ true
    → (after_send (send w s f action received rule)).0 ≡ f
unfolding send
send_silent w s f action received rule silent =
    let same : send w s f action received rule ≡ (f, some action.close) = rw silent refl in
    after_send_far (send w s f action received rule) ∙ ap (λ (r : Far × Option Bool). r.0) same

send_hit_silent :
    (w : Wire) (s : Session) (c : Compiled) (f : Far) (received : Bytes) (first : Bool)
    (hit : Option (Text × Action))
    → responds c ≡ false
    → eval c received first ≡ some hit
    → (send_hit w s f received hit).0 ≡ f
send_hit_silent w s c f received first none quiet e = refl
send_hit_silent w s c f received first (some (rule, action)) quiet e =
    send_silent w s f action received rule (responds_silent c received first rule action quiet e)

answer_silent :
    (w : Wire) (s : Session) (c : Compiled) (f : Far) (received : Bytes) (first : Bool)
    (turn : Far × Next)
    → responds c ≡ false
    → answer w s (some c) f received first ≡ some turn
    → turn.0 ≡ log_rx w s f received
unfolding answer
answer_silent w s c f received first turn quiet h = elim (Option-cases (eval c received first)) [
  | inl panics ↦ absurd (ground (arith, h, panics))
  | inr (hit, found) ↦
      let same : send_hit w s (log_rx w s f received) received hit ≡ turn =
        ground (arith, h, found) in
      ap (λ (t : Far × Next). t.0) (sym same)
      ∙ send_hit_silent w s c (log_rx w s f received) received first hit quiet found
]

greet_silent :
    (w : Wire) (s : Session) (f : Far) (banner : Option Action)
    → is_some_and banner (λ a. not (is_silent a)) ≡ false
    → (send_banner w s f banner).0 ≡ f
greet_silent w s f none quiet = refl
greet_silent w s f (some action) quiet = send_silent w s f action [] _ (ground (arith, quiet))

loop_silent :
    (w : Wire) (s : Session) (c : Compiled) (f : Far) (first : Bool) (reads : List Read)
    (end : Far × Outcome)
    → responds c ≡ false
    → serve_loop w s (some c) f first reads ≡ some end
    → end.0.written ≡ f.written
unfolding serve_loop
loop_silent w s c f first [] end quiet h =
    let done : (f, waiting) ≡ end = ground (arith, h) in
    ap (λ (x : Far × Outcome). x.0.written) (sym done)
loop_silent w s c f first (eof ∷ reads) end quiet h =
    let done : (f, peer_eof) ≡ end = ground (arith, h) in
    ap (λ (x : Far × Outcome). x.0.written) (sym done)
loop_silent w s c f first (failed ∷ reads) end quiet h =
    let done : (f, io_error) ≡ end = ground (arith, h) in
    ap (λ (x : Far × Outcome). x.0.written) (sym done)
loop_silent w s c f first (arrived b bs ∷ reads) end quiet h =
    elim (Option-cases (answer w s (some c) f (b ∷ bs) first)) [
      | inl panics ↦ absurd (ground (arith, h, panics))
      | inr ((far, go_on), turned) ↦
          let same = answer_silent w s c f (b ∷ bs) first (far, go_on) quiet turned in
          let later = loop_silent w s c far false reads end quiet (ground (arith, h, turned)) in
          later ∙ ap (λ (x : Far). x.written) same
      | inr ((far, stop o), turned) ↦
          let same = answer_silent w s c f (b ∷ bs) first (far, stop o) quiet turned in
          let done : (far, o) ≡ end = ground (arith, h, turned) in
          ap (λ (x : Far × Outcome). x.0.written) (sym done) ∙ ap (λ (x : Far). x.written) same
    ]

greeted_silent :
    (w : Wire) (s : Session) (c : Compiled) (reads : List Read) (turn : Far × Next)
    (end : Far × Outcome)
    → responds c ≡ false
    → serve_greeted w s (some c) reads turn ≡ some end
    → end.0.written ≡ turn.0.written
greeted_silent w s c reads (f, go_on) end quiet h = loop_silent w s c f true reads end quiet h
greeted_silent w s c reads (f, stop o) end quiet h =
    let done : (f, o) ≡ end = ground (arith, h) in
    ap (λ (x : Far × Outcome). x.0.written) (sym done)

banner_silent :
    (c : Compiled) → responds c ≡ false → is_some_and c.on_connect (λ a. not (is_silent a)) ≡ false
unfolding responds
banner_silent c quiet = ground arith

-- A profile that does not respond sends nothing on a connection, whatever arrives.
pub serve_silent :
    (w : Wire) (s : Session) (c : Compiled) (f : Far) (reads : List Read) (end : Far × Outcome)
    → responds c ≡ false
    → serve w s (some c) f reads ≡ some end
    → end.0.written ≡ f.written
unfolding serve
serve_silent w s c f reads end quiet h =
    greeted_silent w s c reads (send_banner w s f c.on_connect) end quiet h
    ∙ ap (λ (x : Far). x.written) (greet_silent w s f c.on_connect (banner_silent c quiet))
