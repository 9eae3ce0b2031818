-- ===== src/Tcp/Splice.antt =====
-- src/listener/tcp.rs: that `forward` is exact in both directions, however their reads interleave.
use kirb_la_snoop.Base.{
  ℕ, Bool, true, false, Option, none, some, List, [], ◌∷◌, ◌++◌, ◌≡◌, refl, sym, ap, ◌∙◌, Bytes,
  append-nil, append_assoc, if◌then◌else◌, codes, Text,
}
use kirb_la_snoop.Log.State.{Dir, Logger, rx, tx}
use kirb_la_snoop.Tcp.{Read, arrived, eof, failed, Session}
use kirb_la_snoop.Tcp.Relay.{arriving, ends}
use kirb_la_snoop.Tcp.Forward.{
  Half, Wires, Spliced, write_half, pump_half, turn_half, turn, turns, fresh, forward, forward_why,
}

-- The reads of one direction.
unfoldable pub of_rx : List (Dir × Read) → List Read
of_rx [] = []
of_rx ((rx, read) ∷ ts) = read ∷ of_rx ts
of_rx ((tx, read) ∷ ts) = of_rx ts

unfoldable pub of_tx : List (Dir × Read) → List Read
of_tx [] = []
of_tx ((rx, read) ∷ ts) = of_tx ts
of_tx ((tx, read) ∷ ts) = read ∷ of_tx ts

-- One pump by itself.
pumps : (Bytes → Bytes → Option ℕ) → Half → List Read → Half
pumps takes h [] = h
pumps takes h (read ∷ reads) = pumps takes (turn_half takes h read) reads

-- The two pumps do not disturb one another.
turns-pumps :
    (w : Wires) (s : Session) (sp : Spliced) (ts : List (Dir × Read))
    → ((turns w s sp ts).to_upstream ≡ pumps (w.takes rx) sp.to_upstream (of_rx ts))
      × ((turns w s sp ts).to_client ≡ pumps (w.takes tx) sp.to_client (of_tx ts))
unfolding turns turn pumps of_rx of_tx
turns-pumps w s sp [] = (refl, refl)
turns-pumps w s sp ((rx, read) ∷ ts) = turns-pumps w s (turn w s sp (rx, read)) ts
turns-pumps w s sp ((tx, read) ∷ ts) = turns-pumps w s (turn w s sp (tx, read)) ts

if_false {ℓ} : {A : Type ℓ} {b : Bool} (x y : A) → b ≡ false → (if b then x else y) ≡ y
if_false x y e = rw e refl

pumps_returned :
    (takes : Bytes → Bytes → Option ℕ) (h : Half) (reads : List Read)
    → h.returned ≡ true
    → pumps takes h reads ≡ h
unfolding pumps
pumps_returned takes h [] done = refl
pumps_returned takes h (read ∷ reads) done =
    let same : turn_half takes h read ≡ h = rw done refl in
    rw same (pumps_returned takes h reads done)

pumps_exact :
    (takes : Bytes → Bytes → Option ℕ) (h : Half) (reads : List Read)
    → ((before bytes : Bytes) → takes before bytes ≡ none)
    → h.returned ≡ false
    → h.shut ≡ false
    → ((pumps takes h reads).written ≡ h.written ++ arriving reads)
      × ((pumps takes h reads).shut ≡ ends reads)
      × ((pumps takes h reads).returned ≡ ends reads)
unfolding pumps arriving ends
pumps_exact takes h [] all running unshut = (sym (append-nil h.written), unshut, running)
pumps_exact takes h (eof ∷ reads) all running unshut =
    let closed = record h { shut = true; returned = true } in
    let step =
      ap (λ x. pumps takes x reads) (if_false h closed running)
      ∙ pumps_returned takes closed reads refl in
    (
      ap (λ (x : Half). x.written) step ∙ sym (append-nil h.written),
      ap (λ (x : Half). x.shut) step,
      ap (λ (x : Half). x.returned) step,
    )
pumps_exact takes h (failed ∷ reads) all running unshut =
    let closed = record h { shut = true; returned = true } in
    let step =
      ap (λ x. pumps takes x reads) (if_false h closed running)
      ∙ pumps_returned takes closed reads refl in
    (
      ap (λ (x : Half). x.written) step ∙ sym (append-nil h.written),
      ap (λ (x : Half). x.shut) step,
      ap (λ (x : Half). x.returned) step,
    )
pumps_exact takes h (arrived b bs ∷ reads) all running unshut =
    let next = record h { written = h.written ++ (b ∷ bs) } in
    let step =
      ap (λ x. pumps takes x reads)
        (if_false h (pump_half takes h (arrived b bs)) running
          ∙ ap (write_half h (b ∷ bs)) (all h.written (b ∷ bs))) in
    let (bytes, shut, done) = pumps_exact takes next reads all running unshut in
    (
      ap (λ (x : Half). x.written) step ∙ bytes ∙ append_assoc h.written (b ∷ bs) (arriving reads),
      ap (λ (x : Half). x.shut) step ∙ shut,
      ap (λ (x : Half). x.returned) step ∙ done,
    )

-- While both far sides take every write, however the reads of the two directions interleave, the
-- upstream is sent exactly the bytes that arrive from the client, and the client exactly those that
-- arrive from the upstream, each far side is shut down when the reads of the other side end, and
-- `forward` returns when both have.
pub forward_exact :
    (w : Wires) (s : Session) (upstream : Text) (l : Logger) (ts : List (Dir × Read))
    → ((dir : Dir) (before bytes : Bytes) → w.takes dir before bytes ≡ none)
    → ((forward w s upstream none l ts).to_upstream.written ≡ arriving (of_rx ts))
      × ((forward w s upstream none l ts).to_client.written ≡ arriving (of_tx ts))
      × ((forward w s upstream none l ts).to_upstream.shut ≡ ends (of_rx ts))
      × ((forward w s upstream none l ts).to_client.shut ≡ ends (of_tx ts))
      × (forward_why none (forward w s upstream none l ts) ≡ (
          if ends (of_rx ts)
          then (if ends (of_tx ts) then some (codes "both directions closed") else none)
          else none))
unfolding forward forward_why
forward_exact w s upstream l ts all =
    let (up, down) =
      turns-pumps w s (record { logger = l; to_upstream = fresh; to_client = fresh }) ts in
    let (sent_up, shut_up, done_up) =
      pumps_exact (w.takes rx) fresh (of_rx ts) (all rx) refl refl in
    let (sent_down, shut_down, done_down) =
      pumps_exact (w.takes tx) fresh (of_tx ts) (all tx) refl refl in
    rw (up, down, done_up, done_down) (sent_up, sent_down, shut_up, shut_down, refl)
