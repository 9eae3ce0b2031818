-- ===== src/Tcp/Relay.antt =====
-- src/listener/tcp.rs: what the relay of one direction passes on.
use kirb_la_snoop.Base.{
  ℕ, Bool, true, false, none, some, List, [], ◌∷◌, ◌++◌, ◌≡◌, refl, sym, ap, ◌∙◌, Bytes, take, drop,
  take-append-drop, append-nil, append_assoc, codes, Option-cases, inl, inr,
}
use kirb_la_snoop.Log.Calls.{Call, run_calls, call}
use kirb_la_snoop.Log.State.{Dir}
use kirb_la_snoop.Tcp.{Read, arrived, eof, failed, Wire, Session, Far, write_all, log_forward, pump}

-- The bytes that arrive before the end.
unfoldable pub arriving : List Read → Bytes
arriving [] = []
arriving (eof ∷ reads) = []
arriving (failed ∷ reads) = []
arriving (arrived b bs ∷ reads) = (b ∷ bs) ++ arriving reads

unfoldable pub ends : List Read → Bool
ends [] = false
ends (eof ∷ reads) = true
ends (failed ∷ reads) = true
ends (arrived b bs ∷ reads) = ends reads

-- One call of the logger for each read.
unfoldable pub data_calls : Session → Dir → List Read → List Call
data_calls s dir [] = []
data_calls s dir (eof ∷ reads) = []
data_calls s dir (failed ∷ reads) = []
data_calls s dir (arrived b bs ∷ reads) =
    Call.log_data (codes "tcp") s.name s.conn s.peer dir (b ∷ bs) (some (codes "forward"))
    ∷ data_calls s dir reads

-- A write that goes through, and one that fails, after the bytes are logged.
write_all-whole :
    (w : Wire) (s : Session) (dir : Dir) (f : Far) (bytes : Bytes)
    → w.takes f.written bytes ≡ none
    → write_all w (log_forward w s dir f bytes) bytes
      ≡ (record (log_forward w s dir f bytes) { written = f.written ++ bytes }, true)
unfolding write_all log_forward
write_all-whole w s dir f bytes whole = rw whole refl

write_all-cut :
    (w : Wire) (s : Session) (dir : Dir) (f : Far) (bytes : Bytes) (k : ℕ)
    → w.takes f.written bytes ≡ some k
    → write_all w (log_forward w s dir f bytes) bytes
      ≡ (record (log_forward w s dir f bytes) { written = f.written ++ take k bytes }, false)
unfolding write_all log_forward
write_all-cut w s dir f bytes k cut = rw cut refl

-- While the far side takes every write, it is sent exactly the bytes that arrive, the logger is
-- called with the same bytes, once for each read, and the far side, open at the start, is shut
-- down when they end.
pub pump_exact :
    (w : Wire) (s : Session) (dir : Dir) (f : Far) (reads : List Read)
    → ((before bytes : Bytes) → w.takes before bytes ≡ none)
    → f.shut ≡ false
    → ((pump w s dir f reads).written ≡ f.written ++ arriving reads)
      × ((pump w s dir f reads).logger ≡ run_calls w.log f.logger (data_calls s dir reads))
      × ((pump w s dir f reads).shut ≡ ends reads)
unfolding pump arriving ends data_calls run_calls
pump_exact w s dir f [] all open_yet = (sym (append-nil f.written), refl, open_yet)
pump_exact w s dir f (eof ∷ reads) all open_yet = (sym (append-nil f.written), refl, refl)
pump_exact w s dir f (failed ∷ reads) all open_yet = (sym (append-nil f.written), refl, refl)
pump_exact w s dir f (arrived b bs ∷ reads) all open_yet =
    let whole = write_all-whole w s dir f (b ∷ bs) (all f.written (b ∷ bs)) in
    let next = record (log_forward w s dir f (b ∷ bs)) { written = f.written ++ (b ∷ bs) } in
    let (bytes, calls, shut) = pump_exact w s dir next reads all (unfold log_forward in open_yet) in
    rw whole (
      bytes ∙ append_assoc f.written (b ∷ bs) (arriving reads),
      calls ∙ (unfold log_forward call in refl),
      shut,
    )

-- What the far side has been sent is a front part of the bytes that arrive.
pub record Relayed (f f' : Far) (reads : List Read) : Type 0 where
  pub passed : Bytes
  pub kept_back : Bytes
  pub sent : f'.written ≡ f.written ++ passed
  pub splits : arriving reads ≡ passed ++ kept_back

-- However its writes fail, the far side is only ever sent a front part of the bytes that arrive.
pub pump-Relayed :
    (w : Wire) (s : Session) (dir : Dir) (f : Far) (reads : List Read)
    → Relayed f (pump w s dir f reads) reads
unfolding pump arriving
pump-Relayed w s dir f [] = record {
  passed = [];
  kept_back = [];
  sent = sym (append-nil f.written);
  splits = refl;
}
pump-Relayed w s dir f (eof ∷ reads) = record {
  passed = [];
  kept_back = [];
  sent = sym (append-nil f.written);
  splits = refl;
}
pump-Relayed w s dir f (failed ∷ reads) = record {
  passed = [];
  kept_back = [];
  sent = sym (append-nil f.written);
  splits = refl;
}
pump-Relayed w s dir f (arrived b bs ∷ reads) = elim (Option-cases (w.takes f.written (b ∷ bs))) [
  | inl whole ↦ rw (write_all-whole w s dir f (b ∷ bs) whole) (
      let next = record (log_forward w s dir f (b ∷ bs)) { written = f.written ++ (b ∷ bs) } in
      let r = pump-Relayed w s dir next reads in
      record {
        passed = (b ∷ bs) ++ r.passed;
        kept_back = r.kept_back;
        sent = r.sent ∙ append_assoc f.written (b ∷ bs) r.passed;
        splits =
            ap (λ x. (b ∷ bs) ++ x) r.splits ∙ sym (append_assoc (b ∷ bs) r.passed r.kept_back);
      })
  | inr (k, cut) ↦ rw (write_all-cut w s dir f (b ∷ bs) k cut) (record {
    passed = take k (b ∷ bs);
    kept_back = drop k (b ∷ bs) ++ arriving reads;
    sent = refl;
    splits =
        ap (λ x. x ++ arriving reads) (sym (take-append-drop k (b ∷ bs)))
        ∙ append_assoc (take k (b ∷ bs)) (drop k (b ∷ bs)) (arriving reads);
  })
]
