-- ===== src/Log/Runs.antt =====
-- src/log.rs: a whole run of calls, and what is in the raw streams at its end.
use kirb_la_snoop.Base.{
  ◌^◌, ◌<◌, Bool, true, Option, none, some, List, [], ◌∷◌, ◌≡◌, ◌≢◌, refl, sym, ap, subst, ◌∙◌,
  Bytes, Text, length,
}
use kirb_la_snoop.Stream.{Stream, Limits, create, finish, write_chunks}
use kirb_la_snoop.Stream.Runs.{Landed, capture_splits}
use kirb_la_snoop.Log.State.{
  Event, Options, Key, Logger, Outside, lookup, raw_write, new_logger, emit,
}
use kirb_la_snoop.Log.Events
use kirb_la_snoop.Log.Calls.{Call, call, run_calls}
use kirb_la_snoop.Log.Budget.{Stopped, Obeys-running, emit-Obeys, run_calls-Obeys, call-Obeys}
use kirb_la_snoop.Log.Raw.{Fed, Recorded, emit_raw, close_raw_raw, said_more}
use kirb_la_snoop.Log.Recorded.{raw_write-Recorded, closed-Recorded, said_by, said, said_till_close}

-- An event leaves the streams as they are.
emit-Recorded :
    (o : Outside) (l : Logger) (ev : Event) (k : Key) (lim : Limits) (whole : Bytes)
    → Recorded lim whole (lookup k l.raw)
    → Recorded lim whole (lookup k (emit o l ev).raw)
emit-Recorded o l ev k lim whole =
    subst (λ m. Recorded lim whole (lookup k m)) (sym (emit_raw o l ev))

call-Recorded :
    (o : Outside) (c : Call) (l : Logger) (k : Key) (whole : Bytes)
    → ((name : Text) → o.opens name ≡ true)
    → l.opts.raw ≡ true
    → ¬ Stopped (call o l c)
    → Recorded l.opts.stream_limits whole (lookup k l.raw)
    → Recorded l.opts.stream_limits (said_by k whole c) (lookup k (call o l c).raw)
unfolding call Events.listening Events.open_conn Events.log_data Events.close_conn Events.warn
    Events.error Events.flush lookup
call-Recorded o (Call.listening proto name local profile) l k whole opens on running rec =
    emit-Recorded o l _ k l.opts.stream_limits whole rec
call-Recorded o (Call.open_conn proto name conn local peer orig) l k whole opens on running rec =
    emit-Recorded o _ _ k l.opts.stream_limits whole rec
call-Recorded o (Call.log_data proto name conn peer dir bytes rule) l k whole opens on running rec =
    let counted = record l { stats = Events.count_data l.stats dir (length bytes) } in
    emit-Recorded o (raw_write o counted conn proto peer dir bytes) _ k l.opts.stream_limits
      (said_more (conn, dir) k whole bytes)
      (raw_write-Recorded o counted conn proto peer dir bytes k whole opens on
        (Obeys-running (emit-Obeys o (raw_write o counted conn proto peer dir bytes) _) running)
        rec)
call-Recorded o (Call.close_conn proto name conn peer why) l k whole opens on running rec =
    emit-Recorded o (Events.close_raw o l conn proto name peer) _ k l.opts.stream_limits
      (said_till_close conn k whole)
      (subst (λ m. Recorded l.opts.stream_limits (said_till_close conn k whole) (lookup k m))
        (sym (close_raw_raw o l conn proto name peer on))
        (closed-Recorded conn k l.opts.stream_limits whole l.raw rec))
call-Recorded o (Call.warn proto name msg) l k whole opens on running rec =
    emit-Recorded o l _ k l.opts.stream_limits whole rec
call-Recorded o (Call.error proto name conn msg) l k whole opens on running rec =
    emit-Recorded o l _ k l.opts.stream_limits whole rec
call-Recorded o Call.flush l k whole opens on running rec = refl

run_calls-Recorded :
    (o : Outside) (opts : Options) (cs : List Call) (l : Logger) (k : Key) (whole : Bytes)
    → ((name : Text) → o.opens name ≡ true)
    → opts.raw ≡ true
    → l.opts ≡ opts
    → ¬ Stopped (run_calls o l cs)
    → Recorded opts.stream_limits whole (lookup k l.raw)
    → Recorded opts.stream_limits (said k whole cs) (lookup k (run_calls o l cs).raw)
unfolding run_calls
run_calls-Recorded o opts [] l k whole opens on same running rec = rec
run_calls-Recorded o opts (c ∷ cs) l k whole opens on same running rec =
    let same_raw : l.opts.raw ≡ true = ap (λ (x : Options). x.raw) same ∙ on in
    let same_limits = ap (λ (x : Options). x.stream_limits) same in
    let running' = Obeys-running (run_calls-Obeys o cs (call o l c)) running in
    run_calls-Recorded o opts cs (call o l c) k (said_by k whole c) opens on
      ((call-Obeys o c l).same_opts ∙ same) running
      (subst (λ m. Recorded m (said_by k whole c) (lookup k (call o l c).raw)) same_limits
        (call-Recorded o c l k whole opens same_raw running'
          (subst (λ m. Recorded m whole (lookup k l.raw)) (sym same_limits) rec)))

-- A stream that was fed some bytes has landed them.
Fed-Landed :
    (lim : Limits) (whole : Bytes) (s : Stream) (created : Bool)
    → 0 < lim.head
    → length whole < 2 ^ 64
    → Fed lim whole s
    → Landed lim whole s (finish created s).0
Fed-Landed lim whole s created limited fits f =
    subst (λ t. Landed lim whole t (finish created t).0) (sym f.stream_is)
      (subst
        (λ w.
          Landed lim w (write_chunks (create f.path lim) f.pieces).0
            (finish created (write_chunks (create f.path lim) f.pieces).0).0)
        (sym f.whole_is)
        (capture_splits f.path lim f.pieces created limited
          (subst (λ w. length w < 2 ^ 64) f.whole_is fits)))

-- Where raw streams are on (no `--no-raw`, no `--no-files`), the files open, the streams are
-- limited and the cap has not stopped the logger, then whatever calls are made, of whatever other
-- connections in between: the raw stream of a connection and direction is open if a message of
-- bytes was logged for it since its last close or flush, and of the bytes of those messages (below
-- 2^64 in all), in order, it holds the front as its head and the end as its tail, with exactly the
-- reported number dropped between them.
pub run_calls-Landed :
    (o : Outside) (opts : Options) (cs : List Call) (k : Key) (created : Bool)
    → ((name : Text) → o.opens name ≡ true)
    → opts.raw ≡ true
    → 0 < opts.stream_limits.head
    → ¬ Stopped (run_calls o (new_logger opts) cs)
    → said k [] cs ≢ []
    → length (said k [] cs) < 2 ^ 64
    → (s : Stream) × (lookup k (run_calls o (new_logger opts) cs).raw ≡ some s)
      × Landed opts.stream_limits (said k [] cs) s (finish created s).0
run_calls-Landed o opts cs k created opens on limited running something fits =
    from (lookup k (run_calls o (new_logger opts) cs).raw) refl (
      run_calls-Recorded o opts cs (new_logger opts) k [] opens on (unfold new_logger in refl)
        running (unfold new_logger lookup in refl))
  where
    from :
        (was : Option Stream)
        → lookup k (run_calls o (new_logger opts) cs).raw ≡ was
        → Recorded opts.stream_limits (said k [] cs) was
        → (s : Stream) × (lookup k (run_calls o (new_logger opts) cs).raw ≡ some s)
          × Landed opts.stream_limits (said k [] cs) s (finish created s).0
    from none e empty = absurd (something empty)
    from (some s) e fed =
        (s, e, Fed-Landed opts.stream_limits (said k [] cs) s created limited fits fed)
