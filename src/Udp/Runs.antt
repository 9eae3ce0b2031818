-- ===== src/Udp/Runs.antt =====
-- src/listener/udp.rs: what a run of the listener draws, and the bound of the table.
use kirb_la_snoop.Base.{
  ℕ, ◌+◌, ◌*◌, ◌≤◌, ◌<◌, Bool, true, false, ◌||◌, none, some, List, [], ◌∷◌, ◌++◌, ◌≡◌, refl, sym,
  ap, ◌∙◌, subst, Bytes, Text, All, All-append, append-nil, append_assoc, length, ◌==◌, arith,
  Option-cases, inl, inr,
}
use kirb_la_snoop.Log.State.{Logger}
use kirb_la_snoop.Profile.{Compiled, responds, max_response_bytes}
use kirb_la_snoop.Udp.{
  Addr, Setup, Network, Listener, Input, failed, received, tick, start, lookup_peer, receive, sweep,
  receive_failed, step, run,
}
use kirb_la_snoop.Udp.Replies.{drawn, bytes_sent, bytes_sent-append, drawn_bound, drawn_silent}
use kirb_la_snoop.Udp.Peers.{Quiet, receive_from-Turn, sweep-Quiet}

-- An address from which one of the inputs is a datagram.
unfoldable pub is_source : Addr → List Input → Bool
is_source a [] = false
is_source a (received now from bytes ∷ is) = a == from || is_source a is
is_source a (failed e ∷ is) = is_source a is
is_source a (tick now ∷ is) = is_source a is

unfoldable pub datagrams : List Input → ℕ
datagrams [] = 0
datagrams (received now from bytes ∷ is) = 1 + datagrams is
datagrams (failed e ∷ is) = datagrams is
datagrams (tick now ∷ is) = datagrams is

-- What a run may do: send to the sources of its datagrams at
-- most so many bytes for each.
pub record Runs (st st' : Listener) (is : List Input) (n : ℕ) : Type 0 where
  pub more : List (Addr × Bytes)
  pub grows : st'.sent ≡ st.sent ++ more
  pub to_sources : All (λ (d : Addr × Bytes). (is_source d.0 is ≡ true) × (0 < length d.1)) more
  pub size : bytes_sent more ≤ n * datagrams is

-- A state that has sent nothing more.
nothing-Runs : (st st' : Listener) (is : List Input) (n : ℕ) → Quiet st st' → Runs st st' is n
unfolding bytes_sent
nothing-Runs st st' is n q = record {
  more = [];
  grows = q.same ∙ sym (append-nil st.sent);
  to_sources = tt;
  size = omega arith;
}

All-weaken :
    {A : Type 0} (P Q : A → Type 0) → ((x : A) → P x → Q x) → (xs : List A) → All P xs → All Q xs
All-weaken P Q f [] h = tt
All-weaken P Q f (x ∷ xs) h = (f x h.0, All-weaken P Q f xs h.1)

is_source-head :
    (a : Addr) (i : Input) (is : List Input)
    → is_source a (i ∷ []) ≡ true
    → is_source a (i ∷ is) ≡ true
unfolding is_source
is_source-head a (failed e) is h = absurd (cc)
is_source-head a (tick now) is h = absurd (cc)
is_source-head a (received now from bytes) is h = ground arith

is_source-tail :
    (a : Addr) (i : Input) (is : List Input) → is_source a is ≡ true → is_source a (i ∷ is) ≡ true
unfolding is_source
is_source-tail a (failed e) is h = h
is_source-tail a (tick now) is h = h
is_source-tail a (received now from bytes) is h = ground arith

is_source-here :
    (a : Addr) (now : ℕ) (from : Addr) (bytes : Bytes)
    → a ≡ from
    → is_source a (received now from bytes ∷ []) ≡ true
unfolding is_source
is_source-here a now from bytes h = ground arith

datagrams-cons :
    (n : ℕ) (i : Input) (is : List Input)
    → n * datagrams (i ∷ is) ≡ n * datagrams (i ∷ []) + n * datagrams is
unfolding datagrams
datagrams-cons n (failed e) is = omega arith
datagrams-cons n (tick now) is = omega arith
datagrams-cons n (received now from bytes) is = omega arith

nothing_sent :
    (more : List (Addr × Bytes)) (P : Addr → Type 0)
    → All (λ (d : Addr × Bytes). P d.0 × (0 < length d.1)) more
    → bytes_sent more ≤ 0
    → more ≡ []
unfolding bytes_sent
nothing_sent [] P h none_sent = refl
nothing_sent ((a, p) ∷ more) P h none_sent = absurd (omega (arith, h.0.1, none_sent))

-- A first input and the rest, in a longer run.
Runs-append :
    (st mid st' : Listener) (i : Input) (is : List Input) (n : ℕ)
    → Runs st mid (i ∷ []) n
    → Runs mid st' is n
    → Runs st st' (i ∷ is) n
Runs-append st mid st' i is n r s = record {
  more = r.more ++ s.more;
  grows = s.grows ∙ ap (λ x. x ++ s.more) r.grows ∙ append_assoc st.sent r.more s.more;
  to_sources =
      All-append _ r.more s.more
        (All-weaken _ _ (λ d h. (is_source-head d.0 i is h.0, h.1)) r.more r.to_sources)
        (All-weaken _ _ (λ d h. (is_source-tail d.0 i is h.0, h.1)) s.more s.to_sources);
  size = omega (arith, bytes_sent-append r.more s.more, r.size, s.size, datagrams-cons n i is);
}

failed-Quiet :
    (w : Network) (u : Setup) (st : Listener) (e : Text) → Quiet st (receive_failed w u st e)
unfolding receive_failed
failed-Quiet w u st e = record { same = refl; shorter = omega arith }

step-Runs :
    (w : Network) (u : Setup) (st st' : Listener) (i : Input) (n : ℕ)
    → ((bytes : Bytes) (first : Bool) → drawn u.profile bytes first ≤ n)
    → step w u st i ≡ some st'
    → Runs st st' (i ∷ []) n
unfolding step receive
step-Runs w u st st' (failed e) n draws h =
    let same : receive_failed w u st e ≡ st' = ground (arith, h) in
    nothing-Runs st st' _ n (subst (Quiet st) same (failed-Quiet w u st e))
step-Runs w u st st' (tick now) n draws h =
    let same : sweep w u st now ≡ st' = ground (arith, h) in
    nothing-Runs st st' _ n (subst (Quiet st) same (sweep-Quiet w u st now))
step-Runs w u st st' (received now from bytes) n draws h =
    let (first, turn) = receive_from-Turn w u st st' now from bytes (lookup_peer from st.peers) h in
    record {
      more = turn.sends.more;
      grows = turn.sends.grows;
      to_sources =
          All-weaken _ _ (λ d h. (is_source-here d.0 now from bytes h.0, h.1)) turn.sends.more
            turn.sends.to_sender;
      size = unfold datagrams in omega (arith, turn.sends.size, draws bytes first);
    }

run-Runs :
    (w : Network) (u : Setup) (st st' : Listener) (is : List Input) (n : ℕ)
    → ((bytes : Bytes) (first : Bool) → drawn u.profile bytes first ≤ n)
    → run w u st is ≡ some st'
    → Runs st st' is n
unfolding run
run-Runs w u st st' [] n draws h =
    subst (λ x. Runs st x [] n) (ground (arith, h))
      (nothing-Runs st st [] n (record { same = refl; shorter = omega arith }))
run-Runs w u st st' (i ∷ is) n draws h = elim (Option-cases (step w u st i)) [
  | inl panics ↦ absurd (ground (arith, h, panics))
  | inr (mid, stepped) ↦
      Runs-append st mid st' i is n (step-Runs w u st mid i n draws stepped)
        (run-Runs w u mid st' is n draws (ground (arith, h, stepped)))
]

step_fits :
    (w : Network) (u : Setup) (st st' : Listener) (i : Input)
    → step w u st i ≡ some st'
    → length st.peers ≤ u.max_peers
    → length st'.peers ≤ u.max_peers
unfolding step receive
step_fits w u st st' (failed e) h fits =
    let same : receive_failed w u st e ≡ st' = ground (arith, h) in
    let q = subst (Quiet st) same (failed-Quiet w u st e) in omega (arith, fits, q.shorter)
step_fits w u st st' (tick now) h fits =
    let same : sweep w u st now ≡ st' = ground (arith, h) in
    let q = subst (Quiet st) same (sweep-Quiet w u st now) in omega (arith, fits, q.shorter)
step_fits w u st st' (received now from bytes) h fits =
    (receive_from-Turn w u st st' now from bytes (lookup_peer from st.peers) h).1.bounded fits

run_fits :
    (w : Network) (u : Setup) (st st' : Listener) (is : List Input)
    → run w u st is ≡ some st'
    → length st.peers ≤ u.max_peers
    → length st'.peers ≤ u.max_peers
unfolding run
run_fits w u st st' [] h fits = ground (arith, h, fits)
run_fits w u st st' (i ∷ is) h fits = elim (Option-cases (step w u st i)) [
  | inl panics ↦ absurd (ground (arith, h, panics))
  | inr (mid, stepped) ↦
      run_fits w u mid st' is (ground (arith, h, stepped)) (step_fits w u st mid i stepped fits)
]

-- From its start, whatever arrives, the listener tracks at most `max_peers` peers.
pub run_within_max_peers :
    (w : Network) (u : Setup) (l : Logger) (st : Listener) (is : List Input)
    → run w u (start l) is ≡ some st
    → length st.peers ≤ u.max_peers
run_within_max_peers w u l st is h = run_fits w u (start l) st is h (omega arith)

-- Under a profile with a bound on its response, all that a run sends is at most that bound for each
-- datagram that has arrived, and goes to addresses from which one has.
pub run_reflects_bounded :
    (w : Network) (u : Setup) (l : Logger) (st : Listener) (is : List Input) (c : Compiled) (n : ℕ)
    → u.profile ≡ some c
    → max_response_bytes c ≡ some n
    → run w u (start l) is ≡ some st
    → (bytes_sent st.sent ≤ n * datagrams is)
      × All (λ (d : Addr × Bytes). is_source d.0 is ≡ true) st.sent
run_reflects_bounded w u l st is c n served bound h =
    let r =
      run-Runs w u (start l) st is n (λ bytes first. rw served (drawn_bound c n bytes first bound))
        h in
    (
      omega (arith, r.size, ap bytes_sent r.grows),
      subst (All _) (sym r.grows) (All-weaken _ _ (λ d h. h.0) r.more r.to_sources),
    )

-- Under a profile that does not respond, a run sends nothing.
pub run_silent :
    (w : Network) (u : Setup) (l : Logger) (st : Listener) (is : List Input) (c : Compiled)
    → u.profile ≡ some c
    → responds c ≡ false
    → run w u (start l) is ≡ some st
    → st.sent ≡ []
unfolding bytes_sent
run_silent w u l st is c served quiet h =
    let r =
      run-Runs w u (start l) st is 0 (λ bytes first. rw served (drawn_silent c bytes first quiet))
        h in
    r.grows ∙ nothing_sent r.more (λ d. is_source d is ≡ true) r.to_sources (omega (arith, r.size))

-- Without a profile, a run sends nothing.
pub run_unserved :
    (w : Network) (u : Setup) (l : Logger) (st : Listener) (is : List Input)
    → u.profile ≡ none
    → run w u (start l) is ≡ some st
    → st.sent ≡ []
unfolding bytes_sent
run_unserved w u l st is served h =
    let r = run-Runs w u (start l) st is 0 (λ bytes first. rw served (omega arith)) h in
    r.grows ∙ nothing_sent r.more (λ d. is_source d is ≡ true) r.to_sources (omega (arith, r.size))
