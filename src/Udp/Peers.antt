-- ===== src/Udp/Peers.antt =====
-- src/listener/udp.rs: what one turn of the loop does to the table of peers and the datagrams sent.
use kirb_la_snoop.Base.{
  ℕ, ◌+◌, ◌≤◌, ◌<◌, Bool, true, false, Option, none, some, List, [], ◌∷◌, ◌++◌, ◌≡◌, refl, ap, ◌∙◌,
  subst, Bytes, length, leb, ltb, if◌then◌else◌, arith, Bool-cases, inl, inr,
}
use kirb_la_snoop.Log.State.{Logger}
use kirb_la_snoop.Udp.{
  Addr, Peer, Setup, Network, Listener, touch, receive_overflow, receive_new, receive_known,
  receive_from, close_idle, is_recent, retain, close_overflow, sweep,
}
use kirb_la_snoop.Udp.Replies.{Sends, Answers, respond-Answers, Sends-nothing, drawn}

length-touch : (a : Addr) (now : ℕ) (ps : List (Addr × Peer)) → length (touch a now ps) ≡ length ps
unfolding touch
length-touch a now [] = refl
length-touch a now ((b, p) ∷ ps) = ground (arith, length-touch a now ps)

length-if :
    {A : Type 0} (b : Bool) (x : A) (xs : List A)
    → length (if b then x ∷ xs else xs) ≤ 1 + length xs
length-if true x xs = omega arith
length-if false x xs = omega arith

retain-shorter :
    (w : Network) (u : Setup) (now : ℕ) (l : Logger) (ps : List (Addr × Peer))
    → length (retain w u now l ps).1 ≤ length ps
unfolding retain
retain-shorter w u now l [] = omega arith
retain-shorter w u now l ((a, p) ∷ ps) =
    let closed = close_idle w u now l a p in
    let shorter = retain-shorter w u now closed ps in
    omega (arith, shorter, length-if (is_recent u now p) (a, p) (retain w u now closed ps).1)

-- What one turn of the loop may do: keep the table within its bound, and send to one address at
-- most so many bytes.
pub record Turn (u : Setup) (st st' : Listener) (a : Addr) (n : ℕ) : Type 0 where
  pub bounded : length st.peers ≤ u.max_peers → length st'.peers ≤ u.max_peers
  pub sends : Sends st st' a n

-- A response from a state with a table within its bound, and what was sent before.
responded-Turn :
    (u : Setup) (st mid st' : Listener) (a : Addr) (n : ℕ)
    → mid.sent ≡ st.sent
    → (length st.peers ≤ u.max_peers → length mid.peers ≤ u.max_peers)
    → Answers mid st' a n
    → Turn u st st' a n
responded-Turn u st mid st' a n same fits (kept, sends) = record {
  bounded = λ le. omega (arith, fits le, ap (λ (ps : List (Addr × Peer)). length ps) kept);
  sends = record {
    more = sends.more;
    grows = sends.grows ∙ ap (λ sent. sent ++ sends.more) same;
    to_sender = sends.to_sender;
    size = sends.size;
  };
}

receive_known-Turn :
    (w : Network) (u : Setup) (st st' : Listener) (now : ℕ) (from : Addr) (bytes : Bytes) (p : Peer)
    → receive_known w u st now from bytes p ≡ some st'
    → Turn u st st' from (drawn u.profile bytes false)
unfolding receive_known
receive_known-Turn w u st st' now from bytes p h =
    responded-Turn u st _ st' from _ refl (λ le. omega (arith, le, length-touch from now st.peers))
      (respond-Answers w u _ st' from bytes p.conn false u.profile h)

receive_new-Turn :
    (w : Network) (u : Setup) (st st' : Listener) (now : ℕ) (from : Addr) (bytes : Bytes)
    → length st.peers < u.max_peers
    → receive_new w u st now from bytes ≡ some st'
    → Turn u st st' from (drawn u.profile bytes true)
unfolding receive_new
receive_new-Turn w u st st' now from bytes room h =
    responded-Turn u st _ st' from _ refl (λ le. omega (arith, room))
      (respond-Answers w u _ st' from bytes _ true u.profile h)

pub receive_from-Turn :
    (w : Network) (u : Setup) (st st' : Listener) (now : ℕ) (from : Addr) (bytes : Bytes)
    (known : Option Peer)
    → receive_from w u st now from bytes known ≡ some st'
    → (first : Bool) × Turn u st st' from (drawn u.profile bytes first)
receive_from-Turn w u st st' now from bytes (some p) h =
    (false, receive_known-Turn w u st st' now from bytes p h)
receive_from-Turn w u st st' now from bytes none h =
    elim (Bool-cases (leb u.max_peers (length st.peers))) [
      | inl full ↦
          let same : receive_overflow w u st from bytes ≡ st' = ground (arith, full) in
          (
            true,
            subst (λ x. Turn u st x from (drawn u.profile bytes true)) same
                (record {
                  bounded = λ le. unfold receive_overflow in le;
                  sends = Sends-nothing st _ from _ (unfold receive_overflow in refl);
                }),
          )
      | inr room ↦ (
        true,
        receive_new-Turn w u st st' now from bytes (ground (arith, room)) (ground (arith, room)),
      )
    ]

-- A sweep sends nothing, and the table does not grow.
pub record Quiet (st st' : Listener) : Type 0 where
  pub same : st'.sent ≡ st.sent
  pub shorter : length st'.peers ≤ length st.peers

close_overflow-Quiet :
    (w : Network) (u : Setup) (st : Listener) (stream : Option ℕ)
    → Quiet st (close_overflow w u st stream)
close_overflow-Quiet w u st none = record { same = refl; shorter = omega arith }
close_overflow-Quiet w u st (some conn) = record { same = refl; shorter = omega arith }

Quiet-if : (b : Bool) {st x y : Listener} → Quiet st x → Quiet st y → Quiet st (if b then x else y)
Quiet-if true p q = p
Quiet-if false p q = q

pub sweep-Quiet : (w : Network) (u : Setup) (st : Listener) (now : ℕ) → Quiet st (sweep w u st now)
unfolding sweep
sweep-Quiet w u st now =
    let le = retain-shorter w u now st.logger st.peers in
    let q =
      close_overflow-Quiet w u
        (record st {
          peers = (retain w u now st.logger st.peers).1;
          logger = (retain w u now st.logger st.peers).0;
        })
        st.overflow_conn in
    Quiet-if (ltb (length (retain w u now st.logger st.peers).1) u.max_peers)
      (record { same = q.same; shorter = omega (arith, le, q.shorter) })
      (record { same = refl; shorter = le })
