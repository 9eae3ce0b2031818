-- ===== src/Udp/Replies.antt =====
-- src/listener/udp.rs: what one datagram draws.
use kirb_la_snoop.Base.{
  ℕ, ◌+◌, ◌≤◌, ◌<◌, Bool, true, false, Option, none, some, List, [], ◌∷◌, ◌++◌, ◌≡◌, refl, sym, ap,
  ◌∙◌, subst, Bytes, Text, All, length, ◌==◌, if◌then◌else◌, arith, Option-cases, append_assoc,
  append-nil, All-append, inl, inr, ◌>>=◌,
}
use kirb_la_snoop.Profile.{
  Action, Compiled, is_silent, eval, responds, max_response_bytes, builds, payload_len,
}
use kirb_la_snoop.Profile.Respond.{max_response_bytes_bound, responds_silent}
use kirb_la_snoop.Udp.{
  Addr, Setup, Network, Listener, reply_payload, transmit, reply, reply_hit, greet, respond,
}

unfoldable pub bytes_sent : List (Addr × Bytes) → ℕ
bytes_sent [] = 0
bytes_sent ((a, payload) ∷ rest) = length payload + bytes_sent rest

-- The sent datagrams grow by some that all go to one address, none empty, with at most so many
-- bytes in all.
pub record Sends (st st' : Listener) (a : Addr) (n : ℕ) : Type 0 where
  pub more : List (Addr × Bytes)
  pub grows : st'.sent ≡ st.sent ++ more
  pub to_sender : All (λ (d : Addr × Bytes). (d.0 ≡ a) × (0 < length d.1)) more
  pub size : bytes_sent more ≤ n

-- So, and the table of peers is not touched.
abbrev pub Answers : Listener → Listener → Addr → ℕ → Type 0
Answers st st' a n = (st'.peers ≡ st.peers) × Sends st st' a n

pub Sends-nothing : (st st' : Listener) (a : Addr) (n : ℕ) → st'.sent ≡ st.sent → Sends st st' a n
unfolding bytes_sent
Sends-nothing st st' a n same = record {
  more = [];
  grows = same ∙ sym (append-nil st.sent);
  to_sender = tt;
  size = omega arith;
}

pub bytes_sent-append :
    (xs ys : List (Addr × Bytes)) → bytes_sent (xs ++ ys) ≡ bytes_sent xs + bytes_sent ys
unfolding bytes_sent
bytes_sent-append [] ys = omega arith
bytes_sent-append ((a, p) ∷ xs) ys = omega (arith, bytes_sent-append xs ys)

pub Answers-trans :
    {st mid st' : Listener} {a : Addr} {n m : ℕ}
    → Answers st mid a n
    → Answers mid st' a m
    → Answers st st' a (n + m)
Answers-trans {st} {mid} {st'} (kept, s) (kept', s') = (
  kept' ∙ kept,
  record {
    more = s.more ++ s'.more;
    grows = s'.grows ∙ ap (λ x. x ++ s'.more) s.grows ∙ append_assoc st.sent s.more s'.more;
    to_sender = All-append _ s.more s'.more s.to_sender s'.to_sender;
    size = omega (arith, bytes_sent-append s.more s'.more, s.size, s'.size);
  },
)

Answers-at_most :
    {st st' : Listener} {a : Addr} {n m : ℕ} → n ≤ m → Answers st st' a n → Answers st st' a m
Answers-at_most le (kept, s) = (
  kept,
  record {
    more = s.more;
    grows = s.grows;
    to_sender = s.to_sender;
    size = omega (arith, le, s.size);
  },
)

Answers-if :
    (b : Bool) {st x y : Listener} {a : Addr} {n : ℕ}
    → (b ≡ true → Answers st x a n)
    → (b ≡ false → Answers st y a n)
    → Answers st (if b then x else y) a n
Answers-if true p q = p refl
Answers-if false p q = q refl

Answers-refl : (st : Listener) (a : Addr) (n : ℕ) → Answers st st a n
Answers-refl st a n = (refl, Sends-nothing st st a n refl)

abbrev pub sizeof : Option Bytes → ℕ
sizeof none = 0
sizeof (some payload) = length payload

transmit-Answers :
    (w : Network) (u : Setup) (st : Listener) (to : Addr) (conn : ℕ) (rule : Text)
    (payload : Option Bytes)
    → Answers st (transmit w u st to conn rule payload) to (sizeof payload)
unfolding bytes_sent
transmit-Answers w u st to conn rule none = Answers-refl st to 0
transmit-Answers w u st to conn rule (some payload) =
    Answers-if (length payload == 0) (λ empty. Answers-refl st to _)
      (λ full.
        Answers-if (w.sends to payload)
          (λ goes. (
            refl,
            record {
              more = (to, payload) ∷ [];
              grows = refl;
              to_sender = ((refl, ground (arith, full)), tt);
              size = omega arith;
            },
          ))
          (λ fails. (refl, Sends-nothing st _ to _ refl)))

-- The bytes that an action draws.
abbrev pub answer_size : Action → Bytes → ℕ
answer_size action received = if is_silent action then 0 else sizeof (reply_payload action received)

reply-Answers :
    (w : Network) (u : Setup) (st : Listener) (to : Addr) (action : Action) (received : Bytes)
    (conn : ℕ) (rule : Text)
    → Answers st (reply w u st to action received conn rule) to (answer_size action received)
unfolding reply
reply-Answers w u st to action received conn rule =
    Answers-if (is_silent action) (λ silent. Answers-refl st to _)
      (λ speaks.
        Answers-at_most (ground (arith, speaks))
          (transmit-Answers w u st to conn rule (reply_payload action received)))

abbrev pub hit_size : Option (Option (Text × Action)) → Bytes → ℕ
hit_size none received = 0
hit_size (some none) received = 0
hit_size (some (some (rule, action))) received = answer_size action received

abbrev pub greet_size : Option Action → Bytes → ℕ
greet_size none received = 0
greet_size (some action) received = answer_size action received

-- The most bytes that a profile draws with a message.
abbrev pub drawn : Option Compiled → Bytes → Bool → ℕ
drawn none received first = 0
drawn (some c) received first =
    greet_size c.on_connect received + hit_size (eval c received first) received

greet-Answers :
    (w : Network) (u : Setup) (st : Listener) (to : Addr) (received : Bytes) (conn : ℕ)
    (first : Bool) (banner : Option Action)
    → Answers st (greet w u st to received conn first banner) to (greet_size banner received)
greet-Answers w u st to received conn first none = Answers-refl st to 0
greet-Answers w u st to received conn first (some action) =
    Answers-if first (λ new. reply-Answers w u st to action received conn _)
      (λ old. Answers-refl st to _)

respond_hit-Answers :
    (w : Network) (u : Setup) (st st' : Listener) (to : Addr) (received : Bytes) (conn : ℕ)
    (hit : Option (Option (Text × Action)))
    → (hit >>= λ h. some (reply_hit w u st to received conn h)) ≡ some st'
    → Answers st st' to (hit_size hit received)
respond_hit-Answers w u st st' to received conn none h = absurd (ground arith)
respond_hit-Answers w u st st' to received conn (some none) h =
    subst (λ x. Answers st x to 0) (ground (arith, h)) (Answers-refl st to 0)
respond_hit-Answers w u st st' to received conn (some (some (rule, action))) h =
    subst (λ x. Answers st x to (answer_size action received)) (ground (arith, h))
      (reply-Answers w u st to action received conn rule)

pub respond-Answers :
    (w : Network) (u : Setup) (st st' : Listener) (to : Addr) (received : Bytes) (conn : ℕ)
    (first : Bool) (profile : Option Compiled)
    → respond w u st to received conn first profile ≡ some st'
    → Answers st st' to (drawn profile received first)
unfolding respond
respond-Answers w u st st' to received conn first none h =
    subst (λ x. Answers st x to 0) (ground (arith, h)) (Answers-refl st to 0)
respond-Answers w u st st' to received conn first (some c) h =
    Answers-trans (greet-Answers w u st to received conn first c.on_connect)
      (respond_hit-Answers w u _ st' to received conn (eval c received first) h)

answer_size_plain :
    (action : Action) (received : Bytes)
    → builds action ≡ false
    → answer_size action received ≤ length action.payload
unfolding reply_payload
answer_size_plain action received plain = elim (Option-cases action.dns) [
  | inl fixed ↦ ground (arith, fixed, plain)
  | inr (ans, built) ↦ absurd (ground (arith, built, plain))
]

greet_size_plain :
    (c : Compiled) (n : ℕ) (received : Bytes)
    → max_response_bytes c ≡ some n
    → greet_size c.on_connect received ≤ payload_len c.on_connect
unfolding max_response_bytes
greet_size_plain c n received bound = elim (Option-cases c.on_connect) [
  | inl bare ↦ rw bare (omega arith)
  | inr (banner, shown) ↦
      rw shown (answer_size_plain banner received (ground (arith, bound, shown)))
]

payload_len-le :
    (c : Compiled) (n : ℕ) → max_response_bytes c ≡ some n → payload_len c.on_connect ≤ n
unfolding max_response_bytes
payload_len-le c n bound = ground arith

greet_size_silent :
    (c : Compiled) (received : Bytes) → responds c ≡ false → greet_size c.on_connect received ≤ 0
unfolding responds
greet_size_silent c received quiet = elim (Option-cases c.on_connect) [
  | inl bare ↦ rw bare (omega arith)
  | inr (banner, shown) ↦ rw shown (ground (arith, quiet, shown))
]

-- What a message draws from a profile is within the bound that the profile states.
pub drawn_bound :
    (c : Compiled) (n : ℕ) (received : Bytes) (first : Bool)
    → max_response_bytes c ≡ some n
    → drawn (some c) received first ≤ n
drawn_bound c n received first bound =
    let greeting = greet_size_plain c n received bound in
    let total = payload_len-le c n bound in
    elim (Option-cases (eval c received first)) [
      | inl panics ↦ rw panics (omega (arith, greeting, total))
      | inr (none, silent) ↦ rw silent (omega (arith, greeting, total))
      | inr (some (rule, action), hit) ↦ rw hit (
          let (fits, plain, banner) =
            max_response_bytes_bound c n received first rule action bound hit in
          omega (arith, greeting, fits, answer_size_plain action received plain))
    ]

-- A profile that does not respond draws nothing.
pub drawn_silent :
    (c : Compiled) (received : Bytes) (first : Bool)
    → responds c ≡ false
    → drawn (some c) received first ≤ 0
drawn_silent c received first quiet =
    let greeting = greet_size_silent c received quiet in
    elim (Option-cases (eval c received first)) [
      | inl panics ↦ rw panics (omega (arith, greeting))
      | inr (none, silent) ↦ rw silent (omega (arith, greeting))
      | inr (some (rule, action), hit) ↦ rw hit (
          let mute = responds_silent c received first rule action quiet hit in
          ground (arith, greeting, mute))
    ]
