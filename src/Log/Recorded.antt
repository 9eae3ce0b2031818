-- ===== src/Log/Recorded.antt =====
-- src/log.rs: the raw streams over a run of calls.
use kirb_la_snoop.Base.{
  ℕ, Bool, true, false, none, List, [], ◌∷◌, ◌≡◌, refl, sym, ap, subst, ◌∙◌, Bytes, Text, length,
  ◌==◌, if◌then◌else◌, arith, Bool-cases, inl, inr, append-nil,
}
use kirb_la_snoop.Stream.{Stream, Limits, write}
use kirb_la_snoop.Log.State.{
  Dir, rx, tx, Options, Key, Logger, Outside, charge, lookup, remove, same_key, raw_write,
  write_granted, write_open, insert,
}
use kirb_la_snoop.Log.Calls.{Call}
use kirb_la_snoop.Log.Budget.{Stopped, Obeys-running, write_granted-Obeys}
use kirb_la_snoop.Log.Keys.{lookup-remove, lookup-remove_other}
use kirb_la_snoop.Log.Raw.{
  Fed, Recorded, if_true, if_false, open_stream-Fed, said_more, write_open-Recorded, charge_raw,
  charge_opts, charge_refused, raw_write_cons, raw_write_nil,
}

said_more_nil : (j k : Key) (whole : Bytes) → said_more j k whole [] ≡ whole
said_more_nil j k whole = elim (Bool-cases (same_key j k)) [
  | inl same ↦ rw same (append-nil whole)
  | inr other ↦ rw other refl
]

charge_granted : (l : Logger) (n : ℕ) → ¬ Stopped (charge l n).0 → (charge l n).1 ≡ true
charge_granted l n running = elim (Bool-cases (charge l n).1) [
  | inl granted ↦ granted
  | inr refused ↦ absurd (running (charge_refused l n refused))
]

-- A message that is granted reaches the stream of its own key and no other.
write_granted-Recorded :
    (o : Outside) (l : Logger) (conn : ℕ) (proto peer : Text) (dir : Dir) (bytes : Bytes) (k : Key)
    (lim : Limits) (whole : Bytes) (granted : Bool)
    → ((name : Text) → o.opens name ≡ true)
    → granted ≡ true
    → l.opts.stream_limits ≡ lim
    → Recorded lim whole (lookup k l.raw)
    → Recorded lim
        (said_more (conn, dir) k whole bytes)
        (lookup k (write_granted o conn proto peer dir bytes (l, granted)).raw)
write_granted-Recorded o l conn proto peer dir bytes k lim whole granted opens paid same rec =
    let (s, opened, fed) = open_stream-Fed o l conn proto peer dir opens in
    let written : write_granted o conn proto peer dir bytes (l, granted)
        ≡ record l { raw = insert (conn, dir) (write s bytes).0 l.raw } =
      if_true granted _ _ paid ∙ ap (write_open l (conn, dir) bytes) opened in
    subst (λ (x : Logger). Recorded lim (said_more (conn, dir) k whole bytes) (lookup k x.raw))
      (sym written)
      (write_open-Recorded l (conn, dir) k lim whole bytes s rec
        λ j≡k.
          subst (λ m. Fed m whole s) same
            (fed whole (
              subst (λ m. Recorded m whole (lookup (conn, dir) l.raw)) (sym same)
                (subst (λ j. Recorded lim whole (lookup j l.raw)) (sym j≡k) rec))))

pub raw_write-Recorded :
    (o : Outside) (l : Logger) (conn : ℕ) (proto peer : Text) (dir : Dir) (bytes : Bytes) (k : Key)
    (whole : Bytes)
    → ((name : Text) → o.opens name ≡ true)
    → l.opts.raw ≡ true
    → ¬ Stopped (raw_write o l conn proto peer dir bytes)
    → Recorded l.opts.stream_limits whole (lookup k l.raw)
    → Recorded l.opts.stream_limits
        (said_more (conn, dir) k whole bytes)
        (lookup k (raw_write o l conn proto peer dir bytes).raw)
raw_write-Recorded o l conn proto peer dir [] k whole opens on running rec =
    let lim = l.opts.stream_limits in
    subst (λ w. Recorded lim w (lookup k (raw_write o l conn proto peer dir []).raw))
      (sym (said_more_nil (conn, dir) k whole))
      (subst (λ (x : Logger). Recorded lim whole (lookup k x.raw))
        (sym (raw_write_nil o l conn proto peer dir)) rec)
raw_write-Recorded o l conn proto peer dir (b ∷ bs) k whole opens on running rec =
    let lim = l.opts.stream_limits in
    let n = length (b ∷ bs) in
    let writes = raw_write_cons o l conn proto peer dir b bs on in
    let granted : (charge l n).1 ≡ true = charge_granted l n (
      Obeys-running
        (write_granted-Obeys o (charge l n).0 conn proto peer dir (b ∷ bs) (charge l n).1)
        (subst (λ x. ¬ Stopped x) writes running)) in
    subst (λ (x : Logger). Recorded lim (said_more (conn, dir) k whole (b ∷ bs)) (lookup k x.raw))
      (sym writes)
      (write_granted-Recorded o (charge l n).0 conn proto peer dir (b ∷ bs) k lim whole
        (charge l n).1 opens granted (ap (λ (x : Options). x.stream_limits) (charge_opts l n))
        (subst (λ m. Recorded lim whole (lookup k m)) (sym (charge_raw l n)) rec))

other_dir : (conn c : ℕ) → same_key (conn, tx) (c, rx) ≡ false
unfolding same_key
other_dir conn c = ground arith

other_conn : (conn c : ℕ) (d e : Dir) → (conn == c) ≡ false → same_key (conn, d) (c, e) ≡ false
unfolding same_key
other_conn conn c d e h = ground (arith, h)

lookup_closed :
    (conn c : ℕ) (d : Dir) (m : List (Key × Stream))
    → (conn == c) ≡ true
    → lookup (c, d) (remove (conn, tx) (remove (conn, rx) m)) ≡ none
lookup_closed conn c rx m h =
    let same : conn ≡ c = ground (arith, h) in
    lookup-remove_other (conn, tx) (c, rx) (remove (conn, rx) m) (other_dir conn c)
    ∙ subst (λ i. lookup (c, rx) (remove (i, rx) m) ≡ none) (sym same) (lookup-remove (c, rx) m)
lookup_closed conn c tx m h =
    let same : conn ≡ c = ground (arith, h) in
    subst (λ i. lookup (c, tx) (remove (i, tx) (remove (conn, rx) m)) ≡ none) (sym same)
      (lookup-remove (c, tx) (remove (conn, rx) m))

lookup_not_closed :
    (conn c : ℕ) (d : Dir) (m : List (Key × Stream))
    → (conn == c) ≡ false
    → lookup (c, d) (remove (conn, tx) (remove (conn, rx) m)) ≡ lookup (c, d) m
lookup_not_closed conn c d m h =
    lookup-remove_other (conn, tx) (c, d) (remove (conn, rx) m) (other_conn conn c tx d h)
    ∙ lookup-remove_other (conn, rx) (c, d) m (other_conn conn c rx d h)

-- What is left of some recorded bytes when a connection closes.
abbrev pub said_till_close : ℕ → Key → Bytes → Bytes
said_till_close conn k whole = if conn == k.0 then [] else whole

pub closed-Recorded :
    (conn : ℕ) (k : Key) (lim : Limits) (whole : Bytes) (m : List (Key × Stream))
    → Recorded lim whole (lookup k m)
    → Recorded lim
        (said_till_close conn k whole)
        (lookup k (remove (conn, tx) (remove (conn, rx) m)))
closed-Recorded conn (c, d) lim whole m rec = elim (Bool-cases (conn == c)) [
  | inl same ↦
      subst (Recorded lim (said_till_close conn (c, d) whole)) (sym (lookup_closed conn c d m same))
        (if_true (conn == c) _ _ same)
  | inr other ↦
      subst (Recorded lim (said_till_close conn (c, d) whole))
        (sym (lookup_not_closed conn c d m other))
        (subst (λ w. Recorded lim w (lookup (c, d) m)) (sym (if_false (conn == c) _ _ other)) rec)
]

-- The bytes of the messages of a key since its last close or flush, behind those before.
abbrev pub said_by : Key → Bytes → Call → Bytes
said_by k whole (Call.log_data proto name conn peer dir bytes rule) =
    said_more (conn, dir) k whole bytes
said_by k whole (Call.close_conn proto name conn peer why) = said_till_close conn k whole
said_by k whole Call.flush = []
said_by k whole (Call.listening proto name local profile) = whole
said_by k whole (Call.open_conn proto name conn local peer orig) = whole
said_by k whole (Call.warn proto name msg) = whole
said_by k whole (Call.error proto name conn msg) = whole

abbrev pub said : Key → Bytes → List Call → Bytes
said k whole [] = whole
said k whole (c ∷ cs) = said k (said_by k whole c) cs
