-- ===== src/Log/Raw.antt =====
-- src/log.rs: what each call does to the raw streams.
use kirb_la_snoop.Base.{
  ℕ, Bool, true, false, not, ◌||◌, Option, none, some, List, [], ◌∷◌, ◌++◌, ◌≡◌, refl, sym, ap,
  subst, ◌∙◌, Bytes, Text, codes, length, concat, ◌==◌, if◌then◌else◌, add_u64, arith, Bool-cases,
  inl, inr, append-nil, append_assoc,
}
use kirb_la_snoop.Stream.{Stream, Limits, Summary, create, write, finish, write_chunks}
use kirb_la_snoop.Log.State.{
  Dir, rx, tx, Event, Key, Logger, Outside, charge, append_line, emit_line, emit, lookup, insert,
  remove, same_key, open_stream, write_open, raw_write, write_granted, stem,
}
use kirb_la_snoop.Log.Events
use kirb_la_snoop.Log.Budget.{Stopped}
use kirb_la_snoop.Log.Keys.{same_key→eq, lookup-insert, lookup-insert_other}

-- A stream that was fed some bytes from its start, in some pieces.
pub record Fed (lim : Limits) (whole : Bytes) (s : Stream) : Type 0 where
  pub path : Text
  pub pieces : List Bytes
  pub stream_is : s ≡ (write_chunks (create path lim) pieces).0
  pub whole_is : whole ≡ concat pieces

-- Where nothing is open, nothing has been written.
abbrev pub Recorded : Limits → Bytes → Option Stream → Type 0
Recorded lim whole none = whole ≡ []
Recorded lim whole (some s) = Fed lim whole s

create-Fed : (lim : Limits) (path : Text) → Fed lim [] (create path lim)
create-Fed lim path = record {
  path = path;
  pieces = [];
  stream_is = unfold write_chunks in refl;
  whole_is = refl;
}

write_chunks-snoc :
    (s : Stream) (cs : List Bytes) (c : Bytes)
    → (write_chunks s (cs ++ c ∷ [])).0 ≡ (write (write_chunks s cs).0 c).0
unfolding write_chunks
write_chunks-snoc s [] c = refl
write_chunks-snoc s (d ∷ cs) c = write_chunks-snoc (write s d).0 cs c

concat-snoc : (cs : List Bytes) (c : Bytes) → concat (cs ++ c ∷ []) ≡ concat cs ++ c
concat-snoc [] c = append-nil c
concat-snoc (d ∷ cs) c = ap (◌++◌ d) (concat-snoc cs c) ∙ sym (append_assoc d (concat cs) c)

write-Fed :
    (lim : Limits) (whole bytes : Bytes) (s : Stream)
    → Fed lim whole s
    → Fed lim (whole ++ bytes) (write s bytes).0
write-Fed lim whole bytes s f = record {
  path = f.path;
  pieces = f.pieces ++ bytes ∷ [];
  stream_is =
      ap (λ t. (write t bytes).0) f.stream_is
      ∙ sym (write_chunks-snoc (create f.path lim) f.pieces bytes);
  whole_is = ap (λ w. w ++ bytes) f.whole_is ∙ sym (concat-snoc f.pieces bytes);
}

pub charge_raw : (l : Logger) (n : ℕ) → (charge l n).0.raw ≡ l.raw
unfolding charge
charge_raw l n = ground arith

-- What is refused stops the logger.
pub charge_refused : (l : Logger) (n : ℕ) → (charge l n).1 ≡ false → Stopped (charge l n).0
unfolding charge
charge_refused l n h = (λ e. ground (arith, e, h), ground (arith, h))

append_line_raw : (l : Logger) (b : Bool) (line : Bytes) → (append_line (l, b) line).raw ≡ l.raw
append_line_raw l true line = refl
append_line_raw l false line = refl

emit_line_raw : (l : Logger) (line : Option Bytes) → (emit_line l line).raw ≡ l.raw
emit_line_raw l none = refl
emit_line_raw l (some line) =
    let n = add_u64 (length line) 1 in
    append_line_raw (charge l n).0 (charge l n).1 line ∙ charge_raw l n

if_raw :
    (b : Bool) (l x y : Logger) → x.raw ≡ l.raw → y.raw ≡ l.raw → (if b then x else y).raw ≡ l.raw
if_raw true l x y p q = p
if_raw false l x y p q = q

pub emit_raw : (o : Outside) (l : Logger) (ev : Event) → (emit o l ev).raw ≡ l.raw
unfolding emit
emit_raw o l ev = if_raw (not l.opts.jsonl) l _ _ refl (emit_line_raw l (o.to_json ev))

report_gap_raw :
    (o : Outside) (l : Logger) (conn : ℕ) (proto name peer : Text) (dir : Dir) (sum : Summary)
    → (Events.report_gap o l conn proto name peer dir sum).raw ≡ l.raw
report_gap_raw o l conn proto name peer dir sum =
    if_raw (sum.dropped == 0) l _ _ refl (emit_raw o l _)

report_raw :
    (o : Outside) (l : Logger) (conn : ℕ) (proto name peer : Text) (dir : Dir) (s : Option Stream)
    → (Events.report o l conn proto name peer dir s).raw ≡ l.raw
report_raw o l conn proto name peer dir none = refl
report_raw o l conn proto name peer dir (some s) =
    report_gap_raw o l conn proto name peer dir (finish (o.opens s.tail_path) s).0

else_branch {ℓ} : {A : Type ℓ} (b : Bool) (x y : A) → b ≡ true → (if not b then x else y) ≡ y
else_branch true x y h = refl
else_branch false x y h = absurd (cc)

-- A close takes both streams of its connection out of the map.
pub close_raw_raw :
    (o : Outside) (l : Logger) (conn : ℕ) (proto name peer : Text)
    → l.opts.raw ≡ true
    → (Events.close_raw o l conn proto name peer).raw ≡ remove (conn, tx) (remove (conn, rx) l.raw)
unfolding Events.close_raw
close_raw_raw o l conn proto name peer on =
    ap (λ (x : Logger). x.raw) (else_branch l.opts.raw _ _ on)
    ∙ report_raw o _ conn proto name peer tx (lookup (conn, tx) (remove (conn, rx) l.raw))
    ∙ report_raw o _ conn proto name peer rx (lookup (conn, rx) l.raw)

pub if_true {ℓ} : {A : Type ℓ} (b : Bool) (x y : A) → b ≡ true → (if b then x else y) ≡ x
if_true true x y h = refl
if_true false x y h = absurd (cc)

pub if_false {ℓ} : {A : Type ℓ} (b : Bool) (x y : A) → b ≡ false → (if b then x else y) ≡ y
if_false true x y h = absurd (cc)
if_false false x y h = refl

-- The stream that a message is written to: the open one or a new one, fed what was recorded.
pub open_stream-Fed :
    (o : Outside) (l : Logger) (conn : ℕ) (proto peer : Text) (dir : Dir)
    → ((name : Text) → o.opens name ≡ true)
    → (s : Stream) × (open_stream o l conn proto peer dir ≡ some s)
      × ((whole : Bytes)
          → Recorded l.opts.stream_limits whole (lookup (conn, dir) l.raw)
          → Fed l.opts.stream_limits whole s)
unfolding open_stream
open_stream-Fed o l conn proto peer dir opens = from (lookup (conn, dir) l.raw)
  where
    lim : Limits
    lim = l.opts.stream_limits

    path : Text
    path = stem conn proto peer dir ++ codes ".tail.bin"

    from :
        (was : Option Stream)
        → (s : Stream) × (elim was [
          | some s ↦ some s
          | none ↦
              if o.opens (stem conn proto peer dir ++ codes ".bin")
              then some (create path lim)
              else none
        ]
            ≡ some s)
          × ((whole : Bytes) → Recorded lim whole was → Fed lim whole s)
    from none = (
      create path lim,
      rw (opens (stem conn proto peer dir ++ codes ".bin")) refl,
      λ whole empty. subst (λ w. Fed lim w (create path lim)) (sym empty) (create-Fed lim path),
    )
    from (some s) = (s, refl, λ whole fed. fed)

-- What a logger has recorded, behind one more message of some key.
abbrev pub said_more : Key → Key → Bytes → Bytes → Bytes
said_more j k whole bytes = if same_key j k then whole ++ bytes else whole

pub write_open-Recorded :
    (l : Logger) (j k : Key) (lim : Limits) (whole bytes : Bytes) (s : Stream)
    → Recorded lim whole (lookup k l.raw)
    → ((j ≡ k) → Fed lim whole s)
    → Recorded lim (said_more j k whole bytes) (lookup k (write_open l j bytes (some s)).raw)
write_open-Recorded l j k lim whole bytes s rec fed = elim (Bool-cases (same_key j k)) [
  | inl same ↦
      let j≡k = same_key→eq j k same in
      let found : lookup k (insert j (write s bytes).0 l.raw) ≡ some (write s bytes).0 =
        ap (λ i. lookup k (insert i (write s bytes).0 l.raw)) j≡k
        ∙ lookup-insert k (write s bytes).0 l.raw in
      subst (λ w. Recorded lim w (lookup k (insert j (write s bytes).0 l.raw)))
        (sym (if_true (same_key j k) _ _ same))
        (subst (Recorded lim (whole ++ bytes)) (sym found) (write-Fed lim whole bytes s (fed j≡k)))
  | inr other ↦
      subst (λ w. Recorded lim w (lookup k (insert j (write s bytes).0 l.raw)))
        (sym (if_false (same_key j k) _ _ other))
        (subst (Recorded lim whole) (sym (lookup-insert_other j k (write s bytes).0 l.raw other))
          rec)
]

pub charge_opts : (l : Logger) (n : ℕ) → (charge l n).0.opts ≡ l.opts
unfolding charge
charge_opts l n = ground arith

-- A message that is not empty is charged, and then written.
pub raw_write_cons :
    (o : Outside) (l : Logger) (conn : ℕ) (proto peer : Text) (dir : Dir) (b : ℕ) (bs : Bytes)
    → l.opts.raw ≡ true
    → raw_write o l conn proto peer dir (b ∷ bs)
      ≡ write_granted o conn proto peer dir (b ∷ bs) (charge l (length (b ∷ bs)))
unfolding raw_write
raw_write_cons o l conn proto peer dir b bs on =
    if_false (not l.opts.raw || length (b ∷ bs) == 0) _ _ (ground (arith, on))

pub raw_write_nil :
    (o : Outside) (l : Logger) (conn : ℕ) (proto peer : Text) (dir : Dir)
    → raw_write o l conn proto peer dir [] ≡ l
unfolding raw_write
raw_write_nil o l conn proto peer dir =
    if_true (not l.opts.raw || length {A = ℕ} [] == 0) _ _ (ground arith)
