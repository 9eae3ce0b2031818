-- ===== src/Stream/Runs.antt =====
-- src/stream.rs: a whole run of writes, the summary, and a stream with no limit.
use kirb_la_snoop.Base.{
  ℕ, ◌+◌, ◌-◌, ◌^◌, ◌<◌, min, Bool, true, ◌&&◌, none, some, List, [], ◌∷◌, ◌++◌, ◌≡◌, refl, sym, ap,
  subst, ◌∙◌, inl, inr, Bytes, Text, length, take, drop, concat, leb, ltb, ◌==◌, if◌then◌else◌,
  add_u64, arith, length-append, length-take, length-drop, append-nil, append_assoc,
  take-append-drop, Bool-cases, length-last,
}
use kirb_la_snoop.Stream.{
  Limits, Stream, Summary, unlimited, create, write_all, fill_head, write_rest, write, finish,
  write_chunks,
}
use kirb_la_snoop.Stream.Capture.{Captures, create-Captures, write-Captures}
use kirb_la_snoop.Stream.Ring.{push_tail_frame}

limits-fill_head : (s : Stream) (chunk : Bytes) → (fill_head s chunk).0.limits ≡ s.limits
unfolding fill_head
limits-fill_head s chunk = ground arith

limits-write_rest : (s : Stream) (rest : Bytes) → (write_rest s rest).0.limits ≡ s.limits
unfolding write_rest
limits-write_rest s [] = refl
limits-write_rest s (b ∷ rest) =
    (push_tail_frame s.limits.tail (record s { truncating = true }) (b ∷ rest)).2

pub limits-write : (s : Stream) (chunk : Bytes) → (write s chunk).0.limits ≡ s.limits
unfolding write
limits-write s chunk =
    let s' = record s { total = add_u64 s.total (length chunk) } in
    ground (
      arith,
      limits-write_rest (fill_head s' chunk).0 (fill_head s' chunk).1,
      limits-fill_head s' chunk,
    )

pub limits-write_chunks : (cs : List Bytes) (s : Stream) → (write_chunks s cs).0.limits ≡ s.limits
unfolding write_chunks
limits-write_chunks [] s = refl
limits-write_chunks (c ∷ cs) s = limits-write_chunks cs (write s c).0 ∙ limits-write s c

-- However the bytes are cut into writes, a limited stream captures all of them, and announces the
-- truncation once if it is past its head limit at the end and was not at the start, else never.
pub write_chunks-Captures :
    (cs : List Bytes) (s : Stream) (whole : Bytes)
    → Captures s whole
    → length whole + length (concat cs) < 2 ^ 64
    → let (s', announced) = write_chunks s cs in
      Captures s' (whole ++ concat cs)
      × (announced ≡ (
          if leb (length whole) s.limits.head
            && ltb s.limits.head (length whole + length (concat cs))
          then 1
          else 0))
unfolding write_chunks
write_chunks-Captures [] s whole c fits =
    (subst (Captures s) (sym (append-nil whole)) c, ground arith)
write_chunks-Captures (chunk ∷ cs) s whole c fits =
    let sum = length-append chunk (concat cs) in
    let (c', now) = write-Captures s whole chunk c (omega (arith, sum)) in
    let (c'', later) =
      write_chunks-Captures cs (write s chunk).0 (whole ++ chunk) c'
        (omega (arith, sum, length-append whole chunk)) in
    (
      subst (Captures (write_chunks (write s chunk).0 cs).0) (append_assoc whole chunk (concat cs))
          c'',
      ground (
        arith,
        now,
        later,
        sum,
        length-append whole chunk,
        ap (λ (l : Limits). l.head) (limits-write s chunk),
      ),
    )

-- What `finish` reports of a whole run, and what is on disk then.
pub record Landed (l : Limits) (whole : Bytes) (s : Stream) (sum : Summary) : Type 0 where
  pub file : Bytes
  pub gap : Bytes
  pub head_is : s.head ≡ some file
  pub splits : whole ≡ file ++ (gap ++ s.tail)
  pub head_counted : (sum.head ≡ length file) × (length file ≡ min l.head (length whole))
  pub tail_counted :
      (sum.tail ≡ length s.tail) × (length s.tail ≡ min l.tail (length whole - l.head))
  pub gap_counted : sum.dropped ≡ length gap
  pub total_counted : sum.total ≡ length whole

Captures-Landed :
    (created : Bool) (s : Stream) (whole : Bytes)
    → Captures s whole
    → Landed s.limits whole s (finish created s).0
unfolding finish
Captures-Landed created s whole c = record {
  file = take h whole;
  gap = take (length past - t) past;
  head_is = c.head_is;
  splits =
      sym (take-append-drop h whole)
      ∙ ap (◌++◌ (take h whole)) (
          sym (take-append-drop (length past - t) past)
          ∙ ap (◌++◌ (take (length past - t) past)) (sym c.tail_is));
  head_counted = omega (arith, c.head_counted, length-take h whole);
  tail_counted =
      (refl, omega (arith, ap length c.tail_is, length-last t past, length-drop h whole));
  gap_counted =
      omega (arith, c.dropped_is, length-take (length past - t) past, length-drop h whole);
  total_counted = c.total_is;
}
  where
    h : ℕ
    h = s.limits.head

    t : ℕ
    t = s.limits.tail

    past : Bytes
    past = drop h whole

-- Whatever is written to a limited stream, in whatever pieces: the head file is the front of it,
-- the ring is the end of it, and exactly the reported number of bytes between them is missing.
pub capture_splits :
    (path : Text) (l : Limits) (cs : List Bytes) (created : Bool)
    → 0 < l.head
    → length (concat cs) < 2 ^ 64
    → let s = (write_chunks (create path l) cs).0 in Landed l (concat cs) s (finish created s).0
capture_splits path l cs created h fits =
    let s = (write_chunks (create path l) cs).0 in
    let start : (create path l).limits ≡ l = unfold create in refl in
    subst (λ (m : Limits). Landed m (concat cs) s (finish created s).0)
      (limits-write_chunks cs (create path l) ∙ start)
      (Captures-Landed created s (concat cs)
        (write_chunks-Captures cs (create path l) [] (create-Captures path l h) (omega arith)).0)

-- The tail file is written exactly when the ring is not empty and the file can be created; it then
-- holds the ring, and the summary names it.
pub finish_tail_file :
    (created : Bool) (s : Stream)
    → let (sum, tail_file) = finish created s in
      (tail_file ≡ (if created && ltb 0 (length s.tail) then some s.tail else none))
      × (sum.tail_path ≡ (if created && ltb 0 (length s.tail) then some s.tail_path else none))
unfolding finish
finish_tail_file created s = (ground arith, ground arith)

-- With no head limit every byte goes to the head file, none is dropped, and nothing is announced.
pub unlimited_keeps_all :
    (cs : List Bytes) (s : Stream) (file : Bytes)
    → s.limits.head ≡ 0
    → s.head ≡ some file
    → let (s', announced) = write_chunks s cs in
      (s'.head ≡ some (file ++ concat cs))
      × (s'.dropped ≡ s.dropped)
      × (s'.tail ≡ s.tail)
      × (announced ≡ 0)
unfolding write_chunks write unlimited
unlimited_keeps_all [] s file h e = (e ∙ ap some (sym (append-nil file)), refl, refl, refl)
unlimited_keeps_all (c ∷ cs) s file h e = elim (Bool-cases (s.limits.head == 0)) [
  | inl kept ↦
      let next =
        unlimited_keeps_all cs
          (record s {
            head = write_all c s.head;
            head_written = add_u64 s.head_written (length c);
            total = add_u64 s.total (length c);
          })
          (file ++ c) h (ap (write_all c) e) in
      rw kept
        (next.0 ∙ ap some (append_assoc file c (concat cs)), next.1, next.2, omega (arith, next.3))
  | inr limited ↦ absurd (ground (arith, limited))
]
