-- ===== src/Stream/Capture.antt =====
-- What a limited stream holds after any writes: the front of all that was written, and its end.
use kirb_la_snoop.Base.{
  ℕ, ◌+◌, ◌-◌, ◌^◌, ◌≤◌, ◌<◌, min, true, not, ◌&&◌, some, [], ◌∷◌, ◌++◌, ◌≡◌, refl, sym, ap, ◌∙◌,
  inl, inr, Bytes, Text, length, take, drop, last, leb, ltb, ◌==◌, add_u64, arith, length-append,
  length-drop, take-append, drop-append, take_eq, take-min, drop-min, drop_eq, take_all, take_zero,
  drop_all, drop_zero, append-nil, Bool-cases,
}
use kirb_la_snoop.Stream.{
  Limits, Stream, unlimited, create, write_all, fill_head, write_rest, write,
}
use kirb_la_snoop.Stream.Ring.{push_tail-tail, push_tail-dropped, push_tail_frame}

-- The head holds the first bytes of `whole`, the ring its last ones past the head, and the counters
-- add up.
pub record Captures (s : Stream) (whole : Bytes) : Type 0 where
  pub limited : 0 < s.limits.head
  pub fits : length whole < 2 ^ 64
  pub head_is : s.head ≡ some (take s.limits.head whole)
  pub head_counted : s.head_written ≡ min s.limits.head (length whole)
  pub tail_is : s.tail ≡ last s.limits.tail (drop s.limits.head whole)
  pub total_is : s.total ≡ length whole
  pub dropped_is : s.dropped ≡ length whole - s.limits.head - s.limits.tail
  pub truncating_is : s.truncating ≡ ltb s.limits.head (length whole)

pub create-Captures : (path : Text) (l : Limits) → 0 < l.head → Captures (create path l) []
unfolding create
create-Captures path l h = record {
  limited = h;
  fits = omega arith;
  head_is = ap some (sym (take_all l.head [] (omega arith)));
  head_counted = omega arith;
  tail_is = sym (
      ap (last l.tail) (drop_all l.head [] (omega arith)) ∙ drop_all (0 - l.tail) [] (omega arith));
  total_is = refl;
  dropped_is = omega arith;
  truncating_is = ground arith;
}

-- Between the two parts of `write`: the head has taken its share, `rest` is left for the ring.
record Filled (s : Stream) (whole kept rest : Bytes) : Type 0 where
  limited : 0 < s.limits.head
  fits : length whole < 2 ^ 64
  head_is : s.head ≡ some (take s.limits.head whole)
  head_counted : s.head_written ≡ min s.limits.head (length whole)
  total_is : s.total ≡ length whole
  past_head : drop s.limits.head whole ≡ kept ++ rest
  tail_is : s.tail ≡ last s.limits.tail kept
  dropped_is : s.dropped ≡ length kept - s.limits.tail
  truncating_is : s.truncating ≡ ltb 0 (length kept)

length_past_head :
    {s : Stream} {whole kept rest : Bytes}
    → Filled s whole kept rest
    → length whole - s.limits.head ≡ length kept + length rest
length_past_head {s} {whole} {kept} {rest} f =
    omega (arith, length-drop s.limits.head whole, ap length f.past_head, length-append kept rest)

write_rest-Captures :
    (s : Stream) (whole kept rest : Bytes)
    → Filled s whole kept rest
    → Captures (write_rest s rest).0 whole
      × ((write_rest s rest).1 ≡ (ltb 0 (length rest) && not (ltb 0 (length kept))))
unfolding write_rest
write_rest-Captures s whole kept [] f = (
  record {
    limited = f.limited;
    fits = f.fits;
    head_is = f.head_is;
    head_counted = f.head_counted;
    tail_is = f.tail_is ∙ ap (last s.limits.tail) (sym (f.past_head ∙ append-nil kept));
    total_is = f.total_is;
    dropped_is = omega (arith, length_past_head f, f.dropped_is);
    truncating_is = ground (arith, length_past_head f, f.truncating_is);
  },
  refl,
)
write_rest-Captures s whole kept (b ∷ rest) f =
    let pushed = record s { truncating = true } in
    let same = push_tail_frame s.limits.tail pushed (b ∷ rest) in
    (
      record {
        limited = omega (arith, f.limited, ap (λ (l : Limits). l.head) same.2);
        fits = f.fits;
        head_is = same.0 ∙ f.head_is ∙ ap (λ (l : Limits). some (take l.head whole)) (sym same.2);
        head_counted = omega (arith, same.1, f.head_counted, ap (λ (l : Limits). l.head) same.2);
        tail_is =
            push_tail-tail s.limits.tail pushed kept (b ∷ rest) f.tail_is
            ∙ ap (last s.limits.tail) (sym f.past_head)
            ∙ ap (λ (l : Limits). last l.tail (drop l.head whole)) (sym same.2);
        total_is = same.3 ∙ f.total_is;
        dropped_is = omega (
          arith,
          push_tail-dropped s.limits.tail pushed kept (b ∷ rest) f.tail_is f.dropped_is
              (omega (arith, length_past_head f, f.fits)),
          length_past_head f,
          ap (λ (l : Limits). l.head) same.2,
          ap (λ (l : Limits). l.tail) same.2,
        );
        truncating_is =
            ground (arith, same.4, length_past_head f, ap (λ (l : Limits). l.head) same.2);
      },
      ground (arith, f.truncating_is),
    )

-- The head file after its share of a chunk, and what is left over.
fill_head_lem :
    (s : Stream) (whole chunk : Bytes)
    → s.head ≡ some (take s.limits.head whole)
    → s.head_written ≡ min s.limits.head (length whole)
    → length whole + length chunk < 2 ^ 64
    → fill_head s chunk ≡ (
      record s {
        head = some (take s.limits.head (whole ++ chunk));
        head_written = min s.limits.head (length whole + length chunk);
      },
      drop (s.limits.head - length whole) chunk,
    )
unfolding fill_head
fill_head_lem s whole chunk e counted fits = elim (Bool-cases (ltb 0 (h - s.head_written))) [
  | inl room ↦ rw room (λ i. (
    record s {
      head = (ap (write_all (take n chunk)) e ∙ ap some filled) i;
      head_written = count i;
    },
    left i,
  ))
  | inr full ↦ rw full (λ i. (
    record s {
      head = (e ∙ ap some (kept (ground (arith, full)))) i;
      head_written =
          (let q : s.head_written ≡ min h (length whole + length chunk) = ground (arith, full) in q)
            i;
    },
    sym (drop_zero (h - length whole) chunk (ground (arith, full))) i,
  ))
]
  where
    h : ℕ
    h = s.limits.head

    n : ℕ
    n = min (h - s.head_written) (length chunk)

    filled : take h whole ++ take n chunk ≡ take h (whole ++ chunk)
    filled =
        ap (◌++◌ (take h whole)) (
          take-min (h - s.head_written) chunk
          ∙ take_eq {m = h - s.head_written} {n = h - length whole} chunk (omega (arith, counted)))
        ∙ sym (take-append h whole chunk)

    count : add_u64 s.head_written n ≡ min h (length whole + length chunk)
    count = omega arith

    left : drop n chunk ≡ drop (h - length whole) chunk
    left =
        drop-min (h - s.head_written) chunk
        ∙ drop_eq {m = h - s.head_written} {n = h - length whole} chunk (omega (arith, counted))

    kept : h ≤ length whole → take h whole ≡ take h (whole ++ chunk)
    kept le =
        sym (append-nil (take h whole))
        ∙ ap (◌++◌ (take h whole)) (sym (take_zero (h - length whole) chunk (omega arith)))
        ∙ sym (take-append h whole chunk)

write-eq-write_rest :
    (s : Stream) (whole chunk : Bytes)
    → Captures s whole
    → length whole + length chunk < 2 ^ 64
    → write s chunk
      ≡ write_rest
          (record s {
            head = some (take s.limits.head (whole ++ chunk));
            head_written = min s.limits.head (length whole + length chunk);
            total = add_u64 s.total (length chunk);
          })
          (drop (s.limits.head - length whole) chunk)
unfolding write unlimited
write-eq-write_rest s whole chunk c fits = elim (Bool-cases (s.limits.head == 0)) [
  | inl none_kept ↦ absurd (ground (arith, c.limited))
  | inr kept ↦ rw kept (
      ap (λ (p : Stream × Bytes). write_rest p.0 p.1)
        (fill_head_lem (record s { total = add_u64 s.total (length chunk) }) whole chunk c.head_is
          c.head_counted fits))
]

-- A write to a limited stream keeps it a capture, now of the chunk too; it announces exactly
-- the truncation that it begins: the stream was within the head limit before, and is past it now.
pub write-Captures :
    (s : Stream) (whole chunk : Bytes)
    → Captures s whole
    → length whole + length chunk < 2 ^ 64
    → let (s', announced) = write s chunk in
      Captures s' (whole ++ chunk)
      × (announced
          ≡ (leb (length whole) s.limits.head && ltb s.limits.head (length whole + length chunk)))
write-Captures s whole chunk c fits = rw (write-eq-write_rest s whole chunk c fits) (
    let h = s.limits.head in
    let rest = drop (h - length whole) chunk in
    let (captured, announced) =
      write_rest-Captures
        (record s {
          head = some (take h (whole ++ chunk));
          head_written = min h (length whole + length chunk);
          total = add_u64 s.total (length chunk);
        })
        (whole ++ chunk) (drop h whole) rest
        (record {
          limited = c.limited;
          fits = omega (arith, length-append whole chunk);
          head_is = refl;
          head_counted = omega (arith, length-append whole chunk);
          total_is = omega (arith, c.total_is, length-append whole chunk);
          past_head = drop-append h whole chunk;
          tail_is = c.tail_is;
          dropped_is = omega (arith, c.dropped_is, length-drop h whole);
          truncating_is = ground (arith, c.truncating_is, length-drop h whole);
        }) in
    (
      captured,
      ground (arith, announced, length-drop h whole, length-drop (h - length whole) chunk),
    ))
