-- ===== src/Stream/Ring.antt =====
-- src/stream.rs: the ring of the last bytes, and splitting a chunk between the head and the ring.
use kirb_la_snoop.Base.{
  ℕ, ◌+◌, ◌-◌, ◌^◌, ◌≤◌, ◌<◌, ◌++◌, ◌≡◌, sym, ap, ap₂, ◌∙◌, inl, inr, Bytes, length, drop, last,
  leb, ◌==◌, arith, length-append, drop-append, drop-drop, drop_eq, drop_all, drop_zero,
  length-last, Bool-cases,
}
use kirb_la_snoop.Stream.{Stream, push_tail}

-- The last `t` bytes, as the ring computes them.
pub last-append_long : (t : ℕ) (xs ys : Bytes) → t ≤ length ys → last t (xs ++ ys) ≡ last t ys
last-append_long t xs ys h =
    drop-append (length (xs ++ ys) - t) xs ys
    ∙ ap₂ ◌++◌ (drop_all (length (xs ++ ys) - t) xs (omega (arith, length-append xs ys))) (
        drop_eq {m = length (xs ++ ys) - t - length xs} {n = length ys - t} ys
          (omega (arith, length-append xs ys)))

pub last-append_short :
    (t : ℕ) (xs ys : Bytes)
    → length ys < t
    → last t (xs ++ ys) ≡ drop (length (last t xs) + length ys - t) (last t xs) ++ ys
last-append_short t xs ys h =
    drop-append (length (xs ++ ys) - t) xs ys
    ∙ ap₂ ◌++◌
        (drop_eq {m = length (xs ++ ys) - t}
            {n = length xs - t + (length (last t xs) + length ys - t)} xs
            (omega (arith, length-append xs ys, length-last t xs))
          ∙ sym (drop-drop (length (last t xs) + length ys - t) (length xs - t) xs))
        (drop_zero (length (xs ++ ys) - t - length xs) ys (omega (arith, length-append xs ys)))

pub push_tail-tail :
    (cap : ℕ) (s : Stream) (kept rest : Bytes)
    → s.tail ≡ last cap kept
    → (push_tail cap s rest).tail ≡ last cap (kept ++ rest)
unfolding push_tail
push_tail-tail cap s kept rest e = elim (Bool-cases (cap == 0)) [
  | inl none_kept ↦ rw none_kept (
      e
      ∙ drop_all (length kept - cap) kept (ground arith)
      ∙ sym (drop_all (length (kept ++ rest) - cap) (kept ++ rest) (ground arith)))
  | inr some_kept ↦ rw some_kept (elim (Bool-cases (leb cap (length rest))) [
    | inl long ↦ rw long (sym (last-append_long cap kept rest (ground arith)))
    | inr short ↦ rw (short, e) (sym (last-append_short cap kept rest (ground arith)))
  ])
]

-- The ring's other effect: what falls out of it is counted.
pub push_tail-dropped :
    (cap : ℕ) (s : Stream) (kept rest : Bytes)
    → s.tail ≡ last cap kept
    → s.dropped ≡ length kept - cap
    → length kept + length rest < 2 ^ 64
    → (push_tail cap s rest).dropped ≡ length kept + length rest - cap
unfolding push_tail
push_tail-dropped cap s kept rest e d fits = ground (arith, ap length e, length-last cap kept)

pub push_tail_frame :
    (cap : ℕ) (s : Stream) (rest : Bytes)
    → let s' = push_tail cap s rest in
      (s'.head ≡ s.head)
      × (s'.head_written ≡ s.head_written)
      × (s'.limits ≡ s.limits)
      × (s'.total ≡ s.total)
      × (s'.truncating ≡ s.truncating)
      × (s'.tail_path ≡ s.tail_path)
unfolding push_tail
push_tail_frame cap s rest = ground arith
