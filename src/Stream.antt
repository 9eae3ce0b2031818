-- ===== src/Stream.antt =====
-- src/stream.rs: the capture file of one direction of one connection. It keeps the first bytes and
-- the last bytes of a stream, and drops the middle. A writer is modelled by the bytes that it has
-- been handed, in order: the code ignores the result of every write.
pub mod Capture
pub mod Ring
pub mod RoundTrip
pub mod Runs
pub mod Human
pub mod Size
mod Tests
use kirb_la_snoop.Base.{
  ℕ, ◌+◌, ◌-◌, ◌<◌, min, Bool, true, false, not, ◌&&◌, Option, none, some, List, [], ◌∷◌, ◌++◌,
  Bytes, Text, length, take, drop, last, leb, ltb, ◌==◌, if◌then◌else◌, add_u64,
}
use mathlib.Core.Option

-- `Limits`: `head` 0 is no limit, `tail` 0 is no tail file.
pub record Limits : Type 0 where
  pub head : ℕ
  pub tail : ℕ

unfoldable pub unlimited : Limits → Bool
unlimited l = l.head == 0

-- `Stream`; `head` holds the bytes that the buffered writer was handed.
pub record Stream : Type 0 where
  pub head : Option Bytes
  pub tail_path : Text
  pub head_written : ℕ
  pub tail : Bytes
  pub limits : Limits
  pub total : ℕ
  pub dropped : ℕ
  pub truncating : Bool

pub record Summary : Type 0 where
  pub total : ℕ
  pub head : ℕ
  pub tail : ℕ
  pub dropped : ℕ
  pub tail_path : Option Text

-- `Stream::create`, once the head file is open.
unfoldable pub create : Text → Limits → Stream
create path limits = record {
  head = some [];
  tail_path = path;
  head_written = 0;
  tail = [];
  limits = limits;
  total = 0;
  dropped = 0;
  truncating = false;
}

-- `if let Some(w) = self.head.as_mut() { let _ = w.write_all(bytes); }`
abbrev pub write_all : Bytes → Option Bytes → Option Bytes
write_all bytes w = Option.map (λ (file : Bytes). file ++ bytes) w

-- The branch of a limited stream that fills the head; with the bytes that are left over.
unfoldable pub fill_head : Stream → Bytes → Stream × Bytes
fill_head s rest =
    let room = s.limits.head - s.head_written in
    let n = min room (length rest) in
    if ltb 0 room
    then (
      record s { head = write_all (take n rest) s.head; head_written = add_u64 s.head_written n },
      drop n rest,
    )
    else (s, rest)

-- The tail ring, given its capacity, on bytes that the head has no room for.
unfoldable pub push_tail : ℕ → Stream → Bytes → Stream
push_tail cap s rest =
    if cap == 0
    then record s { dropped = add_u64 s.dropped (length rest) }
    else if leb cap (length rest)
    then record s {
      dropped = add_u64 s.dropped (add_u64 (length s.tail) (length rest - cap));
      tail = last cap rest;
    }
    else (let overflow = length s.tail + length rest - cap in
        record s { dropped = add_u64 s.dropped overflow; tail = drop overflow s.tail ++ rest })

-- What `write` does with the bytes past the head.
unfoldable pub write_rest : Stream → Bytes → Stream × Bool
unfolding push_tail
write_rest s [] = (s, false)
write_rest s (b ∷ rest) =
    (push_tail s.limits.tail (record s { truncating = true }) (b ∷ rest), not s.truncating)

-- `Stream::write`
unfoldable pub write : Stream → Bytes → Stream × Bool
unfolding unlimited fill_head write_rest
write s0 chunk =
    let s = record s0 { total = add_u64 s0.total (length chunk) } in
    if unlimited s.limits
    then (
      record s {
        head = write_all chunk s.head;
        head_written = add_u64 s.head_written (length chunk);
      },
      false,
    )
    else (let (filled, rest) = fill_head s chunk in write_rest filled rest)

-- `Stream::finish`, given whether `File::create` opens the tail file; with the tail file's bytes.
unfoldable pub finish : Bool → Stream → Summary × Option Bytes
finish created s =
    let landed = not (length s.tail == 0) && created in
    (
      record {
        total = s.total;
        head = s.head_written;
        tail = length s.tail;
        dropped = s.dropped;
        tail_path = if landed then some s.tail_path else none;
      },
      if landed then some s.tail else none,
    )

-- The writes of a stream, in order, and how many of them announced a truncation.
unfoldable pub write_chunks : Stream → List Bytes → Stream × ℕ
write_chunks s [] = (s, 0)
write_chunks s (c ∷ cs) =
    let (s', announced) = write s c in
    let (s'', n) = write_chunks s' cs in (s'', (if announced then 1 else 0) + n)
