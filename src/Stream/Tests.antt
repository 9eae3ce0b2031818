-- ===== src/Stream/Tests.antt =====
-- src/stream.rs: the runs of its tests, and the theorems at concrete inputs.
use kirb_la_snoop.Base.{
  ◌*◌, ◌-◌, ◌^◌, ◌<◌, ◌≤◌, ok, err, true, false, some, List, [], ◌∷◌, ◌≡◌, refl, Bytes, codes,
  arith, concat,
}
use kirb_la_snoop.Stream.{Limits, Stream, create, write, finish, write_chunks}
use kirb_la_snoop.Base.Strings.{trim, is_whitespace, split_last}
use kirb_la_snoop.Base.Decimal.{decimal, parse_u64}
use kirb_la_snoop.Stream.Human.{human}
use kirb_la_snoop.Stream.Size.{parse_size, empty_size, bad_size}
use kirb_la_snoop.Stream.RoundTrip.{parse_size-human}
use kirb_la_snoop.Stream.Capture.{Captures, create-Captures}
use kirb_la_snoop.Stream.Runs.{Landed, capture_splits}

abbrev small : Limits
small = record { head = 4; tail = 3 }

abbrev pieces : List Bytes
pieces = (1 ∷ 2 ∷ 3 ∷ []) ∷ (4 ∷ 5 ∷ []) ∷ (6 ∷ 7 ∷ 8 ∷ 9 ∷ []) ∷ (10 ∷ []) ∷ []

abbrev fresh : Stream
fresh = record {
  head = some [];
  tail_path = codes "t.tail.bin";
  head_written = 0;
  tail = [];
  limits = small;
  total = 0;
  dropped = 0;
  truncating = false;
}

tail_of_pieces : (write_chunks fresh pieces).0.tail ≡ 8 ∷ 9 ∷ 10 ∷ []
unfolding write_chunks write
tail_of_pieces = refl

dropped_of_pieces : (write_chunks fresh pieces).0.dropped ≡ 3
unfolding write_chunks write
dropped_of_pieces = refl

announced_of_pieces : (write_chunks fresh pieces).1 ≡ 1
unfolding write_chunks write
announced_of_pieces = refl

fresh-Captures : Captures fresh []
unfolding create
fresh-Captures = create-Captures (codes "t.tail.bin") small (omega arith)

capture_splits_example :
    Landed small
      (concat pieces)
      (write_chunks (create [] small) pieces).0
      (finish true (write_chunks (create [] small) pieces).0).0
capture_splits_example = capture_splits [] small pieces true (omega arith) (omega arith)

abbrev unbounded : Stream
unbounded = record fresh { limits = record { head = 0; tail = 3 } }

human_sizes :
    (human 0 ≡ codes "0B")
    × (human 512 ≡ codes "512B")
    × (human 1536 ≡ codes "1.5K")
    × (human (2 ^ 20) ≡ codes "1M")
unfolding human decimal
human_sizes = (refl, refl, refl, refl)

parsed_sizes :
    (parse_size (codes "4096") ≡ ok 4096)
    × (parse_size (codes " 8M") ≡ ok (8 * 2 ^ 20))
    × (parse_size (codes "512k") ≡ ok (512 * 2 ^ 10))
    × (parse_size (codes "1GB") ≡ ok (2 ^ 30))
    × (parse_size (codes "") ≡ err empty_size)
    × (parse_size (codes "banana") ≡ err (bad_size (codes "banana")))
unfolding parse_size trim is_whitespace split_last parse_u64
parsed_sizes = (refl, refl, refl, refl, refl, refl)

parse_size-human_example :
    (parse_size (human (3 * 2 ^ 20)) ≡ ok (3 * 2 ^ 20))
    × (3 * 2 ^ 20 ≤ 3 * 2 ^ 20)
    × ((3 * 2 ^ 20 - 3 * 2 ^ 20) * 10 < 2 ^ 20)
parse_size-human_example = parse_size-human (3 * 2 ^ 20) (omega arith) refl
