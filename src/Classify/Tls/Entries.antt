-- ===== src/Classify/Tls/Entries.antt =====
-- src/classify.rs: the lists in the extensions of a client hello: `parse_sni`, `parse_alpn`, and the
-- loop over the supported versions.
use kirb_la_snoop.Base.{
  ℕ, ◌+◌, ◌-◌, min, bit_and, not, ◌&&◌, Option, none, some, List, [], ◌∷◌, ◌++◌, Bytes, Text,
  length, get_elem?, get_range, leb, ltb, ◌==◌, if◌then◌else◌, ◌>>=◌, arith,
}
use kirb_la_snoop.Base.Lossy.{from_utf8_lossy}
use kirb_la_snoop.Base.Loop.{Turn, next, done, or_done, Falls, loop}
use kirb_la_snoop.Dns.{be16}

-- The bytes after a position.
abbrev pub remaining : Bytes → ℕ → ℕ
remaining b p = length b - p

-- One turn of the loop of `parse_sni`, at a position.
unfoldable pub sni_turn : Bytes → ℕ → Turn ℕ (Option Text)
sni_turn b p =
    if leb (p + 3) (length b)
    then or_done none (do
      ntype ← get_elem? b p
      nlen ← be16 b (p + 1)
      name ← get_range b (p + 3) (p + 3 + nlen)
      some (if ntype == 0 then done (some (from_utf8_lossy name)) else next (p + 3 + nlen)))
    else done none

pub sni_turn-Falls : (b : Bytes) → Falls (sni_turn b) (remaining b)
unfolding sni_turn
sni_turn-Falls b p p' h = ground arith

-- `parse_sni`
unfoldable pub parse_sni : Bytes → Option Text
parse_sni b = loop (sni_turn b) (remaining b) (sni_turn-Falls b) 2

-- The position, and the names that are read.
pub record Protos : Type 0 where
  pub p : ℕ
  pub out : List Text

-- One turn of the loop of `parse_alpn`; the byte at the position is in range.
unfoldable pub alpn_turn : Bytes → Protos → Turn Protos (List Text)
alpn_turn b s =
    if ltb s.p (length b)
    then or_done s.out (do
      len ← get_elem? b s.p
      proto ← get_range b (s.p + 1) (s.p + 1 + len)
      some (next (record { p = s.p + 1 + len; out = s.out ++ from_utf8_lossy proto ∷ [] })))
    else done s.out

pub alpn_turn-Falls : (b : Bytes) → Falls (alpn_turn b) (λ s. remaining b s.p)
unfolding alpn_turn
alpn_turn-Falls b s s' h = ground arith

-- `parse_alpn`
unfoldable pub parse_alpn : Bytes → List Text
parse_alpn b =
    loop (alpn_turn b) (λ s. remaining b s.p) (alpn_turn-Falls b) (record { p = 2; out = [] })

-- The position, and the highest version so far.
pub record Versions : Type 0 where
  pub i : ℕ
  pub supported_max : ℕ

-- One turn of the loop over the supported versions, before `stop`.
unfoldable pub version_turn : Bytes → ℕ → Versions → Turn Versions (Option ℕ)
version_turn body stop s =
    if leb (s.i + 2) stop
    then or_done none (do
      v ← be16 body s.i
      some (
          next (record {
            i = s.i + 2;
            supported_max =
                if not (bit_and v 0x0f0f == 0x0a0a) && ltb s.supported_max v
                then v
                else s.supported_max;
          })))
    else done (some s.supported_max)

pub version_turn-Falls :
    (body : Bytes) (stop : ℕ) → Falls (version_turn body stop) (λ s. stop - s.i)
unfolding version_turn
version_turn-Falls body stop s s' h = ground arith

-- The highest version of a body, from one.
unfoldable pub highest : Bytes → ℕ → Option ℕ
highest [] supported_max = some supported_max
highest (n ∷ rest) supported_max =
    let body = n ∷ rest in
    let stop = min (1 + n) (length body) in
    loop (version_turn body stop) (λ s. stop - s.i) (version_turn-Falls body stop)
      (record { i = 1; supported_max = supported_max })
