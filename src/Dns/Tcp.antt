-- ===== src/Dns/Tcp.antt =====
-- src/dns.rs: `reply_tcp`, the frame of dns over tcp.
use kirb_la_snoop.Base.{
  ℕ, suc, ◌+◌, ◌-◌, ◌^◌, ◌<◌, min, some, ◌++◌, ◌≡◌, refl, ap, ◌∙◌, Bytes, IsByte, IsBytes, length,
  take, get_range, u16_be_bytes, arith, get_range-within, take_eq, take-min, Option-cases, inl, inr,
  All-take,
}
use kirb_la_snoop.Dns.{Answer, be16, reply, reply_tcp}
use kirb_la_snoop.Dns.Be16.{be16-drop}
use kirb_la_snoop.Dns.Layout.{length-reply}
use mathlib.Core.Option

-- A message behind its length.
abbrev pub frame : Bytes → Bytes
frame r = u16_be_bytes (length r) ++ r

-- A frame that declares `n` bytes is answered by the framed reply to those of its bytes, up to
-- `n`, that have arrived; the length in front of that reply is exact.
pub reply_tcp_lem :
    (n : ℕ) (body : Bytes) (ans : Answer)
    → n < 2 ^ 16
    → IsBytes body
    → (reply_tcp (u16_be_bytes n ++ body) ans ≡ Option.map frame (reply (take n body) ans))
      × ((r : Bytes) → reply (take n body) ans ≡ some r → be16 (frame r) 0 ≡ some (length r))
unfolding reply_tcp
reply_tcp_lem n body ans h bytes = (
  rw (be16-drop (u16_be_bytes n ++ body) body 0 n refl h) (
      rw ranged (elim (Option-cases (reply (take n body) ans)) [
        | inl quiet ↦ rw quiet refl
        | inr (r, e) ↦ rw e refl
      ])),
  λ r e.
      be16-drop (frame r) r 0 (length r) refl
        (omega (arith, (length-reply (take n body) ans r (All-take IsByte n body bytes) e).1)),
)
  where
    ranged :
        get_range (u16_be_bytes n ++ body) 2 (2 + min n (length (u16_be_bytes n ++ body) - 2))
        ≡ some (take n body)
    ranged =
        get_range-within (u16_be_bytes n ++ body) 2
          (2 + min n (length (u16_be_bytes n ++ body) - 2)) (omega arith) (omega arith)
        ∙ ap some (
            take_eq {m = 2 + min n (suc (suc (length body)) - 2) - 2} {n = min n (length body)} body
              (omega arith)
            ∙ take-min n body)
