-- ===== src/Sockopt/Name.antt =====
-- src/sockopt.rs: the name that the kernel is given.
use kirb_la_snoop.Base.{
  ℕ, zero, suc, ◌+◌, ◌-◌, ◌<◌, Option, none, some, ◌++◌, ◌≡◌, ◌↔◌, refl, sym, ap, ◌∙◌, Bytes, Text,
  length, drop, replicate, ok, arith, length-append, length-replicate,
}
use kirb_la_snoop.Base.Utf8.{as_bytes}
use kirb_la_snoop.Sockopt.{Setsockopt, name_buffer, call_result, bind_to_device}

-- The buffer of a name: 16 bytes, the name and behind it at least one zero.
pub record IsBuffer (name buffer : Bytes) : Type 0 where
  pub padding : ℕ
  pub buffer_is : buffer ≡ name ++ replicate (suc padding) 0
  pub is_full : length buffer ≡ 16

drop-replicate : (n m : ℕ) → drop n (replicate {A = ℕ} m 0) ≡ replicate (m - n) 0
drop-replicate zero m = ap (λ k. replicate k 0) (omega arith)
drop-replicate (suc n) zero = ap (λ k. replicate k 0) {x = 0} (omega arith)
drop-replicate (suc n) (suc m) = drop-replicate n m ∙ ap (λ k. replicate k 0) (omega arith)

-- A buffer is the one that the program makes.
buffer_of_name :
    (name : Bytes) (padding : ℕ)
    → length name + suc padding ≡ 16
    → name_buffer name ≡ name ++ replicate (suc padding) 0
unfolding name_buffer
buffer_of_name name padding h =
    ap (◌++◌ name)
      (drop-replicate (length name) 16 ∙ ap (λ k. replicate k 0) {y = suc padding} (omega arith))

name_buffer-IsBuffer : (name : Bytes) → length name < 16 → IsBuffer name (name_buffer name)
name_buffer-IsBuffer name h =
    let same = buffer_of_name name (15 - length name) (omega arith) in
    record {
      padding = 15 - length name;
      buffer_is = same;
      is_full =
          ap length same
          ∙ omega (
            arith,
            length-append name (replicate (suc (15 - length name)) 0),
            length-replicate {A = ℕ} (suc (15 - length name)) 0,
          );
    }

IsBuffer-eq : (name buffer : Bytes) → IsBuffer name buffer → buffer ≡ name_buffer name
IsBuffer-eq name buffer b =
    b.buffer_is
    ∙ sym (
        buffer_of_name name b.padding (
          omega (
            arith,
            b.is_full,
            ap length b.buffer_is,
            length-append name (replicate (suc b.padding) 0),
            length-replicate {A = ℕ} (suc b.padding) 0,
          )))

call_result-ok : (r : Option Text) → call_result r ≡ ok tt → r ≡ none
call_result-ok none h = refl
call_result-ok (some e) h = absurd (cc)

-- A socket is bound to a device exactly where the name has 1 to 15 bytes and the kernel takes, at
-- level 1 and option 25, the buffer of 16 bytes that holds the name and ends in zeros.
pub bind_to_device_iff :
    (k : Setsockopt) (iface : Text)
    → (bind_to_device k iface ≡ ok tt) ↔ (
        (0 < length (as_bytes iface))
        × (length (as_bytes iface) < 16)
        × ((buffer : Bytes) × IsBuffer (as_bytes iface) buffer × (k 1 25 buffer ≡ none)))
unfolding bind_to_device
bind_to_device_iff k iface = (
  λ bound.
      let fits : (0 < length (as_bytes iface)) × (length (as_bytes iface) < 16) =
        ground (arith, bound) in
      (
        fits.0,
        fits.1,
        (
          name_buffer (as_bytes iface),
          name_buffer-IsBuffer (as_bytes iface) fits.1,
          call_result-ok (k 1 25 (name_buffer (as_bytes iface))) (ground (arith, bound, fits)),
        ),
      ),
  λ (some_byte, fits, (buffer, is_buffer, taken)).
      let taken' : k 1 25 (name_buffer (as_bytes iface)) ≡ none =
        ap (k 1 25) (sym (IsBuffer-eq (as_bytes iface) buffer is_buffer)) ∙ taken in
      ground (arith, taken', some_byte, fits),
)
