-- ===== src/Sockopt/Tests.antt =====
-- src/sockopt.rs: a name, and the theorem at a concrete input.
use kirb_la_snoop.Base.{
  ◌<◌, Option, none, ◌++◌, ◌≡◌, ◌↔◌, refl, Bytes, Text, codes, length, replicate, ok, err,
}
use kirb_la_snoop.Base.Utf8.{as_bytes, encode_utf8}
use kirb_la_snoop.Sockopt.{bad_name, name_buffer, bind_to_device}
use kirb_la_snoop.Sockopt.Name.{IsBuffer, bind_to_device_iff}

eth0_buffer : name_buffer (codes "eth0") ≡ codes "eth0" ++ replicate 12 0
unfolding name_buffer
eth0_buffer = refl

too_long : bind_to_device (λ l o b. none) (codes "a-very-long-name") ≡ err bad_name
unfolding bind_to_device as_bytes encode_utf8
too_long = refl

bind_to_device_iff_example : (bind_to_device (λ l o b. none) (codes "eth0") ≡ ok tt) ↔ (
    (0 < length (as_bytes (codes "eth0")))
    × (length (as_bytes (codes "eth0")) < 16)
    × ((buffer : Bytes) × IsBuffer (as_bytes (codes "eth0")) buffer
        × (◌≡◌ {A = Option Text} none none)))
bind_to_device_iff_example = bind_to_device_iff (λ l o b. none) (codes "eth0")
