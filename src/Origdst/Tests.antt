-- ===== src/Origdst/Tests.antt =====
-- src/origdst.rs: the runs of its tests, and the theorems at concrete inputs.
use kirb_la_snoop.Base.{true, none, some, [], ◌∷◌, ◌≡◌, refl, Bytes, arith, get_range, u16_from_be}
use kirb_la_snoop.Base.Net.{from_octets}
use kirb_la_snoop.Origdst.{
  v4, v6, SocketAddr, sol_ip, sol_ipv6, Kernel, decode, query, same_endpoint, recorded,
  original_dst,
}
use kirb_la_snoop.Origdst.Answers.{sockaddr, decode-sockaddr}

abbrev far_away : SocketAddr
far_away = record { ip = v4 0xc0000201; port = 443 }

abbrev listener : SocketAddr
listener = record { ip = v4 0; port = 9999 }

abbrev wire : Bytes
wire = 2 ∷ 0 ∷ 0x01 ∷ 0xbb ∷ 192 ∷ 0 ∷ 2 ∷ 1 ∷ 0 ∷ 0 ∷ 0 ∷ 0 ∷ 0 ∷ 0 ∷ 0 ∷ 0 ∷ []

abbrev conntrack : Kernel
conntrack sol_ip = some (wire, 16)
conntrack sol_ipv6 = none

decode_of_wire : decode wire ≡ some far_away
unfolding decode get_range u16_from_be from_octets
decode_of_wire = refl

decode_of_short : decode (2 ∷ 0 ∷ 0 ∷ 0 ∷ 0 ∷ 0 ∷ []) ≡ none
unfolding decode get_range u16_from_be
decode_of_short = refl

reported_of_wire : original_dst true conntrack listener ≡ some far_away
unfolding original_dst recorded query decode get_range u16_from_be from_octets same_endpoint
reported_of_wire = refl

-- The listener's own port on any address is the kernel's way to say that nothing was redirected.
own_of_listener : same_endpoint (record { ip = v4 0x0a000005; port = 9999 }) listener ≡ true
unfolding same_endpoint
own_of_listener = refl

decode-sockaddr_example :
    decode (
      sockaddr (record { ip = v6 0x20010db8000000000000000000000001; port = 8883 }) (0, 0, 0, 0) [])
    ≡ some (record { ip = v6 0x20010db8000000000000000000000001; port = 8883 })
decode-sockaddr_example =
    decode-sockaddr (record { ip = v6 0x20010db8000000000000000000000001; port = 8883 })
      (0, 0, 0, 0) [] (omega arith) (omega arith)
