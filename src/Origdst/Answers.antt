-- ===== src/Origdst/Answers.antt =====
-- src/origdst.rs: what `decode` reads, and when an original destination is reported.
use kirb_la_snoop.Base.{
  ℕ, ◌^◌, ◌<◌, true, some, ◌∷◌, ◌++◌, ◌≡◌, ◌⊎◌, Bytes, u16_be_bytes, get_range-within, u16_from_be,
  arith,
}
use kirb_la_snoop.Base.Net.{octets4, octets6, from_octets, from_octets-octets4, from_octets-octets6}
use kirb_la_snoop.Origdst.{IpAddr, v4, v6, SocketAddr, decode, is_unspecified}

-- `struct sockaddr_in` and `struct sockaddr_in6`, the family first and the port in network order;
-- `flow` and `rest` are what `decode` does not read.
abbrev pub sockaddr_of : IpAddr → Bytes → (ℕ × ℕ × ℕ × ℕ) → Bytes → Bytes
sockaddr_of (v4 ip) port flow rest = 2 ∷ 0 ∷ (port ++ (octets4 ip ++ rest))
sockaddr_of (v6 ip) port (f0, f1, f2, f3) rest =
    10 ∷ 0 ∷ (port ++ (f0 ∷ f1 ∷ f2 ∷ f3 ∷ (octets6 ip ++ rest)))

abbrev pub sockaddr : SocketAddr → (ℕ × ℕ × ℕ × ℕ) → Bytes → Bytes
sockaddr a flow rest = sockaddr_of a.ip (u16_be_bytes a.port) flow rest

-- The numbers of an address fit its octets.
abbrev pub FitsIp : IpAddr → Type 0
FitsIp (v4 ip) = ip < 2 ^ 32
FitsIp (v6 ip) = ip < 2 ^ 128

decode_ip :
    (ip : IpAddr) (port : ℕ) (flow : ℕ × ℕ × ℕ × ℕ) (rest : Bytes)
    → FitsIp ip
    → port < 2 ^ 16
    → decode (sockaddr_of ip (u16_be_bytes port) flow rest) ≡ some (record { ip = ip; port = port })
unfolding decode u16_from_be
decode_ip (v4 ip) port flow rest h k =
    let m = sockaddr_of (v4 ip) (u16_be_bytes port) flow rest in
    let whole : from_octets 0 (octets4 ip) ≡ ip = from_octets-octets4 ip h in
    let family = get_range-within m 0 2 (omega arith) (omega arith) in
    let at_port = get_range-within m 2 4 (omega arith) (omega arith) in
    let at_ip = get_range-within m 4 8 (omega arith) (omega arith) in
    rw (family, at_port, at_ip) (ground (arith, whole))
decode_ip (v6 ip) port (f0, f1, f2, f3) rest h k =
    let m = sockaddr_of (v6 ip) (u16_be_bytes port) (f0, f1, f2, f3) rest in
    let whole : from_octets 0 (octets6 ip) ≡ ip = from_octets-octets6 ip h in
    let family = get_range-within m 0 2 (omega arith) (omega arith) in
    let at_port = get_range-within m 2 4 (omega arith) (omega arith) in
    let at_ip = get_range-within m 8 24 (omega arith) (omega arith) in
    rw (family, at_port, at_ip) (ground (arith, whole))

-- `decode` reads a socket address of either family back, with its port.
pub decode-sockaddr :
    (a : SocketAddr) (flow : ℕ × ℕ × ℕ × ℕ) (rest : Bytes)
    → FitsIp a.ip
    → a.port < 2 ^ 16
    → decode (sockaddr a flow rest) ≡ some a
decode-sockaddr a flow rest h k = decode_ip a.ip a.port flow rest h k

-- The endpoint of a listener: its port, with its address or with any where it has none.
abbrev pub Own : SocketAddr → SocketAddr → Type 0
Own a local = (a.port ≡ local.port) × ((a.ip ≡ local.ip) ⊎ (is_unspecified local.ip ≡ true))
