-- ===== src/Origdst.antt =====
-- src/origdst.rs: the destination of a redirected connection. What `getsockopt` gives is a
-- parameter: the bytes that it wrote, or `none` for an error.
pub mod Answers
mod Tests
use kirb_la_snoop.Base.{
  ℕ, ◌+◌, ◌*◌, Bool, true, false, not, ◌&&◌, ◌||◌, Option, none, some, [], ◌∷◌, Bytes, length, take,
  min, ◌==◌, if◌then◌else◌, ◌>>=◌, get_range, u16_from_be,
}
use kirb_la_snoop.Base.Net.{Ipv4Addr, Ipv6Addr, from_octets}

-- `IpAddr`
pub data IpAddr : Type 0 where
  v4 : Ipv4Addr → IpAddr
  v6 : Ipv6Addr → IpAddr

-- `SocketAddr`, without the flow label and the scope.
pub record SocketAddr : Type 0 where
  pub ip : IpAddr
  pub port : ℕ

-- `u16::from_ne_bytes`, on a little-endian machine.
unfoldable pub u16_from_ne : Bytes → Option ℕ
u16_from_ne (lo ∷ hi ∷ []) = some (lo + hi * 256)
u16_from_ne _ = none

abbrev pub af_inet : ℕ
af_inet = 2

abbrev pub af_inet6 : ℕ
af_inet6 = 10

-- `decode`
unfoldable pub decode : Bytes → Option SocketAddr
unfolding u16_from_ne
decode b = do
  f ← get_range b 0 2
  family ← u16_from_ne f
  p ← get_range b 2 4
  port ← u16_from_be p
  let v4_addr =
      get_range b 4 8 >>= λ o. some (record { ip = IpAddr.v4 (from_octets 0 o); port = port })
  let v6_addr =
      get_range b 8 24 >>= λ o. some (record { ip = IpAddr.v6 (from_octets 0 o); port = port })
  if family == af_inet then v4_addr else if family == af_inet6 then v6_addr else none

-- The level of the option that is asked for.
pub data Level : Type 0 where
  sol_ip sol_ipv6 : Level

-- What the system call gives for a socket: the buffer and the length, or an error.
abbrev pub Kernel : Type 0
Kernel = Level → Option (Bytes × ℕ)

-- `query`
unfoldable pub query : Kernel → Level → Option SocketAddr
query k level = k level >>= λ r. decode (take (min r.1 (length r.0)) r.0)

abbrev pub is_ipv6 : IpAddr → Bool
is_ipv6 (v4 a) = false
is_ipv6 (v6 a) = true

abbrev pub is_unspecified : IpAddr → Bool
is_unspecified (v4 a) = a == 0
is_unspecified (v6 a) = a == 0

abbrev pub same_ip : IpAddr → IpAddr → Bool
same_ip (v4 a) (v4 b) = a == b
same_ip (v6 a) (v6 b) = a == b
same_ip (v4 a) (v6 b) = false
same_ip (v6 a) (v4 b) = false

-- `same_endpoint`
unfoldable pub same_endpoint : SocketAddr → SocketAddr → Bool
same_endpoint a b =
    if not (a.port == b.port) then false else same_ip a.ip b.ip || is_unspecified b.ip

abbrev pub or_else {ℓ} : {A : Type ℓ} → Option A → Option A → Option A
or_else none other = other
or_else (some a) other = some a

-- The address that the kernel has on record.
unfoldable pub recorded : Kernel → SocketAddr → Option SocketAddr
recorded k local =
    if is_ipv6 local.ip then or_else (query k sol_ipv6) (query k sol_ip) else query k sol_ip

-- `original_dst`; `linux` is the target of the build.
unfoldable pub original_dst : Bool → Kernel → SocketAddr → Option SocketAddr
original_dst linux k local =
    if not linux
    then none
    else (recorded k local >>= λ orig. if same_endpoint orig local then none else some orig)
