-- ===== src/Udp/Start.antt =====
-- src/listener/udp.rs: what `run` does before its loop: the socket, and the warning on a profile that
-- answers forged sources. The socket and `{:?}` of a text are parameters.
use kirb_la_snoop.Base.{
  ℕ, ◌/◌, ◌^◌, Bool, false, not, ◌&&◌, Option, none, some, ◌++◌, Text, codes, ◌==◌, if◌then◌else◌,
  Result, ok, err, and_then, ok_or,
}
use kirb_la_snoop.Base.Decimal.{decimal}
use kirb_la_snoop.Log.State.{Logger, Outside}
use kirb_la_snoop.Log.Events
use kirb_la_snoop.Origdst.{IpAddr, v4, v6, SocketAddr}
use kirb_la_snoop.Profile.{Compiled, responds, max_response_bytes}
use kirb_la_snoop.Sockopt.{Setsockopt, DeviceError, bind_to_device}
use kirb_la_snoop.Udp.{Setup, Listener, start}

-- What the start asks of the system, by the text that is bound.
pub record Sockets : Type 0 where
  pub binds : Text → Bool
  pub setsockopt : Setsockopt
  pub local_addr : Text → Option SocketAddr
  pub to_string : SocketAddr → Text
  pub debug : Text → Text

pub data StartError : Type 0 where
  binding : Text → StartError
  device : DeviceError → StartError
  no_local_addr : StartError

-- `IpAddr::is_loopback`
unfoldable pub is_loopback : IpAddr → Bool
is_loopback (v4 ip) = ip / 2 ^ 24 == 127
is_loopback (v6 ip) = ip == 1

abbrev pub profile_name : Option Compiled → Text
profile_name none = codes "none"
profile_name (some p) = p.name

-- `ratio`
abbrev pub ratio_of : Option ℕ → Text
ratio_of none = codes "replies mirror the request size"
ratio_of (some n) = codes "a 1-byte datagram draws up to " ++ (decimal n ++ codes " bytes")

unfoldable pub reflector_note : Sockets → Compiled → Text
reflector_note k p =
    codes "profile "
    ++ (k.debug p.name
        ++ (codes
              " replies to unverified source addresses on a non-loopback bind. udp sources are trivially forged, so this is an open reflector: "
            ++ (ratio_of (max_response_bytes p)
                ++ codes
                    ", sent wherever the sender claimed to be. bind loopback or an isolated interface unless that is intended")))

-- Whether the warning is given.
unfoldable pub warns : SocketAddr → Option Compiled → Bool
unfolding is_loopback
warns addr none = false
warns addr (some p) = responds p && not (is_loopback addr.ip)

abbrev warn_if : Sockets → Outside → Text → Option Compiled → Bool → Logger → Logger
warn_if k o name none b l = l
warn_if k o name (some p) b l =
    if b then Events.warn o l (codes "udp") name (reflector_note k p) else l

-- What is logged at the start.
unfoldable pub announce : Sockets → Outside → Text → SocketAddr → Option Compiled → Logger → Logger
unfolding reflector_note warns
announce k o name addr p l =
    warn_if k o name p (warns addr p)
      (Events.listening o l (codes "udp") name (k.to_string addr) (profile_name p))

abbrev pin : Sockets → Option Text → Result StartError (Unit {0})
pin k none = ok tt
pin k (some dev) = elim (bind_to_device k.setsockopt dev) [ ok u ↦ ok tt | err e ↦ err (device e) ]

abbrev bound : Sockets → Text → Result StartError (Unit {0})
bound k bind = if k.binds bind then ok tt else err (binding bind)

-- The socket of `run`: its local address. The device is set behind the bind.
unfoldable pub open_socket : Sockets → Text → Option Text → Result StartError SocketAddr
open_socket k bind iface =
    and_then (bound k bind) λ _. and_then (pin k iface) λ _. ok_or (k.local_addr bind) no_local_addr

-- The start of `run`: what its loop is started with.
unfoldable pub start_run :
    Sockets
    → Outside
    → Text
    → Text
    → Option Compiled
    → Logger
    → ℕ
    → ℕ
    → Option Text
    → Result StartError (Setup × Listener)
unfolding announce open_socket
start_run k o name bind p l idle_secs max_peers iface = and_then (open_socket k bind iface) λ addr.
    ok (
      record {
        name = name;
        local = k.to_string addr;
        profile = p;
        idle_secs = idle_secs;
        max_peers = max_peers;
      },
      start (announce k o name addr p l),
    )
