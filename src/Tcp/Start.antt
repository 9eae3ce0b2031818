-- ===== src/Tcp/Start.antt =====
-- src/listener/tcp.rs: the socket of `run`, and the accepts of its loop. The tasks that are spawned
-- are in Tcp/Serve.antt and Tcp/Forward.antt.
use kirb_la_snoop.Base.{
  ℕ, Bool, true, false, Option, none, some, List, [], ◌∷◌, ◌++◌, Text, codes, ◌>>=◌, Result, ok,
  err, and_then, ok_or,
}
use kirb_la_snoop.Base.Addr.{parse_socket_v4, parse_socket_v6}
use kirb_la_snoop.Log.State.{Logger, Outside, next_conn_id}
use kirb_la_snoop.Log.Events
use kirb_la_snoop.Origdst.{IpAddr, v4, v6, SocketAddr}
use kirb_la_snoop.Sockopt.{Setsockopt, DeviceError, bind_to_device}

abbrev with_port : (ℕ → IpAddr) → ℕ × ℕ → SocketAddr
with_port make (ip, port) = record { ip = make ip; port = port }

-- `bind.parse::<SocketAddr>()`
unfoldable pub parse_socket_addr : Text → Option SocketAddr
parse_socket_addr t = elim (parse_socket_v4 t) [
  | some a ↦ some (with_port v4 a)
  | none ↦ (parse_socket_v6 t >>= λ a. some (with_port v6 a))
]

-- What the start asks of the system. Creating a socket depends on the family of its address.
pub record Sockets : Type 0 where
  pub creates : IpAddr → Bool
  pub setsockopt : Setsockopt
  pub binds_addr : SocketAddr → Bool
  pub listens : SocketAddr → Bool
  pub binds : Text → Bool
  pub local_addr : Text → Option SocketAddr

pub data StartError : Type 0 where
  parsing : Text → StartError
  creating : StartError
  device : DeviceError → StartError
  binding : Text → StartError
  listening : StartError
  no_local_addr : StartError

abbrev demand : Bool → StartError → Result StartError (Unit {0})
demand true e = ok tt
demand false e = err e

abbrev pinned : Result DeviceError (Unit {0}) → Result StartError (Unit {0})
pinned (ok u) = ok tt
pinned (err e) = err (device e)

-- A listener on a device: the device is set before the bind.
unfoldable pub listen_on : Sockets → Text → Text → Result StartError (Unit {0})
unfolding parse_socket_addr
listen_on k bind dev = and_then (ok_or (parse_socket_addr bind) (parsing bind)) λ addr.
    and_then (demand (k.creates addr.ip) creating) λ _.
      and_then (pinned (bind_to_device k.setsockopt dev)) λ _.
        and_then (demand (k.binds_addr addr) (binding bind)) λ _. demand (k.listens addr) listening

abbrev pub listen : Sockets → Text → Option Text → Result StartError (Unit {0})
listen k bind (some dev) = listen_on k bind dev
listen k bind none = demand (k.binds bind) (binding bind)

-- The socket of `run`: its local address.
unfoldable pub open_socket : Sockets → Text → Option Text → Result StartError SocketAddr
unfolding listen_on
open_socket k bind iface =
    and_then (listen k bind iface) λ _. ok_or (k.local_addr bind) no_local_addr

-- What `accept` gives: a connection, with its peer and the destination that was asked for, or an
-- error, after which the loop goes on.
pub data Accepted : Type 0 where
  connection : Text → Option Text → Accepted
  failed : Text → Accepted

-- One turn of the loop, up to the task: the id of a connection that is opened.
unfoldable pub accept_turn : Outside → Text → Text → Logger → Accepted → Logger × Option ℕ
accept_turn o name local l (connection peer orig) =
    let (l', conn) = next_conn_id l in
    (Events.open_conn o l' (codes "tcp") name conn local peer orig, some conn)
accept_turn o name local l (failed e) =
    (Events.error o l (codes "tcp") name none (codes "accept: " ++ e), none)

abbrev with_id : Option ℕ → List ℕ → List ℕ
with_id none ids = ids
with_id (some i) ids = i ∷ ids

-- The loop, as far as its accepts go, and the ids of the connections in order.
unfoldable pub accept_loop : Outside → Text → Text → Logger → List Accepted → Logger × List ℕ
unfolding accept_turn
accept_loop o name local l [] = (l, [])
accept_loop o name local l (a ∷ rest) =
    let (l', id) = accept_turn o name local l a in
    let (l'', ids) = accept_loop o name local l' rest in (l'', with_id id ids)
