-- ===== src/Tcp.antt =====
-- src/listener/tcp.rs: the sockets of a connection, and `pump`, the relay of one direction. What the
-- reads of a socket give is a list; how much of a write goes through is a parameter.
pub mod Serve
pub mod Forward
pub mod Relay
pub mod Captures
pub mod Returns
pub mod Splice
pub mod Start
mod Tests
use kirb_la_snoop.Base.{
  ℕ, Bool, true, false, Option, none, some, List, [], ◌∷◌, ◌++◌, Bytes, Text, take, if◌then◌else◌,
  codes,
}
use kirb_la_snoop.Log.State.{Logger, Outside, Dir}
use kirb_la_snoop.Log.Events

-- What a read gives: at least one byte, the end, or an error.
pub data Read : Type 0 where
  arrived : ℕ → Bytes → Read
  eof failed : Read

-- What is outside of the relay; `takes` is the number of bytes that a write takes before it fails,
-- `none` if it goes through, by what has been written before.
pub record Wire : Type 0 where
  pub log : Outside
  pub takes : Bytes → Bytes → Option ℕ

-- The arguments that do not change.
pub record Session : Type 0 where
  pub conn : ℕ
  pub name : Text
  pub peer : Text

-- The logger, and the far side: what it was sent, and whether it is shut down.
pub record Far : Type 0 where
  pub logger : Logger
  pub written : Bytes
  pub shut : Bool

abbrev pub put : Far → Bytes → Option ℕ → Far × Bool
put f bytes none = (record f { written = f.written ++ bytes }, true)
put f bytes (some k) = (record f { written = f.written ++ take k bytes }, false)

-- `to.write_all`
unfoldable pub write_all : Wire → Far → Bytes → Far × Bool
write_all w f bytes = put f bytes (w.takes f.written bytes)

unfoldable pub log_forward : Wire → Session → Dir → Far → Bytes → Far
log_forward w s dir f bytes = record f {
  logger =
      Events.log_data w.log f.logger (codes "tcp") s.name s.conn s.peer dir bytes
        (some (codes "forward"));
}

-- `pump`, as far as the reads go.
unfoldable pub pump : Wire → Session → Dir → Far → List Read → Far
pump w s dir f [] = f
pump w s dir f (eof ∷ reads) = record f { shut = true }
pump w s dir f (failed ∷ reads) = record f { shut = true }
pump w s dir f (arrived b bs ∷ reads) =
    let (far, ok) = write_all w (log_forward w s dir f (b ∷ bs)) (b ∷ bs) in
    let rest = pump w s dir far reads in if ok then rest else far
