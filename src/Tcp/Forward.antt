-- ===== src/Tcp/Forward.antt =====
-- src/listener/tcp.rs: `forward`, both directions of a relay. The two pumps share the logger and
-- take turns as the reads come: a schedule is a list of reads, each with its direction.
use kirb_la_snoop.Base.{
  ℕ, Bool, true, false, Option, none, some, List, [], ◌∷◌, ◌++◌, Bytes, Text, take, if◌then◌else◌,
  codes,
}
use kirb_la_snoop.Log.State.{Logger, Outside, Dir, rx, tx}
use kirb_la_snoop.Log.Events
use kirb_la_snoop.Tcp.{Read, arrived, eof, failed, Session}

-- The far side of one pump, and whether its loop has returned.
pub record Half : Type 0 where
  pub written : Bytes
  pub shut : Bool
  pub returned : Bool

-- What is outside: how much of a write goes through, by the direction.
pub record Wires : Type 0 where
  pub log : Outside
  pub takes : Dir → Bytes → Bytes → Option ℕ

-- The state that the two pumps share; `to_upstream` is sent what the client sends.
pub record Spliced : Type 0 where
  pub logger : Logger
  pub to_upstream : Half
  pub to_client : Half

abbrev pub write_half : Half → Bytes → Option ℕ → Half
write_half h bytes none = record h { written = h.written ++ bytes }
write_half h bytes (some k) = record h { written = h.written ++ take k bytes; returned = true }

-- One turn of a pump that has not returned.
abbrev pub pump_half : (Bytes → Bytes → Option ℕ) → Half → Read → Half
pump_half takes h eof = record h { shut = true; returned = true }
pump_half takes h failed = record h { shut = true; returned = true }
pump_half takes h (arrived b bs) = write_half h (b ∷ bs) (takes h.written (b ∷ bs))

abbrev pub log_read : Wires → Session → Dir → Logger → Read → Logger
log_read w s dir l eof = l
log_read w s dir l failed = l
log_read w s dir l (arrived b bs) =
    Events.log_data w.log l (codes "tcp") s.name s.conn s.peer dir (b ∷ bs) (some (codes "forward"))

abbrev pub turn_half : (Bytes → Bytes → Option ℕ) → Half → Read → Half
turn_half takes h read = if h.returned then h else pump_half takes h read

abbrev pub turn_log : Wires → Session → Dir → Half → Logger → Read → Logger
turn_log w s dir h l read = if h.returned then l else log_read w s dir l read

-- One turn.
unfoldable pub turn : Wires → Session → Spliced → Dir × Read → Spliced
turn w s sp (rx, read) = record sp {
  logger = turn_log w s rx sp.to_upstream sp.logger read;
  to_upstream = turn_half (w.takes rx) sp.to_upstream read;
}
turn w s sp (tx, read) = record sp {
  logger = turn_log w s tx sp.to_client sp.logger read;
  to_client = turn_half (w.takes tx) sp.to_client read;
}

unfoldable pub turns : Wires → Session → Spliced → List (Dir × Read) → Spliced
turns w s sp [] = sp
turns w s sp (t ∷ ts) = turns w s (turn w s sp t) ts

abbrev pub fresh : Half
fresh = record { written = []; shut = false; returned = false }

-- `forward`: the connection to the upstream fails with an error's text, or both pumps run.
unfoldable pub forward : Wires → Session → Text → Option Text → Logger → List (Dir × Read) → Spliced
unfolding turns
forward w s upstream (some e) l schedule = record {
  logger =
      Events.error w.log l (codes "tcp") s.name (some s.conn)
        (codes "upstream " ++ (upstream ++ (codes ": " ++ e)));
  to_upstream = fresh;
  to_client = fresh;
}
forward w s upstream none l schedule =
    turns w s (record { logger = l; to_upstream = fresh; to_client = fresh }) schedule

-- The reason to close with, where `forward` has returned.
unfoldable pub forward_why : Option Text → Spliced → Option Text
forward_why (some e) sp = some (codes "upstream unreachable")
forward_why none sp =
    if sp.to_upstream.returned
    then (if sp.to_client.returned then some (codes "both directions closed") else none)
    else none
