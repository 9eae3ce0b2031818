-- ===== src/Log/Calls.antt =====
-- src/log.rs: the calls of the logger as values, and a run of them.
use kirb_la_snoop.Base.{ℕ, Option, List, [], ◌∷◌, Bytes, Text}
use kirb_la_snoop.Log.State.{Dir, Logger, Outside}
use kirb_la_snoop.Log.Events

pub data Call : Type 0 where
  listening : Text → Text → Text → Text → Call
  open_conn : Text → Text → ℕ → Text → Text → Option Text → Call
  log_data : Text → Text → ℕ → Text → Dir → Bytes → Option Text → Call
  close_conn : Text → Text → ℕ → Text → Text → Call
  warn : Text → Text → Text → Call
  error : Text → Text → Option ℕ → Text → Call
  flush : Call

unfoldable pub call : Outside → Logger → Call → Logger
call o l (listening proto name local profile) = Events.listening o l proto name local profile
call o l (open_conn proto name conn local peer orig) =
    Events.open_conn o l proto name conn local peer orig
call o l (log_data proto name conn peer dir bytes rule) =
    Events.log_data o l proto name conn peer dir bytes rule
call o l (close_conn proto name conn peer why) = Events.close_conn o l proto name conn peer why
call o l (warn proto name msg) = Events.warn o l proto name msg
call o l (error proto name conn msg) = Events.error o l proto name conn msg
call o l flush = (Events.flush o l).0

unfoldable pub run_calls : Outside → Logger → List Call → Logger
unfolding call
run_calls o l [] = l
run_calls o l (c ∷ cs) = run_calls o (call o l c) cs
