-- ===== src/Tcp/Tests.antt =====
-- src/listener/tcp.rs: a run of the relay, and the theorems at concrete inputs.
use kirb_la_snoop.Base.{
  true, false, none, some, List, [], ◌∷◌, ◌≡◌, refl, codes, length, if◌then◌else◌, ◌==◌,
}
use kirb_la_snoop.Log.State.{Event, rx, new_logger, Outside}
use kirb_la_snoop.Log.Calls.{run_calls}
use kirb_la_snoop.Log.State.{tx}
use kirb_la_snoop.Tcp.{Read, arrived, eof, Wire, Session, Far, pump, write_all, log_forward}
use kirb_la_snoop.Tcp.Relay.{arriving, ends, Relayed, pump-Relayed}
use kirb_la_snoop.Base.{Option, Bytes, ◌≢◌, if◌then◌else◌, arith, false}
use kirb_la_snoop.Log.State.{Dir}
use kirb_la_snoop.Log.Calls.{call}
use kirb_la_snoop.Tcp.Serve.{
  Outcome, waiting, peer_eof, profile_close, serve, serve_loop, answer, send, send_payload,
}
use kirb_la_snoop.Tcp.Forward.{Wires, forward, forward_why}
use kirb_la_snoop.Tcp.Captures.{rx_calls, ending, serve_logs, serve_silent}
use kirb_la_snoop.Tcp.Returns.{serve_returns}
use kirb_la_snoop.Tcp.Splice.{of_rx, of_tx, forward_exact}
use kirb_la_snoop.Profile
use kirb_la_snoop.Profile.{Match, Action, Compiled, CompiledRule, responds}
use kirb_la_snoop.Profile.Needle
use kirb_la_snoop.Profile.Hex.{parse_hex}
use kirb_la_snoop.Base.Utf8.{as_bytes}
use kirb_la_snoop.Base.Strings.{is_ascii_whitespace}

abbrev outside : Outside
outside = record {
  to_json = λ (ev : Event). some ev.event;
  encode = λ b. b;
  classify = λ b. none;
  opens = λ name. true;
}

abbrev sound : Wire
sound = record { log = outside; takes = λ before bytes. none }

-- The second write fails after one byte.
abbrev broken : Wire
broken = record {
  log = outside;
  takes = λ before bytes. if length before == 0 then none else some 1;
}

abbrev session : Session
session = record { conn = 1; name = codes "web"; peer = codes "peer" }

abbrev reads : List Read
reads = arrived 1 (2 ∷ []) ∷ arrived 3 (4 ∷ 5 ∷ []) ∷ eof ∷ arrived 6 [] ∷ []

abbrev far : Far
far = record {
  logger = new_logger (record {
    jsonl = true;
    raw = false;
    jsonl_max_data = 0;
    stream_limits = record { head = 0; tail = 0 };
    max_run_bytes = 0;
  });
  written = [];
  shut = false;
}

written_when_broken : (pump broken session rx far reads).written ≡ 1 ∷ 2 ∷ 3 ∷ []
unfolding pump write_all log_forward
written_when_broken = refl

pump-Relayed_example : Relayed far (pump broken session rx far reads) reads
pump-Relayed_example = pump-Relayed broken session rx far reads

abbrev says : Bytes → Action
says payload = record { payload = payload; echo = false; delay_ms = 0; close = false; dns = none }

abbrev anything : Match
anything = record {
  any = none;
  starts_with = none;
  contains = none;
  ends_with = none;
  prefix_hex = none;
  contains_hex = none;
  min_len = none;
  max_len = none;
  len = none;
  first_only = none;
  ignore_case = false;
}

-- A profile that greets, answers a first byte 0x01 and hangs up on all else.
abbrev service : Compiled
service = record {
  name = codes "s";
  description = [];
  on_connect = some (says (7 ∷ []));
  rules =
      record {
        name = codes "one";
        matcher = record (anything) { prefix_hex = some (codes "01") };
        action = says (8 ∷ 9 ∷ []);
      }
      ∷ record {
        name = codes "bye";
        matcher = anything;
        action = record (says []) { close = true };
      }
      ∷ [];
}

abbrev mute : Compiled
mute = record {
  name = codes "m";
  description = [];
  on_connect = none;
  rules = record { name = codes "drop"; matcher = anything; action = says [] } ∷ [];
}

abbrev sent_by : Option (Far × Outcome) → Option (Bytes × Outcome)
sent_by none = none
sent_by (some (f, o)) = some (f.written, o)

sent_by-service :
    sent_by (serve sound session (some service) far reads) ≡ some (7 ∷ 8 ∷ 9 ∷ [], profile_close)
unfolding serve serve_loop answer send send_payload write_all Profile.eval Profile.eval_rules
    Profile.matches Profile.is_silent Needle.starts_with parse_hex as_bytes is_ascii_whitespace
sent_by-service = refl

serve_logs_example :
    serve sound session none far reads
    ≡ some (
      record (far) { logger = run_calls outside far.logger (rx_calls session reads) },
      ending reads,
    )
serve_logs_example = serve_logs sound session far reads

mute_is_quiet : responds mute ≡ false
unfolding responds
mute_is_quiet = refl

abbrev one_read : List Read
one_read = arrived 1 (2 ∷ []) ∷ eof ∷ []

abbrev quiet_far : Far
quiet_far = record {
  logger = run_calls outside far.logger (rx_calls session one_read);
  written = [];
  shut = false;
}

mute_of_reads : serve sound session (some mute) far one_read ≡ some (quiet_far, peer_eof)
unfolding serve serve_loop answer send Profile.eval Profile.eval_rules Profile.matches
    Profile.is_silent run_calls rx_calls call
mute_of_reads = refl

serve_silent_example : quiet_far.written ≡ far.written
serve_silent_example =
    serve_silent sound session mute far one_read (quiet_far, peer_eof) mute_is_quiet mute_of_reads

serve_returns_example :
    (end : Far × Outcome) × (serve sound session (some service) far reads ≡ some end)
    × (ends reads ≡ true → end.1 ≢ waiting)
serve_returns_example = serve_returns sound session service far reads (omega arith)

abbrev both_sound : Wires
both_sound = record { log = outside; takes = λ dir before bytes. none }

abbrev schedule : List (Dir × Read)
schedule = (rx, arrived 1 (2 ∷ [])) ∷ (tx, arrived 3 []) ∷ (rx, eof) ∷ (tx, eof) ∷ []

forward_exact_example :
    ((forward both_sound session [] none far.logger schedule).to_upstream.written
      ≡ arriving (of_rx schedule))
    × ((forward both_sound session [] none far.logger schedule).to_client.written
        ≡ arriving (of_tx schedule))
    × ((forward both_sound session [] none far.logger schedule).to_upstream.shut
        ≡ ends (of_rx schedule))
    × ((forward both_sound session [] none far.logger schedule).to_client.shut
        ≡ ends (of_tx schedule))
    × (forward_why none (forward both_sound session [] none far.logger schedule) ≡ (
        if ends (of_rx schedule)
        then (if ends (of_tx schedule) then some (codes "both directions closed") else none)
        else none))
forward_exact_example =
    forward_exact both_sound session [] far.logger schedule (λ dir before bytes. refl)
