-- ===== src/Lib.antt =====
-- kirblasnoop binds tcp and udp ports, logs whatever arrives byte-exact, and answers back when a
-- profile says so. A listener hands each message to the logger, which charges it to the disk cap,
-- appends it to a raw stream and writes an event line; it then asks the profile for an answer,
-- which may be built as a dns reply.
--   Stream   src/stream.rs: `create`, `write` and `finish` of a head-plus-tail capture; `human` and
--            `parse_size`. A writer is the list of bytes handed to it.
--   Dns      src/dns.rs: `be16`, `parse`, `reply`, `reply_tcp`. The name of a query is walked by
--            recursion on fuel: 129 rounds, one for each of the 128 labels that the code allows
--            and one to end.
--   Profile  src/profile.rs: `load` and `resolve` (Profile/Load) over a file system and a toml
--            reader that are parameters; `matches`, `eval`, `responds`, `max_response_bytes`,
--            `parse_hex`, `unescape` on what is loaded. `none` of a match stands for a
--            panic, as do two of the errors of `load` (Main/Listing: `is_panic`).
--   Log      src/log.rs: the logger as a record that each call changes. The mutex and the atomics
--            are taken as taking turns. serde_json, base64, the hint of a message and whether a
--            file opens are parameters (`Outside`). Log/Calls has the calls as values, and runs
--            them one after another; Log/Summary has what is printed at the end.
--   Udp      src/listener/udp.rs: the start with its warning on forged sources (Udp/Start), and
--            the loop as a step on a state, one input a turn; whether a send goes through is a
--            parameter (`Network`).
--   Tcp      src/listener/tcp.rs: the socket and the accept loop (Tcp/Start), and the serving of
--            one connection, which relays it to an upstream in turns of `pump` that a schedule
--            orders, or answers it; what a socket takes of a write and where it fails are
--            parameters (`Wire`).
--   Config   src/config.rs: `parse_spec`, the words of a listener's specification, and `load`.
--   Sockopt  src/sockopt.rs: `bind_to_device`; the system call is a parameter (`Setsockopt`).
--   Main     src/main.rs: `main` over parameters (`World`): the listeners, the table of profiles,
--            the tasks that are spawned and the wait for them, which hears tasks end or an
--            interrupt in a given order; `resolve_profile_dir` (Main/Dirs), `print_transparent`
--            (Main/Transparent), `list_profiles` (Main/Listing).
--   Origdst  src/origdst.rs: `decode`, `same_endpoint`, and what `original_dst` reports; the system
--            call is a parameter.
--   Ts       src/ts.rs: the date of a day by eras of 400 years, and the texts of a time.
--   Classify src/classify.rs: the hint on a message. Its loops are `loop` of Base/Loop.antt, which
--            comes with the number that falls in each turn.
--   Hexdump  src/hexdump.rs: `render` and `ascii_line`.
--   Base     what the parts share: lists of bytes, decimal text, UTF-8, results, the addresses
--            and paths of the Rust library as far as they are used.
-- Words are natural numbers with their wrap-around written out; bytes and characters are natural
-- numbers. A run of a listener is by recursion on its inputs, the wait of `main` on what it hears.
-- Not modelled: the console and what is printed on the way, the reading of the clock, the file
-- system and its errors while writing, the parsers of the command line and of toml, the text of
-- `{:?}`, the directory of the log, and that the tasks of several connections run at the same time.
pub mod Base
pub mod Classify
pub mod Config
pub mod Dns
pub mod Hexdump
pub mod Log
pub mod Main
pub mod Origdst
pub mod Profile
pub mod Sockopt
pub mod Stream
pub mod Tcp
pub mod Ts
pub mod Udp
