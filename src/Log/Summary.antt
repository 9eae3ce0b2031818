-- ===== src/Log/Summary.antt =====
-- src/log.rs: the mode of the console, and the lines that `main` ends with.
use kirb_la_snoop.Base.{
  Bool, ◌||◌, List, [], ◌∷◌, ◌++◌, Text, codes, if◌then◌else◌, Result, ok, err,
}
use kirb_la_snoop.Base.Decimal.{decimal}
use kirb_la_snoop.Base.Strings.{to_ascii_lowercase, text_eq}
use kirb_la_snoop.Stream.Human.{human}
use kirb_la_snoop.Log.State.{Dir, rx, tx, Options, Stats, Logger, Outside}
use kirb_la_snoop.Log.Events

pub data ConsoleMode : Type 0 where
  hex_mode ascii_mode summary_mode no_console : ConsoleMode

-- `ConsoleMode::from_str`; the error is the lowered text.
unfoldable pub mode_of : Text → Result Text ConsoleMode
mode_of s =
    let t = to_ascii_lowercase s in
    if text_eq t (codes "hex")
    then ok hex_mode
    else if text_eq t (codes "ascii")
    then ok ascii_mode
    else if text_eq t (codes "summary")
    then ok summary_mode
    else if text_eq t (codes "none") || text_eq t (codes "off")
    then ok no_console
    else err t

-- `Dir::arrow`
abbrev pub arrow : Dir → Text
arrow rx = codes "-->"
arrow tx = codes "<--"

-- `Logger::writes_files`
abbrev pub writes_files : Options → Bool
writes_files opts = opts.jsonl || opts.raw

-- The counters of a run.
unfoldable pub counts_line : Stats → Text
counts_line st =
    codes "conns "
    ++ (decimal st.conns
        ++ (codes "  rx "
            ++ (decimal st.rx_msgs
                ++ (codes " msgs / "
                    ++ (decimal st.rx_bytes
                        ++ (codes " bytes  tx "
                            ++ (decimal st.tx_msgs
                                ++ (codes " msgs / "
                                    ++ (decimal st.tx_bytes ++ codes " bytes")))))))))

abbrev pub capture_line : Text → Logger → List Text
capture_line run_dir l =
    if writes_files l.opts
    then (codes "capture: "
        ++ (run_dir ++ (codes " (" ++ (human l.disk_used ++ codes " written)"))))
      ∷ []
    else []

abbrev pub cap_line : Logger → List Text
cap_line l =
    if l.disk_stopped
    then (codes "WARNING: the "
        ++ (human l.opts.max_run_bytes
            ++ codes " run cap was hit, so this capture is incomplete on disk"))
      ∷ []
    else []

-- `Logger::summary`: the lines that it prints; the first is empty.
unfoldable pub summary : Text → Logger → List Text
unfolding counts_line
summary run_dir l = [] ∷ counts_line l.stats ∷ (capture_line run_dir l ++ cap_line l)

-- What `main` does with the logger when the wait is over.
unfoldable pub closing : Outside → Text → Logger → Logger × List Text
unfolding summary Events.flush
closing o run_dir l = let flushed = (Events.flush o l).0 in (flushed, summary run_dir flushed)
