-- ===== src/Log/Lines.antt =====
-- src/log.rs: an event is written at the end of the log, unless the cap has stopped the logger.
use kirb_la_snoop.Base.{
  ℕ, Bool, true, false, not, some, List, [], ◌∷◌, ◌++◌, ◌≡◌, refl, ap, subst, ◌∙◌, Bytes, length,
  add_u64, arith,
}
use kirb_la_snoop.Log.State.{Event, Logger, Outside, charge, append_line, emit_line, emit}
use kirb_la_snoop.Log.Budget.{Stopped}
use kirb_la_snoop.Log.Raw.{charge_refused, if_false}

charge_events : (l : Logger) (n : ℕ) → (charge l n).0.events ≡ l.events
unfolding charge
charge_events l n = ground arith

append_line_writes :
    (l : Logger) (granted : Bool) (line : Bytes)
    → (granted ≡ false → Stopped l)
    → ¬ Stopped (append_line (l, granted) line)
    → (append_line (l, granted) line).events ≡ l.events ++ line ∷ []
append_line_writes l true line refused running = refl
append_line_writes l false line refused running = absurd (running (refused refl))

pub emit_writes :
    (o : Outside) (l : Logger) (ev : Event) (line : Bytes)
    → l.opts.jsonl ≡ true
    → ¬ Stopped (emit o l ev)
    → o.to_json ev ≡ some line
    → (emit o l ev).events ≡ l.events ++ line ∷ []
unfolding emit
emit_writes o l ev line on running printed =
    let n = add_u64 (length line) 1 in
    let appends : emit o l ev ≡ append_line ((charge l n).0, (charge l n).1) line =
      if_false (not l.opts.jsonl) _ _ (ground (arith, on)) ∙ ap (emit_line l) printed in
    ap (λ (x : Logger). x.events) appends
    ∙ append_line_writes (charge l n).0 (charge l n).1 line (charge_refused l n)
        (subst (λ x. ¬ Stopped x) appends running)
    ∙ ap (λ (es : List Bytes). es ++ line ∷ []) (charge_events l n)
