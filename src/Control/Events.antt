-- ===== src/Control/Events.antt =====
-- HandleDataDrop and HandleExternalTriggers of data_source.go: the logs of dropped frames and of
-- external triggers. A line of the first is the first frame and the number of frames.
use dastard.Base.{
  ℕ, ◌+◌, Bool, true, not, ◌||◌, ◌&&◌, List, [], ◌∷◌, ◌++◌, Option, none, some, if◌then◌else◌,
  length, ltb,
}
use dastard.Base.Int.{ℤ, pos, ltb_ℤ}
use dastard.Publish.{is_some}
use dastard.Control.{WritingState, WriteError, no_log_file, no_log_line, not_flushed, Disk}

-- The state, the number in the message to the clients, and the error that ends the call.
pub record Handled : Type 0 where
  pub handled_state : WritingState
  pub message : Option ℕ
  pub problem : Option WriteError

abbrev pub ended : WritingState → WriteError → Handled
ended ws e = record { handled_state = ws; message = none; problem = some e }

abbrev pub log_drop : Disk → ℤ → ℤ → WritingState → List (ℤ × ℤ) → WritingState × Option WriteError
log_drop disk first dropped ws lines =
    if disk.writes_log
    then (record ws { drop_file = some (lines ++ ((first, dropped) ∷ [])) }, none)
    else (record ws { drop_file = some lines }, some no_log_line)

-- The file is created with its header when the first line is due.
abbrev pub log_drop_in :
    Disk → ℤ → ℤ → WritingState → Option (List (ℤ × ℤ)) → WritingState × Option WriteError
log_drop_in disk first dropped ws (some lines) = log_drop disk first dropped ws lines
log_drop_in disk first dropped ws none =
    if disk.creates_log then log_drop disk first dropped ws [] else (ws, some no_log_file)

-- The flush when the ticker has fired, and the message.
abbrev pub report_drops : Disk → Bool → ℤ → WritingState × Option WriteError → Handled
report_drops disk ticked dropped (ws, some e) = ended ws e
report_drops disk ticked dropped (ws, none) =
    if ticked && is_some ws.drop_file && not disk.flushes_drops
    then ended ws not_flushed
    else if ltb_ℤ (pos 0) dropped || not ws.drop_message_sent
    then record {
      handled_state = record ws { drop_message_sent = true };
      message = some ws.drops_observed;
      problem = none;
    }
    else record { handled_state = ws; message = none; problem = none }

abbrev pub counted_drop : ℤ → WritingState → WritingState
counted_drop dropped ws =
    if ltb_ℤ (pos 0) dropped then record ws { drops_observed = ws.drops_observed + 1 } else ws

unfoldable pub handle_data_drop : Disk → Bool → ℤ → ℤ → WritingState → Handled
handle_data_drop disk ticked dropped first ws =
    let counted = counted_drop dropped ws in
    report_drops disk ticked dropped (
      if ltb_ℤ (pos 0) dropped && ws.active
      then log_drop_in disk first dropped counted ws.drop_file
      else (counted, none))

-- The triggers are logged when the file is there or can be made: it has a name from START to STOP.
abbrev pub log_events_in :
    Disk → List ℤ → WritingState → Option (List ℤ) → WritingState × Option WriteError
log_events_in disk [] ws file = (ws, none)
log_events_in disk (t ∷ ts) ws none =
    if not (ltb 0 (length ws.event_filename))
    then (record ws { events_observed = ws.events_observed + length (t ∷ ts) }, none)
    else if not disk.creates_log
    then (ws, some no_log_file)
    else if not disk.writes_log
    then (record ws { event_file = some [] }, some no_log_line)
    else (
      record ws {
        event_file = some (t ∷ ts);
        events_observed = ws.events_observed + length (t ∷ ts);
      },
      none,
    )
log_events_in disk (t ∷ ts) ws (some logged) =
    let counted = record ws { events_observed = ws.events_observed + length (t ∷ ts) } in
    if disk.writes_log
    then (record counted { event_file = some (logged ++ (t ∷ ts)) }, none)
    else (counted, some no_log_line)

abbrev pub report_events : Disk → Bool → WritingState × Option WriteError → Handled
report_events disk ticked (ws, some e) = ended ws e
report_events disk ticked (ws, none) =
    if not ticked
    then record { handled_state = ws; message = none; problem = none }
    else if is_some ws.event_file && not disk.flushes_events
    then ended ws not_flushed
    else record {
      handled_state = record ws { events_observed = 0 };
      message = some ws.events_observed;
      problem = none;
    }

unfoldable pub handle_external_triggers : Disk → Bool → List ℤ → WritingState → Handled
handle_external_triggers disk ticked counts ws =
    report_events disk ticked (log_events_in disk counts ws ws.event_file)
