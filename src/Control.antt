-- ===== src/Control.antt =====
-- writing_state.go, and WriteControl of data_source.go: starting, pausing and stopping the files.
-- A text is the list of its bytes. The log of the experiment's states is the list of its lines.
pub mod Start
pub mod Request
pub mod Events
use dastard.Base.{
  ℕ, suc, ◌+◌, ◌==◌, Bool, true, false, not, ◌||◌, ◌&&◌, List, [], ◌∷◌, ◌++◌, Option, none, some,
  if◌then◌else◌, length,
}
use dastard.Base.Int.{ℤ, pos}
use dastard.Publish.{DataPublisher, is_some}

abbrev pub Text : Type 0
Text = List ℕ

-- The buffered files of external triggers and of data drops hold what was logged.
pub record WritingState : Type 0 where
  pub active : Bool
  pub paused : Bool
  pub base_path : Text
  pub filename_pattern : Text
  pub write_ljh22 : Bool
  pub write_off : Bool
  pub write_ljh3 : Bool
  pub flush_also_syncs : Bool
  pub experiment_file : Option (List (ℤ × Text))
  pub experiment_filename : Text
  pub experiment_label : Text
  pub label_time : ℤ
  pub event_filename : Text
  pub events_observed : ℕ
  pub event_file : Option (List ℤ)
  pub drop_filename : Text
  pub drops_observed : ℕ
  pub drop_file : Option (List (ℤ × ℤ))
  pub drop_message_sent : Bool

pub record WriteConfig : Type 0 where
  pub request : Text
  pub path : Text
  pub want_ljh22 : Bool
  pub want_off : Bool
  pub want_ljh3 : Bool
  pub want_syncs : Bool
  pub map_pixels : Option ℕ

pub data WriteError : Type 0 where
  nothing_to_write in_progress no_projectors wrong_map no_directory bad_unpause not_active
        unknown_request no_label_file no_label_line no_log_file no_log_line not_closed not_flushed :
      WriteError

-- The disk as one call finds it: makeDirectory's answer, and whether creating the label file,
-- writing its header and its line, creating and writing a log, flushing and closing files succeed.
pub record Disk : Type 0 where
  pub make_directory : Text → Option Text
  pub creates_label : Bool
  pub writes_header : Bool
  pub writes_line : Bool
  pub closes_label : Bool
  pub creates_log : Bool
  pub writes_log : Bool
  pub flushes_events : Bool
  pub closes_events : Bool
  pub flushes_drops : Bool
  pub closes_drops : Bool

-- The text functions of strings and fmt, and the time in ns.
pub record TextOps : Type 0 where
  pub to_upper : Text → Text
  pub file_name : Text → Text → Text → Text
  pub now : ℤ

-- One channel: its publisher, and what the start of the files reads of it.
pub record Channel : Type 0 where
  pub publisher : DataPublisher
  pub has_projectors : Bool
  pub record_samples : ℕ
  pub nbases : ℕ
  pub channel_number : ℤ

pub record Writing : Type 0 where
  pub channels : List Channel
  pub writing_state : WritingState
  pub channels_per_pixel : ℕ

-- The line of a label in an open file. When the write fails the label is set all the same.
abbrev pub put_label :
    Disk → ℤ → Text → WritingState → List (ℤ × Text) → WritingState × Option WriteError
put_label disk time label ws lines =
    let set = record ws { experiment_label = label; label_time = time } in
    if disk.writes_line
    then (record set { experiment_file = some (lines ++ ((time, label) ∷ [])) }, none)
    else (record set { experiment_file = some lines }, some no_label_line)

-- setExperimentStateLabel. A header that cannot be written ends the call with the error of the
-- creation before it, which is nil.
abbrev pub label_in :
    Disk → ℤ → Text → WritingState → Option (List (ℤ × Text)) → WritingState × Option WriteError
label_in disk time label ws (some lines) = put_label disk time label ws lines
label_in disk time label ws none =
    if not disk.creates_label
    then (ws, some no_label_file)
    else if not disk.writes_header
    then (record ws { experiment_file = some [] }, none)
    else put_label disk time label ws []

unfoldable pub set_label : Disk → ℤ → Text → WritingState → WritingState × Option WriteError
set_label disk time label ws = label_in disk time label ws ws.experiment_file

unfoldable pub set_experiment_state_label :
    Disk → ℤ → Text → WritingState → WritingState × Option WriteError
unfolding set_label
set_experiment_state_label disk time label ws =
    if not ws.active then (ws, some not_active) else set_label disk time label ws

-- "START" and "STOP"
abbrev pub start_text : Text
start_text = 83 ∷ 84 ∷ 65 ∷ 82 ∷ 84 ∷ []

abbrev pub stop_text : Text
stop_text = 83 ∷ 84 ∷ 79 ∷ 80 ∷ []

-- "experiment_state", "external_trigger", "data_drop", "txt" and "bin"
abbrev pub experiment_text : Text
experiment_text =
    101 ∷ 120 ∷ 112 ∷ 101 ∷ 114 ∷ 105 ∷ 109 ∷ 101 ∷ 110 ∷ 116 ∷ 95 ∷ 115 ∷ 116 ∷ 97 ∷ 116 ∷ 101 ∷ []

abbrev pub trigger_text : Text
trigger_text =
    101 ∷ 120 ∷ 116 ∷ 101 ∷ 114 ∷ 110 ∷ 97 ∷ 108 ∷ 95 ∷ 116 ∷ 114 ∷ 105 ∷ 103 ∷ 103 ∷ 101 ∷ 114 ∷ []

abbrev pub drop_text : Text
drop_text = 100 ∷ 97 ∷ 116 ∷ 97 ∷ 95 ∷ 100 ∷ 114 ∷ 111 ∷ 112 ∷ []

abbrev pub txt : Text
txt = 116 ∷ 120 ∷ 116 ∷ []

abbrev pub bin : Text
bin = 98 ∷ 105 ∷ 110 ∷ []

-- WritingState.Start
unfoldable pub start_state :
    TextOps → Disk → Text → Text → WriteConfig → WritingState → WritingState × Option WriteError
unfolding set_label
start_state ops disk pattern path config ws = set_label disk ops.now start_text (record ws {
  active = true;
  paused = false;
  base_path = path;
  write_ljh22 = config.want_ljh22;
  write_ljh3 = config.want_ljh3;
  write_off = config.want_off;
  flush_also_syncs = config.want_syncs;
  filename_pattern = pattern;
  experiment_filename = ops.file_name pattern experiment_text txt;
  event_filename = ops.file_name pattern trigger_text bin;
  drop_filename = ops.file_name pattern drop_text txt;
})

abbrev pub close_drops : Disk → WritingState → WritingState × Option WriteError
close_drops disk ws =
    if is_some ws.drop_file && not disk.flushes_drops
    then (ws, some not_flushed)
    else if is_some ws.drop_file && not disk.closes_drops
    then (ws, some not_closed)
    else (
      record ws { drop_file = none; events_observed = 0; event_filename = []; drop_filename = [] },
      none,
    )

abbrev pub close_events : Disk → WritingState → WritingState × Option WriteError
close_events disk ws =
    if is_some ws.event_file && not disk.flushes_events
    then (ws, some not_flushed)
    else if is_some ws.event_file && not disk.closes_events
    then (ws, some not_closed)
    else close_drops disk (record ws { event_file = none })

abbrev pub forget_label : WritingState → WritingState
forget_label ws = record ws {
  experiment_file = none;
  experiment_filename = [];
  experiment_label = [];
  label_time = pos 0;
}

-- The label STOP and the closing of its file, before the rest.
abbrev pub close_label : Disk → WritingState × Option WriteError → WritingState × Option WriteError
close_label disk (ws, some e) = (ws, some e)
close_label disk (ws, none) =
    if not disk.closes_label then (ws, some not_closed) else close_events disk (forget_label ws)

abbrev pub stop_from :
    TextOps → Disk → WritingState → Option (List (ℤ × Text)) → WritingState × Option WriteError
stop_from ops disk ws none = close_events disk (forget_label ws)
stop_from ops disk ws (some lines) = close_label disk (put_label disk ops.now stop_text ws lines)

abbrev pub turned_off : WritingState → WritingState
turned_off ws = record ws { active = false; paused = false; filename_pattern = [] }

-- WritingState.Stop
unfoldable pub stop_state : TextOps → Disk → WritingState → WritingState × Option WriteError
stop_state ops disk ws = stop_from ops disk (turned_off ws) ws.experiment_file
