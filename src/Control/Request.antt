-- ===== src/Control/Request.antt =====
-- WriteControl of data_source.go: the request in a text.
pub mod Stopped
mod Runs
use dastard.Base.{
  ℕ, suc, ◌+◌, ◌==◌, Bool, true, false, not, ◌||◌, ◌&&◌, List, [], ◌∷◌, ◌++◌, Option, none, some,
  if◌then◌else◌, length, leb, ltb, drop, get_or, map, Outcome, ok, fault, stuck, ◌>>=◌,
}
use dastard.Publish.{DataPublisher, set_pause, remove_ljh22, remove_ljh3, remove_off}
use dastard.Control.{
  Text, WritingState, WriteConfig, WriteError, bad_unpause, unknown_request, Disk, TextOps, Channel,
  Writing, start_text, stop_text, start_state, set_label, set_experiment_state_label, stop_state,
}
use dastard.Control.Start.{write_control_start, start_channels}

-- "PAUSE" and "UNPAUSE"
abbrev pub pause_text : Text
pause_text = 80 ∷ 65 ∷ 85 ∷ 83 ∷ 69 ∷ []

abbrev pub unpause_text : Text
unpause_text = 85 ∷ 78 ∷ 80 ∷ 65 ∷ 85 ∷ 83 ∷ 69 ∷ []

-- strings.HasPrefix
abbrev pub has_prefix : Text → Text → Bool
has_prefix text [] = true
has_prefix [] (b ∷ bs) = false
has_prefix (a ∷ l) (b ∷ bs) = a == b && has_prefix l bs

abbrev pub pause_all : Writing → Bool → Writing
pause_all w pause = record w {
  channels = map (λ (c : Channel). record c { publisher = set_pause c.publisher pause }) w.channels;
  writing_state = record w.writing_state { paused = pause };
}

-- The label of "UNPAUSE label" is set before anything is unpaused.
abbrev pub after_label : Writing → WritingState × Option WriteError → Writing × Option WriteError
after_label w (ws, some e) = (record w { writing_state = ws }, some e)
after_label w (ws, none) = (pause_all (record w { writing_state = ws }) false, none)

abbrev pub unpause : TextOps → Disk → Text → Writing → Writing × Option WriteError
unpause ops disk request w =
    if leb (length request) 7
    then (pause_all w false, none)
    else if not (get_or request 7 0 == 32) || length request == 8
    then (w, some bad_unpause)
    else after_label w (set_experiment_state_label disk ops.now (drop 8 request) w.writing_state)

abbrev pub without_files : Channel → Channel
without_files c = record c { publisher = remove_ljh3 (remove_off (remove_ljh22 c.publisher)) }

unfoldable pub stop_all : TextOps → Disk → Writing → Writing × Option WriteError
unfolding stop_state
stop_all ops disk w =
    let done = stop_state ops disk w.writing_state in
    (record w { channels = map without_files w.channels; writing_state = done.0 }, done.1)

unfoldable pub write_control :
    TextOps → Disk → WriteConfig → Writing → Outcome (Writing × Option WriteError)
unfolding stop_all stop_state set_experiment_state_label set_label write_control_start
    start_channels start_state
write_control ops disk config w =
    let upper = ops.to_upper config.request in
    if has_prefix upper pause_text
    then ok (pause_all w true, none)
    else if has_prefix upper unpause_text
    then ok (unpause ops disk config.request w)
    else if has_prefix upper stop_text
    then ok (stop_all ops disk w)
    else if has_prefix upper start_text
    then write_control_start ops disk config w
    else ok (w, some unknown_request)
