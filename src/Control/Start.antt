-- ===== src/Control/Start.antt =====
-- writeControlStart of data_source.go.
pub mod Started
use dastard.Base.{
  ℕ, suc, ◌+◌, ◌-◌, ◌/◌, ◌==◌, Bool, true, false, not, ◌||◌, ◌&&◌, List, [], ◌∷◌, ◌++◌, Option,
  none, some, if◌then◌else◌, length, leb, ltb, Outcome, ok, fault, stuck, ◌>>=◌,
}
use dastard.Base.Int.{ℤ, pos, ltb_ℤ, leb_ℤ}
use dastard.Publish.{DataPublisher, has_writer, set_ljh22, set_ljh3, set_off}
use dastard.Control.{
  Text, WritingState, WriteConfig, WriteError, nothing_to_write, in_progress, no_projectors,
  wrong_map, no_directory, Disk, TextOps, Channel, Writing, start_state, set_label,
}

abbrev pub any_writer : List Channel → Bool
any_writer [] = false
any_writer (c ∷ cs) = has_writer c.publisher || any_writer cs

abbrev pub any_projectors : List Channel → Bool
any_projectors [] = false
any_projectors (c ∷ cs) = c.has_projectors || any_projectors cs

-- The files of one channel, in the order of the code.
abbrev pub with_files : WriteConfig → Channel → DataPublisher
with_files config c =
    let a = if config.want_ljh22 then set_ljh22 c.publisher c.record_samples else c.publisher in
    let b = if config.want_off && c.has_projectors then set_off a c.nbases else a in
    if config.want_ljh3 then set_ljh3 b else b

-- `Pixels[channelNumber-1]` panics for a number that the map does not have.
abbrev pub has_pixel : Option ℕ → ℤ → Bool
has_pixel none number = true
has_pixel (some n) number = ltb_ℤ (pos 0) number && leb_ℤ number (pos n)

unfoldable pub start_channels : WriteConfig → List Channel → Outcome (List Channel)
start_channels config [] = ok []
start_channels config (c ∷ cs) =
    let rest = start_channels config cs in
    if not (has_pixel config.map_pixels c.channel_number)
    then fault
    else (do done ← rest; ok (record c { publisher = with_files config c } ∷ done))

-- The length of a map is compared with a quotient.
abbrev pub map_fits : Option ℕ → ℕ → ℕ → Outcome Bool
map_fits none nchan per_pixel = ok true
map_fits (some n) nchan per_pixel = if per_pixel == 0 then fault else ok (n == nchan / per_pixel)

abbrev pub base_of : Writing → WriteConfig → Text
base_of w config = if ltb 0 (length config.path) then config.path else w.writing_state.base_path

abbrev pub start_in :
    TextOps → Disk → WriteConfig → Writing → Option Text → Outcome (Writing × Option WriteError)
start_in ops disk config w none = ok (w, some no_directory)
start_in ops disk config w (some pattern) = do
  channels ← start_channels config w.channels
  let done = start_state ops disk pattern (base_of w config) config w.writing_state
  ok (record w { channels = channels; writing_state = done.0 }, done.1)

unfoldable pub write_control_start :
    TextOps → Disk → WriteConfig → Writing → Outcome (Writing × Option WriteError)
unfolding start_channels start_state set_label
write_control_start ops disk config w =
    if not (config.want_ljh22 || config.want_off || config.want_ljh3)
    then ok (w, some nothing_to_write)
    else if any_writer w.channels
    then ok (w, some in_progress)
    else if config.want_off && not (any_projectors w.channels)
    then ok (w, some no_projectors)
    else (do
      fits ← map_fits config.map_pixels (length w.channels) w.channels_per_pixel
      if not fits
          then ok (w, some wrong_map)
          else start_in ops disk config w (disk.make_directory (base_of w config)))
