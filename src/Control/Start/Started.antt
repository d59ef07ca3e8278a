-- ===== src/Control/Start/Started.antt =====
-- What a START leaves.
use dastard.Base.{
  ◌≡◌, refl, Bool, true, false, not, ◌||◌, ◌&&◌, List, [], ◌∷◌, Option, none, some, if◌then◌else◌,
  length, All, arith, Outcome, ok, fault, stuck, ◌>>=◌,
}
use dastard.Publish.{has_writer, is_some}
use dastard.Control.{
  Text, WritingState, WriteConfig, WriteError, wrong_map, no_label_file, no_label_line, Disk,
  TextOps, Channel, Writing, start_state, set_label,
}
use dastard.Control.Start.{
  any_writer, any_projectors, with_files, has_pixel, start_channels, map_fits, start_in, base_of,
  write_control_start,
}

-- A channel has the files that the request wants, OFF only with projectors; an LJH file also ends
-- its pause.
pub record IsStarted (config : WriteConfig) (old new : Channel) : Type 0 where
  pub ljh22_wanted : is_some new.publisher.ljh22 ≡ config.want_ljh22
  pub off_wanted : is_some new.publisher.off ≡ (config.want_off && old.has_projectors)
  pub ljh3_wanted : is_some new.publisher.ljh3 ≡ config.want_ljh3
  pub pause_left :
      new.publisher.writing_paused
      ≡ (not (config.want_ljh22 || config.want_ljh3) && old.publisher.writing_paused)

abbrev pub AllStarted : WriteConfig → List Channel → List Channel → Type 0
AllStarted config [] [] = Unit {0}
AllStarted config (c ∷ cs) (d ∷ ds) = IsStarted config c d × AllStarted config cs ds
AllStarted config _ _ = true ≡ false

with_files-IsStarted :
    (config : WriteConfig) (c : Channel)
    → has_writer c.publisher ≡ false
    → IsStarted config c (record c { publisher = with_files config c })
with_files-IsStarted config c h = record {
  ljh22_wanted = ground arith;
  off_wanted = ground arith;
  ljh3_wanted = ground arith;
  pause_left = ground arith;
}

-- The map, if there is one, has a pixel for the number of each channel.
abbrev pub AllMapped : WriteConfig → List Channel → Type 0
AllMapped config cs = All (λ (c : Channel). has_pixel config.map_pixels c.channel_number ≡ true) cs

start_channels-AllStarted :
    (config : WriteConfig) (cs : List Channel)
    → AllMapped config cs
    → any_writer cs ≡ false
    → (ds : List Channel) × (start_channels config cs ≡ ok ds) × AllStarted config cs ds
unfolding start_channels
start_channels-AllStarted config [] m h = ([], refl, tt)
start_channels-AllStarted config (c ∷ cs) m h =
    let idle : has_writer c.publisher ≡ false = ground arith in
    let others : any_writer cs ≡ false = ground arith in
    let (ds, e, a) = start_channels-AllStarted config cs m.1 others in
    (
      record c { publisher = with_files config c } ∷ ds,
      rw (m.0, e) refl,
      (with_files-IsStarted config c idle, a),
    )

-- A disk on which the label's file can be created and written.
pub record IsWritable (disk : Disk) : Type 0 where
  pub label_created : disk.creates_label ≡ true
  pub header_written : disk.writes_header ≡ true
  pub line_written : disk.writes_line ≡ true

start_state-active :
    (ops : TextOps) (disk : Disk) (pattern path : Text) (config : WriteConfig) (ws : WritingState)
    → let (ws', e) = start_state ops disk pattern path config ws in
      (ws'.active ≡ true) × (ws'.paused ≡ false)
unfolding start_state set_label
start_state-active ops disk pattern path config ws = ground arith

start_state-error :
    (ops : TextOps) (disk : Disk) (pattern path : Text) (config : WriteConfig) (ws : WritingState)
    → IsWritable disk
    → (start_state ops disk pattern path config ws).1 ≡ none
unfolding start_state set_label
start_state-error ops disk pattern path config ws h = ground arith

-- A START that wants some format, while no channel has a writer, OFF only when a channel has
-- projectors, on a disk that makes the directory and takes the label, and either without a map or
-- with one of the right length that has a pixel for each channel's number: it returns without an
-- error, writing is active and not paused, and each channel has writers for just the formats that
-- are wanted, OFF only if it has projectors. The pause of a channel ends if an LJH format is
-- wanted, and stays as it was otherwise.
pub write_control_start-AllStarted :
    (ops : TextOps) (disk : Disk) (config : WriteConfig) (w : Writing) (pattern : Text)
    → (config.want_ljh22 || config.want_off || config.want_ljh3) ≡ true
    → any_writer w.channels ≡ false
    → (config.want_off && not (any_projectors w.channels)) ≡ false
    → map_fits config.map_pixels (length w.channels) w.channels_per_pixel ≡ ok true
    → AllMapped config w.channels
    → disk.make_directory (base_of w config) ≡ some pattern
    → IsWritable disk
    → (w' : Writing) × (write_control_start ops disk config w ≡ ok (w', none))
      × (w'.writing_state.active ≡ true)
      × (w'.writing_state.paused ≡ false)
      × AllStarted config w.channels w'.channels
unfolding write_control_start
write_control_start-AllStarted ops disk config w pattern some_format idle projectors fits mapped
      directory writable =
    let (channels, e, all) = start_channels-AllStarted config w.channels mapped idle in
    let ws = start_state ops disk pattern (base_of w config) config w.writing_state in
    let on = start_state-active ops disk pattern (base_of w config) config w.writing_state in
    let quiet =
      start_state-error ops disk pattern (base_of w config) config w.writing_state writable in
    (
      record w { channels = channels; writing_state = ws.0 },
      rw (some_format, idle, projectors, fits, directory, e, quiet) refl,
      on.0,
      on.1,
      all,
    )

-- What a refused request leaves, and the errors that come too late for that.
abbrev pub Settled : Writing → Outcome (Writing × Option WriteError) → Type 0
Settled w (ok (w', some no_label_file)) = w'.writing_state.active ≡ true
Settled w (ok (w', some no_label_line)) = w'.writing_state.active ≡ true
Settled w (ok (w', some e)) = w' ≡ w
Settled w (ok (w', none)) = w'.writing_state.active ≡ true
Settled w fault = Unit {0}
Settled w stuck = Unit {0}

start_state-Settled :
    (ops : TextOps) (disk : Disk) (pattern path : Text) (config : WriteConfig) (w : Writing)
    (channels : List Channel)
    → let done = start_state ops disk pattern path config w.writing_state in
      Settled w (ok (record w { channels = channels; writing_state = done.0 }, done.1))
unfolding start_state set_label
start_state-Settled ops disk pattern path config w channels = ground arith

choice-Settled :
    (w : Writing) (b : Bool) (x y : Outcome (Writing × Option WriteError))
    → Settled w x
    → Settled w y
    → Settled w (if b then x else y)
choice-Settled w true x y h k = h
choice-Settled w false x y h k = k

start_in-Settled :
    (ops : TextOps) (disk : Disk) (config : WriteConfig) (w : Writing) (pattern : Option Text)
    → Settled w (start_in ops disk config w pattern)
start_in-Settled ops disk config w none = refl
start_in-Settled ops disk config w (some pattern) = started (start_channels config w.channels)
  where
    started :
        (r : Outcome (List Channel))
        → Settled w (
            r >>= λ channels.
            let done = start_state ops disk pattern (base_of w config) config w.writing_state in
            ok (record w { channels = channels; writing_state = done.0 }, done.1))
    started (ok channels) =
        start_state-Settled ops disk pattern (base_of w config) config w channels
    started fault = tt
    started stuck = tt

-- A START that returns without an error leaves writing active. One that returns an error has
-- changed nothing, unless the error is about the file of the experiment's states: then writing is
-- active all the same.
pub write_control_start-Settled :
    (ops : TextOps) (disk : Disk) (config : WriteConfig) (w : Writing)
    → Settled w (write_control_start ops disk config w)
unfolding write_control_start
write_control_start-Settled ops disk config w =
    choice-Settled w (not (config.want_ljh22 || config.want_off || config.want_ljh3)) _ _ refl (
      choice-Settled w (any_writer w.channels) _ _ refl (
        choice-Settled w (config.want_off && not (any_projectors w.channels)) _ _ refl
          (mapped (map_fits config.map_pixels (length w.channels) w.channels_per_pixel))))
  where
    mapped :
        (r : Outcome Bool)
        → Settled w (
            r >>= λ fits.
            if not fits
            then ok (w, some wrong_map)
            else start_in ops disk config w (disk.make_directory (base_of w config)))
    mapped (ok true) = start_in-Settled ops disk config w (disk.make_directory (base_of w config))
    mapped (ok false) = refl
    mapped fault = tt
    mapped stuck = tt
