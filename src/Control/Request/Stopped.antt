-- ===== src/Control/Request/Stopped.antt =====
-- What a STOP leaves, whatever the disk does.
use dastard.Base.{
  ◌≡◌, refl, true, false, List, [], ◌∷◌, Option, none, some, map, arith, Bool-cases, inl, inr, ok,
}
use dastard.Base.Int.{ℤ}
use dastard.Control.{
  Text, WritingState, WriteConfig, WriteError, Disk, TextOps, Channel, Writing, put_label,
  close_drops, close_events, close_label, forget_label, turned_off, stop_from, stop_state,
  stop_text,
}
use dastard.Control.Request.{
  has_prefix, pause_text, unpause_text, without_files, stop_all, write_control,
}
use dastard.Control.Start.{any_writer}

-- Neither active nor paused.
abbrev pub IsOff : WritingState → Type 0
IsOff ws = (ws.active ≡ false) × (ws.paused ≡ false)

close_drops-IsOff : (disk : Disk) (ws : WritingState) → IsOff ws → IsOff (close_drops disk ws).0
close_drops-IsOff disk ws h = ground arith

close_events-IsOff : (disk : Disk) (ws : WritingState) → IsOff ws → IsOff (close_events disk ws).0
close_events-IsOff disk ws h = ground arith

put_label-IsOff :
    (disk : Disk) (time : ℤ) (label : Text) (ws : WritingState) (lines : List (ℤ × Text))
    → IsOff ws
    → IsOff (put_label disk time label ws lines).0
put_label-IsOff disk time label ws lines h = ground arith

close_label-IsOff :
    (disk : Disk) (r : WritingState × Option WriteError) → IsOff r.0 → IsOff (close_label disk r).0
close_label-IsOff disk (ws, some e) h = h
close_label-IsOff disk (ws, none) h = elim (Bool-cases disk.closes_label) [
  | inl e ↦ rw e (close_events-IsOff disk (forget_label ws) h)
  | inr e ↦ rw e h
]

stop_from-IsOff :
    (ops : TextOps) (disk : Disk) (ws : WritingState) (file : Option (List (ℤ × Text)))
    → IsOff ws
    → IsOff (stop_from ops disk ws file).0
stop_from-IsOff ops disk ws none h = close_events-IsOff disk (forget_label ws) h
stop_from-IsOff ops disk ws (some lines) h =
    close_label-IsOff disk (put_label disk ops.now stop_text ws lines)
      (put_label-IsOff disk ops.now stop_text ws lines h)

without_files-idle : (cs : List Channel) → any_writer (map without_files cs) ≡ false
without_files-idle [] = refl
without_files-idle (c ∷ cs) = without_files-idle cs

stop_only :
    (l : Text)
    → has_prefix l stop_text ≡ true
    → (has_prefix l pause_text ≡ false) × (has_prefix l unpause_text ≡ false)
stop_only [] h = absurd (ground arith)
stop_only (a ∷ l) h = (ground arith, ground arith)

-- A request whose upper-case form begins with STOP returns. No channel has a writer after it, and
-- writing is neither active nor paused, also when the call returns an error because a file could
-- not be written, flushed or closed.
pub write_control-IsOff :
    (ops : TextOps) (disk : Disk) (config : WriteConfig) (w : Writing)
    → has_prefix (ops.to_upper config.request) stop_text ≡ true
    → (w' : Writing) × (e : Option WriteError) × (write_control ops disk config w ≡ ok (w', e))
      × (any_writer w'.channels ≡ false)
      × IsOff w'.writing_state
unfolding write_control stop_all stop_state
write_control-IsOff ops disk config w h =
    let (other, another) = stop_only (ops.to_upper config.request) h in
    let (w', e) = stop_all ops disk w in
    (
      w',
      e,
      rw (other, another, h) refl,
      without_files-idle w.channels,
      stop_from-IsOff ops disk (turned_off w.writing_state) w.writing_state.experiment_file
          (refl, refl),
    )
