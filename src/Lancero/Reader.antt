-- ===== src/Lancero/Reader.antt =====
-- One tick of launchLanceroReader of lancero_source.go, for the one card that it allows: the buffer
-- of the card is checked, aligned to whole frames and demultiplexed.
pub mod Aligned
pub mod Columns
use dastard.Base.{
  ℕ, zero, suc, ◌+◌, ◌-◌, ◌*◌, ◌/◌, ◌==◌, Bool, true, false, not, ◌||◌, List, [], ◌∷◌, ◌++◌, Option,
  none, some, if◌then◌else◌, leb, ltb, length, take, drop, replicate,
}
use dastard.Base.Int.{ℤ, pos, ◌-ℤ◌, ltb_ℤ}
use dastard.Packets.{Result, value, failed, panic, stuck, ◌>>=◌}
use dastard.Packets.Words.{words_of16}
use dastard.Resonator.Demux.{copy_channels, as_is}
use dastard.Lancero.{LanceroDevice, streams_of}
use dastard.Lancero.Frames.{FrameBits, find_frame_bits}

-- The message from the reader to getNextBlock. Times are nanoseconds.
pub record BuffersMsg : Type 0 where
  pub datacopies : List (List ℕ)
  pub last_sample_time : ℤ
  pub time_diff : ℤ
  pub total_bytes : ℕ
  pub data_drop_detected : Bool

-- What a tick does: it waits for more, gives up the bytes of a bad buffer, or sends a message and
-- releases bytes, in two steps where data were dropped.
pub data Tick : Type 0 where
  too_small : Tick
  misread : ℕ → Tick
  sent : BuffersMsg → List ℕ → Tick

-- The buffer from a frame's start to a frame's end, and the bytes released before.
pub record Whole : Type 0 where
  pub bytes : List ℕ
  pub skipped : List ℕ
  pub dropped : Bool

-- The check for a data drop: `first` is the word of the first frame that starts in the buffer.
unfoldable pub align : LanceroDevice → ℕ → List ℕ → Result Whole
align dev first b =
    if first == dev.ncols * dev.nrows
    then value (record { bytes = b; skipped = []; dropped = false })
    else if first == 0 || leb dev.frame_size (first * 4)
    then panic
    else value (record {
      bytes = take (length b - dev.frame_size) (drop (first * 4) b);
      skipped = first * 4 ∷ [];
      dropped = true;
    })

-- The demultiplexing loops. The first streams are those of the card.
unfoldable pub demux_card : LanceroDevice → List ℕ → ℕ → List (List ℕ) → Result (List (List ℕ))
unfolding copy_channels
demux_card dev buffer frames copies =
    let nchan : ℕ = streams_of dev in
    if ltb (length copies) nchan then panic else (do
      copies' ← copy_channels as_is buffer nchan 0 frames 0 (take nchan copies)
      value (copies' ++ drop nchan copies))

-- From the aligned buffer on. A full channel of messages is a panic.
unfoldable pub send : LanceroDevice → ℕ → ℕ → ℤ → ℤ → Whole → Result Tick
send dev nstreams queued last_read time_fix w =
    let frames : ℕ = length w.bytes / dev.frame_size in
    if dev.frame_size == 0 || frames == 0 then panic else (do
      copies ← demux_card dev (words_of16 w.bytes) frames (replicate nstreams (replicate frames 0))
      if leb 100 queued
          then panic
          else value (
              sent
                (record {
                  datacopies = copies;
                  last_sample_time = time_fix;
                  time_diff = time_fix -ℤ last_read;
                  total_bytes = frames * dev.frame_size;
                  data_drop_detected = w.dropped;
                })
                (w.skipped ++ (frames * dev.frame_size ∷ []))))

-- The number of rows is a quotient by the number of columns found: with none it is a panic.
abbrev pub checked : LanceroDevice → ℕ → ℕ → ℤ → List ℕ → ℤ → FrameBits → Result Tick
checked dev nstreams queued last_read b time_fix f =
    if f.n == 0
    then panic
    else if f.failed || not (f.n == dev.ncols) || not ((f.p - f.q) / f.n == dev.nrows)
    then value (misread (length b))
    else (do w ← align dev f.q b; send dev nstreams queued last_read time_fix w)

-- A tick with `elapsed` since the last good read, `queued` messages waiting and the card's buffer
-- with its time, if it gives one; `nstreams` is the number of processors of the source.
unfoldable pub read_tick : LanceroDevice → ℕ → ℕ → ℤ → ℤ → Option (List ℕ × ℤ) → Result Tick
read_tick dev nstreams queued last_read elapsed none = panic
read_tick dev nstreams queued last_read elapsed (some (b, time_fix)) =
    if ltb_ℤ (pos 10000000000) elapsed
    then panic
    else if ltb (length b) (3 * dev.frame_size)
    then value too_small
    else checked dev nstreams queued last_read b time_fix (find_frame_bits b 2)
