-- ===== src/Lancero/Reader/Aligned.antt =====
-- What the reader sends from buffers of frames.
use dastard.Base.{
  ℕ, suc, ◌+◌, ◌-◌, ◌*◌, ◌/◌, ◌≤◌, ◌||◌, ◌<◌, ◌≡◌, refl, sym, ap, ◌∙◌, Bool, true, false, List, [],
  ◌∷◌, ◌++◌, some, length, take, drop, replicate, arith, leb, ltb, ◌==◌, length-take, length-drop,
  ge→ltb, ==_iff,
}
use dastard.Base.Int.{ℤ, pos, ◌-ℤ◌, ◌≤ℤ◌, ltb_ℤ}
use native.Mathlib.Nat.{mul-div_cancel, mul_comm, zero-lt-suc}
use dastard.Packets.{value}
use dastard.Packets.Words.{words_of16}
use dastard.Resonator.Demux.Columns.{AreColumns}
use dastard.Lancero.{LanceroDevice, streams_of}
use dastard.Lancero.Frames.{bits_from}
use dastard.Lancero.Frames.Found.{find_frame_bits-frames}
use dastard.Lancero.Reader.{BuffersMsg, Whole, align, send, read_tick, sent}
use dastard.Lancero.Reader.Columns.{demux_card-columns, frames_in}

-- A card with frames of `suc n` columns, `suc n + suc m` words in all, and a reader with room.
pub record IsReading (dev : LanceroDevice) (n m queued : ℕ) (elapsed : ℤ) : Type 0 where
  pub cols : dev.ncols ≡ suc n
  pub words : dev.ncols * dev.nrows ≡ suc n + suc m
  pub frame : dev.frame_size ≡ 4 * (suc n + suc m)
  pub room : queued < 100
  pub recent : elapsed ≤ℤ pos 10000000000

-- The message sent, with `k` whole frames from the bytes.
pub record IsSent (dev : LanceroDevice) (k : ℕ) (bytes : List ℕ) (dropped : Bool) (time_fix : ℤ)
    (msg : BuffersMsg) : Type 0 where
  pub copies : length msg.datacopies ≡ streams_of dev
  pub columns : AreColumns (streams_of dev) (words_of16 bytes) k 0 msg.datacopies
  pub marked : msg.data_drop_detected ≡ dropped
  pub at_time : msg.last_sample_time ≡ time_fix
  pub counted : msg.total_bytes ≡ k * dev.frame_size

send-IsSent :
    (dev : LanceroDevice) (n m queued : ℕ) (elapsed last_read time_fix : ℤ) (w : Whole)
    → IsReading dev n m queued elapsed
    → dev.frame_size ≤ length w.bytes
    → (msg : BuffersMsg) × (send dev (streams_of dev) queued last_read time_fix w
        ≡ value (sent msg (w.skipped ++ (length w.bytes / dev.frame_size * dev.frame_size ∷ []))))
      × IsSent dev (length w.bytes / dev.frame_size) w.bytes w.dropped time_fix msg
unfolding send
send-IsSent dev n m queued elapsed last_read time_fix w r h =
    let k : ℕ = length w.bytes / dev.frame_size in
    let (some_frames, fits) = frames_in dev n m w.bytes r.words r.frame h in
    let (new, e, l, f) = demux_card-columns dev (words_of16 w.bytes) k fits in
    let good : (dev.frame_size == 0 || k == 0) ≡ false = ground (arith, some_frames, r.frame) in
    let free : leb 100 queued ≡ false = ground (arith, r.room) in
    (
      record {
        datacopies = new;
        last_sample_time = time_fix;
        time_diff = time_fix -ℤ last_read;
        total_bytes = k * dev.frame_size;
        data_drop_detected = w.dropped;
      },
      rw (good, e, free) refl,
      record { copies = l; columns = f; marked = refl; at_time = refl; counted = refl },
    )

-- The frame bits of a buffer: the rest of a frame, of `left` marked words and `suc blank` others,
-- and a whole frame.
abbrev pub FramesAt : List ℕ → ℕ → ℕ → ℕ → ℕ → List Bool → Type 0
FramesAt b left blank n m rest =
    bits_from b 2
    ≡ replicate left true
      ++ (false
          ∷ (replicate blank false
              ++ (true ∷ (replicate n true ++ (false ∷ (replicate m false ++ (true ∷ rest)))))))

-- The tick of a reader with room, up to the alignment.
read_tick-aligns :
    (dev : LanceroDevice) (n m queued : ℕ) (elapsed last_read time_fix : ℤ) (b : List ℕ)
    (left blank : ℕ) (rest : List Bool) (w : Whole)
    → IsReading dev n m queued elapsed
    → 3 * dev.frame_size ≤ length b
    → FramesAt b left blank n m rest
    → align dev (left + suc blank) b ≡ value w
    → read_tick dev (streams_of dev) queued last_read elapsed (some (b, time_fix))
      ≡ send dev (streams_of dev) queued last_read time_fix w
unfolding read_tick
read_tick-aligns dev n m queued elapsed last_read time_fix b left blank rest w r h bits a =
    let first : ℕ = left + suc blank in
    let width : first + suc n + suc m - first ≡ dev.nrows * suc n =
      omega (arith, r.words, ap (λ (x : ℕ). x * dev.nrows) r.cols, mul_comm (suc n) dev.nrows) in
    let rows : (first + suc n + suc m - first) / suc n ≡ dev.nrows =
      rw width (mul-div_cancel dev.nrows (zero-lt-suc n)) in
    let late : ltb_ℤ (pos 10000000000) elapsed ≡ false = ground (arith, r.recent) in
    let long : ltb (length b) (3 * dev.frame_size) ≡ false =
      ge→ltb (length b) (3 * dev.frame_size) h in
    let same_cols : (suc n == dev.ncols) ≡ true = (==_iff (suc n) dev.ncols).1 (sym r.cols) in
    let same_rows : ((first + suc n + suc m - first) / suc n == dev.nrows) ≡ true =
      (==_iff ((first + suc n + suc m - first) / suc n) dev.nrows).1 rows in
    rw
      (
        late,
        long,
        find_frame_bits-frames b 2 left blank n m rest (omega arith) bits,
        same_cols,
        same_rows,
        a,
      )
      (ground arith)

-- A reader with room, on a card with frames of ncols * nrows words of four bytes and a buffer of at
-- least three frames that starts with a frame: it sends without a panic one copy for each stream,
-- where sample t of stream c is word t * nchan + c of the buffer, for all whole frames; it marks no
-- data drop, and releases just the bytes of these frames.
pub read_tick-IsSent :
    (dev : LanceroDevice) (n m queued : ℕ) (elapsed last_read time_fix : ℤ) (b : List ℕ)
    (left blank : ℕ) (rest : List Bool)
    → IsReading dev n m queued elapsed
    → 3 * dev.frame_size ≤ length b
    → FramesAt b left blank n m rest
    → left + suc blank ≡ suc n + suc m
    → (msg : BuffersMsg) × (read_tick dev
          (streams_of dev)
          queued
          last_read
          elapsed
          (some (b, time_fix))
        ≡ value (sent msg (length b / dev.frame_size * dev.frame_size ∷ [])))
      × IsSent dev (length b / dev.frame_size) b false time_fix msg
unfolding align
read_tick-IsSent dev n m queued elapsed last_read time_fix b left blank rest r h bits first =
    let w : Whole = record { bytes = b; skipped = []; dropped = false } in
    let (msg, e, s) =
      send-IsSent dev n m queued elapsed last_read time_fix w r (omega (arith, h)) in
    let same : (left + suc blank == dev.ncols * dev.nrows) ≡ true =
      (==_iff (left + suc blank) (dev.ncols * dev.nrows)).1 (first ∙ sym r.words) in
    (
      msg,
      read_tick-aligns dev n m queued elapsed last_read time_fix b left blank rest w r h bits
            (rw same refl)
          ∙ e,
      s,
    )

skips :
    (dev : LanceroDevice) (n m queued : ℕ) (elapsed : ℤ) (b : List ℕ) (first : ℕ)
    → IsReading dev n m queued elapsed
    → 0 < first
    → first < suc n + suc m
    → align dev first b
      ≡ value (record {
        bytes = take (length b - dev.frame_size) (drop (first * 4) b);
        skipped = first * 4 ∷ [];
        dropped = true;
      })
unfolding align
skips dev n m queued elapsed b first r hp hf =
    let other : (first == dev.ncols * dev.nrows) ≡ false = ground (arith, hf, r.words) in
    let inside : (first == 0 || leb dev.frame_size (first * 4)) ≡ false =
      ground (arith, hp, hf, r.frame) in
    rw (other, inside) refl

-- The same reader on a buffer that starts inside a frame, with `first` words of it left: it skips
-- these words, and at the end of the buffer the bytes that fill the frame up, sends the columns of
-- the frames between, marks the data drop, and releases the two parts one after the other.
pub read_tick-skips :
    (dev : LanceroDevice) (n m queued : ℕ) (elapsed last_read time_fix : ℤ) (b : List ℕ)
    (left blank first : ℕ) (rest : List Bool)
    → IsReading dev n m queued elapsed
    → 3 * dev.frame_size ≤ length b
    → FramesAt b left blank n m rest
    → left + suc blank ≡ first
    → first < suc n + suc m
    → let kept = take (length b - dev.frame_size) (drop (first * 4) b) in
      (msg : BuffersMsg) × (read_tick dev
          (streams_of dev)
          queued
          last_read
          elapsed
          (some (b, time_fix))
        ≡ value (sent msg (first * 4 ∷ (length kept / dev.frame_size * dev.frame_size ∷ []))))
      × (length kept ≡ length b - dev.frame_size)
      × IsSent dev (length kept / dev.frame_size) kept true time_fix msg
unfolding align
read_tick-skips dev n m queued elapsed last_read time_fix b left blank first rest r h bits at hf =
    let kept = take (length b - dev.frame_size) (drop (first * 4) b) in
    let size : length kept ≡ length b - dev.frame_size = omega (
      arith,
      h,
      r.frame,
      hf,
      length-take (length b - dev.frame_size) (drop (first * 4) b),
      length-drop (first * 4) b,
    ) in
    let w : Whole = record { bytes = kept; skipped = first * 4 ∷ []; dropped = true } in
    let (msg, e, s) =
      send-IsSent dev n m queued elapsed last_read time_fix w r (omega (arith, h, size)) in
    (
      msg,
      read_tick-aligns dev n m queued elapsed last_read time_fix b left blank rest w r h bits
            (rw at (skips dev n m queued elapsed b first r (omega (arith, at)) hf))
          ∙ e,
      size,
      s,
    )
