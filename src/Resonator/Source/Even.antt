-- ===== src/Resonator/Source/Even.antt =====
-- What a tick of the reader sends, and the block that is made of it.
use dastard.Base.{
  ℕ, zero, suc, ◌-◌, ◌<◌, ◌≡◌, refl, ap, ◌∙◌, subst, Bool, true, false, List, [], ◌∷◌, Option, none,
  some, if◌then◌else◌, leb, ltb, ltb→ge, length, length-append, length-replicate, replicate, All,
  All-append, arith,
}
use dastard.Base.Int.{ℤ, pos, ◌+ℤ◌, ◌-ℤ◌}
use dastard.Stream.{DataSegment}
use dastard.Packets.{Packet, value, panic}
use dastard.Resonator.{Group, GroupIndex}
use dastard.Resonator.Demux.{demux_data}
use dastard.Resonator.Demux.Columns.{Wide}
use dastard.Resonator.Distribute.{ResonatorSource}
use dastard.Resonator.Reader.{
  ResonatorMsg, Demultiplexed, group_at, set_group, demux_groups, ReaderTick, waits, full, sends,
  Gaps, fill_groups, trim_groups, read_producers, send_frames, align_groups, reader_tick,
}
use dastard.Resonator.Reader.Shape.{
  Yields, Yields-bind, Yields-then, Yields-if, IsGrid, demux_data-IsGrid,
}
use dastard.Resonator.Source.{
  ResonatorBlock, first_length, extract_external_triggers, resonator_segment, segments_of,
  distribute_blocks,
}

replicate-IsGrid : (m n : ℕ) → IsGrid m n (replicate m (replicate n 0))
replicate-IsGrid zero n = (refl, tt)
replicate-IsGrid (suc m) n =
    let (l, w) = replicate-IsGrid m n in (ap suc l, (length-replicate n 0, w))

demux_groups-IsGrid :
    (keys : List GroupIndex) (n left : ℕ) (groups : List (GroupIndex × Group))
    → Yields (λ d. IsGrid left n d.copies) (demux_groups keys n left groups)
unfolding demux_groups
demux_groups-IsGrid [] n left groups = replicate-IsGrid left n
demux_groups-IsGrid (key ∷ keys) n left groups =
    let Q : Demultiplexed → Type 0 = λ d. IsGrid left n d.copies in
    Yields-then Q (group_at key groups) _ (λ g.
      let k : ℕ = g.group_index.group_size in
      Yields-if Q (ltb left k) panic _ (λ e. tt)
        (λ e.
          Yields-bind (λ r. IsGrid k n r.1) Q (demux_data g (replicate k (replicate n 0)) (pos n)) _
            (demux_data-IsGrid k n g (replicate k (replicate n 0)) (pos n) (replicate-IsGrid k n))
            (λ d h.
              Yields-bind (λ rest. IsGrid (left - k) n rest.copies) Q
                (demux_groups keys n (left - k) (set_group key d.0 groups)) _
                (demux_groups-IsGrid keys n (left - k) (set_group key d.0 groups))
                (λ rest f. (
                  omega (arith, length-append d.1 rest.copies, h.0, f.0, ltb→ge left k e),
                  All-append (λ (dc : List ℕ). length dc ≡ n) d.1 rest.copies h.1 f.1,
                )))))

-- A message has one copy for each channel, all of the same length, which is not zero.
abbrev IsEven : ℕ → ReaderTick → Type 0
IsEven nchan waits = Unit {0}
IsEven nchan full = Unit {0}
IsEven nchan (sends msg) = (n : ℕ) × (0 < n) × IsGrid nchan n msg.datacopies

IsEven-unless :
    (nchan : ℕ) (b : Bool) (t : ReaderTick) → IsEven nchan t → IsEven nchan (if b then full else t)
IsEven-unless nchan true t h = tt
IsEven-unless nchan false t h = h

module _ (keys : List GroupIndex) (nchan queued : ℕ) (last_read now : ℤ) where
  send_frames-IsEven :
      (s : ResonatorSource) (groups : List (GroupIndex × Group)) (gaps : Gaps) (least : Option ℕ)
      → Yields
          (λ r. IsEven nchan r.1)
          (send_frames keys nchan queued last_read now s groups gaps least)
  send_frames-IsEven s groups gaps none = tt
  send_frames-IsEven s groups gaps (some zero) = tt
  send_frames-IsEven s groups gaps (some (suc n)) =
      Yields-bind (λ d. IsGrid nchan (suc n) d.copies) (λ r. IsEven nchan r.1)
        (demux_groups keys (suc n) nchan groups) _ (demux_groups-IsGrid keys (suc n) nchan groups)
        (λ d h. IsEven-unless nchan (leb 100 queued) (sends _) (suc n, omega arith, h))

  align_groups-IsEven :
      (s : ResonatorSource) (groups : List (GroupIndex × Group)) (gaps : Option Gaps)
      → Yields (λ r. IsEven nchan r.1) (align_groups keys nchan queued last_read now s groups gaps)
  align_groups-IsEven s groups none = tt
  align_groups-IsEven s groups (some gaps) =
      Yields-then (λ r. IsEven nchan r.1) (trim_groups groups gaps.first_sn none) _
        (λ t. send_frames-IsEven s t.0 gaps t.1)

  reader_tick-IsEven :
      (arrived : List (List Packet)) (s : ResonatorSource)
      → Yields (λ r. IsEven nchan r.1) (reader_tick keys nchan queued last_read now arrived s)
  unfolding reader_tick
  reader_tick-IsEven arrived s =
      Yields-then (λ r. IsEven nchan r.1) (read_producers arrived s) _
        (λ s'.
          Yields-then (λ r. IsEven nchan r.1) (fill_groups s'.groups _) _
            (λ f. align_groups-IsEven s' f.0 f.1))

-- A segment of `n` samples from a frame on.
abbrev pub IsPart : ℕ → ℤ → DataSegment → Type 0
IsPart n first seg = (length seg.raw_data ≡ n) × (seg.first_frame_index ≡ first)

segments_of-IsPart :
    (n : ℕ) (first time period dropped : ℤ) (dcs : List (List ℕ))
    → Wide n dcs
    → (length (segments_of (resonator_segment first time period dropped) dcs) ≡ length dcs)
      × All (IsPart n first) (segments_of (resonator_segment first time period dropped) dcs)
unfolding segments_of
segments_of-IsPart n first time period dropped [] h = (refl, tt)
segments_of-IsPart n first time period dropped (dc ∷ dcs) h =
    let (l, a) = segments_of-IsPart n first time period dropped dcs h.1 in
    (ap suc l, ((h.0, refl), a))

first_length-Yields :
    (n : ℕ) (dcs : List (List ℕ)) → Wide n dcs → Yields (λ m. m ≡ n) (first_length dcs)
first_length-Yields n [] h = tt
first_length-Yields n (dc ∷ dcs) h = h.0

-- The source and the block after some samples.
abbrev Follows : ℕ → ℕ → ℤ → ResonatorSource × ResonatorBlock → Type 0
Follows nchan n first r =
    (length r.1.segments ≡ nchan)
    × All (IsPart n first) r.1.segments
    × (r.0.next_frame ≡ first +ℤ pos n)

distribute_blocks-Follows :
    (duration : ℕ → ℤ) (period : ℤ) (keys : List GroupIndex) (msg : ResonatorMsg)
    (s : ResonatorSource) (nchan n : ℕ)
    → IsGrid nchan n msg.datacopies
    → Yields (Follows nchan n s.next_frame) (distribute_blocks duration period keys msg s)
unfolding distribute_blocks
distribute_blocks-Follows duration period keys msg s nchan n h =
    Yields-bind (λ m. m ≡ n) (Follows nchan n s.next_frame) (first_length msg.datacopies) _
      (first_length-Yields n msg.datacopies h.1)
      (λ m e.
        Yields-then (Follows nchan n s.next_frame) (extract_external_triggers keys s) _ (λ ext.
          let (l, a) =
            segments_of-IsPart n s.next_frame (msg.last_sample_time -ℤ duration m) period
              msg.dropped_frames msg.datacopies h.1 in
          (l ∙ h.0, a, ap (λ (x : ℕ). s.next_frame +ℤ pos x) e)))

-- When a tick of the reader sends a message, and distributeData makes a block of it at any later
-- time, then for some `n` above zero: the block has one segment for each channel, each with `n`
-- samples and starting at the source's next frame, and the next frame moves on by just `n`.
pub reader_tick-Follows :
    (keys : List GroupIndex) (nchan queued : ℕ) (last_read now : ℤ) (arrived : List (List Packet))
    (s s1 s2 s3 : ResonatorSource) (msg : ResonatorMsg) (duration : ℕ → ℤ) (period : ℤ)
    (block : ResonatorBlock)
    → reader_tick keys nchan queued last_read now arrived s ≡ value (s1, sends msg)
    → distribute_blocks duration period keys msg s2 ≡ value (s3, block)
    → (n : ℕ) × (0 < n)
      × (length block.segments ≡ nchan)
      × All (IsPart n s2.next_frame) block.segments
      × (s3.next_frame ≡ s2.next_frame +ℤ pos n)
reader_tick-Follows keys nchan queued last_read now arrived s s1 s2 s3 msg duration period block t
      b =
    let (n, some_frames, grid) =
      subst (Yields (λ r. IsEven nchan r.1)) t
        (reader_tick-IsEven keys nchan queued last_read now arrived s) in
    let (segments, parts, next) =
      subst (Yields (Follows nchan n s2.next_frame)) b
        (distribute_blocks-Follows duration period keys msg s2 nchan n grid) in
    (n, some_frames, segments, parts, next)
