-- ===== src/Resonator/Reader.antt =====
-- A tick of readerMainLoop of resonator.go: the packets of all producers into the queues, the gaps
-- filled, the groups aligned, and the frames that all of them have demultiplexed.
pub mod Shape
use dastard.Base.{
  ℕ, zero, suc, ◌+◌, ◌-◌, List, [], ◌∷◌, ◌++◌, Option, none, some, if◌then◌else◌, ltb, leb,
  replicate, min,
}
use dastard.Base.Int.{ℤ, pos, ◌+ℤ◌, ◌-ℤ◌}
use dastard.Packets.{Packet, Result, value, failed, panic, stuck, ◌>>=◌}
use dastard.Resonator.{
  Group, GroupIndex, same_group, first_seq_num, trim_packets_before, count_samples_in_queue,
}
use dastard.Resonator.Fill.{Filled, fill_missing_packets}
use dastard.Resonator.Demux.{demux_data}
use dastard.Resonator.Distribute.{ResonatorSource, distribute_packets}

-- ResonatorBuffersType
pub record ResonatorMsg : Type 0 where
  pub datacopies : List (List ℕ)
  pub last_sample_time : ℤ
  pub time_diff : ℤ
  pub total_bytes : ℕ
  pub dropped_bytes : ℕ
  pub dropped_frames : ℤ

-- The loop over the producers, each with its packets.
unfoldable pub read_producers : List (List Packet) → ResonatorSource → Result ResonatorSource
read_producers [] s = value s
read_producers (ps ∷ pss) s = do s' ← distribute_packets ps s; read_producers pss s'

-- What the first loop over the groups finds: the greatest first number, and what was filled in.
pub record Gaps : Type 0 where
  pub first_sn : ℕ
  pub frames_dropped : ℤ
  pub bytes_dropped : ℕ

abbrev pub with_gaps : Gaps → ℕ → Filled → Gaps
with_gaps s sn f = record {
  first_sn = if ltb s.first_sn sn then sn else s.first_sn;
  frames_dropped = s.frames_dropped +ℤ f.frames_added;
  bytes_dropped = s.bytes_dropped + f.bytes_added;
}

abbrev pub more_groups :
    GroupIndex × Group
    → List (GroupIndex × Group)
    → (ℕ → Result (List (GroupIndex × Group) × Option Gaps))
    → Result ℕ
    → Result (List (GroupIndex × Group) × Option Gaps)
more_groups g gs rest (value sn) = do r ← rest sn; value (g ∷ r.0, r.1)
more_groups g gs rest (failed e) = value (g ∷ gs, none)
more_groups g gs rest panic = panic
more_groups g gs rest stuck = stuck

-- `none` waits for more data: a group has no packet, and the groups after it are left as they are.
unfoldable pub fill_groups :
    List (GroupIndex × Group) → Gaps → Result (List (GroupIndex × Group) × Option Gaps)
fill_groups [] s = value ([], some s)
fill_groups ((k, g) ∷ gs) s = do
  r ← fill_missing_packets g
  more_groups (k, r.0) gs (λ sn. fill_groups gs (with_gaps s sn r.1)) (first_seq_num r.0)

-- The second loop; `none` stands for the greatest integer.
unfoldable pub trim_groups :
    List (GroupIndex × Group) → ℕ → Option ℕ → Result (List (GroupIndex × Group) × Option ℕ)
trim_groups [] sn least = value ([], least)
trim_groups ((k, g) ∷ gs) sn least = do
  g' ← trim_packets_before g sn
  n ← count_samples_in_queue g'
  r ← trim_groups gs sn (some (elim least [ none ↦ n | some m ↦ min n m ]))
  value ((k, g') ∷ r.0, r.1)

-- The group of a key.
unfoldable pub group_at : GroupIndex → List (GroupIndex × Group) → Result Group
group_at key [] = panic
group_at key ((k, g) ∷ gs) = if same_group k key then value g else group_at key gs

unfoldable pub set_group :
    GroupIndex → Group → List (GroupIndex × Group) → List (GroupIndex × Group)
set_group key g [] = []
set_group key g ((k, h) ∷ gs) =
    if same_group k key then (k, g) ∷ gs else (k, h) ∷ set_group key g gs

pub record Demultiplexed : Type 0 where
  pub groups : List (GroupIndex × Group)
  pub copies : List (List ℕ)
  pub bytes : ℕ

-- The loop over the sorted keys, with `left` copies still to be filled.
unfoldable pub demux_groups :
    List GroupIndex → ℕ → ℕ → List (GroupIndex × Group) → Result Demultiplexed
demux_groups [] frames left groups =
    value (record { groups = groups; copies = replicate left (replicate frames 0); bytes = 0 })
demux_groups (key ∷ keys) frames left groups = do
  g ← group_at key groups
  if ltb left g.group_index.group_size then panic else (do
    d ← demux_data g (replicate g.group_index.group_size (replicate frames 0)) (pos frames)
    rest ← demux_groups keys frames (left - g.group_index.group_size) (set_group key d.0 groups)
    value (record { groups = rest.groups; copies = d.1 ++ rest.copies; bytes = d.2 + rest.bytes }))

-- What a tick does: it waits, ends the loop because the channel of messages is full, or sends.
pub data ReaderTick : Type 0 where
  waits full : ReaderTick
  sends : ResonatorMsg → ReaderTick

-- The alignment and the message.
abbrev pub send_frames :
    List GroupIndex
    → ℕ
    → ℕ
    → ℤ
    → ℤ
    → ResonatorSource
    → List (GroupIndex × Group)
    → Gaps
    → Option ℕ
    → Result (ResonatorSource × ReaderTick)
send_frames keys nchan queued last_read now s groups gaps none = panic
send_frames keys nchan queued last_read now s groups gaps (some zero) =
    value (record s { groups = groups }, waits)
send_frames keys nchan queued last_read now s groups gaps (some (suc n)) = do
  d ← demux_groups keys (suc n) nchan groups
  value (
    record s { groups = d.groups },
    if leb 100 queued
        then full
        else sends (record {
          datacopies = d.copies;
          last_sample_time = now;
          time_diff = now -ℤ last_read;
          total_bytes = d.bytes;
          dropped_bytes = gaps.bytes_dropped;
          dropped_frames = gaps.frames_dropped;
        }),
  )

abbrev pub align_groups :
    List GroupIndex
    → ℕ
    → ℕ
    → ℤ
    → ℤ
    → ResonatorSource
    → List (GroupIndex × Group)
    → Option Gaps
    → Result (ResonatorSource × ReaderTick)
align_groups keys nchan queued last_read now s groups none =
    value (record s { groups = groups }, waits)
align_groups keys nchan queued last_read now s groups (some gaps) = do
  t ← trim_groups groups gaps.first_sn none
  send_frames keys nchan queued last_read now s t.0 gaps t.1

-- A tick with the sorted keys and the number of channels of the source, `queued` messages waiting,
-- and the packets of each producer, read at the time `now`. With no group at all the number of
-- frames is the greatest integer, for which no copy can be made.
unfoldable pub reader_tick :
    List GroupIndex
    → ℕ
    → ℕ
    → ℤ
    → ℤ
    → List (List Packet)
    → ResonatorSource
    → Result (ResonatorSource × ReaderTick)
reader_tick keys nchan queued last_read now arrived s = do
  s' ← read_producers arrived s
  f ← fill_groups s'.groups (record { first_sn = 0; frames_dropped = pos 0; bytes_dropped = 0 })
  align_groups keys nchan queued last_read now s' f.0 f.1
