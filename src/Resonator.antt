-- ===== src/Resonator.antt =====
-- resonator.go: the group of channels whose packets arrive together, and its queue of packets.
pub mod Fill
pub mod Demux
pub mod Align
pub mod Create
pub mod Distribute
pub mod Reader
pub mod Keys
pub mod Source
mod Runs
use dastard.Base.{
  ℕ, zero, suc, ◌+◌, ◌-◌, ◌*◌, ◌/◌, ◌%◌, ◌==◌, Bool, true, false, not, ◌||◌, ◌&&◌, List, [], ◌∷◌,
  ◌++◌, Option, none, some, if◌then◌else◌, leb, ltb, length,
}
use dastard.Base.Int.{ℤ, pos, negsuc, ◌+ℤ◌, ◌-ℤ◌, ◌*ℤ◌, ltb_ℤ, leb_ℤ, eqb_ℤ, pos_part, neg_part}
use dastard.Unwrap.{PhaseUnwrapper}
use dastard.Packets.{
  Packet, PacketTimestamp, Payload, words16, words32, Result, value, failed, panic, stuck,
  empty_queue, ◌>>=◌,
}
use dastard.Packets.Print.{channel_info}

pub record GroupIndex : Type 0 where
  pub firstchan : ℕ
  pub group_size : ℕ

abbrev pub same_group : GroupIndex → GroupIndex → Bool
same_group a b = a.firstchan == b.firstchan && a.group_size == b.group_size

-- gIndex
abbrev pub g_index : Packet → Result GroupIndex
g_index p = do info ← channel_info p; value (record { firstchan = info.1; group_size = info.0 })

-- `counts_per_subframe` and the ticks are uint64; a frame number is an int64.
pub record FrameTiming : Type 0 where
  pub counts_per_subframe : ℕ
  pub last_timestamp : PacketTimestamp
  pub last_subframe : ℤ

-- `lasttime` and `sampleRate` are not used by the operations below. The group of Go is `group_size`
-- channels wide.
pub record Group : Type 0 where
  pub group_index : GroupIndex
  pub unwrappers : List (Option PhaseUnwrapper)
  pub queue : List Packet
  pub seqnumsync : ℕ
  pub last_sn : ℕ
  pub timing : FrameTiming

abbrev pub two64 : ℕ
two64 = 0x1_0000_0000_0000_0000

abbrev pub two32 : ℕ
two32 = 0x1_0000_0000

-- `int64(v)` of a uint64.
unfoldable pub int64 : ℕ → ℤ
int64 v = if ltb v 0x8000_0000_0000_0000 then pos v else negsuc (0xffff_ffff_ffff_ffff - v)

-- An int64 as a uint64.
unfoldable pub uint64 : ℤ → ℕ
uint64 (pos n) = n % two64
uint64 (negsuc n) = 0xffff_ffff_ffff_ffff - n % two64

abbrev pub minus : ℕ → ℤ
minus n = if n == 0 then pos 0 else negsuc (n - 1)

-- Go's `/`, towards zero. The divisor is not zero where it is called.
unfoldable pub quo_ℤ : ℤ → ℤ → ℤ
quo_ℤ (pos a) (pos b) = pos (a / b)
quo_ℤ (pos a) (negsuc b) = minus (a / suc b)
quo_ℤ (negsuc a) (pos b) = minus (suc a / b)
quo_ℤ (negsuc a) (negsuc b) = pos (suc a / suc b)

-- 64 subframes in a frame.
unfoldable pub update_frame_timing : Group → Packet → ℤ → Group
unfolding uint64 ◌*ℤ◌ ◌-ℤ◌
update_frame_timing g p frame = elim p.packet_timestamp [
  | none ↦ g
  | some ts ↦
      let now : ℤ = frame *ℤ pos 64 in
      let delta_subframe : ℤ = now -ℤ g.timing.last_subframe in
      let delta_ts : ℕ = (ts.ticks + two64 - g.timing.last_timestamp.ticks) % two64 in
      if leb_ℤ delta_subframe (pos 0) || delta_ts == 0 then g else record g {
        timing = record {
          counts_per_subframe = delta_ts / uint64 delta_subframe;
          last_timestamp = ts;
          last_subframe = now;
        };
      }
]

-- The difference of two int64 wraps around.
unfoldable pub subframe_count_from_timestamp : Group → ℕ → ℤ
unfolding int64 uint64 quo_ℤ ◌-ℤ◌ ◌+ℤ◌
subframe_count_from_timestamp g ticks =
    if g.timing.counts_per_subframe == 0
    then pos 0
    else let delta_ts : ℤ = int64 (uint64 (int64 ticks -ℤ int64 g.timing.last_timestamp.ticks)) in
      let delta_f : ℤ = quo_ℤ delta_ts (int64 g.timing.counts_per_subframe) in
      int64 (uint64 (g.timing.last_subframe +ℤ delta_f))

abbrev pub enqueue_packet : Group → Packet → Group
enqueue_packet g p = record g { queue = g.queue ++ (p ∷ []) }

-- firstSeqNum, with the error on an empty queue.
abbrev pub first_seq_num : Group → Result ℕ
first_seq_num g = elim g.queue [
  | [] ↦ failed empty_queue
  | p ∷ ps ↦ value ((p.sequence_number + two32 - g.seqnumsync) % two32)
]

-- The loop of trimPacketsBefore, once the queue is known to hold a packet.
unfoldable pub trim_loop : ℕ → List Packet → List Packet
trim_loop first [] = []
trim_loop first (p ∷ ps) = if leb first p.sequence_number then p ∷ ps else trim_loop first ps

-- The loop reads the first packet at once, so an empty queue panics.
unfoldable pub trim_queue : Group → ℕ → List Packet → Result Group
unfolding trim_loop
trim_queue g first [] = panic
trim_queue g first (p ∷ ps) = value (record g { queue = trim_loop first (p ∷ ps) })

unfoldable pub trim_packets_before : Group → ℕ → Result Group
unfolding trim_queue
trim_packets_before g first = trim_queue g ((first + g.seqnumsync) % two32) g.queue

abbrev pub samples_of : Payload → Result ℕ
samples_of (words16 ws) = value (length ws)
samples_of (words32 ws) = value (length ws)
samples_of _ = panic

unfoldable pub values_found : List Packet → Result ℕ
values_found [] = value 0
values_found (p ∷ ps) = do n ← samples_of p.payload; m ← values_found ps; value (n + m)

unfoldable pub count_samples_in_queue : Group → Result ℕ
unfolding values_found
count_samples_in_queue g = do
  n ← values_found g.queue
  if g.group_index.group_size == 0 then panic else value (n / g.group_index.group_size)
