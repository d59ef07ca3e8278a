-- ===== src/Resonator/Source.antt =====
-- The source of resonator.go around its reader: samplePackets of a group, the external triggers,
-- and the blocks of distributeData.
pub mod Even
use dastard.Base.{
  ℕ, zero, suc, ◌+◌, ◌*◌, ◌==◌, Bool, true, false, not, ◌||◌, List, [], ◌∷◌, ◌++◌, Option, none,
  some, if◌then◌else◌, ltb, length,
}
use dastard.Base.Int.{ℤ, pos, negsuc, ◌+ℤ◌, ◌-ℤ◌}
use dastard.RowCol.{rc_code}
use dastard.Stream.{DataSegment}
use dastard.Packets.{Packet, PacketTimestamp, Payload, raw_bytes, Result, value, panic, ◌>>=◌}
use dastard.Packets.Print.{frames}
use dastard.Packets.Words.{uint32_of}
use dastard.Resonator.{Group, GroupIndex, same_group, g_index, subframe_count_from_timestamp}
use dastard.Resonator.Reader.{ResonatorMsg, group_at}
use dastard.Resonator.Distribute.{ResonatorSource}

-- The variables of samplePackets: the first and last time stamps with the numbers of their packets.
pub record Sampled : Type 0 where
  pub first_time : PacketTimestamp
  pub first_number : ℕ
  pub final_time : PacketTimestamp
  pub final_number : ℕ
  pub samples : ℤ

abbrev pub at_start : Sampled → PacketTimestamp → ℕ → Sampled
at_start s ts sn =
    if s.first_time.ticks == 0 then record s { first_time = ts; first_number = sn } else s

abbrev pub at_end : Sampled → PacketTimestamp → ℕ → Sampled
at_end s ts sn =
    if ltb s.final_time.ticks ts.ticks then record s { final_time = ts; final_number = sn } else s

-- A time stamp counts when its rate is not zero; `has_rate` is that test of a float.
abbrev pub with_time : (ℕ → Bool) → Sampled → Option PacketTimestamp → ℕ → Sampled
with_time has_rate s none sn = s
with_time has_rate s (some ts) sn = if has_rate ts.rate then at_end (at_start s ts sn) ts sn else s

-- The loop over the queue. `none` is the error about a packet of another group.
unfoldable pub sample_loop :
    (ℕ → Bool) → GroupIndex → List Packet → Sampled → Result (Sampled × Bool)
sample_loop has_rate index [] s = value (s, true)
sample_loop has_rate index (p ∷ ps) s = do
  gidx ← g_index p
  if not (same_group gidx index) then value (s, false) else (do
    n ← frames p
    sample_loop has_rate index ps (
        with_time has_rate (record s { samples = s.samples +ℤ n }) p.packet_timestamp
          p.sequence_number))

abbrev pub nothing_sampled : Sampled
nothing_sampled = record {
  first_time = record { ticks = 0; rate = 0 };
  first_number = 0;
  final_time = record { ticks = 0; rate = 0 };
  final_number = 0;
  samples = pos 0;
}

abbrev pub last_number : List Packet → Result ℕ
last_number [] = panic
last_number (p ∷ []) = value p.sequence_number
last_number (p ∷ ps) = last_number ps

-- The group is in step with the first packet that had a time.
abbrev pub in_step : Group → Sampled → Group
in_step g s = if s.first_time.ticks == 0 then g else record g { seqnumsync = s.first_number }

-- samplePackets of a group, less the sample rate: the flag is false for the error, after which the
-- queue stays.
unfoldable pub sample_packets : (ℕ → Bool) → Group → Result (Group × Bool)
sample_packets has_rate g = do
  s ← sample_loop has_rate g.group_index g.queue nothing_sampled
  if s.1
      then (do
        last ← last_number g.queue
        value (record (in_step g s.0) { last_sn = last; queue = [] }, true))
      else value (in_step g s.0, false)

-- The triggers of a payload of `n` events, each of two words of 32 bits and a time of 64 bits, high
-- byte first. A payload that is too short is read past its end.
unfoldable pub event_times : Group → List ℕ → ℕ → Result (List ℤ)
event_times g bytes zero = value []
event_times g (v0 ∷ v1 ∷ v2 ∷ v3 ∷ a0 ∷ a1 ∷ a2 ∷ a3 ∷ t0 ∷ t1 ∷ t2 ∷ t3 ∷ t4 ∷ t5 ∷ t6 ∷ t7 ∷ rest)
      (suc n) =
    do
      more ← event_times g rest n
      value (
          subframe_count_from_timestamp g
            (uint32_of t0 t1 t2 t3 * 0x1_0000_0000 + uint32_of t4 t5 t6 t7)
          ∷ more)
event_times g _ (suc n) = panic

abbrev pub payload_times : Group → Payload → ℤ → Result (List ℤ)
payload_times g (raw_bytes []) n = panic
payload_times g (raw_bytes bytes) (pos n) = event_times g bytes n
payload_times g (raw_bytes bytes) (negsuc n) = panic
payload_times g other n = value []

abbrev pub first_group : List GroupIndex → ResonatorSource → Result Group
first_group [] s = panic
first_group (key ∷ keys) s = group_at key s.groups

unfoldable pub triggers_of : List GroupIndex → ResonatorSource → List Packet → Result (List ℤ)
triggers_of keys s [] = value []
triggers_of keys s (p ∷ ps) = do
  g ← first_group keys s
  n ← frames p
  now ← payload_times g p.payload n
  rest ← triggers_of keys s ps
  value (now ++ rest)

-- extractExternalTriggers empties the list of packets.
unfoldable pub extract_external_triggers :
    List GroupIndex → ResonatorSource → Result (ResonatorSource × List ℤ)
extract_external_triggers keys s = do
  found ← triggers_of keys s s.event_packets
  value (record s { event_packets = [] }, found)

abbrev pub resonator_segment : ℤ → ℤ → ℤ → ℤ → List ℕ → DataSegment
resonator_segment first_frame first_time period dropped raw = record {
  raw_data = raw;
  signed = false;
  frames_per_sample = 1;
  first_frame_index = first_frame;
  first_time = first_time;
  frame_period = period;
  volts_per_arb = 0;
  processed = false;
  dropped_frames = dropped;
}

unfoldable pub segments_of : (List ℕ → DataSegment) → List (List ℕ) → List DataSegment
segments_of make [] = []
segments_of make (dc ∷ dcs) = make dc ∷ segments_of make dcs

pub record ResonatorBlock : Type 0 where
  pub segments : List DataSegment
  pub external_rowcounts : List ℤ

abbrev pub first_length : List (List ℕ) → Result ℕ
first_length [] = panic
first_length (dc ∷ dcs) = value (length dc)

-- distributeData: `duration` gives the time from the first to the last of some samples.
unfoldable pub distribute_blocks :
    (ℕ → ℤ)
    → ℤ
    → List GroupIndex
    → ResonatorMsg
    → ResonatorSource
    → Result (ResonatorSource × ResonatorBlock)
distribute_blocks duration period keys msg s = do
  n ← first_length msg.datacopies
  ext ← extract_external_triggers keys s
  value (
    record ext.0 { next_frame = s.next_frame +ℤ pos n },
    record {
      segments =
          segments_of
            (resonator_segment s.next_frame (msg.last_sample_time -ℤ duration n) period
              msg.dropped_frames)
            msg.datacopies;
      external_rowcounts = ext.1;
    },
  )
