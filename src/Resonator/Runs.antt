-- ===== src/Resonator/Runs.antt =====
-- Runs of resonator.go at concrete queues.
use dastard.Base.{
  ℕ, ◌⊎◌, ◌+◌, ◌<◌, ◌≤◌, ◌≡◌, refl, true, false, List, [], ◌∷◌, none, some, All, arith, length,
}
use dastard.Base.Int.{pos, ◌+ℤ◌, ◌-ℤ◌, negsuc}
use dastard.Packets.{Packet, words16, Result, value, little, int16}
use dastard.Packets.Make.{empty_packet}
use dastard.Packets.Print.{frames, channel_info}
use dastard.Resonator.{
  Group, GroupIndex, subframe_count_from_timestamp, trim_packets_before, count_samples_in_queue,
}
use dastard.Resonator.Fill.{Filled, fill_missing_packets}
use dastard.Resonator.Fill.Numbers.{fill_missing_packets-numbers, numbers, IsPlaced, IsCounted}
use dastard.Resonator.Demux.{Demuxed, demux_packets, demux_data, high_word}
use dastard.Resonator.Demux.Columns.{AreColumns}
use dastard.Resonator.Demux.Queue.{IsSample, demux_packets-AreColumns}
use dastard.Resonator.Align.{subframe_count-after}
use dastard.Resonator.Distribute.{ResonatorSource, distribute_packets}
use dastard.Resonator.Reader.{
  ReaderTick, ResonatorMsg, reader_tick, sends, read_producers, fill_groups, trim_groups,
  demux_groups, group_at, set_group,
}
use dastard.Resonator.Source.{
  extract_external_triggers, triggers_of, ResonatorBlock, segments_of, resonator_segment,
  distribute_blocks,
}
use dastard.Resonator.Source.Even.{IsPart, reader_tick-Follows}
use dastard.Resonator.Create.{UnwrapOptions}
use dastard.Resonator.Keys.{check_groups, add_channels, all_channels, group_channels, sort_groups}
use dastard.Resonator.Keys.Numbers.{count, IsRising}
use dastard.Resonator.Keys.Rising.{chan_numbers, check_groups-IsRising}

-- A packet of two channels and two frames.
abbrev two_by_two : ℕ → Packet
two_by_two sn = record empty_packet {
  header_length = 40;
  payload_length = 8;
  packet_length = 48;
  sequence_number = sn;
  packet_format = some (record {
    endian = some little;
    rawfmt = 60 ∷ 104 ∷ [];
    wordlen = 2;
    nvals = 1;
    dtype = int16 ∷ [];
  });
  packet_shape = some (pos 2 ∷ []);
  payload = words16 (10 ∷ 20 ∷ 11 ∷ 21 ∷ []);
}

abbrev pair_group : List Packet → Group
pair_group queue = record {
  group_index = record { firstchan = 0; group_size = 2 };
  unwrappers = none ∷ none ∷ [];
  queue = queue;
  seqnumsync = 0;
  last_sn = 7;
  timing = record {
    counts_per_subframe = 5;
    last_timestamp = record { ticks = 100; rate = 0 };
    last_subframe = pos 640;
  };
}

abbrev with_gap : List Packet
with_gap = two_by_two 8 ∷ two_by_two 11 ∷ []

counted : (sn : ℕ) → IsCounted (two_by_two sn)
unfolding frames
counted sn = (pos 2, refl)

sampled : (sn : ℕ) → IsSample (record { firstchan = 0; group_size = 2 }) (two_by_two sn)
unfolding frames channel_info
sampled sn = record { data16 = refl; in_group = refl; framed = refl; whole = refl }

-- An int32 of -1 has 16 high bits of 0xffff, but is copied as 0.
high_word-minus_one : high_word 0xffff_ffff ≡ 0
unfolding high_word
high_word-minus_one = refl

fill_missing_packets-numbers_example :
    (g' : Group) × (f : Filled) × (fill_missing_packets (pair_group with_gap) ≡ value (g', f))
    × (numbers g'.queue ≡ 8 ∷ 9 ∷ 10 ∷ 11 ∷ [])
    × (g'.last_sn ≡ 11)
    × All (IsPlaced 8 g'.queue) with_gap
    × (f.packets_added + 2 ≡ length g'.queue)
fill_missing_packets-numbers_example =
    fill_missing_packets-numbers (pair_group with_gap) (omega arith) (omega arith)
      (omega arith, omega arith, (omega arith, omega arith, tt)) (counted 8, (counted 11, tt))

demux_packets-AreColumns_example :
    (d : Demuxed) × (demux_packets (pair_group with_gap) ((0 ∷ 0 ∷ []) ∷ (0 ∷ 0 ∷ []) ∷ []) (pos 2)
      ≡ value (pair_group (two_by_two 11 ∷ []), d))
    × (d.packets_consumed ≡ 1)
    × AreColumns 2 (10 ∷ 20 ∷ 11 ∷ 21 ∷ []) 2 0 d.copies
demux_packets-AreColumns_example =
    demux_packets-AreColumns (pair_group with_gap) (two_by_two 8 ∷ []) (two_by_two 11 ∷ []) 2
      ((0 ∷ 0 ∷ []) ∷ (0 ∷ 0 ∷ []) ∷ []) refl (omega arith) (sampled 8, tt)
      (sampled 11, omega arith) refl (refl, (refl, tt)) (omega arith)

subframe_at_135_ticks : subframe_count_from_timestamp (pair_group with_gap) 135 ≡ pos 647
subframe_at_135_ticks =
    subframe_count-after (pair_group with_gap) 5 7 640 refl (omega arith) (omega arith)
      (omega arith) refl (omega arith)

abbrev unwrapping : UnwrapOptions
unwrapping = record {
  rescale_raw = true;
  unwrap = true;
  bias = true;
  reset_after = pos 20000;
  pulse_sign = negsuc 0;
  invert_chan = pos 1 ∷ [];
}

abbrev two_groups : List GroupIndex
two_groups =
    record { firstchan = 4; group_size = 2 } ∷ record { firstchan = 0; group_size = 3 } ∷ []

check_groups-IsRising_example :
    ((known : List ℕ) × (check_groups two_groups [] ≡ some known)
      × IsRising (chan_numbers (all_channels (sort_groups two_groups) 0 2)))
    ⊎ ((check_groups two_groups [] ≡ none)
        × (c : ℕ) × (2 ≤ count c (chan_numbers (all_channels (sort_groups two_groups) 0 2))))
check_groups-IsRising_example = check_groups-IsRising two_groups

numbered : chan_numbers (all_channels (sort_groups two_groups) 0 2) ≡ 0 ∷ 1 ∷ 2 ∷ 4 ∷ 5 ∷ []
unfolding sort_groups all_channels group_channels
numbered = refl

-- A group that shares channel 4 is refused.
shared : check_groups (record { firstchan = 3; group_size = 2 } ∷ two_groups) [] ≡ none
unfolding check_groups add_channels
shared = refl

-- A tick in which the packets 8 and 10 of a group arrive: the reader fills in packet 9, and sends
-- the six frames of the three.
abbrev demo_keys : List GroupIndex
demo_keys = record { firstchan = 0; group_size = 2 } ∷ []

abbrev demo_source : Group → ResonatorSource
demo_source g = record {
  groups = (record { firstchan = 0; group_size = 2 }, g) ∷ [];
  event_packets = [];
  next_frame = pos 100;
  timing_updated = false;
}

abbrev demo_tick : Result (ResonatorSource × ReaderTick)
demo_tick =
    reader_tick demo_keys 2 0 (pos 0) (pos 50) ((two_by_two 8 ∷ two_by_two 10 ∷ []) ∷ [])
      (demo_source (pair_group []))

abbrev left_group : Group
left_group = record (pair_group []) { last_sn = 10 }

abbrev left_source : ResonatorSource
left_source = record (demo_source left_group) { timing_updated = true }

abbrev sent : ResonatorMsg
sent = record {
  datacopies = (10 ∷ 11 ∷ 10 ∷ 10 ∷ 10 ∷ 11 ∷ []) ∷ (20 ∷ 21 ∷ 20 ∷ 20 ∷ 20 ∷ 21 ∷ []) ∷ [];
  last_sample_time = pos 50;
  time_diff = pos 50;
  total_bytes = 24;
  dropped_bytes = 48;
  dropped_frames = pos 2;
}

tick_sends : demo_tick ≡ value (left_source, sends sent)
unfolding reader_tick read_producers distribute_packets fill_groups fill_missing_packets trim_groups
    trim_packets_before count_samples_in_queue demux_groups group_at demux_data set_group
tick_sends = refl

abbrev sent_block : ResonatorBlock
sent_block = record {
  segments = segments_of (resonator_segment (pos 100) (pos 0) (pos 10) (pos 2)) sent.datacopies;
  external_rowcounts = [];
}

block_made :
    distribute_blocks (λ n. pos 50) (pos 10) demo_keys sent left_source
    ≡ value (record left_source { next_frame = pos 106 }, sent_block)
unfolding distribute_blocks extract_external_triggers triggers_of ◌+ℤ◌ ◌-ℤ◌
block_made = refl

reader_tick-Follows_example :
    (n : ℕ) × (0 < n)
    × (length sent_block.segments ≡ 2)
    × All (IsPart n (pos 100)) sent_block.segments
    × (pos 106 ≡ pos 100 +ℤ pos n)
reader_tick-Follows_example =
    reader_tick-Follows demo_keys 2 0 (pos 0) (pos 50) ((two_by_two 8 ∷ two_by_two 10 ∷ []) ∷ [])
      (demo_source (pair_group [])) left_source left_source
      (record left_source { next_frame = pos 106 }) sent (λ n. pos 50) (pos 10) sent_block
      tick_sends block_made
