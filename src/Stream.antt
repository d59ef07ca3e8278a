-- ===== src/Stream.antt =====
-- DataSegment and DataStream of data_source.go. Times and periods are whole nanoseconds. A float is
-- its bit pattern, a number. The counts len(rawData) and framesPerSample are never negative.
pub mod Entries
mod Runs
use dastard.Base.{
  ℕ, ◌+◌, ◌-◌, ◌*◌, ◌≡◌, Bool, true, false, List, [], ◌∷◌, ◌++◌, arith, leb, if◌then◌else◌, length,
  drop,
}
use dastard.Base.Int.{ℤ, pos, ◌+ℤ◌, ◌-ℤ◌, ◌*ℤ◌}

-- One channel's raw data with the frame number and time of its first sample.
pub record DataSegment : Type 0 where
  pub raw_data : List ℕ
  pub signed : Bool
  pub frames_per_sample : ℕ
  pub first_frame_index : ℤ
  pub first_time : ℤ
  pub frame_period : ℤ
  pub volts_per_arb : ℕ
  pub processed : Bool
  pub dropped_frames : ℤ

pub record DataStream : Type 0 where
  pub segment : DataSegment
  pub open segment use *
  pub samples_seen : ℕ

unfoldable pub new_data_segment : List ℕ → ℕ → ℤ → ℤ → ℤ → DataSegment
new_data_segment raw frames first_frame first_time period = record {
  raw_data = raw;
  signed = false;
  frames_per_sample = frames;
  first_frame_index = first_frame;
  first_time = first_time;
  frame_period = period;
  volts_per_arb = 0;
  processed = false;
  dropped_frames = pos 0;
}

-- The time of sample number `n` of the segment.
unfoldable pub time_of : DataSegment → ℕ → ℤ
time_of seg n = seg.first_time +ℤ pos (n * seg.frames_per_sample) *ℤ seg.frame_period

unfoldable pub new_data_stream : List ℕ → ℕ → ℤ → ℤ → ℤ → DataStream
unfolding new_data_segment
new_data_stream raw frames first_frame first_time period = record {
  segment = new_data_segment raw frames first_frame first_time period;
  samples_seen = length raw;
}

-- The frame count is taken with the segment's frames per sample, the time with the stream's period.
unfoldable pub append_segment : DataStream → DataSegment → DataStream
append_segment stream seg =
    let frames_now : ℕ = length stream.raw_data * seg.frames_per_sample in
    let time_now : ℤ = pos frames_now *ℤ stream.frame_period in
    record {
      segment = record (stream.segment) {
        frames_per_sample = seg.frames_per_sample;
        frame_period = seg.frame_period;
        first_frame_index = seg.first_frame_index -ℤ pos frames_now;
        first_time = seg.first_time -ℤ time_now;
        raw_data = stream.raw_data ++ seg.raw_data;
        signed = seg.signed;
      };
      samples_seen = stream.samples_seen + length seg.raw_data;
    }

-- The stream after the call, and the value that the call returns.
unfoldable pub trim_keeping_n : DataStream → ℕ → DataStream × ℕ
trim_keeping_n stream n =
    let l : ℕ = length stream.raw_data in
    let delta : ℕ = (l - n) * stream.frames_per_sample in
    if leb l n then (stream, l) else (
      record {
        segment = record (stream.segment) {
          raw_data = drop (l - n) stream.raw_data;
          first_frame_index = stream.first_frame_index +ℤ pos delta;
          first_time = stream.first_time +ℤ pos delta *ℤ stream.frame_period;
        };
        samples_seen = stream.samples_seen;
      },
      n,
    )
