-- ===== src/Stream/Runs.antt =====
-- Runs of the stream operations, and their theorems at concrete inputs.
use dastard.Base.{◌≡◌, ◌-◌, refl, [], ◌∷◌, ◌++◌, length, drop, min}
use dastard.Base.Int.{pos, ◌+ℤ◌, ◌-ℤ◌, ◌*ℤ◌}
use dastard.Stream.{
  DataSegment, DataStream, new_data_stream, new_data_segment, append_segment, trim_keeping_n,
  time_of,
}
use dastard.Stream.Entries.{
  Follows, entries, segment_entries, entries-append_segment, entries-trim_keeping_n,
}

-- Three samples from frame 100 on, two frames a sample and 50 ns a frame.
abbrev three : DataStream
unfolding new_data_stream new_data_segment
three = new_data_stream (7 ∷ 8 ∷ 9 ∷ []) 2 (pos 100) (pos 5000) (pos 50)

abbrev two_more : DataSegment
unfolding new_data_segment
two_more = new_data_segment (1 ∷ 2 ∷ []) 2 (pos 106) (pos 5300) (pos 50)

append_three : (append_segment three two_more).first_frame_index ≡ pos 100
unfolding append_segment new_data_stream new_data_segment ◌-ℤ◌
append_three = refl

trim_three :
    ((trim_keeping_n three 1).0.raw_data ≡ 9 ∷ [])
    × ((trim_keeping_n three 1).0.first_frame_index ≡ pos 104)
unfolding trim_keeping_n new_data_stream new_data_segment ◌+ℤ◌
trim_three = (refl, refl)

three-Follows : Follows three two_more
unfolding new_data_stream new_data_segment ◌+ℤ◌ ◌*ℤ◌ time_of
three-Follows = record { same_step = refl; same_period = refl; next_frame = refl; next_time = refl }

entries-append_segment_example :
    entries (append_segment three two_more) ≡ entries three ++ segment_entries two_more
entries-append_segment_example = entries-append_segment three two_more three-Follows

entries-trim_keeping_n_example :
    (entries (trim_keeping_n three 1).0 ≡ drop (length three.raw_data - 1) (entries three))
    × ((trim_keeping_n three 1).1 ≡ length (trim_keeping_n three 1).0.raw_data)
    × ((trim_keeping_n three 1).1 ≡ min 1 (length three.raw_data))
entries-trim_keeping_n_example = entries-trim_keeping_n three 1
