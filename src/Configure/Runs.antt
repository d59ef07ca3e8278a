-- ===== src/Configure/Runs.antt =====
-- Changes of the record lengths, and their theorems at concrete inputs.
use dastard.Base.{◌≤◌, ◌<◌, ◌≡◌, refl, true, false, [], ◌∷◌, All}
use dastard.Base.Int.{pos, ◌+ℤ◌, ◌-ℤ◌}
use dastard.Stream.{new_data_stream, new_data_segment}
use dastard.Multi.{full_length_isolated}
use dastard.Trigger.{TriggerState, Processor}
use dastard.Configure.{configure_pulse_lengths}
use dastard.Configure.Lengths.{HasLengths, configure_pulse_lengths_lem}

abbrev settings : TriggerState
settings = record {
  auto_trigger = false;
  auto_delay = pos 0;
  auto_veto_range = 0;
  level_trigger = false;
  level_rising = false;
  level_level = 0;
  edge_trigger = false;
  edge_rising = false;
  edge_falling = false;
  edge_level = pos 100;
  edge_multi = true;
  emt_state = record {
    mode = full_length_isolated;
    threshold = pos 100;
    nmonotone = pos 1;
    npre = pos 0;
    nsamp = pos 0;
    enable_zero_threshold = true;
    i_first_check_sentinel = false;
    next_frame_index_to_inspect = pos 50;
    t = pos 0;
    u = pos 0;
    v = pos 0;
  };
}

abbrev quiet : Processor
unfolding new_data_stream new_data_segment
quiet = record {
  channel_index = 0;
  n_samples = 100;
  n_presamples = 40;
  sample_rate = 10;
  last_trigger = pos 0;
  stream = new_data_stream [] 1 (pos 0) (pos 0) (pos 10);
  last_trig_list = record {
    list_channel = 0;
    frames = [];
    key_frame = pos 0;
    key_time = pos 0;
    list_rate = 10;
    first_frame_that_cannot_trigger = pos 0;
  };
  trigger_state = settings;
}

-- Two presamples are too few.
too_few : (configure_pulse_lengths (quiet ∷ []) (pos 100) (pos 2)).1 ≡ true
unfolding configure_pulse_lengths
too_few = refl

configure_pulse_lengths_lem_example :
    (3 ≤ 20)
    × (20 < 64)
    × All (HasLengths 64 20) (configure_pulse_lengths (quiet ∷ []) (pos 64) (pos 20)).0
unfolding configure_pulse_lengths new_data_stream new_data_segment ◌+ℤ◌ ◌-ℤ◌
configure_pulse_lengths_lem_example =
    configure_pulse_lengths_lem (quiet ∷ []) (pos 64) (pos 20) refl
