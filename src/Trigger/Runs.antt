-- ===== src/Trigger/Runs.antt =====
-- Runs of the trigger scans, and their theorems at concrete inputs.
use dastard.Base.{All, ℕ, ◌≡◌, refl, arith, true, false, List, [], ◌∷◌, ◌++◌, map, some, ok}
use dastard.Base.Int.{◌≤ℤ◌, pos, ◌-ℤ◌, ◌+ℤ◌}
use dastard.Stream.{new_data_stream, new_data_segment}
use dastard.Multi.{EmtState, full_length_isolated}
use dastard.Trigger.{FloatOps, Processor, first_potential_trigger_frame, shifted_raw}
use dastard.Trigger.Greedy.{Greedy, Apart}
use dastard.Trigger.Primary.{trigger_data}
use dastard.Trigger.Primary.Result.{IsSound, HasRoom, frame_at, trigger_data_lem}
use dastard.Trigger.Access.{taken, records_at}
use dastard.Trigger.Edge.{edge_trigger_compute_append}
use dastard.Trigger.Edge.Scan.{IsEdge, range_end, edge_trigger_compute_append_lem}
use dastard.Trigger.Primary.Sorting.{ordered}
use dastard.Trigger.Level.{level_trigger_compute_append}
use dastard.Trigger.Level.Scan.{IsLevel, Clear, level_trigger_compute_append_lem}

-- Stand-ins for the floating-point code: an auto delay of `auto_delay` samples.
abbrev ops : FloatOps
ops = record {
  period_of_rate = λ r. r;
  delay_samples = λ delay rate. delay;
  kink_x2 = λ samples k. (0, false);
  float_lt = λ x y. false;
  max_float = 0;
  frames_of = λ rate delay. delay;
  rate_invalid = λ r. false;
  round_time = λ t d. t;
}

abbrev emt : EmtState
emt = record {
  mode = full_length_isolated;
  threshold = pos 100;
  nmonotone = pos 1;
  npre = pos 3;
  nsamp = pos 4;
  enable_zero_threshold = false;
  i_first_check_sentinel = false;
  next_frame_index_to_inspect = pos 0;
  t = pos 0;
  u = pos 0;
  v = pos 0;
}

-- A stream with a rising edge at samples 5 and 14, and every trigger on.
abbrev busy : Processor
unfolding new_data_stream new_data_segment
busy = record {
  channel_index = 2;
  n_samples = 4;
  n_presamples = 3;
  sample_rate = 10;
  last_trigger = pos 0;
  stream =
      new_data_stream
        (0 ∷ 0 ∷ 0 ∷ 0 ∷ 0 ∷ 90 ∷ 95 ∷ 0 ∷ 0 ∷ 0 ∷ 0 ∷ 0 ∷ 0 ∷ 0 ∷ 80 ∷ 85 ∷ 0 ∷ 0 ∷ 0 ∷ 0 ∷ []) 1
        (pos 1000) (pos 0) (pos 10);
  last_trig_list = record {
    list_channel = 2;
    frames = [];
    key_frame = pos 0;
    key_time = pos 0;
    list_rate = 10;
    first_frame_that_cannot_trigger = pos 0;
  };
  trigger_state = record {
    auto_trigger = true;
    auto_delay = pos 6;
    auto_veto_range = 0;
    level_trigger = true;
    level_rising = true;
    level_level = 50;
    edge_trigger = true;
    edge_rising = true;
    edge_falling = false;
    edge_level = pos 100;
    edge_multi = false;
    emt_state = emt;
  };
}

start_busy : first_potential_trigger_frame busy ≡ 3
unfolding first_potential_trigger_frame new_data_stream new_data_segment ◌-ℤ◌ ◌+ℤ◌
start_busy = refl

edges_busy : edge_trigger_compute_append ops busy [] ≡ ok (records_at ops busy (6 ∷ 15 ∷ []))
unfolding edge_trigger_compute_append new_data_stream new_data_segment ◌+ℤ◌
edges_busy = refl

levels_busy :
    level_trigger_compute_append ops busy (records_at ops busy (15 ∷ []))
    ≡ ok (records_at ops busy (5 ∷ 15 ∷ []))
unfolding level_trigger_compute_append new_data_stream new_data_segment ◌+ℤ◌ ◌-ℤ◌
levels_busy = refl

edge_trigger_compute_append_lem_example :
    (ps : List ℕ) × (edge_trigger_compute_append ops busy []
      ≡ ok ([] ++ map (λ p. some (taken ops busy p)) ps))
    × Greedy
        (IsEdge busy (shifted_raw busy))
        5
        (range_end busy)
        (first_potential_trigger_frame busy)
        ps
unfolding new_data_stream new_data_segment
edge_trigger_compute_append_lem_example =
    edge_trigger_compute_append_lem ops busy [] (omega arith) (omega arith) refl

level_trigger_compute_append_lem_example :
    (ps : List ℕ) × (level_trigger_compute_append ops busy (records_at ops busy (15 ∷ []))
      ≡ ok (records_at ops busy (ordered ((15 ∷ []) ++ ps))))
    × Apart 0 0 (ordered ((15 ∷ []) ++ ps))
    × Greedy
        (λ j. IsLevel busy (shifted_raw busy) j × Clear 4 (15 ∷ []) j)
        1
        (range_end busy)
        (first_potential_trigger_frame busy)
        ps
unfolding new_data_stream new_data_segment
level_trigger_compute_append_lem_example =
    level_trigger_compute_append_lem ops busy (15 ∷ []) (omega arith) (omega arith) (omega arith)
      (rw start_busy (omega arith, tt)) refl

busy-IsSound : IsSound busy
unfolding new_data_stream new_data_segment
busy-IsSound = record { lookback = omega arith; room = omega arith; small = omega arith }

trigger_data_lem_example :
    (ps : List ℕ) × (d' : Processor) × (trigger_data ops busy ≡ ok (d', map (taken ops busy) ps))
    × Apart 0 busy.n_presamples ps
    × All (HasRoom ops busy busy-IsSound) ps
    × (d'.last_trig_list.frames ≡ map (frame_at ops busy busy-IsSound) ps)
    × All (λ p. frame_at ops busy busy-IsSound p ≤ℤ d'.last_trigger) ps
unfolding new_data_stream new_data_segment
trigger_data_lem_example = trigger_data_lem ops busy busy-IsSound refl
