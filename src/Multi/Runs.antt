-- ===== src/Multi/Runs.antt =====
-- Runs of the edge-multi search, and its theorems at concrete inputs.
use dastard.Base.{ℕ, ◌≡◌, refl, arith, true, false, List, [], ◌∷◌, ok}
use dastard.Base.Int.{pos, ◌+ℤ◌, ◌-ℤ◌, ◌≤ℤ◌}
use dastard.Floats.{FloatOps}
use dastard.Multi.{EmtState, RecordSpec, full_length_isolated, reset}
use dastard.Multi.Search.{NextTriggerInd, find_next_trigger_ind}
use dastard.Multi.Search.First.{FirstFrom, find_next_trigger_ind_lem}
use dastard.Multi.Records.{should_record}
use dastard.Multi.Windows.{begins, ends, should_record_disjoint}
use dastard.Multi.Compute.{edge_multi_compute_record_specs}
use dastard.Multi.Compute.Overflow.{reset_overflow}

-- Stand-ins for the floating-point code: no fit is ever better than another.
abbrev ops : FloatOps
ops = record {
  period_of_rate = λ r. r;
  delay_samples = λ delay rate. delay;
  kink_x2 = λ samples k. (0, false);
  float_lt = λ x y. false;
  max_float = 0;
  frames_of = λ rate delay. delay;
  rate_invalid = λ r. false;
  round_time = λ t d. t;
}

abbrev ramp : List ℕ
ramp = 5 ∷ 5 ∷ 5 ∷ 5 ∷ 5 ∷ 9 ∷ 12 ∷ 15 ∷ 15 ∷ 15 ∷ 15 ∷ []

find_ramp :
    find_next_trigger_ind ops ramp 4 (pos 6) (pos 3) (pos 2) (pos 3) false
    ≡ ok (record { trigger_ind = pos 5; trigger_found = true; next_i_first = pos 9 })
unfolding find_next_trigger_ind
find_ramp = refl

find_next_trigger_ind_lem_example :
    (x : NextTriggerInd) × (find_next_trigger_ind ops ramp 4 (pos 6) (pos 3) (pos 2) (pos 3) false
      ≡ ok x)
    × FirstFrom ops ramp 6 3 (pos 3) (pos 2) false 4 x
find_next_trigger_ind_lem_example =
    find_next_trigger_ind_lem ops ramp 4 6 3 (pos 3) (pos 2) false (omega arith) (omega arith)
      (omega arith)

abbrev first : RecordSpec
first = record { first_rising_frame_index = pos 100; spec_npre = pos 10; spec_nsamp = pos 25 }

abbrev second : RecordSpec
second = record { first_rising_frame_index = pos 115; spec_npre = pos 0; spec_nsamp = pos 20 }

should_record_disjoint_example : ends first ≤ℤ begins second
unfolding should_record ◌-ℤ◌ ◌+ℤ◌
should_record_disjoint_example =
    should_record_disjoint (pos 20) (pos 100) (pos 115) (pos 900) (pos 10) (pos 30) first second
      (omega arith) (omega arith) refl refl

abbrev settings : EmtState
settings = record {
  mode = full_length_isolated;
  threshold = pos 100;
  nmonotone = pos 1;
  npre = pos 3;
  nsamp = pos 10;
  enable_zero_threshold = false;
  i_first_check_sentinel = true;
  next_frame_index_to_inspect = pos 900;
  t = pos 5;
  u = pos 6;
  v = pos 7;
}

reset_overflow_example :
    edge_multi_compute_record_specs ops (reset settings) ramp (pos 0x9000_0000)
    ≡ ok (record (reset settings) { next_frame_index_to_inspect = pos 0x1_0000_0000 }, [])
unfolding ◌-ℤ◌ ◌+ℤ◌
reset_overflow_example =
    reset_overflow ops settings ramp 0x9000_0000 (omega arith) (omega arith) (omega arith)
      (omega arith)
