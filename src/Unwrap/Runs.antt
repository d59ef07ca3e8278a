-- ===== src/Unwrap/Runs.antt =====
-- Runs of the phase unwrapper, and its theorems at concrete inputs.
use dastard.Base.{◌≡◌, refl, true, false, [], ◌∷◌, map, arith, ok, fault, ◌+◌}
use dastard.Base.Int.{pos, negsuc, ◌≤ℤ◌, ◌+ℤ◌, ◌-ℤ◌}
use dastard.Base.Words.{sub64}
use dastard.Unwrap.{
  PhaseUnwrapper, new_phase_unwrapper, unwrap_in_place, bias_of, wrap_int16, unwrap_sample,
  stripped,
}
use dastard.Unwrap.Turns.{IsReady, unwrap_in_place_turns, phases}
use dastard.Unwrap.Steps.{HasLimits, StaysAway_bounded}

-- 14 bits of phase in 16, four bits dropped: a turn is 1024.
abbrev demo : PhaseUnwrapper
demo = record {
  last_val = 0;
  offset = 1024;
  fraction_bits = 14;
  low_bits_to_drop = 4;
  upper_step_lim = pos 512;
  lower_step_lim = negsuc 511;
  two_pi = 1024;
  reset_count = 0;
  reset_after = pos 2;
  reset_offset = 1024;
  sign_mask = 0x3fff;
  enable = true;
  invert_data = false;
}

new_demo : new_phase_unwrapper 14 4 true (pos 0) (pos 2) (pos 1) false ≡ ok demo
unfolding new_phase_unwrapper bias_of wrap_int16 sub64 ◌+ℤ◌ ◌-ℤ◌
new_demo = refl

-- Without bits to shift the divisor of the bias is zero, and the constructor panics.
new_too_wide : new_phase_unwrapper 20 4 true (pos 0) (pos 2) (pos 1) false ≡ fault
unfolding new_phase_unwrapper bias_of wrap_int16 sub64
new_too_wide = refl

-- A jump of most of a turn is unwrapped downwards; after three samples the offset is set back.
unwrap_demo :
    (unwrap_in_place demo (16 ∷ 0x3ff0 ∷ 0x3fe0 ∷ 0x3fe0 ∷ [])).1 ≡ 1025 ∷ 1023 ∷ 1022 ∷ 2046 ∷ []
unfolding unwrap_in_place
unwrap_demo = refl

demo-IsReady : IsReady 64 demo
demo-IsReady = record {
  divides = refl;
  whole_turns = refl;
  whole_reset = refl;
  small = omega arith;
  count = omega arith;
}

demo-HasLimits : HasLimits demo
demo-HasLimits = omega arith

unwrap_in_place_turns_example :
    IsReady 64 (unwrap_in_place demo (16 ∷ 0x3ff0 ∷ [])).0
    × (phases 1024 (unwrap_in_place demo (16 ∷ 0x3ff0 ∷ [])).1
        ≡ phases 1024 (map (stripped demo) (16 ∷ 0x3ff0 ∷ [])))
unwrap_in_place_turns_example =
    unwrap_in_place_turns 64 demo (16 ∷ 0x3ff0 ∷ []) refl (omega arith) demo-IsReady

StaysAway_bounded_example : pos (0 + 2) ≤ℤ pos 2
unfolding unwrap_sample
StaysAway_bounded_example =
    StaysAway_bounded demo (0x3ff0 ∷ 0x3ff0 ∷ []) (omega arith) (omega arith)
