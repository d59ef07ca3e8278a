-- ===== src/Resonator/Create.antt =====
-- ResonatorUnwrapOptions and NewResonatorGroup of resonator.go.
pub mod Ready
use dastard.Base.{
  ℕ, zero, suc, ◌+◌, ◌==◌, Bool, true, false, not, ◌||◌, ◌&&◌, List, [], ◌∷◌, Option, none, some,
  if◌then◌else◌, ltb, Outcome, ok, fault, stuck, ◌>>=◌,
}
use dastard.Base.Int.{ℤ, pos, negsuc, ltb_ℤ, eqb_ℤ}
use dastard.Unwrap.{PhaseUnwrapper, new_phase_unwrapper}
use dastard.Packets.{PacketTimestamp}
use dastard.Resonator.{Group, GroupIndex}

pub record UnwrapOptions : Type 0 where
  pub rescale_raw : Bool
  pub unwrap : Bool
  pub bias : Bool
  pub reset_after : ℤ
  pub pulse_sign : ℤ
  pub invert_chan : List ℤ

-- isvalid finds no error.
abbrev pub is_valid : UnwrapOptions → Bool
is_valid o = not (o.unwrap && not o.rescale_raw)

-- 0.38 * 65536 is 24903.68, which math.Round takes to 24904.
abbrev pub calc_bias_level : UnwrapOptions → ℤ
calc_bias_level o =
    if o.bias then (if ltb_ℤ o.pulse_sign (pos 0) then negsuc 24903 else pos 24904) else pos 0

abbrev pub contains : List ℤ → ℤ → Bool
contains [] z = false
contains (x ∷ xs) z = eqb_ℤ x z || contains xs z

-- Four bits are dropped of sixteen when the raw data are rescaled.
abbrev pub bits_to_drop : UnwrapOptions → ℕ
bits_to_drop o = if o.rescale_raw then 4 else 0

unfoldable pub make_unwrapper : UnwrapOptions → ℕ → Outcome (Option PhaseUnwrapper)
unfolding new_phase_unwrapper
make_unwrapper o channum =
    let invert = contains o.invert_chan (pos channum) in
    if ltb 0 (bits_to_drop o) || invert
    then (do
      u ←
          new_phase_unwrapper 16 (bits_to_drop o) o.unwrap (calc_bias_level o) o.reset_after
            o.pulse_sign invert
      ok (some u))
    else ok none

-- The loop over the channels: `k` of them from number `channum` on.
unfoldable pub make_unwrappers : UnwrapOptions → ℕ → ℕ → Outcome (List (Option PhaseUnwrapper))
unfolding make_unwrapper
make_unwrappers o channum zero = ok []
make_unwrappers o channum (suc k) = do
  u ← make_unwrapper o channum
  us ← make_unwrappers o (channum + 1) k
  ok (u ∷ us)

abbrev pub group_of : GroupIndex → List (Option PhaseUnwrapper) → Group
group_of index us = record {
  group_index = index;
  unwrappers = us;
  queue = [];
  seqnumsync = 0;
  last_sn = 0;
  timing = record {
    counts_per_subframe = 0;
    last_timestamp = record { ticks = 0; rate = 0 };
    last_subframe = pos 0;
  };
}

unfoldable pub new_resonator_group : GroupIndex → UnwrapOptions → Outcome Group
unfolding make_unwrappers
new_resonator_group index o = do
  us ← make_unwrappers o index.firstchan index.group_size
  ok (group_of index us)
