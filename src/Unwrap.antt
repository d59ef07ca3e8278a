-- ===== src/Unwrap.antt =====
-- phase_unwrap.go: PhaseUnwrapper. A uint16 is a number below 65536, an int16 the integer that it
-- stands for. `rawVal ^ 0xffff` is the complement of all 16 bits.
pub mod Turns
mod Runs
pub mod Build
pub mod Steps
use Prim.Native.Nat.{bit_and}
use dastard.Base.{
  ℕ, ◌+◌, ◌*◌, Bool, ◌&&◌, List, [], ◌∷◌, ltb, ◌==◌, if◌then◌else◌, map, Outcome, ok, fault,
}
use dastard.Base.Int.{ℤ, pos, ◌+ℤ◌, ◌-ℤ◌, ltb_ℤ, leb_ℤ, pos_part, neg_part}
use dastard.Base.Words.{add16, sub16, int16, to_u16, not16, shl16, shr16, sub64, shr_ℤ, rem_ℤ}

pub record PhaseUnwrapper : Type 0 where
  pub last_val : ℕ
  pub offset : ℕ
  pub fraction_bits : ℕ
  pub low_bits_to_drop : ℕ
  pub upper_step_lim : ℤ
  pub lower_step_lim : ℤ
  pub two_pi : ℕ
  pub reset_count : ℕ
  pub reset_after : ℤ
  pub reset_offset : ℕ
  pub sign_mask : ℕ
  pub enable : Bool
  pub invert_data : Bool

-- What the constructor sets in every case.
unfoldable pub basic : ℕ → ℕ → Bool → Bool → PhaseUnwrapper
unfolding shl16
basic fraction drop enable invert = record {
  last_val = 0;
  offset = 0;
  fraction_bits = fraction;
  low_bits_to_drop = drop;
  upper_step_lim = pos 0;
  lower_step_lim = pos 0;
  two_pi = 0;
  reset_count = 0;
  reset_after = pos 0;
  reset_offset = 0;
  sign_mask = not16 (shl16 0xffff fraction);
  enable = enable;
  invert_data = invert;
}

-- The size of int16(two_pi), the divisor of the bias.
abbrev size : ℤ → ℕ
size z = pos_part z + neg_part z

-- `int16(biasLevel>>lowBitsToDrop) % int16(u.twoPi)`
unfoldable pub bias_of : ℤ → ℕ → ℕ → ℤ
unfolding int16 to_u16 shr_ℤ rem_ℤ
bias_of bias_level drop two_pi =
    rem_ℤ (int16 (to_u16 (shr_ℤ bias_level drop))) (size (int16 two_pi))

-- An int16 sum wraps around.
unfoldable pub wrap_int16 : ℤ → ℤ
unfolding int16 to_u16
wrap_int16 z = int16 (to_u16 z)

-- `fault` stands for the panic on resetAfter and for the division by a zero two_pi.
unfoldable pub new_phase_unwrapper : ℕ → ℕ → Bool → ℤ → ℤ → ℤ → Bool → Outcome PhaseUnwrapper
unfolding basic
new_phase_unwrapper fraction drop enable bias_level reset_after pulse_sign invert =
    let u : PhaseUnwrapper = basic fraction drop enable invert in
    let two_pi : ℕ = shl16 1 (sub64 fraction drop) in
    let one_pi : ℤ = int16 (shl16 1 (sub64 (sub64 fraction drop) 1)) in
    let bias : ℤ = bias_of bias_level drop two_pi in
    let reset : ℕ = if ltb_ℤ (pos 0) pulse_sign then two_pi else sub16 0 (2 * two_pi) in
    if ltb 0 drop && enable
    then (if two_pi == 0
        then fault
        else if leb_ℤ reset_after (pos 0)
        then fault
        else ok (record u {
          two_pi = two_pi;
          upper_step_lim = wrap_int16 (bias +ℤ one_pi);
          lower_step_lim = wrap_int16 (bias -ℤ one_pi);
          reset_offset = reset;
          offset = reset;
          reset_after = reset_after;
        }))
    else ok u

-- The value of a raw sample: the fraction bits, less the dropped ones.
unfoldable pub stripped : PhaseUnwrapper → ℕ → ℕ
stripped u raw = shr16 (bit_and raw u.sign_mask) u.low_bits_to_drop

-- "Short-term unwrapping": a step beyond a limit moves the offset by one turn.
unfoldable pub short_term : PhaseUnwrapper → ℕ → PhaseUnwrapper
unfolding add16 sub16 int16
short_term u v =
    let this_step : ℤ = int16 (sub16 v u.last_val) in
    let moved : ℕ =
      if ltb_ℤ u.upper_step_lim this_step
      then sub16 u.offset u.two_pi
      else if ltb_ℤ this_step u.lower_step_lim
      then add16 u.offset u.two_pi
      else u.offset in
    record u { last_val = v; offset = moved }

-- "Long-term unwrapping": the offset that differs from reset_offset for too long is set back.
unfoldable pub long_term : PhaseUnwrapper → PhaseUnwrapper
long_term u =
    if u.offset == u.reset_offset
    then record u { reset_count = 0 }
    else if ltb_ℤ u.reset_after (pos (u.reset_count + 1))
    then record u { offset = u.reset_offset; reset_count = 0 }
    else record u { reset_count = u.reset_count + 1 }

unfoldable pub unwrap_sample : PhaseUnwrapper → ℕ → PhaseUnwrapper × ℕ
unfolding stripped short_term long_term add16
unwrap_sample u raw =
    let v : ℕ = stripped u raw in let u' = long_term (short_term u v) in (u', add16 v u'.offset)

unfoldable pub unwrap_loop : PhaseUnwrapper → List ℕ → PhaseUnwrapper × List ℕ
unfolding unwrap_sample
unwrap_loop u [] = (u, [])
unwrap_loop u (raw ∷ rest) =
    let (u', out) = unwrap_sample u raw in
    let (u'', outs) = unwrap_loop u' rest in (u'', out ∷ outs)

-- The unwrapper and the data after the call.
unfoldable pub unwrap_in_place : PhaseUnwrapper → List ℕ → PhaseUnwrapper × List ℕ
unfolding unwrap_loop stripped
unwrap_in_place u raws =
    let inverted : List ℕ = if u.invert_data then map not16 raws else raws in
    if u.low_bits_to_drop == 0
    then (u, inverted)
    else if u.enable
    then unwrap_loop u inverted
    else (record u { reset_count = 0 }, map (stripped u) inverted)
