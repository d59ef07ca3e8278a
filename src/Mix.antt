-- ===== src/Mix.antt =====
-- mix.go: the error signal mixed into the feedback of the sample before. Samples are uint16, and
-- the errors are the bit patterns of int16.
pub mod Delayed
mod Runs
use Prim.Native.Nat.{bit_and}
use dastard.Base.{
  ℕ, ◌+◌, ◌*◌, ◌/◌, ◌%◌, Bool, true, false, List, [], ◌∷◌, Option, none, some, if◌then◌else◌,
  Outcome, ok, fault, ◌>>=◌,
}
use dastard.Base.Int.{ℤ}
use dastard.Base.Words

-- The floating-point code: whether the scale is zero, the sum of the feedback and the scaled error,
-- its comparisons with the limits of a uint16, and its rounding.
pub record MixOps : Type 0 where
  pub is_zero : ℕ → Bool
  pub sum_of : ℕ → ℤ → ℕ → ℕ
  pub reaches_top : ℕ → Bool
  pub below_zero : ℕ → Bool
  pub rounded : ℕ → ℕ

-- `error_scale` is the bit pattern of a float.
pub record Mix : Type 0 where
  pub error_scale : ℕ
  pub last_fb : ℕ

-- `^RawType(0x03)`
abbrev pub masked_fb : ℕ → ℕ
masked_fb fb = bit_and fb 0xfffc

-- The loop for a scale of zero.
unfoldable pub delay_loop : ℕ → List ℕ → ℕ × List ℕ
delay_loop last [] = (last, [])
delay_loop last (fb ∷ fbs) = let (end, out) = delay_loop (masked_fb fb) fbs in (end, last ∷ out)

abbrev pub kept_in : MixOps → ℕ → ℕ
kept_in ops sum =
    if ops.reaches_top sum
    then 0xffff
    else if ops.below_zero sum
    then 0
    else ops.rounded sum % 0x1_0000

-- The loop for another scale. An error for each feedback sample is read: a lack of them panics.
unfoldable pub mix_loop : MixOps → ℕ → ℕ → List ℕ → List ℕ → Outcome (ℕ × List ℕ)
unfolding Words.int16
mix_loop ops scale last [] errs = ok (last, [])
mix_loop ops scale last (fb ∷ fbs) [] = fault
mix_loop ops scale last (fb ∷ fbs) (e ∷ errs) = do
  r ← mix_loop ops scale (masked_fb fb) fbs errs
  ok (r.0, kept_in ops (ops.sum_of scale (Words.int16 e) last) ∷ r.1)

-- MixRetardFb: the mixer and the feedback after the call. The first argument says that the scale is
-- zero.
unfoldable pub mix_with : Bool → MixOps → Mix → List ℕ → List ℕ → Outcome (Mix × List ℕ)
unfolding delay_loop mix_loop Words.int16
mix_with true ops m fbs errs =
    let (last, out) = delay_loop m.last_fb fbs in ok (record m { last_fb = last }, out)
mix_with false ops m fbs errs = do
  r ← mix_loop ops m.error_scale m.last_fb fbs errs
  ok (record m { last_fb = r.0 }, r.1)

unfoldable pub mix_retard_fb : MixOps → Mix → List ℕ → List ℕ → Outcome (Mix × List ℕ)
unfolding mix_with
mix_retard_fb ops m fbs errs = mix_with (ops.is_zero m.error_scale) ops m fbs errs
