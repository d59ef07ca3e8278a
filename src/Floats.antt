-- ===== src/Floats.antt =====
-- What the code computes in floating point and with the time package, as one record of parameters.
-- A float is its bit pattern, a number; times and durations are nanoseconds.
use dastard.Base.{ℕ, Bool, List}
use dastard.Base.Int.{ℤ}

pub record FloatOps : Type 0 where
  -- `float32(1.0 / sampleRate)` of process_data.go
  pub period_of_rate : ℕ → ℕ
  -- `int(autoDelay.Seconds()*sampleRate + 0.5)` of triggering.go
  pub delay_samples : ℤ → ℕ → ℤ
  -- the X2 of kinkModelResult for eight samples and a kink at half of the given number of samples
  -- past the fifth one, and whether its linear system could not be solved
  pub kink_x2 : List ℕ → ℤ → ℕ × Bool
  -- `X2 < X2min`
  pub float_lt : ℕ → ℕ → Bool
  -- `math.MaxFloat64`
  pub max_float : ℕ
  -- `int(math.Round(rate * duration.Seconds()))`, the frames of a duration
  pub frames_of : ℕ → ℤ → ℤ
  -- `rate <= 0`
  pub rate_invalid : ℕ → Bool
  -- `t.Round(d)` of the time package
  pub round_time : ℤ → ℤ → ℤ
