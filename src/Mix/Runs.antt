-- ===== src/Mix/Runs.antt =====
-- A run of the mixer with a scale of one.
use dastard.Base.{◌+◌, ◌==◌, ◌≡◌, refl, false, [], ◌∷◌, ◌++◌, leb, ok, ◌>>=◌}
use dastard.Base.Int.{pos_part}
use dastard.Mix.{MixOps, mix_retard_fb}
use dastard.Mix.Delayed.{mix_retard_fb-append}

-- A scale that is a natural number. No sum of the run is negative.
abbrev natural_ops : MixOps
natural_ops = record {
  is_zero = λ scale. scale == 0;
  sum_of = λ scale e fb. pos_part e + fb;
  reaches_top = λ sum. leb 65535 sum;
  below_zero = λ sum. false;
  rounded = λ sum. sum;
}

-- The sums run into the largest uint16, and the two lowest bits of the feedback are dropped.
mixed_run :
    mix_retard_fb natural_ops
      (record { error_scale = 1; last_fb = 8 })
      (65535 ∷ 23 ∷ 5 ∷ [])
      (1 ∷ 7 ∷ 2 ∷ [])
    ≡ ok (record { error_scale = 1; last_fb = 4 }, 9 ∷ 65535 ∷ 22 ∷ [])
unfolding mix_retard_fb
mixed_run = refl

mix_retard_fb-append_example :
    mix_retard_fb natural_ops
      (record { error_scale = 1; last_fb = 8 })
      (65535 ∷ 23 ∷ 5 ∷ [])
      (1 ∷ 7 ∷ 2 ∷ [])
    ≡ (do
      r ←
          mix_retard_fb natural_ops
            (record { error_scale = 1; last_fb = 8 })
            (65535 ∷ 23 ∷ [])
            (1 ∷ 7 ∷ [])
      s ← mix_retard_fb natural_ops r.0 (5 ∷ []) (2 ∷ [])
      ok (s.0, r.1 ++ s.1))
mix_retard_fb-append_example =
    mix_retard_fb-append natural_ops (record { error_scale = 1; last_fb = 8 }) (65535 ∷ 23 ∷ [])
      (5 ∷ []) (1 ∷ 7 ∷ []) (2 ∷ []) refl
