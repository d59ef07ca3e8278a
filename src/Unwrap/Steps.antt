-- ===== src/Unwrap/Steps.antt =====
-- PhaseUnwrapper: how far one unwrapped value lies from the one before, and how long the offset can
-- stay away from reset_offset.
use dastard.Base.{ℕ, ◌+◌, ◌≤◌, ◌<◌, ◌≡◌, List, [], ◌∷◌, length, ◌≢◌, arith}
use dastard.Base.Words.{add16, sub16, int16}
use dastard.Base.Int.{pos, ◌≤ℤ◌, ◌-ℤ◌, pos_part, neg_part}
use dastard.Unwrap.{PhaseUnwrapper, stripped, short_term, long_term, unwrap_sample}

-- The limits are one turn apart and enclose zero; a turn has at most 14 bits.
pub record HasLimits (u : PhaseUnwrapper) : Type 0 where
  pub below : u.lower_step_lim ≤ℤ pos 0
  pub above : pos 0 ≤ℤ u.upper_step_lim
  pub one_turn : pos_part u.upper_step_lim + neg_part u.lower_step_lim ≡ u.two_pi
  pub turn : u.two_pi ≤ 0x4000
  pub last : u.last_val < u.two_pi
  pub word : u.offset < 0x1_0000

-- The difference of two words that are moved by one offset is their own difference.
difference_same :
    (v w o : ℕ) → v < 0x4000 → w < 0x4000 → o < 0x1_0000 → sub16 (add16 v o) (add16 w o) ≡ sub16 v w
unfolding sub16 add16
difference_same v w o hv hw ho = omega arith

difference_down :
    (v w o m : ℕ)
    → v < 0x4000
    → w < 0x4000
    → m ≤ 0x4000
    → o < 0x1_0000
    → sub16 (add16 v (sub16 o m)) (add16 w o) ≡ sub16 v (w + m)
unfolding sub16 add16
difference_down v w o m hv hw hm ho = omega arith

difference_up :
    (v w o m : ℕ)
    → v < 0x4000
    → w < 0x4000
    → m ≤ 0x4000
    → o < 0x1_0000
    → sub16 (add16 v (add16 o m)) (add16 w o) ≡ sub16 (v + m) w
unfolding sub16 add16
difference_up v w o m hv hw hm ho = omega arith

-- A difference of small words, read as an int16.
int16-sub16 : (a b : ℕ) → a < 0x8000 → b < 0x8000 → int16 (sub16 a b) ≡ pos a -ℤ pos b
unfolding int16 sub16 ◌-ℤ◌
int16-sub16 a b ha hb = ground arith

step_in_limits :
    (u : PhaseUnwrapper) (v : ℕ)
    → HasLimits u
    → v < u.two_pi
    → let step = int16 (sub16 (add16 v (short_term u v).offset) (add16 u.last_val u.offset)) in
      (u.lower_step_lim ≤ℤ step) × (step ≤ℤ u.upper_step_lim)
unfolding short_term ◌-ℤ◌
step_in_limits u v h lt = ground (
  arith,
  difference_same v u.last_val u.offset,
  difference_down v u.last_val u.offset u.two_pi,
  difference_up v u.last_val u.offset u.two_pi,
  int16-sub16 v u.last_val,
  int16-sub16 v (u.last_val + u.two_pi),
  int16-sub16 (v + u.two_pi) u.last_val,
)

-- From one sample to the next, unless the long-term rule sets the offset back: the unwrapped value
-- moves by a step (as an int16) between the two limits.
unwrap_sample_step :
    (u : PhaseUnwrapper) (raw : ℕ)
    → HasLimits u
    → stripped u raw < u.two_pi
    → (unwrap_sample u raw).0.offset ≡ (short_term u (stripped u raw)).offset
    → let step = int16 (sub16 (unwrap_sample u raw).1 (add16 u.last_val u.offset)) in
      (u.lower_step_lim ≤ℤ step) × (step ≤ℤ u.upper_step_lim)
unfolding unwrap_sample
unwrap_sample_step u raw h lt e = let v : ℕ = stripped u raw in rw e (step_in_limits u v h lt)

pub unwrap_sample-HasLimits :
    (u : PhaseUnwrapper) (raw : ℕ)
    → HasLimits u
    → stripped u raw < u.two_pi
    → u.reset_offset < 0x1_0000
    → HasLimits (unwrap_sample u raw).0
unfolding unwrap_sample short_term long_term
unwrap_sample-HasLimits u raw h lt r = ground arith

-- The offset differs from reset_offset after every sample of the data.
abbrev pub StaysAway : PhaseUnwrapper → List ℕ → Type 0
StaysAway u [] = Unit {0}
StaysAway u (raw ∷ raws) =
    ((unwrap_sample u raw).0.offset ≢ u.reset_offset) × StaysAway (unwrap_sample u raw).0 raws

away_counts :
    (u : PhaseUnwrapper) (raw : ℕ)
    → (unwrap_sample u raw).0.offset ≢ u.reset_offset
    → let u' = (unwrap_sample u raw).0 in
      (u'.reset_count ≡ u.reset_count + 1)
      × (pos u'.reset_count ≤ℤ u.reset_after)
      × (u'.reset_after ≡ u.reset_after)
      × (u'.reset_offset ≡ u.reset_offset)
unfolding unwrap_sample short_term long_term
away_counts u raw h = ground arith

-- However the data go, the offset stays away from reset_offset for at most reset_after samples.
pub StaysAway_bounded :
    (u : PhaseUnwrapper) (raws : List ℕ)
    → pos u.reset_count ≤ℤ u.reset_after
    → StaysAway u raws
    → pos (u.reset_count + length raws) ≤ℤ u.reset_after
StaysAway_bounded u [] h away = omega arith
StaysAway_bounded u (raw ∷ raws) h away =
    let (more, le, same, _) = away_counts u raw away.0 in
    let rest = StaysAway_bounded (unwrap_sample u raw).0 raws (rw same le) away.1 in
    let rest' = rw (same, more) at rest in omega (arith, rest')
