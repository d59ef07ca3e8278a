-- ===== src/Multi.antt =====
-- edge_multi_trigger.go: the search for edge multi-triggers and the choice of their records.
pub mod Search
pub mod Records
pub mod Windows
pub mod Compute
mod Runs
use dastard.Base.{
  ℕ, zero, suc, ◌+◌, ◌-◌, ◌/◌, ◌%◌, Bool, true, false, not, ◌&&◌, ◌||◌, List, [], ◌∷◌, ◌++◌, Option,
  none, some, ltb, leb, if◌then◌else◌, length, get_elem?, Outcome, ok, fault, stuck, ◌>>=◌,
}
use dastard.Base.Int.{
  ℤ, pos, negsuc, ◌+ℤ◌, ◌-ℤ◌, ltb_ℤ, leb_ℤ, eqb_ℤ, min_ℤ, sub_ℕ, pos_part, neg_part,
}
use dastard.Base.Words.{int32}
use dastard.Floats.{FloatOps}

pub data EmtMode : Type 0 where
  two_full_length variable_length full_length_isolated one_full_length : EmtMode

pub record EmtState : Type 0 where
  pub mode : EmtMode
  pub threshold : ℤ
  pub nmonotone : ℤ
  pub npre : ℤ
  pub nsamp : ℤ
  pub enable_zero_threshold : Bool
  pub i_first_check_sentinel : Bool
  pub next_frame_index_to_inspect : ℤ
  pub t : ℤ
  pub u : ℤ
  pub v : ℤ

-- firstRisingFrameIndex, npre and nsamp of one record to be made.
pub record RecordSpec : Type 0 where
  pub first_rising_frame_index : ℤ
  pub spec_npre : ℤ
  pub spec_nsamp : ℤ

unfoldable pub valid : EmtState → Bool
valid s =
    not (s.enable_zero_threshold && ltb_ℤ s.npre (pos 4))
    && (not (s.enable_zero_threshold && ltb_ℤ (s.nsamp -ℤ s.npre) (pos 4))
        && not (ltb_ℤ (s.nsamp -ℤ s.npre) s.nmonotone))

unfoldable pub reset : EmtState → EmtState
reset s = record s {
  next_frame_index_to_inspect = pos 0;
  t = pos 0;
  u = pos 0;
  v = pos 0;
  i_first_check_sentinel = false;
}

-- The old RPC fields, and the state that is made of them. `none` is the error.
pub record OldFields : Type 0 where
  pub noise : Bool
  pub make_short_records : Bool
  pub make_contaminated_records : Bool
  pub make_single_records : Bool
  pub disable_zero_threshold : Bool
  pub level : ℤ
  pub verify_n_monotone : ℤ

unfoldable pub to_emt_state : OldFields → Option EmtState
unfolding reset int32
to_emt_state b =
    let mode : EmtMode =
      if b.make_contaminated_records
      then two_full_length
      else if b.make_single_records
      then one_full_length
      else if b.make_short_records
      then variable_length
      else full_length_isolated in
    if b.noise
    then none
    else if b.make_contaminated_records && b.make_short_records
    then none
    else some (record {
      mode = mode;
      threshold = b.level;
      nmonotone = int32 b.verify_n_monotone;
      npre = pos 0;
      nsamp = pos 0;
      enable_zero_threshold = not b.disable_zero_threshold;
      i_first_check_sentinel = false;
      next_frame_index_to_inspect = pos 0;
      t = pos 0;
      u = pos 0;
      v = pos 0;
    })

-- `raw[i]`
unfoldable pub read : List ℕ → ℕ → Outcome ℕ
read raw i = elim (get_elem? raw i) [ none ↦ fault | some x ↦ ok x ]

-- The best kink so far: twice its place, its X2, and whether some fit has failed.
pub record Fit : Type 0 where
  pub twice_kbest : ℤ
  pub x2_min : ℕ
  pub failed : Bool

-- kinkModelFit over the kinks given by twice their distance from sample `i`.
unfoldable pub kink_model_fit : FloatOps → List ℕ → ℤ → List ℤ → Fit → Fit
kink_model_fit ops samples i2 [] fit = fit
kink_model_fit ops samples i2 (k ∷ ks) fit =
    let (x2, err) = ops.kink_x2 samples k in
    let better : Bool = ops.float_lt x2 fit.x2_min in
    kink_model_fit ops samples i2 ks (record {
      twice_kbest = if better then i2 +ℤ k else fit.twice_kbest;
      x2_min = if better then x2 else fit.x2_min;
      failed = fit.failed || err;
    })

-- `int32(math.Ceil(kbest))` of a half-integer.
abbrev ceil_half : ℤ → ℤ
ceil_half (pos n) = pos ((n + 1) / 2)
ceil_half (negsuc n) = if ltb n 1 then pos 0 else negsuc ((n - 1) / 2)

-- The eight samples from i-4 to i+3.
unfoldable pub samples_around : List ℕ → ℕ → ℕ → Outcome (List ℕ)
unfolding read
samples_around raw i zero = ok []
samples_around raw i (suc n) = do x ← read raw i; xs ← samples_around raw (i + 1) n; ok (x ∷ xs)

unfoldable pub zero_threshold : FloatOps → List ℕ → ℕ → Bool → Outcome ℤ
unfolding kink_model_fit samples_around
zero_threshold ops raw i false = ok (pos i)
zero_threshold ops raw i true = if ltb i 4 then fault else (do
  samples ← samples_around raw (i - 4) 8
  let start : Fit = record { twice_kbest = pos 0; x2_min = ops.max_float; failed = false }
  let ks : List ℤ = negsuc 1 ∷ negsuc 0 ∷ pos 0 ∷ pos 1 ∷ pos 2 ∷ []
  let fit = kink_model_fit ops samples (pos (i + i)) ks start
  ok (if fit.failed then pos i else ceil_half fit.twice_kbest))
