-- ===== src/Multi/Search.antt =====
-- edgeMultiFindNextTriggerInd of edge_multi_trigger.go.
pub mod First
use dastard.Base.{
  ℕ, zero, suc, ◌+◌, ◌-◌, Bool, true, false, not, ◌&&◌, ◌||◌, List, ltb, leb, if◌then◌else◌,
  Outcome, ok, fault, stuck, ◌>>=◌,
}
use dastard.Base.Int.{ℤ, pos, ◌+ℤ◌, ltb_ℤ, leb_ℤ, sub_ℕ, pos_part}
use dastard.Floats.{FloatOps}
use dastard.Multi.{read, zero_threshold}

pub record NextTriggerInd : Type 0 where
  pub trigger_ind : ℤ
  pub trigger_found : Bool
  pub next_i_first : ℤ

-- The inner loop: how many samples from `i` on are monotone, counted from `j` and up to `most`.
unfoldable pub monotone_run : ℕ → Bool → List ℕ → ℕ → ℕ → ℤ → Outcome ℕ
unfolding read
monotone_run zero rising raw i j most = stuck
monotone_run (suc fuel) rising raw i j most =
    let more = monotone_run fuel rising raw i (j + 1) most in
    do
      x ← read raw (i + j)
      y ← read raw (i + j - 1)
      let monotone = if rising then ltb y x else ltb x y
      if not monotone || leb_ℤ most (pos j) then ok j else more

-- The step between sample `i` and the one before passes the threshold.
unfoldable pub step_hit : List ℕ → ℕ → ℤ → Outcome Bool
unfolding read
step_hit raw i threshold = if ltb i 1 then fault else (do
  x ← read raw i
  y ← read raw (i - 1)
  let diff = sub_ℕ x y
  ok (if leb_ℤ (pos 1) threshold then leb_ℤ threshold diff else leb_ℤ diff threshold))

-- The search from sample `i` to `i_last`; `i_first` is where it began. The fuel bounds its rounds.
unfoldable pub find_loop :
    ℕ → FloatOps → List ℕ → ℕ → ℕ → ℤ → ℤ → ℤ → ℤ → Bool → Outcome NextTriggerInd
unfolding monotone_run step_hit zero_threshold
find_loop zero ops raw i_first i i_last threshold nmonotone most enable = stuck
find_loop (suc fuel) ops raw i_first i i_last threshold nmonotone most enable =
    let next = find_loop fuel ops raw i_first (i + 1) i_last threshold nmonotone most enable in
    let trigger = λ (run : ℕ). zero_threshold ops raw i enable >>= λ k.
    ok (record { trigger_ind = k; trigger_found = true; next_i_first = pos (i + run + 1) }) in
    let check = monotone_run (pos_part most + 1) (leb_ℤ (pos 1) threshold) raw i 1 most >>= λ run.
    if leb_ℤ nmonotone (pos run) then trigger run else next in
    let body = step_hit raw i threshold >>= (λ hit. if hit then check else next) in
    if leb_ℤ (pos i) i_last
    then body
    else ok (record {
      trigger_ind = pos 0;
      trigger_found = false;
      next_i_first = if ltb_ℤ (i_last +ℤ pos 1) (pos i_first) then pos i_first else i_last +ℤ pos 1;
    })

unfoldable pub find_next_trigger_ind :
    FloatOps → List ℕ → ℕ → ℤ → ℤ → ℤ → ℤ → Bool → Outcome NextTriggerInd
unfolding find_loop
find_next_trigger_ind ops raw i_first i_last threshold nmonotone most enable =
    find_loop (pos_part i_last + 2) ops raw i_first i_first i_last threshold nmonotone most enable
