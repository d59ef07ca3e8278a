-- ===== src/Decimate.antt =====
-- DecimateData of process_data.go: the mode that drops samples, and the count of samples that both
-- modes leave.
pub mod Dropped
mod Runs
use dastard.Base.{
  ℕ, zero, suc, ◌+◌, ◌-◌, ◌*◌, ◌/◌, Bool, true, false, List, [], ◌∷◌, Option, none, some, leb, ltb,
  if◌then◌else◌, length, get_elem?, set, take, Outcome, ok, fault, ◌>>=◌,
}
use dastard.Stream.{DataSegment}

-- `Nout`. For an empty segment Go's division truncates (level-1)/level to 0, as here.
unfoldable pub n_out : ℕ → ℕ → ℕ
n_out n level = (n + level - 1) / level

-- `for i := range Nout { data[i] = data[i*level] }`, in place, from `i` on and `k` times.
unfoldable pub drop_loop : ℕ → ℕ → ℕ → List ℕ → Outcome (List ℕ)
drop_loop zero i level xs = ok xs
drop_loop (suc k) i level xs = do
  x ← elim (get_elem? xs (i * level)) [ none ↦ fault | some x ↦ ok x ]
  drop_loop k (i + 1) level (set xs i x)

-- Decimation with DecimateAvgMode false; `on` is Decimate.
unfoldable pub decimate_dropping : Bool → ℕ → DataSegment → Outcome DataSegment
unfolding n_out drop_loop
decimate_dropping on level seg =
    let nout : ℕ = n_out (length seg.raw_data) level in
    let dropped = (do
      xs ← drop_loop nout 0 level seg.raw_data
      ok (record seg {
        raw_data = take nout xs;
        frames_per_sample = seg.frames_per_sample * level;
      })) in
    if on then (if leb level 1 then ok seg else dropped) else ok seg

-- The guard of the averaging mode for a last block that is not whole.
unfoldable pub has_partial_block : ℕ → ℕ → Bool
unfolding n_out
has_partial_block n level = ltb (n_out n level * level) n
