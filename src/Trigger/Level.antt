-- ===== src/Trigger/Level.antt =====
-- levelTriggerComputeAppend of triggering.go.
pub mod Scan
use dastard.Base.{
  ℕ, zero, suc, ◌+◌, Bool, true, false, ◌&&◌, ◌||◌, not, List, [], ◌∷◌, ◌++◌, Option, none, some,
  ltb, leb, if◌then◌else◌, length, Outcome, ok, fault, stuck, ◌>>=◌, index,
}
use dastard.Base.Int.{ℤ, pos, ◌+ℤ◌, ltb_ℤ}
use dastard.Base.Words.{add16}
use dastard.Trigger.Records.{next_found, rest_of, sort_records}
use dastard.Trigger.{
  FloatOps, DataRecord, Processor, at_back, trigger_at, first_potential_trigger_frame, shifted_raw,
  in_range,
}

unfoldable pub level_threshold : Processor → ℕ
unfolding add16
level_threshold d = if d.stream.signed then add16 d.level_level 32768 else d.level_level

-- The test of the loop at sample `i`: the level is crossed between the sample before and this one.
-- The sample before is read only where the first comparison holds.
unfoldable pub level_hit : Processor → List ℕ → ℕ → ℕ → Outcome Bool
unfolding at_back
level_hit d raw threshold i = do
  x ← at_back raw i 0
  let before = at_back raw i 1
  let rising = before >>= (λ y. ok (ltb y threshold))
  let falling = before >>= (λ y. ok (ltb threshold y))
  (if d.level_rising
      then (if leb threshold x then rising else ok false)
      else (if leb x threshold then falling else ok false))

-- `pending` is records[idxNextTrig:nFoundTrigs], the found records still to come; `next` is
-- nextFoundTrig. The fuel bounds the rounds of the loop.
unfoldable pub level_loop :
    ℕ
    → FloatOps
    → Processor
    → List ℕ
    → List (Option DataRecord)
    → ℤ
    → ℕ
    → List (Option DataRecord)
    → Outcome (List (Option DataRecord))
unfolding level_hit trigger_at next_found
level_loop zero ops d raw pending next i records = stuck
level_loop (suc fuel) ops d raw pending next i records =
    let past = λ (j : ℕ) (n : ℤ). level_loop fuel ops d raw (rest_of pending) n j records in
    let jump = (do
      n ← next_found d.stream.first_frame_index (rest_of pending)
      j ← index (next +ℤ pos d.n_samples)
      past j n) in
    let add = λ (r : Option DataRecord).
      level_loop fuel ops d raw pending next (i + 1) (records ++ (r ∷ [])) in
    let found = trigger_at ops d i >>= add in
    let on = level_loop fuel ops d raw pending next (i + 1) records in
    let test = level_hit d raw (level_threshold d) i >>= (λ hit. if hit then found else on) in
    let body = if ltb_ℤ next (pos (i + d.n_samples)) then jump else test in
    if in_range d i then body else ok records

unfoldable pub level_trigger_compute_append :
    FloatOps → Processor → List (Option DataRecord) → Outcome (List (Option DataRecord))
unfolding level_loop next_found first_potential_trigger_frame shifted_raw sort_records
    level_threshold
level_trigger_compute_append ops d records =
    let fuel : ℕ = length d.stream.raw_data + d.n_presamples + 1 in
    let scan = (do
      next ← next_found d.stream.first_frame_index records
      found ←
          level_loop fuel ops d (shifted_raw d) records next (first_potential_trigger_frame d)
            records
      sort_records found) in
    if d.level_trigger then scan else ok records
