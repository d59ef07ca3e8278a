-- ===== src/Trigger/Auto.antt =====
-- autoTriggerComputeAppend of triggering.go.
pub mod Scan
pub mod Loop
use dastard.Base.{
  ℕ, zero, suc, ◌+◌, ◌-◌, Bool, true, false, List, [], ◌∷◌, ◌++◌, Option, none, some, ltb, leb,
  if◌then◌else◌, length, Outcome, ok, fault, stuck, ◌>>=◌, index,
}
use dastard.Base.Int.{ℤ, pos, ◌+ℤ◌, ltb_ℤ, leb_ℤ, pos_part}
use dastard.Trigger.Records.{next_found, rest_of, sort_records}
use dastard.Trigger.{
  FloatOps, DataRecord, Processor, slice, trigger_at, first_potential_auto_trigger_frame, in_range,
}

-- The largest less the smallest of the samples, as the loop finds them.
unfoldable pub spread : ℕ → ℕ → List ℕ → ℕ
spread max_d min_d [] = max_d - min_d
spread max_d min_d (x ∷ xs) =
    spread (if ltb max_d x then x else max_d)
      (if ltb max_d x then min_d else if ltb x min_d then x else min_d) xs

-- The (max-min) veto of a record at sample `i`. It reads the raw data also where they are signed.
unfoldable pub auto_vetoed : Processor → ℕ → Outcome Bool
unfolding slice spread
auto_vetoed d i =
    let test = slice d.stream.raw_data (i - d.n_presamples) d.n_samples >>= λ samples.
    elim samples [ [] ↦ fault | x ∷ xs ↦ ok (leb d.auto_veto_range (spread x x xs)) ] in
    if ltb 0 d.auto_veto_range then test else ok false

unfoldable pub auto_delay_samples : FloatOps → Processor → ℕ
auto_delay_samples ops d =
    let delay : ℤ = ops.delay_samples d.auto_delay d.sample_rate in
    if ltb_ℤ delay (pos d.n_samples) then d.n_samples else pos_part delay

-- `pending` and `next` are as in the level loop, `pot` is nextPotentialTrig. The fuel bounds the
-- rounds of the loop.
unfoldable pub auto_loop :
    ℕ
    → FloatOps
    → Processor
    → List (Option DataRecord)
    → ℤ
    → ℕ
    → List (Option DataRecord)
    → Outcome (List (Option DataRecord))
unfolding auto_vetoed auto_delay_samples trigger_at next_found
auto_loop zero ops d pending next pot records = stuck
auto_loop (suc fuel) ops d pending next pot records =
    let delay : ℕ = auto_delay_samples ops d in
    let past = λ (j : ℕ) (n : ℤ). auto_loop fuel ops d (rest_of pending) n j records in
    let jump = (do
      n ← next_found d.stream.first_frame_index (rest_of pending)
      j ← index (next +ℤ pos delay)
      past j n) in
    let add = λ (r : Option DataRecord).
      auto_loop fuel ops d pending next (pot + delay) (records ++ (r ∷ [])) in
    let quiet = trigger_at ops d pot >>= add in
    let skip = auto_loop fuel ops d pending next (pot + delay) records in
    let test = auto_vetoed d pot >>= (λ vetoed. if vetoed then skip else quiet) in
    let body = if leb_ℤ (pos (pot + d.n_samples)) next then test else jump in
    if in_range d pot then body else ok records

unfoldable pub auto_trigger_compute_append :
    FloatOps → Processor → List (Option DataRecord) → Outcome (List (Option DataRecord))
unfolding auto_loop next_found first_potential_auto_trigger_frame sort_records
auto_trigger_compute_append ops d records =
    let fuel : ℕ = length d.stream.raw_data + d.n_presamples + length records + 1 in
    let scan = (do
      next ← next_found d.stream.first_frame_index records
      found ← auto_loop fuel ops d records next (first_potential_auto_trigger_frame ops d) records
      sort_records found) in
    if d.auto_trigger then scan else ok records
