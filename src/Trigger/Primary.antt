-- ===== src/Trigger/Primary.antt =====
-- TriggerData and TriggerDataSecondary of triggering.go, and edgeMultiTriggerComputeAppend of
-- edge_multi_trigger.go.
pub mod Sorting
pub mod Result
use dastard.Base.{
  List, [], ◌∷◌, ◌++◌, map, Option, none, some, if◌then◌else◌, length, Outcome, ok, ◌>>=◌, index,
}
use dastard.Base.Int.{ℤ, pos, ◌+ℤ◌, ◌-ℤ◌, ltb_ℤ}
use dastard.Multi.{EmtState, RecordSpec}
use dastard.Multi.Compute.{edge_multi_compute_record_specs}
use dastard.Trigger.Edge.{edge_trigger_compute_append}
use dastard.Trigger.Level.{level_trigger_compute_append}
use dastard.Trigger.Auto.{auto_trigger_compute_append}
use dastard.Trigger.{FloatOps, DataRecord, Processor, trigger_at, trigger_at_specific_samples}

-- The record of one specification.
unfoldable pub record_of_spec : FloatOps → Processor → RecordSpec → Outcome (Option DataRecord)
unfolding trigger_at_specific_samples
record_of_spec ops d spec =
    let at : ℤ = spec.first_rising_frame_index -ℤ d.stream.first_frame_index in
    do
      n ← index spec.spec_nsamp
      npre ← index spec.spec_npre
      let made = index at >>= λ i. trigger_at_specific_samples ops d i npre n
      if ltb_ℤ at spec.spec_npre then ok none else made

unfoldable pub records_of_specs :
    FloatOps
    → Processor
    → List RecordSpec
    → List (Option DataRecord)
    → Outcome (List (Option DataRecord))
unfolding record_of_spec
records_of_specs ops d [] records = ok records
records_of_specs ops d (spec ∷ specs) records = do
  r ← record_of_spec ops d spec
  records_of_specs ops d specs (records ++ (r ∷ []))

-- The new edge-multi state, and the records.
unfoldable pub edge_multi_trigger_compute_append :
    FloatOps → Processor → List (Option DataRecord) → Outcome (EmtState × List (Option DataRecord))
unfolding edge_multi_compute_record_specs records_of_specs
edge_multi_trigger_compute_append ops d records = do
  (emt, specs) ←
      edge_multi_compute_record_specs ops d.emt_state d.stream.raw_data d.stream.first_frame_index
  found ← records_of_specs ops d specs records
  ok (emt, found)

-- Edge, level and auto triggers, each pass behind the one before.
unfoldable pub three_passes : FloatOps → Processor → Outcome (List (Option DataRecord))
unfolding edge_trigger_compute_append level_trigger_compute_append auto_trigger_compute_append
three_passes ops d = do
  edges ← edge_trigger_compute_append ops d []
  levels ← level_trigger_compute_append ops d edges
  auto_trigger_compute_append ops d levels

-- `slices.DeleteFunc` of the nil records.
unfoldable pub delete_nil : List (Option DataRecord) → List DataRecord
delete_nil [] = []
delete_nil (none ∷ rs) = delete_nil rs
delete_nil (some r ∷ rs) = r ∷ delete_nil rs

-- The frame of the last record, or the given one.
unfoldable pub last_frame : ℤ → List DataRecord → ℤ
last_frame f [] = f
last_frame f (r ∷ rs) = last_frame r.trig_frame rs

-- Steps 2 and 3: the last trigger and the trigger list.
unfoldable pub finish : Processor → EmtState → List DataRecord → Processor
unfolding last_frame
finish d emt records =
    let start : ℤ = d.stream.first_frame_index in
    record d {
      trigger_state = record (d.trigger_state) { emt_state = emt };
      last_trigger = last_frame d.last_trigger records;
      last_trig_list = record {
        list_channel = d.channel_index;
        frames = map (λ r. r.trig_frame) records;
        key_frame = start;
        key_time = d.stream.first_time;
        list_rate = d.sample_rate;
        first_frame_that_cannot_trigger =
            start +ℤ pos (length d.stream.raw_data) -ℤ (pos d.n_samples -ℤ pos d.n_presamples);
      };
    }

unfoldable pub trigger_data : FloatOps → Processor → Outcome (Processor × List DataRecord)
unfolding three_passes edge_multi_trigger_compute_append delete_nil finish
trigger_data ops d =
    let multi = edge_multi_trigger_compute_append ops d [] in
    let passes = three_passes ops d >>= λ records. ok (d.emt_state, records) in
    do
      (emt, found) ← if d.edge_multi then multi else passes
      let records = delete_nil found
      ok (finish d emt records, records)

-- The secondary records. A nil record stays in the list.
unfoldable pub trigger_data_secondary :
    FloatOps → Processor → List ℤ → Outcome (List (Option DataRecord))
unfolding trigger_at
trigger_data_secondary ops d [] = ok []
trigger_data_secondary ops d (f ∷ fs) =
    let at : ℤ = f -ℤ d.stream.first_frame_index in
    let made = index at >>= λ i. trigger_at ops d i in
    do
      r ← if ltb_ℤ at (pos d.n_presamples) then ok none else made
      rs ← trigger_data_secondary ops d fs
      ok (r ∷ rs)
