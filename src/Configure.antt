-- ===== src/Configure.antt =====
-- ConfigurePulseLengths and ConfigureTrigger of process_data.go, and ConfigurePulseLengths of
-- data_source.go over all processors. The projectors, which a change of lengths removes, are not
-- part of the model's processor.
pub mod Lengths
pub mod Change
mod Runs
use dastard.Base.{ℕ, ◌==◌, Bool, true, false, not, ◌&&◌, ◌||◌, List, [], ◌∷◌, if◌then◌else◌}
use dastard.Base.Int.{ℤ, pos, ◌+ℤ◌, ltb_ℤ, pos_part}
use dastard.Base.Words.{int32}
use dastard.Multi.{EmtState, valid, reset}
use dastard.Trigger.{TriggerState, Processor}

-- The processor with another edge-multi state.
abbrev pub with_emt : Processor → EmtState → Processor
with_emt d emt = record d { trigger_state = record (d.trigger_state) { emt_state = emt } }

-- The lengths are copied to the edge-multi state, which is checked, and reset if it is valid. The
-- second component tells of an error.
unfoldable pub sync_lengths : Processor → Processor × Bool
unfolding int32 valid reset
sync_lengths d =
    let emt : EmtState = record (d.emt_state) {
      nsamp = int32 (pos d.n_samples);
      npre = int32 (pos d.n_presamples);
    } in
    if d.edge_multi && not (valid emt)
    then (with_emt d emt, true)
    else (with_emt d (reset emt), false)

unfoldable pub configure_lengths : Processor → ℕ → ℕ → Processor × Bool
unfolding sync_lengths
configure_lengths d nsamp npre =
    let same : Bool = (d.n_samples == nsamp) && (d.n_presamples == npre) in
    let d' : Processor = if same then d else with_emt d (reset d.emt_state) in
    sync_lengths (record d' { n_samples = nsamp; n_presamples = npre })

-- ConfigureTrigger.
unfoldable pub configure_trigger : Processor → TriggerState → Processor × Bool
unfolding sync_lengths
configure_trigger d state = sync_lengths (record d { trigger_state = state; last_trigger = pos 0 })

-- All processors in turn, up to the first error.
unfoldable pub configure_each : List Processor → ℕ → ℕ → List Processor × Bool
unfolding configure_lengths
configure_each [] nsamp npre = ([], false)
configure_each (d ∷ ds) nsamp npre =
    let (d', err) = configure_lengths d nsamp npre in
    let (ds', errs) = configure_each ds nsamp npre in
    if err then (d' ∷ ds, true) else (d' ∷ ds', errs)

unfoldable pub configure_pulse_lengths : List Processor → ℤ → ℤ → List Processor × Bool
unfolding configure_each
configure_pulse_lengths ds nsamp npre =
    let bad : Bool = ltb_ℤ npre (pos 3) || (ltb_ℤ nsamp (pos 1) || ltb_ℤ nsamp (npre +ℤ pos 1)) in
    if bad then (ds, true) else configure_each ds (pos_part nsamp) (pos_part npre)
