-- ===== src/Trigger.antt =====
-- The state of a DataStreamProcessor (process_data.go) that triggering uses, and the making of
-- records (triggering.go).
pub mod Access
pub mod Edge
pub mod Auto
pub mod Records
pub mod Primary
pub mod Level
pub mod Greedy
mod Runs
use dastard.Base.{
  ℕ, ◌+◌, ◌-◌, Bool, true, false, ◌&&◌, List, [], ◌∷◌, Option, none, some, leb, ltb, if◌then◌else◌,
  length, take, drop, get_elem?, map, Outcome, ok, fault, ◌>>=◌,
}
use dastard.Base.Int.{ℤ, pos, ◌+ℤ◌, ◌-ℤ◌, ltb_ℤ, pos_part}
use dastard.Base.Words.{add16}
pub use dastard.Floats.{FloatOps}
use dastard.Stream.{DataStream, time_of}
use dastard.Multi.{EmtState}

pub record DataRecord : Type 0 where
  pub record_data : List ℕ
  pub trig_frame : ℤ
  pub trig_time : ℤ
  pub record_signed : Bool
  pub record_channel : ℕ
  pub presamples : ℕ
  pub record_volts : ℕ
  pub samp_period : ℕ

pub record TriggerList : Type 0 where
  pub list_channel : ℕ
  pub frames : List ℤ
  pub key_frame : ℤ
  pub key_time : ℤ
  pub list_rate : ℕ
  pub first_frame_that_cannot_trigger : ℤ

-- TriggerState. `emt_state` stands for its edge-multi fields; the old RPC fields are `OldFields` in
-- Multi.antt.
pub record TriggerState : Type 0 where
  pub auto_trigger : Bool
  pub auto_delay : ℤ
  pub auto_veto_range : ℕ
  pub level_trigger : Bool
  pub level_rising : Bool
  pub level_level : ℕ
  pub edge_trigger : Bool
  pub edge_rising : Bool
  pub edge_falling : Bool
  pub edge_level : ℤ
  pub edge_multi : Bool
  pub emt_state : EmtState

pub record Processor : Type 0 where
  pub channel_index : ℕ
  pub n_samples : ℕ
  pub n_presamples : ℕ
  pub sample_rate : ℕ
  pub last_trigger : ℤ
  pub stream : DataStream
  pub last_trig_list : TriggerList
  pub trigger_state : TriggerState
  pub open trigger_state use *

-- `raw[i-k]`: an index out of range is a panic.
unfoldable pub at_back : List ℕ → ℕ → ℕ → Outcome ℕ
at_back raw i k =
    if leb k i then elim (get_elem? raw (i - k)) [ none ↦ fault | some x ↦ ok x ] else fault

-- `raw[i-npre : i+nsamp-npre]`
unfoldable pub slice : List ℕ → ℕ → ℕ → Outcome (List ℕ)
slice raw lo n = if leb (lo + n) (length raw) then ok (take n (drop lo raw)) else fault

-- The record of the trigger at sample `i` with the given samples.
unfoldable pub record_of : FloatOps → Processor → ℕ → ℕ → List ℕ → DataRecord
unfolding time_of
record_of ops d i npre samples = record {
  record_data = samples;
  trig_frame = d.stream.first_frame_index +ℤ pos i;
  trig_time = time_of d.stream.segment i;
  record_signed = d.stream.signed;
  record_channel = d.channel_index;
  presamples = npre;
  record_volts = d.stream.volts_per_arb;
  samp_period = ops.period_of_rate d.sample_rate;
}

-- `none` is the nil record, which a trigger too near the start of the stream gives.
unfoldable pub trigger_at_specific_samples :
    FloatOps → Processor → ℕ → ℕ → ℕ → Outcome (Option DataRecord)
unfolding slice record_of
trigger_at_specific_samples ops d i npre nsamp = if ltb i npre then ok none else (do
  samples ← slice d.stream.raw_data (i - npre) nsamp
  ok (some (record_of ops d i npre samples)))

unfoldable pub trigger_at : FloatOps → Processor → ℕ → Outcome (Option DataRecord)
unfolding trigger_at_specific_samples
trigger_at ops d i = trigger_at_specific_samples ops d i d.n_presamples d.n_samples

-- An index computed from the last trigger, at least NPresamples.
unfoldable pub first_after : Processor → ℤ → ℕ
first_after d delay =
    let next : ℤ = d.last_trigger -ℤ d.stream.first_frame_index +ℤ delay in
    if ltb_ℤ next (pos d.n_presamples) then d.n_presamples else pos_part next

unfoldable pub first_potential_trigger_frame : Processor → ℕ
unfolding first_after
first_potential_trigger_frame d = first_after d (pos d.n_samples)

unfoldable pub first_potential_auto_trigger_frame : FloatOps → Processor → ℕ
unfolding first_after
first_potential_auto_trigger_frame ops d =
    let delay : ℤ = ops.delay_samples d.auto_delay d.sample_rate in
    first_after d (if ltb_ℤ (pos d.n_samples) delay then delay else pos d.n_samples)

-- "Solve the problem of signed data by shifting all values up by 2^15".
unfoldable pub shifted_raw : Processor → List ℕ
unfolding add16
shifted_raw d =
    if d.stream.signed then map (λ x. add16 x 32768) d.stream.raw_data else d.stream.raw_data

-- `i < ndata+NPresamples-NSamples`, the end of the triggerable range.
abbrev pub in_range : Processor → ℕ → Bool
in_range d i = ltb (i + d.n_samples) (length d.stream.raw_data + d.n_presamples)
