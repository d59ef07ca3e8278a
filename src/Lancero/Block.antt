-- ===== src/Lancero/Block.antt =====
-- distributeData of lancero_source.go: the data block for the channels, from the copies that the
-- reader has sent; with the mix requests that getNextBlock serves before it, and SetCoupling.
pub mod Segments
pub mod Whole
use dastard.Base.{
  ℕ, zero, suc, ◌+◌, ◌*◌, ◌/◌, ◌%◌, ◌-◌, ◌==◌, Bool, true, false, not, ◌||◌, ◌&&◌, List, [], ◌∷◌,
  ◌++◌, Option, none, some, if◌then◌else◌, ltb, leb, length, set, get_elem?, Outcome, ok, fault,
}
use dastard.Base.Int.{ℤ, pos, negsuc, ◌+ℤ◌, ◌-ℤ◌}
use dastard.Stream.{DataSegment}
use dastard.Mix.{Mix, MixOps, mix_retard_fb}
use dastard.Packets.{Result, value, failed, panic, stuck, ◌>>=◌}
use dastard.Broker.{TriggerBroker, add_connection, delete_connection}
use dastard.Broker.Change.{or_unchanged}
use dastard.Lancero.{LanceroDevice}
use dastard.Lancero.Reader.{BuffersMsg}
use dastard.Lancero.External.{stream_at, external_triggers}

-- The fields of LanceroSource that a block uses. `devices` are the cards by their numbers.
pub record LanceroSource : Type 0 where
  pub devices : List (ℕ × LanceroDevice)
  pub chan2readout_order : List ℕ
  pub mixes : List Mix
  pub next_frame_num : ℤ
  pub external_last : Bool
  pub mixed_row_counts : Bool
  pub previous_last_sample_time : ℤ
  pub sample_period : ℤ

-- The floating-point code: the mixing, the time of the samples after the first, and the number of
-- frames in a gap.
pub record BlockOps : Type 0 where
  pub mixing : MixOps
  pub seg_duration : ℕ → ℤ
  pub frames_in_gap : ℤ → ℤ

-- dataBlock, less its error.
pub record DataBlock : Type 0 where
  pub segments : List DataSegment
  pub n_samp : ℕ
  pub external_rowcounts : List ℤ

-- The loop's variables: the copies, which the mixing changes in place, and the mixers.
pub record Mixed : Type 0 where
  pub copies : List (List ℕ)
  pub mixers : List Mix

abbrev pub order_at : List ℕ → ℕ → Result ℕ
order_at order i = elim (get_elem? order i) [ none ↦ panic | some r ↦ value r ]

abbrev pub mix_at : List Mix → ℕ → Result Mix
mix_at mixes i = elim (get_elem? mixes i) [ none ↦ panic | some m ↦ value m ]

abbrev pub mixing_result : Outcome (Mix × List ℕ) → Result (Mix × List ℕ)
mixing_result (ok r) = value r
mixing_result fault = panic
mixing_result Outcome.stuck = stuck

-- The data of one channel. The feedback is mixed with the error of the channel before.
unfoldable pub channel_data : MixOps → List ℕ → ℕ → Bool → Mixed → Result (List ℕ × Mixed)
channel_data ops order i feedback m = do
  r ← order_at order i
  raw ← stream_at m.copies r
  if feedback
      then (do
        mix ← mix_at m.mixers i
        e ← order_at order (i - 1)
        errs ← stream_at m.copies e
        done ← mixing_result (mix_retard_fb ops mix raw errs)
        value (done.1, record { copies = set m.copies r done.1; mixers = set m.mixers i done.0 }))
      else value (raw, m)

-- The segment of a channel, of which the data are still to be put in.
abbrev pub segment_of : ℤ → ℤ → ℤ → ℤ → Bool → List ℕ → DataSegment
segment_of first_frame first_time period dropped feedback raw = record {
  raw_data = raw;
  signed = not feedback;
  frames_per_sample = 1;
  first_frame_index = first_frame;
  first_time = first_time;
  frame_period = period;
  volts_per_arb = 0;
  processed = false;
  dropped_frames = dropped;
}

-- The loop over the channels from `i` on, with `k` left: `make` makes a segment.
unfoldable pub segment_loop :
    MixOps
    → (Bool → List ℕ → DataSegment)
    → List ℕ
    → ℕ
    → ℕ
    → Mixed
    → Result (List DataSegment × Mixed)
segment_loop ops make order i zero m = value ([], m)
segment_loop ops make order i (suc k) m = do
  d ← channel_data ops order i (i % 2 == 1) m
  rest ← segment_loop ops make order (i + 1) k d.1
  value (make (i % 2 == 1) d.0 ∷ rest.0, rest.1)

-- `ls.devices[0]`, the card with number 0, which need not be there.
unfoldable pub card_zero : List (ℕ × LanceroDevice) → Result LanceroDevice
card_zero [] = panic
card_zero ((key, dev) ∷ devs) = if key == 0 then value dev else card_zero devs

abbrev pub n_samp_of : List DataSegment → ℕ
n_samp_of [] = 0
n_samp_of (s ∷ []) = length s.raw_data
n_samp_of (s ∷ ss) = n_samp_of ss

-- The source and the block. The frame number of the next block does not count dropped frames.
unfoldable pub distribute_data :
    BlockOps → LanceroSource → BuffersMsg → Result (LanceroSource × DataBlock)
distribute_data ops ls msg = do
  first ← stream_at msg.datacopies 0
  dev ← card_zero ls.devices
  ext ←
      external_triggers ls.mixed_row_counts msg.datacopies ls.next_frame_num dev.nrows
        (length first) ls.external_last
  let dropped =
      if msg.data_drop_detected
      then ops.frames_in_gap (msg.last_sample_time -ℤ ls.previous_last_sample_time)
      else pos 0
  let make =
      segment_of (ls.next_frame_num +ℤ dropped)
        (msg.last_sample_time -ℤ ops.seg_duration (length first)) ls.sample_period dropped
  out ←
      segment_loop ops.mixing make ls.chan2readout_order 0 (length msg.datacopies)
        (record { copies = msg.datacopies; mixers = ls.mixes })
  value (
    record ls {
      mixes = out.1.mixers;
      next_frame_num = ls.next_frame_num +ℤ pos (length first);
      external_last = ext.0;
      previous_last_sample_time = msg.last_sample_time;
    },
    record { segments = out.0; n_samp = n_samp_of out.0; external_rowcounts = ext.1 },
  )

-- ConfigureMixFraction's tests of the channels; a request that passes is queued.
pub data MixError : Type 0 where
  out_of_bounds even_channel : MixError

unfoldable pub check_mix_channels : ℕ → List ℤ → Option MixError
check_mix_channels n [] = none
check_mix_channels n (negsuc i ∷ is) = some out_of_bounds
check_mix_channels n (pos i ∷ is) =
    let rest = check_mix_channels n is in
    if leb n i then some out_of_bounds else if i % 2 == 0 then some even_channel else rest

-- A mix request as getNextBlock serves it: `scaled` is the fraction over the number of samples. Too
-- few fractions or a channel that is not there is a panic.
unfoldable pub serve_mix : (ℕ → ℕ) → List Mix → List ℕ → List ℕ → Result (List Mix)
serve_mix scaled mixes [] fractions = value mixes
serve_mix scaled mixes (i ∷ is) [] = panic
serve_mix scaled mixes (i ∷ is) (f ∷ fs) = do
  mix ← mix_at mixes i
  serve_mix scaled (set mixes i (record mix { error_scale = scaled f })) is fs

-- SetCoupling: the loops over the pairs of an error channel `i` and its feedback channel, `k`
-- pairs.
pub data CouplingStatus : Type 0 where
  no_coupling fb_to_err err_to_fb : CouplingStatus

abbrev pub couple : Bool → TriggerBroker → ℕ → ℕ → TriggerBroker
couple true b source receiver = or_unchanged b (add_connection b (pos source) (pos receiver))
couple false b source receiver = or_unchanged b (delete_connection b (pos source) (pos receiver))

unfoldable pub err_to_fb_loop : Bool → ℕ → ℕ → TriggerBroker → TriggerBroker
err_to_fb_loop on i zero b = b
err_to_fb_loop on i (suc k) b = err_to_fb_loop on (i + 2) k (couple on b i (i + 1))

unfoldable pub fb_to_err_loop : Bool → ℕ → ℕ → TriggerBroker → TriggerBroker
fb_to_err_loop on i zero b = b
fb_to_err_loop on i (suc k) b = fb_to_err_loop on (i + 2) k (couple on b (i + 1) i)

abbrev pub is_err_to_fb : CouplingStatus → Bool
is_err_to_fb err_to_fb = true
is_err_to_fb no_coupling = false
is_err_to_fb fb_to_err = false

abbrev pub is_fb_to_err : CouplingStatus → Bool
is_fb_to_err fb_to_err = true
is_fb_to_err no_coupling = false
is_fb_to_err err_to_fb = false

unfoldable pub set_coupling : CouplingStatus → ℕ → TriggerBroker → TriggerBroker
set_coupling status nchan b =
    let pairs : ℕ = (nchan + 1) / 2 in
    fb_to_err_loop (is_fb_to_err status) 0 pairs (err_to_fb_loop (is_err_to_fb status) 0 pairs b)
