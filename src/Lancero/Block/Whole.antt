-- ===== src/Lancero/Block/Whole.antt =====
-- A whole block of a source, from the message of its reader.
use dastard.Base.{
  ℕ, ◌+◌, ◌*◌, ◌/◌, ◌%◌, ◌<◌, ◌≡◌, refl, sym, ap, ◌∙◌, Bool, false, List, [], ◌∷◌, some, length,
  get_elem?, arith, if◌then◌else◌,
}
use dastard.Base.Int.{ℤ, pos, ◌+ℤ◌, ◌-ℤ◌}
use native.Mathlib.Nat.{mod-lt, div-lt_iff_lt-mul, div-add-mod'}
use dastard.Mix.{Mix}
use dastard.Stream.{DataSegment}
use dastard.Packets.{value}
use dastard.Lancero.{LanceroDevice}
use dastard.Lancero.Order.{place_inj}
use dastard.Lancero.Order.Cards.{AreOrdered}
use dastard.Lancero.Reader.{BuffersMsg}
use dastard.Lancero.External.{external_triggers}
use dastard.Lancero.External.Input.{IsInput, seen, rises, counts, state_after}
use dastard.Lancero.External.Rises.{external_triggers-rises, stream_at-some}
use dastard.Lancero.Block.{
  LanceroSource, BlockOps, DataBlock, Mixed, segment_of, segment_loop, card_zero, distribute_data,
  n_samp_of,
}
use dastard.Lancero.Block.Segments.{IsPaired, IsLoaded, AreMixed, segment_loop-AreMixed}

-- Where the pixel of the pair of channels number `p` stands in the frames of a card.
abbrev pub place_on : LanceroDevice → ℕ → ℕ
place_on dev p = p % dev.nrows * dev.ncols + p / dev.nrows

-- The order that updateChanOrderMap makes for one card.
pub one_card-IsPaired :
    (dev : LanceroDevice) (order : List ℕ)
    → 0 < dev.nrows
    → AreOrdered (dev ∷ []) 0 order
    → IsPaired order (dev.ncols * dev.nrows) (place_on dev)
one_card-IsPaired dev order pos_rows h =
    let col_lt = λ (p : ℕ) (l : p < dev.ncols * dev.nrows).
      (div-lt_iff_lt-mul {x = p} {y = dev.ncols} pos_rows).1 l in
    record {
      errors = λ p l.
          let place : (p / dev.nrows * dev.nrows + p % dev.nrows) * 2 + 0 + 0 ≡ p * 2 =
            omega (arith, div-add-mod' p dev.nrows) in
          let here =
            h.0 (p % dev.nrows) (p / dev.nrows) 0 (mod-lt p pos_rows) (col_lt p l) (omega arith) in
          rw (← place) (here ∙ ap some (omega arith));
      feedbacks = λ p l.
          let place : (p / dev.nrows * dev.nrows + p % dev.nrows) * 2 + 1 + 0 ≡ p * 2 + 1 =
            omega (arith, div-add-mod' p dev.nrows) in
          let here =
            h.0 (p % dev.nrows) (p / dev.nrows) 1 (mod-lt p pos_rows) (col_lt p l) (omega arith) in
          rw (← place) (here ∙ ap some (omega arith));
      distinct = λ p q a b e.
          let (rows, cols) =
            place_inj dev.ncols (p / dev.nrows) (p % dev.nrows) (q / dev.nrows) (q % dev.nrows)
              (col_lt p a) (col_lt q b) e in
          omega (
            arith,
            rows,
            div-add-mod' p dev.nrows,
            div-add-mod' q dev.nrows,
            ap (λ (x : ℕ). x * dev.nrows) cols,
          );
    }

distribute_data-by_parts :
    (ops : BlockOps) (ls : LanceroSource) (msg : BuffersMsg) (dev : LanceroDevice) (first : List ℕ)
    (segs : List DataSegment) (m : Mixed) (found : List ℤ) (last : Bool)
    → get_elem? msg.datacopies 0 ≡ some first
    → card_zero ls.devices ≡ value dev
    → external_triggers ls.mixed_row_counts msg.datacopies ls.next_frame_num dev.nrows
        (length first)
        ls.external_last
      ≡ value (last, found)
    → let dropped =
        if msg.data_drop_detected
        then ops.frames_in_gap (msg.last_sample_time -ℤ ls.previous_last_sample_time)
        else pos 0 in
      segment_loop ops.mixing
          (segment_of
            (ls.next_frame_num +ℤ dropped)
            (msg.last_sample_time -ℤ ops.seg_duration (length first))
            ls.sample_period
            dropped)
          ls.chan2readout_order
          0
          (length msg.datacopies)
          (record { copies = msg.datacopies; mixers = ls.mixes })
        ≡ value (segs, m)
      → distribute_data ops ls msg
        ≡ value (
          record ls {
            mixes = m.mixers;
            next_frame_num = ls.next_frame_num +ℤ pos (length first);
            external_last = last;
            previous_last_sample_time = msg.last_sample_time;
          },
          record { segments = segs; n_samp = n_samp_of segs; external_rowcounts = found },
        )
unfolding distribute_data
distribute_data-by_parts ops ls msg dev first segs m found last hf hd he hs =
    rw (stream_at-some msg.datacopies 0 first hf, hd, he, hs) refl

-- A block of a source whose order leads to different pairs, and whose message holds their errors
-- and feedbacks, with as many errors as the mixing reads: distributeData ends without a panic,
-- each error channel gets its own error signal, and each feedback channel its own feedback, mixed
-- with its own error by its own mixer; the external triggers are the rises of the input as the
-- search sees it, which takes the row r / ncols at its step r in a frame; the frames are numbered
-- from the source's next frame, plus the dropped ones, and the next block counts on from the
-- frames of this one.
pub distribute_data-AreMixed :
    (ops : BlockOps) (ls : LanceroSource) (msg : BuffersMsg) (dev : LanceroDevice) (first : List ℕ)
    (n : ℕ) (place : ℕ → ℕ) (err fb : ℕ → List ℕ) (mix : ℕ → Mix) (done : ℕ → Mix × List ℕ)
    (input : ℕ → Bool)
    → IsPaired ls.chan2readout_order n place
    → IsLoaded ops.mixing place err fb mix done 0 n
        (record { copies = msg.datacopies; mixers = ls.mixes })
    → length msg.datacopies ≡ n * 2
    → get_elem? msg.datacopies 0 ≡ some first
    → card_zero ls.devices ≡ value dev
    → ls.mixed_row_counts ≡ false
    → 0 < dev.ncols
    → IsInput msg.datacopies dev.ncols dev.nrows (length first) input
    → let dropped =
        if msg.data_drop_detected
        then ops.frames_in_gap (msg.last_sample_time -ℤ ls.previous_last_sample_time)
        else pos 0 in
      (ls' : LanceroSource) × (block : DataBlock) × (distribute_data ops ls msg
        ≡ value (ls', block))
      × AreMixed
          (segment_of
            (ls.next_frame_num +ℤ dropped)
            (msg.last_sample_time -ℤ ops.seg_duration (length first))
            ls.sample_period
            dropped)
          err
          done
          0
          n
          ls.mixes
          block.segments
          ls'.mixes
      × (block.external_rowcounts
          ≡ counts ls.next_frame_num dev.nrows (
              rises (seen dev.ncols dev.nrows input) ls.external_last 0 (length first * dev.nrows)))
      × (ls'.external_last
          ≡ state_after
              (seen dev.ncols dev.nrows input)
              ls.external_last
              0
              (length first * dev.nrows))
      × (ls'.next_frame_num ≡ ls.next_frame_num +ℤ pos (length first))
distribute_data-AreMixed ops ls msg dev first n place err fb mix done input h l size hf hd unmixed
      some_cols hi =
    let dropped =
      if msg.data_drop_detected
      then ops.frames_in_gap (msg.last_sample_time -ℤ ls.previous_last_sample_time)
      else pos 0 in
    let make =
      segment_of (ls.next_frame_num +ℤ dropped)
        (msg.last_sample_time -ℤ ops.seg_duration (length first)) ls.sample_period dropped in
    let start : Mixed = record { copies = msg.datacopies; mixers = ls.mixes } in
    let zero_off : 0 * 2 ≡ 0 = omega arith in
    let (segs, m, e, a) =
      segment_loop-AreMixed ops.mixing make ls.chan2readout_order place err fb mix done n n 0 start
        h (omega arith) l in
    let go = segment_loop ops.mixing make ls.chan2readout_order in
    let e' : go 0 (length msg.datacopies) start ≡ value (segs, m) =
      ap (λ (k : ℕ). go 0 k start) size ∙ ap (λ (j : ℕ). go j (n * 2) start) (sym zero_off) ∙ e in
    let ext =
      external_triggers-rises msg.datacopies ls.next_frame_num dev.ncols dev.nrows (length first)
        input ls.external_last some_cols hi in
    let whole =
      distribute_data-by_parts ops ls msg dev first segs m
        (counts ls.next_frame_num dev.nrows
          (rises (seen dev.ncols dev.nrows input) ls.external_last 0 (length first * dev.nrows)))
        (state_after (seen dev.ncols dev.nrows input) ls.external_last 0 (length first * dev.nrows))
        hf hd (rw unmixed ext) e' in
    (
      record ls {
        mixes = m.mixers;
        next_frame_num = ls.next_frame_num +ℤ pos (length first);
        external_last =
            state_after (seen dev.ncols dev.nrows input) ls.external_last 0
              (length first * dev.nrows);
        previous_last_sample_time = msg.last_sample_time;
      },
      record {
        segments = segs;
        n_samp = n_samp_of segs;
        external_rowcounts =
            counts ls.next_frame_num dev.nrows (
              rises (seen dev.ncols dev.nrows input) ls.external_last 0 (length first * dev.nrows));
      },
      whole,
      a,
      refl,
      refl,
      refl,
    )
