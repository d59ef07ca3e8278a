-- ===== src/Lancero/BlockRuns.antt =====
-- Runs of a block at a card of two rows and two columns.
use dastard.Base.{
  ℕ, zero, suc, ◌+◌, ◌*◌, ◌-◌, ◌<◌, ◌≤◌, ◌≡◌, refl, true, false, List, [], ◌∷◌, some, ok, arith,
  get_elem?, replicate,
}
use dastard.Base.Int.{pos, ◌+ℤ◌, ◌-ℤ◌, ◌*ℤ◌}
use dastard.Mix.{Mix, mix_retard_fb}
use dastard.Packets.{value}
use dastard.Lancero.{LanceroDevice}
use dastard.Lancero.Order.Cards.{AreOrdered}
use dastard.Lancero.Reader.{BuffersMsg}
use dastard.Lancero.External.Runs.{errors_of, feedback_of, square_copies, input_of, square-IsInput}
use dastard.Lancero.Block.{
  LanceroSource, BlockOps, DataBlock, segment_of, card_zero, distribute_data,
}
use dastard.Lancero.Block.Segments.{IsLoaded, AreMixed}
use dastard.Lancero.Block.Whole.{place_on, one_card-IsPaired, distribute_data-AreMixed}

abbrev square : LanceroDevice
square = record {
  devnum = 0;
  nrows = 2;
  ncols = 2;
  lsync = 32;
  fiber_mask = 1;
  card_delay = pos 1;
  clock_mhz = 125;
  frame_size = 16;
  adap_running = true;
  coll_running = true;
}

-- The mixing of a source with a scale of zero, and times of a microsecond a sample.
abbrev plain : BlockOps
plain = record {
  mixing = record {
    is_zero = λ scale. true;
    sum_of = λ scale e fb. fb;
    reaches_top = λ s. false;
    below_zero = λ s. false;
    rounded = λ s. s;
  };
  seg_duration = λ n. pos ((n - 1) * 1000);
  frames_in_gap = λ t. t;
}

abbrev still : ℕ → Mix
still p = record { error_scale = 0; last_fb = 40 }

abbrev mixed_of : ℕ → Mix × List ℕ
mixed_of p = (record { error_scale = 0; last_fb = 12 }, 40 ∷ (8 ∷ []))

abbrev square_source : LanceroSource
square_source = record {
  devices = (0, square) ∷ [];
  chan2readout_order = 0 ∷ (1 ∷ (4 ∷ (5 ∷ (2 ∷ (3 ∷ (6 ∷ (7 ∷ [])))))));
  mixes = replicate 8 (still 0);
  next_frame_num = pos 100;
  external_last = false;
  mixed_row_counts = false;
  previous_last_sample_time = pos 0;
  sample_period = pos 1000;
}

abbrev square_msg : BuffersMsg
square_msg = record {
  datacopies = square_copies;
  last_sample_time = pos 5000;
  time_diff = pos 3000;
  total_bytes = 32;
  data_drop_detected = false;
}

square-AreOrdered : AreOrdered (square ∷ []) 0 square_source.chan2readout_order
square-AreOrdered = (place, tt)
  where
    place :
        (row col e : ℕ)
        → row < 2
        → col < 2
        → e < 2
        → get_elem? square_source.chan2readout_order ((col * 2 + row) * 2 + e + 0)
          ≡ some ((row * 2 + col) * 2 + e + 0)
    place zero zero zero hr hc he = refl
    place zero zero (suc zero) hr hc he = refl
    place zero (suc zero) zero hr hc he = refl
    place zero (suc zero) (suc zero) hr hc he = refl
    place (suc zero) zero zero hr hc he = refl
    place (suc zero) zero (suc zero) hr hc he = refl
    place (suc zero) (suc zero) zero hr hc he = refl
    place (suc zero) (suc zero) (suc zero) hr hc he = refl
    place (suc (suc r)) col e hr hc he = absurd (omega (arith, hr))
    place row (suc (suc c)) e hr hc he = absurd (omega (arith, hc))
    place row col (suc (suc e)) hr hc he = absurd (omega (arith, he))

square-IsLoaded :
    IsLoaded plain.mixing
      (place_on square)
      errors_of
      feedback_of
      still
      mixed_of
      0
      4
      (record { copies = square_copies; mixers = square_source.mixes })
unfolding mix_retard_fb
square-IsLoaded = record {
  errors = errors;
  feedbacks = feedbacks;
  mixers = mixers;
  mixing = mixing;
}
  where
    errors :
        (q : ℕ)
        → 0 ≤ q
        → q < 4
        → get_elem? square_copies (place_on square q * 2) ≡ some (errors_of q)
    errors zero a b = refl
    errors (suc zero) a b = refl
    errors (suc (suc zero)) a b = refl
    errors (suc (suc (suc zero))) a b = refl
    errors (suc (suc (suc (suc q)))) a b = absurd (omega (arith, b))

    feedbacks :
        (q : ℕ)
        → 0 ≤ q
        → q < 4
        → get_elem? square_copies (place_on square q * 2 + 1) ≡ some (feedback_of q)
    feedbacks zero a b = refl
    feedbacks (suc zero) a b = refl
    feedbacks (suc (suc zero)) a b = refl
    feedbacks (suc (suc (suc zero))) a b = refl
    feedbacks (suc (suc (suc (suc q)))) a b = absurd (omega (arith, b))

    mixers : (q : ℕ) → 0 ≤ q → q < 4 → get_elem? square_source.mixes (q * 2 + 1) ≡ some (still q)
    mixers zero a b = refl
    mixers (suc zero) a b = refl
    mixers (suc (suc zero)) a b = refl
    mixers (suc (suc (suc zero))) a b = refl
    mixers (suc (suc (suc (suc q)))) a b = absurd (omega (arith, b))

    mixing :
        (q : ℕ)
        → 0 ≤ q
        → q < 4
        → mix_retard_fb plain.mixing (still q) (feedback_of q) (errors_of q) ≡ ok (mixed_of q)
    mixing zero a b = refl
    mixing (suc zero) a b = refl
    mixing (suc (suc zero)) a b = refl
    mixing (suc (suc (suc zero))) a b = refl
    mixing (suc (suc (suc (suc q)))) a b = absurd (omega (arith, b))

distribute_data-AreMixed_example :
    (ls' : LanceroSource) × (block : DataBlock) × (distribute_data plain square_source square_msg
      ≡ value (ls', block))
    × AreMixed
        (segment_of (pos 100) (pos 4000) (pos 1000) (pos 0))
        errors_of
        mixed_of
        0
        4
        square_source.mixes
        block.segments
        ls'.mixes
    × (block.external_rowcounts ≡ pos 202 ∷ [])
    × (ls'.external_last ≡ true)
    × (ls'.next_frame_num ≡ pos 102)
unfolding ◌+ℤ◌ ◌*ℤ◌ ◌-ℤ◌ card_zero
distribute_data-AreMixed_example =
    distribute_data-AreMixed plain square_source square_msg square (errors_of 0) 4 (place_on square)
      errors_of feedback_of still mixed_of input_of
      (one_card-IsPaired square square_source.chan2readout_order (omega arith) square-AreOrdered)
      square-IsLoaded refl refl refl refl (omega arith) square-IsInput
