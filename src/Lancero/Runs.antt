-- ===== src/Lancero/Runs.antt =====
-- Runs of the card reader and the channel numbers at concrete cards.
use dastard.Base.{
  ℕ, ◌≡◌, refl, true, false, List, [], ◌∷◌, ◌++◌, some, length, take, drop, ok, arith, inr, inl,
}
use dastard.Base.Int.{pos}
use dastard.Packets.{value}
use dastard.Lancero.{LanceroDevice, channels_all_cards, update_chan_order_map}
use dastard.Lancero.Order.Cards.{AreOrdered, update_chan_order_map-AreOrdered}
use dastard.Lancero.Frames.{find_frame_bits, bits_from}
use dastard.Lancero.Frames.Found.{find_frame_bits-frames}
use dastard.Lancero.Reader.{BuffersMsg, read_tick, sent}
use dastard.Lancero.Reader.Aligned.{IsReading, IsSent, read_tick-IsSent, read_tick-skips}
use dastard.Lancero.Channels.{Separation, Numbered, prepare_channels}
use dastard.Lancero.Channels.Rising.{Rising, pixels_of, prepare_channels-Rising}

-- A card of two rows and two columns.
abbrev small_card : LanceroDevice
small_card = record {
  devnum = 0;
  nrows = 2;
  ncols = 2;
  lsync = 32;
  fiber_mask = 3;
  card_delay = pos 1;
  clock_mhz = 125;
  frame_size = 16;
  adap_running = true;
  coll_running = true;
}

abbrev tall_card : LanceroDevice
tall_card = record small_card { devnum = 1; nrows = 3; ncols = 1; frame_size = 12 }

update_chan_order_map-AreOrdered_example :
    (order : List ℕ) × (update_chan_order_map (small_card ∷ (tall_card ∷ [])) ≡ ok order)
    × (length order ≡ channels_all_cards (small_card ∷ (tall_card ∷ [])))
    × AreOrdered (small_card ∷ (tall_card ∷ [])) 0 order
update_chan_order_map-AreOrdered_example =
    update_chan_order_map-AreOrdered (small_card ∷ (tall_card ∷ []))

-- The second row of the card's frame, and the frame.
abbrev row_bytes : List ℕ
row_bytes = 3 ∷ 0 ∷ 104 ∷ 0 ∷ 4 ∷ 0 ∷ 106 ∷ 0 ∷ []

abbrev frame_bytes : List ℕ
frame_bytes = 1 ∷ 0 ∷ 101 ∷ 0 ∷ 2 ∷ 0 ∷ 103 ∷ 0 ∷ row_bytes

abbrev three_frames : List ℕ
three_frames = frame_bytes ++ (frame_bytes ++ frame_bytes)

find_frame_bits-frames_example :
    find_frame_bits three_frames 2 ≡ record { q = 4; p = 8; n = 2; failed = false }
unfolding bits_from
find_frame_bits-frames_example =
    find_frame_bits-frames three_frames 2 2 1 1 1 (true ∷ (false ∷ (false ∷ []))) (omega arith) refl

reading : IsReading small_card 1 1 0 (pos 50000000)
reading = record {
  cols = refl;
  words = refl;
  frame = refl;
  room = omega arith;
  recent = omega arith;
}

read_tick-IsSent_example :
    (msg : BuffersMsg) × (read_tick small_card 8 0
        (pos 1000)
        (pos 50000000)
        (some (three_frames, pos 2000))
      ≡ value (sent msg (48 ∷ [])))
    × IsSent small_card 3 three_frames false (pos 2000) msg
unfolding bits_from
read_tick-IsSent_example =
    read_tick-IsSent small_card 1 1 0 (pos 50000000) (pos 1000) (pos 2000) three_frames 2 1
      (true ∷ (false ∷ (false ∷ []))) reading (omega arith) refl refl

abbrev cut_frames : List ℕ
cut_frames = row_bytes ++ three_frames

read_tick-skips_example :
    let kept = take 40 (drop 8 cut_frames) in
    (msg : BuffersMsg) × (read_tick small_card 8 0
        (pos 1000)
        (pos 50000000)
        (some (cut_frames, pos 2000))
      ≡ value (sent msg (8 ∷ (32 ∷ []))))
    × (length kept ≡ 40)
    × IsSent small_card 2 kept true (pos 2000) msg
unfolding bits_from
read_tick-skips_example =
    read_tick-skips small_card 1 1 0 (pos 50000000) (pos 1000) (pos 2000) cut_frames 0 1 2
      (true ∷ (false ∷ (false ∷ (true ∷ (true ∷ (false ∷ (false ∷ []))))))) reading (omega arith)
      refl refl (omega arith)

-- Columns ten numbers apart.
abbrev apart : Separation
apart = record { first_row_chan_num = pos 1; chan_sep_columns = pos 10; chan_sep_cards = pos 0 }

prepare_channels-Rising_example :
    (out : Numbered) × (prepare_channels apart (small_card ∷ (tall_card ∷ [])) ≡ (apart, inl out))
    × Rising (pos 1) (pixels_of (small_card ∷ (tall_card ∷ []))) out.channels out.cnum
prepare_channels-Rising_example =
    prepare_channels-Rising apart (small_card ∷ (tall_card ∷ [])) refl
      (inr (omega arith, omega arith))
