-- ===== src/Decimate/Runs.antt =====
-- Runs of the decimation, and its theorems at concrete inputs.
use dastard.Base.{ℕ, ◌<◌, ◌*◌, ◌≡◌, refl, arith, true, [], ◌∷◌, length, get_elem?, ok}
use dastard.Base.Int.{pos}
use dastard.Stream.{DataSegment, new_data_segment, time_of}
use dastard.Decimate.{n_out, decimate_dropping}
use dastard.Decimate.Dropped.{decimate_dropping_lem}

abbrev seven : DataSegment
unfolding new_data_segment
seven = new_data_segment (10 ∷ 11 ∷ 12 ∷ 13 ∷ 14 ∷ 15 ∷ 16 ∷ []) 1 (pos 0) (pos 0) (pos 100)

decimate_seven :
    decimate_dropping true 3 seven
    ≡ ok (record seven { raw_data = 10 ∷ 13 ∷ 16 ∷ []; frames_per_sample = 3 })
unfolding decimate_dropping new_data_segment
decimate_seven = refl

decimate_dropping_lem_example :
    (seg' : DataSegment) × (decimate_dropping true 3 seven ≡ ok seg')
    × (length seg'.raw_data ≡ n_out (length seven.raw_data) 3)
    × ((i : ℕ)
        → i < length seg'.raw_data
        → (get_elem? seg'.raw_data i ≡ get_elem? seven.raw_data (i * 3))
          × (time_of seg' i ≡ time_of seven (i * 3)))
decimate_dropping_lem_example = decimate_dropping_lem 3 seven (omega arith)
