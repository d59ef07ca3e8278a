-- ===== src/Lancero/External/Runs.antt =====
-- Searches for external triggers at a card of two rows and two columns.
use dastard.Base.{
  ℕ, zero, suc, ◌+◌, ◌*◌, ◌<◌, ◌≡◌, refl, Bool, true, false, List, [], ◌∷◌, some, arith, get_elem?,
  if◌then◌else◌, ◌==◌,
}
use dastard.Base.Int.{pos, ◌+ℤ◌, ◌*ℤ◌}
use dastard.Packets.{value}
use dastard.Lancero.External.{trigger_bit, row_loop, frame_loop, external_triggers}
use dastard.Lancero.External.Input.{IsInput}
use dastard.Lancero.External.Rises.{external_triggers-rises}

-- The signals by the number of the pair of channels, which counts down the columns. The trigger
-- input is up in the first row of the second frame only.
abbrev pub errors_of : ℕ → List ℕ
errors_of p = p ∷ (7 ∷ [])

abbrev pub feedback_of : ℕ → List ℕ
feedback_of zero = 8 ∷ (14 ∷ [])
feedback_of (suc zero) = 8 ∷ (12 ∷ [])
feedback_of (suc (suc zero)) = 8 ∷ (14 ∷ [])
feedback_of (suc (suc (suc p))) = 8 ∷ (12 ∷ [])

-- In readout order, along the rows.
abbrev pub square_copies : List (List ℕ)
square_copies =
    errors_of 0
    ∷ (feedback_of 0
        ∷ (errors_of 2
            ∷ (feedback_of 2
                ∷ (errors_of 1 ∷ (feedback_of 1 ∷ (errors_of 3 ∷ (feedback_of 3 ∷ [])))))))

abbrev pub input_of : ℕ → Bool
input_of t = t == 2

-- The feedback of a row.
abbrev row_feedback : ℕ → List ℕ
row_feedback row = 8 ∷ ((if row == 0 then 14 else 12) ∷ [])

pub square-IsInput : IsInput square_copies 2 2 2 input_of
square-IsInput = record { sample = sample }
  where
    held :
        (frame row : ℕ)
        → frame < 2
        → row < 2
        → (v : ℕ) × (get_elem? (row_feedback row) frame ≡ some v)
          × (trigger_bit v ≡ input_of (frame * 2 + row))
    held zero zero hf hr = (8, refl, refl)
    held zero (suc zero) hf hr = (8, refl, refl)
    held (suc zero) zero hf hr = (14, refl, refl)
    held (suc zero) (suc zero) hf hr = (12, refl, refl)
    held (suc (suc f)) row hf hr = absurd (omega (arith, hf))
    held f (suc (suc r)) hf hr = absurd (omega (arith, hr))

    stream :
        (row col : ℕ)
        → row < 2
        → col < 2
        → get_elem? square_copies ((row * 2 + col) * 2 + 1) ≡ some (row_feedback row)
    stream zero zero hr hc = refl
    stream zero (suc zero) hr hc = refl
    stream (suc zero) zero hr hc = refl
    stream (suc zero) (suc zero) hr hc = refl
    stream (suc (suc r)) col hr hc = absurd (omega (arith, hr))
    stream row (suc (suc c)) hr hc = absurd (omega (arith, hc))

    sample :
        (frame row col : ℕ)
        → frame < 2
        → row < 2
        → col < 2
        → (dc : List ℕ) × (v : ℕ) × (get_elem? square_copies ((row * 2 + col) * 2 + 1) ≡ some dc)
          × (get_elem? dc frame ≡ some v)
          × (trigger_bit v ≡ input_of (frame * 2 + row))
    sample frame row col hf hr hc =
        let (v, e, b) = held frame row hf hr in (row_feedback row, v, stream row col hr hc, e, b)

external_triggers-rises_example :
    external_triggers false square_copies (pos 100) 2 2 false ≡ value (true, pos 202 ∷ [])
unfolding ◌+ℤ◌ ◌*ℤ◌
external_triggers-rises_example =
    external_triggers-rises square_copies (pos 100) 2 2 2 input_of false (omega arith)
      square-IsInput

-- A rise in the second row, which the search does not read.
row_missed :
    external_triggers false
      ([] ∷ ((8 ∷ []) ∷ ([] ∷ ((8 ∷ []) ∷ ([] ∷ ((14 ∷ []) ∷ ([] ∷ ((14 ∷ []) ∷ []))))))))
      (pos 100)
      2
      1
      false
    ≡ value (false, [])
unfolding external_triggers frame_loop row_loop
row_missed = refl
