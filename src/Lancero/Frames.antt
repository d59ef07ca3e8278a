-- ===== src/Lancero/Frames.antt =====
-- FindFrameBits of internal/lancero/lancero.go: where the frames start in a buffer of raw words of
-- four bytes. The frame bit is the lowest bit of the byte at the offset in each word.
pub mod Found
use dastard.Base.{
  ℕ, zero, suc, ◌+◌, ◌-◌, ◌*◌, ◌/◌, ◌%◌, ◌==◌, Bool, true, false, not, ◌&&◌, List, [], ◌∷◌, Option,
  none, some, if◌then◌else◌, drop, length, map,
}

abbrev pub frame_bit : ℕ → Bool
frame_bit b = b % 2 == 1

-- The bytes 0, 4, 8 and so on of a list.
unfoldable pub every4 : List ℕ → List ℕ
every4 (a ∷ b ∷ c ∷ d ∷ l) = a ∷ every4 l
every4 (a ∷ l) = a ∷ []
every4 [] = []

-- The frame bits that a loop over `i := from; i < len(b); i += 4` reads.
unfoldable pub bits_from : List ℕ → ℕ → List Bool
unfolding every4
bits_from b from = map frame_bit (every4 (drop from b))

-- The first loop: the index `q` of the first frame bit after a word without one, or 0.
unfoldable pub first_start : Bool → Bool → ℕ → List Bool → ℕ
first_start seen previous i [] = 0
first_start true true i (bit ∷ bits) = first_start true true (i + 4) bits
first_start true false i (true ∷ bits) = i
first_start true false i (false ∷ bits) = first_start true false (i + 4) bits
first_start false previous i (bit ∷ bits) = first_start (not bit) previous (i + 4) bits

-- The second loop: the number of frame bits in a row.
unfoldable pub run_length : List Bool → ℕ
run_length [] = 0
run_length (true ∷ bits) = suc (run_length bits)
run_length (false ∷ bits) = 0

-- The third loop: the index of the next frame bit after a word without one.
unfoldable pub next_start : Bool → ℕ → List Bool → Option ℕ
next_start previous i [] = none
next_start true i (bit ∷ bits) = next_start bit (i + 4) bits
next_start false i (true ∷ bits) = some i
next_start false i (false ∷ bits) = next_start false (i + 4) bits

-- `q` and `p` count words; `failed` is the error.
pub record FrameBits : Type 0 where
  pub q : ℕ
  pub p : ℕ
  pub n : ℕ
  pub failed : Bool

abbrev pub frame_bits : ℕ → ℕ → Option ℕ → FrameBits
frame_bits q n none = record { q = q / 4; p = 0; n = n; failed = true }
frame_bits q n (some p) = record { q = q / 4; p = p / 4; n = n; failed = false }

unfoldable pub find_frame_bits : List ℕ → ℕ → FrameBits
find_frame_bits b offset =
    let q : ℕ = first_start false false offset (bits_from b offset) in
    let n : ℕ = run_length (bits_from b q) in
    if n == 0
    then frame_bits q 0 none
    else frame_bits q n (next_start true (q + 4 * n) (bits_from b (q + 4 * n)))
