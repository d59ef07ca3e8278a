-- ===== src/Lancero/External.antt =====
-- The external triggers of distributeData of lancero_source.go: bit 1 of the feedback samples tells
-- the trigger input, once for each row.
pub mod Input
pub mod Rises
pub mod Runs
use dastard.Base.{
  ℕ, zero, suc, ◌+◌, ◌*◌, ◌/◌, ◌%◌, ◌==◌, Bool, true, false, not, ◌&&◌, List, [], ◌∷◌, ◌++◌, Option,
  none, some, if◌then◌else◌, get_elem?,
}
use dastard.Base.Int.{ℤ, pos, ◌+ℤ◌, ◌*ℤ◌}
use dastard.Packets.{Result, value, failed, panic, stuck, ◌>>=◌, byte_at}

abbrev pub stream_at : List (List ℕ) → ℕ → Result (List ℕ)
stream_at copies i = elim (get_elem? copies i) [ none ↦ panic | some dc ↦ value dc ]

-- `(v & 0x02) == 0x02`
abbrev pub trigger_bit : ℕ → Bool
trigger_bit v = v / 2 % 2 == 1

abbrev pub rises_now : Bool → Bool → Bool
rises_now last now = now && not last

-- `rowcount = nrow * framecount + row`
abbrev pub rowcount : ℤ → ℕ → ℕ → ℕ → ℤ
rowcount next nrows frame row = pos nrows *ℤ (pos frame +ℤ next) +ℤ pos row

-- The loop over the rows of a frame, from `row` on with `k` rounds left: the last state of the
-- input, and the counts found. A trigger in a source of unlike cards is a panic.
unfoldable pub row_loop : Bool → List (List ℕ) → ℤ → ℕ → ℕ → ℕ → ℕ → Bool → Result (Bool × List ℤ)
row_loop mixed copies next nrows frame row zero last = value (last, [])
row_loop mixed copies next nrows frame row (suc k) last = do
  dc ← stream_at copies (row * 2 + 1)
  v ← byte_at dc frame
  rest ← row_loop mixed copies next nrows frame (row + 1) k (trigger_bit v)
  if rises_now last (trigger_bit v)
      then if mixed then panic else value (rest.0, rowcount next nrows frame row ∷ rest.1)
      else value rest

unfoldable pub frame_loop : Bool → List (List ℕ) → ℤ → ℕ → ℕ → ℕ → Bool → Result (Bool × List ℤ)
frame_loop mixed copies next nrows frame zero last = value (last, [])
frame_loop mixed copies next nrows frame (suc k) last = do
  now ← row_loop mixed copies next nrows frame 0 nrows last
  rest ← frame_loop mixed copies next nrows (frame + 1) k now.0
  value (rest.0, now.1 ++ rest.1)

-- The search in a block of `frames` frames.
unfoldable pub external_triggers : Bool → List (List ℕ) → ℤ → ℕ → ℕ → Bool → Result (Bool × List ℤ)
external_triggers mixed copies next nrows frames last =
    frame_loop mixed copies next nrows 0 frames last
