-- ===== src/Lancero/External/Rises.antt =====
-- The external triggers are the rises of the input, counted in steps of the search.
use dastard.Base.{
  ℕ, zero, suc, ◌+◌, ◌*◌, ◌≤◌, ◌<◌, ◌≡◌, refl, sym, ap, ◌∙◌, ◌/◌, ◌%◌, Bool, false, List, some,
  get_elem?, arith, Bool-cases, inl, inr,
}
use dastard.Base.Int.{ℤ, pos, ◌+ℤ◌, ◌*ℤ◌, int_laws, scale_parts, +ℤ_parts}
use native.Mathlib.Nat.{
  suc-mul, mul_comm, add-mul, add_comm, mul-add-div_right, div-eq_of_lt, mod-eq_of_lt, mod-lt,
  div-le_self, div-add-mod', add-mul-mod_self_right,
}
use dastard.Packets.{value, byte_at}
use dastard.Lancero.External.Input.{
  IsInput, seen, turns_on, rises_now-turns_on, rises, state_after, counts, counts-append,
  rises-append, state_after-append,
}
use dastard.Lancero.External.{
  stream_at, trigger_bit, rowcount, row_loop, frame_loop, external_triggers,
}

-- The states in the streams that the search reads, at its own times.
record IsScanned (copies : List (List ℕ)) (nrows frames : ℕ) (input : ℕ → Bool) : Type 0 where
  sample :
      (frame row : ℕ)
      → frame < frames
      → row < nrows
      → (dc : List ℕ) × (v : ℕ) × (get_elem? copies (row * 2 + 1) ≡ some dc)
        × (get_elem? dc frame ≡ some v)
        × (trigger_bit v ≡ input (frame * nrows + row))

IsInput-IsScanned :
    (copies : List (List ℕ)) (ncols nrows frames : ℕ) (input : ℕ → Bool)
    → 0 < ncols
    → IsInput copies ncols nrows frames input
    → IsScanned copies nrows frames (seen ncols nrows input)
IsInput-IsScanned copies ncols nrows frames input some_cols h = record {
  sample = λ frame row hf hr.
      let some_rows : 0 < nrows = omega (arith, hr) in
      let at_frame : (frame * nrows + row) / nrows ≡ frame =
        omega (arith, mul-add-div_right some_rows frame row, div-eq_of_lt hr) in
      let at_row : (frame * nrows + row) % nrows ≡ row =
        ap (λ (x : ℕ). x % nrows) (add_comm (frame * nrows) row)
        ∙ add-mul-mod_self_right row frame nrows
        ∙ mod-eq_of_lt hr in
      let place : row / ncols * ncols + row % ncols ≡ row = div-add-mod' row ncols in
      let above : row / ncols < nrows = omega (arith, hr, div-le_self row ncols) in
      let (dc, v, es, ev, eb) =
        h.sample frame (row / ncols) (row % ncols) hf above (mod-lt row some_cols) in
      (
        dc,
        v,
        ap (λ (x : ℕ). get_elem? copies (x * 2 + 1)) (sym place) ∙ es,
        ev,
        eb
            ∙ ap input (
                omega
                  (arith, ap (λ (x : ℕ). x * nrows) at_frame, ap (λ (x : ℕ). x / ncols) at_row)),
      );
}

rowcount-time :
    (next : ℤ) (nrows frame row : ℕ)
    → rowcount next nrows frame row ≡ pos nrows *ℤ next +ℤ pos (frame * nrows + row)
rowcount-time next nrows frame row = omega (
  int_laws,
  scale_parts nrows (pos frame +ℤ next),
  scale_parts nrows next,
  ap (λ (x : ℕ). nrows * x) (+ℤ_parts (pos frame) next),
  mul_comm nrows frame,
)

pub stream_at-some :
    (copies : List (List ℕ)) (i : ℕ) (dc : List ℕ)
    → get_elem? copies i ≡ some dc
    → stream_at copies i ≡ value dc
stream_at-some copies i dc e = rw (e, stream_at) refl

byte_at-some : (l : List ℕ) (i v : ℕ) → get_elem? l i ≡ some v → byte_at l i ≡ value v
byte_at-some l i v e = rw (e, byte_at) refl

row_loop-rises :
    (copies : List (List ℕ)) (next : ℤ) (nrows frames : ℕ) (input : ℕ → Bool)
    → IsScanned copies nrows frames input
    → (frame row k : ℕ) (last : Bool) → frame < frames
    → row + k ≤ nrows
    → row_loop false copies next nrows frame row k last
      ≡ value (
        state_after input last (frame * nrows + row) k,
        counts next nrows (rises input last (frame * nrows + row) k),
      )
unfolding row_loop
row_loop-rises copies next nrows frames input h frame row zero last hf hr = refl
row_loop-rises copies next nrows frames input h frame row (suc k) last hf hr =
    let t : ℕ = frame * nrows + row in
    let (dc, v, es, ev, eb) = h.sample frame row hf (omega (arith, hr)) in
    let later : frame * nrows + (row + 1) ≡ t + 1 = omega arith in
    let rest =
      row_loop-rises copies next nrows frames input h frame (row + 1) k (input t) hf
        (omega (arith, hr)) in
    let stream = stream_at-some copies (row * 2 + 1) dc es in
    let sample = byte_at-some dc frame v ev in
    rw
      (
        stream,
        sample,
        eb,
        rest,
        later,
        rowcount-time next nrows frame row,
        rises_now-turns_on last (input t),
      )
      (elim (Bool-cases (turns_on last (input t))) [ inl e ↦ rw e refl | inr e ↦ rw e refl ])

frame_loop-rises :
    (copies : List (List ℕ)) (next : ℤ) (nrows frames : ℕ) (input : ℕ → Bool)
    → IsScanned copies nrows frames input
    → (frame k : ℕ) (last : Bool) → frame + k ≤ frames
    → frame_loop false copies next nrows frame k last
      ≡ value (
        state_after input last (frame * nrows) (k * nrows),
        counts next nrows (rises input last (frame * nrows) (k * nrows)),
      )
unfolding frame_loop
frame_loop-rises copies next nrows frames input h frame zero last hf =
    let z : 0 * nrows ≡ 0 = omega arith in rw z refl
frame_loop-rises copies next nrows frames input h frame (suc k) last hf =
    let start : frame * nrows + 0 ≡ frame * nrows = omega arith in
    let after : (frame + 1) * nrows ≡ frame * nrows + nrows =
      omega (arith, add-mul frame 1 nrows) in
    let all : suc k * nrows ≡ nrows + k * nrows = omega (arith, suc-mul k nrows) in
    let now =
      row_loop-rises copies next nrows frames input h frame 0 nrows last (omega (arith, hf))
        (omega arith) in
    let middle = state_after input last (frame * nrows) nrows in
    let rest =
      frame_loop-rises copies next nrows frames input h (frame + 1) k middle (omega (arith, hf)) in
    rw (now, start, rest, all, after, rises-append, state_after-append, counts-append) refl

-- In a source of like cards, with the streams of a card of at least one column in readout order:
-- the external triggers of a block are the rises of the input as the search sees it, in order, from
-- the state that the block before left; each is given as nrows * (frame of the run) + (step of the
-- search in the frame). The state left is that of the last step.
pub external_triggers-rises :
    (copies : List (List ℕ)) (next : ℤ) (ncols nrows frames : ℕ) (input : ℕ → Bool) (last : Bool)
    → 0 < ncols
    → IsInput copies ncols nrows frames input
    → let state = seen ncols nrows input in
      external_triggers false copies next nrows frames last
      ≡ value (
        state_after state last 0 (frames * nrows),
        counts next nrows (rises state last 0 (frames * nrows)),
      )
unfolding external_triggers
external_triggers-rises copies next ncols nrows frames input last some_cols h =
    let z : 0 * nrows ≡ 0 = omega arith in
    let scanned = IsInput-IsScanned copies ncols nrows frames input some_cols h in
    rw z at (
      frame_loop-rises copies next nrows frames (seen ncols nrows input) scanned 0 frames last
        (omega arith))
