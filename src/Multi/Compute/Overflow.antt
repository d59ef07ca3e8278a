-- ===== src/Multi/Compute/Overflow.antt =====
-- After a reset deep into a run the index of the search start is cut to 32 bits, and the search
-- begins far behind the data.
use dastard.Base.{ℕ, suc, ◌+◌, ◌-◌, ◌<◌, ◌≡◌, refl, Bool, true, false, List, [], arith, length, ok}
use dastard.Base.Int.{ℤ, pos, ◌+ℤ◌, ◌-ℤ◌, ◌≤ℤ◌, ◌<ℤ◌, int_laws, ltb_ℤ, leb_ℤ, pos_part, +ℤ_parts}
use dastard.Base.Words.{int32}
use dastard.Floats.{FloatOps}
use dastard.Multi.{EmtState, reset}
use dastard.Multi.Search.{find_next_trigger_ind}
use dastard.Multi.Compute.{edge_multi_compute_record_specs}

cut_offset :
    (f : ℕ) → 0x8000_0000 < f → f < 0x1_0000_0000 → int32 (pos 0 -ℤ pos f) ≡ pos (0x1_0000_0000 - f)
unfolding int32 ◌-ℤ◌
cut_offset f h1 h2 = ground arith

small_length : (n : ℕ) → n < 0x8000_0000 → int32 (pos n) ≡ pos n
unfolding int32
small_length n h = ground arith

find_past :
    (ops : FloatOps) (raw : List ℕ) (i : ℕ) (i_last threshold nmonotone most : ℤ) (enable : Bool)
    → i_last +ℤ pos 1 <ℤ pos i
    → find_next_trigger_ind ops raw i i_last threshold nmonotone most enable
      ≡ ok (record { trigger_ind = pos 0; trigger_found = false; next_i_first = pos i })
unfolding find_next_trigger_ind
find_past ops raw i i_last threshold nmonotone most enable h =
    let one : pos_part i_last + 2 ≡ suc (pos_part i_last + 1) = omega arith in
    let past : leb_ℤ (pos i) i_last ≡ false = ground (arith, +ℤ_parts i_last (pos 1)) in
    let least : ltb_ℤ (i_last +ℤ pos 1) (pos i) ≡ true = ground arith in
    rw one (rw past (rw least refl))

-- Right after a reset, with the stream at a frame above 2^31 and at least the presamples below
-- 2^32, all of its data below frame 2^32, and no more presamples than samples: no record is made,
-- no reset is noticed, and the frame to inspect next is 2^32, whatever the data hold.
pub reset_overflow :
    (ops : FloatOps) (s : EmtState) (raw : List ℕ) (f : ℕ)
    → 0x8000_0000 < f
    → f + length raw < 0x1_0000_0000
    → s.npre +ℤ pos f ≤ℤ pos 0x1_0000_0000
    → pos 0 ≤ℤ s.nsamp -ℤ s.npre
    → (edge_multi_compute_record_specs ops (reset s) raw (pos f)
        ≡ ok (record (reset s) { next_frame_index_to_inspect = pos 0x1_0000_0000 }, []))
unfolding edge_multi_compute_record_specs
reset_overflow ops s raw f h1 hr hp hn =
    let start : ℕ = 0x1_0000_0000 - f in
    let i_last : ℤ = pos (length raw) -ℤ pos 1 -ℤ (s.nsamp -ℤ s.npre) in
    let stale : ltb_ℤ (pos start) s.npre ≡ false = ground (arith, +ℤ_parts s.npre (pos f)) in
    let three : pos_part i_last + 3 ≡ suc (pos_part i_last + 2) = omega arith in
    let past =
      find_past ops raw start i_last s.threshold s.nmonotone (s.nsamp -ℤ s.npre)
        s.enable_zero_threshold (omega int_laws) in
    let next : pos start +ℤ pos f ≡ pos 0x1_0000_0000 = omega int_laws in
    rw (cut_offset f h1 (omega arith), small_length (length raw) (omega (arith, hr, h1)), stale)
      (rw three (rw past (rw next refl)))
