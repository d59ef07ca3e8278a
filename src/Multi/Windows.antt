-- ===== src/Multi/Windows.antt =====
-- The windows of the records that edgeMultiShouldRecord makes.
use dastard.Base.{◌≡◌, ◌≢◌, ◌↔◌, refl, sym, false, ◌&&◌, some, arith}
use dastard.Base.Int.{
  ℤ, pos, ◌+ℤ◌, ◌-ℤ◌, ◌≤ℤ◌, ◌<ℤ◌, leb_ℤ, eqb_ℤ, min_ℤ, int_laws, -ℤ_parts, +ℤ_parts, parts_of_eq,
}
use dastard.Multi.{
  RecordSpec, EmtMode, two_full_length, variable_length, full_length_isolated, one_full_length,
}
use dastard.Multi.Records.{room_before, room_after, should_record}

-- The room after a trigger and the room before the next one do not overlap.
room_fits :
    (u v npre nsamp : ℤ)
    → pos 0 ≤ℤ npre
    → pos 0 ≤ℤ v -ℤ u
    → room_after u v npre nsamp +ℤ room_before u v npre nsamp ≤ℤ v -ℤ u
unfolding room_after room_before
room_fits u v npre nsamp h0 h = fits (v -ℤ u) (nsamp -ℤ npre) h
  where
    fits :
        (gap post : ℤ) → pos 0 ≤ℤ gap → min_ℤ post gap +ℤ min_ℤ npre (gap -ℤ min_ℤ post gap) ≤ℤ gap
    fits gap post g = ground (
      arith,
      -ℤ_parts gap post,
      -ℤ_parts gap gap,
      +ℤ_parts post npre,
      +ℤ_parts post (gap -ℤ post),
      +ℤ_parts gap npre,
      +ℤ_parts gap (gap -ℤ gap),
    )

-- The first frame of a record, and the frame past its last one.
abbrev pub begins : RecordSpec → ℤ
begins r = r.first_rising_frame_index -ℤ r.spec_npre

abbrev pub ends : RecordSpec → ℤ
ends r = r.first_rising_frame_index -ℤ r.spec_npre +ℤ r.spec_nsamp

variable_record :
    (t u v npre nsamp : ℤ) (a : RecordSpec)
    → should_record t u v npre nsamp variable_length ≡ some a
    → a ≡ record {
      first_rising_frame_index = u;
      spec_npre = room_before t u npre nsamp;
      spec_nsamp = room_before t u npre nsamp +ℤ room_after u v npre nsamp;
    }
unfolding should_record
variable_record t u v npre nsamp a e = ground arith

-- In the variable-length mode the records of two neighbouring triggers u <= v never overlap: the
-- first ends where the second begins or before.
pub should_record_disjoint :
    (t u v w npre nsamp : ℤ) (a b : RecordSpec)
    → pos 0 ≤ℤ npre
    → u ≤ℤ v
    → should_record t u v npre nsamp variable_length ≡ some a
    → should_record u v w npre nsamp variable_length ≡ some b
    → ends a ≤ℤ begins b
should_record_disjoint t u v w npre nsamp a b h0 h ea eb =
    let room = room_fits u v npre nsamp h0 (omega int_laws) in
    rw (variable_record t u v npre nsamp a ea, variable_record u v w npre nsamp b eb)
      (omega int_laws)

isolated_test :
    (x y npre nsamp : ℤ)
    → pos 0 <ℤ npre
    → npre <ℤ nsamp
    → pos 0 <ℤ x
    → pos 0 <ℤ y
    → let before = min_ℤ npre (x -ℤ min_ℤ (nsamp -ℤ npre) x) in
      let after = min_ℤ (nsamp -ℤ npre) y in
      (leb_ℤ npre before && leb_ℤ nsamp (before +ℤ after))
      ≡ (leb_ℤ nsamp x && leb_ℤ (nsamp -ℤ npre) y)
isolated_test x y npre nsamp h0 hn hx hy =
    let post = nsamp -ℤ npre in
    ground (
      arith,
      -ℤ_parts nsamp npre,
      -ℤ_parts x post,
      -ℤ_parts x x,
      +ℤ_parts npre post,
      +ℤ_parts npre y,
      +ℤ_parts (x -ℤ post) post,
      +ℤ_parts (x -ℤ post) y,
      +ℤ_parts (x -ℤ x) post,
      +ℤ_parts (x -ℤ x) y,
    )

eqb_ne : (a b : ℤ) → a ≢ b → eqb_ℤ a b ≡ false
eqb_ne a b h = ground arith

lt_ne : (a b : ℤ) → a <ℤ b → b ≢ a
lt_ne a b h e = omega (arith, parts_of_eq _ _ e)

-- For a trigger u between its neighbours t < u < v, other than frame 0, and lengths with at least
-- one presample and one sample after the trigger: the mode for isolated records makes a
-- full-length record exactly if the previous trigger is a record's length away and the next one
-- comes after the record; the mode for one record asks only the first; the mode for two records
-- asks nothing; no other outcome than such a record or none is possible.
should_record_full :
    (t u v npre nsamp : ℤ)
    → pos 0 <ℤ npre
    → npre <ℤ nsamp
    → t <ℤ u
    → u <ℤ v
    → u ≢ pos 0
    → let full : RecordSpec = record {
      first_rising_frame_index = u;
      spec_npre = npre;
      spec_nsamp = nsamp;
    } in
      let made = λ (m : EmtMode). should_record t u v npre nsamp m in
      (((nsamp ≤ℤ u -ℤ t) × (nsamp -ℤ npre ≤ℤ v -ℤ u)) ↔ (made full_length_isolated ≡ some full))
      × ((nsamp ≤ℤ u -ℤ t) ↔ (made one_full_length ≡ some full))
      × (made two_full_length ≡ some full)
unfolding should_record room_before room_after
should_record_full t u v npre nsamp h0 hn ht hv hu =
    let zero_no = eqb_ne u (pos 0) hu in
    let after_no = eqb_ne u v (λ e. lt_ne u v hv (sym e)) in
    let before_no = eqb_ne u t (lt_ne t u ht) in
    let test = isolated_test (u -ℤ t) (v -ℤ u) npre nsamp h0 hn (omega int_laws) (omega int_laws) in
    rw (zero_no, after_no, before_no, test) (ground arith, ground arith, refl)
