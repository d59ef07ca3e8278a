-- ===== src/Multi/Records.antt =====
-- edgeMultiShouldRecord of edge_multi_trigger.go: which record the middle one of three triggers
-- gets.
use dastard.Base.{◌&&◌, ◌||◌, Option, none, some, if◌then◌else◌}
use dastard.Base.Int.{ℤ, pos, ◌+ℤ◌, ◌-ℤ◌, leb_ℤ, eqb_ℤ, min_ℤ}
use dastard.Multi.{
  RecordSpec, EmtMode, two_full_length, variable_length, full_length_isolated, one_full_length,
}

-- The samples before and after the trigger `u` that its neighbours leave.
unfoldable pub room_before : ℤ → ℤ → ℤ → ℤ → ℤ
room_before t u npre nsamp = min_ℤ npre (u -ℤ t -ℤ min_ℤ (nsamp -ℤ npre) (u -ℤ t))

unfoldable pub room_after : ℤ → ℤ → ℤ → ℤ → ℤ
room_after u v npre nsamp = min_ℤ (nsamp -ℤ npre) (v -ℤ u)

unfoldable pub should_record : ℤ → ℤ → ℤ → ℤ → ℤ → EmtMode → Option RecordSpec
unfolding room_before room_after
should_record t u v npre nsamp mode =
    let before : ℤ = room_before t u npre nsamp in
    let after : ℤ = room_after u v npre nsamp in
    let full : RecordSpec = record {
      first_rising_frame_index = u;
      spec_npre = npre;
      spec_nsamp = nsamp;
    } in
    let part : RecordSpec = record {
      first_rising_frame_index = u;
      spec_npre = before;
      spec_nsamp = before +ℤ after;
    } in
    if eqb_ℤ u (pos 0) || (eqb_ℤ u v || eqb_ℤ u t) then none else elim mode [
      | variable_length ↦ some part
      | one_full_length ↦ if leb_ℤ nsamp (u -ℤ t) then some full else none
      | two_full_length ↦ some full
      | full_length_isolated ↦
          if leb_ℤ npre before && leb_ℤ nsamp (before +ℤ after) then some full else none
    ]
