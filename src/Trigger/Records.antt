-- ===== src/Trigger/Records.antt =====
-- Lists of records: the next one already found, and RecordSlice with its sort (triggering.go).
use dastard.Base.{List, [], ◌∷◌, map, Option, none, some, Outcome, ok, fault, if◌then◌else◌}
use dastard.Base.Int.{ℤ, pos, ◌-ℤ◌, ltb_ℤ}
use dastard.Trigger.{DataRecord}

abbrev pub max_int64 : ℤ
max_int64 = pos 0x7fff_ffff_ffff_ffff

-- `nextFoundTrig`: the trigger of the first pending record as an index in the stream, or the
-- largest int64. To look into a nil record is a panic.
unfoldable pub next_found : ℤ → List (Option DataRecord) → Outcome ℤ
next_found first [] = ok max_int64
next_found first (none ∷ rs) = fault
next_found first (some r ∷ rs) = ok (r.trig_frame -ℤ first)

abbrev pub rest_of : List (Option DataRecord) → List (Option DataRecord)
rest_of [] = []
rest_of (r ∷ rs) = rs

-- The records, unless one of them is nil.
unfoldable pub all_some : List (Option DataRecord) → Option (List DataRecord)
all_some [] = some []
all_some (none ∷ rs) = none
all_some (some r ∷ rs) = elim (all_some rs) [ none ↦ none | some l ↦ some (r ∷ l) ]

-- A sort by trigger frame. `sort.Sort` promises a sorted permutation and no more; this is one.
unfoldable pub insert : DataRecord → List DataRecord → List DataRecord
insert r [] = r ∷ []
insert r (s ∷ l) =
    let rest = insert r l in if ltb_ℤ s.trig_frame r.trig_frame then s ∷ rest else r ∷ s ∷ l

unfoldable pub sort_frames : List DataRecord → List DataRecord
unfolding insert
sort_frames [] = []
sort_frames (r ∷ l) = insert r (sort_frames l)

-- `sort.Sort(RecordSlice(records))`: `Less` looks into both records, so a nil record among two or
-- more is a panic.
unfoldable pub sort_records : List (Option DataRecord) → Outcome (List (Option DataRecord))
unfolding all_some sort_frames
sort_records [] = ok []
sort_records (r ∷ []) = ok (r ∷ [])
sort_records (r ∷ s ∷ rs) = elim (all_some (r ∷ s ∷ rs)) [
  | none ↦ fault
  | some l ↦ ok (map some (sort_frames l))
]
