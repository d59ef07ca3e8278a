-- ===== src/Multi/Compute.antt =====
-- edgeMultiComputeRecordSpecs of edge_multi_trigger.go.
pub mod Overflow
use dastard.Base.{
  ℕ, zero, suc, ◌+◌, ◌-◌, Bool, true, false, ◌&&◌, List, [], ◌∷◌, ◌++◌, Option, none, some, ltb,
  leb, if◌then◌else◌, length, Outcome, ok, fault, stuck, ◌>>=◌, index,
}
use dastard.Base.Int.{ℤ, pos, ◌+ℤ◌, ◌-ℤ◌, ltb_ℤ, pos_part}
use dastard.Base.Words.{int32}
use dastard.Floats.{FloatOps}
use dastard.Multi.{EmtState, RecordSpec, reset}
use dastard.Multi.Search.{find_next_trigger_ind}
use dastard.Multi.Records.{should_record}

abbrev pub append_some : List RecordSpec → Option RecordSpec → List RecordSpec
append_some specs none = specs
append_some specs (some r) = specs ++ (r ∷ [])

-- The variables of the loop that are used after it.
pub record Found : Type 0 where
  pub i_first : ℕ
  pub found_t : ℤ
  pub found_u : ℤ
  pub found_v : ℤ
  pub specs : List RecordSpec

-- The loop over the triggers; `s` gives the settings. The fuel bounds its rounds.
unfoldable pub spec_loop : ℕ → FloatOps → EmtState → List ℕ → ℤ → ℤ → Found → Outcome Found
unfolding find_next_trigger_ind should_record
spec_loop zero ops s raw frame0 i_last f = stuck
spec_loop (suc fuel) ops s raw frame0 i_last f = do
  let most = s.nsamp -ℤ s.npre
  x ←
      find_next_trigger_ind ops raw f.i_first i_last s.threshold s.nmonotone most
        s.enable_zero_threshold
  i ← index x.next_i_first
  let v = x.trigger_ind +ℤ frame0
  let spec = should_record f.found_u f.found_v v s.npre s.nsamp s.mode
  let more = spec_loop fuel ops s raw frame0 i_last (record {
    i_first = i;
    found_t = f.found_u;
    found_u = f.found_v;
    found_v = v;
    specs = append_some f.specs spec;
  })
  if x.trigger_found then more else ok (record f { i_first = i })

-- After the loop: a last trigger far enough from the end gets its record now.
unfoldable pub finish : EmtState → ℤ → Found → EmtState × List RecordSpec
unfolding should_record
finish s frame0 f =
    let next : ℤ = pos f.i_first +ℤ frame0 in
    let far : Bool = ltb_ℤ (pos 0) f.found_v && ltb_ℤ f.found_v (next -ℤ s.nsamp) in
    let spec = should_record f.found_u f.found_v next s.npre s.nsamp s.mode in
    (
      record s {
        t = f.found_t;
        u = if far then f.found_v else f.found_u;
        v = f.found_v;
        next_frame_index_to_inspect = next;
      },
      if far then append_some f.specs spec else f.specs,
    )

unfoldable pub edge_multi_compute_record_specs :
    FloatOps → EmtState → List ℕ → ℤ → Outcome (EmtState × List RecordSpec)
unfolding spec_loop finish reset int32
edge_multi_compute_record_specs ops s raw frame0 =
    let offset : ℤ = int32 (s.next_frame_index_to_inspect -ℤ frame0) in
    let fresh : Bool = ltb_ℤ offset s.npre in
    let s' : EmtState = if fresh then record (reset s) { i_first_check_sentinel = true } else s in
    let i_last : ℤ = int32 (pos (length raw)) -ℤ pos 1 -ℤ (s.nsamp -ℤ s.npre) in
    do
      i ← index (if fresh then s.npre else offset)
      f ←
          spec_loop (pos_part i_last + 3) ops s' raw frame0 i_last
            (record { i_first = i; found_t = s'.t; found_u = s'.u; found_v = s'.v; specs = [] })
      ok (finish s' frame0 f)
