-- ===== src/Trigger/Edge.antt =====
-- edgeTriggerComputeAppend of triggering.go.
pub mod Scan
use dastard.Base.{
  ℕ, zero, suc, ◌+◌, ◌-◌, ◌*◌, ◌≤◌, ◌<◌, ◌≡◌, refl, sym, ◌∙◌, Bool, true, false, ◌&&◌, ◌||◌, List,
  [], ◌∷◌, ◌++◌, map, Option, none, some, arith, ltb, leb, leb→le, le→leb, ltb→lt, ltb→ge, tests,
  if◌then◌else◌, length, length-map, get_elem?, get_elem?_lt, take, drop, Outcome, ok, fault, stuck,
  ◌>>=◌, Bool-cases, inl, inr,
}
use mathlib.Core.List.{append_assoc, append-nil}
use dastard.Base.Int.{ℤ, pos, negsuc, ◌-ℤ◌, leb_ℤ, eqb_ℤ, sub_ℕ}
use dastard.Trigger.Greedy.{Greedy, Greedy-skip}
use dastard.Trigger.{
  FloatOps, DataRecord, Processor, at_back, slice, trigger_at, record_of,
  first_potential_trigger_frame, first_after, shifted_raw, in_range,
}

-- `-level` of an int32: the least one is its own negative.
abbrev neg32 : ℤ → ℤ
neg32 z = if eqb_ℤ z (negsuc 0x7fff_ffff) then z else pos 0 -ℤ z

-- The test of the loop at sample `i`.
unfoldable pub edge_hit : Processor → List ℕ → ℕ → Outcome Bool
unfolding at_back ◌-ℤ◌
edge_hit d raw i = do
  a ← at_back raw i 0
  b ← at_back raw i 1
  c ← at_back raw i 2
  e ← at_back raw i 3
  let diff = sub_ℕ (a + b) (c + e)
  ok (
      (d.edge_rising && leb_ℤ d.edge_level diff)
      || (d.edge_falling && leb_ℤ diff (neg32 d.edge_level)))

-- The fuel bounds the rounds of the loop.
unfoldable pub edge_loop :
    ℕ
    → FloatOps
    → Processor
    → List ℕ
    → ℕ
    → List (Option DataRecord)
    → Outcome (List (Option DataRecord))
unfolding edge_hit trigger_at
edge_loop zero ops d raw i records = stuck
edge_loop (suc fuel) ops d raw i records =
    let past = λ (r : Option DataRecord).
      edge_loop fuel ops d raw (i + d.n_samples + 1) (records ++ (r ∷ [])) in
    let found = trigger_at ops d i >>= past in
    let next = edge_loop fuel ops d raw (i + 1) records in
    let body = edge_hit d raw i >>= (λ hit. if hit then found else next) in
    if in_range d i then body else ok records

unfoldable pub edge_trigger_compute_append :
    FloatOps → Processor → List (Option DataRecord) → Outcome (List (Option DataRecord))
unfolding edge_loop first_potential_trigger_frame shifted_raw
edge_trigger_compute_append ops d records =
    let fuel : ℕ = length d.stream.raw_data + d.n_presamples + 1 in
    let loop = edge_loop fuel ops d (shifted_raw d) (first_potential_trigger_frame d) records in
    if d.edge_trigger then loop else ok records
