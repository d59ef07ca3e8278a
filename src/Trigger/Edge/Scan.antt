-- ===== src/Trigger/Edge/Scan.antt =====
-- The edge scan finds exactly the greedy sequence of edges, with no fault.
use mathlib.Core.List.{append_assoc, append-nil}
use dastard.Base.{
  ℕ, zero, suc, ◌+◌, ◌-◌, ◌≤◌, ◌<◌, ◌≡◌, refl, sym, ap, ◌∙◌, Bool, true, false, List, [], ◌∷◌, ◌++◌,
  map, Option, some, arith, ltb→lt, ltb→ge, length, Outcome, ok, ◌>>=◌, if◌then◌else◌, Bool-cases,
  inl, inr,
}
use dastard.Base.Int.{pos}
use dastard.Trigger.Greedy.{Greedy, Greedy-skip}
use dastard.Trigger.Access.{at_back-ok, taken, trigger_at-ok, length-shifted_raw, first_after-ge}
use dastard.Trigger.{
  FloatOps, DataRecord, Processor, trigger_at, first_potential_trigger_frame, shifted_raw, in_range,
}
use dastard.Trigger.Edge.{edge_hit, edge_loop, edge_trigger_compute_append}

-- The local derivative at sample `j` passes the edge level.
abbrev pub IsEdge : Processor → List ℕ → ℕ → Type 0
IsEdge d raw j = edge_hit d raw j ≡ ok true

-- Where the triggerable range ends.
abbrev pub range_end : Processor → ℕ
range_end d = length d.stream.raw_data + d.n_presamples - d.n_samples

edge_hit-total :
    (d : Processor) (raw : List ℕ) (i : ℕ)
    → 3 ≤ i
    → i < length raw
    → (b : Bool) × (edge_hit d raw i ≡ ok b)
unfolding edge_hit
edge_hit-total d raw i le lt =
    let (a, ea) = at_back-ok raw i 0 (omega arith) lt in
    let (b, eb) = at_back-ok raw i 1 (omega arith) lt in
    let (c, ec) = at_back-ok raw i 2 (omega arith) lt in
    let (e, ee) = at_back-ok raw i 3 (omega arith) lt in rw (ea, eb, ec, ee) (_, refl)

-- The outcome of a scan from `i` on: the records of a greedy sequence behind the given ones.
abbrev Found :
    FloatOps
    → Processor
    → List ℕ
    → ℕ
    → List (Option DataRecord)
    → Outcome (List (Option DataRecord))
    → Type 0
Found ops d raw i records r =
    (ps : List ℕ) × (r ≡ ok (records ++ map (λ p. some (taken ops d p)) ps))
    × Greedy (IsEdge d raw) (d.n_samples + 1) (range_end d) i ps

Found-none :
    (ops : FloatOps) (d : Processor) (raw : List ℕ) (i : ℕ) (records : List (Option DataRecord))
    → range_end d ≤ i
    → Found ops d raw i records (ok records)
Found-none ops d raw i records h =
    ([], ap ok (sym (append-nil records)), λ j le lt _. absurd (omega arith))

Found-hit :
    (ops : FloatOps) (d : Processor) (raw : List ℕ) (i : ℕ) (records : List (Option DataRecord))
    (r : Outcome (List (Option DataRecord)))
    → i < range_end d
    → IsEdge d raw i
    → Found ops d raw (i + d.n_samples + 1) (records ++ (some (taken ops d i) ∷ [])) r
    → Found ops d raw i records r
Found-hit ops d raw i records r lt hit (ps, e, g) =
    let next : i + d.n_samples + 1 ≡ i + (d.n_samples + 1) = omega arith in
    (
      i ∷ ps,
      e ∙ ap ok (append_assoc records (some (taken ops d i) ∷ []) _),
      (omega arith, lt, hit, λ j le below _. absurd (omega arith), rw next at g),
    )

module _ (ops : FloatOps) (d : Processor) (raw : List ℕ) where
  edge_loop-Found :
      (fuel i : ℕ) (records : List (Option DataRecord))
      → length raw ≡ length d.stream.raw_data
      → 3 ≤ i
      → d.n_presamples ≤ i
      → d.n_presamples ≤ d.n_samples
      → length d.stream.raw_data + d.n_presamples < fuel + i
      → 0 < fuel
      → Found ops d raw i records (edge_loop fuel ops d raw i records)
  unfolding edge_loop
  edge_loop-Found zero i records el h3 hp hn hf more = elim more [ ]
  edge_loop-Found (suc fuel) i records el h3 hp hn hf _ = elim (Bool-cases (in_range d i)) [
    | inr out ↦ rw out (Found-none ops d raw i records (omega (arith, ltb→ge _ _ out)))
    | inl inside ↦
        let lt = ltb→lt _ _ inside in
        let (b, eb) = edge_hit-total d raw i h3 (omega arith) in
        let next =
          edge_loop-Found fuel (i + 1) records el (omega arith) (omega arith) hn (omega arith)
            (omega arith) in
        let past =
          edge_loop-Found fuel (i + d.n_samples + 1) (records ++ (some (taken ops d i) ∷ [])) el
            (omega arith) (omega arith) hn (omega arith) (omega arith) in
        rw inside (
          rw eb (
            branch fuel i records b eb (trigger_at-ok ops d i hp (omega arith)) (omega arith) next
              past))
  ]
    where
      branch :
          (fuel i : ℕ) (records : List (Option DataRecord)) (b : Bool)
          → edge_hit d raw i ≡ ok b
          → trigger_at ops d i ≡ ok (some (taken ops d i))
          → i < range_end d
          → Found ops d raw (i + 1) records (edge_loop fuel ops d raw (i + 1) records)
          → Found ops d raw (i + d.n_samples + 1) (records ++ (some (taken ops d i) ∷ [])) (
              edge_loop fuel ops d raw
                (i + d.n_samples + 1)
                (records ++ (some (taken ops d i) ∷ [])))
          → Found ops d raw i records (
              if b
              then (trigger_at ops d i >>= λ r.
                  edge_loop fuel ops d raw (i + d.n_samples + 1) (records ++ (r ∷ [])))
              else edge_loop fuel ops d raw (i + 1) records)
      branch fuel i records true eb et lt next past =
          rw et (Found-hit ops d raw i records _ lt eb past)
      branch fuel i records false eb et lt (ps, e, g) past =
          (ps, e, Greedy-skip _ _ _ i ps (λ hit. cc) g)

-- With at least three presamples and no more presamples than samples the scan ends without a fault,
-- and adds to the records those of the greedy sequence of edges: each the first in the triggerable
-- range that passes the level, more than a record past the one before.
pub edge_trigger_compute_append_lem :
    (ops : FloatOps) (d : Processor) (records : List (Option DataRecord))
    → 3 ≤ d.n_presamples
    → d.n_presamples ≤ d.n_samples
    → d.edge_trigger ≡ true
    → (ps : List ℕ) × (edge_trigger_compute_append ops d records
        ≡ ok (records ++ map (λ p. some (taken ops d p)) ps))
      × Greedy
          (IsEdge d (shifted_raw d))
          (d.n_samples + 1)
          (range_end d)
          (first_potential_trigger_frame d)
          ps
unfolding edge_trigger_compute_append
edge_trigger_compute_append_lem ops d records h3 hn on =
    let ge = first_after-ge d (pos d.n_samples) in
    let start : d.n_presamples ≤ first_potential_trigger_frame d =
      unfold first_potential_trigger_frame in ge in
    simp on (
      edge_loop-Found ops d (shifted_raw d) _ _ records (length-shifted_raw d) (omega arith) start
        hn (omega arith) (omega arith))
