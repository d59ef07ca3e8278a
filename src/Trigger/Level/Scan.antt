-- ===== src/Trigger/Level/Scan.antt =====
-- The level scan finds every level crossing that keeps clear of the records found before.
use mathlib.Core.List.{append_assoc, append-nil}
use dastard.Base.{
  ℕ, zero, suc, ◌+◌, ◌≤◌, ◌<◌, ◌≡◌, sym, ap, ◌∙◌, Bool, true, false, leb, List, [], ◌∷◌, ◌++◌, All,
  ◌⊎◌, Option, some, arith, ltb, ltb→lt, ltb→ge, length, Outcome, ok, ◌>>=◌, if◌then◌else◌,
  Bool-cases, inl, inr,
}
use dastard.Base.Int.{pos, ltb_ℤ, pos-+ℤ, ◌+ℤ◌}
use dastard.Trigger.Greedy.{Greedy, Greedy-skip, Greedy-imp, Greedy-jump, Apart}
use dastard.Trigger.Records.{max_int64}
use dastard.Trigger.Access.{
  at_back-ok, taken, records_at, next_of, next_found-records_at, trigger_at-ok, length-shifted_raw,
  first_after-ge,
}
use dastard.Trigger.{
  FloatOps, DataRecord, Processor, trigger_at, first_potential_trigger_frame, shifted_raw, in_range,
}
use dastard.Trigger.Primary.Sorting.{ordered, ordered-Apart, sorted_after, All-from_zero}
use dastard.Trigger.Edge.Scan.{range_end}
use dastard.Trigger.Level.{level_hit, level_threshold, level_loop, level_trigger_compute_append}

-- The data cross the level between sample `j - 1` and sample `j`.
abbrev pub IsLevel : Processor → List ℕ → ℕ → Type 0
IsLevel d raw j = level_hit d raw (level_threshold d) j ≡ ok true

-- A record at `j` begins a record's length before or after each of the triggers `qs`.
abbrev pub Clear : ℕ → List ℕ → ℕ → Type 0
Clear n qs j = All (λ q. (j + n ≤ q) ⊎ (q + n ≤ j)) qs

pub Apart-Clear : (n lo j : ℕ) (qs : List ℕ) → j + n ≤ lo → Apart n lo qs → Clear n qs j
Apart-Clear n lo j [] h a = tt
Apart-Clear n lo j (q ∷ qs) h a =
    (inl (omega (arith, a.0)), Apart-Clear n (q + n) j qs (omega (arith, a.0)) a.1)

level_hit-total :
    (d : Processor) (raw : List ℕ) (t i : ℕ)
    → 1 ≤ i
    → i < length raw
    → (b : Bool) × (level_hit d raw t i ≡ ok b)
unfolding level_hit
level_hit-total d raw t i le lt =
    let (x, ex) = at_back-ok raw i 0 (omega arith) lt in
    let (y, ey) = at_back-ok raw i 1 le lt in
    (
      if d.level_rising
          then (if leb t x then ltb y t else false)
          else (if leb x t then ltb t y else false),
      rw (ex, ey) (ground arith),
    )

module _ (ops : FloatOps) (d : Processor) (raw : List ℕ) where
  abbrev IsFree : List ℕ → ℕ → Type 0
  IsFree qs j = IsLevel d raw j × Clear d.n_samples qs j

  -- The outcome of a scan from `i` on that has the triggers `qs` before it.
  abbrev Found : List ℕ → ℕ → List (Option DataRecord) → Outcome (List (Option DataRecord)) → Type 0
  Found qs i records r =
      (ps : List ℕ) × (r ≡ ok (records ++ records_at ops d ps))
      × Greedy (IsFree qs) 1 (range_end d) i ps

  Found-none :
      (qs : List ℕ) (i : ℕ) (records : List (Option DataRecord))
      → range_end d ≤ i
      → Found qs i records (ok records)
  Found-none qs i records h =
      ([], ap ok (sym (append-nil records)), λ j le lt _. absurd (omega arith))

  -- Past a trigger that is less than a record ahead the scan goes on a record later.
  Found-jump :
      (q : ℕ) (qs : List ℕ) (i : ℕ) (records : List (Option DataRecord))
      (r : Outcome (List (Option DataRecord)))
      → i ≤ q
      → q < i + d.n_samples
      → Found qs (q + d.n_samples) records r
      → Found (q ∷ qs) i records r
  Found-jump q qs i records r le lt (ps, e, g) =
      let m : ℕ = q + d.n_samples in
      let g' =
        Greedy-imp (IsFree qs) (IsFree (q ∷ qs)) 1 (range_end d) m m ps (omega arith)
          (λ j h f. (f.0, (inr h, f.1))) (λ j h f. (f.0, f.1.1)) g in
      (
        ps,
        e,
        Greedy-jump (IsFree (q ∷ qs)) 1 (range_end d) i m ps (omega arith)
            (λ j h below f. vetoed j h below f.1.0) g',
      )
    where
      vetoed :
          (j : ℕ) → i ≤ j → j < q + d.n_samples → ¬ ((j + d.n_samples ≤ q) ⊎ (q + d.n_samples ≤ j))
      vetoed j h below (inl a) = omega arith
      vetoed j h below (inr a) = omega arith

  -- The loop's body where no trigger is too near.
  Found-test :
      (fuel : ℕ) (qs : List ℕ) (i : ℕ) (records : List (Option DataRecord)) (b : Bool)
      → level_hit d raw (level_threshold d) i ≡ ok b
      → trigger_at ops d i ≡ ok (some (taken ops d i))
      → i < range_end d
      → Clear d.n_samples qs i
      → ((rs : List (Option DataRecord))
          → Found qs
              (i + 1)
              rs
              (level_loop fuel ops d raw (records_at ops d qs) (next_of qs) (i + 1) rs))
      → Found qs i records (
          if b
          then (trigger_at ops d i >>= λ r.
              level_loop fuel ops d raw
                (records_at ops d qs)
                (next_of qs)
                (i + 1)
                (records ++ (r ∷ [])))
          else level_loop fuel ops d raw (records_at ops d qs) (next_of qs) (i + 1) records)
  Found-test fuel qs i records true eb et lt clear on =
      let (ps, e, g) = on (records ++ (some (taken ops d i) ∷ [])) in
      rw et (
        i ∷ ps,
        e ∙ ap ok (append_assoc records (some (taken ops d i) ∷ []) _),
        (omega arith, lt, (eb, clear), λ j le below _. absurd (omega arith), g),
      )
  Found-test fuel qs i records false eb et lt clear on =
      let (ps, e, g) = on records in
      (ps, e, Greedy-skip (IsFree qs) 1 (range_end d) i ps (λ hit. absurd (no (hit.0))) g)
    where
      no : ¬ IsLevel d raw i
      no hit = cc

  record Ready (fuel i : ℕ) (qs : List ℕ) : Type 0 where
    same_length : length raw ≡ length d.stream.raw_data
    one_back : 1 ≤ i
    room_before : d.n_presamples ≤ i
    presamples_fit : d.n_presamples ≤ d.n_samples
    some_samples : 0 < d.n_samples
    spaced : Apart d.n_samples i qs
    small : length d.stream.raw_data + d.n_presamples < 0x7fff_ffff_ffff_ffff
    enough : length d.stream.raw_data + d.n_presamples < fuel + i
    more : 0 < fuel

  on :
      (fuel i : ℕ) (qs : List ℕ)
      → i + d.n_samples < length d.stream.raw_data + d.n_presamples
      → Ready (suc fuel) i qs
      → Apart d.n_samples (i + 1) qs
      → Ready fuel (i + 1) qs
  on fuel i qs lt r apart = record {
    same_length = r.same_length;
    one_back = omega arith;
    room_before = omega (arith, r.room_before);
    presamples_fit = r.presamples_fit;
    some_samples = r.some_samples;
    spaced = apart;
    small = r.small;
    enough = omega (arith, r.enough);
    more = omega (arith, r.enough, r.some_samples, r.presamples_fit);
  }

  past :
      (fuel i q : ℕ) (qs : List ℕ)
      → i + d.n_samples < length d.stream.raw_data + d.n_presamples
      → Ready (suc fuel) i (q ∷ qs)
      → Ready fuel (q + d.n_samples) qs
  past fuel i q qs lt r = record {
    same_length = r.same_length;
    one_back = omega (arith, r.some_samples);
    room_before = omega (arith, r.presamples_fit);
    presamples_fit = r.presamples_fit;
    some_samples = r.some_samples;
    spaced = r.spaced.1;
    small = r.small;
    enough = omega (arith, r.enough, r.spaced.0, r.some_samples);
    more = omega (arith, r.enough, r.some_samples, r.presamples_fit);
  }

  level_loop-Found :
      (fuel i : ℕ) (qs : List ℕ) (records : List (Option DataRecord))
      → Ready fuel i qs
      → Found qs i records (level_loop fuel ops d raw (records_at ops d qs) (next_of qs) i records)
  unfolding level_loop
  level_loop-Found zero i qs records r = absurd (omega (arith, r.more))
  level_loop-Found (suc fuel) i [] records r = elim (Bool-cases (in_range d i)) [
    | inr out ↦ rw out (Found-none [] i records (omega (arith, ltb→ge _ _ out)))
    | inl inside ↦
        let lt = ltb→lt _ _ inside in
        let far : ltb_ℤ max_int64 (pos (i + d.n_samples)) ≡ false = ground (arith, r.small) in
        let (b, eb) = level_hit-total d raw (level_threshold d) i r.one_back (omega arith) in
        rw inside (
          rw far (
            rw eb (
              Found-test fuel [] i records b eb (trigger_at-ok ops d i r.room_before (omega arith))
                (omega arith) tt
                (λ rs. level_loop-Found fuel (i + 1) [] rs (on fuel i [] lt r tt)))))
  ]
  level_loop-Found (suc fuel) i (q ∷ qs) records r = elim (Bool-cases (in_range d i)) [
    | inr out ↦ rw out (Found-none (q ∷ qs) i records (omega (arith, ltb→ge _ _ out)))
    | inl inside ↦
        let lt = ltb→lt _ _ inside in
        elim (Bool-cases (ltb_ℤ (pos q) (pos (i + d.n_samples)))) [
          | inl near ↦
              let below : q < i + d.n_samples = ground arith in
              let to : pos q +ℤ pos d.n_samples ≡ pos (q + d.n_samples) = pos-+ℤ q d.n_samples in
              rw inside (
                rw near (
                  rw (next_found-records_at ops d qs, to)
                    (Found-jump q qs i records _ r.spaced.0 below (
                      level_loop-Found fuel (q + d.n_samples) qs records (past fuel i q qs lt r)))))
          | inr far ↦
              let ahead : i + d.n_samples ≤ q = ground arith in
              let (b, eb) = level_hit-total d raw (level_threshold d) i r.one_back (omega arith) in
              rw inside (
                rw far (
                  rw eb (
                    Found-test fuel (q ∷ qs) i records b eb
                      (trigger_at-ok ops d i r.room_before (omega arith)) (omega arith)
                      (
                        inl ahead,
                        Apart-Clear d.n_samples (q + d.n_samples) i qs (omega arith) r.spaced.1,
                      )
                      (λ rs.
                        level_loop-Found fuel (i + 1) (q ∷ qs) rs
                          (on fuel i (q ∷ qs) lt r (omega arith, r.spaced.1))))))
        ]
  ]

-- With at least one presample and no more presamples than samples, and other records found before
-- at positions `qs` that are a record apart: the scan ends without a fault. It returns the records
-- at `qs` and those at positions `ps`, sorted by position; `ps` are exactly the level crossings in
-- the triggerable range that keep clear of `qs`.
pub level_trigger_compute_append_lem :
    (ops : FloatOps) (d : Processor) (qs : List ℕ)
    → 1 ≤ d.n_presamples
    → d.n_presamples ≤ d.n_samples
    → length d.stream.raw_data + d.n_presamples < 0x7fff_ffff_ffff_ffff
    → Apart d.n_samples (first_potential_trigger_frame d) qs
    → d.level_trigger ≡ true
    → (ps : List ℕ) × (level_trigger_compute_append ops d (records_at ops d qs)
        ≡ ok (records_at ops d (ordered (qs ++ ps))))
      × Apart 0 0 (ordered (qs ++ ps))
      × Greedy
          (λ j. IsLevel d (shifted_raw d) j × Clear d.n_samples qs j)
          1
          (range_end d)
          (first_potential_trigger_frame d)
          ps
unfolding level_trigger_compute_append
level_trigger_compute_append_lem ops d qs h1 hn small apart on =
    let ge = first_after-ge d (pos d.n_samples) in
    let start : d.n_presamples ≤ first_potential_trigger_frame d =
      unfold first_potential_trigger_frame in ge in
    let (ps, e, g) =
      level_loop-Found ops d (shifted_raw d) (length d.stream.raw_data + d.n_presamples + 1) _ qs
        (records_at ops d qs)
        (record {
          same_length = length-shifted_raw d;
          one_back = omega arith;
          room_before = start;
          presamples_fit = hn;
          some_samples = omega arith;
          spaced = apart;
          small = small;
          enough = omega arith;
          more = omega arith;
        }) in
    (
      ps,
      simp (on, next_found-records_at, e) (sorted_after ops d qs ps),
      ordered-Apart 0 (qs ++ ps) (All-from_zero (qs ++ ps)),
      g,
    )
