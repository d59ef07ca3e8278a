-- ===== src/Trigger/Access.antt =====
-- Reads that stay in range, and the records that they give.
use dastard.Base.{
  ℕ, ◌+◌, ◌-◌, ◌≤◌, ◌<◌, ◌≡◌, refl, ap, List, [], ◌∷◌, map, Option, some, arith, ge→ltb, le→leb,
  length, length-map, get_elem?_lt, take, drop, ok, inl, inr, Bool-cases,
}
use dastard.Trigger.{
  FloatOps, DataRecord, Processor, at_back, slice, trigger_at, record_of, first_after, shifted_raw,
}
use dastard.Base.Int.{ℤ, pos, int_laws}
use dastard.Trigger.Records.{next_found, max_int64}

pub at_back-ok :
    (raw : List ℕ) (i k : ℕ) → k ≤ i → i < length raw → (x : ℕ) × (at_back raw i k ≡ ok x)
unfolding at_back
at_back-ok raw i k le lt =
    let (x, e) = get_elem?_lt raw (i - k) (omega arith) in (x, rw (le→leb k i le, e))

-- The record of a trigger at `p` with the processor's lengths.
abbrev pub taken : FloatOps → Processor → ℕ → DataRecord
taken ops d p =
    record_of ops d p d.n_presamples
      (take d.n_samples (drop (p - d.n_presamples) d.stream.raw_data))

-- In the triggerable range the record exists, and its samples are those around the trigger.
pub trigger_at-ok :
    (ops : FloatOps) (d : Processor) (p : ℕ)
    → d.n_presamples ≤ p
    → p + d.n_samples ≤ length d.stream.raw_data + d.n_presamples
    → trigger_at ops d p ≡ ok (some (taken ops d p))
unfolding trigger_at slice
trigger_at-ok ops d p le fits =
    let e : p - d.n_presamples + d.n_samples ≤ length d.stream.raw_data = omega arith in
    rw (ge→ltb p d.n_presamples le, le→leb _ _ e)

pub length-shifted_raw : (d : Processor) → length (shifted_raw d) ≡ length d.stream.raw_data
unfolding shifted_raw
length-shifted_raw d = elim (Bool-cases d.stream.signed) [
  | inl s ↦ simp s (length-map d.stream.raw_data _)
  | inr s ↦ simp s
]

pub first_after-ge : (d : Processor) (delay : ℤ) → d.n_presamples ≤ first_after d delay
unfolding first_after
first_after-ge d delay = ground arith

abbrev pub records_at : FloatOps → Processor → List ℕ → List (Option DataRecord)
records_at ops d = map (λ p. some (taken ops d p))

-- `nextFoundTrig` of the records at some positions.
abbrev pub next_of : List ℕ → ℤ
next_of [] = max_int64
next_of (q ∷ qs) = pos q

pub next_found-records_at :
    (ops : FloatOps) (d : Processor) (qs : List ℕ)
    → next_found d.stream.first_frame_index (records_at ops d qs) ≡ ok (next_of qs)
unfolding next_found record_of
next_found-records_at ops d [] = refl
next_found-records_at ops d (q ∷ qs) = ap ok (omega int_laws)
