-- ===== src/Configure/Lengths.antt =====
-- The lengths that a successful change leaves are those that the trigger scans need.
use dastard.Base.{
  ℕ, ◌≤◌, ◌<◌, ◌≡◌, refl, ◌∙◌, Bool, true, false, not, ◌&&◌, ◌||◌, ◌==◌, List, [], ◌∷◌, All, arith,
  if◌then◌else◌,
}
use dastard.Base.Int.{ℤ, pos, ◌+ℤ◌, ltb_ℤ, pos_part, +ℤ_parts}
use dastard.Base.Words.{int32}
use dastard.Multi.{EmtState, valid, reset}
use dastard.Trigger.{TriggerState, Processor}
use dastard.Configure.{
  with_emt, sync_lengths, configure_lengths, configure_trigger, configure_each,
  configure_pulse_lengths,
}

-- The edge-multi state has the processor's lengths, begins afresh, and is valid where it is used.
pub record IsSynced (d : Processor) : Type 0 where
  pub same_nsamp : d.emt_state.nsamp ≡ int32 (pos d.n_samples)
  pub same_npre : d.emt_state.npre ≡ int32 (pos d.n_presamples)
  pub afresh : d.emt_state.next_frame_index_to_inspect ≡ pos 0
  pub usable : d.edge_multi ≡ true → valid d.emt_state ≡ true

and_not : (a b : Bool) → a && not b ≡ false → a ≡ true → b ≡ true
and_not true true e on = refl
and_not true false e on = cc
and_not false b e on = cc

valid-reset : (s : EmtState) → valid (reset s) ≡ valid s
unfolding valid reset
valid-reset s = refl

-- What a check of the lengths answers.
checked-IsSynced :
    (d : Processor) (emt : EmtState) (c : Bool)
    → d.edge_multi && not (valid emt) ≡ c
    → emt.nsamp ≡ int32 (pos d.n_samples)
    → emt.npre ≡ int32 (pos d.n_presamples)
    → let r : Processor × Bool =
        if c then (with_emt d emt, true) else (with_emt d (reset emt), false) in
      r.1 ≡ false
      → IsSynced r.0 × (r.0.n_samples ≡ d.n_samples) × (r.0.n_presamples ≡ d.n_presamples)
unfolding reset
checked-IsSynced d emt true test s p e = cc
checked-IsSynced d emt false test s p e = (
  record {
    same_nsamp = s;
    same_npre = p;
    afresh = refl;
    usable = λ on. valid-reset emt ∙ and_not d.edge_multi (valid emt) test on;
  },
  refl,
  refl,
)

sync_lengths-IsSynced :
    (d : Processor)
    → (sync_lengths d).1 ≡ false
    → IsSynced (sync_lengths d).0
      × ((sync_lengths d).0.n_samples ≡ d.n_samples)
      × ((sync_lengths d).0.n_presamples ≡ d.n_presamples)
unfolding sync_lengths
sync_lengths-IsSynced d e =
    let emt : EmtState = record (d.emt_state) {
      nsamp = int32 (pos d.n_samples);
      npre = int32 (pos d.n_presamples);
    } in
    checked-IsSynced d emt (d.edge_multi && not (valid emt)) refl refl refl e

-- A processor that has the lengths, in step with its edge-multi state.
abbrev pub HasLengths : ℕ → ℕ → Processor → Type 0
HasLengths nsamp npre d = IsSynced d × (d.n_samples ≡ nsamp) × (d.n_presamples ≡ npre)

configure_lengths-HasLengths :
    (d : Processor) (nsamp npre : ℕ)
    → (configure_lengths d nsamp npre).1 ≡ false
    → HasLengths nsamp npre (configure_lengths d nsamp npre).0
unfolding configure_lengths
configure_lengths-HasLengths d nsamp npre e =
    let same : Bool = (d.n_samples == nsamp) && (d.n_presamples == npre) in
    let d' : Processor = if same then d else with_emt d (reset d.emt_state) in
    let told : Processor = record d' { n_samples = nsamp; n_presamples = npre } in
    sync_lengths-IsSynced told e

configure_each-HasLengths :
    (ds : List Processor) (nsamp npre : ℕ)
    → (configure_each ds nsamp npre).1 ≡ false
    → All (HasLengths nsamp npre) (configure_each ds nsamp npre).0
unfolding configure_each
configure_each-HasLengths [] nsamp npre e = tt
configure_each-HasLengths (d ∷ ds) nsamp npre e =
    both (configure_lengths d nsamp npre) (configure_each ds nsamp npre)
      (configure_lengths-HasLengths d nsamp npre) (configure_each-HasLengths ds nsamp npre) e
  where
    both :
        (x : Processor × Bool) (xs : List Processor × Bool)
        → (x.1 ≡ false → HasLengths nsamp npre x.0)
        → (xs.1 ≡ false → All (HasLengths nsamp npre) xs.0)
        → let r : List Processor × Bool = if x.1 then (x.0 ∷ ds, true) else (x.0 ∷ xs.0, xs.1) in
          r.1 ≡ false → All (HasLengths nsamp npre) r.0
    both (d', true) xs h hs e = cc
    both (d', false) xs h hs e = (h refl, hs e)

-- When a change of the record lengths of a source gives no error: at least three presamples and a
-- sample after the trigger were asked for, and every processor has the lengths asked for, with an
-- edge-multi state that has the same lengths, begins afresh, and is valid if it is in use.
pub configure_pulse_lengths_lem :
    (ds : List Processor) (nsamp npre : ℤ)
    → (configure_pulse_lengths ds nsamp npre).1 ≡ false
    → (3 ≤ pos_part npre)
      × (pos_part npre < pos_part nsamp)
      × All (HasLengths (pos_part nsamp) (pos_part npre)) (configure_pulse_lengths ds nsamp npre).0
unfolding configure_pulse_lengths
configure_pulse_lengths_lem ds nsamp npre e =
    allowed (ltb_ℤ npre (pos 3) || (ltb_ℤ nsamp (pos 1) || ltb_ℤ nsamp (npre +ℤ pos 1))) refl e
  where
    lengths :
        ltb_ℤ npre (pos 3) || (ltb_ℤ nsamp (pos 1) || ltb_ℤ nsamp (npre +ℤ pos 1)) ≡ false
        → (3 ≤ pos_part npre) × (pos_part npre < pos_part nsamp)
    lengths good = ground (arith, +ℤ_parts npre (pos 1))

    allowed :
        (bad : Bool)
        → ltb_ℤ npre (pos 3) || (ltb_ℤ nsamp (pos 1) || ltb_ℤ nsamp (npre +ℤ pos 1)) ≡ bad
        → let r : List Processor × Bool =
            if bad then (ds, true) else configure_each ds (pos_part nsamp) (pos_part npre) in
          r.1 ≡ false
          → (3 ≤ pos_part npre)
            × (pos_part npre < pos_part nsamp)
            × All (HasLengths (pos_part nsamp) (pos_part npre)) r.0
    allowed true test e = cc
    allowed false test e = (
      (lengths test).0,
      (lengths test).1,
      configure_each-HasLengths ds (pos_part nsamp) (pos_part npre) e,
    )

-- A new trigger state that gives no error is in place: the lengths stay, and the edge-multi state
-- has them, begins afresh, and is valid if it is in use.
configure_trigger_lem :
    (d : Processor) (state : TriggerState)
    → (configure_trigger d state).1 ≡ false
    → HasLengths d.n_samples d.n_presamples (configure_trigger d state).0
unfolding configure_trigger
configure_trigger_lem d state e =
    let told : Processor = record d { trigger_state = state; last_trigger = pos 0 } in
    sync_lengths-IsSynced told e
