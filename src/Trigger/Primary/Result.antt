-- ===== src/Trigger/Primary/Result.antt =====
-- What TriggerData returns, all three scans together.
use dastard.Base.{
  ℕ, ◌+◌, ◌≤◌, ◌<◌, ◌≡◌, refl, ap, ◌∙◌, Bool, true, false, List, [], ◌∷◌, ◌++◌, map, Option, arith,
  if◌then◌else◌, length, All, All-imp, All-append, Outcome, ok, ◌>>=◌, Bool-cases, inl, inr,
}
use dastard.Base.Int.{ℤ, pos, ◌+ℤ◌, ◌≤ℤ◌, int_laws}
use dastard.Trigger.{
  FloatOps, DataRecord, Processor, record_of, first_potential_trigger_frame,
  first_potential_auto_trigger_frame,
}
use dastard.Multi.{EmtState}
use dastard.Trigger.Access.{taken, records_at, first_after-ge}
use dastard.Trigger.Greedy.{Apart, Greedy-All, Greedy-Apart}
use dastard.Trigger.Edge.{edge_trigger_compute_append}
use dastard.Trigger.Edge.Scan.{range_end, edge_trigger_compute_append_lem}
use dastard.Trigger.Level.{level_trigger_compute_append}
use dastard.Trigger.Level.Scan.{level_trigger_compute_append_lem}
use dastard.Trigger.Auto.{auto_trigger_compute_append}
use dastard.Trigger.Auto.Loop.{auto_trigger_compute_append_lem}
use dastard.Trigger.Primary.Sorting.{ordered, ordered-Apart, ordered-All}
use dastard.Trigger.Primary.{three_passes, delete_nil, last_frame, finish, trigger_data}

Apart-looser : (g h lo m : ℕ) (ps : List ℕ) → h ≤ g → m ≤ lo → Apart g lo ps → Apart h m ps
Apart-looser g h lo m [] le le' a = tt
Apart-looser g h lo m (p ∷ ps) le le' a =
    (omega (arith, a.0), Apart-looser g h (p + g) (p + h) ps le (omega arith) a.1)

union-sorted :
    (m n : ℕ) (qs ps : List ℕ)
    → All (λ p. (m ≤ p) × (p < n)) qs
    → All (λ p. (m ≤ p) × (p < n)) ps
    → Apart 0 m (ordered (qs ++ ps)) × All (λ p. (m ≤ p) × (p < n)) (ordered (qs ++ ps))
union-sorted m n qs ps hq hp =
    let both = All-append (λ p. (m ≤ p) × (p < n)) qs ps hq hp in
    (
      ordered-Apart m (qs ++ ps)
          (All-imp (λ p. (m ≤ p) × (p < n)) (λ p. m ≤ p) (λ p r. r.0) (qs ++ ps) both),
      ordered-All (λ p. (m ≤ p) × (p < n)) (qs ++ ps) both,
    )

pick : {A : Type 0} (b : Bool) (x y : Outcome A) → b ≡ false → (if b then x else y) ≡ y
pick true x y e = cc
pick false x y e = refl

-- Without edge multi-triggers, the records of the three passes less the nil ones.
from_passes :
    (ops : FloatOps) (d : Processor) (found : List (Option DataRecord))
    → d.edge_multi ≡ false
    → three_passes ops d ≡ ok found
    → trigger_data ops d ≡ ok (finish d d.emt_state (delete_nil found), delete_nil found)
unfolding trigger_data
from_passes ops d found off e =
    ap (λ m. m >>= rest)
      (pick d.edge_multi _ _ off ∙ ap (λ m. m >>= λ records. ok (d.emt_state, records)) e)
  where
    rest : EmtState × List (Option DataRecord) → Outcome (Processor × List DataRecord)
    rest x = ok (finish d x.0 (delete_nil x.1), delete_nil x.1)

-- What a processor needs for its scans to stay in range.
pub record IsSound (d : Processor) : Type 0 where
  pub lookback : 3 ≤ d.n_presamples
  pub room : d.n_presamples ≤ d.n_samples
  pub small : length d.stream.raw_data + d.n_presamples < 0x7fff_ffff_ffff_ffff

module _ (ops : FloatOps) (d : Processor) (h : IsSound d) where
  -- A position from the first potential trigger on, and below the end of the triggerable range.
  abbrev InRange : ℕ → Type 0
  InRange p = (first_potential_trigger_frame d ≤ p) × (p < range_end d)

  abbrev start : ℕ
  start = first_potential_trigger_frame d

  edge_pass :
      (ps : List ℕ) × (edge_trigger_compute_append ops d [] ≡ ok (records_at ops d ps))
      × Apart d.n_samples start ps
      × All InRange ps
  unfolding edge_trigger_compute_append
  edge_pass = elim (Bool-cases d.edge_trigger) [
    | inl on ↦
        let (ps, e, g) = edge_trigger_compute_append_lem ops d [] h.lookback h.room on in
        (
          ps,
          e,
          Apart-looser (d.n_samples + 1) d.n_samples start start ps (omega arith) (omega arith)
              (Greedy-Apart _ _ _ _ ps g),
          Greedy-All _ _ _ start start ps (omega arith) g,
        )
    | inr off ↦ ([], rw off, tt, tt)
  ]

  sorted_union :
      (qs ps : List ℕ)
      → All InRange qs
      → All InRange ps
      → Apart 0 start (ordered (qs ++ ps)) × All InRange (ordered (qs ++ ps))
  sorted_union qs ps hq hp = union-sorted start (range_end d) qs ps hq hp

  level_pass :
      (qs : List ℕ)
      → Apart d.n_samples start qs
      → All InRange qs
      → (ps : List ℕ) × (level_trigger_compute_append ops d (records_at ops d qs)
          ≡ ok (records_at ops d ps))
        × Apart 0 start ps
        × All InRange ps
  unfolding level_trigger_compute_append
  level_pass qs a r = elim (Bool-cases d.level_trigger) [
    | inl on ↦
        let (ps, e, _, g) =
          level_trigger_compute_append_lem ops d qs (omega (arith, h.lookback)) h.room h.small a
            on in
        let here = Greedy-All _ _ _ start start ps (omega arith) g in
        (ordered (qs ++ ps), e, (sorted_union qs ps r here).0, (sorted_union qs ps r here).1)
    | inr off ↦
        (qs, rw off, Apart-looser d.n_samples 0 start start qs (omega arith) (omega arith) a, r)
  ]

  -- A position with a whole record around it.
  abbrev pub HasRoom : ℕ → Type 0
  HasRoom p = (d.n_presamples ≤ p) × (p < range_end d)

  start-ge : d.n_presamples ≤ start
  unfolding first_potential_trigger_frame
  start-ge = first_after-ge d (pos d.n_samples)

  auto_start-ge : d.n_presamples ≤ first_potential_auto_trigger_frame ops d
  unfolding first_potential_auto_trigger_frame
  auto_start-ge = first_after-ge d _

  InRange-HasRoom : (qs : List ℕ) → All InRange qs → All HasRoom qs
  InRange-HasRoom qs r = All-imp InRange HasRoom (λ p i. (omega (arith, i.0, start-ge), i.1)) qs r

  auto_pass :
      (qs : List ℕ)
      → Apart 0 start qs
      → All InRange qs
      → (ps : List ℕ) × (auto_trigger_compute_append ops d (records_at ops d qs)
          ≡ ok (records_at ops d ps))
        × Apart 0 d.n_presamples ps
        × All HasRoom ps
  unfolding auto_trigger_compute_append
  auto_pass qs a r = elim (Bool-cases d.auto_trigger) [
    | inl on ↦
        let some_samples : 0 < d.n_samples = omega (arith, h.lookback, h.room) in
        let (ps, e, _, g) =
          auto_trigger_compute_append_lem ops d qs h.room some_samples h.small a on in
        let here : All HasRoom ps =
          All-imp _ HasRoom (λ p i. (omega (arith, i.0, auto_start-ge), i.1)) ps g.open_ones in
        let union = union-sorted d.n_presamples (range_end d) qs ps (InRange-HasRoom qs r) here in
        (ordered (qs ++ ps), e, union.0, union.1)
    | inr off ↦ (
      qs,
      rw off,
      Apart-looser 0 0 start d.n_presamples qs (omega arith) start-ge a,
      InRange-HasRoom qs r,
    )
  ]

  three_passes-HasRoom :
      (ps : List ℕ) × (three_passes ops d ≡ ok (records_at ops d ps))
      × Apart 0 d.n_presamples ps
      × All HasRoom ps
  unfolding three_passes
  three_passes-HasRoom =
      let (es, e₁, a₁, r₁) = edge_pass in
      let (ls, e₂, a₂, r₂) = level_pass es a₁ r₁ in
      let (ps, e₃, a₃, r₃) = auto_pass ls a₂ r₂ in (ps, rw (e₁, e₂, e₃), a₃, r₃)

  delete_nil-records_at : (ps : List ℕ) → delete_nil (records_at ops d ps) ≡ map (taken ops d) ps
  unfolding delete_nil
  delete_nil-records_at [] = refl
  delete_nil-records_at (p ∷ ps) = rw (delete_nil-records_at ps)

  abbrev pub frame_at : ℕ → ℤ
  frame_at p = d.stream.first_frame_index +ℤ pos p

  frames-taken : (ps : List ℕ) → map (λ r. r.trig_frame) (map (taken ops d) ps) ≡ map frame_at ps
  unfolding record_of
  frames-taken [] = refl
  frames-taken (p ∷ ps) = rw (frames-taken ps)

  last_frame-ge :
      (p m : ℕ) (ps : List ℕ)
      → p ≤ m
      → Apart 0 m ps
      → frame_at p ≤ℤ last_frame (frame_at p) (map (taken ops d) ps)
  unfolding last_frame record_of
  last_frame-ge p m [] le a = omega arith
  last_frame-ge p m (q ∷ ps) le a =
      omega (int_laws, last_frame-ge q (q + 0) ps (omega arith) a.1, a.0, le)

  last_frame-bounds :
      (z : ℤ) (m : ℕ) (ps : List ℕ)
      → Apart 0 m ps
      → All (λ p. frame_at p ≤ℤ last_frame z (map (taken ops d) ps)) ps
  unfolding last_frame record_of
  last_frame-bounds z m [] a = tt
  last_frame-bounds z m (p ∷ ps) a =
      (last_frame-ge p (p + 0) ps (omega arith) a.1, last_frame-bounds (frame_at p) (p + 0) ps a.1)

  -- With edge, level and auto triggers in any combination, on a sound processor: TriggerData ends
  -- without a fault; it returns the records of some positions in ascending order, each with room
  -- for the whole record in the stream; the trigger list has their frames, in the same order, and
  -- no record is later than the new last trigger.
  pub trigger_data_lem :
      d.edge_multi ≡ false
      → (ps : List ℕ) × (d' : Processor) × (trigger_data ops d ≡ ok (d', map (taken ops d) ps))
        × Apart 0 d.n_presamples ps
        × All HasRoom ps
        × (d'.last_trig_list.frames ≡ map frame_at ps)
        × All (λ p. frame_at p ≤ℤ d'.last_trigger) ps
  unfolding finish
  trigger_data_lem off =
      let (ps, e, a, r) = three_passes-HasRoom in
      (
        ps,
        finish d d.emt_state (map (taken ops d) ps),
        from_passes ops d (records_at ops d ps) off e
            ∙ ap (λ l. ok (finish d d.emt_state l, l)) (delete_nil-records_at ps),
        a,
        r,
        frames-taken ps,
        last_frame-bounds d.last_trigger d.n_presamples ps a,
      )
