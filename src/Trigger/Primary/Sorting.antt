-- ===== src/Trigger/Primary/Sorting.antt =====
-- The sort of records is a sort of their positions.
use dastard.Base.{
  ℕ, ◌+◌, ◌≤◌, ◌≡◌, refl, ap, ◌∙◌, List, [], ◌∷◌, ◌++◌, map, Option, some, arith, ltb, ltb→lt,
  ltb→ge, if◌then◌else◌, All, ok, Bool-cases, inl, inr,
}
use dastard.Base.Int.{ℤ, pos, ◌+ℤ◌, ltb_ℤ, +ℤ_parts}
use dastard.Trigger.{FloatOps, DataRecord, Processor, record_of}
use dastard.Trigger.Access.{taken, records_at}
use dastard.Trigger.Greedy.{Apart}
use dastard.Trigger.Records.{all_some, insert, sort_frames, sort_records}

abbrev place : ℕ → List ℕ → List ℕ
place p [] = p ∷ []
place p (q ∷ l) = let rest = place p l in if ltb q p then q ∷ rest else p ∷ q ∷ l

-- A sort of positions.
abbrev pub ordered : List ℕ → List ℕ
ordered [] = []
ordered (p ∷ l) = place p (ordered l)

frame_lt : (f : ℤ) (a b : ℕ) → ltb_ℤ (f +ℤ pos a) (f +ℤ pos b) ≡ ltb a b
frame_lt f a b = ground (arith, +ℤ_parts f (pos a), +ℤ_parts f (pos b))

sort_two :
    (r s : Option DataRecord) (rs : List (Option DataRecord)) (m : List DataRecord)
    → all_some (r ∷ s ∷ rs) ≡ some m
    → sort_records (r ∷ s ∷ rs) ≡ ok (map some (sort_frames m))
unfolding sort_records
sort_two r s rs m e = rw (e, sort_records) refl

module _ (ops : FloatOps) (d : Processor) where
  abbrev made : List ℕ → List DataRecord
  made = map (taken ops d)

  insert-made : (p : ℕ) (l : List ℕ) → insert (taken ops d p) (made l) ≡ made (place p l)
  unfolding insert record_of
  insert-made p [] = refl
  insert-made p (q ∷ l) =
      let same = frame_lt d.stream.first_frame_index q p in
      elim (Bool-cases (ltb q p)) [
        | inl lt ↦ rw (same, lt, insert-made p l)
        | inr ge ↦ rw (same, ge)
      ]

  sort_frames-made : (l : List ℕ) → sort_frames (made l) ≡ made (ordered l)
  unfolding sort_frames
  sort_frames-made [] = refl
  sort_frames-made (p ∷ l) = rw (sort_frames-made l) (insert-made p (ordered l))

  all_some-records_at : (l : List ℕ) → all_some (records_at ops d l) ≡ some (made l)
  unfolding all_some
  all_some-records_at [] = refl
  all_some-records_at (p ∷ l) = rw (all_some-records_at l)

  some-made : (l : List ℕ) → map some (made l) ≡ records_at ops d l
  some-made [] = refl
  some-made (p ∷ l) = rw (some-made l)

  pub sort_records-records_at :
      (l : List ℕ) → sort_records (records_at ops d l) ≡ ok (records_at ops d (ordered l))
  unfolding sort_records
  sort_records-records_at [] = refl
  sort_records-records_at (p ∷ []) = refl
  sort_records-records_at (p ∷ q ∷ l) =
      let sorted =
        sort_two (some (taken ops d p)) (some (taken ops d q)) (records_at ops d l)
          (made (p ∷ q ∷ l)) (all_some-records_at (p ∷ q ∷ l)) in
      sorted
      ∙ ap (λ m. ok (map some m)) (sort_frames-made (p ∷ q ∷ l))
      ∙ ap ok (some-made (ordered (p ∷ q ∷ l)))

  pub records_at-append :
      (l m : List ℕ) → records_at ops d l ++ records_at ops d m ≡ records_at ops d (l ++ m)
  records_at-append [] m = refl
  records_at-append (p ∷ l) m = rw (records_at-append l m)

  pub sorted_after :
      (qs ps : List ℕ)
      → sort_records (records_at ops d qs ++ records_at ops d ps)
        ≡ ok (records_at ops d (ordered (qs ++ ps)))
  sorted_after qs ps = rw (records_at-append qs ps) (sort_records-records_at (qs ++ ps))

pub All-from_zero : (l : List ℕ) → All (λ p. 0 ≤ p) l
All-from_zero [] = tt
All-from_zero (p ∷ l) = (omega arith, All-from_zero l)

place-Apart : (m p : ℕ) (l : List ℕ) → m ≤ p → Apart 0 m l → Apart 0 m (place p l)
place-Apart m p [] le h = (le, tt)
place-Apart m p (q ∷ l) le h = elim (Bool-cases (ltb q p)) [
  | inl lt ↦ rw lt (h.0, place-Apart (q + 0) p l (omega (arith, ltb→lt q p lt)) h.1)
  | inr ge ↦ rw ge (le, (omega (arith, ltb→ge q p ge), h.1))
]

pub ordered-Apart : (m : ℕ) (l : List ℕ) → All (λ p. m ≤ p) l → Apart 0 m (ordered l)
ordered-Apart m [] h = tt
ordered-Apart m (p ∷ l) h = place-Apart m p (ordered l) h.0 (ordered-Apart m l h.1)

module _ (P : ℕ → Type 0) where
  place-All : (p : ℕ) (l : List ℕ) → P p → All P l → All P (place p l)
  place-All p [] x h = (x, tt)
  place-All p (q ∷ l) x h = elim (Bool-cases (ltb q p)) [
    | inl lt ↦ rw lt (h.0, place-All p l x h.1)
    | inr ge ↦ rw ge (x, h)
  ]

  pub ordered-All : (l : List ℕ) → All P l → All P (ordered l)
  ordered-All [] h = tt
  ordered-All (p ∷ l) h = place-All p (ordered l) h.0 (ordered-All l h.1)
