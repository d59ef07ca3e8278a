-- ===== src/Stream/Entries.antt =====
-- A DataStream seen as its samples, each with the frame number and the time that the stream gives
-- it.
use dastard.Base.{
  ℕ, zero, suc, ◌-◌, ◌*◌, ◌≤◌, ◌<◌, ◌≡◌, refl, sym, ap, List, [], ◌∷◌, ◌++◌, inl, inr, arith, leb,
  leb→le, Bool-cases, length, length-drop, drop, min,
}
use dastard.Base.Int.{ℤ, pos, ◌+ℤ◌, ◌-ℤ◌, ◌*ℤ◌, int_laws, scale_parts, parts_of_eq, -ℤ-cancel}
use dastard.Stream.{DataSegment, DataStream, append_segment, trim_keeping_n, time_of}

pub record Sample : Type 0 where
  pub frame : ℤ
  pub time : ℤ
  pub value : ℕ

module _ (step : ℕ) (period : ℤ) where
  -- Samples `step` frames apart from a given frame and time on.
  abbrev pub stamp : ℤ → ℤ → List ℕ → List Sample
  stamp f t [] = []
  stamp f t (x ∷ xs) =
      record { frame = f; time = t; value = x } ∷ stamp (f +ℤ pos step) (t +ℤ pos step *ℤ period) xs

  pub stamp-append :
      (f t g u : ℤ) (xs ys : List ℕ)
      → g ≡ f +ℤ pos (length xs * step)
      → u ≡ t +ℤ pos (length xs * step) *ℤ period
      → stamp f t (xs ++ ys) ≡ stamp f t xs ++ stamp g u ys
  stamp-append f t g u [] ys e₁ e₂ =
      let a : f ≡ g = omega (int_laws, parts_of_eq _ _ e₁) in
      let b : t ≡ u = omega (int_laws, parts_of_eq _ _ e₂, scale_parts (0 * step) period) in
      rw (a, b)
  stamp-append f t g u (x ∷ xs) ys e₁ e₂ =
      let p = scale_parts step period in
      let q = scale_parts (length xs * step) period in
      let r = scale_parts (suc (length xs) * step) period in
      ap (λ (r : List Sample). record { frame = f; time = t; value = x } ∷ r)
        (stamp-append (f +ℤ pos step) (t +ℤ pos step *ℤ period) g u xs ys
          (omega (int_laws, parts_of_eq _ _ e₁)) (omega (int_laws, parts_of_eq _ _ e₂, p, q, r)))

  pub drop-stamp :
      (n : ℕ) (f t g u : ℤ) (xs : List ℕ)
      → n ≤ length xs
      → g ≡ f +ℤ pos (n * step)
      → u ≡ t +ℤ pos (n * step) *ℤ period
      → drop n (stamp f t xs) ≡ stamp g u (drop n xs)
  drop-stamp zero f t g u xs h e₁ e₂ =
      let a : f ≡ g = omega (int_laws, parts_of_eq _ _ e₁) in
      let b : t ≡ u = omega (int_laws, parts_of_eq _ _ e₂, scale_parts (0 * step) period) in
      rw (a, b)
  drop-stamp (suc n) f t g u [] h e₁ e₂ = elim h [ ]
  drop-stamp (suc n) f t g u (x ∷ xs) h e₁ e₂ =
      let p = scale_parts step period in
      let q = scale_parts (n * step) period in
      let r = scale_parts (suc n * step) period in
      drop-stamp n (f +ℤ pos step) (t +ℤ pos step *ℤ period) g u xs (omega arith)
        (omega (int_laws, parts_of_eq _ _ e₁)) (omega (int_laws, parts_of_eq _ _ e₂, p, q, r))

abbrev pub segment_entries : DataSegment → List Sample
segment_entries s =
    stamp s.frames_per_sample s.frame_period s.first_frame_index s.first_time s.raw_data

abbrev pub entries : DataStream → List Sample
entries s = segment_entries s.segment

-- A segment follows a stream: the same sampling, starting at the frame and time where it ends.
pub record Follows (stream : DataStream) (seg : DataSegment) : Type 0 where
  pub same_step : seg.frames_per_sample ≡ stream.frames_per_sample
  pub same_period : seg.frame_period ≡ stream.frame_period
  pub next_frame :
      seg.first_frame_index
      ≡ stream.first_frame_index +ℤ pos (length stream.raw_data * stream.frames_per_sample)
  pub next_time : seg.first_time ≡ time_of stream.segment (length stream.raw_data)

-- When a segment follows the stream, appending it keeps every sample of the stream at its frame
-- and time and adds the segment's samples at theirs.
pub entries-append_segment :
    (stream : DataStream) (seg : DataSegment)
    → Follows stream seg
    → entries (append_segment stream seg) ≡ entries stream ++ segment_entries seg
unfolding append_segment time_of
entries-append_segment stream seg h =
    let n : ℕ = length stream.raw_data * stream.frames_per_sample in
    let f : seg.first_frame_index -ℤ pos n ≡ stream.first_frame_index =
      omega (int_laws, parts_of_eq _ _ h.next_frame) in
    let t : seg.first_time -ℤ pos n *ℤ stream.frame_period ≡ stream.first_time =
      omega (int_laws, parts_of_eq _ _ h.next_time) in
    rw (h.same_step, h.same_period, f, t)
      (stamp-append stream.frames_per_sample stream.frame_period _ _ _ _ stream.raw_data
        seg.raw_data h.next_frame h.next_time)

-- Whether or not the segment follows the stream, the segment's samples keep their frames, and the
-- samples are those of the stream followed by those of the segment.
append_segment_frames :
    (stream : DataStream) (seg : DataSegment)
    → let s = append_segment stream seg in
      (s.first_frame_index +ℤ pos (length stream.raw_data * s.frames_per_sample)
        ≡ seg.first_frame_index)
      × (s.raw_data ≡ stream.raw_data ++ seg.raw_data)
unfolding append_segment
append_segment_frames stream seg = (-ℤ-cancel _ _, refl)

-- Trimming to N samples keeps exactly the last N (all, if there are fewer), each at its frame and
-- time, and returns how many are left.
pub entries-trim_keeping_n :
    (stream : DataStream) (n : ℕ)
    → let (s, left) = trim_keeping_n stream n in
      (entries s ≡ drop (length stream.raw_data - n) (entries stream))
      × (left ≡ length s.raw_data)
      × (left ≡ min n (length stream.raw_data))
unfolding trim_keeping_n
entries-trim_keeping_n stream n = elim (Bool-cases (leb (length stream.raw_data) n)) [
  | inl few ↦
      let le = leb→le _ _ few in
      let none_cut : length stream.raw_data - n ≡ 0 = omega (arith, le) in
      rw few (rw none_cut refl, refl, omega (arith, le))
  | inr many ↦
      let some_cut : n < length stream.raw_data = ground arith in
      rw many (
        sym (drop-stamp _ _ _ _ _ _ _ stream.raw_data (omega arith) refl refl),
        omega (arith, length-drop (length stream.raw_data - n) stream.raw_data),
        omega arith,
      )
]
