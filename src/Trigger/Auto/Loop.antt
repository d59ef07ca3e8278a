-- ===== src/Trigger/Auto/Loop.antt =====
-- The auto loop ends without a fault, with the records that `Autos` describes.
use mathlib.Core.List.{append_assoc, append-nil}
use dastard.Base.{
  ℕ, zero, suc, ◌+◌, ◌≤◌, ◌<◌, ◌≡◌, sym, ap, ◌∙◌, Bool, true, false, List, [], ◌∷◌, ◌++◌, Option,
  some, arith, ltb→lt, ltb→ge, length, length-map, Outcome, ok, ◌>>=◌, if◌then◌else◌, Bool-cases,
  inl, inr,
}
use dastard.Base.Int.{ℤ, pos, pos_part, ltb_ℤ, leb_ℤ, pos-+ℤ, ◌+ℤ◌, ◌-ℤ◌}
use dastard.Trigger.Greedy.{Apart}
use dastard.Trigger.Records.{max_int64}
use dastard.Trigger.Access.{
  taken, records_at, next_of, next_found-records_at, trigger_at-ok, first_after-ge,
}
use dastard.Trigger.{
  FloatOps, DataRecord, Processor, trigger_at, first_potential_trigger_frame,
  first_potential_auto_trigger_frame, first_after, in_range,
}
use dastard.Trigger.Primary.Sorting.{ordered, ordered-Apart, sorted_after, All-from_zero}
use dastard.Trigger.Edge.Scan.{range_end}
use dastard.Trigger.Level.Scan.{Clear}
use dastard.Trigger.Auto.{auto_vetoed, auto_delay_samples, auto_loop, auto_trigger_compute_append}
use dastard.Trigger.Auto.Scan.{
  Autos, Autos-end, Autos-take, Autos-skip, Autos-jump, auto_vetoed-total, vetoed_on, auto_delay-ge,
}

Apart-zero-Clear : (n lo j : ℕ) (qs : List ℕ) → j + n ≤ lo → Apart 0 lo qs → Clear n qs j
Apart-zero-Clear n lo j [] h a = tt
Apart-zero-Clear n lo j (q ∷ qs) h a =
    (inl (omega (arith, a.0)), Apart-zero-Clear n (q + 0) j qs (omega (arith, a.0)) a.1)

module _ (ops : FloatOps) (d : Processor) where
  abbrev Found : List ℕ → ℕ → List (Option DataRecord) → Outcome (List (Option DataRecord)) → Type 0
  Found qs pot records r =
      (ps : List ℕ) × (r ≡ ok (records ++ records_at ops d ps)) × Autos ops d qs pot ps

  -- The loop's body where the record is allowed.
  Found-test :
      (fuel : ℕ) (qs : List ℕ) (pot : ℕ) (records : List (Option DataRecord)) (b : Bool)
      → auto_vetoed d pot ≡ ok b
      → trigger_at ops d pot ≡ ok (some (taken ops d pot))
      → 0 < d.n_samples
      → pot < range_end d
      → Clear d.n_samples qs pot
      → let to = pot + auto_delay_samples ops d in
        ((rs : List (Option DataRecord))
          → Found qs to rs (auto_loop fuel ops d (records_at ops d qs) (next_of qs) to rs))
        → Found qs pot records (
            if b
            then auto_loop fuel ops d (records_at ops d qs) (next_of qs) to records
            else (trigger_at ops d pot >>= λ r.
                auto_loop fuel ops d (records_at ops d qs) (next_of qs) to (records ++ (r ∷ []))))
  Found-test fuel qs pot records true eb et more lt clear on =
      let (ps, e, a) = on records in (ps, e, Autos-skip ops d qs pot ps (vetoed_on ops d pot eb) a)
  Found-test fuel qs pot records false eb et more lt clear on =
      let (ps, e, a) = on (records ++ (some (taken ops d pot) ∷ [])) in
      rw et (
        pot ∷ ps,
        e ∙ ap ok (append_assoc records (some (taken ops d pot) ∷ []) _),
        Autos-take ops d qs pot ps more lt clear eb a,
      )

  record Ready (fuel pot lo : ℕ) (qs : List ℕ) : Type 0 where
    room_before : d.n_presamples ≤ pot
    presamples_fit : d.n_presamples ≤ d.n_samples
    some_samples : 0 < d.n_samples
    sorted : Apart 0 lo qs
    late : pot ≤ lo + auto_delay_samples ops d
    small : length d.stream.raw_data + d.n_presamples < 0x7fff_ffff_ffff_ffff
    enough : length d.stream.raw_data + d.n_presamples + length qs < fuel + pot
    more : 0 < fuel

  on :
      (fuel pot lo : ℕ) (qs : List ℕ)
      → pot + d.n_samples < length d.stream.raw_data + d.n_presamples
      → pot ≤ lo
      → Ready (suc fuel) pot lo qs
      → Ready fuel (pot + auto_delay_samples ops d) lo qs
  on fuel pot lo qs lt ahead r =
      let ge = auto_delay-ge ops d in
      record {
        room_before = omega (arith, r.room_before);
        presamples_fit = r.presamples_fit;
        some_samples = r.some_samples;
        sorted = r.sorted;
        late = omega arith;
        small = r.small;
        enough = omega (arith, r.enough, r.some_samples);
        more = omega (arith, r.enough, r.some_samples);
      }

  past :
      (fuel pot lo q : ℕ) (qs : List ℕ)
      → pot + d.n_samples < length d.stream.raw_data + d.n_presamples
      → Ready (suc fuel) pot lo (q ∷ qs)
      → Ready fuel (q + auto_delay_samples ops d) q qs
  past fuel pot lo q qs lt r =
      let ge = auto_delay-ge ops d in
      let zero_gap : q + 0 ≡ q = omega arith in
      record {
        room_before = omega (arith, r.presamples_fit);
        presamples_fit = r.presamples_fit;
        some_samples = r.some_samples;
        sorted = rw zero_gap at r.sorted.1;
        late = omega arith;
        small = r.small;
        enough = omega (arith, r.enough, r.late, r.sorted.0);
        more = omega (arith, r.enough, r.some_samples);
      }

  higher : (fuel pot lo : ℕ) → Ready fuel pot lo [] → Ready fuel pot (lo + pot) []
  higher fuel pot lo r = record {
    room_before = r.room_before;
    presamples_fit = r.presamples_fit;
    some_samples = r.some_samples;
    sorted = tt;
    late = omega arith;
    small = r.small;
    enough = r.enough;
    more = r.more;
  }

  -- With a trigger ahead the bound is that trigger.
  nearer :
      (fuel pot lo q : ℕ) (qs : List ℕ) → Ready fuel pot lo (q ∷ qs) → Ready fuel pot q (q ∷ qs)
  nearer fuel pot lo q qs r = record {
    room_before = r.room_before;
    presamples_fit = r.presamples_fit;
    some_samples = r.some_samples;
    sorted = (omega arith, r.sorted.1);
    late = omega (arith, r.late, r.sorted.0);
    small = r.small;
    enough = r.enough;
    more = r.more;
  }

  auto_loop-Found :
      (fuel pot lo : ℕ) (qs : List ℕ) (records : List (Option DataRecord))
      → Ready fuel pot lo qs
      → Found qs pot records (auto_loop fuel ops d (records_at ops d qs) (next_of qs) pot records)
  unfolding auto_loop
  auto_loop-Found zero pot lo qs records r = absurd (omega (arith, r.more))
  auto_loop-Found (suc fuel) pot lo [] records r = elim (Bool-cases (in_range d pot)) [
    | inr out ↦ rw out (
      [],
      ap ok (sym (append-nil records)),
      Autos-end ops d [] pot (omega (arith, ltb→ge _ _ out)),
    )
    | inl inside ↦
        let lt = ltb→lt _ _ inside in
        let far : leb_ℤ (pos (pot + d.n_samples)) max_int64 ≡ true = ground (arith, r.small) in
        let (b, eb) = auto_vetoed-total d pot r.some_samples r.room_before (omega arith) in
        rw inside (
          rw far (
            rw eb (
              Found-test fuel [] pot records b eb
                (trigger_at-ok ops d pot r.room_before (omega arith)) r.some_samples (omega arith)
                tt
                (λ rs.
                  auto_loop-Found fuel (pot + auto_delay_samples ops d) (lo + pot) [] rs
                    (on fuel pot (lo + pot) [] lt (omega arith) (higher (suc fuel) pot lo r))))))
  ]
  auto_loop-Found (suc fuel) pot lo (q ∷ qs) records r = elim (Bool-cases (in_range d pot)) [
    | inr out ↦ rw out (
      [],
      ap ok (sym (append-nil records)),
      Autos-end ops d (q ∷ qs) pot (omega (arith, ltb→ge _ _ out)),
    )
    | inl inside ↦
        let lt = ltb→lt _ _ inside in
        elim (Bool-cases (leb_ℤ (pos (pot + d.n_samples)) (pos q))) [
          | inl far ↦
              let ahead : pot + d.n_samples ≤ q = ground arith in
              let (b, eb) = auto_vetoed-total d pot r.some_samples r.room_before (omega arith) in
              rw inside (
                rw far (
                  rw eb (
                    Found-test fuel (q ∷ qs) pot records b eb
                      (trigger_at-ok ops d pot r.room_before (omega arith)) r.some_samples
                      (omega arith)
                      (Apart-zero-Clear d.n_samples q pot (q ∷ qs) ahead
                        (nearer _ pot lo q qs r).sorted)
                      (λ rs.
                        auto_loop-Found fuel (pot + auto_delay_samples ops d) q (q ∷ qs) rs
                          (on fuel pot q (q ∷ qs) lt (omega arith) (nearer _ pot lo q qs r))))))
          | inr near ↦
              let below : q < pot + d.n_samples = ground arith in
              let delay = auto_delay_samples ops d in
              let to : pos q +ℤ pos delay ≡ pos (q + delay) = pos-+ℤ q delay in
              let (ps, e, a) =
                auto_loop-Found fuel (q + delay) q qs records (past fuel pot lo q qs lt r) in
              rw inside (
                rw near (
                  rw (next_found-records_at ops d qs, to)
                    (
                      ps,
                      e,
                      Autos-jump ops d q qs pot ps below (omega (arith, r.late, r.sorted.0)) a,
                    )))
        ]
  ]

auto_start :
    (ops : FloatOps) (d : Processor)
    → first_potential_auto_trigger_frame ops d ≡ first_after d (pos (auto_delay_samples ops d))
unfolding first_potential_auto_trigger_frame auto_delay_samples
auto_start ops d = same (ops.delay_samples d.auto_delay d.sample_rate)
  where
    same :
        (z : ℤ)
        → first_after d (if ltb_ℤ (pos d.n_samples) z then z else pos d.n_samples)
          ≡ first_after d (pos (if ltb_ℤ z (pos d.n_samples) then d.n_samples else pos_part z))
    same z = ap (first_after d) (ground arith)

first_after-late : (d : Processor) (m n : ℕ) → first_after d (pos m) ≤ first_after d (pos n) + m
unfolding first_after ◌+ℤ◌
first_after-late d m n = shift (d.last_trigger -ℤ d.stream.first_frame_index)
  where
    shift :
        (x : ℤ)
        → (if ltb_ℤ (x +ℤ pos m) (pos d.n_presamples)
            then d.n_presamples
            else pos_part (x +ℤ pos m))
          ≤ (if ltb_ℤ (x +ℤ pos n) (pos d.n_presamples)
              then d.n_presamples
              else pos_part (x +ℤ pos n))
            + m
    shift x = ground arith

pub auto_trigger_compute_append_lem :
    (ops : FloatOps) (d : Processor) (qs : List ℕ)
    → d.n_presamples ≤ d.n_samples
    → 0 < d.n_samples
    → length d.stream.raw_data + d.n_presamples < 0x7fff_ffff_ffff_ffff
    → Apart 0 (first_potential_trigger_frame d) qs
    → d.auto_trigger ≡ true
    → (ps : List ℕ) × (auto_trigger_compute_append ops d (records_at ops d qs)
        ≡ ok (records_at ops d (ordered (qs ++ ps))))
      × Apart 0 0 (ordered (qs ++ ps))
      × Autos ops d qs (first_potential_auto_trigger_frame ops d) ps
unfolding auto_trigger_compute_append
auto_trigger_compute_append_lem ops d qs hn more small sorted on =
    let start : d.n_presamples ≤ first_potential_auto_trigger_frame ops d =
      rw (auto_start ops d) (first_after-ge d (pos (auto_delay_samples ops d))) in
    let late : first_potential_auto_trigger_frame ops d
        ≤ first_potential_trigger_frame d + auto_delay_samples ops d =
      rw (auto_start ops d) (
        unfold first_potential_trigger_frame in
        first_after-late d (auto_delay_samples ops d) d.n_samples) in
    let count : length (records_at ops d qs) ≡ length qs =
      length-map qs (λ p. some (taken ops d p)) in
    let fuel : ℕ = length d.stream.raw_data + d.n_presamples + length (records_at ops d qs) + 1 in
    let (ps, e, a) =
      auto_loop-Found ops d fuel _ (first_potential_trigger_frame d) qs (records_at ops d qs)
        (record {
          room_before = start;
          presamples_fit = hn;
          some_samples = more;
          sorted = sorted;
          late = late;
          small = small;
          enough = omega arith;
          more = omega arith;
        }) in
    (
      ps,
      simp (on, next_found-records_at, e) (sorted_after ops d qs ps),
      ordered-Apart 0 (qs ++ ps) (All-from_zero (qs ++ ps)),
      a,
    )
