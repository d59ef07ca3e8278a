-- ===== src/Trigger/Auto/Scan.antt =====
-- The auto scan keeps clear of the records found before, and leaves no gap longer than the delay.
use dastard.Base.{
  ℕ, ◌+◌, ◌-◌, ◌≤◌, ◌<◌, ◌≡◌, ◌≢◌, refl, Bool, true, false, List, [], ◌∷◌, All, All-imp, ◌⊎◌, arith,
  ltb, leb, le→leb, ltb→lt, dec_lt, length, take, drop, length-take, length-drop, fault, ok,
  if◌then◌else◌, Bool-cases, inl, inr,
}
use dastard.Trigger.Greedy.{Apart}
use dastard.Trigger.{FloatOps, Processor, slice}
use dastard.Trigger.Edge.Scan.{range_end}
use dastard.Trigger.Level.Scan.{Clear}
use dastard.Trigger.Auto.{auto_vetoed, spread, auto_delay_samples}

abbrev pub Any : (ℕ → Type 0) → List ℕ → Type 0
Any P [] = ⊥
Any P (x ∷ xs) = P x ⊎ Any P xs

pub auto_delay-ge : (ops : FloatOps) (d : Processor) → d.n_samples ≤ auto_delay_samples ops d
unfolding auto_delay_samples
auto_delay-ge ops d = ground arith

pub auto_vetoed-total :
    (d : Processor) (i : ℕ)
    → 0 < d.n_samples
    → d.n_presamples ≤ i
    → i + d.n_samples ≤ length d.stream.raw_data + d.n_presamples
    → (b : Bool) × (auto_vetoed d i ≡ ok b)
unfolding auto_vetoed slice
auto_vetoed-total d i h le fits =
    let e : i - d.n_presamples + d.n_samples ≤ length d.stream.raw_data = omega arith in
    let window = take d.n_samples (drop (i - d.n_presamples) d.stream.raw_data) in
    let full : 0 < length window = omega (
      arith,
      length-take d.n_samples (drop (i - d.n_presamples) d.stream.raw_data),
      length-drop (i - d.n_presamples) d.stream.raw_data,
    ) in
    let (x, xs, w) = cons-of window full in
    rw (le→leb _ _ e) (decided (ltb 0 d.auto_veto_range) window x xs w)
  where
    cons-of : (l : List ℕ) → 0 < length l → (x : ℕ) × (xs : List ℕ) × (l ≡ x ∷ xs)
    cons-of [] more = elim more [ ]
    cons-of (x ∷ xs) more = (x, xs, refl)

    decided :
        (on : Bool) (l : List ℕ) (x : ℕ) (xs : List ℕ)
        → l ≡ x ∷ xs
        → (b : Bool) × ((if on
              then elim l [ [] ↦ fault | x ∷ xs ↦ ok (leb d.auto_veto_range (spread x x xs)) ]
              else ok false)
            ≡ ok b)
    decided false l x xs w = (false, refl)
    decided true l x xs w = (leb d.auto_veto_range (spread x x xs), rw w)

-- A trigger less than `delay` before `j`, or less than a record after it.
abbrev pub Near : ℕ → ℕ → ℕ → ℕ → Type 0
Near delay n j t = (j < t + delay) × (t < j + n)

module _ (ops : FloatOps) (d : Processor) where
  abbrev pub IsOpen : List ℕ → ℕ → ℕ → Type 0
  IsOpen qs pot p =
      (pot ≤ p) × (p < range_end d) × Clear d.n_samples qs p × (auto_vetoed d p ≡ ok false)

  abbrev pub IsCovered : List ℕ → List ℕ → ℕ → Type 0
  IsCovered qs ps j =
      Any (Near (auto_delay_samples ops d) d.n_samples j) ps
      ⊎ Any (Near (auto_delay_samples ops d) d.n_samples j) qs

  -- The outcome of a scan from `pot` on that has the triggers `qs` before it.
  pub record Autos (qs : List ℕ) (pot : ℕ) (ps : List ℕ) : Type 0 where
    pub open_ones : All (IsOpen qs pot) ps
    pub spaced : Apart (auto_delay_samples ops d) pot ps
    pub covered : d.auto_veto_range ≡ 0 → (j : ℕ) → pot ≤ j → j < range_end d → IsCovered qs ps j

  pub vetoed_on : (i : ℕ) → auto_vetoed d i ≡ ok true → d.auto_veto_range ≢ 0
  unfolding auto_vetoed
  vetoed_on i e z = elim (Bool-cases (ltb 0 d.auto_veto_range)) [
    | inl on ↦ omega (arith, z, ltb→lt _ _ on)
    | inr off ↦ let e' = rw off at e in cc
  ]

  Apart-weaken : (gap lo m : ℕ) (ps : List ℕ) → m ≤ lo → Apart gap lo ps → Apart gap m ps
  Apart-weaken gap lo m [] h a = tt
  Apart-weaken gap lo m (p ∷ ps) h a = (omega (arith, a.0), a.1)

  pub Autos-end : (qs : List ℕ) (pot : ℕ) → range_end d ≤ pot → Autos qs pot []
  Autos-end qs pot h = record {
    open_ones = tt;
    spaced = tt;
    covered = λ _ j le lt. absurd (omega arith);
  }

  pub Autos-take :
      (qs : List ℕ) (pot : ℕ) (ps : List ℕ)
      → 0 < d.n_samples
      → pot < range_end d
      → Clear d.n_samples qs pot
      → auto_vetoed d pot ≡ ok false
      → Autos qs (pot + auto_delay_samples ops d) ps
      → Autos qs pot (pot ∷ ps)
  Autos-take qs pot ps more lt clear quiet a = record {
    open_ones = (
      (omega arith, lt, clear, quiet),
      All-imp (IsOpen qs (pot + auto_delay_samples ops d)) (IsOpen qs pot)
          (λ p o. (omega (arith, o.0), o.1, o.2, o.3)) ps a.open_ones,
    );
    spaced = (omega arith, a.spaced);
    covered = λ z j le below. elim (dec_lt j (pot + auto_delay_samples ops d)) [
      | yes near ↦ inl (inl (near, omega arith))
      | no far ↦ later (a.covered z j (omega arith) below)
    ];
  }
    where
      later : {j : ℕ} → IsCovered qs ps j → IsCovered qs (pot ∷ ps) j
      later (inl c) = inl (inr c)
      later (inr c) = inr c

  pub Autos-skip :
      (qs : List ℕ) (pot : ℕ) (ps : List ℕ)
      → d.auto_veto_range ≢ 0
      → Autos qs (pot + auto_delay_samples ops d) ps
      → Autos qs pot ps
  Autos-skip qs pot ps on a = record {
    open_ones =
        All-imp (IsOpen qs (pot + auto_delay_samples ops d)) (IsOpen qs pot)
          (λ p o. (omega (arith, o.0), o.1, o.2, o.3)) ps a.open_ones;
    spaced = Apart-weaken _ _ pot ps (omega arith) a.spaced;
    covered = λ z j le below. absurd (on z);
  }

  pub Autos-jump :
      (q : ℕ) (qs : List ℕ) (pot : ℕ) (ps : List ℕ)
      → q < pot + d.n_samples
      → pot ≤ q + auto_delay_samples ops d
      → Autos qs (q + auto_delay_samples ops d) ps
      → Autos (q ∷ qs) pot ps
  Autos-jump q qs pot ps near le a = record {
    open_ones =
        All-imp (IsOpen qs (q + auto_delay_samples ops d)) (IsOpen (q ∷ qs) pot)
          (λ p o.
            (omega (arith, o.0), o.1, (inr (omega (arith, o.0, auto_delay-ge ops d)), o.2), o.3))
          ps a.open_ones;
    spaced = Apart-weaken _ _ pot ps le a.spaced;
    covered = λ z j le' below. elim (dec_lt j (q + auto_delay_samples ops d)) [
      | yes by ↦ inr (inl (by, omega arith))
      | no far ↦ later (a.covered z j (omega arith) below)
    ];
  }
    where
      later : {j : ℕ} → IsCovered qs ps j → IsCovered (q ∷ qs) ps j
      later (inl c) = inl c
      later (inr c) = inr (inr c)
