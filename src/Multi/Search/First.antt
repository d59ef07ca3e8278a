-- ===== src/Multi/Search/First.antt =====
-- edgeMultiFindNextTriggerInd returns, and finds the first trigger of its range.
use dastard.Base.{
  ℕ, zero, suc, ◌+◌, ◌-◌, ◌≤◌, ◌<◌, ◌≡◌, refl, sym, ◌∙◌, ◌⊎◌, inl, inr, Bool, true, false, not,
  ◌||◌, List, ltb, ge→ltb, if◌then◌else◌, arith, length, get_elem?_lt, Outcome, ok, Bool-cases,
  dec_lt,
}
use dastard.Base.Int.{ℤ, pos, ◌≤ℤ◌, leb_ℤ, pos-+ℤ}
use dastard.Floats.{FloatOps}
use dastard.Multi.{read, zero_threshold, samples_around}
use dastard.Multi.Search.{NextTriggerInd, monotone_run, step_hit, find_loop, find_next_trigger_ind}

read-ok : (raw : List ℕ) (i : ℕ) → i < length raw → (x : ℕ) × (read raw i ≡ ok x)
unfolding read
read-ok raw i lt = let (x, e) = get_elem?_lt raw i lt in (x, rw (e, read) refl)

-- The inner loop returns a count between one and its limit.
monotone_run-total :
    (fuel : ℕ) (rising : Bool) (raw : List ℕ) (i j m : ℕ)
    → 1 ≤ j
    → j ≤ m
    → m < fuel + j
    → i + m < length raw
    → (k : ℕ) × (monotone_run fuel rising raw i j (pos m) ≡ ok k) × (j ≤ k) × (k ≤ m)
unfolding monotone_run
monotone_run-total zero rising raw i j m h1 h2 hf h = absurd (omega arith)
monotone_run-total (suc fuel) rising raw i j m h1 h2 hf h =
    let (x, ex) = read-ok raw (i + j) (omega arith) in
    let (y, ey) = read-ok raw (i + j - 1) (omega arith) in
    rw (ex, ey)
      (elim (Bool-cases (not (if rising then ltb y x else ltb x y) || leb_ℤ (pos m) (pos j))) [
        | inl done ↦ rw done (j, refl, omega arith, h2)
        | inr on ↦
            let lt : j < m = ground arith in
            let (k, e, a, b) =
              monotone_run-total fuel rising raw i (j + 1) m (omega arith) (omega arith)
                (omega arith) h in
            rw on (k, e, omega (arith, a), b)
      ])

step_hit-total :
    (raw : List ℕ) (i : ℕ) (threshold : ℤ)
    → 1 ≤ i
    → i < length raw
    → (b : Bool) × (step_hit raw i threshold ≡ ok b)
unfolding step_hit
step_hit-total raw i threshold h lt =
    let (x, ex) = read-ok raw i lt in
    let (y, ey) = read-ok raw (i - 1) (omega arith) in
    let back : ltb i 1 ≡ false = ge→ltb i 1 h in rw back (rw (ex, ey) (_, refl))

samples_around-total :
    (raw : List ℕ) (i n : ℕ) → i + n ≤ length raw → (xs : List ℕ) × (samples_around raw i n ≡ ok xs)
unfolding samples_around
samples_around-total raw i zero h = (_, refl)
samples_around-total raw i (suc n) h =
    let (x, ex) = read-ok raw i (omega arith) in
    let (xs, exs) = samples_around-total raw (i + 1) n (omega arith) in rw ex (rw exs (_, refl))

zero_threshold-total :
    (ops : FloatOps) (raw : List ℕ) (i : ℕ) (enable : Bool)
    → 4 ≤ i
    → i + 4 ≤ length raw
    → (k : ℤ) × (zero_threshold ops raw i enable ≡ ok k)
unfolding zero_threshold
zero_threshold-total ops raw i false h lt = (_, refl)
zero_threshold-total ops raw i true h lt =
    let back : ltb i 4 ≡ false = ge→ltb i 4 h in
    let (xs, e) = samples_around-total raw (i - 4) 8 (omega arith) in rw back (rw e (_, refl))

module _ (ops : FloatOps) (raw : List ℕ) (i_last m : ℕ) (threshold nmonotone : ℤ)
    (enable : Bool) where
  -- A trigger at `i`: the step passes the threshold, and `k` samples from there are monotone.
  abbrev pub IsTrigger : ℕ → ℕ → Type 0
  IsTrigger i k =
      (step_hit raw i threshold ≡ ok true)
      × (monotone_run (m + 1) (leb_ℤ (pos 1) threshold) raw i 1 (pos m) ≡ ok k)
      × (nmonotone ≤ℤ pos k)

  -- What the search from `i` returns: the first trigger, or that there is none up to `i_last`.
  abbrev pub FirstFrom : ℕ → NextTriggerInd → Type 0
  FirstFrom i x =
      ((x.trigger_found ≡ false)
        × (pos (i_last + 1) ≤ℤ x.next_i_first)
        × ((j k : ℕ) → i ≤ j → j ≤ i_last → ¬ IsTrigger j k))
      ⊎ ((x.trigger_found ≡ true)
          × ((p : ℕ) × (k : ℕ) × (i ≤ p)
              × (p ≤ i_last)
              × IsTrigger p k
              × ((j n : ℕ) → i ≤ j → j < p → ¬ IsTrigger j n)
              × (zero_threshold ops raw p enable ≡ ok x.trigger_ind)
              × (x.next_i_first ≡ pos (p + k + 1))))

  from_next :
      (i : ℕ) (R : ℕ → Type 0)
      → ((k : ℕ) → ¬ IsTrigger i k)
      → ((j k : ℕ) → i + 1 ≤ j → R j → ¬ IsTrigger j k)
      → (j k : ℕ) → i ≤ j
      → R j
      → ¬ IsTrigger j k
  from_next i R miss rest j k le r = elim (dec_lt i j) [
    | yes lt ↦ rest j k (omega arith) r
    | no nlt ↦ let e : i ≡ j = omega arith in rw e at (miss k)
  ]

  FirstFrom-skip :
      (i : ℕ) (x : NextTriggerInd)
      → ((k : ℕ) → ¬ IsTrigger i k)
      → FirstFrom (i + 1) x
      → FirstFrom i x
  FirstFrom-skip i x miss (inl (e, n, rest)) = inl (
    e,
    n,
    λ j k le up. from_next i (λ j. j ≤ i_last) miss (λ j k le up. rest j k le up) j k le up,
  )
  FirstFrom-skip i x miss (inr (e, (p, k, le, up, t, first, z, n))) = inr (
    e,
    (
      p,
      k,
      omega (arith, le),
      up,
      t,
      λ j n le lt. from_next i (λ j. j < p) miss (λ j n le lt. first j n le lt) j n le lt,
      z,
      n,
    ),
  )

  ok-injective : (a b : ℕ) → ◌≡◌ {A = Outcome ℕ} (ok a) (ok b) → a ≡ b
  ok-injective a b e = cc

  -- One round of the loop, with the outcomes of its calls.
  decided :
      (i k : ℕ) (z : ℤ) (x : NextTriggerInd) (b : Bool)
      → step_hit raw i threshold ≡ ok b
      → monotone_run (m + 1) (leb_ℤ (pos 1) threshold) raw i 1 (pos m) ≡ ok k
      → zero_threshold ops raw i enable ≡ ok z
      → FirstFrom (i + 1) x
      → i ≤ i_last
      → (x' : NextTriggerInd) × ((if b
            then (if leb_ℤ nmonotone (pos k)
                then ok (record {
                  trigger_ind = z;
                  trigger_found = true;
                  next_i_first = pos (i + k + 1);
                })
                else ok x)
            else ok x)
          ≡ ok x')
        × FirstFrom i x'
  decided i k z x false eb ek ez first le = (x, refl, FirstFrom-skip i x (λ n t. cc (t.0)) first)
  decided i k z x true eb ek ez first le = elim (Bool-cases (leb_ℤ nmonotone (pos k))) [
    | inl enough ↦ rw enough (
      _,
      refl,
      inr (
        refl,
        (
          i,
          k,
          omega arith,
          le,
          (eb, ek, ground arith),
          λ j n a lt t. absurd (omega arith),
          ez,
          refl,
        ),
      ),
    )
    | inr few ↦ rw few (
      x,
      refl,
      FirstFrom-skip i x (λ n t. let same = ok-injective k n (sym ek ∙ t.1) in ground (arith, t.2))
          first,
    )
  ]

  module _ (i_first : ℕ) where
    find_loop-First :
        (fuel i : ℕ)
        → 4 ≤ i
        → 3 ≤ m
        → i_last + m < length raw
        → i_last + 1 < fuel + i
        → 0 < fuel
        → (x : NextTriggerInd) × (find_loop fuel ops raw i_first i
              (pos i_last)
              threshold
              nmonotone
              (pos m)
              enable
            ≡ ok x)
          × FirstFrom i x
    unfolding find_loop
    find_loop-First zero i h4 hm hl hf more = elim more [ ]
    find_loop-First (suc fuel) i h4 hm hl hf more = elim (Bool-cases (leb_ℤ (pos i) (pos i_last))) [
      | inr out ↦
          rw out (
            _,
            refl,
            inl (refl, ground (arith, pos-+ℤ i_last 1), λ j k le up. absurd (ground arith)),
          )
      | inl inside ↦
          let le : i ≤ i_last = ground arith in
          let (b, eb) = step_hit-total raw i threshold (omega arith) (omega arith) in
          let (k, ek, _, _) =
            monotone_run-total (m + 1) (leb_ℤ (pos 1) threshold) raw i 1 m (omega arith)
              (omega arith) (omega arith) (omega arith) in
          let (z, ez) = zero_threshold-total ops raw i enable h4 (omega arith) in
          let (x, ex, first) =
            find_loop-First fuel (i + 1) (omega arith) hm hl (omega arith) (omega arith) in
          rw inside (rw (eb, ek, ez, ex) (decided i k z x b eb ek ez first le))
    ]

-- With at least four samples before the start and three of lookahead, and data that reach the
-- lookahead past the last index: the search returns; it says that no trigger stands in the range
-- and goes on past the range, or gives the first trigger with the adjusted index and goes on past
-- its monotone samples.
pub find_next_trigger_ind_lem :
    (ops : FloatOps) (raw : List ℕ) (i_first i_last m : ℕ) (threshold nmonotone : ℤ) (enable : Bool)
    → 4 ≤ i_first
    → 3 ≤ m
    → i_last + m < length raw
    → (x : NextTriggerInd) × (find_next_trigger_ind ops raw i_first
          (pos i_last)
          threshold
          nmonotone
          (pos m)
          enable
        ≡ ok x)
      × FirstFrom ops raw i_last m threshold nmonotone enable i_first x
unfolding find_next_trigger_ind
find_next_trigger_ind_lem ops raw i_first i_last m threshold nmonotone enable h4 hm hl =
    find_loop-First ops raw i_last m threshold nmonotone enable i_first (i_last + 2) i_first h4 hm
      hl (omega arith) (omega arith)
