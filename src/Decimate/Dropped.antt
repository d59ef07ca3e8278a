-- ===== src/Decimate/Dropped.antt =====
-- Decimation by dropping keeps every level-th sample at its time, although it works in place.
use dastard.Base.{
  ℕ, zero, suc, ◌+◌, ◌-◌, ◌*◌, ◌/◌, ◌≤◌, ◌<◌, ◌≡◌, refl, sym, ap, subst, ◌∙◌, true, false, List,
  some, leb, ge→ltb, length, length-set, length-take, get_elem?, get_elem?_lt, get_elem?-set_self,
  get_elem?-set_ne, get_elem?-take, set, take, arith, ok, dec_lt,
}
use dastard.Base.Int.{pos, ◌+ℤ◌, ◌*ℤ◌}
use native.Mathlib.Nat.{div-add-mod, mod-lt, mul-le-mul_left, mul_comm, mul_assoc}
use dastard.Stream.{DataSegment, time_of}
use dastard.Decimate.{n_out, drop_loop, decimate_dropping, has_partial_block}

-- A sample that is kept exists.
kept_lt : (n level i : ℕ) → 0 < level → i < n_out n level → i * level < n
unfolding n_out
kept_lt n level i some_level lt =
    let q : ℕ = (n + level - 1) / level in
    let e = div-add-mod (n + level - 1) level in
    let up : level * (i + 1) ≤ level * q = mul-le-mul_left level (omega arith) in
    omega (arith, e, up, mul_comm level i)

n_out_le : (n level : ℕ) → 0 < level → n_out n level ≤ n
n_out_le n level some_level = elim (dec_lt n (n_out n level)) [
  | yes more ↦
      let lt = kept_lt n level n some_level more in
      absurd (omega (arith, lt, mul-le-mul_left n some_level))
  | no le ↦ omega arith
]

-- The blocks cover all samples.
n_out-covers : (n level : ℕ) → 0 < level → n ≤ n_out n level * level
unfolding n_out
n_out-covers n level some_level =
    let e = div-add-mod (n + level - 1) level in
    omega (arith, e, mod-lt (n + level - 1) some_level, mul_comm level ((n + level - 1) / level))

-- The correction for a partial last block in the averaging mode never applies, for any number of
-- samples and any level.
has_partial_block-never : (n level : ℕ) → 0 < level → has_partial_block n level ≡ false
unfolding has_partial_block
has_partial_block-never n level some_level =
    ge→ltb (n_out n level * level) n (n_out-covers n level some_level)

module _ (level : ℕ) (raw : List ℕ) (some_level : 0 < level) where
  -- After `i` rounds: the first `i` samples are the kept ones, the others as before.
  record IsPartway (i : ℕ) (xs : List ℕ) : Type 0 where
    pub same_length : length xs ≡ length raw
    pub done : (j : ℕ) → j < i → get_elem? xs j ≡ get_elem? raw (j * level)
    pub rest : (j : ℕ) → i ≤ j → get_elem? xs j ≡ get_elem? raw j

  index_le : (i : ℕ) → i ≤ i * level
  index_le i = omega (arith, mul-le-mul_left i some_level)

  one_more :
      (i x : ℕ) (xs : List ℕ)
      → IsPartway i xs
      → i * level < length raw
      → get_elem? raw (i * level) ≡ some x
      → IsPartway (i + 1) (set xs i x)
  one_more i x xs p lt e = record {
    same_length = length-set xs i x ∙ p.same_length;
    done = λ j before. elim (dec_lt j i) [
      | yes earlier ↦ get_elem?-set_ne xs i j x (λ s. omega (arith, s)) ∙ p.done j earlier
      | no not_earlier ↦
          let same : i ≡ j = omega arith in
          let inside : i < length xs = omega (arith, p.same_length, index_le i) in
          rw (sym same) (get_elem?-set_self xs i x inside ∙ sym e)
    ];
    rest = λ j later. get_elem?-set_ne xs i j x (λ s. omega (arith, s)) ∙ p.rest j (omega arith);
  }

  drop_loop-IsPartway :
      (k i : ℕ) (xs : List ℕ)
      → ((j : ℕ) → j < i + k → j * level < length raw)
      → IsPartway i xs
      → (xs' : List ℕ) × (drop_loop k i level xs ≡ ok xs') × IsPartway (i + k) xs'
  unfolding drop_loop
  drop_loop-IsPartway zero i xs inside p =
      let e : i ≡ i + 0 = omega arith in (xs, refl, subst (λ n. IsPartway n xs) e p)
  drop_loop-IsPartway (suc k) i xs inside p =
      let lt = inside i (omega arith) in
      let (x, e) = get_elem?_lt raw (i * level) lt in
      let found : get_elem? xs (i * level) ≡ some x = p.rest (i * level) (index_le i) ∙ e in
      let (xs', r, q) =
        drop_loop-IsPartway k (i + 1) (set xs i x) (λ j b. inside j (omega arith))
          (one_more i x xs p lt e) in
      let count : i + 1 + k ≡ i + suc k = omega arith in
      (xs', rw (found, r), subst (λ n. IsPartway n xs') count q)

-- With decimation on and a level of two or more: the call ends without a panic, leaves a sample for
-- each block of `level`, the last one perhaps partial, and sample `i` is the sample `i * level` of
-- before, at the same time.
pub decimate_dropping_lem :
    (level : ℕ) (seg : DataSegment)
    → 1 < level
    → (seg' : DataSegment) × (decimate_dropping true level seg ≡ ok seg')
      × (length seg'.raw_data ≡ n_out (length seg.raw_data) level)
      × ((i : ℕ)
          → i < length seg'.raw_data
          → (get_elem? seg'.raw_data i ≡ get_elem? seg.raw_data (i * level))
            × (time_of seg' i ≡ time_of seg (i * level)))
unfolding decimate_dropping time_of
decimate_dropping_lem level seg more =
    let nout : ℕ = n_out (length seg.raw_data) level in
    let some_level : 0 < level = omega arith in
    let inside = λ (j : ℕ) (b : j < nout). kept_lt (length seg.raw_data) level j some_level b in
    let begin : IsPartway level seg.raw_data some_level 0 seg.raw_data = record {
      same_length = refl;
      done = λ j b. absurd (omega arith);
      rest = λ j le. refl;
    } in
    let (xs, e, p) =
      drop_loop-IsPartway level seg.raw_data some_level nout 0 seg.raw_data
        (λ j b. inside j (omega arith)) begin in
    let high : leb level 1 ≡ false = ground arith in
    let short : nout ≤ length seg.raw_data = n_out_le (length seg.raw_data) level some_level in
    let all : length (take nout xs) ≡ nout =
      omega (arith, length-take nout xs, p.same_length, short) in
    (
      record seg { raw_data = take nout xs; frames_per_sample = seg.frames_per_sample * level },
      rw (high, e) refl,
      all,
      λ i lt.
          let b : i < nout = omega (arith, all) in
          (
            get_elem?-take nout xs i b ∙ p.done i (omega arith),
            ap (λ (k : ℕ). seg.first_time +ℤ pos k *ℤ seg.frame_period)
                (regroup i seg.frames_per_sample level),
          ),
    )
  where
    regroup : (i f l : ℕ) → i * (f * l) ≡ i * l * f
    regroup i f l = ap (λ (k : ℕ). i * k) (mul_comm f l) ∙ sym (mul_assoc i l f)
