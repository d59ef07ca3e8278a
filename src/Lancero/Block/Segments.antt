-- ===== src/Lancero/Block/Segments.antt =====
-- The segments of a block: each feedback channel is mixed with its own error channel.
use dastard.Base.{
  ℕ, zero, suc, ◌+◌, ◌-◌, ◌*◌, ◌%◌, ◌≤◌, ◌<◌, ◌≡◌, refl, sym, ap, ◌∙◌, ◌==◌, Bool, true, false,
  List, [], ◌∷◌, some, length, set, get_elem?, get_elem?-set_self, get_elem?-set_ne, arith, ok,
  dec_lt, get_elem?_ge,
}
use dastard.Stream.{DataSegment}
use dastard.Mix.{Mix, MixOps, mix_retard_fb}
use dastard.Packets.{value}
use dastard.Lancero.External.Rises.{stream_at-some}
use dastard.Lancero.Block.{Mixed, order_at, mix_at, channel_data, segment_loop}

order_at-some : (l : List ℕ) (i r : ℕ) → get_elem? l i ≡ some r → order_at l i ≡ value r
order_at-some l i r e = rw (e, order_at) refl

mix_at-some : (l : List Mix) (i : ℕ) (m : Mix) → get_elem? l i ≡ some m → mix_at l i ≡ value m
mix_at-some l i m e = rw (e, mix_at) refl

-- The first `n` pairs of channels are read out as different pairs.
pub record IsPaired (order : List ℕ) (n : ℕ) (place : ℕ → ℕ) : Type 0 where
  pub errors : (p : ℕ) → p < n → get_elem? order (p * 2) ≡ some (place p * 2)
  pub feedbacks : (p : ℕ) → p < n → get_elem? order (p * 2 + 1) ≡ some (place p * 2 + 1)
  pub distinct : (p q : ℕ) → p < n → q < n → place p ≡ place q → p ≡ q

-- The error and feedback of the pairs from `p` on, with their mixers and what the mixing makes of
-- them.
pub record IsLoaded (ops : MixOps) (place : ℕ → ℕ) (err fb : ℕ → List ℕ) (mix : ℕ → Mix)
    (done : ℕ → Mix × List ℕ) (p n : ℕ) (m : Mixed) : Type 0 where
  pub errors : (q : ℕ) → p ≤ q → q < n → get_elem? m.copies (place q * 2) ≡ some (err q)
  pub feedbacks : (q : ℕ) → p ≤ q → q < n → get_elem? m.copies (place q * 2 + 1) ≡ some (fb q)
  pub mixers : (q : ℕ) → p ≤ q → q < n → get_elem? m.mixers (q * 2 + 1) ≡ some (mix q)
  pub mixing : (q : ℕ) → p ≤ q → q < n → mix_retard_fb ops (mix q) (fb q) (err q) ≡ ok (done q)

-- The segments and the mixers of the pairs from `p` on; the mixers before stay.
pub record AreMixed (make : Bool → List ℕ → DataSegment) (err : ℕ → List ℕ)
    (done : ℕ → Mix × List ℕ) (p n : ℕ) (old : List Mix) (segs : List DataSegment) (new : List Mix)
    : Type 0 where
  pub errors : (t : ℕ) → p + t < n → get_elem? segs (t * 2) ≡ some (make false (err (p + t)))
  pub feedbacks :
      (t : ℕ) → p + t < n → get_elem? segs (t * 2 + 1) ≡ some (make true (done (p + t)).1)
  pub mixers : (q : ℕ) → p ≤ q → q < n → get_elem? new (q * 2 + 1) ≡ some (done q).0
  pub before : (i : ℕ) → i < p * 2 → get_elem? new i ≡ get_elem? old i

-- Every second entry of a list, after two more at its head.
cons_evens :
    (a b : DataSegment) (l : List DataSegment) (f : ℕ → DataSegment) (p n : ℕ)
    → a ≡ f p
    → ((t : ℕ) → p + 1 + t < n → get_elem? l (t * 2) ≡ some (f (p + 1 + t)))
    → (t : ℕ) → p + t < n
    → get_elem? (a ∷ (b ∷ l)) (t * 2) ≡ some (f (p + t))
cons_evens a b l f p n e h zero ht = let z : p ≡ p + 0 = omega arith in ap some (e ∙ ap f z)
cons_evens a b l f p n e h (suc t) ht =
    let two : suc t * 2 ≡ suc (suc (t * 2)) = omega arith in
    let z : p + 1 + t ≡ p + suc t = omega arith in
    rw two (h t (omega (arith, ht)) ∙ ap (λ (x : ℕ). some (f x)) z)

cons_odds :
    (a b : DataSegment) (l : List DataSegment) (f : ℕ → DataSegment) (p n : ℕ)
    → b ≡ f p
    → ((t : ℕ) → p + 1 + t < n → get_elem? l (t * 2 + 1) ≡ some (f (p + 1 + t)))
    → (t : ℕ) → p + t < n
    → get_elem? (a ∷ (b ∷ l)) (t * 2 + 1) ≡ some (f (p + t))
cons_odds a b l f p n e h zero ht = let z : p ≡ p + 0 = omega arith in ap some (e ∙ ap f z)
cons_odds a b l f p n e h (suc t) ht =
    let two : suc t * 2 + 1 ≡ suc (suc (t * 2 + 1)) = omega arith in
    let z : p + 1 + t ≡ p + suc t = omega arith in
    rw two (h t (omega (arith, ht)) ∙ ap (λ (x : ℕ). some (f x)) z)

lt_of_some : (l : List Mix) (i : ℕ) (m : Mix) → get_elem? l i ≡ some m → i < length l
lt_of_some l i m e = elim (dec_lt i (length l)) [
  | yes h ↦ h
  | no h ↦ let out = get_elem?_ge l i (omega (arith, h)) in cc
]

module _ (ops : MixOps) (make : Bool → List ℕ → DataSegment) (order : List ℕ) (place : ℕ → ℕ)
    (err fb : ℕ → List ℕ) (mix : ℕ → Mix) (done : ℕ → Mix × List ℕ) (n : ℕ) where
  -- The state after the pair `p`.
  mixed_pair : ℕ → Mixed → Mixed
  mixed_pair p m = record {
    copies = set m.copies (place p * 2 + 1) (done p).1;
    mixers = set m.mixers (p * 2 + 1) (done p).0;
  }

  mixed_pair-IsLoaded :
      (p : ℕ) (m : Mixed)
      → IsPaired order n place
      → p < n
      → IsLoaded ops place err fb mix done p n m
      → IsLoaded ops place err fb mix done (p + 1) n (mixed_pair p m)
  unfolding mixed_pair
  mixed_pair-IsLoaded p m h hp l = record {
    errors = λ q a b.
        get_elem?-set_ne m.copies (place p * 2 + 1) (place q * 2) (done p).1
          (λ e. absurd (omega (arith, e)))
        ∙ l.errors q (omega (arith, a)) b;
    feedbacks = λ q a b.
        get_elem?-set_ne m.copies (place p * 2 + 1) (place q * 2 + 1) (done p).1
          (λ e. absurd (omega (arith, a, h.distinct p q hp b (omega (arith, e)))))
        ∙ l.feedbacks q (omega (arith, a)) b;
    mixers = λ q a b.
        get_elem?-set_ne m.mixers (p * 2 + 1) (q * 2 + 1) (done p).0
          (λ e. absurd (omega (arith, a, e)))
        ∙ l.mixers q (omega (arith, a)) b;
    mixing = λ q a b. l.mixing q (omega (arith, a)) b;
  }

  error_data :
      (p : ℕ) (m : Mixed)
      → IsPaired order n place
      → p < n
      → IsLoaded ops place err fb mix done p n m
      → channel_data ops order (p * 2) (p * 2 % 2 == 1) m ≡ value (err p, m)
  unfolding channel_data
  error_data p m h hp l =
      let even : (p * 2 % 2 == 1) ≡ false = ground arith in
      rw
        (
          even,
          order_at-some order (p * 2) (place p * 2) (h.errors p hp),
          stream_at-some m.copies (place p * 2) (err p) (l.errors p (omega arith) hp),
        )
        refl

  feedback_data :
      (p : ℕ) (m : Mixed)
      → IsPaired order n place
      → p < n
      → IsLoaded ops place err fb mix done p n m
      → channel_data ops order (p * 2 + 1) ((p * 2 + 1) % 2 == 1) m
        ≡ value ((done p).1, mixed_pair p m)
  unfolding channel_data mixed_pair
  feedback_data p m h hp l =
      let odd : ((p * 2 + 1) % 2 == 1) ≡ true = ground arith in
      let before : p * 2 + 1 - 1 ≡ p * 2 = omega arith in
      rw
        (
          odd,
          before,
          order_at-some order (p * 2 + 1) (place p * 2 + 1) (h.feedbacks p hp),
          stream_at-some m.copies (place p * 2 + 1) (fb p) (l.feedbacks p (omega arith) hp),
          mix_at-some m.mixers (p * 2 + 1) (mix p) (l.mixers p (omega arith) hp),
          order_at-some order (p * 2) (place p * 2) (h.errors p hp),
          stream_at-some m.copies (place p * 2) (err p) (l.errors p (omega arith) hp),
          l.mixing p (omega arith) hp,
        )
        refl

  cons_pair :
      (p : ℕ) (m : Mixed) (segs : List DataSegment) (new : List Mix)
      → p < n
      → IsLoaded ops place err fb mix done p n m
      → AreMixed make err done (p + 1) n (mixed_pair p m).mixers segs new
      → AreMixed make err done p n m.mixers (make false (err p) ∷ (make true (done p).1 ∷ segs)) new
  unfolding mixed_pair
  cons_pair p m segs new hp l a = record {
    errors =
        cons_evens (make false (err p)) (make true (done p).1) segs (λ (q : ℕ). make false (err q))
          p n refl a.errors;
    feedbacks =
        cons_odds (make false (err p)) (make true (done p).1) segs (λ (q : ℕ). make true (done q).1)
          p n refl a.feedbacks;
    mixers = λ q b c. elim (dec_lt p q) [
      | yes later ↦ a.mixers q (omega (arith, later)) c
      | no at ↦
          let same : q ≡ p = omega (arith, b, at) in
          rw same (
            a.before (p * 2 + 1) (omega arith)
            ∙ get_elem?-set_self m.mixers (p * 2 + 1) (done p).0
                (lt_of_some m.mixers (p * 2 + 1) (mix p) (l.mixers p (omega arith) hp)))
    ];
    before = λ i h.
        a.before i (omega (arith, h))
        ∙ get_elem?-set_ne m.mixers (p * 2 + 1) i (done p).0 (λ e. absurd (omega (arith, h, e)));
  }

  -- The loop over `k` pairs of channels.
  pub segment_loop-AreMixed :
      (k p : ℕ) (m : Mixed)
      → IsPaired order n place
      → p + k ≡ n
      → IsLoaded ops place err fb mix done p n m
      → (segs : List DataSegment) × (m' : Mixed) × (segment_loop ops make order (p * 2) (k * 2) m
          ≡ value (segs, m'))
        × AreMixed make err done p n m.mixers segs m'.mixers
  unfolding segment_loop
  segment_loop-AreMixed zero p m h e l = (
    [],
    m,
    refl,
    record {
      errors = λ t b. absurd (omega (arith, e, b));
      feedbacks = λ t b. absurd (omega (arith, e, b));
      mixers = λ q b c. absurd (omega (arith, e, b, c));
      before = λ i b. refl;
    },
  )
  segment_loop-AreMixed (suc k) p m h e l =
      let hp : p < n = omega (arith, e) in
      let (segs, m', r, a) =
        segment_loop-AreMixed k (p + 1) (mixed_pair p m) h (omega (arith, e))
          (mixed_pair-IsLoaded p m h hp l) in
      let two : suc k * 2 ≡ suc (suc (k * 2)) = omega arith in
      let even : (p * 2 % 2 == 1) ≡ false = ground arith in
      let odd : ((p * 2 + 1) % 2 == 1) ≡ true = ground arith in
      let next : (p + 1) * 2 ≡ p * 2 + 1 + 1 = omega arith in
      (
        make false (err p) ∷ (make true (done p).1 ∷ segs),
        m',
        rw (two, error_data p m h hp l, feedback_data p m h hp l, sym next, r, even, odd) refl,
        cons_pair p m segs m'.mixers hp l a,
      )
