-- ===== src/Mix/Delayed.antt =====
-- Consecutive calls of the mixer are one call on all the data.
use dastard.Base.{
  ℕ, ◌≡◌, refl, sym, ap, ◌∙◌, Bool, true, false, List, [], ◌∷◌, ◌++◌, length, Outcome, ok, fault,
  stuck, ◌>>=◌, arith,
}
use dastard.Mix.{MixOps, Mix, masked_fb, kept_in, delay_loop, mix_loop, mix_with, mix_retard_fb}
use dastard.Base.Words

delay_loop-append :
    (last : ℕ) (xs ys : List ℕ)
    → delay_loop last (xs ++ ys) ≡ (
      (delay_loop (delay_loop last xs).0 ys).0,
      (delay_loop last xs).1 ++ (delay_loop (delay_loop last xs).0 ys).1,
    )
unfolding delay_loop
delay_loop-append last [] ys = refl
delay_loop-append last (x ∷ xs) ys = rw (delay_loop-append (masked_fb x) xs ys) refl

-- What a loop gives, with samples in front.
abbrev Looped : Type 0
Looped = Outcome (ℕ × List ℕ)

abbrev after : List ℕ → Looped → Looped
after out r = do s ← r; ok (s.0, out ++ s.1)

abbrev after_one : ℕ → Looped → Looped
after_one x r = do s ← r; ok (s.0, x ∷ s.1)

abbrev then_loop : Looped → (ℕ → Looped) → Looped
then_loop r next = do s ← r; after s.1 (next s.0)

after-nothing : (r : Looped) → after [] r ≡ r
after-nothing (ok s) = refl
after-nothing fault = refl
after-nothing stuck = refl

after_one-after :
    (x : ℕ) (out : List ℕ) (r : Looped) → after_one x (after out r) ≡ after (x ∷ out) r
after_one-after x out (ok s) = refl
after_one-after x out fault = refl
after_one-after x out stuck = refl

after_one-then_loop :
    (x : ℕ) (r : Looped) (next : ℕ → Looped)
    → after_one x (then_loop r next) ≡ then_loop (after_one x r) next
after_one-then_loop x (ok s) next = after_one-after x s.1 (next s.0)
after_one-then_loop x fault next = refl
after_one-then_loop x stuck next = refl

mix_loop-append :
    (ops : MixOps) (scale last : ℕ) (xs ys es fs : List ℕ)
    → length xs ≡ length es
    → mix_loop ops scale last (xs ++ ys) (es ++ fs)
      ≡ then_loop (mix_loop ops scale last xs es) (λ l. mix_loop ops scale l ys fs)
unfolding mix_loop
mix_loop-append ops scale last [] ys [] fs h = sym (after-nothing (mix_loop ops scale last ys fs))
mix_loop-append ops scale last [] ys (e ∷ es) fs h = absurd (omega (arith, h))
mix_loop-append ops scale last (x ∷ xs) ys [] fs h = absurd (omega (arith, h))
mix_loop-append ops scale last (x ∷ xs) ys (e ∷ es) fs h =
    let y : ℕ = kept_in ops (ops.sum_of scale (Words.int16 e) last) in
    ap (after_one y) (mix_loop-append ops scale (masked_fb x) xs ys es fs (omega (arith, h)))
    ∙ after_one-then_loop y (mix_loop ops scale (masked_fb x) xs es)
        (λ l. mix_loop ops scale l ys fs)

-- The mixer's state around a loop.
abbrev stored : Mix → Looped → Outcome (Mix × List ℕ)
stored m r = do s ← r; ok (record m { last_fb = s.0 }, s.1)

abbrev both : Outcome (Mix × List ℕ) → (Mix → Outcome (Mix × List ℕ)) → Outcome (Mix × List ℕ)
both r next = do s ← r; t ← next s.0; ok (t.0, s.1 ++ t.1)

stored-after :
    (m : Mix) (l : ℕ) (out : List ℕ) (r : Looped)
    → stored m (after out r) ≡ both (ok (record m { last_fb = l }, out)) (λ k. stored k r)
stored-after m l out (ok s) = refl
stored-after m l out fault = refl
stored-after m l out stuck = refl

stored-then_loop :
    (m : Mix) (r : Looped) (next : ℕ → ℕ → Looped)
    → stored m (then_loop r (next m.error_scale))
      ≡ both (stored m r) (λ k. stored k (next k.error_scale k.last_fb))
stored-then_loop m (ok s) next = stored-after m s.0 s.1 (next m.error_scale s.0)
stored-then_loop m fault next = refl
stored-then_loop m stuck next = refl

mix_with-append :
    (zero_scale : Bool) (ops : MixOps) (m : Mix) (xs ys es fs : List ℕ)
    → length xs ≡ length es
    → mix_with zero_scale ops m (xs ++ ys) (es ++ fs)
      ≡ both (mix_with zero_scale ops m xs es) (λ k. mix_with zero_scale ops k ys fs)
unfolding mix_with
mix_with-append true ops m xs ys es fs h = rw (delay_loop-append m.last_fb xs ys) refl
mix_with-append false ops m xs ys es fs h =
    ap (stored m) (mix_loop-append ops m.error_scale m.last_fb xs ys es fs h)
    ∙ stored-then_loop m (mix_loop ops m.error_scale m.last_fb xs es)
        (λ scale l. mix_loop ops scale l ys fs)

-- Only the last feedback of a mixer changes.
agree_stored :
    (m : Mix) (r : Looped) (f g : Mix → Outcome (Mix × List ℕ))
    → ((l : ℕ) → f (record m { last_fb = l }) ≡ g (record m { last_fb = l }))
    → both (stored m r) f ≡ both (stored m r) g
agree_stored m (ok s) f g h =
    ap (λ (t : Outcome (Mix × List ℕ)). both (ok (record m { last_fb = s.0 }, s.1)) (λ k. t))
      (h s.0)
agree_stored m fault f g h = refl
agree_stored m stuck f g h = refl

agree :
    (zero_scale : Bool) (ops : MixOps) (m : Mix) (xs es : List ℕ)
    (f g : Mix → Outcome (Mix × List ℕ))
    → ((l : ℕ) → f (record m { last_fb = l }) ≡ g (record m { last_fb = l }))
    → both (mix_with zero_scale ops m xs es) f ≡ both (mix_with zero_scale ops m xs es) g
unfolding mix_with
agree true ops m xs es f g h = agree_stored m (ok (delay_loop m.last_fb xs)) f g h
agree false ops m xs es f g h = agree_stored m (mix_loop ops m.error_scale m.last_fb xs es) f g h

-- With an error for each feedback sample, a call on the first part of the data and a call on the
-- rest do what one call on all of it does: the second call begins with the last feedback of the
-- first.
pub mix_retard_fb-append :
    (ops : MixOps) (m : Mix) (xs ys es fs : List ℕ)
    → length xs ≡ length es
    → mix_retard_fb ops m (xs ++ ys) (es ++ fs)
      ≡ (do r ← mix_retard_fb ops m xs es; s ← mix_retard_fb ops r.0 ys fs; ok (s.0, r.1 ++ s.1))
unfolding mix_retard_fb
mix_retard_fb-append ops m xs ys es fs h =
    mix_with-append (ops.is_zero m.error_scale) ops m xs ys es fs h
    ∙ agree (ops.is_zero m.error_scale) ops m xs es
        (λ k. mix_with (ops.is_zero m.error_scale) ops k ys fs) (λ k. mix_retard_fb ops k ys fs)
        (λ l. refl)
