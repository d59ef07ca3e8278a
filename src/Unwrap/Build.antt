-- ===== src/Unwrap/Build.antt =====
-- NewPhaseUnwrapper: what the constructor returns, and when it panics.
use dastard.Base.{
  ℕ, suc, ◌+◌, ◌-◌, ◌*◌, ◌/◌, ◌%◌, ◌^◌, ◌≤◌, ◌<◌, ◌≡◌, refl, sym, ap, ◌∙◌, Bool, true, arith, ok,
  lt→ltb, ltb→lt, tests, ltb, false, if◌then◌else◌, ◌==◌, Bool-cases, inl, inr,
}
use native.Mathlib.Nat.{pow-suc, mod-lt, mul-mod_left, zero-mod, div-lt_iff_lt-mul}
use dastard.Base.Bits.{bit_and-mask, pow-add, pow_pos}
use dastard.Base.Words.{sub16, shl16, sub64, not16}
use dastard.Base.Int.{ℤ, pos, ◌<ℤ◌, leb_ℤ, ltb_ℤ}
use dastard.Unwrap.{PhaseUnwrapper, new_phase_unwrapper, stripped}
use dastard.Unwrap.Turns.{IsReady, self_turns, sub16-turns}

pow_turns : (t : ℕ) → t ≤ 16 → 2 ^ t * 2 ^ (16 - t) ≡ 0x1_0000
pow_turns t h =
    let e : t + (16 - t) ≡ 16 = omega arith in sym (pow-add t (16 - t)) ∙ ap (λ (n : ℕ). 2 ^ n) e

pow_word : (t : ℕ) → t < 16 → 2 ^ t < 0x1_0000
pow_word t h =
    let e : 16 - t ≡ suc (15 - t) = omega arith in
    let p : 2 ^ t * (2 ^ (15 - t) * 2) ≡ 0x1_0000 =
      rw (e, pow-suc) at (pow_turns t (omega arith)) in
    let q : 0 < 2 ^ (15 - t) = pow_pos (15 - t) in let r : 0 < 2 ^ t = pow_pos t in grind arith

two_pi_lem : (f d : ℕ) → f ≤ 16 → 0 < d → d ≤ f → shl16 1 (sub64 f d) ≡ 2 ^ (f - d)
unfolding shl16 sub64
two_pi_lem f d hf hd hl =
    let e : (f + 0x1_0000_0000_0000_0000 - d) % 0x1_0000_0000_0000_0000 ≡ f - d = omega arith in
    let small : f - d < 16 = omega arith in
    rw (e, lt→ltb _ _ small) (omega (arith, pow_word (f - d) small))

-- The sign mask keeps the fraction bits of a word.
sign_mask_lem : (f : ℕ) → f ≤ 16 → not16 (shl16 0xffff f) ≡ 2 ^ f - 1
unfolding shl16
sign_mask_lem f h = elim (Bool-cases (ltb f 16)) [
  | inl small ↦ rw small (omega (arith, pow_word f (ltb→lt f 16 small), pow_pos f))
  | inr full ↦ let e : f ≡ 16 = omega (tests, full) in rw (full, e)
]

abbrev reset_of : ℤ → ℕ → ℕ
reset_of sign m = if ltb_ℤ (pos 0) sign then m else sub16 0 (2 * m)

reset_turns : (sign : ℤ) (m k : ℕ) → m * k ≡ 0x1_0000 → reset_of sign m % m ≡ 0
reset_turns sign m k h =
    ground (arith, self_turns m, sub16-turns 0 (2 * m) m k h (mul-mod_left 2 m), zero-mod m)

reset-IsReady :
    (f d : ℕ) (sign after : ℤ) (u : PhaseUnwrapper)
    → f ≤ 16
    → 0 < d
    → d ≤ f
    → pos 0 <ℤ after
    → u.two_pi ≡ 2 ^ (f - d)
    → u.offset ≡ reset_of sign (2 ^ (f - d))
    → u.reset_offset ≡ reset_of sign (2 ^ (f - d))
    → u.reset_count ≡ 0
    → u.reset_after ≡ after
    → IsReady (2 ^ (16 - (f - d))) u
reset-IsReady f d sign after u hf hd hl ha m o r c a = record {
  divides = rw m divides;
  whole_turns = rw (o, m) (reset_turns sign (2 ^ (f - d)) _ divides);
  whole_reset = rw (r, m) (reset_turns sign (2 ^ (f - d)) _ divides);
  small = rw m (pow_word (f - d) (omega arith));
  count = rw (c, a) (omega arith);
}
  where
    divides : 2 ^ (f - d) * 2 ^ (16 - (f - d)) ≡ 0x1_0000
    divides = pow_turns (f - d) (omega arith)

strip_lem :
    (f d : ℕ) (u : PhaseUnwrapper)
    → f ≤ 16
    → u.sign_mask ≡ not16 (shl16 0xffff f)
    → u.low_bits_to_drop ≡ d
    → (raw : ℕ) → stripped u raw ≡ raw % 2 ^ f / 2 ^ d
unfolding stripped
strip_lem f d u h mask drop raw = rw (mask, drop, sign_mask_lem f h, bit_and-mask f raw)

strip_below :
    (f d : ℕ) (u : PhaseUnwrapper)
    → f ≤ 16
    → d ≤ f
    → u.sign_mask ≡ not16 (shl16 0xffff f)
    → u.low_bits_to_drop ≡ d
    → (raw : ℕ) → stripped u raw < 2 ^ (f - d)
strip_below f d u h hl mask drop raw =
    rw (strip_lem f d u h mask drop raw) ((div-lt_iff_lt-mul (pow_pos d)).1 bound)
  where
    whole : f - d + d ≡ f
    whole = omega arith

    bound : raw % 2 ^ f < 2 ^ (f - d) * 2 ^ d
    bound = rw (← pow-add (f - d) d, whole) (mod-lt raw (pow_pos f))

-- With 0 < drop <= fraction <= 16 and a positive reset_after the enabled constructor returns an
-- unwrapper that is ready, whose turn is 2 ^ (fraction - drop), and which strips a sample to its
-- fraction bits less the dropped ones, a value below one turn.
pub new_phase_unwrapper-IsReady :
    (f d : ℕ) (bias after sign : ℤ) (invert : Bool)
    → f ≤ 16
    → 0 < d
    → d ≤ f
    → pos 0 <ℤ after
    → (u : PhaseUnwrapper) × (new_phase_unwrapper f d true bias after sign invert ≡ ok u)
      × IsReady (2 ^ (16 - (f - d))) u
      × (u.two_pi ≡ 2 ^ (f - d))
      × ((raw : ℕ) → stripped u raw ≡ raw % 2 ^ f / 2 ^ d)
      × ((raw : ℕ) → stripped u raw < u.two_pi)
unfolding new_phase_unwrapper
new_phase_unwrapper-IsReady f d bias after sign invert hf hd hl ha =
    let t = two_pi_lem f d hf hd hl in
    let on = lt→ltb 0 d hd in
    let nonzero : (2 ^ (f - d) == 0) ≡ false = ground (arith, pow_pos (f - d)) in
    let positive : leb_ℤ after (pos 0) ≡ false = ground arith in
    rw (t, on, nonzero, positive)
      (
        _,
        refl,
        reset-IsReady f d sign after _ hf hd hl ha refl refl refl refl refl,
        refl,
        strip_lem f d _ hf refl refl,
        λ raw. strip_below f d _ hf hl refl refl raw,
      )
