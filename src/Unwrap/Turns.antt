-- ===== src/Unwrap/Turns.antt =====
-- PhaseUnwrapper.UnwrapInPlace: the unwrapped values are the stripped inputs moved by whole turns.
use native.Mathlib.Nat.{
  add-mod, div-add-mod, mod-mod, add-mul-mod_self_left, mul-mod_right, mul-sub,
}
use mathlib.Core.Path.{ap₂, fun_ext}
use dastard.Base.{
  ℕ, ◌+◌, ◌-◌, ◌*◌, ◌/◌, ◌%◌, ◌<◌, ◌≡◌, refl, sym, ap, subst, ◌∙◌, ◌==◌, ◌≢◌, true, false, List, [],
  ◌∷◌, map, arith, if◌then◌else◌,
}
use dastard.Base.Words.{add16, sub16, not16}
use dastard.Base.Int.{pos, ◌≤ℤ◌}
use dastard.Unwrap.{
  PhaseUnwrapper, stripped, short_term, long_term, unwrap_sample, unwrap_loop, unwrap_in_place,
}

-- Reduction mod 2 ^ 16 does not show in remainders by a divisor of 2 ^ 16.
pub mod-u16 : (a m k : ℕ) → m * k ≡ 0x1_0000 → a % 0x1_0000 % m ≡ a % m
mod-u16 a m k h =
    sym (ap (λ (t : ℕ). t % m) whole ∙ add-mul-mod_self_left (a % 0x1_0000) m (k * (a / 0x1_0000)))
  where
    whole : a ≡ a % 0x1_0000 + m * (k * (a / 0x1_0000))
    whole = omega (arith, div-add-mod a 0x1_0000, ap (λ (t : ℕ). t * (a / 0x1_0000)) h)

add-multiple : (a b m : ℕ) → b % m ≡ 0 → (a + b) % m ≡ a % m
add-multiple a b m e = let z : a % m + 0 ≡ a % m = omega arith in rw (add-mod, e, z) (mod-mod a m)

-- Moving by a multiple of the turn, mod 2 ^ 16, keeps the phase within the turn.
pub add16-turns : (a b m k : ℕ) → m * k ≡ 0x1_0000 → b % m ≡ 0 → add16 a b % m ≡ a % m
unfolding add16
add16-turns a b m k h e = mod-u16 (a + b) m k h ∙ add-multiple a b m e

complement-turns :
    (b m k : ℕ) → m * k ≡ 0x1_0000 → b < 0x1_0000 → b % m ≡ 0 → (0x1_0000 - b) % m ≡ 0
complement-turns b m k h lt e =
    let c : 0x1_0000 - b ≡ m * (k - b / m) =
      omega (arith, h, e, div-add-mod b m, mul-sub m k (b / m)) in
    rw c (mul-mod_right m (k - b / m))

pub sub16-turns : (a b m k : ℕ) → m * k ≡ 0x1_0000 → b % m ≡ 0 → sub16 a b % m ≡ a % m
unfolding sub16
sub16-turns a b m k h e =
    let word : b % 0x1_0000 < 0x1_0000 = omega arith in
    let whole : b % 0x1_0000 % m ≡ 0 = mod-u16 b m k h ∙ e in
    mod-u16 (a + (0x1_0000 - b % 0x1_0000)) m k h
    ∙ add-multiple a (0x1_0000 - b % 0x1_0000) m (complement-turns (b % 0x1_0000) m k h word whole)

-- A turn divides 2 ^ 16 (`turns` of them make it), the offsets are whole turns, and the count of
-- samples away from reset_offset is at most reset_after.
pub record IsReady (turns : ℕ) (u : PhaseUnwrapper) : Type 0 where
  pub divides : u.two_pi * turns ≡ 0x1_0000
  pub whole_turns : u.offset % u.two_pi ≡ 0
  pub whole_reset : u.reset_offset % u.two_pi ≡ 0
  pub small : u.two_pi < 0x1_0000
  pub count : pos u.reset_count ≤ℤ u.reset_after

pub self_turns : (m : ℕ) → m % m ≡ 0
self_turns m = let e : m * 1 ≡ m = omega arith in rw e at (mul-mod_right m 1)

pub short_term-IsReady :
    (turns : ℕ) (u : PhaseUnwrapper) (v : ℕ) → IsReady turns u → IsReady turns (short_term u v)
unfolding short_term
short_term-IsReady turns u v r = ground (
  arith,
  add16-turns u.offset u.two_pi u.two_pi turns,
  sub16-turns u.offset u.two_pi u.two_pi turns,
  self_turns u.two_pi,
)

pub long_term-IsReady :
    (turns : ℕ) (u : PhaseUnwrapper) → IsReady turns u → IsReady turns (long_term u)
unfolding long_term
long_term-IsReady turns u r = ground arith

-- What no sample changes.
pub record Keeps (u u' : PhaseUnwrapper) : Type 0 where
  pub two_pi : u'.two_pi ≡ u.two_pi
  pub sign_mask : u'.sign_mask ≡ u.sign_mask
  pub low_bits_to_drop : u'.low_bits_to_drop ≡ u.low_bits_to_drop
  pub reset_offset : u'.reset_offset ≡ u.reset_offset
  pub reset_after : u'.reset_after ≡ u.reset_after
  pub upper_step_lim : u'.upper_step_lim ≡ u.upper_step_lim
  pub lower_step_lim : u'.lower_step_lim ≡ u.lower_step_lim

pub unwrap_sample-Keeps : (u : PhaseUnwrapper) (raw : ℕ) → Keeps u (unwrap_sample u raw).0
unfolding unwrap_sample short_term long_term
unwrap_sample-Keeps u raw = ground arith

-- One sample: the state stays ready, and the value is the stripped input up to whole turns.
pub unwrap_sample_turns :
    (turns : ℕ) (u : PhaseUnwrapper) (raw : ℕ)
    → IsReady turns u
    → let (u', out) = unwrap_sample u raw in
      IsReady turns u' × (out % u.two_pi ≡ stripped u raw % u.two_pi)
unfolding unwrap_sample
unwrap_sample_turns turns u raw r =
    let v : ℕ = stripped u raw in
    let r' = long_term-IsReady turns (short_term u v) (short_term-IsReady turns u v r) in
    let u' = (unwrap_sample u raw).0 in
    let phase = add16-turns v u'.offset u'.two_pi turns r'.divides r'.whole_turns in
    (r', subst (λ m. add16 v u'.offset % m ≡ v % m) (unwrap_sample-Keeps u raw).two_pi phase)

-- The phase of each value within a turn.
abbrev pub phases : ℕ → List ℕ → List ℕ
phases m = map (λ x. x % m)

stripped-Keeps : (u u' : PhaseUnwrapper) (raw : ℕ) → Keeps u u' → stripped u' raw ≡ stripped u raw
unfolding stripped
stripped-Keeps u u' raw k = rw (k.sign_mask, k.low_bits_to_drop)

map_ext : (f g : ℕ → ℕ) (xs : List ℕ) → ((x : ℕ) → f x ≡ g x) → map f xs ≡ map g xs
map_ext f g xs h = rw (fun_ext h)

pub unwrap_loop_turns :
    (turns : ℕ) (u : PhaseUnwrapper) (raws : List ℕ)
    → IsReady turns u
    → let (u', outs) = unwrap_loop u raws in
      IsReady turns u' × (phases u.two_pi outs ≡ phases u.two_pi (map (stripped u) raws))
unfolding unwrap_loop
unwrap_loop_turns turns u [] r = (r, refl)
unwrap_loop_turns turns u (raw ∷ raws) r =
    let u' = (unwrap_sample u raw).0 in
    let k = unwrap_sample-Keeps u raw in
    let (r', head) = unwrap_sample_turns turns u raw r in
    let (r'', tail) = unwrap_loop_turns turns u' raws r' in
    let same = map_ext (stripped u') (stripped u) raws (λ x. stripped-Keeps u u' x k) in
    (r'', ap₂ ◌∷◌ head (rw (same, k.two_pi) at tail))

-- With unwrapping enabled and bits to drop, on any data: the state stays ready, and each value
-- equals the stripped input (after the inversion, where that is on) up to whole turns.
pub unwrap_in_place_turns :
    (turns : ℕ) (u : PhaseUnwrapper) (raws : List ℕ)
    → u.enable ≡ true
    → u.low_bits_to_drop ≢ 0
    → IsReady turns u
    → let (u', outs) = unwrap_in_place u raws in
      let inverted = if u.invert_data then map not16 raws else raws in
      IsReady turns u' × (phases u.two_pi outs ≡ phases u.two_pi (map (stripped u) inverted))
unfolding unwrap_in_place
unwrap_in_place_turns turns u raws on drop r =
    let d : (u.low_bits_to_drop == 0) ≡ false = ground arith in
    simp (on, d) (unwrap_loop_turns turns u _ r)
