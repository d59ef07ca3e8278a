-- ===== src/Resonator/Create/Ready.antt =====
-- The phase unwrappers of a new group.
use dastard.Base.{
  ℕ, zero, suc, ◌+◌, ◌≡◌, refl, ap, true, false, List, [], ◌∷◌, Option, none, some, length, All,
  arith, ok,
}
use dastard.Base.Int.{pos, ◌<ℤ◌}
use dastard.Unwrap.{PhaseUnwrapper}
use dastard.Unwrap.Turns.{IsReady}
use dastard.Unwrap.Build.{new_phase_unwrapper-IsReady}
use dastard.Resonator.{Group, GroupIndex}
use dastard.Resonator.Create.{
  UnwrapOptions, contains, calc_bias_level, make_unwrapper, make_unwrappers, group_of,
  new_resonator_group,
}

-- An unwrapper that is there and ready: sixteen turns of 12 bits in a word.
abbrev pub IsUnwrapping : Option PhaseUnwrapper → Type 0
IsUnwrapping none = true ≡ false
IsUnwrapping (some u) = IsReady 16 u × (u.two_pi ≡ 4096)

make_unwrapper-IsUnwrapping :
    (o : UnwrapOptions) (channum : ℕ)
    → o.rescale_raw ≡ true
    → o.unwrap ≡ true
    → pos 0 <ℤ o.reset_after
    → (u : Option PhaseUnwrapper) × (make_unwrapper o channum ≡ ok u) × IsUnwrapping u
unfolding make_unwrapper
make_unwrapper-IsUnwrapping o channum hr hu ha =
    let (u, e, r, p, strip, below) =
      new_phase_unwrapper-IsReady 16 4 (calc_bias_level o) o.reset_after o.pulse_sign
        (contains o.invert_chan (pos channum)) (omega arith) (omega arith) (omega arith) ha in
    (some u, rw (hr, hu, e) refl, (r, p))

make_unwrappers-IsUnwrapping :
    (o : UnwrapOptions) (channum k : ℕ)
    → o.rescale_raw ≡ true
    → o.unwrap ≡ true
    → pos 0 <ℤ o.reset_after
    → (us : List (Option PhaseUnwrapper)) × (make_unwrappers o channum k ≡ ok us)
      × (length us ≡ k)
      × All IsUnwrapping us
unfolding make_unwrappers
make_unwrappers-IsUnwrapping o channum zero hr hu ha = ([], refl, refl, tt)
make_unwrappers-IsUnwrapping o channum (suc k) hr hu ha =
    let (u, e, h) = make_unwrapper-IsUnwrapping o channum hr hu ha in
    let (us, es, l, hs) = make_unwrappers-IsUnwrapping o (channum + 1) k hr hu ha in
    (u ∷ us, rw (e, es) refl, ap suc l, (h, hs))

-- When the data are rescaled and unwrapped with a positive reset count, NewResonatorGroup returns
-- a group with an empty queue and one unwrapper for each channel; each is ready, with a turn of
-- 4096, of which sixteen make a word.
new_resonator_group-IsUnwrapping :
    (index : GroupIndex) (o : UnwrapOptions)
    → o.rescale_raw ≡ true
    → o.unwrap ≡ true
    → pos 0 <ℤ o.reset_after
    → (g : Group) × (new_resonator_group index o ≡ ok g)
      × (g.queue ≡ [])
      × (length g.unwrappers ≡ index.group_size)
      × All IsUnwrapping g.unwrappers
unfolding new_resonator_group
new_resonator_group-IsUnwrapping index o hr hu ha =
    let (us, e, l, h) = make_unwrappers-IsUnwrapping o index.firstchan index.group_size hr hu ha in
    (group_of index us, rw e refl, refl, l, h)
