-- ===== src/Lifecycle/Starting.antt =====
-- What Start leaves behind, whichever of the source's steps fails.
use dastard.Base.{◌≡◌, refl, ap, suc, inl, Bool, true, false, ◌&&◌, if◌then◌else◌, ok}
use dastard.Lifecycle.{
  Source, inactive, active, Attempt, start, set_state_starting, set_state_inactive,
  run_done_activate, run_done_deactivate, make_abort,
}
use dastard.Lifecycle.Steps.{Fits, idle, running}

abbrev pub all_steps : Attempt → Bool
all_steps a = a.sampled && (a.channels && (a.prepared && a.run_started))

-- On a source without a run, Start returns without an error exactly if all four steps of the source
-- succeed; then the source is active with its abort channel open. After any failure it is inactive
-- again with no count in the wait group, so that it can be started once more.
start_lem :
    (a : Attempt) (s : Source)
    → Fits idle s
    → (s' : Source) × (start a s ≡ ok (all_steps a, s'))
      × Fits (if all_steps a then running else idle) s'
      × (s'.source_state ≡ (if all_steps a then active else inactive))
unfolding start set_state_starting set_state_inactive run_done_activate run_done_deactivate
    make_abort
start_lem a s h = outcome a.sampled a.channels a.prepared a.run_started s h
  where
    outcome :
        (p q r t : Bool) (s : Source)
        → Fits idle s
        → let a : Attempt = record { sampled = p; channels = q; prepared = r; run_started = t } in
          (s' : Source) × (start a s ≡ ok (all_steps a, s'))
          × Fits (if all_steps a then running else idle) s'
          × (s'.source_state ≡ (if all_steps a then active else inactive))
    outcome false q r t s h = (set_state_inactive s, rw h.0 refl, (refl, h.1), refl)
    outcome true false r t s h = (set_state_inactive s, rw h.0 refl, (refl, h.1), refl)
    outcome true true false t s h = (set_state_inactive s, rw h.0 refl, (refl, h.1), refl)
    outcome true true true false s h = (
      set_state_inactive (record s { run_done = s.run_done; abort_closed = false }),
      rw h.0 refl,
      (refl, h.1),
      refl,
    )
    outcome true true true true s h =
        (run_done_activate (make_abort s), rw h.0 refl, (ap suc h.1, inl (refl, refl)), refl)
