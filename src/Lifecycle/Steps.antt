-- ===== src/Lifecycle/Steps.antt =====
-- The steps of Start, CoreLoop and Stop in any order that the goroutines allow.
use dastard.Base.{
  ℕ, suc, ◌≡◌, ◌≢◌, ◌↔◌, refl, subst, ap, sym, ◌∙◌, Bool, true, false, ◌⊎◌, inl, inr, some, Outcome,
  ok, fault,
}
use dastard.Lifecycle.{
  inactive, starting, active, stopping, Source, set_state_starting, set_state_inactive,
  run_done_activate, run_done_deactivate, make_abort, stop_request, stop_end, close_if_open,
  StopAnswer, not_active, stopped_already, waits,
}

-- Where the run is: no call of Start under way and no core loop; between SetStateStarting and
-- RunDoneActivate; and from there on to the end of the run.
pub data Phase : Type 0 where
  idle preparing running : Phase

-- A source, the phase of its run, and how many calls of Stop wait.
pub record World : Type 0 where
  pub source : Source
  pub phase : Phase
  pub waiting : ℕ

-- `run_ends` is the end of the core loop, and the failure of StartRun.
pub data Step : World → World → Type 0 where
  start_accepted :
      (s s' : Source) (n : ℕ)
      → set_state_starting s ≡ some s'
      → Step
          (record { source = s; phase = idle; waiting = n })
          (record { source = s'; phase = preparing; waiting = n })
  start_failed :
      (s : Source) (n : ℕ)
      → Step
          (record { source = s; phase = preparing; waiting = n })
          (record { source = set_state_inactive s; phase = idle; waiting = n })
  run_begins :
      (s : Source) (n : ℕ)
      → Step
          (record { source = s; phase = preparing; waiting = n })
          (record { source = run_done_activate (make_abort s); phase = running; waiting = n })
  run_ends :
      (s s' : Source) (n : ℕ)
      → run_done_deactivate s ≡ ok s'
      → Step
          (record { source = s; phase = running; waiting = n })
          (record { source = s'; phase = idle; waiting = n })
  stop_refused :
      (s s' : Source) (p : Phase) (n : ℕ) (a : StopAnswer)
      → stop_request s ≡ ok (a, s')
      → a ≢ waits
      → Step
          (record { source = s; phase = p; waiting = n })
          (record { source = s'; phase = p; waiting = n })
  stop_waits :
      (s s' : Source) (p : Phase) (n : ℕ)
      → stop_request s ≡ ok (waits, s')
      → Step
          (record { source = s; phase = p; waiting = n })
          (record { source = s'; phase = p; waiting = suc n })
  stop_returns :
      (s : Source) (p : Phase) (n : ℕ)
      → s.run_done ≡ 0
      → Step
          (record { source = s; phase = p; waiting = suc n })
          (record { source = stop_end s; phase = p; waiting = n })

-- What the phase says of the source.
abbrev pub Fits : Phase → Source → Type 0
Fits idle s = (s.source_state ≡ inactive) × (s.run_done ≡ 0)
Fits preparing s = (s.source_state ≡ starting) × (s.run_done ≡ 0)
Fits running s =
    (s.run_done ≡ 1)
    × (((s.source_state ≡ active) × (s.abort_closed ≡ false))
        ⊎ ((s.source_state ≡ stopping) × (s.abort_closed ≡ true)))

abbrev pub IsConsistent : World → Type 0
IsConsistent w = Fits w.phase w.source

pub data Reachable : World → Type 0 where
  fresh :
      (closed groups writing : Bool)
      → Reachable (record {
        source = record {
          source_state = inactive;
          run_done = 0;
          abort_closed = closed;
          has_groups = groups;
          is_writing = writing;
        };
        phase = idle;
        waiting = 0;
      })
  later : {w w' : World} → Reachable w → Step w w' → Reachable w'

-- The source that an operation returned.
returned : (P : Source → Type 0) (s t : Source) → Outcome.ok t ≡ ok s → P t → P s
returned P s t e h = let same : t ≡ s = cc in subst P same h

answered :
    (P : Source → Type 0) (s t : Source) (a b : StopAnswer)
    → ◌≡◌ {A = Outcome (StopAnswer × Source)} (ok (b, t)) (ok (a, s))
    → P t
    → P s
answered P s t a b e h =
    let pair : ◌≡◌ {A = StopAnswer × Source} (b, t) (a, s) = cc in subst P (ap (λ x. x.1) pair) h

accepted : (s s' : Source) → Fits idle s → set_state_starting s ≡ some s' → Fits preparing s'
unfolding set_state_starting
accepted s s' h e =
    let e' = rw h.0 at e in
    let same : record s { source_state = starting } ≡ s' = cc in
    subst (Fits preparing) same (refl, h.1)

ended : (s s' : Source) → Fits running s → run_done_deactivate s ≡ ok s' → Fits idle s'
unfolding run_done_deactivate
ended s s' h e =
    returned (Fits idle) s' (record s { source_state = inactive; run_done = 0 }) (rw h.0 at e)
      (refl, refl)

stop_request-Fits :
    (s s' : Source) (p : Phase) (a : StopAnswer)
    → Fits p s
    → stop_request s ≡ ok (a, s')
    → Fits p s'
unfolding stop_request close_if_open
stop_request-Fits s s' idle a h e =
    let known : stop_request s ≡ ok (not_active, s) = rw h.0 refl in
    answered (Fits idle) s' s a not_active (sym known ∙ e) h
stop_request-Fits s s' preparing a h e = absurd (panic (rw h.0 at e))
  where
    panic : ◌≡◌ {A = Outcome (StopAnswer × Source)} fault (ok (a, s')) → ⊥
    panic e = cc
stop_request-Fits s s' running a h e = elim h.1 [
  | inl on ↦
      let stopped : Source = record s { source_state = stopping; abort_closed = true } in
      let known : stop_request s ≡ ok (waits, stopped) = rw on.0 refl in
      answered (Fits running) s' stopped a waits (sym known ∙ e) (h.0, inr (refl, refl))
  | inr off ↦
      let known : stop_request s ≡ ok (stopped_already, s) = rw off.0 refl in
      answered (Fits running) s' s a stopped_already (sym known ∙ e) h
]

stop_end-Fits : (s : Source) (p : Phase) → Fits p s → Fits p (stop_end s)
unfolding stop_end
stop_end-Fits s idle h = h
stop_end-Fits s preparing h = h
stop_end-Fits s running h = h

Step-IsConsistent : {w w' : World} → Step w w' → IsConsistent w → IsConsistent w'
unfolding set_state_inactive run_done_activate make_abort
Step-IsConsistent (start_accepted s s' n e) h = accepted s s' h e
Step-IsConsistent (start_failed s n) h = (refl, h.1)
Step-IsConsistent (run_begins s n) h = (ap suc h.1, inl (refl, refl))
Step-IsConsistent (run_ends s s' n e) h = ended s s' h e
Step-IsConsistent (stop_refused s s' p n a e ne) h = stop_request-Fits s s' p a h e
Step-IsConsistent (stop_waits s s' p n e) h = stop_request-Fits s s' p waits h e
Step-IsConsistent (stop_returns s p n e) h = stop_end-Fits s p h

-- In every reachable state the phase fits the source's state: no run and a source that is
-- inactive, Starting only while Start prepares the run, and during a run one count in the wait
-- group and either the state Active with the abort channel open, or Stopping with it closed.
pub Reachable-IsConsistent : (w : World) → Reachable w → IsConsistent w
Reachable-IsConsistent w (fresh closed groups writing) = (refl, refl)
Reachable-IsConsistent w (later {w = before} r step) =
    Step-IsConsistent step (Reachable-IsConsistent before r)

-- In every reachable state in which a run is under way: its end does not take the wait group below
-- zero, leaves the source inactive, and a Stop that waits for it can then return.
pub run_ends-safe :
    (w : World)
    → Reachable w
    → w.phase ≡ running
    → (s' : Source) × (run_done_deactivate w.source ≡ ok s')
      × (s'.source_state ≡ inactive)
      × (s'.run_done ≡ 0)
unfolding run_done_deactivate
run_ends-safe w r on =
    let h = subst (λ p. Fits p w.source) on (Reachable-IsConsistent w r) in
    (record (w.source) { source_state = inactive; run_done = 0 }, rw h.0 refl, refl, refl)

-- A Stop panics in exactly the reachable states in which a Start is still preparing its run.
pub stop_request-panics :
    (w : World) → Reachable w → (stop_request w.source ≡ fault) ↔ (w.phase ≡ preparing)
unfolding stop_request
stop_request-panics w r = by_phase w.phase w.source (Reachable-IsConsistent w r)
  where
    by_phase : (p : Phase) (s : Source) → Fits p s → (stop_request s ≡ fault) ↔ (p ≡ preparing)
    by_phase idle s h = rw h.0 (λ e. cc, λ e. cc)
    by_phase preparing s h = rw h.0 (λ e. refl, λ e. refl)
    by_phase running s h = elim h.1 [
      | inl on ↦ rw on.0 (λ e. cc, λ e. cc)
      | inr off ↦ rw off.0 (λ e. cc, λ e. cc)
    ]
