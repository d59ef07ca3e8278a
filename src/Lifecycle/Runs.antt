-- ===== src/Lifecycle/Runs.antt =====
-- Runs of Start and Stop, and their theorems at concrete inputs.
use dastard.Base.{◌≡◌, ◌↔◌, refl, true, false, ok, fault}
use dastard.Lifecycle.{
  Source, inactive, starting, active, Attempt, start, set_state_starting, set_state_inactive,
  run_done_activate, run_done_deactivate, make_abort, stop_request,
}
use dastard.Lifecycle.Steps.{
  World, preparing, running, Reachable, fresh, later, start_accepted, run_begins, IsConsistent,
  Reachable-IsConsistent, run_ends-safe, stop_request-panics,
}

abbrev new_source : Source
new_source = record {
  source_state = inactive;
  run_done = 0;
  abort_closed = true;
  has_groups = false;
  is_writing = false;
}

abbrev claimed : Source
claimed = record new_source { source_state = starting }

abbrev busy : Source
busy = record new_source { source_state = active; run_done = 1; abort_closed = false }

abbrev in_preparation : World
in_preparation = record { source = claimed; phase = preparing; waiting = 0 }

abbrev in_run : World
in_run = record { source = busy; phase = running; waiting = 0 }

in_preparation-Reachable : Reachable in_preparation
unfolding set_state_starting
in_preparation-Reachable = later (fresh true false false) (start_accepted new_source claimed 0 refl)

in_run-Reachable : Reachable in_run
unfolding run_done_activate make_abort
in_run-Reachable = later in_preparation-Reachable (run_begins claimed 0)

abbrev no_channels : Attempt
no_channels = record { sampled = true; channels = false; prepared = true; run_started = true }

start_fails : start no_channels new_source ≡ ok (false, new_source)
unfolding start set_state_starting set_state_inactive
start_fails = refl

Reachable-IsConsistent_example : IsConsistent in_run
Reachable-IsConsistent_example = Reachable-IsConsistent in_run in_run-Reachable

run_ends-safe_example :
    (s' : Source) × (run_done_deactivate busy ≡ ok s')
    × (s'.source_state ≡ inactive)
    × (s'.run_done ≡ 0)
run_ends-safe_example = run_ends-safe in_run in_run-Reachable refl

stop_request-panics_example : (stop_request claimed ≡ fault) ↔ (preparing ≡ preparing)
stop_request-panics_example = stop_request-panics in_preparation in_preparation-Reachable
