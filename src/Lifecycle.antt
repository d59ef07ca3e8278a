-- ===== src/Lifecycle.antt =====
-- The life of a data source: Start, CoreLoop and Stop of data_source.go.
pub mod Steps
pub mod Starting
mod Runs
use dastard.Base.{
  ℕ, zero, suc, ◌+◌, Bool, true, false, Option, some, none, if◌then◌else◌, Outcome, ok, fault,
  ◌>>=◌,
}

pub data SourceState : Type 0 where
  inactive starting active stopping : SourceState

-- `run_done` is the counter of the wait group, `abort_closed` tells whether abortSelf is closed.
-- `has_groups` stands for a nonempty groupKeysSorted, `is_writing` for writingState.Active.
pub record Source : Type 0 where
  pub source_state : SourceState
  pub run_done : ℕ
  pub abort_closed : Bool
  pub has_groups : Bool
  pub is_writing : Bool

unfoldable pub set_state_starting : Source → Option Source
set_state_starting s = elim s.source_state [
  | inactive ↦ some (record s { source_state = starting })
  | starting ↦ none
  | active ↦ none
  | stopping ↦ none
]

unfoldable pub set_state_inactive : Source → Source
set_state_inactive s = record s { source_state = inactive }

unfoldable pub run_done_activate : Source → Source
run_done_activate s = record s { source_state = active; run_done = suc s.run_done }

-- A wait group's counter below zero is a panic.
unfoldable pub run_done_deactivate : Source → Outcome Source
run_done_deactivate s = elim s.run_done [
  | zero ↦ fault
  | suc n ↦ ok (record s { source_state = inactive; run_done = n })
]

-- `ds.abortSelf = make(chan struct{})` of PrepareRun.
unfoldable pub make_abort : Source → Source
make_abort s = record s { abort_closed = false }

-- `closeIfOpen(ds.abortSelf)`
unfoldable pub close_if_open : Source → Source
close_if_open s = record s { abort_closed = true }

-- What the first part of Stop says: an error, a return at once, or that it waits for the run.
pub data StopAnswer : Type 0 where
  not_active stopped_already waits : StopAnswer

-- Stop up to RunDoneWait. On a source that is starting it panics.
unfoldable pub stop_request : Source → Outcome (StopAnswer × Source)
unfolding close_if_open
stop_request s = elim s.source_state [
  | inactive ↦ ok (not_active, s)
  | starting ↦ fault
  | active ↦ ok (waits, close_if_open (record s { source_state = stopping }))
  | stopping ↦ ok (stopped_already, s)
]

-- Stop after RunDoneWait: the groups are forgotten, and writing ends.
unfoldable pub stop_end : Source → Source
stop_end s = record s { has_groups = false; is_writing = false }

-- Which of the steps of Start that a source supplies succeed: Sample, PrepareChannels, PrepareRun
-- and StartRun.
pub record Attempt : Type 0 where
  pub sampled : Bool
  pub channels : Bool
  pub prepared : Bool
  pub run_started : Bool

-- Start, and whether it returned without an error.
unfoldable pub start : Attempt → Source → Outcome (Bool × Source)
unfolding set_state_starting set_state_inactive run_done_activate run_done_deactivate make_abort
start a s = elim (set_state_starting s) [
  | none ↦ ok (false, s)
  | some s₁ ↦
      let running : Source = run_done_activate (make_abort s₁) in
      let failed = run_done_deactivate running >>= λ s₂. ok (false, s₂) in
      if not_all a.sampled a.channels a.prepared
      then ok (false, set_state_inactive s₁)
      else if a.run_started
      then ok (true, running)
      else failed
]
  where
    not_all : Bool → Bool → Bool → Bool
    not_all true true true = false
    not_all true true false = true
    not_all true false c = true
    not_all false b c = true
