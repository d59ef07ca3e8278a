-- ===== src/Configure/Change.antt =====
-- ChangeTriggerState of data_source.go: one trigger state for several channels.
use dastard.Base.{
  ℕ, Bool, true, false, ◌||◌, List, [], ◌∷◌, Option, none, some, if◌then◌else◌, length, get_elem?,
  set, Outcome, ok, fault, ◌>>=◌,
}
use dastard.Base.Int.{ℤ, pos, negsuc, leb_ℤ}
use dastard.Trigger.{TriggerState, Processor}
use dastard.Configure.{configure_trigger}

pub data ChangeError : Type 0 where
  no_channels channel_too_high bad_state : ChangeError

-- A channel at or above the number of channels. A negative one is not caught.
abbrev pub too_high : ℕ → List ℤ → Bool
too_high nchan [] = false
too_high nchan (i ∷ is) = leb_ℤ (pos nchan) i || too_high nchan is

-- `ds.processors[channelIndex]`, configured.
abbrev pub configured :
    List Processor → TriggerState → ℕ → Option Processor → Outcome (List Processor × Bool)
configured ds state i none = fault
configured ds state i (some d) = let (d', err) = configure_trigger d state in ok (set ds i d', err)

abbrev pub configure_at : List Processor → TriggerState → ℤ → Outcome (List Processor × Bool)
configure_at ds state (pos i) = configured ds state i (get_elem? ds i)
configure_at ds state (negsuc i) = fault

unfoldable pub change_loop :
    List Processor → TriggerState → List ℤ → Outcome (List Processor × Option ChangeError)
change_loop ds state [] = ok (ds, none)
change_loop ds state (i ∷ is) = do
  r ← configure_at ds state i
  elim r.1 [ true ↦ ok (r.0, some bad_state) | false ↦ change_loop r.0 state is ]

-- The number of channels is the number of processors.
unfoldable pub change_trigger_state :
    List Processor → TriggerState → List ℤ → Outcome (List Processor × Option ChangeError)
unfolding change_loop
change_trigger_state ds state [] = ok (ds, some no_channels)
change_trigger_state ds state (i ∷ is) =
    if too_high (length ds) (i ∷ is)
    then ok (ds, some channel_too_high)
    else change_loop ds state (i ∷ is)
