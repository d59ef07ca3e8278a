-- ===== src/Broker/Change.antt =====
-- ChangeGroupTrigger of data_source.go: connections of several sources, whose errors are dropped.
use dastard.Base.{Bool, true, false, List, [], ◌∷◌, Option, none, some}
use dastard.Base.Int.{ℤ}
use dastard.Broker.{TriggerBroker, add_connection, delete_connection}

abbrev pub or_unchanged : TriggerBroker → Option TriggerBroker → TriggerBroker
or_unchanged b none = b
or_unchanged b (some b') = b'

abbrev pub change_one : Bool → TriggerBroker → ℤ → ℤ → TriggerBroker
change_one true b source receiver = or_unchanged b (add_connection b source receiver)
change_one false b source receiver = or_unchanged b (delete_connection b source receiver)

abbrev pub change_receivers : Bool → TriggerBroker → ℤ → List ℤ → TriggerBroker
change_receivers turnon b source [] = b
change_receivers turnon b source (r ∷ rs) =
    change_receivers turnon (change_one turnon b source r) source rs

unfoldable pub change_group_trigger : Bool → TriggerBroker → List (ℤ × List ℤ) → TriggerBroker
unfolding add_connection delete_connection
change_group_trigger turnon b [] = b
change_group_trigger turnon b ((source, receivers) ∷ conns) =
    change_group_trigger turnon (change_receivers turnon b source receivers) conns
