-- ===== src/Broker.antt =====
-- TriggerBroker of group_trigger.go: the group-trigger connections.
pub mod Counter
pub mod Connections
pub mod Requests
pub mod Effects
pub mod Distribute
pub mod Messages
pub mod Change
mod Runs
use dastard.Base.{
  ℕ, zero, suc, ◌+◌, Bool, true, false, ◌||◌, List, [], ◌∷◌, Option, some, none, if◌then◌else◌,
  get_or, set, replicate,
}
use dastard.Base.Int.{ℤ, pos, ◌+ℤ◌, ◌-ℤ◌, ltb_ℤ, leb_ℤ, eqb_ℤ, pos_part}
use dastard.Broker.Counter.{TriggerCounter, new_trigger_counter}

-- `sources` holds the keys of each receiver's map, `latest_primaries` the frames of each channel.
pub record TriggerBroker : Type 0 where
  pub nchannels : ℕ
  pub nconnections : ℤ
  pub sources : List (List ℤ)
  pub latest_primaries : List (List ℤ)
  pub trigger_counters : List TriggerCounter

-- The counters of the channels from `i` on, of one second each.
unfoldable pub new_counters : ℕ → ℕ → List TriggerCounter
unfolding new_trigger_counter
new_counters i zero = []
new_counters i (suc n) = new_trigger_counter i (pos 1000000000) ∷ new_counters (i + 1) n

unfoldable pub new_trigger_broker : ℕ → TriggerBroker
unfolding new_counters
new_trigger_broker n = record {
  nchannels = n;
  nconnections = pos 0;
  sources = replicate n [];
  latest_primaries = replicate n [];
  trigger_counters = new_counters 0 n;
}

abbrev pub member : ℤ → List ℤ → Bool
member s [] = false
member s (x ∷ xs) = eqb_ℤ s x || member s xs

abbrev pub without : ℤ → List ℤ → List ℤ
without s [] = []
without s (x ∷ xs) = if eqb_ℤ s x then without s xs else x ∷ without s xs

abbrev pub is_outside : TriggerBroker → ℤ → Bool
is_outside b receiver = ltb_ℤ receiver (pos 0) || leb_ℤ (pos b.nchannels) receiver

-- `sources[receiver]`, for a receiver that is not outside.
abbrev pub sources_of : TriggerBroker → ℤ → List ℤ
sources_of b receiver = get_or b.sources (pos_part receiver) []

-- `none` is the error.
unfoldable pub add_connection : TriggerBroker → ℤ → ℤ → Option TriggerBroker
add_connection b source receiver =
    let known : Bool = member source (sources_of b receiver) in
    if eqb_ℤ source receiver
    then some b
    else if is_outside b receiver
    then none
    else some (record b {
      nconnections = if known then b.nconnections else b.nconnections +ℤ pos 1;
      sources =
          set b.sources (pos_part receiver)
            (if known then sources_of b receiver else source ∷ sources_of b receiver);
    })

unfoldable pub delete_connection : TriggerBroker → ℤ → ℤ → Option TriggerBroker
delete_connection b source receiver =
    let known : Bool = member source (sources_of b receiver) in
    if is_outside b receiver
    then none
    else some (record b {
      nconnections = if known then b.nconnections -ℤ pos 1 else b.nconnections;
      sources = set b.sources (pos_part receiver) (without source (sources_of b receiver));
    })

-- `make(map[int]bool)` for each receiver.
abbrev pub emptied : List (List ℤ) → List (List ℤ)
emptied [] = []
emptied (l ∷ ls) = [] ∷ emptied ls

unfoldable pub stop_trigger_coupling : TriggerBroker → TriggerBroker
stop_trigger_coupling b = record b { nconnections = pos 0; sources = emptied b.sources }

unfoldable pub is_connected : TriggerBroker → ℤ → ℤ → Bool
is_connected b source receiver =
    if is_outside b receiver then false else member source (sources_of b receiver)
