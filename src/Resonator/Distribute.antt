-- ===== src/Resonator/Distribute.antt =====
-- distributePackets of resonator.go: the packets of a read into the queues of their groups. The
-- groups of the source are an association list.
use dastard.Base.{Bool, true, false, List, [], ◌∷◌, ◌++◌, if◌then◌else◌}
use dastard.Base.Int.{ℤ}
use dastard.Packets.{Packet, Result, value, panic, ◌>>=◌}
use dastard.Packets.Print.{is_external_trigger, channel_info}
use dastard.Resonator.{Group, GroupIndex, same_group, g_index, enqueue_packet, update_frame_timing}

pub record ResonatorSource : Type 0 where
  pub groups : List (GroupIndex × Group)
  pub event_packets : List Packet
  pub next_frame : ℤ
  pub timing_updated : Bool

-- One packet into the group of its index, whose timing is updated when it is the first. A packet of
-- no group panics.
unfoldable pub into_group :
    GroupIndex → Packet → Bool → ℤ → List (GroupIndex × Group) → Result (List (GroupIndex × Group))
unfolding update_frame_timing
into_group index p updated frame [] = panic
into_group index p updated frame ((i, g) ∷ gs) =
    let rest = into_group index p updated frame gs in
    let queued = enqueue_packet g p in
    if same_group i index
    then value ((i, if updated then queued else update_frame_timing queued p frame) ∷ gs)
    else (do others ← rest; value ((i, g) ∷ others))

unfoldable pub distribute_loop : List Packet → ResonatorSource → Result ResonatorSource
unfolding into_group channel_info
distribute_loop [] s = value s
distribute_loop (p ∷ ps) s = elim (is_external_trigger p) [
  | true ↦ distribute_loop ps (record s { event_packets = s.event_packets ++ (p ∷ []) })
  | false ↦ do
    index ← g_index p
    groups ← into_group index p s.timing_updated s.next_frame s.groups
    distribute_loop ps (record s { groups = groups; timing_updated = true })
]

unfoldable pub distribute_packets : List Packet → ResonatorSource → Result ResonatorSource
unfolding distribute_loop
distribute_packets ps s = distribute_loop ps (record s { timing_updated = false })
