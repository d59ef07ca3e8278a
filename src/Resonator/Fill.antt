-- ===== src/Resonator/Fill.antt =====
-- fillMissingPackets of resonator.go. The capacity that is reserved for the new queue is left out.
pub mod Pretend
pub mod Numbers
use dastard.Base.{
  ℕ, zero, suc, ◌+◌, ◌-◌, ◌*◌, ◌/◌, ◌%◌, ◌==◌, Bool, true, false, List, [], ◌∷◌, ◌++◌, Option, none,
  some, if◌then◌else◌, leb, ltb, length,
}
use dastard.Base.Int.{ℤ, pos, ◌+ℤ◌}
use dastard.Packets.{Packet, Result, value, failed, panic, stuck, ◌>>=◌}
use dastard.Packets.Print.{frames, make_pretend_packet}
use dastard.Resonator.{Group, two32}

-- The new queue, and what was added to it.
pub record Filled : Type 0 where
  pub packets : List Packet
  pub bytes_added : ℕ
  pub packets_added : ℕ
  pub frames_added : ℤ

abbrev pub nothing_filled : Filled
nothing_filled = record { packets = []; bytes_added = 0; packets_added = 0; frames_added = pos 0 }

-- One pretend packet in front of what else is filled in.
abbrev pub put_pretend : Packet → Packet → ℤ → Filled → Filled
put_pretend p pretend n f = record {
  packets = pretend ∷ f.packets;
  bytes_added = f.bytes_added + p.packet_length;
  packets_added = f.packets_added + 1;
  frames_added = f.frames_added +ℤ n;
}

-- The loop `for snexpect < sn`, in its `sn - snexpect` rounds, before the work `next` that follows
-- it.
unfoldable pub fill_gap : Packet → ℕ → ℕ → ℕ → Result Filled → Result Filled
unfolding make_pretend_packet frames ◌+ℤ◌
fill_gap p nchan expected zero next = next
fill_gap p nchan expected (suc rounds) next = do
  pretend ← make_pretend_packet p expected nchan
  n ← frames p
  f ← fill_gap p nchan (expected + 1) rounds next
  value (put_pretend p pretend n f)

abbrev pub put_packet : Packet → Filled → Filled
put_packet p f = record f { packets = p ∷ f.packets }

-- The loop over the queue. After the inner loop, snexpect is the larger of snexpect and sn.
unfoldable pub fill_loop : ℕ → ℕ → List Packet → Result Filled
unfolding fill_gap
fill_loop nchan expected [] = value nothing_filled
fill_loop nchan expected (p ∷ ps) =
    let rounds : ℕ = p.sequence_number - expected in
    let rest = fill_loop nchan ((expected + rounds + 1) % two32) ps in
    fill_gap p nchan expected rounds (do f ← rest; value (put_packet p f))

abbrev pub last_sequence : ℕ → List Packet → ℕ
last_sequence sn [] = sn
last_sequence sn (p ∷ ps) = last_sequence p.sequence_number ps

-- The queue is replaced when a packet was added.
unfoldable pub fill_queue : Group → List Packet → Result (Group × Filled)
unfolding fill_loop
fill_queue g [] = value (g, nothing_filled)
fill_queue g (p ∷ ps) = do
  f ← fill_loop g.group_index.group_size ((g.last_sn + 1) % two32) (p ∷ ps)
  let q = if ltb 0 f.packets_added then f.packets else p ∷ ps
  value (record g { queue = q; last_sn = last_sequence g.last_sn q }, f)

unfoldable pub fill_missing_packets : Group → Result (Group × Filled)
unfolding fill_queue
fill_missing_packets g = fill_queue g g.queue
