-- ===== src/Packets/Runs.antt =====
-- Runs of packets/packets.go at concrete packets.
use dastard.Base.{ℕ, ◌*◌, ◌/◌, ◌≡◌, refl, List, [], ◌∷◌, ◌++◌, none, arith, replicate}
use dastard.Base.Int.{pos}
use dastard.Packets.{words16, RateOps, value, panic, ◌>>=◌}
use dastard.Packets.Read.{read_packet}
use dastard.Packets.Items.{Returns}
use dastard.Packets.Safe.{read_packet-Returns}
use dastard.Packets.Make.{new_packet, new_data}
use dastard.Packets.Print.{to_bytes, frames}
use dastard.Packets.Sent.{received, read_packet-to_bytes}

-- Rates as counts per second, and their units of 10 ps.
abbrev simple_ops : RateOps
simple_ops = record {
  giga = 1_000_000_000;
  rate_of_unit = λ num denom exp. denom * 100_000_000_000 / num;
  unit_of_rate = λ rate. (100_000_000_000 / rate, 1);
}

-- The header of a packet with a SHAPE item and no FORMAT item.
abbrev shape_only : List ℕ
shape_only =
    1 ∷ 24 ∷ 0 ∷ 0 ∷ 0x81 ∷ 0x0b ∷ 0 ∷ 0xff ∷ 0 ∷ 0 ∷ 0 ∷ 7 ∷ 0 ∷ 0 ∷ 0 ∷ 9 ∷ 0x22 ∷ 1 ∷ 0 ∷ 4 ∷ 0
    ∷ 0 ∷ 0 ∷ 0 ∷ []

-- The reader accepts it, and Frames panics.
frames-shape_only : (do r ← read_packet simple_ops shape_only; frames r.0) ≡ panic
unfolding read_packet frames
frames-shape_only = refl

-- NewData finds 32768 samples short enough: their 65536 bytes are counted as none.
new_data-wrapped :
    (do
      q ← new_data (new_packet 1 2 3 (pos 4)) (words16 (replicate 32768 0)) (pos 1 ∷ [])
      value q.1)
    ≡ value none
unfolding new_data
new_data-wrapped = refl

read_packet-Returns_example : Returns (read_packet simple_ops shape_only)
read_packet-Returns_example = read_packet-Returns simple_ops shape_only

read_packet-to_bytes_example :
    (do
      q ← new_data (new_packet 1 7 9 (pos 64)) (words16 (10 ∷ 65535 ∷ 30 ∷ 40 ∷ [])) (pos 2 ∷ [])
      bytes ← to_bytes simple_ops q.0
      read_packet simple_ops (bytes ++ (0 ∷ [])))
    ≡ value (received 1 7 10 64 2 (10 ∷ 65535 ∷ 30 ∷ 40 ∷ []), 0 ∷ [])
read_packet-to_bytes_example =
    read_packet-to_bytes simple_ops 1 7 9 64 2 (10 ∷ 65535 ∷ 30 ∷ 40 ∷ []) (0 ∷ []) (omega arith)
      (omega arith) (omega arith) (omega arith) (omega arith) (omega arith) (omega arith)
      (omega arith, (omega arith, (omega arith, (omega arith, tt))))
