-- ===== src/Resonator/Fill/Pretend.antt =====
-- MakePretendPacket returns for every payload, when there is a channel.
use dastard.Base.{
  ℕ, zero, suc, ◌+◌, ◌%◌, ◌==◌, ◌≤◌, ◌<◌, ◌≡◌, refl, false, List, [], ◌∷◌, length, arith,
}
use native.Mathlib.Nat.{mod-le}
use dastard.Packets.{Packet, Payload, no_data, words16, words32, words64, raw_bytes, value, byte_at}
use dastard.Packets.Print.{make_pretend_packet, repeat_first, repeated}

byte_at-value : (l : List ℕ) (i : ℕ) → i < length l → (b : ℕ) × (byte_at l i ≡ value b)
byte_at-value [] i h = absurd (omega (arith, h))
byte_at-value (b ∷ l) zero h = (b, refl)
byte_at-value (b ∷ l) (suc i) h = byte_at-value l i (omega (arith, h))

repeat_first-value :
    (d : List ℕ) (nchan i k : ℕ)
    → 0 < nchan
    → i + k ≤ length d
    → (ws : List ℕ) × (repeat_first d nchan i k ≡ value ws)
unfolding repeat_first
repeat_first-value d nchan i zero h hk = ([], refl)
repeat_first-value d nchan i (suc k) h hk =
    let some_channels : (nchan == 0) ≡ false = ground arith in
    let (w, ew) = byte_at-value d (i % nchan) (omega (arith, hk, mod-le i nchan)) in
    let (ws, es) = repeat_first-value d nchan (i + 1) k h (omega (arith, hk)) in
    (w ∷ ws, rw (some_channels, ew, es) refl)

repeated-value :
    (d : Payload) (nchan : ℕ) → 0 < nchan → (d' : Payload) × (repeated d nchan ≡ value d')
repeated-value no_data nchan h = (no_data, refl)
repeated-value (raw_bytes bs) nchan h = (raw_bytes bs, refl)
repeated-value (words16 ws) nchan h =
    let (ws', e) = repeat_first-value ws nchan 0 (length ws) h (omega arith) in
    (words16 ws', rw e refl)
repeated-value (words32 ws) nchan h =
    let (ws', e) = repeat_first-value ws nchan 0 (length ws) h (omega arith) in
    (words32 ws', rw e refl)
repeated-value (words64 ws) nchan h =
    let (ws', e) = repeat_first-value ws nchan 0 (length ws) h (omega arith) in
    (words64 ws', rw e refl)

pub make_pretend-value :
    (p : Packet) (sn nchan : ℕ)
    → 0 < nchan
    → (q : Packet) × (make_pretend_packet p sn nchan ≡ value q) × (q.sequence_number ≡ sn)
unfolding make_pretend_packet
make_pretend-value p sn nchan h =
    let (d, e) = repeated-value p.payload nchan h in
    (record p { sequence_number = sn; payload = d }, rw e refl, refl)
