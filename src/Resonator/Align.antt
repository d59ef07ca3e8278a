-- ===== src/Resonator/Align.antt =====
-- trimPacketsBefore, updateFrameTiming and subframeCountFromTimestamp of resonator.go.
use dastard.Base.{
  ℕ, ◌+◌, ◌*◌, ◌%◌, ◌==◌, ◌≤◌, ◌<◌, ◌≡◌, refl, ap, false, List, [], ◌∷◌, ◌++◌, leb, length, All,
  All-imp, leb→le, arith, tests, Bool-cases, inl, inr, lt→ltb,
}
use native.Mathlib.Nat.{mul-div_left}
use dastard.Base.Int.{pos, ◌+ℤ◌, ◌-ℤ◌, int_laws}
use dastard.Packets.{Packet, value}
use dastard.Resonator.Fill.Numbers.{Rising}
use dastard.Resonator.{
  Group, two32, trim_loop, trim_queue, trim_packets_before, int64, uint64, quo_ℤ,
  subframe_count_from_timestamp,
}

trim_loop-cut :
    (first : ℕ) (ps : List Packet)
    → (cut : List Packet) × (ps ≡ cut ++ trim_loop first ps)
      × All (λ (p : Packet). p.sequence_number < first) cut
unfolding trim_loop
trim_loop-cut first [] = ([], refl, tt)
trim_loop-cut first (p ∷ ps) = elim (Bool-cases (leb first p.sequence_number)) [
  | inl e ↦ ([], rw e refl, tt)
  | inr e ↦
      let (cut, c, h) = trim_loop-cut first ps in
      (p ∷ cut, rw e (ap (λ (l : List Packet). p ∷ l) c), (ground arith, h))
]

trim_queue-cut :
    (g : Group) (first : ℕ) (ps : List Packet)
    → 0 < length ps
    → (g' : Group) × (cut : List Packet) × (trim_queue g first ps ≡ value g')
      × (ps ≡ cut ++ g'.queue)
      × All (λ (p : Packet). p.sequence_number < first) cut
      × (g'.queue ≡ trim_loop first ps)
unfolding trim_queue
trim_queue-cut g first [] h = absurd (omega (arith, h))
trim_queue-cut g first (p ∷ ps) h =
    let (cut, e, a) = trim_loop-cut first (p ∷ ps) in
    (record g { queue = trim_loop first (p ∷ ps) }, cut, refl, e, a, refl)

Rising-All :
    (n : ℕ) (ps : List Packet) → Rising n ps → All (λ (p : Packet). n ≤ p.sequence_number) ps
Rising-All n [] r = tt
Rising-All n (p ∷ ps) r = (
  r.0,
  All-imp (λ (q : Packet). p.sequence_number + 1 ≤ q.sequence_number)
      (λ (q : Packet). n ≤ q.sequence_number) (λ q h. omega (arith, h, r.0)) ps
      (Rising-All (p.sequence_number + 1) ps r.2),
)

trim_loop-All :
    (n first : ℕ) (ps : List Packet)
    → Rising n ps
    → All (λ (p : Packet). first ≤ p.sequence_number) (trim_loop first ps)
unfolding trim_loop
trim_loop-All n first [] r = tt
trim_loop-All n first (p ∷ ps) r = elim (Bool-cases (leb first p.sequence_number)) [
  | inl e ↦ rw e (
    leb→le first p.sequence_number e,
    All-imp (λ (q : Packet). p.sequence_number + 1 ≤ q.sequence_number)
        (λ (q : Packet). first ≤ q.sequence_number) (λ q h. omega (tests, h, e)) ps
        (Rising-All (p.sequence_number + 1) ps r.2),
  )
  | inr e ↦ rw e (trim_loop-All (p.sequence_number + 1) first ps r.2)
]

-- For a queue that is not empty and whose sequence numbers increase, trimPacketsBefore returns. It
-- cuts the queue in two: the packets cut off have numbers below the first one wanted, which is the
-- given global number plus the group's offset as a uint32, and those left have numbers from there
-- on.
trim_packets_before-cut :
    (g : Group) (first n : ℕ)
    → 0 < length g.queue
    → Rising n g.queue
    → (g' : Group) × (cut : List Packet) × (trim_packets_before g first ≡ value g')
      × (g.queue ≡ cut ++ g'.queue)
      × All (λ (p : Packet). p.sequence_number < (first + g.seqnumsync) % two32) cut
      × All (λ (p : Packet). (first + g.seqnumsync) % two32 ≤ p.sequence_number) g'.queue
unfolding trim_packets_before
trim_packets_before-cut g first n h r =
    let global : ℕ = (first + g.seqnumsync) % two32 in
    let (g', cut, e, c, a, q) = trim_queue-cut g global g.queue h in
    (g', cut, e, c, a, rw q (trim_loop-All n global g.queue r))

int64-small : (n : ℕ) → n < 0x8000_0000_0000_0000 → int64 n ≡ pos n
unfolding int64
int64-small n h = rw (lt→ltb n 0x8000_0000_0000_0000 h) refl

uint64-pos : (n : ℕ) → n < 0x8000_0000_0000_0000 → uint64 (pos n) ≡ n
unfolding uint64
uint64-pos n h = omega (arith, h)

-- A time stamp that lies `k` subframes after the last one, at `counts` ticks each, is given the
-- number of the last subframe plus `k`. The ticks and the number are below 2^63.
pub subframe_count-after :
    (g : Group) (counts k s : ℕ)
    → g.timing.counts_per_subframe ≡ counts
    → 0 < counts
    → counts < 0x8000_0000_0000_0000
    → g.timing.last_timestamp.ticks + k * counts < 0x8000_0000_0000_0000
    → g.timing.last_subframe ≡ pos s
    → s + k < 0x8000_0000_0000_0000
    → subframe_count_from_timestamp g (g.timing.last_timestamp.ticks + k * counts) ≡ pos (s + k)
unfolding subframe_count_from_timestamp quo_ℤ
subframe_count-after g counts k s hc h0 h1 ht hs hk =
    let t : ℕ = g.timing.last_timestamp.ticks in
    let ticking : (counts == 0) ≡ false = ground arith in
    let apart : pos (t + k * counts) -ℤ pos t ≡ pos (k * counts) = omega int_laws in
    let sum : pos s +ℤ pos k ≡ pos (s + k) = omega int_laws in
    rw
      (
        hc,
        ticking,
        hs,
        int64-small (t + k * counts) ht,
        int64-small t (omega (arith, ht)),
        apart,
        uint64-pos (k * counts) (omega (arith, ht)),
        int64-small (k * counts) (omega (arith, ht)),
        int64-small counts h1,
        mul-div_left k h0,
        sum,
        uint64-pos (s + k) hk,
        int64-small (s + k) hk,
      )
      refl
