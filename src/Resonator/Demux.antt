-- ===== src/Resonator/Demux.antt =====
-- demuxData of resonator.go: the packets of the queue into one list of samples for each channel.
-- RawType is uint16: the bit pattern of an int16 stands for itself.
pub mod Columns
pub mod Queue
use dastard.Base.{
  ℕ, zero, suc, ◌+◌, ◌-◌, ◌*◌, ◌/◌, ◌%◌, ◌==◌, Bool, true, false, not, List, [], ◌∷◌, ◌++◌, Option,
  none, some, if◌then◌else◌, leb, ltb, length, set, drop, get_elem?,
}
use dastard.Base.Int.{ℤ, pos, ◌-ℤ◌, ltb_ℤ}
use dastard.Unwrap.{PhaseUnwrapper, unwrap_in_place}
use dastard.Packets.{
  Packet, Payload, words16, words32, Result, value, failed, panic, stuck, ◌>>=◌, byte_at,
}
use dastard.Packets.Print.{frames}
use dastard.Resonator.{Group, GroupIndex, same_group, g_index}

-- `RawType(d / 0x10000)` of an int32: the quotient is rounded towards zero.
unfoldable pub high_word : ℕ → ℕ
high_word w =
    if ltb w 0x8000_0000
    then w / 0x1_0000
    else (0x1_0000 - (0x1_0000_0000 - w) / 0x1_0000) % 0x1_0000

-- `dc[i] = v`
abbrev pub put : List ℕ → ℕ → ℕ → Result (List ℕ)
put dc i v = if ltb i (length dc) then value (set dc i v) else panic

-- The loop over the samples of one channel, from place `j` of the packet and place `at` of the copy
-- on, with `k` rounds left.
unfoldable pub copy_samples : (ℕ → ℕ) → List ℕ → ℕ → ℕ → ℕ → ℕ → List ℕ → Result (List ℕ)
copy_samples raw ws nchan at j zero dc = value dc
copy_samples raw ws nchan at j (suc k) dc = do
  w ← byte_at ws j
  dc' ← put dc at (raw w)
  copy_samples raw ws nchan (at + 1) (j + nchan) k dc'

-- The loop over the copies, of which `idx` is the first that is left.
unfoldable pub copy_channels :
    (ℕ → ℕ) → List ℕ → ℕ → ℕ → ℕ → ℕ → List (List ℕ) → Result (List (List ℕ))
unfolding copy_samples
copy_channels raw ws nchan at k idx [] = value []
copy_channels raw ws nchan at k idx (dc ∷ dcs) = do
  dc' ← copy_samples raw ws nchan at idx k dc
  dcs' ← copy_channels raw ws nchan at k (idx + 1) dcs
  value (dc' ∷ dcs')

-- The variables of the loop over the packets.
pub record Demuxed : Type 0 where
  pub copies : List (List ℕ)
  pub frames_left : ℤ
  pub packets_consumed : ℕ
  pub samples_consumed : ℕ
  pub total_bytes : ℕ

abbrev pub demux_words : (ℕ → ℕ) → ℕ → List ℕ → ℕ → Demuxed → Result Demuxed
demux_words raw bytes ws nchan d = if nchan == 0 then panic else (do
  let nsamp : ℕ = length ws / nchan
  copies ← copy_channels raw ws nchan d.samples_consumed nsamp 0 d.copies
  value (record d {
    copies = copies;
    samples_consumed = d.samples_consumed + nsamp;
    total_bytes = d.total_bytes + bytes * length ws;
  }))

abbrev pub as_is : ℕ → ℕ
as_is w = w

abbrev pub demux_payload : Payload → ℕ → Demuxed → Result Demuxed
demux_payload (words16 ws) nchan d = demux_words as_is 2 ws nchan d
demux_payload (words32 ws) nchan d = demux_words high_word 4 ws nchan d
demux_payload _ nchan d = panic

abbrev pub account : Demuxed → ℤ → Demuxed
account d n = record d {
  frames_left = d.frames_left -ℤ n;
  packets_consumed = d.packets_consumed + 1;
}

-- The loop stops at a packet with more frames than are left.
unfoldable pub demux_loop : GroupIndex → List Packet → Demuxed → Result Demuxed
unfolding copy_channels high_word frames ◌-ℤ◌
demux_loop index [] d = value d
demux_loop index (p ∷ ps) d = do
  gidx ← g_index p
  if not (same_group gidx index) then panic else (do
    available ← frames p
    if ltb_ℤ d.frames_left available then value d else (do
      d' ← demux_payload p.payload index.group_size (account d available)
      demux_loop index ps d'))

abbrev pub demux_start : List (List ℕ) → ℤ → Demuxed
demux_start copies n = record {
  copies = copies;
  frames_left = n;
  packets_consumed = 0;
  samples_consumed = 0;
  total_bytes = 0;
}

-- demuxData up to the phase unwrapping: the group with its shorter queue, and the loop's variables.
unfoldable pub demux_packets : Group → List (List ℕ) → ℤ → Result (Group × Demuxed)
unfolding demux_loop
demux_packets g copies n = do
  d ← demux_loop g.group_index g.queue (demux_start copies n)
  if ltb_ℤ (pos 0) d.frames_left
      then panic
      else value (record g { queue = drop d.packets_consumed g.queue }, d)

-- UnwrapInPlace of the channels that have an unwrapper. They share no data, so the order is free.
unfoldable pub unwrap_all :
    List (Option PhaseUnwrapper)
    → List (List ℕ)
    → Result (List (Option PhaseUnwrapper) × List (List ℕ))
unfolding unwrap_in_place
unwrap_all [] dcs = value ([], dcs)
unwrap_all (none ∷ us) [] = do r ← unwrap_all us []; value (none ∷ r.0, r.1)
unwrap_all (none ∷ us) (dc ∷ dcs) = do r ← unwrap_all us dcs; value (none ∷ r.0, dc ∷ r.1)
unwrap_all (some u ∷ us) [] = panic
unwrap_all (some u ∷ us) (dc ∷ dcs) = do
  r ← unwrap_all us dcs
  let done = unwrap_in_place u dc
  value (some done.0 ∷ r.0, done.1 ∷ r.1)

-- What the call leaves: the group, the copies and the bytes that it returns.
unfoldable pub demux_data : Group → List (List ℕ) → ℤ → Result (Group × List (List ℕ) × ℕ)
unfolding demux_packets unwrap_all
demux_data g copies n = do
  r ← demux_packets g copies n
  u ← unwrap_all g.unwrappers r.1.copies
  value (record r.0 { unwrappers = u.0 }, u.1, r.1.total_bytes)
