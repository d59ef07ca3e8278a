-- ===== src/Resonator/Demux/Queue.antt =====
-- The copies that demuxData fills are the columns of the data in the queue.
use dastard.Base.{
  ℕ, suc, ◌+◌, ◌*◌, ◌/◌, ◌==◌, ◌≤◌, ◌<◌, ◌≡◌, refl, sym, ap, ◌∙◌, true, false, List, [], ◌∷◌, ◌++◌,
  ltb, length, length-append, append-nil, append_assoc, drop-append, All, arith, lt→ltb, ge→ltb,
}
use native.Mathlib.Nat.{add-mul}
use dastard.Base.Int.{pos, ltb_ℤ, int_laws}
use dastard.Packets.{Packet, Payload, words16, value}
use dastard.Packets.Print.{frames}
use dastard.Resonator.{Group, GroupIndex, same_group, g_index}
use dastard.Resonator.Demux.{
  Demuxed, demux_payload, account, demux_loop, demux_start, demux_packets,
}
use dastard.Resonator.Demux.Columns.{AreColumns, Wide, copy_channels-AreColumns}

abbrev pub words_in : Payload → List ℕ
words_in (words16 ws) = ws
words_in _ = []

-- The frames of a packet in a group of `nchan` channels.
abbrev pub frame_count : ℕ → Packet → ℕ
frame_count nchan p = length (words_in p.payload) / nchan

abbrev pub total : ℕ → List Packet → ℕ
total nchan [] = 0
total nchan (p ∷ ps) = frame_count nchan p + total nchan ps

-- The samples of the packets one after another.
abbrev pub stream : List Packet → List ℕ
stream [] = []
stream (p ∷ ps) = words_in p.payload ++ stream ps

-- A packet of the group: whole frames of int16 data, as many as Frames says.
pub record IsSample (index : GroupIndex) (p : Packet) : Type 0 where
  pub data16 : p.payload ≡ words16 (words_in p.payload)
  pub in_group : g_index p ≡ value index
  pub framed : frames p ≡ value (pos (frame_count index.group_size p))
  pub whole : length (words_in p.payload) ≡ frame_count index.group_size p * index.group_size

-- The packet that ends the loop, when no frame is left to fill.
abbrev pub EndsQueue : GroupIndex → List Packet → Type 0
EndsQueue index [] = Unit {0}
EndsQueue index (p ∷ ps) = IsSample index p × (0 < frame_count index.group_size p)

same_group_refl : (a : GroupIndex) → same_group a a ≡ true
same_group_refl a = ground arith

demux_loop-end :
    (index : GroupIndex) (ps : List Packet) (d : Demuxed)
    → d.frames_left ≡ pos 0
    → EndsQueue index ps
    → demux_loop index ps d ≡ value d
unfolding demux_loop
demux_loop-end index [] d e h = refl
demux_loop-end index (p ∷ ps) d e h =
    let more : ltb 0 (frame_count index.group_size p + 0) ≡ true =
      lt→ltb 0 (frame_count index.group_size p + 0) (omega (arith, h.1)) in
    rw (h.0.in_group, same_group_refl index, h.0.framed, e, more) refl

-- What the loop reaches: `n` frames have been copied, of the words `ws`.
record Reached (nchan width : ℕ) (ws : List ℕ) (n : ℕ) (count : ℕ) (d : Demuxed) : Type 0 where
  columns : AreColumns nchan ws n 0 d.copies
  wide : Wide width d.copies
  channels : length d.copies ≡ nchan
  copied : d.samples_consumed ≡ n
  consumed : d.packets_consumed ≡ count
  counted : length ws ≡ n * nchan

demux_step :
    (index : GroupIndex) (p : Packet) (width m count : ℕ) (old : List ℕ) (at : ℕ) (d : Demuxed)
    → 0 < index.group_size
    → IsSample index p
    → at + (frame_count index.group_size p + m) ≤ width
    → d.frames_left ≡ pos (frame_count index.group_size p + m)
    → Reached index.group_size width old at count d
    → (d' : Demuxed) × (demux_payload p.payload index.group_size
          (account d (pos (frame_count index.group_size p)))
        ≡ value d')
      × (d'.frames_left ≡ pos m)
      × Reached index.group_size width
          (old ++ words_in p.payload)
          (at + frame_count index.group_size p)
          (count + 1)
          d'
demux_step index p width m count old at d hc s room left r =
    let nchan : ℕ = index.group_size in
    let some_channels : (nchan == 0) ≡ false = ground arith in
    let ws = words_in p.payload in
    let (copies, e, l, w, f) =
      copy_channels-AreColumns nchan old ws at (frame_count nchan p) width 0 d.copies
        (omega (arith, r.channels)) (omega (arith, room)) r.counted s.whole r.wide r.columns in
    (
      record (account d (pos (frame_count nchan p))) {
        copies = copies;
        samples_consumed = d.samples_consumed + frame_count nchan p;
        total_bytes = d.total_bytes + 2 * length ws;
      },
      ap (λ (x : Payload). demux_payload x nchan (account d (pos (frame_count nchan p)))) s.data16
          ∙ rw (some_channels, r.copied, e) refl,
      rw left (omega int_laws),
      record {
        columns = f;
        wide = w;
        channels = l ∙ r.channels;
        copied = omega (arith, r.copied);
        consumed = omega (arith, r.consumed);
        counted = omega (
          arith,
          length-append old ws,
          r.counted,
          s.whole,
          add-mul at (frame_count nchan p) nchan,
        );
      },
    )

demux_loop-Reached :
    (index : GroupIndex) (ps later : List Packet) (width count : ℕ) (old : List ℕ) (at : ℕ)
    (d : Demuxed)
    → 0 < index.group_size
    → All (IsSample index) ps
    → EndsQueue index later
    → at + total index.group_size ps ≤ width
    → d.frames_left ≡ pos (total index.group_size ps)
    → Reached index.group_size width old at count d
    → (d' : Demuxed) × (demux_loop index (ps ++ later) d ≡ value d')
      × (d'.frames_left ≡ pos 0)
      × Reached index.group_size width
          (old ++ stream ps)
          (at + total index.group_size ps)
          (count + length ps)
          d'
unfolding demux_loop
demux_loop-Reached index [] later width count old at d hc s end room left r =
    let at_zero : at + 0 ≡ at = omega arith in
    let count_zero : count + 0 ≡ count = omega arith in
    (d, demux_loop-end index later d left end, left, rw (append-nil old, at_zero, count_zero) r)
demux_loop-Reached index (p ∷ ps) later width count old at d hc s end room left r =
    let n : ℕ = frame_count index.group_size p in
    let m : ℕ = total index.group_size ps in
    let (d1, e1, l1, r1) =
      demux_step index p width m count old at d hc s.0 (omega (arith, room)) left r in
    let (d2, e2, l2, r2) =
      demux_loop-Reached index ps later width (count + 1) (old ++ words_in p.payload) (at + n) d1 hc
        s.1 end (omega (arith, room)) l1 r1 in
    let enough : ltb (n + m + 0) (n + 0) ≡ false = ge→ltb (n + m + 0) (n + 0) (omega arith) in
    let fits : ltb_ℤ d.frames_left (pos n) ≡ false = rw left enough in
    let places : at + (n + m) ≡ at + n + m = omega arith in
    let counts : count + suc (length ps) ≡ count + 1 + length ps = omega arith in
    (
      d2,
      rw (s.0.in_group, same_group_refl index, s.0.framed, fits, e1, e2) refl,
      l2,
      rw (places, counts, sym (append_assoc old (words_in p.payload) (stream ps))) r2,
    )

no_columns : (nchan c : ℕ) (dcs : List (List ℕ)) → AreColumns nchan [] 0 c dcs
no_columns nchan c [] = tt
no_columns nchan c (dc ∷ dcs) = (λ t l. absurd (omega (arith, l)), no_columns nchan (c + 1) dcs)

-- A group of at least one channel asks for the frames of the first packets `ps` of its queue, into
-- one copy for each channel, each at least so long. When the packets hold whole frames of int16
-- data of the group, and nothing follows them or a packet with at least one frame, then the call
-- returns: it consumes the packets `ps` and leaves the others in the queue, and sample `t` of
-- channel `c` in the copies is sample `t * nchan + c` of the packets' data.
pub demux_packets-AreColumns :
    (g : Group) (ps later : List Packet) (width : ℕ) (copies : List (List ℕ))
    → g.queue ≡ ps ++ later
    → 0 < g.group_index.group_size
    → All (IsSample g.group_index) ps
    → EndsQueue g.group_index later
    → length copies ≡ g.group_index.group_size
    → Wide width copies
    → total g.group_index.group_size ps ≤ width
    → (d : Demuxed) × (demux_packets g copies (pos (total g.group_index.group_size ps))
        ≡ value (record g { queue = later }, d))
      × (d.packets_consumed ≡ length ps)
      × AreColumns g.group_index.group_size
          (stream ps)
          (total g.group_index.group_size ps)
          0
          d.copies
unfolding demux_packets
demux_packets-AreColumns g ps later width copies q hc s end hl hw room =
    let nchan : ℕ = g.group_index.group_size in
    let start : Reached nchan width [] 0 0 (demux_start copies (pos (total nchan ps))) = record {
      columns = no_columns nchan 0 copies;
      wide = hw;
      channels = hl;
      copied = refl;
      consumed = refl;
      counted = omega arith;
    } in
    let (d, e, l, r) =
      demux_loop-Reached g.group_index ps later width 0 [] 0
        (demux_start copies (pos (total nchan ps))) hc s end (omega (arith, room)) refl start in
    let consumed : d.packets_consumed ≡ length ps = omega (arith, r.consumed) in
    let zero_first : 0 + total nchan ps ≡ total nchan ps = omega arith in
    (d, rw (q, e, l, consumed, drop-append ps later) refl, consumed, rw zero_first at r.columns)
