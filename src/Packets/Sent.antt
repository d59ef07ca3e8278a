-- ===== src/Packets/Sent.antt =====
-- A packet with data in its bytes, and what ReadPacket makes of them.
use dastard.Base.{
  ℕ, ◌+◌, ◌*◌, ◌/◌, ◌%◌, ◌==◌, ◌<◌, ◌≤◌, ◌≡◌, refl, sym, true, false, List, [], ◌∷◌, ◌++◌, some,
  leb, ltb, length, length-append, take-append, drop-append, arith, le→leb, lt→ltb, ge→ltb,
}
use dastard.Base.Int.{pos}
use dastard.Base.Words
use dastard.Packets.{
  little, int16, PayloadFormat, Tlv, format, shape, chan_offset, words16, Packet, RateOps,
  packet_magic, max_packet_length, value, ◌>>=◌, read_full,
}
use dastard.Packets.Words.{be16, be32, uint16_of, bytes_of}
use dastard.Packets.Words.Swapped.{Below, words_of16-bytes_of, length-bytes_of}
use dastard.Packets.Parse.{
  add_char, add_chars, shape_sizes, parse_format, parse_shape, parse_chan_offset, parse_item,
  parse_loop, parse_tlv,
}
use dastard.Packets.Read.{store_items, read_body, header_of, read_packet}
use dastard.Packets.Make.{new_packet, new_data}
use dastard.Packets.Print.{to_bytes, content_bytes, shape_bytes, data_bytes, offset_bytes}

read_full-append :
    (n : ℕ) (xs ys : List ℕ) → length xs ≡ n → read_full n (xs ++ ys) ≡ value (xs, ys)
read_full-append n xs ys e =
    let enough : leb n (length (xs ++ ys)) ≡ true =
      le→leb n (length (xs ++ ys)) (omega (arith, e, length-append xs ys)) in
    rw (enough, sym e, take-append xs ys, drop-append xs ys) refl

-- The bytes of a packet of int16 data in one dimension, as a list in three parts.
header16 : (version plen source sn : ℕ) → List ℕ
header16 version plen source sn =
    version ∷ 40 ∷ be16 plen ++ be32 packet_magic ++ be32 source ++ be32 sn

items16 : ℕ → ℕ → List ℕ
items16 first n =
    offset_bytes first
    ++ (0x21 ∷ 1 ∷ 60 ∷ 104 ∷ 0 ∷ 0 ∷ 0 ∷ 0 ∷ [])
    ++ (0x22 ∷ 1 ∷ be16 n ++ (0 ∷ 0 ∷ 0 ∷ 0 ∷ []))

abbrev pub format16 : PayloadFormat
format16 = record {
  endian = some little;
  rawfmt = 60 ∷ 104 ∷ 0 ∷ 0 ∷ 0 ∷ 0 ∷ [];
  wordlen = 2;
  nvals = 1;
  dtype = int16 ∷ [];
}

small_word : (n : ℕ) → n < 0x8000 → Words.int16 (uint16_of (n / 256 % 256) (n % 256)) ≡ pos n
unfolding Words.int16
small_word n h =
    let whole : n / 256 % 256 * 256 + n % 256 ≡ n = omega (arith, h) in
    rw (whole, lt→ltb n 0x8000 h) refl

pub whole16 : (n : ℕ) → n < 0x1_0000 → uint16_of (n / 256 % 256) (n % 256) ≡ n
whole16 n h = omega (arith, h)

pub whole32 :
    (n : ℕ)
    → n < 0x1_0000_0000
    → uint16_of (n / 0x100_0000 % 256) (n / 0x1_0000 % 256) * 0x1_0000
        + uint16_of (n / 256 % 256) (n % 256)
      ≡ n
whole32 n h = omega (arith, h)

parse-items16 :
    (ops : RateOps) (first n : ℕ)
    → first < 0x1_0000_0000
    → 0 < n
    → n < 0x8000
    → parse_tlv ops (items16 first n)
      ≡ value (chan_offset first ∷ format format16 ∷ shape (pos n ∷ []) ∷ [])
unfolding items16 parse_loop parse_item parse_chan_offset parse_format add_chars add_char
    parse_shape shape_sizes
parse-items16 ops first n hf hn hm =
    let positive : ltb 0 (n + 0) ≡ true = lt→ltb 0 (n + 0) (omega arith) in
    rw (small_word n hm, positive, whole32 first hf) refl

-- What ReadPacket makes of such a packet.
abbrev pub received : (version source sn first n : ℕ) → List ℕ → Packet
received version source sn first n ws = record (header_of version 40 (2 * length ws) source sn) {
  packet_format = some format16;
  packet_shape = some (pos n ∷ []);
  offset = first;
  explicit_offset = true;
  payload = words16 ws;
}

read-body16 :
    (p : Packet) (ws rest : List ℕ)
    → p.payload_length ≡ 2 * length ws
    → 0 < length ws
    → Below 65536 ws
    → read_body (some format16) p (bytes_of 2 ws ++ rest)
      ≡ value (record p { payload = words16 ws }, rest)
read-body16 p ws rest e h hw =
    let some_data : (p.payload_length == 0) ≡ false = ground arith in
    let whole : p.payload_length / 2 * 2 ≡ 2 * length ws = omega (arith, e) in
    rw
      (
        some_data,
        whole,
        read_full-append (2 * length ws) (bytes_of 2 ws) rest (length-bytes_of 2 ws),
        words_of16-bytes_of ws hw,
      )
      refl

read-header16 :
    (ops : RateOps) (version plen source sn : ℕ) (input : List ℕ)
    → version < 256
    → plen < 65536
    → source < 0x1_0000_0000
    → sn < 0x1_0000_0000
    → read_packet ops (header16 version plen source sn ++ input) ≡ (do
      h ← read_full 24 input
      items ← parse_tlv ops h.0
      let p = store_items (header_of version 40 plen source sn) items
      read_body p.packet_format p h.1)
unfolding read_packet header16
read-header16 ops version plen source sn input hv hp hs hn =
    rw
      (
        read_full-append 16 (header16 version plen source sn) input refl,
        whole16 plen hp,
        whole32 source hs,
        whole32 sn hn,
      )
      refl

read-sent16 :
    (ops : RateOps) (version source sn first n : ℕ) (ws rest : List ℕ)
    → version < 256
    → source < 0x1_0000_0000
    → sn < 0x1_0000_0000
    → first < 0x1_0000_0000
    → 0 < n
    → n < 0x8000
    → 0 < length ws
    → 2 * length ws < 65536
    → Below 65536 ws
    → read_packet ops
        (header16 version (2 * length ws) source sn ++ (items16 first n ++ (bytes_of 2 ws ++ rest)))
      ≡ value (received version source sn first n ws, rest)
unfolding items16
read-sent16 ops version source sn first n ws rest hv hs hn hf h0 h1 hl hb hw =
    let items : List Tlv = chan_offset first ∷ format format16 ∷ shape (pos n ∷ []) ∷ [] in
    let p : Packet = store_items (header_of version 40 (2 * length ws) source sn) items in
    rw
      (
        read-header16 ops version (2 * length ws) source sn
            (items16 first n ++ (bytes_of 2 ws ++ rest)) hv hb hs hn,
        read_full-append 24 (items16 first n) (bytes_of 2 ws ++ rest) refl,
        parse-items16 ops first n hf h0 h1,
        read-body16 p ws rest refl hl hw,
      )
      refl

-- A packet made by NewPacket for a channel that a uint32 holds, with between 1 and 4076 int16
-- samples and one dimension between 1 and 32767, has a form in bytes; ReadPacket reads this form
-- back, whatever follows it, as a packet of the same data, channels, source and sequence number,
-- and leaves what follows.
pub read_packet-to_bytes :
    (ops : RateOps) (version source sn first n : ℕ) (ws rest : List ℕ)
    → version < 256
    → source < 0x1_0000_0000
    → first < 0x1_0000_0000
    → 0 < n
    → n < 0x8000
    → 0 < length ws
    → length ws ≤ 4076
    → Below 65536 ws
    → (do
      q ← new_data (new_packet version source sn (pos first)) (words16 ws) (pos n ∷ [])
      bytes ← to_bytes ops q.0
      read_packet ops (bytes ++ rest))
      ≡ value (received version source ((sn + 1) % 0x1_0000_0000) first n ws, rest)
unfolding new_data to_bytes content_bytes shape_bytes data_bytes Words.to_u16 header16 items16
read_packet-to_bytes ops version source sn first n ws rest hv hs hf h0 h1 hl hb hw =
    let short : 2 * length ws % 65536 ≡ 2 * length ws = omega (arith, hb) in
    let fits : ltb max_packet_length (40 + 2 * length ws) ≡ false =
      ge→ltb max_packet_length (40 + 2 * length ws) (omega arith) in
    let same : first % 0x1_0000_0000 ≡ first = omega (arith, hf) in
    let size : n % 0x1_0000 ≡ n = omega (arith, h1) in
    rw (short, fits, same, size)
      (read-sent16 ops version source ((sn + 1) % 0x1_0000_0000) first n ws rest hv hs (omega arith)
        hf h0 h1 hl (omega (arith, hb)) hw)
