-- ===== src/Packets/Read.antt =====
-- ReadPacket and ReadPacketPlusPad of packets/packets.go. A reader is the list of the bytes it has
-- still to give.
use dastard.Base.{
  ℕ, ◌+◌, ◌-◌, ◌*◌, ◌/◌, ◌%◌, ◌==◌, true, false, not, List, [], ◌∷◌, ◌++◌, Option, none, some,
  if◌then◌else◌, ltb,
}
use dastard.Base.Words
use dastard.Packets.{
  Endian, big, little, Kind, int16, int32, int64, PayloadFormat, Tlv, tag, counter, timestamp,
  format, shape, chan_offset, label, Payload, no_data, words16, words32, words64, raw_bytes, Packet,
  RateOps, packet_magic, bad_header_length, bad_magic, bad_kind, Result, value, failed, panic,
  ◌>>=◌, byte_at, read_full,
}
use dastard.Packets.Words.{
  le_bytes, le_word, bytes_of, words_of16, words_of32, words_of64, swap_bytes2, swap_bytes4,
  swap_bytes8, byte_swap,
}
use dastard.Packets.Parse.{
  uint16_at, uint32_at, add_char, add_chars, shape_sizes, parse_tag, parse_timestamp, parse_counter,
  parse_timestamp_unit, parse_format, parse_shape, parse_chan_offset, parse_item, parse_loop,
  parse_tlv,
}

-- What ReadPacket stores for an item.
abbrev pub store_item : Packet → Tlv → Packet
store_item p (chan_offset o) = record p { offset = o; explicit_offset = true }
store_item p (shape sizes) = record p { packet_shape = some sizes }
store_item p (format f) = record p { packet_format = some f }
store_item p (timestamp ts) = record p { packet_timestamp = some ts }
store_item p (label l) = record p { payload_label = l }
store_item p (tag t) = record p { other_tlv = p.other_tlv ++ (tag t ∷ []) }
store_item p (counter id count) = record p { other_tlv = p.other_tlv ++ (counter id count ∷ []) }

abbrev pub store_items : Packet → List Tlv → Packet
store_items p [] = p
store_items p (item ∷ items) = store_items (store_item p item) items

-- ByteSwap of the data when the format says that they are in big-endian order.
abbrev pub in_order : Option Endian → Payload → Result Payload
in_order (some big) d = byte_swap d
in_order (some little) d = value d
in_order none d = value d

-- The data of one kind: as many whole words as the payload holds.
abbrev pub read_words : Kind → ℕ → List ℕ → Result (Payload × List ℕ)
read_words int16 n bytes = do r ← read_full (n / 2 * 2) bytes; value (words16 (words_of16 r.0), r.1)
read_words int32 n bytes = do r ← read_full (n / 4 * 4) bytes; value (words32 (words_of32 r.0), r.1)
read_words int64 n bytes = do r ← read_full (n / 8 * 8) bytes; value (words64 (words_of64 r.0), r.1)
read_words _ n bytes = failed bad_kind

abbrev pub read_payload : List Kind → Option Endian → ℕ → List ℕ → Result (Payload × List ℕ)
read_payload (k ∷ []) endian n bytes = do
  r ← read_words k n bytes
  d ← in_order endian r.0
  value (d, r.1)
read_payload _ endian n bytes = do r ← read_full n bytes; value (raw_bytes r.0, r.1)

abbrev pub read_body : Option PayloadFormat → Packet → List ℕ → Result (Packet × List ℕ)
read_body none p bytes = value (p, bytes)
read_body (some f) p bytes = if p.payload_length == 0 then value (p, bytes) else (do
  r ← read_payload f.dtype f.endian p.payload_length bytes
  value (record p { payload = r.0 }, r.1))

-- The fields of the first 16 bytes.
abbrev pub header_of : ℕ → ℕ → ℕ → ℕ → ℕ → Packet
header_of version hlen plen source sn = record {
  version = version;
  header_length = hlen;
  payload_length = plen;
  source_id = source;
  sequence_number = sn;
  packet_length = hlen + plen;
  packet_format = none;
  packet_shape = none;
  packet_timestamp = none;
  payload_label = [];
  offset = 0;
  explicit_offset = false;
  other_tlv = [];
  payload = no_data;
}

unfoldable pub read_packet : RateOps → List ℕ → Result (Packet × List ℕ)
unfolding parse_loop parse_item parse_tag parse_timestamp parse_counter parse_timestamp_unit
    parse_format add_chars add_char parse_shape shape_sizes parse_chan_offset Words.int16 byte_swap
    bytes_of le_bytes le_word words_of16 words_of32 words_of64 swap_bytes2 swap_bytes4 swap_bytes8
read_packet ops input = do
  r ← read_full 16 input
  version ← byte_at r.0 0
  hlen ← byte_at r.0 1
  plen ← uint16_at r.0 2
  if ltb hlen 16 then failed bad_header_length else (do
    magic ← uint32_at r.0 4
    source ← uint32_at r.0 8
    sn ← uint32_at r.0 12
    if not (magic == packet_magic) then failed bad_magic else (do
      h ← read_full (hlen - 16) r.1
      items ← parse_tlv ops h.0
      let p = store_items (header_of version hlen plen source sn) items
      read_body p.packet_format p h.1))

-- A packet, and the padding behind it up to a multiple of `stride` bytes. A stride of 0 panics.
unfoldable pub read_packet_plus_pad : RateOps → List ℕ → ℕ → Result (Packet × List ℕ)
unfolding read_packet
read_packet_plus_pad ops input stride = do
  r ← read_packet ops input
  if stride == 0 then panic else (do
    let overhang : ℕ = r.0.packet_length % stride
    if overhang == 0 then value r else (do s ← read_full (stride - overhang) r.1; value (r.0, s.1)))
