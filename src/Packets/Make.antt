-- ===== src/Packets/Make.antt =====
-- The methods of Packet in packets/packets.go that make a packet and fill it.
use dastard.Base.{
  ℕ, ◌+◌, ◌-◌, ◌*◌, ◌/◌, ◌%◌, false, List, [], ◌∷◌, Option, none, some, if◌then◌else◌, ltb, length,
}
use dastard.Base.Int.{ℤ, pos, negsuc}
use dastard.Packets.{
  little, int16, int32, int64, PayloadFormat, PacketTimestamp, Payload, no_data, words16, words32,
  words64, raw_bytes, Packet, max_packet_length, Error, bad_kind, over_length, Result, value, panic,
  ◌>>=◌,
}

-- `uint32(z)` of an int.
abbrev pub to_u32 : ℤ → ℕ
to_u32 (pos n) = n % 0x1_0000_0000
to_u32 (negsuc n) = 0xffff_ffff - n % 0x1_0000_0000

abbrev pub empty_packet : Packet
empty_packet = record {
  version = 0;
  header_length = 0;
  payload_length = 0;
  source_id = 0;
  sequence_number = 0;
  packet_length = 0;
  packet_format = none;
  packet_shape = none;
  packet_timestamp = none;
  payload_label = [];
  offset = 0;
  explicit_offset = false;
  other_tlv = [];
  payload = no_data;
}

abbrev pub new_packet : ℕ → ℕ → ℕ → ℤ → Packet
new_packet version source sn first = record empty_packet {
  version = version;
  header_length = 24;
  source_id = source;
  sequence_number = sn;
  offset = to_u32 first;
}

-- 24 bytes, and 16 more for a time stamp.
abbrev pub bare_length : Option PacketTimestamp → ℕ
bare_length none = 24
bare_length (some ts) = 40

abbrev pub clear_data : Packet → Packet
clear_data p = record p {
  header_length = bare_length p.packet_timestamp;
  payload_length = 0;
  packet_length = bare_length p.packet_timestamp;
  packet_format = none;
  payload = no_data;
  packet_shape = none;
}

-- The header length is a uint8.
abbrev pub set_timestamp : Packet → PacketTimestamp → Packet
set_timestamp p ts = elim p.packet_timestamp [
  | none ↦ record p {
    header_length = (p.header_length + 16) % 256;
    packet_length = p.packet_length + 16;
    packet_timestamp = some ts;
  }
  | some old ↦ record p { packet_timestamp = some ts }
]

-- A packet with a time stamp is at least 16 bytes long.
abbrev pub reset_timestamp : Packet → Packet
reset_timestamp p = elim p.packet_timestamp [
  | none ↦ p
  | some old ↦ record p {
    header_length = (p.header_length + 240) % 256;
    packet_length = p.packet_length - 16;
    packet_timestamp = none;
  }
]

-- The first characters of the format, its kind, and the bytes of a word. Other types are an error.
abbrev pub format_of : Payload → Option PayloadFormat
format_of (words16 ws) = some (record {
  endian = some little;
  rawfmt = 60 ∷ 104 ∷ [];
  wordlen = 2;
  nvals = 1;
  dtype = int16 ∷ [];
})
format_of (words32 ws) = some (record {
  endian = some little;
  rawfmt = 60 ∷ 105 ∷ [];
  wordlen = 4;
  nvals = 1;
  dtype = int32 ∷ [];
})
format_of (words64 ws) = some (record {
  endian = some little;
  rawfmt = 60 ∷ 113 ∷ [];
  wordlen = 8;
  nvals = 1;
  dtype = int64 ∷ [];
})
format_of (raw_bytes bs) = none
format_of no_data = none

abbrev pub payload_words : Payload → ℕ
payload_words (words16 ws) = length ws
payload_words (words32 ws) = length ws
payload_words (words64 ws) = length ws
payload_words (raw_bytes bs) = length bs
payload_words no_data = 0

-- `Sizes` has one place: a second dimension panics.
abbrev pub sizes_of : List ℤ → Result (List ℤ)
sizes_of [] = value (pos 0 ∷ [])
sizes_of (d ∷ []) = value (d ∷ [])
sizes_of _ = panic

-- The packet when its payload is in place: the header of a format of 8 bytes and of a shape.
abbrev pub with_data : Packet → PayloadFormat → Payload → ℕ → List ℤ → Packet
with_data p f d ndim sizes =
    let hlen : ℕ = (bare_length p.packet_timestamp + 8 + 8 * ((1 + ndim / 4) % 256)) % 256 in
    let plen : ℕ = f.wordlen * payload_words d % 0x1_0000 in
    record p {
      header_length = hlen;
      payload_length = plen;
      packet_length = hlen + plen;
      packet_format = some f;
      packet_shape = some sizes;
      payload = d;
    }

-- NewData, with the error it returns: the packet is changed before the errors are found.
unfoldable pub new_data : Packet → Payload → List ℤ → Result (Packet × Option Error)
new_data p d dims = elim (format_of d) [
  | none ↦ value (record p { header_length = bare_length p.packet_timestamp }, some bad_kind)
  | some f ↦ do
    sizes ← sizes_of dims
    let q = with_data p f d (length dims) sizes
    value (
        if ltb max_packet_length q.packet_length
        then (q, some over_length)
        else (record q { sequence_number = (q.sequence_number + 1) % 0x1_0000_0000 }, none))
]
