-- ===== src/Packets/Print.antt =====
-- The methods of Packet in packets/packets.go that read a packet: Bytes, Frames, ChannelInfo,
-- ReadValue, MakePretendPacket and IsExternalTrigger.
use dastard.Base.{
  ℕ, zero, suc, ◌+◌, ◌-◌, ◌*◌, ◌/◌, ◌%◌, ◌==◌, Bool, true, false, not, ◌&&◌, List, [], ◌∷◌, ◌++◌,
  Option, none, some, if◌then◌else◌, ltb, length, take, replicate,
}
use dastard.Base.Int.{ℤ, pos, negsuc, ltb_ℤ, leb_ℤ, pos_part}
use dastard.Base.Words.{to_u16}
use dastard.Packets.{
  Endian, big, little, PayloadFormat, PacketTimestamp, Payload, no_data, words16, words32, words64,
  raw_bytes, Packet, RateOps, packet_magic, Result, value, panic, ◌>>=◌, byte_at,
}
use dastard.Packets.Words.{be16, be32, be64, le_bytes, bytes_of}

abbrev pub concat_map : (ℕ → List ℕ) → List ℕ → List ℕ
concat_map f [] = []
concat_map f (w ∷ ws) = f w ++ concat_map f ws

-- binary.Write of the data in the order that the format gives. A slice of int16 in any order but
-- big-endian is copied from memory. Words of other sizes need an order.
unfoldable pub data_bytes : Option Endian → Payload → Result (List ℕ)
unfolding bytes_of le_bytes
data_bytes (some big) (words16 ws) = value (concat_map be16 ws)
data_bytes (some big) (words32 ws) = value (concat_map be32 ws)
data_bytes (some big) (words64 ws) = value (concat_map be64 ws)
data_bytes _ (words16 ws) = value (bytes_of 2 ws)
data_bytes (some little) (words32 ws) = value (bytes_of 4 ws)
data_bytes (some little) (words64 ws) = value (bytes_of 8 ws)
data_bytes none (words32 ws) = panic
data_bytes none (words64 ws) = panic
data_bytes _ (raw_bytes bs) = value bs
data_bytes _ no_data = value []

-- The first six characters of the format, filled up with zeros.
abbrev pub padded_format : List ℕ → List ℕ
padded_format raw = take 6 raw ++ replicate (6 - length raw) 0

abbrev pub size_bytes : List ℤ → List ℕ
size_bytes [] = []
size_bytes (d ∷ ds) = be16 (to_u16 d) ++ size_bytes ds

-- The SHAPE item: zeros fill it up when `len % 4` is below 3.
unfoldable pub shape_bytes : List ℤ → List ℕ
unfolding to_u16
shape_bytes sizes =
    0x22 ∷ (1 + length sizes / 4) % 256 ∷ size_bytes sizes
    ++ replicate (2 * (3 - length sizes % 4)) 0

-- The time-stamp item: 64 bits, and 0xf5 for the exponent -11.
abbrev pub timestamp_bytes : RateOps → Option PacketTimestamp → List ℕ
timestamp_bytes ops none = []
timestamp_bytes ops (some ts) =
    let unit = ops.unit_of_rate ts.rate in
    0x13 ∷ 2 ∷ 64 ∷ 0xf5 ∷ be16 unit.0 ++ be16 unit.1 ++ be64 ts.ticks

abbrev pub head_bytes : Packet → List ℕ
head_bytes p =
    p.version ∷ p.header_length ∷ be16 p.payload_length
    ++ be32 packet_magic
    ++ be32 p.source_id
    ++ be32 p.sequence_number

abbrev pub offset_bytes : ℕ → List ℕ
offset_bytes offset = 0x23 ∷ 1 ∷ 0 ∷ 0 ∷ be32 offset

-- The format, the shape and the data, when all three are there.
unfoldable pub content_bytes : Option PayloadFormat → Option (List ℤ) → Payload → Result (List ℕ)
unfolding shape_bytes to_u16 data_bytes bytes_of le_bytes
content_bytes none sizes d = value []
content_bytes (some f) none d = value []
content_bytes (some f) (some sizes) no_data = value []
content_bytes (some f) (some sizes) d = do
  bytes ← data_bytes f.endian d
  value ((0x21 ∷ 1 ∷ padded_format f.rawfmt) ++ shape_bytes sizes ++ bytes)

unfoldable pub to_bytes : RateOps → Packet → Result (List ℕ)
unfolding content_bytes shape_bytes to_u16 data_bytes bytes_of le_bytes
to_bytes ops p = do
  content ← content_bytes p.packet_format p.packet_shape p.payload
  value (head_bytes p ++ offset_bytes p.offset ++ timestamp_bytes ops p.packet_timestamp ++ content)

-- The product of the positive sizes, as the 64 bits of an int.
unfoldable pub channels : List ℤ → ℕ → ℕ
channels [] n = n
channels (d ∷ ds) n =
    channels ds (if ltb_ℤ (pos 0) d then n * pos_part d % 0x1_0000_0000_0000_0000 else n)

-- A quotient by an int of 64 bits, rounded towards zero.
unfoldable pub quotient : ℕ → ℕ → Result ℤ
quotient n d =
    if d == 0
    then panic
    else if ltb d 0x8000_0000_0000_0000
    then value (pos (n / d))
    else let q : ℕ = n / (0x1_0000_0000_0000_0000 - d) in
      value (if q == 0 then pos 0 else negsuc (q - 1))

unfoldable pub frames : Packet → Result ℤ
unfolding channels quotient
frames p = elim p.packet_shape [
  | none ↦ value (pos 0)
  | some sizes ↦ elim p.packet_format [
    | none ↦ panic
    | some f ↦ quotient p.payload_length (f.wordlen * channels sizes 1 % 0x1_0000_0000_0000_0000)
  ]
]

-- The number of channels and the first of them.
unfoldable pub channel_info : Packet → Result (ℕ × ℕ)
unfolding channels
channel_info p = elim p.packet_shape [
  | none ↦ panic
  | some sizes ↦ value (channels sizes 1, p.offset)
]

-- "value,active,t"
abbrev pub trigger_label : List ℕ
trigger_label = 118 ∷ 97 ∷ 108 ∷ 117 ∷ 101 ∷ 44 ∷ 97 ∷ 99 ∷ 116 ∷ 105 ∷ 118 ∷ 101 ∷ 44 ∷ 116 ∷ []

abbrev pub same_bytes : List ℕ → List ℕ → Bool
same_bytes [] [] = true
same_bytes (a ∷ l) (b ∷ m) = a == b && same_bytes l m
same_bytes _ _ = false

abbrev pub is_external_trigger : Packet → Bool
is_external_trigger p = not p.explicit_offset && same_bytes p.payload_label trigger_label

-- `x[i] = d[i % nchan]` for the places from `i` on, of which `k` are left.
unfoldable pub repeat_first : List ℕ → ℕ → ℕ → ℕ → Result (List ℕ)
repeat_first d nchan i zero = value []
repeat_first d nchan i (suc k) =
    if nchan == 0
    then panic
    else (do w ← byte_at d (i % nchan); ws ← repeat_first d nchan (i + 1) k; value (w ∷ ws))

abbrev pub repeated : Payload → ℕ → Result Payload
repeated (words16 ws) nchan = do r ← repeat_first ws nchan 0 (length ws); value (words16 r)
repeated (words32 ws) nchan = do r ← repeat_first ws nchan 0 (length ws); value (words32 r)
repeated (words64 ws) nchan = do r ← repeat_first ws nchan 0 (length ws); value (words64 r)
repeated (raw_bytes bs) nchan = value (raw_bytes bs)
repeated no_data nchan = value no_data

unfoldable pub make_pretend_packet : Packet → ℕ → ℕ → Result Packet
unfolding repeat_first
make_pretend_packet p sn nchan = do
  d ← repeated p.payload nchan
  value (record p { sequence_number = sn; payload = d })

-- The integer of a word of twice `half` values.
abbrev pub signed : ℕ → ℕ → ℤ
signed half w = if ltb w half then pos w else negsuc (2 * half - 1 - w)

abbrev pub sample_at : ℕ → List ℕ → ℕ → Result ℤ
sample_at half ws i = do w ← byte_at ws i; value (signed half w)

abbrev pub sample_of : Payload → ℕ → Result ℤ
sample_of (words16 ws) i = sample_at 0x8000 ws i
sample_of (words32 ws) i = sample_at 0x8000_0000 ws i
sample_of (words64 ws) i = sample_at 0x8000_0000_0000_0000 ws i
sample_of _ i = panic

unfoldable pub read_value : Packet → ℤ → Result ℤ
unfolding frames channels quotient
read_value p (negsuc i) = value (pos 0)
read_value p (pos i) = do
  n ← frames p
  if leb_ℤ n (pos i) then value (pos 0) else sample_of p.payload i
