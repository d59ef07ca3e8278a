-- ===== src/Packets.antt =====
-- packets/packets.go: the packets of the resonator readout. A byte is a number below 256. The words
-- of a payload are bit patterns. The host stores words with the low byte first.
pub mod Words
pub mod Parse
pub mod Read
pub mod Items
pub mod Safe
pub mod Make
pub mod Print
pub mod Sent
mod Runs
use dastard.Base.{
  ℕ, zero, suc, ◌+◌, ◌-◌, ◌*◌, ◌/◌, ◌%◌, ◌^◌, ◌==◌, Bool, true, false, List, [], ◌∷◌, ◌++◌, Option,
  none, some, if◌then◌else◌, leb, ltb, length, get_elem?, take, drop,
}
use dastard.Base.Int.{ℤ, pos}

pub data Endian : Type 0 where
  big little : Endian

-- The kinds of `reflect` that a format names.
pub data Kind : Type 0 where
  padding int8 uint8 int16 uint16 int32 uint32 int64 uint64 : Kind

pub record PayloadFormat : Type 0 where
  pub endian : Option Endian
  pub rawfmt : List ℕ
  pub wordlen : ℕ
  pub nvals : ℕ
  pub dtype : List Kind

-- `rate` is the bit pattern of a float.
pub record PacketTimestamp : Type 0 where
  pub ticks : ℕ
  pub rate : ℕ

-- The objects that parseTLV makes.
pub data Tlv : Type 0 where
  tag : ℕ → Tlv
  counter : ℕ → ℕ → Tlv
  timestamp : PacketTimestamp → Tlv
  format : PayloadFormat → Tlv
  shape : List ℤ → Tlv
  chan_offset : ℕ → Tlv
  label : List ℕ → Tlv

pub data Payload : Type 0 where
  no_data : Payload
  words16 words32 words64 raw_bytes : List ℕ → Payload

pub record Packet : Type 0 where
  pub version : ℕ
  pub header_length : ℕ
  pub payload_length : ℕ
  pub source_id : ℕ
  pub sequence_number : ℕ
  pub packet_length : ℕ
  pub packet_format : Option PayloadFormat
  pub packet_shape : Option (List ℤ)
  pub packet_timestamp : Option PacketTimestamp
  pub payload_label : List ℕ
  pub offset : ℕ
  pub explicit_offset : Bool
  pub other_tlv : List Tlv
  pub payload : Payload

-- The floating-point code on time stamps: 1e9; the rate of a unit given by numerator, denominator
-- and the byte of the exponent; and the numerator and denominator that Bytes writes for a rate.
pub record RateOps : Type 0 where
  pub giga : ℕ
  pub rate_of_unit : ℕ → ℕ → ℕ → ℕ
  pub unit_of_rate : ℕ → ℕ × ℕ

abbrev pub packet_magic : ℕ
packet_magic = 0x810b_00ff

abbrev pub max_packet_length : ℕ
max_packet_length = 8192

-- What a call returns: a value, an error, or not at all, for a panic or want of fuel.
pub data Error : Type 0 where
  short_read bad_header_length bad_magic not_in_eights too_long no_length bad_tag bad_counter
        bad_timestamp bad_character no_sizes bad_padding bad_kind bad_swap over_length empty_queue :
      Error

pub data Result {ℓ} (A : Type ℓ) : Type ℓ where
  value : A → Result A
  failed : Error → Result A
  panic : Result A
  stuck : Result A

infixl 5 ◌>>=◌
abbrev pub ◌>>=◌ {ℓ κ} : {A : Type ℓ} {B : Type κ} → Result A → (A → Result B) → Result B
value a >>= next = next a
failed e >>= next = failed e
panic >>= next = panic
stuck >>= next = stuck

-- `data[i]`
abbrev pub byte_at : List ℕ → ℕ → Result ℕ
byte_at bytes i = elim (get_elem? bytes i) [ none ↦ panic | some b ↦ value b ]

-- `io.ReadFull` of `n` bytes, and what is left to read.
abbrev pub read_full : ℕ → List ℕ → Result (List ℕ × List ℕ)
read_full n bytes =
    if leb n (length bytes) then value (take n bytes, drop n bytes) else failed short_read
