-- ===== src/Packets/Parse.antt =====
-- parseTLV of packets/packets.go: the items of a packet's header.
use dastard.Base.{
  ℕ, zero, suc, ◌+◌, ◌-◌, ◌*◌, ◌%◌, ◌^◌, ◌==◌, not, ◌||◌, List, [], ◌∷◌, ◌++◌, Option, none, some,
  if◌then◌else◌, leb, ltb, length, take, drop,
}
use dastard.Base.Int.{ℤ, pos, ltb_ℤ}
use dastard.Base.Words
use Prim.Native.Nat.{bit_and}
use dastard.Packets.{
  big, little, Kind, padding, int8, uint8, int16, uint16, int32, uint32, int64, uint64,
  PayloadFormat, Tlv, tag, counter, timestamp, format, shape, chan_offset, label, RateOps,
  not_in_eights, too_long, no_length, bad_tag, bad_counter, bad_timestamp, bad_character, no_sizes,
  bad_padding, Result, value, failed, stuck, ◌>>=◌, byte_at,
}
use dastard.Packets.Words.{uint16_of}

abbrev pub uint16_at : List ℕ → ℕ → Result ℕ
uint16_at bytes i = do a ← byte_at bytes i; b ← byte_at bytes (i + 1); value (uint16_of a b)

abbrev pub uint32_at : List ℕ → ℕ → Result ℕ
uint32_at bytes i = do
  hi ← uint16_at bytes i
  lo ← uint16_at bytes (i + 2)
  value (hi * 0x1_0000 + lo)

abbrev pub uint64_at : List ℕ → ℕ → Result ℕ
uint64_at bytes i = do
  hi ← uint32_at bytes i
  lo ← uint32_at bytes (i + 4)
  value (hi * 0x1_0000_0000 + lo)

abbrev pub add_data_component : PayloadFormat → Kind → ℕ → PayloadFormat
add_data_component f t nb = record f {
  dtype = f.dtype ++ (t ∷ []);
  nvals = f.nvals + 1;
  wordlen = f.wordlen + nb;
}

-- One character of a format. A byte from 128 on belongs to a rune that the switch does not name.
unfoldable pub add_char : PayloadFormat → ℕ → Result PayloadFormat
add_char f c =
    if c == 0 || c == 32
    then value f
    else if c == 33 || c == 62
    then value (record f { endian = some big })
    else if c == 60
    then value (record f { endian = some little })
    else if c == 120
    then value (add_data_component f padding 1)
    else if c == 98
    then value (add_data_component f int8 1)
    else if c == 66
    then value (add_data_component f uint8 1)
    else if c == 104
    then value (add_data_component f int16 2)
    else if c == 72
    then value (add_data_component f uint16 2)
    else if c == 105 || c == 108
    then value (add_data_component f int32 4)
    else if c == 73 || c == 76
    then value (add_data_component f uint32 4)
    else if c == 113
    then value (add_data_component f int64 8)
    else if c == 81
    then value (add_data_component f uint64 8)
    else failed bad_character

unfoldable pub add_chars : PayloadFormat → List ℕ → Result PayloadFormat
unfolding add_char
add_chars f [] = value f
add_chars f (c ∷ cs) = do g ← add_char f c; add_chars g cs

abbrev pub no_format : List ℕ → PayloadFormat
no_format raw = record { endian = none; rawfmt = raw; wordlen = 0; nvals = 0; dtype = [] }

-- The sizes of a SHAPE item: words of 16 bits from byte `i` on, as long as `i < tlvsize`, of which
-- the positive ones are kept.
unfoldable pub shape_sizes : ℕ → List ℕ → ℕ → ℕ → Result (List ℤ)
shape_sizes zero bytes tlvsize i = stuck
shape_sizes (suc fuel) bytes tlvsize i =
    let rest = shape_sizes fuel bytes tlvsize (i + 2) in
    if leb tlvsize i then value [] else (do
      w ← uint16_at bytes i
      sizes ← rest
      value (if ltb_ℤ (pos 0) (Words.int16 w) then Words.int16 w ∷ sizes else sizes))

-- The uint64 of MakeTimestamp, shifted to the left by 16 bits.
abbrev pub shifted_time : ℕ → ℕ → ℕ
shifted_time x y = (x * 0x1_0000_0000 + y) * 0x1_0000 % 0x1_0000_0000_0000_0000

-- The cases of the switch, each with the bytes that are left and the size of its item.
unfoldable pub parse_tag : List ℕ → Result (Option Tlv)
parse_tag bytes = do
  x ← uint16_at bytes 2
  t ← uint32_at bytes 4
  if x == 0 then value (some (tag t)) else failed bad_tag

unfoldable pub parse_timestamp : RateOps → List ℕ → Result (Option Tlv)
parse_timestamp ops bytes = do
  x ← uint16_at bytes 2
  y ← uint32_at bytes 4
  value (some (timestamp (record { ticks = shifted_time x y; rate = ops.giga })))

unfoldable pub parse_counter : List ℕ → ℕ → Result (Option Tlv)
parse_counter bytes tlvsize =
    if not (tlvsize == 8)
    then failed bad_counter
    else (do id ← uint16_at bytes 2; count ← uint32_at bytes 4; value (some (counter id count)))

-- The mask of the low `nbits` bits, for up to 64 of them.
abbrev pub masked : ℕ → ℕ → Result ℕ
masked nbits t =
    if ltb nbits 64
    then value (bit_and t (2 ^ nbits - 1))
    else if nbits == 64
    then value t
    else failed bad_timestamp

unfoldable pub parse_timestamp_unit : RateOps → List ℕ → ℕ → Result (Option Tlv)
parse_timestamp_unit ops bytes tlvsize = if ltb tlvsize 16 then failed bad_timestamp else (do
  nbits ← byte_at bytes 2
  exp ← byte_at bytes 3
  num ← uint16_at bytes 4
  denom ← uint16_at bytes 6
  t ← uint64_at bytes 8
  u ← masked nbits t
  value (some (timestamp (record { ticks = u; rate = ops.rate_of_unit num denom exp }))))

unfoldable pub parse_format : List ℕ → ℕ → Result (Option Tlv)
unfolding add_chars add_char
parse_format bytes tlvsize = do
  let raw = drop 2 (take tlvsize bytes)
  f ← add_chars (no_format raw) raw
  value (some (format f))

abbrev pub some_sizes : List ℤ → Result (Option Tlv)
some_sizes [] = failed no_sizes
some_sizes (d ∷ ds) = value (some (shape (d ∷ ds)))

unfoldable pub parse_shape : List ℕ → ℕ → Result (Option Tlv)
unfolding shape_sizes Words.int16
parse_shape bytes tlvsize = do sizes ← shape_sizes (suc tlvsize) bytes tlvsize 2; some_sizes sizes

unfoldable pub parse_chan_offset : List ℕ → Result (Option Tlv)
parse_chan_offset bytes = do
  pad ← uint16_at bytes 2
  offset ← uint32_at bytes 4
  if pad == 0 then value (some (chan_offset offset)) else failed bad_padding

-- The switch on the type of an item. An item of another type is passed over.
unfoldable pub parse_item : RateOps → ℕ → List ℕ → ℕ → Result (Option Tlv)
unfolding parse_tag parse_timestamp parse_counter parse_timestamp_unit parse_format add_chars
    add_char parse_shape shape_sizes parse_chan_offset Words.int16
parse_item ops t bytes tlvsize =
    if t == 0x09
    then parse_tag bytes
    else if t == 0x11
    then parse_timestamp ops bytes
    else if t == 0x12
    then parse_counter bytes tlvsize
    else if t == 0x13
    then parse_timestamp_unit ops bytes tlvsize
    else if t == 0x21
    then parse_format bytes tlvsize
    else if t == 0x22
    then parse_shape bytes tlvsize
    else if t == 0x23
    then parse_chan_offset bytes
    else if t == 0x29
    then value (some (label (drop 2 (take tlvsize bytes))))
    else value none

abbrev pub with_item : Option Tlv → List Tlv → List Tlv
with_item none items = items
with_item (some item) items = item ∷ items

unfoldable pub parse_loop : ℕ → RateOps → List ℕ → Result (List Tlv)
unfolding parse_item parse_tag parse_timestamp parse_counter parse_timestamp_unit parse_format
    add_chars add_char parse_shape shape_sizes parse_chan_offset Words.int16
parse_loop zero ops bytes = stuck
parse_loop (suc fuel) ops [] = value []
parse_loop (suc fuel) ops (t ∷ tail) =
    if ltb (length (t ∷ tail)) 8 then failed not_in_eights else (do
      size ← byte_at (t ∷ tail) 1
      let tlvsize : ℕ = 8 * size
      let rest = parse_loop fuel ops (drop tlvsize (t ∷ tail))
      if ltb (length (t ∷ tail)) tlvsize
          then failed too_long
          else if leb tlvsize 0
          then failed no_length
          else (do
            item ← parse_item ops t (t ∷ tail) tlvsize
            items ← rest
            value (with_item item items)))

-- Every item takes at least 8 bytes, so the loop has more rounds than it needs.
abbrev pub parse_tlv : RateOps → List ℕ → Result (List Tlv)
parse_tlv ops bytes = parse_loop (suc (length bytes)) ops bytes
