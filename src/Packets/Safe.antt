-- ===== src/Packets/Safe.antt =====
-- What a peer can make of ReadPacket by the bytes it sends: no panic, and no loop without end.
use dastard.Base.{
  ℕ, zero, suc, ◌-◌, ◌*◌, ◌/◌, ◌==◌, ◌<◌, ◌≤◌, ◌≡◌, not, List, [], ◌∷◌, Option, none, some,
  if◌then◌else◌, leb, ltb, length, take, drop, length-take, length-drop, arith, tests, Bool-cases,
  inl, inr,
}
use dastard.Packets.{
  Endian, big, little, Kind, padding, int8, uint8, int16, uint16, int32, uint32, int64, uint64,
  PayloadFormat, Payload, no_data, words16, words32, words64, raw_bytes, Packet, RateOps,
  packet_magic, too_long, no_length, Result, value, failed, ◌>>=◌, byte_at, read_full,
}
use dastard.Packets.Words.{byte_swap}
use dastard.Packets.Parse.{uint16_at, uint32_at, parse_item, parse_loop, parse_tlv, with_item}
use dastard.Packets.Read.{
  store_items, in_order, read_words, read_payload, read_body, header_of, read_packet,
}
use dastard.Packets.Items.{
  Returns, choice-Returns, byte_at-Returns, uint16_at-Returns, uint32_at-Returns, parse_tag-Returns,
  parse_timestamp-Returns, parse_counter-Returns, parse_timestamp_unit-Returns,
  parse_format-Returns, parse_shape-Returns, parse_chan_offset-Returns, chain-Returns,
}

parse_item-Returns :
    (ops : RateOps) (t : ℕ) (bytes : List ℕ) (n : ℕ)
    → 8 * suc n ≤ length bytes
    → Returns (parse_item ops t bytes (8 * suc n))
unfolding parse_item
parse_item-Returns ops t bytes n h =
    choice-Returns (t == 0x09) _ _ (λ e. parse_tag-Returns bytes (omega arith))
      (λ e.
        choice-Returns (t == 0x11) _ _ (λ e. parse_timestamp-Returns ops bytes (omega arith))
          (λ e.
            choice-Returns (t == 0x12) _ _
              (λ e. parse_counter-Returns bytes (8 * suc n) (omega arith))
              (λ e.
                choice-Returns (t == 0x13) _ _
                  (λ e. parse_timestamp_unit-Returns ops bytes (8 * suc n) h)
                  (λ e.
                    choice-Returns (t == 0x21) _ _ (λ e. parse_format-Returns bytes (8 * suc n))
                      (λ e.
                        choice-Returns (t == 0x22) _ _ (λ e. parse_shape-Returns bytes n h)
                          (λ e.
                            choice-Returns (t == 0x23) _ _
                              (λ e. parse_chan_offset-Returns bytes (omega arith))
                              (λ e. choice-Returns (t == 0x29) _ _ (λ e. tt) (λ e. tt))))))))

-- An item of `size` units and what follows it, when the rest of the loop returns.
sized_item-Returns :
    (fuel : ℕ) (ops : RateOps) (t : ℕ) (tail : List ℕ)
    → 8 ≤ length (t ∷ tail)
    → ((n : ℕ) → Returns (parse_loop fuel ops (drop (8 * suc n) (t ∷ tail))))
    → (size : ℕ)
    → Returns (
        if ltb (length (t ∷ tail)) (8 * size)
        then failed too_long
        else if leb (8 * size) 0
        then failed no_length
        else (parse_item ops t (t ∷ tail) (8 * size) >>= λ item.
            parse_loop fuel ops (drop (8 * size) (t ∷ tail)) >>= λ items.
            value (with_item item items)))
sized_item-Returns fuel ops t tail enough k zero =
    choice-Returns (ltb (length (t ∷ tail)) (8 * 0)) _ _ (λ e. tt) (λ a. tt)
sized_item-Returns fuel ops t tail enough k (suc n) =
    choice-Returns (ltb (length (t ∷ tail)) (8 * suc n)) _ _ (λ e. tt)
      (λ a.
        let fits : 8 * suc n ≤ length (t ∷ tail) = omega (tests, a) in
        choice-Returns (leb (8 * suc n) 0) _ _ (λ e. tt)
          (λ b.
            chain-Returns (parse_item ops t (t ∷ tail) (8 * suc n)) _
              (parse_item-Returns ops t (t ∷ tail) n fits)
              (λ item.
                chain-Returns (parse_loop fuel ops (drop (8 * suc n) (t ∷ tail))) _ (k n)
                  (λ items. tt))))

parse_loop-Returns :
    (fuel : ℕ) (ops : RateOps) (bytes : List ℕ)
    → length bytes < fuel
    → Returns (parse_loop fuel ops bytes)
unfolding parse_loop
parse_loop-Returns zero ops bytes h = absurd (omega (arith, h))
parse_loop-Returns (suc fuel) ops [] h = tt
parse_loop-Returns (suc fuel) ops (t ∷ tail) h =
    choice-Returns (ltb (length (t ∷ tail)) 8) _ _ (λ e. tt)
      (λ a.
        let enough : 8 ≤ length (t ∷ tail) = omega (tests, a) in
        let shorter : (n : ℕ) → length (drop (8 * suc n) (t ∷ tail)) < fuel =
          λ n. omega (arith, h, length-drop (8 * suc n) (t ∷ tail), enough) in
        chain-Returns (byte_at (t ∷ tail) 1) _ (byte_at-Returns (t ∷ tail) 1 (omega arith)) (
          sized_item-Returns fuel ops t tail enough
            (λ n. parse_loop-Returns fuel ops (drop (8 * suc n) (t ∷ tail)) (shorter n))))

-- Every list of bytes is parsed into items or refused with an error.
parse_tlv-Returns : (ops : RateOps) (bytes : List ℕ) → Returns (parse_tlv ops bytes)
parse_tlv-Returns ops bytes = parse_loop-Returns (suc (length bytes)) ops bytes (omega arith)

read_full-Returns :
    {B : Type 0} (n : ℕ) (bytes : List ℕ) (next : List ℕ × List ℕ → Result B)
    → ((r : List ℕ × List ℕ) → length r.0 ≡ n → Returns (next r))
    → Returns (read_full n bytes >>= next)
read_full-Returns n bytes next k = elim (Bool-cases (leb n (length bytes))) [
  | inl e ↦ rw e (k (take n bytes, drop n bytes) (omega (tests, e, length-take n bytes)))
  | inr e ↦ rw e tt
]

byte_swap-Returns : (d : Payload) → Returns (byte_swap d)
unfolding byte_swap
byte_swap-Returns no_data = tt
byte_swap-Returns (words16 ws) = tt
byte_swap-Returns (words32 ws) = tt
byte_swap-Returns (words64 ws) = tt
byte_swap-Returns (raw_bytes bs) = tt

in_order-Returns : (e : Option Endian) (d : Payload) → Returns (in_order e d)
in_order-Returns none d = tt
in_order-Returns (some big) d = byte_swap-Returns d
in_order-Returns (some little) d = tt

read_words-Returns : (k : Kind) (n : ℕ) (bytes : List ℕ) → Returns (read_words k n bytes)
read_words-Returns int16 n bytes = read_full-Returns (n / 2 * 2) bytes _ (λ r e. tt)
read_words-Returns int32 n bytes = read_full-Returns (n / 4 * 4) bytes _ (λ r e. tt)
read_words-Returns int64 n bytes = read_full-Returns (n / 8 * 8) bytes _ (λ r e. tt)
read_words-Returns padding n bytes = tt
read_words-Returns int8 n bytes = tt
read_words-Returns uint8 n bytes = tt
read_words-Returns uint16 n bytes = tt
read_words-Returns uint32 n bytes = tt
read_words-Returns uint64 n bytes = tt

read_payload-Returns :
    (ks : List Kind) (e : Option Endian) (n : ℕ) (bytes : List ℕ)
    → Returns (read_payload ks e n bytes)
read_payload-Returns [] e n bytes = read_full-Returns n bytes _ (λ r e. tt)
read_payload-Returns (k ∷ []) e n bytes =
    chain-Returns (read_words k n bytes) _ (read_words-Returns k n bytes)
      (λ r. chain-Returns (in_order e r.0) _ (in_order-Returns e r.0) (λ d. tt))
read_payload-Returns (k ∷ l ∷ ks) e n bytes = read_full-Returns n bytes _ (λ r e. tt)

read_body-Returns :
    (f : Option PayloadFormat) (p : Packet) (bytes : List ℕ) → Returns (read_body f p bytes)
read_body-Returns none p bytes = tt
read_body-Returns (some f) p bytes =
    choice-Returns (p.payload_length == 0) _ _ (λ e. tt)
      (λ e.
        chain-Returns (read_payload f.dtype f.endian p.payload_length bytes) _
          (read_payload-Returns f.dtype f.endian p.payload_length bytes) (λ r. tt))

-- Whatever bytes arrive, ReadPacket returns a packet or an error.
pub read_packet-Returns : (ops : RateOps) (input : List ℕ) → Returns (read_packet ops input)
unfolding read_packet
read_packet-Returns ops input = read_full-Returns 16 input _ (λ r e.
    chain-Returns (byte_at r.0 0) _ (byte_at-Returns r.0 0 (omega (arith, e))) (λ version.
      chain-Returns (byte_at r.0 1) _ (byte_at-Returns r.0 1 (omega (arith, e))) (λ hlen.
        chain-Returns (uint16_at r.0 2) _ (uint16_at-Returns r.0 2 (omega (arith, e))) (λ plen.
          choice-Returns (ltb hlen 16) _ _ (λ a. tt)
            (λ a.
              chain-Returns (uint32_at r.0 4) _ (uint32_at-Returns r.0 4 (omega (arith, e)))
                (λ magic.
                  chain-Returns (uint32_at r.0 8) _ (uint32_at-Returns r.0 8 (omega (arith, e)))
                    (λ source.
                      chain-Returns (uint32_at r.0 12) _
                        (uint32_at-Returns r.0 12 (omega (arith, e)))
                        (λ sn.
                          choice-Returns (not (magic == packet_magic)) _ _ (λ a. tt)
                            (λ a. read_full-Returns (hlen - 16) r.1 _ (λ h e.
                              chain-Returns (parse_tlv ops h.0) _ (parse_tlv-Returns ops h.0)
                                (λ items.
                                  let p =
                                    store_items (header_of version hlen plen source sn) items in
                                  read_body-Returns p.packet_format p h.1)))))))))))
