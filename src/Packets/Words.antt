-- ===== src/Packets/Words.antt =====
-- Words and their bytes: encoding/binary in big-endian order, the views of internal/getbytes, and
-- ByteSwap.
pub mod Swapped
use dastard.Base.{ℕ, zero, suc, ◌+◌, ◌*◌, ◌/◌, ◌%◌, ◌≡◌, List, [], ◌∷◌, ◌++◌, map, arith, ◌<◌}
use dastard.Packets.{
  Payload, no_data, words16, words32, words64, raw_bytes, Result, value, failed, bad_swap,
}

-- Big-endian bytes of a number, as binary.Write makes them.
abbrev pub be16 : ℕ → List ℕ
be16 n = n / 256 % 256 ∷ n % 256 ∷ []

abbrev pub be32 : ℕ → List ℕ
be32 n = n / 0x100_0000 % 256 ∷ n / 0x1_0000 % 256 ∷ n / 256 % 256 ∷ n % 256 ∷ []

abbrev pub be64 : ℕ → List ℕ
be64 n = be32 (n / 0x1_0000_0000) ++ be32 n

-- `binary.BigEndian.Uint16` and `Uint32` of bytes.
abbrev pub uint16_of : ℕ → ℕ → ℕ
uint16_of a b = a * 256 + b

abbrev pub uint32_of : ℕ → ℕ → ℕ → ℕ → ℕ
uint32_of a b c d = ((a * 256 + b) * 256 + c) * 256 + d

-- The bytes of a word in memory, low byte first, and the word they hold.
unfoldable pub le_bytes : ℕ → ℕ → List ℕ
le_bytes zero w = []
le_bytes (suc k) w = w % 256 ∷ le_bytes k (w / 256)

unfoldable pub le_word : List ℕ → ℕ
le_word [] = 0
le_word (b ∷ l) = le_word l * 256 + b

-- FromSliceInt16, FromSliceInt32 and FromSliceInt64: the memory of words of `k` bytes.
unfoldable pub bytes_of : ℕ → List ℕ → List ℕ
bytes_of k [] = []
bytes_of k (w ∷ ws) = le_bytes k w ++ bytes_of k ws

-- The words that such a memory holds.
unfoldable pub words_of16 : List ℕ → List ℕ
words_of16 (a ∷ b ∷ l) = le_word (a ∷ b ∷ []) ∷ words_of16 l
words_of16 _ = []

unfoldable pub words_of32 : List ℕ → List ℕ
words_of32 (a ∷ b ∷ c ∷ d ∷ l) = le_word (a ∷ b ∷ c ∷ d ∷ []) ∷ words_of32 l
words_of32 _ = []

unfoldable pub words_of64 : List ℕ → List ℕ
words_of64 (a ∷ b ∷ c ∷ d ∷ e ∷ f ∷ g ∷ h ∷ l) =
    le_word (a ∷ b ∷ c ∷ d ∷ e ∷ f ∷ g ∷ h ∷ []) ∷ words_of64 l
words_of64 _ = []

-- byteSwap2 with nb = 2, 4 and 8.
unfoldable pub swap_bytes2 : List ℕ → List ℕ
swap_bytes2 (a ∷ b ∷ l) = b ∷ a ∷ swap_bytes2 l
swap_bytes2 l = l

unfoldable pub swap_bytes4 : List ℕ → List ℕ
swap_bytes4 (a ∷ b ∷ c ∷ d ∷ l) = d ∷ c ∷ b ∷ a ∷ swap_bytes4 l
swap_bytes4 l = l

unfoldable pub swap_bytes8 : List ℕ → List ℕ
swap_bytes8 (a ∷ b ∷ c ∷ d ∷ e ∷ f ∷ g ∷ h ∷ l) = h ∷ g ∷ f ∷ e ∷ d ∷ c ∷ b ∷ a ∷ swap_bytes8 l
swap_bytes8 l = l

-- ByteSwap of the payloads that ReadPacket makes; other types are an error.
unfoldable pub byte_swap : Payload → Result Payload
unfolding bytes_of le_bytes le_word words_of16 words_of32 words_of64 swap_bytes2 swap_bytes4
    swap_bytes8
byte_swap (words16 ws) = value (words16 (words_of16 (swap_bytes2 (bytes_of 2 ws))))
byte_swap (words32 ws) = value (words32 (words_of32 (swap_bytes4 (bytes_of 4 ws))))
byte_swap (words64 ws) = value (words64 (words_of64 (swap_bytes8 (bytes_of 8 ws))))
byte_swap (raw_bytes bs) = value (raw_bytes bs)
byte_swap no_data = failed bad_swap
