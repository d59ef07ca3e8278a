-- ===== src/Packets/Words/Swapped.antt =====
-- Words survive their bytes, and a swap of bytes undoes itself.
use dastard.Base.{
  ℕ, zero, suc, ◌+◌, ◌*◌, ◌/◌, ◌%◌, ◌^◌, ◌<◌, ◌≡◌, refl, sym, ap, ◌∙◌, List, [], ◌∷◌, All, length,
  length-append, arith,
}
use native.Mathlib.Nat.{pow-suc}
use dastard.Packets.{Payload, no_data, words16, words32, words64, raw_bytes, value, ◌>>=◌}
use dastard.Packets.Words.{
  le_bytes, le_word, bytes_of, words_of16, words_of32, words_of64, swap_bytes2, swap_bytes4,
  swap_bytes8, byte_swap,
}

-- Words below a bound.
abbrev pub Below : ℕ → List ℕ → Type 0
Below n ws = All (λ w. w < n) ws

pub le_word-le_bytes : (k w : ℕ) → w < 256 ^ k → le_word (le_bytes k w) ≡ w
unfolding le_word le_bytes
le_word-le_bytes zero w h = omega (arith, h)
le_word-le_bytes (suc k) w h =
    omega (arith, h, pow-suc 256 k, le_word-le_bytes k (w / 256) (omega (arith, h, pow-suc 256 k)))

le_bytes-le_word : (l : List ℕ) → Below 256 l → le_bytes (length l) (le_word l) ≡ l
unfolding le_word le_bytes
le_bytes-le_word [] h = refl
le_bytes-le_word (b ∷ l) h =
    let low : (le_word l * 256 + b) % 256 ≡ b = omega (arith, h.0) in
    let high : (le_word l * 256 + b) / 256 ≡ le_word l = omega (arith, h.0) in
    rw (low, high, le_bytes-le_word l h.1)

pub length-le_bytes : (k w : ℕ) → length (le_bytes k w) ≡ k
unfolding le_bytes
length-le_bytes zero w = refl
length-le_bytes (suc k) w = ap suc (length-le_bytes k (w / 256))

pub length-bytes_of : (k : ℕ) (ws : List ℕ) → length (bytes_of k ws) ≡ k * length ws
unfolding bytes_of
length-bytes_of k [] = omega arith
length-bytes_of k (w ∷ ws) =
    omega (
      arith,
      length-append (le_bytes k w) (bytes_of k ws),
      length-le_bytes k w,
      length-bytes_of k ws,
    )

pub words_of16-bytes_of : (ws : List ℕ) → Below 65536 ws → words_of16 (bytes_of 2 ws) ≡ ws
unfolding words_of16 bytes_of le_bytes
words_of16-bytes_of [] h = refl
words_of16-bytes_of (w ∷ ws) h =
    rw (le_word-le_bytes 2 w (omega (arith, h.0)), words_of16-bytes_of ws h.1)

bytes2 : (w : ℕ) → le_bytes 2 w ≡ w % 256 ∷ w / 256 % 256 ∷ []
unfolding le_bytes
bytes2 w = refl

swap_twice16 :
    (ws : List ℕ)
    → Below 0x10000 ws
    → words_of16 (swap_bytes2 (bytes_of 2 (words_of16 (swap_bytes2 (bytes_of 2 ws))))) ≡ ws
unfolding words_of16 swap_bytes2 bytes_of
swap_twice16 [] h = refl
swap_twice16 (w ∷ ws) h =
    let there : le_bytes 2 w ≡ w % 256 ∷ w / 256 % 256 ∷ [] = bytes2 w in
    let back : le_bytes 2 (le_word (w / 256 % 256 ∷ w % 256 ∷ [])) ≡ w / 256 % 256 ∷ w % 256 ∷ [] =
      le_bytes-le_word (w / 256 % 256 ∷ w % 256 ∷ []) (omega arith, (omega arith, tt)) in
    let whole : le_word (w % 256 ∷ w / 256 % 256 ∷ []) ≡ w =
      ap le_word (sym there) ∙ le_word-le_bytes 2 w (omega (arith, h.0)) in
    rw (there, back, whole, swap_twice16 ws h.1)

bytes4 :
    (w : ℕ)
    → le_bytes 4 w ≡ w % 256 ∷ w / 256 % 256 ∷ w / 256 / 256 % 256 ∷ w / 256 / 256 / 256 % 256 ∷ []
unfolding le_bytes
bytes4 w = refl

swap_twice32 :
    (ws : List ℕ)
    → Below 0x100000000 ws
    → words_of32 (swap_bytes4 (bytes_of 4 (words_of32 (swap_bytes4 (bytes_of 4 ws))))) ≡ ws
unfolding words_of32 swap_bytes4 bytes_of
swap_twice32 [] h = refl
swap_twice32 (w ∷ ws) h =
    let there : le_bytes 4 w
        ≡ w % 256 ∷ w / 256 % 256 ∷ w / 256 / 256 % 256 ∷ w / 256 / 256 / 256 % 256 ∷ [] =
      bytes4 w in
    let back : le_bytes 4
          (le_word (w / 256 / 256 / 256 % 256 ∷ w / 256 / 256 % 256 ∷ w / 256 % 256 ∷ w % 256 ∷ []))
        ≡ w / 256 / 256 / 256 % 256 ∷ w / 256 / 256 % 256 ∷ w / 256 % 256 ∷ w % 256 ∷ [] =
      le_bytes-le_word
        (w / 256 / 256 / 256 % 256 ∷ w / 256 / 256 % 256 ∷ w / 256 % 256 ∷ w % 256 ∷ [])
        (omega arith, (omega arith, (omega arith, (omega arith, tt)))) in
    let whole : le_word
          (w % 256 ∷ w / 256 % 256 ∷ w / 256 / 256 % 256 ∷ w / 256 / 256 / 256 % 256 ∷ [])
        ≡ w =
      ap le_word (sym there) ∙ le_word-le_bytes 4 w (omega (arith, h.0)) in
    rw (there, back, whole, swap_twice32 ws h.1)

bytes8 :
    (w : ℕ)
    → le_bytes 8 w
      ≡ w % 256
        ∷ w / 256 % 256
        ∷ w / 256 / 256 % 256
        ∷ w / 256 / 256 / 256 % 256
        ∷ w / 256 / 256 / 256 / 256 % 256
        ∷ w / 256 / 256 / 256 / 256 / 256 % 256
        ∷ w / 256 / 256 / 256 / 256 / 256 / 256 % 256
        ∷ w / 256 / 256 / 256 / 256 / 256 / 256 / 256 % 256
        ∷ []
unfolding le_bytes
bytes8 w = refl

swap_twice64 :
    (ws : List ℕ)
    → Below 0x10000000000000000 ws
    → words_of64 (swap_bytes8 (bytes_of 8 (words_of64 (swap_bytes8 (bytes_of 8 ws))))) ≡ ws
unfolding words_of64 swap_bytes8 bytes_of
swap_twice64 [] h = refl
swap_twice64 (w ∷ ws) h =
    let there : le_bytes 8 w
        ≡ w % 256
          ∷ w / 256 % 256
          ∷ w / 256 / 256 % 256
          ∷ w / 256 / 256 / 256 % 256
          ∷ w / 256 / 256 / 256 / 256 % 256
          ∷ w / 256 / 256 / 256 / 256 / 256 % 256
          ∷ w / 256 / 256 / 256 / 256 / 256 / 256 % 256
          ∷ w / 256 / 256 / 256 / 256 / 256 / 256 / 256 % 256
          ∷ [] =
      bytes8 w in
    let back : le_bytes 8 (
          le_word (
            w / 256 / 256 / 256 / 256 / 256 / 256 / 256 % 256
            ∷ w / 256 / 256 / 256 / 256 / 256 / 256 % 256
            ∷ w / 256 / 256 / 256 / 256 / 256 % 256
            ∷ w / 256 / 256 / 256 / 256 % 256
            ∷ w / 256 / 256 / 256 % 256
            ∷ w / 256 / 256 % 256
            ∷ w / 256 % 256
            ∷ w % 256
            ∷ []))
        ≡ w / 256 / 256 / 256 / 256 / 256 / 256 / 256 % 256
          ∷ w / 256 / 256 / 256 / 256 / 256 / 256 % 256
          ∷ w / 256 / 256 / 256 / 256 / 256 % 256
          ∷ w / 256 / 256 / 256 / 256 % 256
          ∷ w / 256 / 256 / 256 % 256
          ∷ w / 256 / 256 % 256
          ∷ w / 256 % 256
          ∷ w % 256
          ∷ [] =
      le_bytes-le_word
        (w / 256 / 256 / 256 / 256 / 256 / 256 / 256 % 256
          ∷ w / 256 / 256 / 256 / 256 / 256 / 256 % 256
          ∷ w / 256 / 256 / 256 / 256 / 256 % 256
          ∷ w / 256 / 256 / 256 / 256 % 256
          ∷ w / 256 / 256 / 256 % 256
          ∷ w / 256 / 256 % 256
          ∷ w / 256 % 256
          ∷ w % 256
          ∷ [])
        (
          omega arith,
          (
            omega arith,
            (
              omega arith,
              (omega arith, (omega arith, (omega arith, (omega arith, (omega arith, tt))))),
            ),
          ),
        ) in
    let whole : le_word (
          w % 256
          ∷ w / 256 % 256
          ∷ w / 256 / 256 % 256
          ∷ w / 256 / 256 / 256 % 256
          ∷ w / 256 / 256 / 256 / 256 % 256
          ∷ w / 256 / 256 / 256 / 256 / 256 % 256
          ∷ w / 256 / 256 / 256 / 256 / 256 / 256 % 256
          ∷ w / 256 / 256 / 256 / 256 / 256 / 256 / 256 % 256
          ∷ [])
        ≡ w =
      ap le_word (sym there) ∙ le_word-le_bytes 8 w (omega (arith, h.0)) in
    rw (there, back, whole, swap_twice64 ws h.1)

-- The words of a payload fit their type.
abbrev pub IsPayload : Payload → Type 0
IsPayload no_data = 0 < 0
IsPayload (words16 ws) = Below 0x1_0000 ws
IsPayload (words32 ws) = Below 0x1_0000_0000 ws
IsPayload (words64 ws) = Below 0x1_0000_0000_0000_0000 ws
IsPayload (raw_bytes bs) = Below 256 bs

-- ByteSwap succeeds on every payload of numbers whose words fit their type, and a second ByteSwap
-- brings the payload back.
byte_swap-byte_swap : (p : Payload) → IsPayload p → (byte_swap p >>= byte_swap) ≡ value p
unfolding byte_swap
byte_swap-byte_swap no_data h = absurd (omega (arith, h))
byte_swap-byte_swap (words16 ws) h = ap (λ v. value (words16 v)) (swap_twice16 ws h)
byte_swap-byte_swap (words32 ws) h = ap (λ v. value (words32 v)) (swap_twice32 ws h)
byte_swap-byte_swap (words64 ws) h = ap (λ v. value (words64 v)) (swap_twice64 ws h)
byte_swap-byte_swap (raw_bytes bs) h = refl
