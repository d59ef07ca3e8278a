-- ===== src/Packets/Items.antt =====
-- Each case of the switch in parseTLV returns, given the bytes of its item.
use dastard.Base.{
  ℕ, zero, suc, ◌+◌, ◌*◌, ◌==◌, ◌<◌, ◌≤◌, ◌≡◌, refl, Bool, true, false, not, List, [], ◌∷◌,
  if◌then◌else◌, leb, ltb, length, take, drop, arith, tests,
}
use dastard.Base.Int.{ℤ}
use dastard.Packets.{PayloadFormat, RateOps, Result, value, failed, panic, stuck, ◌>>=◌, byte_at}
use dastard.Packets.Parse.{
  uint16_at, uint32_at, uint64_at, add_char, add_chars, no_format, shape_sizes, masked, parse_tag,
  parse_timestamp, parse_counter, parse_timestamp_unit, parse_format, parse_shape, some_sizes,
  parse_chan_offset,
}

-- A call that returns, with a value or with an error.
abbrev pub Returns {ℓ} : {A : Type ℓ} → Result A → Type 0
Returns (value a) = Unit {0}
Returns (failed e) = Unit {0}
Returns panic = 0 < 0
Returns stuck = 0 < 0

pub chain-Returns {ℓ κ} :
    {A : Type ℓ} {B : Type κ} (r : Result A) (next : A → Result B)
    → Returns r
    → ((a : A) → Returns (next a))
    → Returns (r >>= next)
chain-Returns (value a) next h k = k a
chain-Returns (failed e) next h k = tt
chain-Returns panic next h k = h
chain-Returns stuck next h k = h

pub choice-Returns {ℓ} :
    {A : Type ℓ} (b : Bool) (x y : Result A)
    → (b ≡ true → Returns x)
    → (b ≡ false → Returns y)
    → Returns (if b then x else y)
choice-Returns true x y h k = h refl
choice-Returns false x y h k = k refl

pub byte_at-Returns : (bytes : List ℕ) (i : ℕ) → i < length bytes → Returns (byte_at bytes i)
byte_at-Returns [] i h = absurd (omega (arith, h))
byte_at-Returns (b ∷ bytes) zero h = tt
byte_at-Returns (b ∷ bytes) (suc i) h = byte_at-Returns bytes i (omega (arith, h))

pub uint16_at-Returns :
    (bytes : List ℕ) (i : ℕ) → i + 1 < length bytes → Returns (uint16_at bytes i)
uint16_at-Returns bytes i h =
    chain-Returns (byte_at bytes i) _ (byte_at-Returns bytes i (omega arith))
      (λ a. chain-Returns (byte_at bytes (i + 1)) _ (byte_at-Returns bytes (i + 1) h) (λ b. tt))

pub uint32_at-Returns :
    (bytes : List ℕ) (i : ℕ) → i + 3 < length bytes → Returns (uint32_at bytes i)
uint32_at-Returns bytes i h =
    chain-Returns (uint16_at bytes i) _ (uint16_at-Returns bytes i (omega arith)) (λ a.
      chain-Returns (uint16_at bytes (i + 2)) _ (uint16_at-Returns bytes (i + 2) (omega arith))
        (λ b. tt))

uint64_at-Returns : (bytes : List ℕ) (i : ℕ) → i + 7 < length bytes → Returns (uint64_at bytes i)
uint64_at-Returns bytes i h =
    chain-Returns (uint32_at bytes i) _ (uint32_at-Returns bytes i (omega arith)) (λ a.
      chain-Returns (uint32_at bytes (i + 4)) _ (uint32_at-Returns bytes (i + 4) (omega arith))
        (λ b. tt))

add_char-Returns : (f : PayloadFormat) (c : ℕ) → Returns (add_char f c)
unfolding add_char
add_char-Returns f c = ground arith

add_chars-Returns : (f : PayloadFormat) (cs : List ℕ) → Returns (add_chars f cs)
unfolding add_chars
add_chars-Returns f [] = tt
add_chars-Returns f (c ∷ cs) =
    chain-Returns (add_char f c) _ (add_char-Returns f c) (λ g. add_chars-Returns g cs)

pub parse_tag-Returns : (bytes : List ℕ) → 7 < length bytes → Returns (parse_tag bytes)
unfolding parse_tag
parse_tag-Returns bytes h =
    chain-Returns (uint16_at bytes 2) _ (uint16_at-Returns bytes 2 (omega arith)) (λ x.
      chain-Returns (uint32_at bytes 4) _ (uint32_at-Returns bytes 4 (omega arith))
        (λ t. ground arith))

pub parse_timestamp-Returns :
    (ops : RateOps) (bytes : List ℕ) → 7 < length bytes → Returns (parse_timestamp ops bytes)
unfolding parse_timestamp
parse_timestamp-Returns ops bytes h =
    chain-Returns (uint16_at bytes 2) _ (uint16_at-Returns bytes 2 (omega arith))
      (λ x. chain-Returns (uint32_at bytes 4) _ (uint32_at-Returns bytes 4 (omega arith)) (λ t. tt))

pub parse_counter-Returns :
    (bytes : List ℕ) (size : ℕ) → 7 < length bytes → Returns (parse_counter bytes size)
unfolding parse_counter
parse_counter-Returns bytes size h =
    choice-Returns (not (size == 8)) _ _ (λ e. tt)
      (λ e. chain-Returns (uint16_at bytes 2) _ (uint16_at-Returns bytes 2 (omega arith)) (λ x.
        chain-Returns (uint32_at bytes 4) _ (uint32_at-Returns bytes 4 (omega arith)) (λ t. tt)))

masked-Returns : (n t : ℕ) → Returns (masked n t)
masked-Returns n t = ground arith

pub parse_timestamp_unit-Returns :
    (ops : RateOps) (bytes : List ℕ) (size : ℕ)
    → size ≤ length bytes
    → Returns (parse_timestamp_unit ops bytes size)
unfolding parse_timestamp_unit
parse_timestamp_unit-Returns ops bytes size h =
    choice-Returns (ltb size 16) _ _ (λ e. tt)
      (λ e.
        let wide : 15 < length bytes = omega (tests, h, e) in
        chain-Returns (byte_at bytes 2) _ (byte_at-Returns bytes 2 (omega arith)) (λ nbits.
          chain-Returns (byte_at bytes 3) _ (byte_at-Returns bytes 3 (omega arith)) (λ exp.
            chain-Returns (uint16_at bytes 4) _ (uint16_at-Returns bytes 4 (omega arith)) (λ num.
              chain-Returns (uint16_at bytes 6) _ (uint16_at-Returns bytes 6 (omega arith))
                (λ denom.
                  chain-Returns (uint64_at bytes 8) _ (uint64_at-Returns bytes 8 (omega arith))
                    (λ t. chain-Returns (masked nbits t) _ (masked-Returns nbits t) (λ u. tt)))))))

pub parse_format-Returns : (bytes : List ℕ) (size : ℕ) → Returns (parse_format bytes size)
unfolding parse_format
parse_format-Returns bytes size =
    let raw = drop 2 (take size bytes) in
    chain-Returns (add_chars (no_format raw) raw) _ (add_chars-Returns (no_format raw) raw)
      (λ f. tt)

some_sizes-Returns : (ds : List ℤ) → Returns (some_sizes ds)
some_sizes-Returns [] = tt
some_sizes-Returns (d ∷ ds) = tt

-- The sizes lie in pairs of bytes: `k` pairs are left.
shape_sizes-Returns :
    (fuel : ℕ) (bytes : List ℕ) (size i k : ℕ)
    → size ≤ length bytes
    → i + 2 * k ≡ size
    → k < fuel
    → Returns (shape_sizes fuel bytes size i)
unfolding shape_sizes
shape_sizes-Returns zero bytes size i k h e f = absurd (omega arith)
shape_sizes-Returns (suc fuel) bytes size i zero h e f =
    choice-Returns (leb size i) _ _ (λ e. tt) (λ b. absurd (ground arith))
shape_sizes-Returns (suc fuel) bytes size i (suc k) h e f =
    choice-Returns (leb size i) _ _ (λ e. tt)
      (λ b. chain-Returns (uint16_at bytes i) _ (uint16_at-Returns bytes i (omega arith)) (λ w.
        chain-Returns (shape_sizes fuel bytes size (i + 2)) _
          (shape_sizes-Returns fuel bytes size (i + 2) k h (omega arith) (omega arith))
          (λ sizes. tt)))

pub parse_shape-Returns :
    (bytes : List ℕ) (n : ℕ) → 8 * suc n ≤ length bytes → Returns (parse_shape bytes (8 * suc n))
unfolding parse_shape
parse_shape-Returns bytes n h =
    chain-Returns (shape_sizes (suc (8 * suc n)) bytes (8 * suc n) 2) some_sizes
      (shape_sizes-Returns (suc (8 * suc n)) bytes (8 * suc n) 2 (4 * n + 3) h (omega arith)
        (omega arith))
      some_sizes-Returns

pub parse_chan_offset-Returns :
    (bytes : List ℕ) → 7 < length bytes → Returns (parse_chan_offset bytes)
unfolding parse_chan_offset
parse_chan_offset-Returns bytes h =
    chain-Returns (uint16_at bytes 2) _ (uint16_at-Returns bytes 2 (omega arith)) (λ x.
      chain-Returns (uint32_at bytes 4) _ (uint32_at-Returns bytes 4 (omega arith))
        (λ t. ground arith))
