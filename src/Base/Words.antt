-- ===== src/Base/Words.antt =====
-- Machine words as native numbers below a power of two.
use Prim.Native.Nat.{ℕ, ◌+◌, ◌-◌, ◌*◌, ◌/◌, ◌%◌, ◌^◌, ◌<◌}
use native.Mathlib.Omega.{arith}
use dastard.Base.Tests.{ltb, if◌then◌else◌}
use dastard.Base.Int.{ℤ, pos, negsuc}

abbrev pub u16_mod : ℕ
u16_mod = 0x1_0000

-- Go's uint16 addition and subtraction.
unfoldable pub add16 : ℕ → ℕ → ℕ
add16 a b = (a + b) % u16_mod

unfoldable pub sub16 : ℕ → ℕ → ℕ
sub16 a b = (a + (u16_mod - b % u16_mod)) % u16_mod

-- `int16(v)` of a uint16: the integer that its bit pattern stands for.
unfoldable pub int16 : ℕ → ℤ
int16 v = if ltb v 0x8000 then pos v else negsuc (0xffff - v)

-- `uint16(z)` of a signed integer.
unfoldable pub to_u16 : ℤ → ℕ
to_u16 (pos n) = n % u16_mod
to_u16 (negsuc n) = 0xffff - n % u16_mod

-- `^v` of a uint16. It is also `v ^ 0xffff`.
abbrev pub not16 : ℕ → ℕ
not16 v = 0xffff - v

-- `v << k` of a uint16 by an unsigned count: 0 from 16 on.
unfoldable pub shl16 : ℕ → ℕ → ℕ
shl16 v k = if ltb k 16 then v * 2 ^ k % u16_mod else 0

-- `v >> k` of a uint16.
abbrev pub shr16 : ℕ → ℕ → ℕ
shr16 v k = v / 2 ^ k

-- `a - b` of two uint, the 64-bit words that count shifts.
unfoldable pub sub64 : ℕ → ℕ → ℕ
sub64 a b = (a + 0x1_0000_0000_0000_0000 - b) % 0x1_0000_0000_0000_0000

-- `z >> k` of a signed integer, towards minus infinity.
unfoldable pub shr_ℤ : ℤ → ℕ → ℤ
shr_ℤ (pos n) k = pos (n / 2 ^ k)
shr_ℤ (negsuc n) k = negsuc (n / 2 ^ k)

-- Go's `%` on signed integers: the sign of the dividend. The divisor is given by its size.
unfoldable pub rem_ℤ : ℤ → ℕ → ℤ
rem_ℤ (pos n) m = pos (n % m)
rem_ℤ (negsuc n) m = let r : ℕ = (n + 1) % m in if ltb 0 r then negsuc (r - 1) else pos 0

-- `int32(z)` of a wider integer: its low 32 bits, read as an int32.
unfoldable pub int32 : ℤ → ℤ
int32 (pos n) =
    let r : ℕ = n % 0x1_0000_0000 in if ltb r 0x8000_0000 then pos r else negsuc (0xffff_ffff - r)
int32 (negsuc n) =
    let r : ℕ = n % 0x1_0000_0000 in if ltb r 0x8000_0000 then negsuc r else pos (0xffff_ffff - r)

pub add16-lt : (a b : ℕ) → add16 a b < u16_mod
unfolding add16
add16-lt a b = omega arith

pub sub16-lt : (a b : ℕ) → sub16 a b < u16_mod
unfolding sub16
sub16-lt a b = omega arith
