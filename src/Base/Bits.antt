-- ===== src/Base/Bits.antt =====
-- The bit operations on words as arithmetic.
use Prim.Native.Nat.{
  ℕ, zero, suc, ◌+◌, ◌-◌, ◌*◌, ◌/◌, ◌%◌, ◌^◌, ◌≤◌, ◌<◌, min, bit_and, digits, bit_and-bitwise,
}
use mathlib.Core.Path.{◌≡◌, refl, sym, ap, ◌∙◌}
use native.Mathlib.Omega.{arith}
use native.Mathlib.Nat.{pow-suc, mod-lt, mod-eq_of_lt, div-add-mod, add-mul-mod_self_right}

-- The definition that `bit_and` stands for, with its number of rounds a variable.
abbrev and_rounds : ℕ → ℕ → ℕ → ℕ
and_rounds n a b = digits (λ b. zero) min n a b

and_rounds-enough : (n m a b : ℕ) → a ≤ n → a ≤ m → and_rounds n a b ≡ and_rounds m a b
and_rounds-enough zero zero a b p q = refl
and_rounds-enough zero (suc m) zero b p q = refl
and_rounds-enough zero (suc m) (suc a) b p q = absurd (omega arith)
and_rounds-enough (suc n) zero zero b p q = refl
and_rounds-enough (suc n) zero (suc a) b p q = absurd (omega arith)
and_rounds-enough (suc n) (suc m) zero b p q = refl
and_rounds-enough (suc n) (suc m) (suc a) b p q =
    omega (arith, and_rounds-enough n m (suc a / 2) (b / 2) (omega arith) (omega arith))

-- The lowest bit of a conjunction, and the others.
pub bit_and-halve : (a b : ℕ) → bit_and a b ≡ bit_and (a / 2) (b / 2) * 2 + min (a % 2) (b % 2)
bit_and-halve zero b = omega (arith, bit_and-bitwise 0 b, bit_and-bitwise 0 (b / 2))
bit_and-halve (suc a) b = omega (
  arith,
  bit_and-bitwise (suc a) b,
  bit_and-bitwise (suc a / 2) (b / 2),
  and_rounds-enough a (suc a / 2) (suc a / 2) (b / 2) (omega arith) (omega arith),
)

and-zero_below : (n a : ℕ) → a ≤ n → bit_and a 0 ≡ 0
and-zero_below n zero h = refl
and-zero_below zero (suc a) h = absurd (omega arith)
and-zero_below (suc n) (suc a) h =
    omega (arith, bit_and-halve (suc a) 0, and-zero_below n (suc a / 2) (omega arith))

pub pow_pos : (k : ℕ) → 0 < 2 ^ k
pow_pos zero = omega arith
pow_pos (suc k) = rw pow-suc (omega (arith, pow_pos k))

double_mod : (a m : ℕ) → 0 < m → a / 2 % m * 2 + a % 2 ≡ a % (m * 2)
double_mod a m h = sym (ap (λ (t : ℕ). t % (m * 2)) whole ∙ fold)
  where
    low : ℕ
    low = a / 2 % m * 2 + a % 2

    below : low < m * 2
    below = omega (arith, mod-lt (a / 2) h)

    whole : a ≡ low + a / 2 / m * (m * 2)
    whole = omega (arith, div-add-mod (a / 2) m)

    fold : (low + a / 2 / m * (m * 2)) % (m * 2) ≡ low
    fold = add-mul-mod_self_right low (a / 2 / m) (m * 2) ∙ mod-eq_of_lt below

-- A mask of `k` ones keeps the low `k` bits.
pub bit_and-mask : (k a : ℕ) → bit_and a (2 ^ k - 1) ≡ a % 2 ^ k
bit_and-mask zero a = omega (arith, and-zero_below a a (omega arith))
bit_and-mask (suc k) a =
    let p = pow-suc 2 k in
    let half : (2 ^ suc k - 1) / 2 ≡ 2 ^ k - 1 = omega (arith, p, pow_pos k) in
    let odd : (2 ^ suc k - 1) % 2 ≡ 1 = omega (arith, p, pow_pos k) in
    let rest : bit_and (a / 2) ((2 ^ suc k - 1) / 2) ≡ a / 2 % 2 ^ k =
      rw half (bit_and-mask k (a / 2)) in
    let whole : a / 2 % 2 ^ k * 2 + a % 2 ≡ a % 2 ^ suc k =
      rw p (double_mod a (2 ^ k) (pow_pos k)) in
    omega (arith, bit_and-halve a (2 ^ suc k - 1), rest, odd, whole)

pub pow-add : (m n : ℕ) → 2 ^ (m + n) ≡ 2 ^ m * 2 ^ n
pow-add m zero = let e : m + 0 ≡ m = omega arith in rw e (omega arith)
pow-add m (suc n) =
    let e : m + suc n ≡ suc (m + n) = omega arith in
    rw (e, pow-suc, pow-suc) (omega (arith, ap (λ (t : ℕ). t * 2) (pow-add m n)))
