-- ===== src/Base/Results.antt =====
-- What a piece of Go code does: return a value, or fail at run time.
use Prim.Native.Nat.{ℕ}
use dastard.Base.Int.{ℤ, pos, negsuc}

-- `fault` is a run-time panic, or a read past the length of a slice into its spare capacity.
-- `stuck` is no Go behaviour: a loop of the model has used up its fuel.
pub data Outcome {ℓ} (A : Type ℓ) : Type ℓ where
  ok : A → Outcome A
  fault : Outcome A
  stuck : Outcome A

infixl 5 ◌>>=◌
abbrev pub ◌>>=◌ {ℓ κ} : {A : Type ℓ} {B : Type κ} → Outcome A → (A → Outcome B) → Outcome B
fault >>= next = fault
stuck >>= next = stuck
ok value >>= next = next value

-- An index as a natural number. A negative index would panic at the read that follows.
abbrev pub index : ℤ → Outcome ℕ
index (pos n) = ok n
index (negsuc n) = fault
