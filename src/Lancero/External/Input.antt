-- ===== src/Lancero/External/Input.antt =====
-- The trigger input in the streams of a card, and its rises.
use dastard.Base.{
  ℕ, zero, suc, ◌+◌, ◌*◌, ◌/◌, ◌%◌, ◌<◌, ◌≡◌, refl, ap, Bool, true, false, List, [], ◌∷◌, ◌++◌,
  some, get_elem?, arith, if◌then◌else◌, Bool-cases, inl, inr,
}
use dastard.Base.Int.{ℤ, pos, ◌+ℤ◌, ◌*ℤ◌}
use native.Mathlib.Nat.{div-add-mod'}
use dastard.Lancero.External.{trigger_bit, rises_now}

-- The feedback streams of the first card in readout order, row by row, with the state of the
-- trigger input in each sample: `input t` is the state at row t % nrows of frame t / nrows, counted
-- from the block's start. Every column of a row has the same state.
pub record IsInput (copies : List (List ℕ)) (ncols nrows frames : ℕ) (input : ℕ → Bool)
    : Type 0 where
  pub sample :
      (frame row col : ℕ)
      → frame < frames
      → row < nrows
      → col < ncols
      → (dc : List ℕ) × (v : ℕ) × (get_elem? copies ((row * ncols + col) * 2 + 1) ≡ some dc)
        × (get_elem? dc frame ≡ some v)
        × (trigger_bit v ≡ input (frame * nrows + row))

-- The state that the search takes for that at time `t`: its step number `r` in a frame reads the
-- r-th stream in readout order, which is one of row r / ncols.
abbrev pub seen : ℕ → ℕ → (ℕ → Bool) → ℕ → Bool
seen ncols nrows input t = input (t / nrows * nrows + t % nrows / ncols)

-- With one column the search sees the input itself.
seen-one_column : (nrows : ℕ) (input : ℕ → Bool) (t : ℕ) → seen 1 nrows input t ≡ input t
seen-one_column nrows input t =
    ap input (omega (arith, div-add-mod' t nrows, div-add-mod' (t % nrows) 1))

-- The input is up, and was not before.
abbrev pub turns_on : Bool → Bool → Bool
turns_on false true = true
turns_on false false = false
turns_on true now = false

pub rises_now-turns_on : (last now : Bool) → rises_now last now ≡ turns_on last now
rises_now-turns_on false false = refl
rises_now-turns_on false true = refl
rises_now-turns_on true false = refl
rises_now-turns_on true true = refl

-- The times from `t` on, `k` of them, at which the input rises.
abbrev pub rises : (ℕ → Bool) → Bool → ℕ → ℕ → List ℕ
rises input last t zero = []
rises input last t (suc k) =
    let rest = rises input (input t) (t + 1) k in if turns_on last (input t) then t ∷ rest else rest

-- The state after them.
abbrev pub state_after : (ℕ → Bool) → Bool → ℕ → ℕ → Bool
state_after input last t zero = last
state_after input last t (suc k) = state_after input (input t) (t + 1) k

-- A time in the block as a count of rows from the start of the run.
abbrev pub counts : ℤ → ℕ → List ℕ → List ℤ
counts next nrows [] = []
counts next nrows (t ∷ ts) = (pos nrows *ℤ next +ℤ pos t) ∷ counts next nrows ts

pub counts-append :
    (next : ℤ) (nrows : ℕ) (xs ys : List ℕ)
    → counts next nrows (xs ++ ys) ≡ counts next nrows xs ++ counts next nrows ys
counts-append next nrows [] ys = refl
counts-append next nrows (x ∷ xs) ys = rw (counts-append next nrows xs ys)

pub rises-append :
    (input : ℕ → Bool) (last : Bool) (t j k : ℕ)
    → rises input last t (j + k)
      ≡ rises input last t j ++ rises input (state_after input last t j) (t + j) k
rises-append input last t zero k =
    let a : 0 + k ≡ k = omega arith in let b : t + 0 ≡ t = omega arith in rw (a, b)
rises-append input last t (suc j) k =
    let a : suc j + k ≡ suc (j + k) = omega arith in
    let b : t + suc j ≡ t + 1 + j = omega arith in
    rw (a, b, rises-append input (input t) (t + 1) j k)
      (elim (Bool-cases (turns_on last (input t))) [ inl e ↦ rw e refl | inr e ↦ rw e refl ])

pub state_after-append :
    (input : ℕ → Bool) (last : Bool) (t j k : ℕ)
    → state_after input last t (j + k) ≡ state_after input (state_after input last t j) (t + j) k
state_after-append input last t zero k =
    let a : 0 + k ≡ k = omega arith in let b : t + 0 ≡ t = omega arith in rw (a, b)
state_after-append input last t (suc j) k =
    let a : suc j + k ≡ suc (j + k) = omega arith in
    let b : t + suc j ≡ t + 1 + j = omega arith in
    rw (a, b) (state_after-append input (input t) (t + 1) j k)
