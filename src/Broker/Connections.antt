-- ===== src/Broker/Connections.antt =====
-- The connections that the broker's requests make, and their number.
use dastard.Base.{
  ℕ, zero, suc, ◌+◌, ◌<◌, ◌≡◌, ◌≢◌, refl, sym, ap, true, false, ◌&&◌, ◌||◌, not, List, [], ◌∷◌,
  if◌then◌else◌, get_or, set, length, All, arith, Bool-cases, inl, inr,
}
use dastard.Base.Int.{ℤ, pos, eqb_ℤ}
use dastard.Broker.{TriggerBroker, member, without}

abbrev pub size : List (List ℤ) → ℕ
size [] = 0
size (l ∷ ls) = length l + size ls

-- No source twice.
abbrev pub NoDup : List ℤ → Type 0
NoDup [] = Unit {0}
NoDup (x ∷ xs) = (member x xs ≡ false) × NoDup xs

-- The count of connections is right, and there is a set of sources for each channel.
pub record IsCounted (b : TriggerBroker) : Type 0 where
  pub counted : b.nconnections ≡ pos (size b.sources)
  pub each_channel : length b.sources ≡ b.nchannels
  pub no_dup : All NoDup b.sources

pub size-set :
    (ls : List (List ℤ)) (i : ℕ) (l : List ℤ)
    → i < length ls
    → size (set ls i l) + length (get_or ls i []) ≡ size ls + length l
size-set [] i l h = elim h [ ]
size-set (x ∷ xs) zero l h = omega arith
size-set (x ∷ xs) (suc i) l h = omega (arith, size-set xs i l (omega arith))

pub All-set :
    (ls : List (List ℤ)) (i : ℕ) (l : List ℤ) → All NoDup ls → NoDup l → All NoDup (set ls i l)
All-set [] i l h n = tt
All-set (x ∷ xs) zero l h n = (n, h.1)
All-set (x ∷ xs) (suc i) l h n = (h.0, All-set xs i l h.1 n)

pub All-get : (ls : List (List ℤ)) (i : ℕ) → All NoDup ls → NoDup (get_or ls i [])
All-get [] i h = tt
All-get (x ∷ xs) zero h = h.0
All-get (x ∷ xs) (suc i) h = All-get xs i h.1

pub get_or-set_self :
    (ls : List (List ℤ)) (i : ℕ) (l : List ℤ) → i < length ls → get_or (set ls i l) i [] ≡ l
get_or-set_self [] i l h = elim h [ ]
get_or-set_self (x ∷ xs) zero l h = refl
get_or-set_self (x ∷ xs) (suc i) l h = get_or-set_self xs i l (omega arith)

pub get_or-set_ne :
    (ls : List (List ℤ)) (i j : ℕ) (l : List ℤ) → i ≢ j → get_or (set ls i l) j [] ≡ get_or ls j []
get_or-set_ne [] i j l h = refl
get_or-set_ne (x ∷ xs) zero zero l h = absurd (h refl)
get_or-set_ne (x ∷ xs) zero (suc j) l h = refl
get_or-set_ne (x ∷ xs) (suc i) zero l h = refl
get_or-set_ne (x ∷ xs) (suc i) (suc j) l h = get_or-set_ne xs i j l (λ e. h (ap suc e))

pub eqb_eq : (a b : ℤ) → eqb_ℤ a b ≡ true → a ≡ b
eqb_eq a b h = ground arith

pub eqb_refl : (a : ℤ) → eqb_ℤ a a ≡ true
eqb_refl a = ground arith

pub member-without : (y s : ℤ) (l : List ℤ) → member y (without s l) ≡ not (eqb_ℤ s y) && member y l
member-without y s [] = elim (Bool-cases (eqb_ℤ s y)) [ inl e ↦ rw e | inr e ↦ rw e ]
member-without y s (x ∷ xs) =
    let rest = member-without y s xs in
    elim (Bool-cases (eqb_ℤ s x)) [
      | inl e ↦ let same = eqb_eq s x e in rw (e, rest, sym same) (flip s y xs)
      | inr e ↦ rw (e, rest) (keep s y x xs e)
    ]
  where
    flip :
        (s y : ℤ) (xs : List ℤ)
        → not (eqb_ℤ s y) && member y xs ≡ not (eqb_ℤ s y) && (eqb_ℤ y s || member y xs)
    flip s y xs = elim (Bool-cases (eqb_ℤ s y)) [
      | inl e ↦ rw e
      | inr e ↦ let o : eqb_ℤ y s ≡ false = ground arith in rw (e, o)
    ]

    keep :
        (s y x : ℤ) (xs : List ℤ)
        → eqb_ℤ s x ≡ false
        → eqb_ℤ y x || (not (eqb_ℤ s y) && member y xs)
          ≡ not (eqb_ℤ s y) && (eqb_ℤ y x || member y xs)
    keep s y x xs h = elim (Bool-cases (eqb_ℤ s y)) [
      | inl e ↦ let o : eqb_ℤ y x ≡ false = ground arith in rw (e, o)
      | inr e ↦ rw e
    ]

pub without-NoDup : (s : ℤ) (l : List ℤ) → NoDup l → NoDup (without s l)
without-NoDup s [] h = tt
without-NoDup s (x ∷ xs) h = elim (Bool-cases (eqb_ℤ s x)) [
  | inl e ↦ rw e (without-NoDup s xs h.1)
  | inr e ↦ rw e (rw (member-without x s xs, e, h.0) refl, without-NoDup s xs h.1)
]

without-none : (s : ℤ) (l : List ℤ) → member s l ≡ false → without s l ≡ l
without-none s [] h = refl
without-none s (x ∷ xs) h = elim (Bool-cases (eqb_ℤ s x)) [
  | inl e ↦ absurd (clash (rw e at h))
  | inr e ↦ rw (e, without-none s xs (rw e at h))
]
  where
    clash : true ≡ false → ⊥
    clash e = cc

pub length-without :
    (s : ℤ) (l : List ℤ) → NoDup l → length (without s l) + (if member s l then 1 else 0) ≡ length l
length-without s [] h = refl
length-without s (x ∷ xs) h = elim (Bool-cases (eqb_ℤ s x)) [
  | inl e ↦
      let gone : member s xs ≡ false = rw (eqb_eq s x e) h.0 in
      rw (e, without-none s xs gone) (omega arith)
  | inr e ↦ rw e (omega (arith, length-without s xs h.1))
]
