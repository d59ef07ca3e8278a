-- ===== src/Trigger/Greedy.antt =====
-- What a trigger scan finds: the first hit of the range, then the first one past the dead time, and
-- so on. The description does not mention the loop.
use dastard.Base.{ℕ, ◌+◌, ◌≤◌, ◌<◌, ◌≡◌, List, [], ◌∷◌, arith, dec_lt, All}

module _ (P : ℕ → Type 0) where
  -- One more position without a hit in front of a range without hits.
  miss_from :
      (lo : ℕ) (R : ℕ → Type 0)
      → ¬ P lo
      → ((j : ℕ) → lo + 1 ≤ j → R j → ¬ P j)
      → (j : ℕ) → lo ≤ j
      → R j
      → ¬ P j
  miss_from lo R miss rest j le r = elim (dec_lt lo j) [
    | yes lt ↦ rest j (omega arith) r
    | no nlt ↦ let e : lo ≡ j = omega arith in rw e at miss
  ]

module _ (P : ℕ → Type 0) (gap hi : ℕ) where
  -- `ps` are the positions found from `lo` on and below `hi`; `gap` is the distance from a hit to
  -- the next position that is looked at.
  abbrev pub Greedy : ℕ → List ℕ → Type 0
  Greedy lo [] = (j : ℕ) → lo ≤ j → j < hi → ¬ P j
  Greedy lo (p ∷ ps) =
      (lo ≤ p) × (p < hi) × P p × ((j : ℕ) → lo ≤ j → j < p → ¬ P j) × Greedy (p + gap) ps

  pub Greedy-skip : (lo : ℕ) (ps : List ℕ) → ¬ P lo → Greedy (lo + 1) ps → Greedy lo ps
  Greedy-skip lo [] miss g = miss_from P lo (λ j. j < hi) miss g
  Greedy-skip lo (p ∷ ps) miss g =
      (omega (arith, g.0), g.1, g.2, miss_from P lo (λ j. j < p) miss g.3, g.4)

  -- Every position found lies in the range, and is a hit.
  pub Greedy-All :
      (lo m : ℕ) (ps : List ℕ) → m ≤ lo → Greedy lo ps → All (λ p. (m ≤ p) × (p < hi)) ps
  Greedy-All lo m [] le g = tt
  Greedy-All lo m (p ∷ ps) le g =
      ((omega (arith, g.0), g.1), Greedy-All (p + gap) m ps (omega (arith, g.0)) g.4)

-- Neighbours in the list are at least `gap` apart, the first one at least `lo`.
abbrev pub Apart : ℕ → ℕ → List ℕ → Type 0
Apart gap lo [] = Unit {0}
Apart gap lo (p ∷ ps) = (lo ≤ p) × Apart gap (p + gap) ps

pub Greedy-Apart :
    (P : ℕ → Type 0) (gap hi lo : ℕ) (ps : List ℕ) → Greedy P gap hi lo ps → Apart gap lo ps
Greedy-Apart P gap hi lo [] g = tt
Greedy-Apart P gap hi lo (p ∷ ps) g = (g.0, Greedy-Apart P gap hi (p + gap) ps g.4)

module _ (P Q : ℕ → Type 0) (gap hi : ℕ) where
  -- The sequence depends on the hits from `lo` on only.
  pub Greedy-imp :
      (lo m : ℕ) (ps : List ℕ)
      → m ≤ lo
      → ((j : ℕ) → m ≤ j → P j → Q j)
      → ((j : ℕ) → m ≤ j → Q j → P j)
      → Greedy P gap hi lo ps
      → Greedy Q gap hi lo ps
  Greedy-imp lo m [] le f b g = λ j le' lt q. g j le' lt (b j (omega arith) q)
  Greedy-imp lo m (p ∷ ps) le f b g = (
    g.0,
    g.1,
    f p (omega (arith, g.0)) g.2,
    λ j le' lt q. g.3 j le' lt (b j (omega arith) q),
    Greedy-imp (p + gap) m ps (omega (arith, g.0)) f b g.4,
  )

-- Positions without a hit in front.
pub Greedy-jump :
    (P : ℕ → Type 0) (gap hi lo to : ℕ) (ps : List ℕ)
    → lo ≤ to
    → ((j : ℕ) → lo ≤ j → j < to → ¬ P j)
    → Greedy P gap hi to ps
    → Greedy P gap hi lo ps
Greedy-jump P gap hi lo to [] le miss g = λ j le' lt. elim (dec_lt j to) [
  | yes before ↦ miss j le' before
  | no after ↦ g j (omega arith) lt
]
Greedy-jump P gap hi lo to (p ∷ ps) le miss g = (
  omega (arith, g.0),
  g.1,
  g.2,
  λ j le' lt. elim (dec_lt j to) [
    | yes before ↦ miss j le' before
    | no after ↦ g.3 j (omega arith) lt
  ],
  g.4,
)
