-- ===== src/Resonator/Keys/Numbers.antt =====
-- How often a channel number is in the groups that Sample accepts.
use dastard.Base.{
  ℕ, zero, suc, ◌+◌, ◌==◌, ◌≤◌, ◌<◌, ◌≡◌, ◌⊎◌, inl, inr, refl, ap, ◌∙◌, true, false, List, [], ◌∷◌,
  ◌++◌, Option, none, some, if◌then◌else◌, ltb, All, arith, Bool-cases, ==_iff,
}
use dastard.Resonator.{GroupIndex}
use dastard.Resonator.Keys.{known_in, add_channels, check_groups, insert_group, sort_groups}

abbrev pub hit : ℕ → ℕ → ℕ
hit c d = if c == d then 1 else 0

-- How often a number is in a list.
abbrev pub count : ℕ → List ℕ → ℕ
count c [] = 0
count c (d ∷ l) = hit c d + count c l

abbrev pub range : ℕ → ℕ → List ℕ
range c zero = []
range c (suc k) = c ∷ range (c + 1) k

-- Every number is below those after it.
abbrev pub IsRising : List ℕ → Type 0
IsRising [] = Unit {0}
IsRising (n ∷ l) = All (λ (m : ℕ). n < m) l × IsRising l

-- The channels of the groups.
abbrev pub channels_of : List GroupIndex → List ℕ
channels_of [] = []
channels_of (g ∷ gs) = range g.firstchan g.group_size ++ channels_of gs

abbrev pub Once : List ℕ → Type 0
Once l = (x : ℕ) → count x l ≤ 1

pub hit_same : (c : ℕ) → hit c c ≡ 1
hit_same c = ground arith

pub count-append : (x : ℕ) (l m : List ℕ) → count x (l ++ m) ≡ count x l + count x m
count-append x [] m = omega arith
count-append x (d ∷ l) m = omega (arith, count-append x l m)

known_in-absent : (c : ℕ) (l : List ℕ) → known_in c l ≡ false → count c l ≡ 0
known_in-absent c [] e = refl
known_in-absent c (d ∷ l) e = ground (arith, known_in-absent c l)

known_in-present : (c : ℕ) (l : List ℕ) → known_in c l ≡ true → 1 ≤ count c l
known_in-present c [] e = ground arith
known_in-present c (d ∷ l) e = ground (arith, known_in-present c l)

Once-cons : (c : ℕ) (l : List ℕ) → count c l ≡ 0 → Once l → Once (c ∷ l)
Once-cons c l e h x = elim (Bool-cases (x == c)) [
  | inl same ↦
      let at : x ≡ c = (==_iff x c).0 same in
      omega (arith, e, hit_same c, ap (λ (y : ℕ). count y l) at, ap (λ (y : ℕ). hit y c) at)
  | inr other ↦ rw other (omega (arith, h x))
]

-- What adding the numbers `new` to the known ones leads to.
abbrev pub Added : List ℕ → List ℕ → Option (List ℕ) → Type 0
Added new known out =
    ((known' : List ℕ) × (out ≡ some known')
      × Once known'
      × ((x : ℕ) → count x known' ≡ count x new + count x known))
    ⊎ ((out ≡ none) × (x : ℕ) × (2 ≤ count x new + count x known))

add_channels-Added :
    (c k : ℕ) (known : List ℕ) → Once known → Added (range c k) known (add_channels c k known)
unfolding add_channels
add_channels-Added c zero known h = inl (known, refl, h, λ x. omega arith)
add_channels-Added c (suc k) known h = elim (Bool-cases (known_in c known)) [
  | inl e ↦ inr (rw e refl, c, omega (arith, hit_same c, known_in-present c known e))
  | inr e ↦
      elim (add_channels-Added (c + 1) k (c ∷ known)
        (Once-cons c known (known_in-absent c known e) h)) [
          | inl (known', f, once, n) ↦ inl (known', rw (e, f) refl, once, λ x. omega (arith, n x))
          | inr (f, x, two) ↦ inr (rw (e, f) refl, x, omega (arith, two))
        ]
]

check_groups-some :
    (g : GroupIndex) (gs : List GroupIndex) (known known' : List ℕ)
    → add_channels g.firstchan g.group_size known ≡ some known'
    → check_groups (g ∷ gs) known ≡ check_groups gs known'
unfolding check_groups
check_groups-some g gs known known' e = rw (e, check_groups) refl

check_groups-none :
    (g : GroupIndex) (gs : List GroupIndex) (known : List ℕ)
    → add_channels g.firstchan g.group_size known ≡ none
    → check_groups (g ∷ gs) known ≡ none
unfolding check_groups
check_groups-none g gs known e = rw (e, check_groups) refl

pub check_groups-Added :
    (gs : List GroupIndex) (known : List ℕ)
    → Once known
    → Added (channels_of gs) known (check_groups gs known)
unfolding check_groups
check_groups-Added [] known h = inl (known, refl, h, λ x. omega arith)
check_groups-Added (g ∷ gs) known h =
    let split = λ (x : ℕ). count-append x (range g.firstchan g.group_size) (channels_of gs) in
    elim (add_channels-Added g.firstchan g.group_size known h) [
      | inr (e, x, two) ↦ inr (check_groups-none g gs known e, x, omega (arith, two, split x))
      | inl (known1, e, once1, n1) ↦ elim (check_groups-Added gs known1 once1) [
        | inl (known2, f, once2, n2) ↦ inl (
          known2,
          check_groups-some g gs known known1 e ∙ f,
          once2,
          λ x. omega (arith, n1 x, n2 x, split x),
        )
        | inr (f, x, two) ↦
            inr (check_groups-some g gs known known1 e ∙ f, x, omega (arith, two, n1 x, split x))
      ]
    ]

count-insert_group :
    (x : ℕ) (g : GroupIndex) (gs : List GroupIndex)
    → count x (channels_of (insert_group g gs))
      ≡ count x (range g.firstchan g.group_size) + count x (channels_of gs)
count-insert_group x g [] = count-append x (range g.firstchan g.group_size) []
count-insert_group x g (h ∷ hs) = elim (Bool-cases (ltb h.firstchan g.firstchan)) [
  | inl e ↦ rw e (
      omega (
        arith,
        count-append x (range h.firstchan h.group_size) (channels_of (insert_group g hs)),
        count-append x (range h.firstchan h.group_size) (channels_of hs),
        count-insert_group x g hs,
      ))
  | inr e ↦ rw e (count-append x (range g.firstchan g.group_size) (channels_of (h ∷ hs)))
]

pub count-sort_groups :
    (x : ℕ) (gs : List GroupIndex)
    → count x (channels_of (sort_groups gs)) ≡ count x (channels_of gs)
unfolding sort_groups
count-sort_groups x [] = refl
count-sort_groups x (g ∷ gs) = omega (
  arith,
  count-insert_group x g (sort_groups gs),
  count-append x (range g.firstchan g.group_size) (channels_of gs),
  count-sort_groups x gs,
)
