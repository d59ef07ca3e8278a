-- ===== src/Resonator/Keys/Rising.antt =====
-- The channels of PrepareChannels have rising numbers: the keys are sorted, and no number comes
-- twice.
use dastard.Base.{
  ℕ, zero, suc, ◌+◌, ◌==◌, ◌≤◌, ◌<◌, ◌≡◌, ◌⊎◌, inl, inr, refl, List, [], ◌∷◌, ◌++◌, none, some, ltb,
  ltb→lt, ltb→ge, length, All, All-append, All-imp, arith, Bool-cases,
}
use dastard.Resonator.{GroupIndex}
use dastard.Resonator.Keys.{check_groups, group_channels, all_channels, insert_group, sort_groups}
use dastard.Resonator.Keys.Numbers.{
  hit_same, count, count-append, range, channels_of, IsRising, check_groups-Added,
  count-sort_groups,
}

abbrev From : ℕ → GroupIndex → Type 0
From f g = f ≤ g.firstchan

abbrev AreSorted : List GroupIndex → Type 0
AreSorted [] = Unit {0}
AreSorted (g ∷ gs) = All (From g.firstchan) gs × AreSorted gs

From-insert_group :
    (f : ℕ) (g : GroupIndex) (gs : List GroupIndex)
    → f ≤ g.firstchan
    → All (From f) gs
    → All (From f) (insert_group g gs)
From-insert_group f g [] le h = (le, tt)
From-insert_group f g (x ∷ gs) le h = elim (Bool-cases (ltb x.firstchan g.firstchan)) [
  | inl e ↦ rw e (h.0, From-insert_group f g gs le h.1)
  | inr e ↦ rw e (le, h)
]

insert_group-AreSorted :
    (g : GroupIndex) (gs : List GroupIndex) → AreSorted gs → AreSorted (insert_group g gs)
insert_group-AreSorted g [] h = (tt, tt)
insert_group-AreSorted g (x ∷ gs) h = elim (Bool-cases (ltb x.firstchan g.firstchan)) [
  | inl e ↦
      let below = ltb→lt x.firstchan g.firstchan e in
      rw e (
        From-insert_group x.firstchan g gs (omega (arith, below)) h.0,
        insert_group-AreSorted g gs h.1,
      )
  | inr e ↦
      let above : g.firstchan ≤ x.firstchan = ltb→ge x.firstchan g.firstchan e in
      rw e (
        (
          above,
          All-imp (From x.firstchan) (From g.firstchan) (λ y l. omega (arith, l, above)) gs h.0,
        ),
        h,
      )
]

sort_groups-AreSorted : (gs : List GroupIndex) → AreSorted (sort_groups gs)
unfolding sort_groups
sort_groups-AreSorted [] = tt
sort_groups-AreSorted (g ∷ gs) =
    insert_group-AreSorted g (sort_groups gs) (sort_groups-AreSorted gs)

range-above : (f c k : ℕ) → f ≤ c → All (λ (n : ℕ). f ≤ n) (range c k)
range-above f c zero le = tt
range-above f c (suc k) le = (le, range-above f (c + 1) k (omega (arith, le)))

range-has : (f k n : ℕ) → f ≤ n → n < f + k → 1 ≤ count n (range f k)
range-has f zero n le lt = omega (arith, le, lt)
range-has f (suc k) n le lt = elim (Bool-cases (n == f)) [
  | inl e ↦ rw e (omega arith)
  | inr e ↦ rw e (omega (arith, range-has (f + 1) k n (ground arith) (omega (arith, lt))))
]

channels_of-above :
    (f : ℕ) (gs : List GroupIndex) → All (From f) gs → All (λ (n : ℕ). f ≤ n) (channels_of gs)
channels_of-above f [] h = tt
channels_of-above f (g ∷ gs) h =
    All-append (λ (n : ℕ). f ≤ n) (range g.firstchan g.group_size) (channels_of gs)
      (range-above f g.firstchan g.group_size h.0) (channels_of-above f gs h.1)

-- Numbers from `f` on that are not in a range that starts there lie behind it.
behind :
    (f k : ℕ) (l : List ℕ)
    → All (λ (n : ℕ). f ≤ n) l
    → ((x : ℕ) → count x (range f k) + count x l ≤ 1)
    → All (λ (n : ℕ). f + k ≤ n) l
behind f k [] h once = tt
behind f k (n ∷ l) h once = (
  elim (Bool-cases (ltb n (f + k))) [
    | inl e ↦ absurd (omega (arith, once n, hit_same n, range-has f k n h.0 (ltb→lt n (f + k) e)))
    | inr e ↦ ltb→ge n (f + k) e
  ],
  behind f k l h.1 (λ x. omega (arith, once x)),
)

range-IsRising :
    (f k : ℕ) (l : List ℕ) → All (λ (n : ℕ). f + k ≤ n) l → IsRising l → IsRising (range f k ++ l)
range-IsRising f zero l h r = r
range-IsRising f (suc k) l h r =
    let next : All (λ (n : ℕ). f + 1 + k ≤ n) l =
      All-imp (λ (n : ℕ). f + suc k ≤ n) (λ (n : ℕ). f + 1 + k ≤ n) (λ n le. omega (arith, le)) l
        h in
    (
      All-append (λ (n : ℕ). f < n) (range (f + 1) k) l
          (All-imp (λ (n : ℕ). f + 1 ≤ n) (λ (n : ℕ). f < n) (λ n le. omega (arith, le))
            (range (f + 1) k) (range-above (f + 1) (f + 1) k (omega arith)))
          (All-imp (λ (n : ℕ). f + suc k ≤ n) (λ (n : ℕ). f < n) (λ n le. omega (arith, le)) l h),
      range-IsRising (f + 1) k l next r,
    )

channels_of-IsRising :
    (gs : List GroupIndex)
    → AreSorted gs
    → ((x : ℕ) → count x (channels_of gs) ≤ 1)
    → IsRising (channels_of gs)
channels_of-IsRising [] s once = tt
channels_of-IsRising (g ∷ gs) s once =
    let split = λ (x : ℕ). count-append x (range g.firstchan g.group_size) (channels_of gs) in
    range-IsRising g.firstchan g.group_size (channels_of gs)
      (behind g.firstchan g.group_size (channels_of gs) (channels_of-above g.firstchan gs s.0)
        (λ x. omega (arith, once x, split x)))
      (channels_of-IsRising gs s.1 (λ x. omega (arith, once x, split x)))

-- The numbers of the channels that PrepareChannels lists.
abbrev pub chan_numbers : List (ℕ × ℕ) → List ℕ
chan_numbers [] = []
chan_numbers (e ∷ es) = e.0 ∷ chan_numbers es

chan_numbers-append :
    (l m : List (ℕ × ℕ)) → chan_numbers (l ++ m) ≡ chan_numbers l ++ chan_numbers m
chan_numbers-append [] m = refl
chan_numbers-append (e ∷ l) m = rw (chan_numbers-append l m)

chan_numbers-group_channels :
    (g : GroupIndex) (col ncol row k : ℕ)
    → chan_numbers (group_channels g col ncol row k) ≡ range (row + g.firstchan) k
unfolding group_channels
chan_numbers-group_channels g col ncol row zero = refl
chan_numbers-group_channels g col ncol row (suc k) =
    let next : row + 1 + g.firstchan ≡ row + g.firstchan + 1 = omega arith in
    rw (chan_numbers-group_channels g col ncol (row + 1) k, next) refl

chan_numbers-all_channels :
    (gs : List GroupIndex) (col ncol : ℕ) → chan_numbers (all_channels gs col ncol) ≡ channels_of gs
unfolding all_channels
chan_numbers-all_channels [] col ncol = refl
chan_numbers-all_channels (g ∷ gs) col ncol =
    let first : 0 + g.firstchan ≡ g.firstchan = omega arith in
    rw
      (
        chan_numbers-append (group_channels g col ncol 0 g.group_size)
            (all_channels gs (col + 1) ncol),
        chan_numbers-group_channels g col ncol 0 g.group_size,
        first,
        chan_numbers-all_channels gs (col + 1) ncol,
      )
      refl

-- Either the check of Sample accepts the groups, in the order in which the map gives them: then the
-- channels that PrepareChannels lists, with the groups in the order of their keys, have strictly
-- rising numbers, so no two channels share one. Or the check refuses them, and then some channel
-- number would be listed at least twice.
pub check_groups-IsRising :
    (gs : List GroupIndex)
    → ((known : List ℕ) × (check_groups gs [] ≡ some known)
        × IsRising (chan_numbers (all_channels (sort_groups gs) 0 (length gs))))
      ⊎ ((check_groups gs [] ≡ none)
          × (c : ℕ) × (2 ≤ count c (chan_numbers (all_channels (sort_groups gs) 0 (length gs)))))
check_groups-IsRising gs =
    let same = chan_numbers-all_channels (sort_groups gs) 0 (length gs) in
    elim (check_groups-Added gs [] (λ x. omega arith)) [
      | inl (known, e, once, n) ↦ inl (
        known,
        e,
        rw same (
            channels_of-IsRising (sort_groups gs) (sort_groups-AreSorted gs)
              (λ x. omega (arith, once x, n x, count-sort_groups x gs))),
      )
      | inr (e, c, two) ↦ inr (e, c, rw same (omega (arith, two, count-sort_groups c gs)))
    ]
