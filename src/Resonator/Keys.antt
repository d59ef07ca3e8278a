-- ===== src/Resonator/Keys.antt =====
-- The keys of the groups of resonator.go: the check in Sample that no channel is in two of them,
-- their order, and the channels that PrepareChannels gives them.
pub mod Numbers
pub mod Rising
use dastard.Base.{
  ℕ, zero, suc, ◌+◌, ◌==◌, Bool, true, false, ◌||◌, List, [], ◌∷◌, ◌++◌, Option, none, some,
  if◌then◌else◌, ltb,
}
use dastard.RowCol.{rc_code}
use dastard.Resonator.{GroupIndex}

-- The check in Sample that no channel number is in two groups, `k` numbers of a group from `c` on.
abbrev pub known_in : ℕ → List ℕ → Bool
known_in c [] = false
known_in c (d ∷ ds) = c == d || known_in c ds

unfoldable pub add_channels : ℕ → ℕ → List ℕ → Option (List ℕ)
add_channels c zero known = some known
add_channels c (suc k) known =
    let rest = add_channels (c + 1) k (c ∷ known) in if known_in c known then none else rest

unfoldable pub check_groups : List GroupIndex → List ℕ → Option (List ℕ)
check_groups [] known = some known
check_groups (g ∷ gs) known = elim (add_channels g.firstchan g.group_size known) [
  | none ↦ none
  | some known' ↦ check_groups gs known'
]

-- PrepareChannels: number and row-column code of each channel, for a group as column `col` of
-- `ncol`.
unfoldable pub group_channels : GroupIndex → ℕ → ℕ → ℕ → ℕ → List (ℕ × ℕ)
group_channels g col ncol row zero = []
group_channels g col ncol row (suc k) =
    (row + g.firstchan, rc_code row col g.group_size ncol) ∷ group_channels g col ncol (row + 1) k

unfoldable pub all_channels : List GroupIndex → ℕ → ℕ → List (ℕ × ℕ)
all_channels [] col ncol = []
all_channels (g ∷ gs) col ncol =
    group_channels g col ncol 0 g.group_size ++ all_channels gs (col + 1) ncol

-- The sort of the keys by ByGroup.
abbrev pub insert_group : GroupIndex → List GroupIndex → List GroupIndex
insert_group g [] = g ∷ []
insert_group g (h ∷ hs) =
    let rest = insert_group g hs in if ltb h.firstchan g.firstchan then h ∷ rest else g ∷ h ∷ hs

unfoldable pub sort_groups : List GroupIndex → List GroupIndex
sort_groups [] = []
sort_groups (g ∷ gs) = insert_group g (sort_groups gs)
