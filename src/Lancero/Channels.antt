-- ===== src/Lancero/Channels.antt =====
-- PrepareChannels of lancero_source.go: the names and numbers of the channels. A name is its
-- prefix and number. The slices of names, numbers, offsets and codes are one list of channels.
pub mod Rising
use dastard.Base.{
  ℕ, zero, suc, ◌+◌, ◌*◌, ◌==◌, Bool, true, false, not, ◌&&◌, ◌||◌, List, [], ◌∷◌, ◌++◌,
  if◌then◌else◌, ◌⊎◌, inl, inr,
}
use dastard.Base.Int.{ℤ, pos, ◌+ℤ◌, ◌-ℤ◌, ◌*ℤ◌, ltb_ℤ}
use dastard.RowCol.{rc_code}
use dastard.Lancero.{LanceroDevice}

pub data ChanName : Type 0 where
  err chan : ℤ → ChanName

pub record CardChannel : Type 0 where
  pub name : ChanName
  pub number : ℤ
  pub subframe_offset : ℕ
  pub row_col : ℕ

-- GroupIndex: the first channel and the number of channels.
pub record ChannelGroup : Type 0 where
  pub first_chan : ℤ
  pub group_size : ℕ

pub record Separation : Type 0 where
  pub first_row_chan_num : ℤ
  pub chan_sep_columns : ℤ
  pub chan_sep_cards : ℤ

pub data ChannelError : Type 0 where
  negative_cards negative_columns too_many_rows too_many_channels : ChannelError

-- The channels of a column from `row` on, `k` of its rows. The offset of the feedback channel stays
-- 0 as the slice was made.
unfoldable pub rows_from : LanceroDevice → ℕ → ℕ → ℕ → ℤ → List CardChannel
rows_from dev col row zero cnum = []
rows_from dev col row (suc k) cnum =
    let code : ℕ = rc_code row col dev.nrows dev.ncols in
    record { name = err cnum; number = cnum; subframe_offset = row; row_col = code }
    ∷ (record { name = chan cnum; number = cnum; subframe_offset = 0; row_col = code }
        ∷ rows_from dev col (row + 1) k (cnum +ℤ pos 1))

-- What the loops have made, with `cnum` and `thisColFirstCnum` after them.
pub record Numbered : Type 0 where
  pub channels : List CardChannel
  pub groups : List ChannelGroup
  pub cnum : ℤ
  pub column_first : ℤ

abbrev pub column_start : ℤ → ℤ → ℤ → ℤ
column_start sep cnum column_first = if ltb_ℤ (pos 0) sep then column_first +ℤ sep else cnum

unfoldable pub columns_from : ℤ → LanceroDevice → ℕ → ℕ → ℤ → ℤ → Numbered
columns_from sep dev col zero cnum column_first = record {
  channels = [];
  groups = [];
  cnum = cnum;
  column_first = column_first;
}
columns_from sep dev col (suc k) cnum column_first =
    let start = column_start sep cnum column_first in
    let rest = columns_from sep dev (col + 1) k (start +ℤ pos dev.nrows) start in
    record {
      channels = rows_from dev col 0 dev.nrows start ++ rest.channels;
      groups = record { first_chan = start; group_size = dev.nrows } ∷ rest.groups;
      cnum = rest.cnum;
      column_first = rest.column_first;
    }

abbrev pub card_start : Separation → LanceroDevice → ℤ → ℤ
card_start sep dev cnum =
    if ltb_ℤ (pos 0) sep.chan_sep_cards
    then pos dev.devnum *ℤ sep.chan_sep_cards +ℤ sep.first_row_chan_num
    else cnum

abbrev pub card_column : Separation → ℤ → ℤ → ℤ
card_column sep start column_first =
    if ltb_ℤ (pos 0) sep.chan_sep_cards then start -ℤ sep.chan_sep_columns else column_first

unfoldable pub cards_from : Separation → List LanceroDevice → ℤ → ℤ → Numbered
cards_from sep [] cnum column_first = record {
  channels = [];
  groups = [];
  cnum = cnum;
  column_first = column_first;
}
cards_from sep (dev ∷ devs) cnum column_first =
    let start = card_start sep dev cnum in
    let one =
      columns_from sep.chan_sep_columns dev 0 dev.ncols start
        (card_column sep start column_first) in
    let rest = cards_from sep devs one.cnum one.column_first in
    record {
      channels = one.channels ++ rest.channels;
      groups = one.groups ++ rest.groups;
      cnum = rest.cnum;
      column_first = rest.column_first;
    }

-- The subframe divisions after the cards, and whether the cards have unlike numbers of rows.
unfoldable pub divisions : List LanceroDevice → ℕ → Bool → ℕ × Bool
divisions [] n mixed = (n, mixed)
divisions (dev ∷ devs) n mixed =
    divisions devs (if n == 0 then dev.nrows else n)
      (mixed || (not (n == 0) && not (n == dev.nrows)))

-- The two tests that leave the loop at the first card which does not fit.
abbrev pub rows_exceed : ℤ → List LanceroDevice → Bool
rows_exceed sep [] = false
rows_exceed sep (dev ∷ devs) = ltb_ℤ sep (pos dev.nrows) || rows_exceed sep devs

abbrev pub channels_exceed : Separation → List LanceroDevice → Bool
channels_exceed sep [] = false
channels_exceed sep (dev ∷ devs) =
    ltb_ℤ sep.chan_sep_cards (
      (if ltb_ℤ (pos 0) sep.chan_sep_columns then sep.chan_sep_columns else pos dev.nrows)
      *ℤ pos dev.ncols)
    || channels_exceed sep devs

-- The separation after the call and the channels, or the error. Either of the last two errors
-- sets the separation of the columns to 0.
unfoldable pub prepare_channels :
    Separation → List LanceroDevice → Separation × (Numbered ⊎ ChannelError)
prepare_channels sep devs =
    if ltb_ℤ sep.chan_sep_cards (pos 0)
    then (sep, inr negative_cards)
    else if ltb_ℤ sep.chan_sep_columns (pos 0)
    then (sep, inr negative_columns)
    else if ltb_ℤ (pos 0) sep.chan_sep_columns && rows_exceed sep.chan_sep_columns devs
    then (record sep { chan_sep_columns = pos 0 }, inr too_many_rows)
    else if ltb_ℤ (pos 0) sep.chan_sep_cards && channels_exceed sep devs
    then (record sep { chan_sep_columns = pos 0 }, inr too_many_channels)
    else (
      sep,
      inl (
          cards_from sep devs sep.first_row_chan_num
            (sep.first_row_chan_num -ℤ sep.chan_sep_columns)),
    )
