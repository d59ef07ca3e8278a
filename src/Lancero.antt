-- ===== src/Lancero.antt =====
-- lancero_source.go: the TDM source. Here are its devices and the order in which the streams of
-- a card are read out; the children model the frame bits, the data blocks and the channels.
pub mod Order
pub mod Frames
pub mod Reader
pub mod External
pub mod Block
pub mod Channels
mod Runs
mod BlockRuns
use dastard.Base.{
  ℕ, zero, suc, ◌+◌, ◌*◌, ◌/◌, ◌%◌, Bool, List, [], ◌∷◌, Option, if◌then◌else◌, ltb, length, set,
  replicate, Outcome, ok, fault, ◌>>=◌,
}
use dastard.Base.Int.{ℤ}

-- A card; `frame_size` is in bytes.
pub record LanceroDevice : Type 0 where
  pub devnum : ℕ
  pub nrows : ℕ
  pub ncols : ℕ
  pub lsync : ℕ
  pub fiber_mask : ℕ
  pub card_delay : ℤ
  pub clock_mhz : ℕ
  pub frame_size : ℕ
  pub adap_running : Bool
  pub coll_running : Bool

-- The streams of a card: an error and a feedback signal for each pixel.
abbrev pub streams_of : LanceroDevice → ℕ
streams_of dev = dev.ncols * dev.nrows * 2

-- `nChannelsAllCards`
unfoldable pub channels_all_cards : List LanceroDevice → ℕ
channels_all_cards [] = 0
channels_all_cards (dev ∷ devs) = streams_of dev + channels_all_cards devs

-- `l[i] = v`
abbrev pub put_order {ℓ} : {A : Type ℓ} → List A → ℕ → A → Outcome (List A)
put_order l i v = if ltb i (length l) then ok (set l i v) else fault

-- The channel of a card that is read out as number `read_idx` of a frame.
unfoldable pub channum : ℕ → ℕ → ℕ → ℕ
channum nrows ncols read_idx =
    read_idx % 2 + read_idx / 2 / ncols * 2 + read_idx / 2 % ncols * nrows * 2

-- The loop over one card, from `read_idx` on with `k` rounds left, after `prev` streams of others.
unfoldable pub order_loop : ℕ → ℕ → ℕ → ℕ → ℕ → List ℕ → Outcome (List ℕ)
order_loop nrows ncols prev read_idx zero order = ok order
order_loop nrows ncols prev read_idx (suc k) order = do
  order' ← put_order order (channum nrows ncols read_idx + prev) (read_idx + prev)
  order_loop nrows ncols prev (read_idx + 1) k order'

unfoldable pub order_cards : List LanceroDevice → ℕ → List ℕ → Outcome (List ℕ)
unfolding order_loop
order_cards [] prev order = ok order
order_cards (dev ∷ devs) prev order = do
  order' ← order_loop dev.nrows dev.ncols prev 0 (streams_of dev) order
  order_cards devs (prev + streams_of dev) order'

-- updateChanOrderMap: the new chan2readoutOrder. The mixers are reset beside it.
unfoldable pub update_chan_order_map : List LanceroDevice → Outcome (List ℕ)
unfolding order_cards channels_all_cards channum
update_chan_order_map devs = order_cards devs 0 (replicate (channels_all_cards devs) 0)
