-- ===== src/Lancero/Order/Cards.antt =====
-- The whole map of updateChanOrderMap, over all cards of a source.
use dastard.Base.{
  ℕ, ◌+◌, ◌*◌, ◌≤◌, ◌<◌, ◌≡◌, refl, ap, ◌∙◌, List, [], ◌∷◌, some, length, get_elem?, replicate,
  length-replicate, arith, ok,
}
use native.Mathlib.Nat.{mul_comm}
use dastard.Lancero.{
  LanceroDevice, streams_of, channels_all_cards, order_cards, channum, update_chan_order_map,
}
use dastard.Lancero.Order.{order_loop-IsOrder, channum-lt, channum_lem, place-lt}

-- For the cards after `prev` streams: the error (e = 0) and the feedback (e = 1) of a pixel are
-- read out as the pair number row * ncols + col of their card.
abbrev pub AreOrdered : List LanceroDevice → ℕ → List ℕ → Type 0
AreOrdered [] prev order = Unit {0}
AreOrdered (dev ∷ devs) prev order =
    ((row col e : ℕ)
      → row < dev.nrows
      → col < dev.ncols
      → e < 2
      → get_elem? order ((col * dev.nrows + row) * 2 + e + prev)
        ≡ some ((row * dev.ncols + col) * 2 + e + prev))
    × AreOrdered devs (prev + streams_of dev) order

-- The entries of the cards before stay.
order_cards-AreOrdered :
    (devs : List LanceroDevice) (prev : ℕ) (order : List ℕ)
    → prev + channels_all_cards devs ≤ length order
    → (new : List ℕ) × (order_cards devs prev order ≡ ok new)
      × (length new ≡ length order)
      × ((i : ℕ) → i < prev → get_elem? new i ≡ get_elem? order i)
      × AreOrdered devs prev new
unfolding order_cards channels_all_cards
order_cards-AreOrdered [] prev order h = (order, refl, refl, (λ i l. refl), tt)
order_cards-AreOrdered (dev ∷ devs) prev order h =
    let n : ℕ = streams_of dev in
    let (one, e, o) =
      order_loop-IsOrder dev.nrows dev.ncols prev 0 n order (omega arith) (omega (arith, h)) in
    let (new, e', l, kept, rest) =
      order_cards-AreOrdered devs (prev + n) one (omega (arith, h, o.same_length)) in
    (
      new,
      rw (e, e') refl,
      l ∙ o.same_length,
      (λ i hi. kept i (omega (arith, hi)) ∙ o.left i (λ t ht q. absurd (omega (arith, hi, q)))),
      (
        (λ row col b hr hc hb.
            let r : ℕ = (row * dev.ncols + col) * 2 + b in
            let inside : r < n = omega (
              arith,
              hb,
              place-lt dev.ncols dev.nrows col row hc hr,
              mul_comm dev.ncols dev.nrows,
            ) in
            let c = channum_lem dev.nrows dev.ncols row col b hc hb in
            let place : (col * dev.nrows + row) * 2 + b + prev
                ≡ channum dev.nrows dev.ncols (0 + r) + prev =
              let zero_off : 0 + r ≡ r = omega arith in rw zero_off (omega (arith, c)) in
            ap (get_elem? new) place
            ∙ kept (channum dev.nrows dev.ncols (0 + r) + prev) (
                let zero_off : 0 + r ≡ r = omega arith in
                omega (
                  arith,
                  channum-lt dev.nrows dev.ncols r inside,
                  ap (channum dev.nrows dev.ncols) zero_off,
                ))
            ∙ o.written r inside
            ∙ ap some (omega arith)),
        rest,
      ),
    )

-- updateChanOrderMap ends without a panic with one entry for each stream of all cards: the channel
-- that counts down the columns of its card leads to the place of its pixel in the frame, which
-- counts along the rows, its error before its feedback.
pub update_chan_order_map-AreOrdered :
    (devs : List LanceroDevice)
    → (order : List ℕ) × (update_chan_order_map devs ≡ ok order)
      × (length order ≡ channels_all_cards devs)
      × AreOrdered devs 0 order
unfolding update_chan_order_map
update_chan_order_map-AreOrdered devs =
    let n : ℕ = channels_all_cards devs in
    let (new, e, l, kept, h) =
      order_cards-AreOrdered devs 0 (replicate n 0) (omega (arith, length-replicate {A = ℕ} n 0)) in
    (new, e, l ∙ length-replicate n 0, h)
