-- ===== src/Lancero/Order.antt =====
-- updateChanOrderMap of lancero_source.go: channels count down the columns of a card, and the cards
-- send their frames along the rows.
pub mod Cards
use dastard.Base.{
  ℕ, zero, suc, ◌+◌, ◌-◌, ◌*◌, ◌/◌, ◌%◌, ◌≤◌, ◌<◌, ◌≡◌, ◌≢◌, refl, sym, ap, ◌∙◌, true, List, [],
  ◌∷◌, some, ltb, length, set, length-set, get_elem?-set_self, get_elem?-set_ne, get_elem?, arith,
  lt→ltb, dec_lt, Outcome, ok,
}
use native.Mathlib.Nat.{
  add-mul, mul-le-mul_right, suc-mul, mul_comm, div-add-mod', mod-lt, div-lt_iff_lt-mul, zero-mul,
  zero-lt-suc,
}
use dastard.Lancero.{channum, order_loop}

-- A place in a table with rows of width `n` determines its row and its place there.
pub place_inj : (n a b c d : ℕ) → a < n → c < n → b * n + a ≡ d * n + c → (b ≡ d) × (a ≡ c)
place_inj n a b c d ha hc e = elim (dec_lt b d) [
  | yes l ↦ absurd (
      omega (
        arith,
        l,
        ha,
        hc,
        e,
        suc-mul b n,
        mul-le-mul_right {m = suc b} {n = d} n (omega (arith, l)),
      ))
  | no g ↦ elim (dec_lt d b) [
    | yes l ↦ absurd (
        omega (
          arith,
          l,
          ha,
          hc,
          e,
          suc-mul d n,
          mul-le-mul_right {m = suc d} {n = b} n (omega (arith, l)),
        ))
    | no g' ↦
        let same : b ≡ d = omega (arith, g, g') in
        (same, omega (arith, e, ap (λ (x : ℕ). x * n) same))
  ]
]

pub place-lt : (n m a b : ℕ) → a < n → b < m → b * n + a < m * n
place-lt n m a b ha hb =
    omega (arith, ha, suc-mul b n, mul-le-mul_right {m = suc b} {n = m} n (omega (arith, hb)))

-- The row and the column of a place.
record IsPlace (nrows ncols r : ℕ) : Type 0 where
  row_lt : r / 2 / ncols < nrows
  col_lt : r / 2 % ncols < ncols
  place : r / 2 ≡ r / 2 / ncols * ncols + r / 2 % ncols

pixel-IsPlace : (nrows ncols r : ℕ) → r < ncols * nrows * 2 → IsPlace nrows ncols r
pixel-IsPlace nrows zero r h = absurd (omega (arith, h, zero-mul nrows))
pixel-IsPlace nrows (suc n) r h = record {
  row_lt =
      (div-lt_iff_lt-mul {x = r / 2} {y = nrows} (zero-lt-suc n)).1
        (omega (arith, h, mul_comm (suc n) nrows));
  col_lt = mod-lt (r / 2) (zero-lt-suc n);
  place = sym (div-add-mod' (r / 2) (suc n));
}

channum_halves :
    (nrows ncols r : ℕ)
    → (channum nrows ncols r % 2 ≡ r % 2)
      × (channum nrows ncols r / 2 ≡ r / 2 % ncols * nrows + r / 2 / ncols)
unfolding channum
channum_halves nrows ncols r = (omega arith, omega arith)

pub channum-lt :
    (nrows ncols r : ℕ) → r < ncols * nrows * 2 → channum nrows ncols r < ncols * nrows * 2
channum-lt nrows ncols r h =
    let p = pixel-IsPlace nrows ncols r h in
    let (e, q) = channum_halves nrows ncols r in
    omega (arith, q, e, place-lt nrows ncols (r / 2 / ncols) (r / 2 % ncols) p.row_lt p.col_lt)

pub channum_inj :
    (nrows ncols r s : ℕ)
    → r < ncols * nrows * 2
    → s < ncols * nrows * 2
    → channum nrows ncols r ≡ channum nrows ncols s
    → r ≡ s
channum_inj nrows ncols r s hr hs e =
    let p = pixel-IsPlace nrows ncols r hr in
    let q = pixel-IsPlace nrows ncols s hs in
    let (er, fr) = channum_halves nrows ncols r in
    let (es, fs) = channum_halves nrows ncols s in
    let (cols, rows) =
      place_inj nrows (r / 2 / ncols) (r / 2 % ncols) (s / 2 / ncols) (s / 2 % ncols) p.row_lt
        q.row_lt (sym fr ∙ ap (λ (x : ℕ). x / 2) e ∙ fs) in
    omega (arith, er, es, e, p.place, q.place, cols, rows, ap (λ (x : ℕ). x * ncols) rows)

-- The channel of a row and a column, and its place in the frame.
pub channum_lem :
    (nrows ncols row col e : ℕ)
    → col < ncols
    → e < 2
    → channum nrows ncols ((row * ncols + col) * 2 + e) ≡ (col * nrows + row) * 2 + e
channum_lem nrows ncols row col e hc he =
    let r : ℕ = (row * ncols + col) * 2 + e in
    let half : r / 2 ≡ row * ncols + col = omega (arith, he) in
    let (a, b) = channum_halves nrows ncols r in
    let (same_row, same_col) =
      place_inj ncols (r / 2 % ncols) (r / 2 / ncols) col row (mod-lt (r / 2) (omega (arith, hc)))
        hc (div-add-mod' (r / 2) ncols ∙ half) in
    omega (arith, a, b, he, same_row, ap (λ (x : ℕ). x * nrows) same_col)

-- The places that `k` rounds from `r` on write, and those that they leave.
pub record IsOrder (nrows ncols prev r k : ℕ) (old new : List ℕ) : Type 0 where
  pub same_length : length new ≡ length old
  pub written :
      (t : ℕ) → t < k → get_elem? new (channum nrows ncols (r + t) + prev) ≡ some (r + t + prev)
  pub left :
      (i : ℕ)
      → ((t : ℕ) → t < k → channum nrows ncols (r + t) + prev ≢ i)
      → get_elem? new i ≡ get_elem? old i

written_first :
    (nrows ncols prev r k : ℕ) (order new : List ℕ)
    → r + suc k ≡ ncols * nrows * 2
    → prev + ncols * nrows * 2 ≤ length order
    → IsOrder nrows ncols prev (r + 1) k (set order (channum nrows ncols r + prev) (r + prev)) new
    → (t : ℕ) → t < suc k
    → get_elem? new (channum nrows ncols (r + t) + prev) ≡ some (r + t + prev)
written_first nrows ncols prev r k order new hk hl o zero h =
    let at : ℕ = channum nrows ncols r + prev in
    let here : r + 0 ≡ r = omega arith in
    rw here (
      o.left at (λ t l e. absurd (
        omega (
          arith,
          l,
          channum_inj nrows ncols (r + 1 + t) r (omega (arith, hk, l)) (omega (arith, hk))
              (omega (arith, e)),
        )))
      ∙ get_elem?-set_self order at (r + prev)
          (omega (arith, hl, channum-lt nrows ncols r (omega (arith, hk)))))
written_first nrows ncols prev r k order new hk hl o (suc t) h =
    let later : r + suc t ≡ r + 1 + t = omega arith in rw later (o.written t (omega (arith, h)))

left_first :
    (nrows ncols prev r k : ℕ) (order new : List ℕ)
    → IsOrder nrows ncols prev (r + 1) k (set order (channum nrows ncols r + prev) (r + prev)) new
    → (i : ℕ) → ((t : ℕ) → t < suc k → channum nrows ncols (r + t) + prev ≢ i)
    → get_elem? new i ≡ get_elem? order i
left_first nrows ncols prev r k order new o i h =
    let at : ℕ = channum nrows ncols r + prev in
    let here : r + 0 ≡ r = omega arith in
    o.left i (λ t l e.
      let later : r + suc t ≡ r + 1 + t = omega arith in
      h (suc t) (omega (arith, l)) (ap (λ (x : ℕ). channum nrows ncols x + prev) later ∙ e))
    ∙ get_elem?-set_ne order at i (r + prev)
        (λ e. h 0 (omega arith) (ap (λ (x : ℕ). channum nrows ncols x + prev) here ∙ e))

pub order_loop-IsOrder :
    (nrows ncols prev r k : ℕ) (order : List ℕ)
    → r + k ≡ ncols * nrows * 2
    → prev + ncols * nrows * 2 ≤ length order
    → (new : List ℕ) × (order_loop nrows ncols prev r k order ≡ ok new)
      × IsOrder nrows ncols prev r k order new
unfolding order_loop
order_loop-IsOrder nrows ncols prev r zero order hk hl = (
  order,
  refl,
  record { same_length = refl; written = λ t h. absurd (omega (arith, h)); left = λ i h. refl },
)
order_loop-IsOrder nrows ncols prev r (suc k) order hk hl =
    let at : ℕ = channum nrows ncols r + prev in
    let inside = channum-lt nrows ncols r (omega (arith, hk)) in
    let one = set order at (r + prev) in
    let (new, e, o) =
      order_loop-IsOrder nrows ncols prev (r + 1) k one (omega (arith, hk))
        (omega (arith, hl, length-set order at (r + prev))) in
    (
      new,
      rw (lt→ltb at (length order) (omega (arith, inside, hl)), e) refl,
      record {
        same_length = o.same_length ∙ length-set order at (r + prev);
        written = written_first nrows ncols prev r k order new hk hl o;
        left = left_first nrows ncols prev r k order new o;
      },
    )
