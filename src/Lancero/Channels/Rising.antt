-- ===== src/Lancero/Channels/Rising.antt =====
-- The numbers that PrepareChannels gives do not collide.
use dastard.Base.{
  ℕ, zero, suc, ◌+◌, ◌≡◌, refl, true, false, List, [], ◌∷◌, ◌++◌, arith, inl, inr, Bool-cases, ◌&&◌,
  All, ◌⊎◌,
}
use dastard.Base.Int.{ℤ, pos, ◌+ℤ◌, ◌-ℤ◌, ltb_ℤ, ◌≤ℤ◌, int_laws, -ℤ_parts}
use dastard.RowCol.{rc_code}
use dastard.Lancero.{LanceroDevice}
use dastard.Lancero.Channels.{
  err, chan, CardChannel, Separation, Numbered, column_start, rows_from, columns_from, cards_from,
  rows_exceed, prepare_channels,
}

-- A pixel of a card.
pub record Pixel : Type 0 where
  pub card : LanceroDevice
  pub col : ℕ
  pub row : ℕ

-- The pixels of a column from `row` on, of a card from column `col` on, and of all cards: a card
-- after the other, column by column.
abbrev pub pixels_down : LanceroDevice → ℕ → ℕ → ℕ → List Pixel
pixels_down dev col row zero = []
pixels_down dev col row (suc k) =
    record { card = dev; col = col; row = row } ∷ pixels_down dev col (row + 1) k

abbrev pub pixels_across : LanceroDevice → ℕ → ℕ → List Pixel
pixels_across dev col zero = []
pixels_across dev col (suc k) = pixels_down dev col 0 dev.nrows ++ pixels_across dev (col + 1) k

abbrev pub pixels_of : List LanceroDevice → List Pixel
pixels_of [] = []
pixels_of (dev ∷ devs) = pixels_across dev 0 dev.ncols ++ pixels_of devs

-- An error and a feedback channel of one number, with the code of the pixel.
pub record IsPair (p : Pixel) (e f : CardChannel) : Type 0 where
  pub error_name : e.name ≡ err e.number
  pub feedback_name : f.name ≡ chan e.number
  pub same_number : f.number ≡ e.number
  pub error_code : e.row_col ≡ rc_code p.row p.col p.card.nrows p.card.ncols
  pub feedback_code : f.row_col ≡ rc_code p.row p.col p.card.nrows p.card.ncols

-- The channels are a pair for each pixel and no others, with numbers that rise, from `lo` on and
-- below `hi`.
abbrev pub Rising : ℤ → List Pixel → List CardChannel → ℤ → Type 0
Rising lo [] [] hi = lo ≤ℤ hi
Rising lo (p ∷ ps) (e ∷ (f ∷ l)) hi =
    IsPair p e f × (lo ≤ℤ e.number) × Rising (e.number +ℤ pos 1) ps l hi
Rising lo _ _ hi = ⊥

Rising-lower :
    (lo lo' hi : ℤ) (ps : List Pixel) (l : List CardChannel)
    → lo ≤ℤ lo'
    → Rising lo' ps l hi
    → Rising lo ps l hi
Rising-lower lo lo' hi [] [] h r = omega arith
Rising-lower lo lo' hi [] (e ∷ l) h r = absurd r
Rising-lower lo lo' hi (p ∷ ps) [] h r = absurd r
Rising-lower lo lo' hi (p ∷ ps) (e ∷ []) h r = absurd r
Rising-lower lo lo' hi (p ∷ ps) (e ∷ (f ∷ l)) h (a, d, r) = (a, omega arith, r)

Rising-append :
    (lo mid hi : ℤ) (ps qs : List Pixel) (l l' : List CardChannel)
    → Rising lo ps l mid
    → Rising mid qs l' hi
    → Rising lo (ps ++ qs) (l ++ l') hi
Rising-append lo mid hi [] qs [] l' h r = Rising-lower lo mid hi qs l' h r
Rising-append lo mid hi [] qs (e ∷ l) l' h r = absurd h
Rising-append lo mid hi (p ∷ ps) qs [] l' h r = absurd h
Rising-append lo mid hi (p ∷ ps) qs (e ∷ []) l' h r = absurd h
Rising-append lo mid hi (p ∷ ps) qs (e ∷ (f ∷ l)) l' (a, d, h) r =
    (a, d, Rising-append (e.number +ℤ pos 1) mid hi ps qs l l' h r)

rows_from-Rising :
    (dev : LanceroDevice) (col row k : ℕ) (cnum : ℤ)
    → Rising cnum (pixels_down dev col row k) (rows_from dev col row k cnum) (cnum +ℤ pos k)
unfolding rows_from
rows_from-Rising dev col row zero cnum = omega int_laws
rows_from-Rising dev col row (suc k) cnum =
    let next : cnum +ℤ pos 1 +ℤ pos k ≡ cnum +ℤ pos (suc k) = omega int_laws in
    (
      record {
        error_name = refl;
        feedback_name = refl;
        same_number = refl;
        error_code = refl;
        feedback_code = refl;
      },
      omega arith,
      rw (← next) (rows_from-Rising dev col (row + 1) k (cnum +ℤ pos 1)),
    )

-- The next column does not start below `cnum`.
abbrev pub IsFree : ℤ → ℤ → ℤ → Type 0
IsFree sep cnum column_first = cnum ≤ℤ column_start sep cnum column_first

IsFree-next :
    (sep start : ℤ) (n : ℕ)
    → (ltb_ℤ (pos 0) sep ≡ true → pos n ≤ℤ sep)
    → IsFree sep (start +ℤ pos n) start
IsFree-next sep start n fits = elim (Bool-cases (ltb_ℤ (pos 0) sep)) [
  | inl e ↦ rw e (omega (int_laws, fits e))
  | inr e ↦ rw e (omega arith)
]

columns_from-Rising :
    (sep : ℤ) (dev : LanceroDevice) (col k : ℕ) (cnum column_first : ℤ)
    → (ltb_ℤ (pos 0) sep ≡ true → pos dev.nrows ≤ℤ sep)
    → IsFree sep cnum column_first
    → let one = columns_from sep dev col k cnum column_first in
      Rising cnum (pixels_across dev col k) one.channels one.cnum
      × IsFree sep one.cnum one.column_first
unfolding columns_from
columns_from-Rising sep dev col zero cnum column_first fits free = (omega arith, free)
columns_from-Rising sep dev col (suc k) cnum column_first fits free =
    let start = column_start sep cnum column_first in
    let next = start +ℤ pos dev.nrows in
    let (r, f) =
      columns_from-Rising sep dev (col + 1) k next start fits
        (IsFree-next sep start dev.nrows fits) in
    (
      Rising-append cnum next (columns_from sep dev (col + 1) k next start).cnum
          (pixels_down dev col 0 dev.nrows) (pixels_across dev (col + 1) k)
          (rows_from dev col 0 dev.nrows start)
          (columns_from sep dev (col + 1) k next start).channels
          (Rising-lower cnum start next (pixels_down dev col 0 dev.nrows)
            (rows_from dev col 0 dev.nrows start) free (rows_from-Rising dev col 0 dev.nrows start))
          r,
      f,
    )

cards_from-Rising :
    (sep : Separation) (devs : List LanceroDevice) (cnum column_first : ℤ)
    → ltb_ℤ (pos 0) sep.chan_sep_cards ≡ false
    → (ltb_ℤ (pos 0) sep.chan_sep_columns ≡ true → rows_exceed sep.chan_sep_columns devs ≡ false)
    → IsFree sep.chan_sep_columns cnum column_first
    → let all = cards_from sep devs cnum column_first in
      Rising cnum (pixels_of devs) all.channels all.cnum
unfolding cards_from
cards_from-Rising sep [] cnum column_first single fits free = omega arith
cards_from-Rising sep (dev ∷ devs) cnum column_first single fits free =
    let one = columns_from sep.chan_sep_columns dev 0 dev.ncols cnum column_first in
    let (r, f) =
      columns_from-Rising sep.chan_sep_columns dev 0 dev.ncols cnum column_first
        (λ e. let g = fits e in ground (arith, g)) free in
    let rest =
      cards_from-Rising sep devs one.cnum one.column_first single
        (λ e. let g = fits e in ground (arith, g)) f in
    rw single (
      Rising-append cnum one.cnum (cards_from sep devs one.cnum one.column_first).cnum
        (pixels_across dev 0 dev.ncols) (pixels_of devs) one.channels
        (cards_from sep devs one.cnum one.column_first).channels r rest)

rows_fit :
    (sep : ℤ) (devs : List LanceroDevice)
    → All (λ (dev : LanceroDevice). pos dev.nrows ≤ℤ sep) devs
    → rows_exceed sep devs ≡ false
rows_fit sep [] h = refl
rows_fit sep (dev ∷ devs) h =
    let rest = rows_fit sep devs h.1 in let now = h.0 in ground (arith, rest, now)

-- When the cards are numbered in sequence (chanSepCards is 0), and the columns too or so far apart
-- that the rows of each card fit, PrepareChannels succeeds. Its channels are, for each pixel of the
-- cards, card by card and column by column, an error and a feedback channel of one number with the
-- row-column code of the pixel, and no others; the numbers rise from pixel to pixel, from
-- firstRowChanNum on, so no two pixels share one.
pub prepare_channels-Rising :
    (sep : Separation) (devs : List LanceroDevice)
    → sep.chan_sep_cards ≡ pos 0
    → (sep.chan_sep_columns ≡ pos 0)
      ⊎ ((pos 0 ≤ℤ sep.chan_sep_columns)
          × All (λ (dev : LanceroDevice). pos dev.nrows ≤ℤ sep.chan_sep_columns) devs)
    → (out : Numbered) × (prepare_channels sep devs ≡ (sep, inl out))
      × Rising sep.first_row_chan_num (pixels_of devs) out.channels out.cnum
unfolding prepare_channels
prepare_channels-Rising sep devs single h =
    let first = sep.first_row_chan_num in
    let apart = sep.chan_sep_columns in
    let no_cards : ltb_ℤ sep.chan_sep_cards (pos 0) ≡ false = rw single refl in
    let in_sequence : ltb_ℤ (pos 0) sep.chan_sep_cards ≡ false = rw single refl in
    let good : ltb_ℤ apart (pos 0) ≡ false = elim h [
      | inl e ↦ rw e refl
      | inr g ↦ let low = g.0 in ground (arith, low)
    ] in
    let fits : (ltb_ℤ (pos 0) apart ≡ true → rows_exceed apart devs ≡ false) = λ p. elim h [
      | inl e ↦ let q : ltb_ℤ (pos 0) apart ≡ false = rw e refl in cc
      | inr g ↦ rows_fit apart devs g.1
    ] in
    let both : (ltb_ℤ (pos 0) apart && rows_exceed apart devs) ≡ false =
      elim (Bool-cases (ltb_ℤ (pos 0) apart)) [ inl p ↦ rw (p, fits p) refl | inr p ↦ rw p refl ] in
    let free : IsFree apart first (first -ℤ apart) = elim (Bool-cases (ltb_ℤ (pos 0) apart)) [
      | inl p ↦ rw p (omega (int_laws, -ℤ_parts first apart))
      | inr p ↦ rw p (omega arith)
    ] in
    (
      cards_from sep devs first (first -ℤ apart),
      rw (no_cards, in_sequence, good, both) refl,
      cards_from-Rising sep devs first (first -ℤ apart) in_sequence fits free,
    )
