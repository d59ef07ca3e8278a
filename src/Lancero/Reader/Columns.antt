-- ===== src/Lancero/Reader/Columns.antt =====
-- The columns that the demultiplexing copies, and the frames that fit in a buffer.
use dastard.Base.{
  ℕ, zero, suc, ◌+◌, ◌*◌, ◌/◌, ◌≤◌, dec_lt, ◌<◌, ◌≡◌, refl, sym, ap, ◌∙◌, false, List, [], ◌∷◌,
  length, take, drop, replicate, length-replicate, arith, append-nil, ltb, get_elem?,
}
use native.Mathlib.Nat.{div-mul-le_self, div-lt_iff_lt-mul}
use dastard.Packets.{value}
use dastard.Packets.Words.{words_of16}
use dastard.Resonator.Demux.{copy_channels, as_is}
use dastard.Resonator.Demux.Columns.{copy_samples-IsCopy, AreColumns, Wide}
use dastard.Lancero.{LanceroDevice, streams_of}
use dastard.Lancero.Reader.{demux_card}

copy_channels-columns :
    (ws : List ℕ) (nchan k c : ℕ) (dcs : List (List ℕ))
    → c + length dcs ≤ nchan
    → k * nchan ≤ length ws
    → Wide k dcs
    → (new : List (List ℕ)) × (copy_channels as_is ws nchan 0 k c dcs ≡ value new)
      × (length new ≡ length dcs)
      × AreColumns nchan ws k c new
unfolding copy_channels
copy_channels-columns ws nchan k c [] h hw w = ([], refl, refl, tt)
copy_channels-columns ws nchan k c (dc ∷ dcs) h hw w =
    let (dc', e, g) =
      copy_samples-IsCopy ws nchan 0 c k dc (omega (arith, w.0)) (omega (arith, h, hw)) in
    let (new, e', l, f) = copy_channels-columns ws nchan k (c + 1) dcs (omega (arith, h)) hw w.1 in
    (
      dc' ∷ new,
      rw (e, e') refl,
      ap suc l,
      ((λ t ht. let z : t ≡ 0 + t = omega arith in ap (get_elem? dc') z ∙ g.after t ht), f),
    )

Wide-replicate : (k n : ℕ) → Wide k (replicate n (replicate k 0))
Wide-replicate k zero = tt
Wide-replicate k (suc n) = (length-replicate k 0, Wide-replicate k n)

take-all : (l : List (List ℕ)) → (take (length l) l ≡ l) × (drop (length l) l ≡ [])
take-all [] = (refl, refl)
take-all (x ∷ l) = (ap (λ (r : List (List ℕ)). x ∷ r) (take-all l).0, (take-all l).1)

pub length-words_of16 : (b : List ℕ) → length (words_of16 b) ≡ length b / 2
unfolding words_of16
length-words_of16 [] = omega arith
length-words_of16 (a ∷ []) = omega arith
length-words_of16 (a ∷ b ∷ l) = omega (arith, length-words_of16 l)

pub demux_card-columns :
    (dev : LanceroDevice) (ws : List ℕ) (k : ℕ)
    → k * streams_of dev ≤ length ws
    → (new : List (List ℕ)) × (demux_card dev ws k (replicate (streams_of dev) (replicate k 0))
        ≡ value new)
      × (length new ≡ streams_of dev)
      × AreColumns (streams_of dev) ws k 0 new
unfolding demux_card
demux_card-columns dev ws k h =
    let n : ℕ = streams_of dev in
    let dcs : List (List ℕ) = replicate n (replicate k 0) in
    let size : length dcs ≡ n = length-replicate n (replicate k 0) in
    let whole : take n dcs ≡ dcs = ap (λ (j : ℕ). take j dcs) (sym size) ∙ (take-all dcs).0 in
    let none_left : drop n dcs ≡ [] = ap (λ (j : ℕ). drop j dcs) (sym size) ∙ (take-all dcs).1 in
    let (new, e, l, f) =
      copy_channels-columns ws n k 0 dcs (omega (arith, size)) h (Wide-replicate k n) in
    let room : ltb (length dcs) n ≡ false = ground (arith, size) in
    (new, rw (room, whole, none_left, e, append-nil new) refl, l ∙ size, f)

-- A buffer of a frame or more holds whole frames, and their words.
pub frames_in :
    (dev : LanceroDevice) (n m : ℕ) (b : List ℕ)
    → dev.ncols * dev.nrows ≡ suc n + suc m
    → dev.frame_size ≡ 4 * (suc n + suc m)
    → dev.frame_size ≤ length b
    → (0 < length b / dev.frame_size)
      × (length b / dev.frame_size * streams_of dev ≤ length (words_of16 b))
frames_in dev n m b hw hf h =
    let k : ℕ = length b / dev.frame_size in
    let twice : dev.frame_size ≡ streams_of dev * 2 = omega (arith, hw, hf) in
    (
      elim (dec_lt 0 k) [
        | yes l ↦ l
        | no z ↦ absurd (
            omega (
              arith,
              h,
              (div-lt_iff_lt-mul {k = dev.frame_size} {x = length b} {y = 1} (omega (arith, hf))).0
                  (omega (arith, z)),
            ))
      ],
      omega (
        arith,
        div-mul-le_self (length b) dev.frame_size,
        ap (λ (x : ℕ). k * x) twice,
        length-words_of16 b,
      ),
    )
