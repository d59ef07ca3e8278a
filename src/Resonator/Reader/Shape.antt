-- ===== src/Resonator/Reader/Shape.antt =====
-- The copies that the reader's tick sends have one length, through demuxData and the loop over the
-- groups.
use dastard.Base.{
  ℕ, zero, suc, ◌+◌, ◌==◌, ◌≡◌, refl, ap, ◌∙◌, Bool, true, false, not, List, [], ◌∷◌, Option, none,
  some, if◌then◌else◌, ltb, length, length-set, set, map, arith, length-map, ◌/◌,
}
use dastard.Base.Words.{not16}
use dastard.Base.Int.{ℤ, pos, ltb_ℤ}
use dastard.Unwrap.{PhaseUnwrapper, unwrap_loop, unwrap_in_place, unwrap_sample, stripped}
use dastard.Packets.{
  Packet, Payload, no_data, words16, words32, words64, raw_bytes, Result, value, failed, panic,
  stuck, ◌>>=◌, byte_at,
}
use dastard.Packets.Print.{frames}
use dastard.Resonator.{Group, GroupIndex, same_group, g_index}
use dastard.Resonator.Demux.{
  put, copy_samples, copy_channels, Demuxed, demux_words, as_is, high_word, demux_payload, account,
  demux_loop, demux_start, demux_packets, unwrap_all, demux_data,
}
use dastard.Resonator.Demux.Columns.{Wide}

-- A result that holds `P` of its value, if it has one.
abbrev pub Yields : {A : Type 0} → (A → Type 0) → Result A → Type 0
Yields P (value a) = P a
Yields P (failed e) = Unit {0}
Yields P panic = Unit {0}
Yields P stuck = Unit {0}

pub Yields-bind :
    {A B : Type 0} (P : A → Type 0) (Q : B → Type 0) (r : Result A) (f : A → Result B)
    → Yields P r
    → ((a : A) → P a → Yields Q (f a))
    → Yields Q (r >>= f)
Yields-bind P Q (value a) f h g = g a h
Yields-bind P Q (failed e) f h g = tt
Yields-bind P Q panic f h g = tt
Yields-bind P Q stuck f h g = tt

-- Whatever the first result is.
pub Yields-then :
    {A B : Type 0} (Q : B → Type 0) (r : Result A) (f : A → Result B)
    → ((a : A) → Yields Q (f a))
    → Yields Q (r >>= f)
Yields-then Q (value a) f g = g a
Yields-then Q (failed e) f g = tt
Yields-then Q panic f g = tt
Yields-then Q stuck f g = tt

pub Yields-if :
    {A : Type 0} (P : A → Type 0) (b : Bool) (x y : Result A)
    → ((b ≡ true) → Yields P x)
    → ((b ≡ false) → Yields P y)
    → Yields P (if b then x else y)
Yields-if P true x y h g = h refl
Yields-if P false x y h g = g refl

-- So many copies, each of so many samples.
abbrev pub IsGrid : ℕ → ℕ → List (List ℕ) → Type 0
IsGrid m n dcs = (length dcs ≡ m) × Wide n dcs

put-length :
    (n : ℕ) (dc : List ℕ) (i v : ℕ) → length dc ≡ n → Yields (λ l. length l ≡ n) (put dc i v)
put-length n dc i v e =
    Yields-if (λ l. length l ≡ n) (ltb i (length dc)) (value (set dc i v)) panic
      (λ h. length-set dc i v ∙ e) (λ h. tt)

copy_samples-length :
    (n : ℕ) (raw : ℕ → ℕ) (ws : List ℕ) (nchan at j k : ℕ) (dc : List ℕ)
    → length dc ≡ n
    → Yields (λ l. length l ≡ n) (copy_samples raw ws nchan at j k dc)
unfolding copy_samples
copy_samples-length n raw ws nchan at j zero dc e = e
copy_samples-length n raw ws nchan at j (suc k) dc e =
    Yields-then (λ l. length l ≡ n) (byte_at ws j) _
      (λ w.
        Yields-bind (λ l. length l ≡ n) (λ l. length l ≡ n) (put dc at (raw w)) _
          (put-length n dc at (raw w) e)
          (λ dc' e'. copy_samples-length n raw ws nchan (at + 1) (j + nchan) k dc' e'))

copy_channels-IsGrid :
    (m n : ℕ) (raw : ℕ → ℕ) (ws : List ℕ) (nchan at k idx : ℕ) (dcs : List (List ℕ))
    → IsGrid m n dcs
    → Yields (IsGrid m n) (copy_channels raw ws nchan at k idx dcs)
unfolding copy_channels
copy_channels-IsGrid m n raw ws nchan at k idx [] h = h
copy_channels-IsGrid zero n raw ws nchan at k idx (dc ∷ dcs) h = absurd (omega (arith, h.0))
copy_channels-IsGrid (suc m) n raw ws nchan at k idx (dc ∷ dcs) h =
    Yields-bind (λ l. length l ≡ n) (IsGrid (suc m) n) (copy_samples raw ws nchan at idx k dc) _
      (copy_samples-length n raw ws nchan at idx k dc h.1.0)
      (λ dc' e.
        Yields-bind (IsGrid m n) (IsGrid (suc m) n) (copy_channels raw ws nchan at k (idx + 1) dcs)
          _ (copy_channels-IsGrid m n raw ws nchan at k (idx + 1) dcs (omega (arith, h.0), h.1.1))
          (λ dcs' g. (omega (arith, g.0), (e, g.1))))

unwrap_loop-length : (u : PhaseUnwrapper) (l : List ℕ) → length (unwrap_loop u l).1 ≡ length l
unfolding unwrap_loop
unwrap_loop-length u [] = refl
unwrap_loop-length u (raw ∷ rest) = ap suc (unwrap_loop-length (unwrap_sample u raw).0 rest)

if-length :
    (b : Bool) (x y : PhaseUnwrapper × List ℕ) (n : ℕ)
    → length x.1 ≡ n
    → length y.1 ≡ n
    → length (if b then x else y).1 ≡ n
if-length true x y n h g = h
if-length false x y n h g = g

inverted-length : (b : Bool) (l : List ℕ) → length (if b then map not16 l else l) ≡ length l
inverted-length true l = length-map l not16
inverted-length false l = refl

unwrap_in_place-length :
    (u : PhaseUnwrapper) (l : List ℕ) → length (unwrap_in_place u l).1 ≡ length l
unfolding unwrap_in_place
unwrap_in_place-length u l =
    let inverted : List ℕ = if u.invert_data then map not16 l else l in
    let same = inverted-length u.invert_data l in
    if-length (u.low_bits_to_drop == 0) (u, inverted) _ (length l) same
      (if-length u.enable (unwrap_loop u inverted)
        (record u { reset_count = 0 }, map (stripped u) inverted) (length l)
        (unwrap_loop-length u inverted ∙ same) (length-map inverted (stripped u) ∙ same))

unwrap_all-IsGrid :
    (m n : ℕ) (us : List (Option PhaseUnwrapper)) (dcs : List (List ℕ))
    → IsGrid m n dcs
    → Yields (λ r. IsGrid m n r.1) (unwrap_all us dcs)
unfolding unwrap_all
unwrap_all-IsGrid m n [] dcs h = h
unwrap_all-IsGrid m n (none ∷ us) [] h =
    Yields-bind (λ r. IsGrid m n r.1) (λ r. IsGrid m n r.1) (unwrap_all us []) _
      (unwrap_all-IsGrid m n us [] h) (λ r g. g)
unwrap_all-IsGrid m n (some u ∷ us) [] h = tt
unwrap_all-IsGrid zero n (u ∷ us) (dc ∷ dcs) h = absurd (omega (arith, h.0))
unwrap_all-IsGrid (suc m) n (none ∷ us) (dc ∷ dcs) h =
    Yields-bind (λ r. IsGrid m n r.1) (λ r. IsGrid (suc m) n r.1) (unwrap_all us dcs) _
      (unwrap_all-IsGrid m n us dcs (omega (arith, h.0), h.1.1))
      (λ r g. (omega (arith, g.0), (h.1.0, g.1)))
unwrap_all-IsGrid (suc m) n (some u ∷ us) (dc ∷ dcs) h =
    Yields-bind (λ r. IsGrid m n r.1) (λ r. IsGrid (suc m) n r.1) (unwrap_all us dcs) _
      (unwrap_all-IsGrid m n us dcs (omega (arith, h.0), h.1.1))
      (λ r g. (omega (arith, g.0), (unwrap_in_place-length u dc ∙ h.1.0, g.1)))

module _ (m n : ℕ) where
  demux_words-IsGrid :
      (raw : ℕ → ℕ) (bytes : ℕ) (ws : List ℕ) (nchan : ℕ) (d : Demuxed)
      → IsGrid m n d.copies
      → Yields (λ d'. IsGrid m n d'.copies) (demux_words raw bytes ws nchan d)
  demux_words-IsGrid raw bytes ws nchan d h =
      Yields-if (λ d'. IsGrid m n d'.copies) (nchan == 0) panic _ (λ e. tt)
        (λ e.
          Yields-bind (IsGrid m n) (λ d'. IsGrid m n d'.copies)
            (copy_channels raw ws nchan d.samples_consumed (length ws / nchan) 0 d.copies) _
            (copy_channels-IsGrid m n raw ws nchan d.samples_consumed (length ws / nchan) 0 d.copies
              h)
            (λ copies g. g))

  demux_payload-IsGrid :
      (p : Payload) (nchan : ℕ) (d : Demuxed)
      → IsGrid m n d.copies
      → Yields (λ d'. IsGrid m n d'.copies) (demux_payload p nchan d)
  demux_payload-IsGrid no_data nchan d h = tt
  demux_payload-IsGrid (words16 ws) nchan d h = demux_words-IsGrid as_is 2 ws nchan d h
  demux_payload-IsGrid (words32 ws) nchan d h = demux_words-IsGrid high_word 4 ws nchan d h
  demux_payload-IsGrid (words64 ws) nchan d h = tt
  demux_payload-IsGrid (raw_bytes bs) nchan d h = tt

  demux_loop-IsGrid :
      (index : GroupIndex) (ps : List Packet) (d : Demuxed)
      → IsGrid m n d.copies
      → Yields (λ d'. IsGrid m n d'.copies) (demux_loop index ps d)
  unfolding demux_loop
  demux_loop-IsGrid index [] d h = h
  demux_loop-IsGrid index (p ∷ ps) d h =
      let Q : Demuxed → Type 0 = λ d'. IsGrid m n d'.copies in
      Yields-then Q (g_index p) _ (λ gidx.
        Yields-if Q (not (same_group gidx index)) panic _ (λ e. tt)
          (λ e. Yields-then Q (frames p) _ (λ available.
            Yields-if Q (ltb_ℤ d.frames_left available) (value d) _ (λ f. h)
              (λ f.
                Yields-bind Q Q (demux_payload p.payload index.group_size (account d available)) _
                  (demux_payload-IsGrid p.payload index.group_size (account d available) h)
                  (λ d' g. demux_loop-IsGrid index ps d' g)))))

  pub demux_data-IsGrid :
      (g : Group) (copies : List (List ℕ)) (left : ℤ)
      → IsGrid m n copies
      → Yields (λ r. IsGrid m n r.1) (demux_data g copies left)
  unfolding demux_data demux_packets
  demux_data-IsGrid g copies left h =
      Yields-bind (λ r. IsGrid m n r.1.copies) (λ r. IsGrid m n r.1) (demux_packets g copies left) _
        (Yields-bind (λ d. IsGrid m n d.copies) (λ r. IsGrid m n r.1.copies)
          (demux_loop g.group_index g.queue (demux_start copies left)) _
          (demux_loop-IsGrid g.group_index g.queue (demux_start copies left) h)
          (λ d k.
            Yields-if (λ r. IsGrid m n r.1.copies) (ltb_ℤ (pos 0) d.frames_left) panic _ (λ e. tt)
              (λ e. k)))
        (λ r k.
          Yields-bind (λ u. IsGrid m n u.1) (λ u. IsGrid m n u.1)
            (unwrap_all g.unwrappers r.1.copies) _ (unwrap_all-IsGrid m n g.unwrappers r.1.copies k)
            (λ u l. l))
