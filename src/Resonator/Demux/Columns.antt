-- ===== src/Resonator/Demux/Columns.antt =====
-- The samples that demuxData copies from one packet.
use dastard.Base.{
  ℕ, zero, suc, ◌+◌, ◌-◌, ◌*◌, ◌≤◌, ◌<◌, ◌≡◌, refl, sym, ap, ◌∙◌, true, List, [], ◌∷◌, ◌++◌, some,
  ltb, length, set, length-set, get_elem?-set_self, get_elem?-set_ne, get_elem?,
  get_elem?-append_left, get_elem?-append_right, All, arith, lt→ltb, dec_lt,
}
use native.Mathlib.Nat.{add-mul, mul-le-mul_right, suc-mul}
use dastard.Packets.{value, byte_at}
use dastard.Resonator.Demux.{copy_samples, copy_channels, as_is}

byte_at-get :
    (l : List ℕ) (i : ℕ)
    → i < length l
    → (b : ℕ) × (byte_at l i ≡ value b) × (get_elem? l i ≡ some b)
byte_at-get [] i h = absurd (omega (arith, h))
byte_at-get (b ∷ l) zero h = (b, refl, refl)
byte_at-get (b ∷ l) (suc i) h = byte_at-get l i (omega (arith, h))

-- `dc'` is `dc` up to place `at`, and holds the words `j`, `j + nchan` and so on in the `k` places
-- from there on.
pub record IsCopy (ws : List ℕ) (nchan at j k : ℕ) (dc dc' : List ℕ) : Type 0 where
  pub same_length : length dc' ≡ length dc
  pub before : (t : ℕ) → t < at → get_elem? dc' t ≡ get_elem? dc t
  pub after : (t : ℕ) → t < k → get_elem? dc' (at + t) ≡ get_elem? ws (t * nchan + j)

step_after :
    (ws : List ℕ) (nchan at j k : ℕ) (dc : List ℕ)
    → get_elem? dc at ≡ get_elem? ws j
    → ((t : ℕ) → t < k → get_elem? dc (at + 1 + t) ≡ get_elem? ws (t * nchan + (j + nchan)))
    → (t : ℕ) → t < suc k
    → get_elem? dc (at + t) ≡ get_elem? ws (t * nchan + j)
step_after ws nchan at j k dc here rest zero l =
    let a : at + 0 ≡ at = omega arith in
    let b : j ≡ 0 * nchan + j = omega arith in ap (get_elem? dc) a ∙ here ∙ ap (get_elem? ws) b
step_after ws nchan at j k dc here rest (suc t) l =
    let a : at + suc t ≡ at + 1 + t = omega arith in
    let b : t * nchan + (j + nchan) ≡ suc t * nchan + j = omega (arith, suc-mul t nchan) in
    ap (get_elem? dc) a ∙ rest t (omega (arith, l)) ∙ ap (get_elem? ws) b

pub copy_samples-IsCopy :
    (ws : List ℕ) (nchan at j k : ℕ) (dc : List ℕ)
    → at + k ≤ length dc
    → j + k * nchan < length ws + nchan
    → (dc' : List ℕ) × (copy_samples as_is ws nchan at j k dc ≡ value dc')
      × IsCopy ws nchan at j k dc dc'
unfolding copy_samples
copy_samples-IsCopy ws nchan at j zero dc h hw = (
  dc,
  refl,
  record { same_length = refl; before = λ t l. refl; after = λ t l. absurd (omega (arith, l)) },
)
copy_samples-IsCopy ws nchan at j (suc k) dc h hw =
    let (w, e, g) = byte_at-get ws j (omega (arith, hw, suc-mul k nchan)) in
    let room : ltb at (length dc) ≡ true = lt→ltb at (length dc) (omega (arith, h)) in
    let dc1 = set dc at w in
    let (dc', e', c) =
      copy_samples-IsCopy ws nchan (at + 1) (j + nchan) k dc1 (omega (arith, h, length-set dc at w))
        (omega (arith, hw, suc-mul k nchan)) in
    (
      dc',
      rw (e, room, e') refl,
      record {
        same_length = c.same_length ∙ length-set dc at w;
        before =
            λ t l. c.before t (omega (arith, l)) ∙ get_elem?-set_ne dc at t w (omega (arith, l));
        after =
            step_after ws nchan at j k dc'
              (c.before at (omega arith) ∙ get_elem?-set_self dc at w (omega (arith, h)) ∙ sym g)
              c.after;
      },
    )

-- The copy of channel `c` holds its samples of the first `n` frames of the words `ws`.
abbrev pub IsColumn : ℕ → List ℕ → ℕ → ℕ → List ℕ → Type 0
IsColumn nchan ws n c dc = (t : ℕ) → t < n → get_elem? dc t ≡ get_elem? ws (t * nchan + c)

abbrev pub AreColumns : ℕ → List ℕ → ℕ → ℕ → List (List ℕ) → Type 0
AreColumns nchan ws n c [] = Unit {0}
AreColumns nchan ws n c (dc ∷ dcs) = IsColumn nchan ws n c dc × AreColumns nchan ws n (c + 1) dcs

abbrev pub Wide : ℕ → List (List ℕ) → Type 0
Wide n dcs = All (λ (dc : List ℕ). length dc ≡ n) dcs

inside : (t n c nchan : ℕ) → t < n → c < nchan → t * nchan + c < n * nchan
inside t n c nchan h hc =
    omega (arith, hc, suc-mul t nchan, mul-le-mul_right {m = suc t} {n = n} nchan h)

extend-IsColumn :
    (nchan : ℕ) (old ws : List ℕ) (at k c : ℕ) (dc dc' : List ℕ)
    → c < nchan
    → length old ≡ at * nchan
    → IsColumn nchan old at c dc
    → IsCopy ws nchan at c k dc dc'
    → IsColumn nchan (old ++ ws) (at + k) c dc'
extend-IsColumn nchan old ws at k c dc dc' hc ho f g t h = elim (dec_lt t at) [
  | yes l ↦
      g.before t l
      ∙ f t l
      ∙ sym (
          get_elem?-append_left old ws (t * nchan + c)
            (omega (arith, ho, inside t at c nchan l hc)))
  | no l ↦
      let u : ℕ = t - at in
      let a : t ≡ at + u = omega (arith, l) in
      let b : length old + (u * nchan + c) ≡ t * nchan + c =
        omega (arith, ho, add-mul at u nchan, ap (λ (x : ℕ). x * nchan) a) in
      ap (get_elem? dc') a
      ∙ g.after u (omega (arith, l, h))
      ∙ sym (get_elem?-append_right old ws (u * nchan + c))
      ∙ ap (get_elem? (old ++ ws)) b
]

pub copy_channels-AreColumns :
    (nchan : ℕ) (old ws : List ℕ) (at k n c : ℕ) (dcs : List (List ℕ))
    → c + length dcs ≤ nchan
    → at + k ≤ n
    → length old ≡ at * nchan
    → length ws ≡ k * nchan
    → Wide n dcs
    → AreColumns nchan old at c dcs
    → (dcs' : List (List ℕ)) × (copy_channels as_is ws nchan at k c dcs ≡ value dcs')
      × (length dcs' ≡ length dcs)
      × Wide n dcs'
      × AreColumns nchan (old ++ ws) (at + k) c dcs'
unfolding copy_channels
copy_channels-AreColumns nchan old ws at k n c [] h hn ho hk w f = ([], refl, refl, tt, tt)
copy_channels-AreColumns nchan old ws at k n c (dc ∷ dcs) h hn ho hk w f =
    let (dc', e, g) =
      copy_samples-IsCopy ws nchan at c k dc (omega (arith, hn, w.0)) (omega (arith, hk, h)) in
    let (dcs', e', l, w', f') =
      copy_channels-AreColumns nchan old ws at k n (c + 1) dcs (omega (arith, h)) hn ho hk w.1
        f.1 in
    (
      dc' ∷ dcs',
      rw (e, e') refl,
      ap suc l,
      (g.same_length ∙ w.0, w'),
      (extend-IsColumn nchan old ws at k c dc dc' (omega (arith, h)) ho f.0 g, f'),
    )
