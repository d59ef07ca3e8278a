-- ===== src/Lancero/Frames/Found.antt =====
-- What FindFrameBits finds in whole frames.
use dastard.Base.{
  ℕ, zero, suc, ◌+◌, ◌*◌, ◌<◌, ◌≡◌, refl, sym, ap, ◌∙◌, Bool, true, false, List, [], ◌∷◌, ◌++◌,
  some, drop, length-append, length-replicate, append_assoc, replicate, map, length, arith,
}
use dastard.Lancero.Frames.{
  every4, bits_from, first_start, run_length, next_start, find_frame_bits, frame_bit,
}

drop-nil : (k : ℕ) → drop {A = ℕ} k [] ≡ []
drop-nil zero = refl
drop-nil (suc k) = refl

drop-drop : (m n : ℕ) (l : List ℕ) → drop m (drop n l) ≡ drop (n + m) l
drop-drop m zero l = ap (λ (k : ℕ). drop k l) (omega arith)
drop-drop m (suc n) [] = drop-nil m ∙ sym (drop-nil (suc n + m))
drop-drop m (suc n) (x ∷ l) =
    let e : suc n + m ≡ suc (n + m) = omega arith in
    drop-drop m n l ∙ sym (ap (λ (k : ℕ). drop k (x ∷ l)) e)

every4-next :
    (l : List ℕ) (bit : Bool) (bits : List Bool)
    → map frame_bit (every4 l) ≡ bit ∷ bits
    → map frame_bit (every4 (drop 4 l)) ≡ bits
unfolding every4
every4-next [] bit bits h = cc
every4-next (a ∷ []) bit bits h = cc
every4-next (a ∷ b ∷ []) bit bits h = cc
every4-next (a ∷ b ∷ c ∷ []) bit bits h = cc
every4-next (a ∷ b ∷ c ∷ d ∷ l) bit bits h = cc

-- A loop from the next word on reads the bits after the first.
bits_from-next :
    (b : List ℕ) (i : ℕ) (bit : Bool) (bits : List Bool)
    → bits_from b i ≡ bit ∷ bits
    → bits_from b (i + 4) ≡ bits
unfolding bits_from
bits_from-next b i bit bits h =
    ap (λ (l : List ℕ). map frame_bit (every4 l)) (sym (drop-drop 4 i b))
    ∙ every4-next (drop i b) bit bits h

bits_from-append :
    (b : List ℕ) (xs : List Bool) (i : ℕ) (ys : List Bool)
    → bits_from b i ≡ xs ++ ys
    → bits_from b (i + 4 * length xs) ≡ ys
bits_from-append b [] i ys h = rw (← h) (ap (bits_from b) (omega arith))
bits_from-append b (x ∷ xs) i ys h =
    let e : i + 4 * suc (length xs) ≡ i + 4 + 4 * length xs = omega arith in
    rw e (bits_from-append b xs (i + 4) ys (bits_from-next b i x (xs ++ ys) h))

first_start-seen :
    (b : ℕ) (i : ℕ) (bits : List Bool)
    → first_start true false i (replicate b false ++ (true ∷ bits)) ≡ i + 4 * b
unfolding first_start
first_start-seen zero i bits = omega arith
first_start-seen (suc b) i bits = first_start-seen b (i + 4) bits ∙ omega arith

first_start-run :
    (a b : ℕ) (i : ℕ) (bits : List Bool)
    → first_start false false i (replicate a true ++ (false ∷ (replicate b false ++ (true ∷ bits))))
      ≡ i + 4 * (a + suc b)
unfolding first_start
first_start-run zero b i bits = first_start-seen b (i + 4) bits ∙ omega arith
first_start-run (suc a) b i bits = first_start-run a b (i + 4) bits ∙ omega arith

run_length-run : (n : ℕ) (bits : List Bool) → run_length (replicate n true ++ (false ∷ bits)) ≡ n
unfolding run_length
run_length-run zero bits = refl
run_length-run (suc n) bits = ap suc (run_length-run n bits)

next_start-run :
    (m : ℕ) (i : ℕ) (bits : List Bool)
    → next_start false i (replicate m false ++ (true ∷ bits)) ≡ some (i + 4 * m)
unfolding next_start
next_start-run zero i bits = ap some (omega arith)
next_start-run (suc m) i bits = next_start-run m (i + 4) bits ∙ ap some (omega arith)

next_start-blank :
    (m : ℕ) (i : ℕ) (bits : List Bool)
    → next_start true i (false ∷ (replicate m false ++ (true ∷ bits))) ≡ some (i + 4 * suc m)
unfolding next_start
next_start-blank m i bits = next_start-run m (i + 4) bits ∙ ap some (omega arith)

-- In a buffer of whole frames, of `suc n` columns and so `suc n` marked words and `suc m` others,
-- from any place of a frame on (here with `a` marked words and `suc b` others left of it):
-- FindFrameBits gives the word of the first whole frame, that of the frame after it and the
-- number of columns, and no error.
pub find_frame_bits-frames :
    (b : List ℕ) (offset left blank n m : ℕ) (rest : List Bool)
    → offset < 4
    → bits_from b offset
      ≡ replicate left true
        ++ (false
            ∷ (replicate blank false
                ++ (true ∷ (replicate n true ++ (false ∷ (replicate m false ++ (true ∷ rest)))))))
    → find_frame_bits b offset ≡ record {
      q = left + suc blank;
      p = left + suc blank + suc n + suc m;
      n = suc n;
      failed = false;
    }
unfolding find_frame_bits
find_frame_bits-frames b offset left blank n m rest ho h =
    let others : List Bool = replicate m false ++ (true ∷ rest) in
    let frame : List Bool = true ∷ (replicate n true ++ (false ∷ others)) in
    let gap : List Bool = replicate left true ++ (false ∷ replicate blank false) in
    let size : length gap ≡ left + suc blank = omega (
      arith,
      length-append (replicate left true) (false ∷ replicate blank false),
      length-replicate left true,
      length-replicate blank false,
    ) in
    let q : ℕ = offset + 4 * (left + suc blank) in
    let at_q : bits_from b q ≡ frame =
      ap (λ (k : ℕ). bits_from b (offset + 4 * k)) (sym size)
      ∙ bits_from-append b gap offset frame
          (h ∙ sym (append_assoc (replicate left true) (false ∷ replicate blank false) frame)) in
    let after : ℕ = q + 4 * suc n in
    let at_after : bits_from b after ≡ false ∷ others =
      ap (λ (k : ℕ). bits_from b (q + 4 * suc k)) (sym (length-replicate n true))
      ∙ bits_from-append b (true ∷ replicate n true) q (false ∷ others) at_q in
    let found : first_start false false offset (bits_from b offset) ≡ q =
      rw h (first_start-run left blank offset (replicate n true ++ (false ∷ others))) in
    let run : run_length (bits_from b q) ≡ suc n = rw at_q (run_length-run (suc n) others) in
    let next : next_start true after (bits_from b after) ≡ some (after + 4 * suc m) =
      rw at_after (next_start-blank m after rest) in
    rw (found, run, next) (ground arith)
