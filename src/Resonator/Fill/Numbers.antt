-- ===== src/Resonator/Fill/Numbers.antt =====
-- Which packets stand in the queue after fillMissingPackets.
use dastard.Base.{
  ℕ, zero, suc, ◌+◌, ◌-◌, ◌%◌, ◌≤◌, ◌<◌, ◌≡◌, refl, sym, ap, ◌∙◌, subst, List, [], ◌∷◌, map, some,
  if◌then◌else◌, ltb, length, get_elem?, get_or, drop, length-map, All, All-imp, arith, tests,
  Bool-cases, inl, inr,
}
use dastard.Base.Int.{ℤ}
use dastard.Packets.{Packet, Result, value, ◌>>=◌}
use dastard.Packets.Print.{frames}
use dastard.Resonator.Fill.Pretend.{make_pretend-value}
use dastard.Resonator.{Group, two32}
use dastard.Resonator.Fill.{
  Filled, nothing_filled, put_pretend, put_packet, fill_gap, fill_loop, fill_queue, last_sequence,
  fill_missing_packets,
}

-- `n`, `n + 1` and so on, `k` numbers.
abbrev pub count_from : ℕ → ℕ → List ℕ
count_from n zero = []
count_from n (suc k) = n ∷ count_from (n + 1) k

abbrev pub numbers : List Packet → List ℕ
numbers ps = map (λ (p : Packet). p.sequence_number) ps

-- Sequence numbers that increase from `n` on, below the largest uint32.
abbrev pub Rising : ℕ → List Packet → Type 0
Rising n [] = Unit {0}
Rising n (p ∷ ps) =
    (n ≤ p.sequence_number) × (p.sequence_number + 1 < two32) × Rising (p.sequence_number + 1) ps

-- A packet whose frames can be counted.
abbrev pub IsCounted : Packet → Type 0
IsCounted p = (n : ℤ) × (frames p ≡ value n)

-- The packet stands at the place of its sequence number in a queue that starts with number `n`.
abbrev pub IsPlaced : ℕ → List Packet → Packet → Type 0
IsPlaced n out p = (n ≤ p.sequence_number) × (get_elem? out (p.sequence_number - n) ≡ some p)

-- A filled queue: it returns, its `m` packets are numbered from `n` on, the packets `qs` stand in
-- their places, and the others are counted.
pub record IsFilled (n m : ℕ) (qs : List Packet) (r : Result Filled) : Type 0 where
  pub filled : Filled
  pub returned : r ≡ value filled
  pub numbered : numbers filled.packets ≡ count_from n m
  pub placed : All (IsPlaced n filled.packets) qs
  pub counted : filled.packets_added + length qs ≡ m
  pub untouched : filled.packets_added ≡ 0 → filled.packets ≡ qs

shift-IsPlaced :
    (n : ℕ) (out : List Packet) (x p : Packet) → IsPlaced (n + 1) out p → IsPlaced n (x ∷ out) p
shift-IsPlaced n out x p h =
    let e : p.sequence_number - n ≡ suc (p.sequence_number - (n + 1)) = omega (arith, h.0) in
    (omega (arith, h.0), rw e h.1)

fill_gap-IsFilled :
    (p : Packet) (nchan n k m : ℕ) (qs : List Packet) (next : Result Filled)
    → 0 < nchan
    → IsCounted p
    → IsFilled (n + k) m qs next
    → IsFilled n (k + m) qs (fill_gap p nchan n k next)
unfolding fill_gap
fill_gap-IsFilled p nchan n zero m qs next h c f =
    let a : n + 0 ≡ n = omega arith in let b : 0 + m ≡ m = omega arith in rw (b) (rw a at f)
fill_gap-IsFilled p nchan n (suc k) m qs next h c f =
    let a : n + suc k ≡ n + 1 + k = omega arith in
    let rest = fill_gap-IsFilled p nchan (n + 1) k m qs next h c (rw a at f) in
    let (q, eq, es) = make_pretend-value p n nchan h in
    let b : suc k + m ≡ suc (k + m) = omega arith in
    record {
      filled = put_pretend p q c.0 rest.filled;
      returned = rw (eq, c.1, rest.returned) refl;
      numbered = rw (b, es, rest.numbered) refl;
      placed =
          All-imp (IsPlaced (n + 1) rest.filled.packets) (IsPlaced n (q ∷ rest.filled.packets))
            (shift-IsPlaced n rest.filled.packets q) qs rest.placed;
      counted = omega (arith, rest.counted);
      untouched = λ e. absurd (omega (arith, e));
    }

-- How many numbers a queue spans from `n` on.
abbrev span : ℕ → List Packet → ℕ
span n [] = 0
span n (p ∷ ps) = (p.sequence_number - n) + suc (span (p.sequence_number + 1) ps)

put_packet-IsFilled :
    (p : Packet) (m : ℕ) (ps : List Packet) (r : Result Filled)
    → IsFilled (p.sequence_number + 1) m ps r
    → IsFilled p.sequence_number (suc m) (p ∷ ps) (r >>= λ f. value (put_packet p f))
put_packet-IsFilled p m ps r rest =
    let n : ℕ = p.sequence_number in
    let here : n - n ≡ 0 = omega arith in
    record {
      filled = put_packet p rest.filled;
      returned = rw (rest.returned) refl;
      numbered = rw (rest.numbered) refl;
      placed = (
        (omega arith, rw here refl),
        All-imp (IsPlaced (n + 1) rest.filled.packets) (IsPlaced n (p ∷ rest.filled.packets))
            (shift-IsPlaced n rest.filled.packets p) ps rest.placed,
      );
      counted = omega (arith, rest.counted);
      untouched = λ e. ap (λ (l : List Packet). p ∷ l) (rest.untouched e);
    }

fill_loop-IsFilled :
    (nchan n : ℕ) (ps : List Packet)
    → 0 < nchan
    → Rising n ps
    → All IsCounted ps
    → IsFilled n (span n ps) ps (fill_loop nchan n ps)
unfolding fill_loop
fill_loop-IsFilled nchan n [] h r c = record {
  filled = nothing_filled;
  returned = refl;
  numbered = refl;
  placed = tt;
  counted = omega arith;
  untouched = λ e. refl;
}
fill_loop-IsFilled nchan n (p ∷ ps) h r c =
    let k : ℕ = p.sequence_number - n in
    let next : (n + k + 1) % two32 ≡ p.sequence_number + 1 = omega (arith, r.0, r.1) in
    let reached : p.sequence_number ≡ n + k = omega (arith, r.0) in
    let m : ℕ = span (p.sequence_number + 1) ps in
    let next_work = fill_loop nchan (p.sequence_number + 1) ps >>= λ f. value (put_packet p f) in
    let rest : IsFilled p.sequence_number (suc m) (p ∷ ps) next_work =
      put_packet-IsFilled p m ps _
        (fill_loop-IsFilled nchan (p.sequence_number + 1) ps h r.2 c.1) in
    let shifted = subst (λ (x : ℕ). IsFilled x (suc m) (p ∷ ps) next_work) reached rest in
    rw next (fill_gap-IsFilled p nchan n k (suc m) (p ∷ ps) next_work h c.0 shifted)

span_lem :
    (sn : ℕ) (ps : List Packet) → Rising (sn + 1) ps → (sn + span (sn + 1) ps ≡ last_sequence sn ps)
span_lem sn [] r = omega arith
span_lem sn (p ∷ ps) r = omega (arith, r.0, span_lem p.sequence_number ps r.2)

length-numbers : (out : List Packet) (n m : ℕ) → numbers out ≡ count_from n m → length out ≡ m
length-numbers out n m e =
    sym (length-map out (λ (p : Packet). p.sequence_number)) ∙ ap length e ∙ length-count n m
  where
    length-count : (n m : ℕ) → length (count_from n m) ≡ m
    length-count n zero = refl
    length-count n (suc m) = ap suc (length-count (n + 1) m)

last_sequence-numbers :
    (sn m : ℕ) (out : List Packet)
    → numbers out ≡ count_from (sn + 1) m
    → last_sequence sn out ≡ sn + m
last_sequence-numbers sn zero [] e = omega arith
last_sequence-numbers sn (suc m) [] e = absurd (omega (arith, ap length e))
last_sequence-numbers sn zero (p ∷ out) e = absurd (omega (arith, ap length e))
last_sequence-numbers sn (suc m) (p ∷ out) e =
    let first : p.sequence_number ≡ sn + 1 = ap (λ (l : List ℕ). get_or l 0 0) e in
    let rest : numbers out ≡ count_from (sn + 1 + 1) m = ap (λ (l : List ℕ). drop 1 l) e in
    omega (
      arith,
      first,
      last_sequence-numbers p.sequence_number m out
          (rest ∙ ap (λ (x : ℕ). count_from (x + 1) m) (sym first)),
    )

-- The queue after the call is the list that the loop made, also when that is the old queue.
chosen :
    (f : Filled) (qs : List Packet)
    → (f.packets_added ≡ 0 → f.packets ≡ qs)
    → (if ltb 0 f.packets_added then f.packets else qs) ≡ f.packets
chosen f qs h = elim (Bool-cases (ltb 0 f.packets_added)) [
  | inl e ↦ rw e refl
  | inr e ↦ rw e (sym (h (omega (tests, e))))
]

fill_queue-numbers :
    (g : Group) (qs : List Packet)
    → 0 < g.group_index.group_size
    → 0 < length qs
    → Rising (g.last_sn + 1) qs
    → All IsCounted qs
    → (g' : Group) × (f : Filled) × (fill_queue g qs ≡ value (g', f))
      × (numbers g'.queue ≡ count_from (g.last_sn + 1) (last_sequence g.last_sn qs - g.last_sn))
      × (g'.last_sn ≡ last_sequence g.last_sn qs)
      × All (IsPlaced (g.last_sn + 1) g'.queue) qs
      × (f.packets_added + length qs ≡ length g'.queue)
unfolding fill_queue
fill_queue-numbers g [] h q r c = absurd (omega (arith, q))
fill_queue-numbers g (p ∷ ps) h q r c =
    let sn : ℕ = g.last_sn in
    let m : ℕ = span (sn + 1) (p ∷ ps) in
    let start : (sn + 1) % two32 ≡ sn + 1 = omega (arith, r.0, r.1) in
    let done : IsFilled (sn + 1) m (p ∷ ps) (fill_loop g.group_index.group_size (sn + 1) (p ∷ ps)) =
      fill_loop-IsFilled g.group_index.group_size (sn + 1) (p ∷ ps) h r c in
    let all : m ≡ last_sequence sn (p ∷ ps) - sn = omega (arith, span_lem sn (p ∷ ps) r) in
    let out = done.filled.packets in
    let same = chosen done.filled (p ∷ ps) done.untouched in
    (
      record g { queue = out; last_sn = last_sequence sn out },
      done.filled,
      rw (start, done.returned, same) refl,
      (done.numbered ∙ ap (count_from (sn + 1)) all),
      omega (arith, last_sequence-numbers sn m out done.numbered, span_lem sn (p ∷ ps) r),
      done.placed,
      omega (arith, done.counted, length-numbers out (sn + 1) m done.numbered),
    )

-- For a queue of packets whose sequence numbers increase from above the group's last one and whose
-- frames can be counted, in a group of at least one channel, fillMissingPackets returns. The queue
-- then holds one packet for every number that follows the last one, up to the number of the last
-- packet, which the group remembers; the packets that were in the queue stand at the places of
-- their numbers, and the count of packets added is the number of the others.
pub fill_missing_packets-numbers :
    (g : Group)
    → 0 < g.group_index.group_size
    → 0 < length g.queue
    → Rising (g.last_sn + 1) g.queue
    → All IsCounted g.queue
    → (g' : Group) × (f : Filled) × (fill_missing_packets g ≡ value (g', f))
      × (numbers g'.queue
          ≡ count_from (g.last_sn + 1) (last_sequence g.last_sn g.queue - g.last_sn))
      × (g'.last_sn ≡ last_sequence g.last_sn g.queue)
      × All (IsPlaced (g.last_sn + 1) g'.queue) g.queue
      × (f.packets_added + length g.queue ≡ length g'.queue)
unfolding fill_missing_packets
fill_missing_packets-numbers g h q r c = fill_queue-numbers g g.queue h q r c
