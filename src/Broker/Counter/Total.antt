-- ===== src/Broker/Counter/Total.antt =====
-- TriggerCounter loses no trigger and counts none twice.
use dastard.Base.{
  ℕ, zero, suc, ◌+◌, ◌<◌, ◌≡◌, refl, sym, ◌∙◌, Bool, true, false, List, [], ◌∷◌, ◌++◌, ◌⊎◌, inl,
  inr, arith, if◌then◌else◌, Bool-cases, Outcome, ok,
}
use dastard.Base.Int.{ℤ, pos, ◌+ℤ◌, ◌-ℤ◌, ◌≤ℤ◌, ◌<ℤ◌, ltb_ℤ, leb_ℤ, pos_part, int_laws, -ℤ_parts}
use dastard.Floats.{FloatOps}
use dastard.Trigger.{TriggerList}
use dastard.Broker.Counter.{
  CounterMessage, TriggerCounter, message_and_reset, advance, rounds, count_frames,
  count_new_triggers, initialize,
}

-- The triggers of all messages.
abbrev pub reported : List CounterMessage → ℕ
reported [] = 0
reported (m ∷ ms) = m.counts + reported ms

-- The triggers of all messages and of the step being counted.
abbrev pub total : TriggerCounter → ℕ
total tc = reported tc.messages + tc.counts_seen

reported-append :
    (ms : List CounterMessage) (m : CounterMessage)
    → reported (ms ++ (m ∷ [])) ≡ reported ms + m.counts
reported-append [] m = omega arith
reported-append (x ∷ ms) m = rw (reported-append ms m) (omega arith)

-- A step holds at least one frame, whatever the rounding.
abbrev pub Steady : FloatOps → ℕ → ℤ → Type 0
Steady ops rate step = (x : ℤ) → ops.frames_of rate x <ℤ ops.frames_of rate (x +ℤ step)

-- What `advance` does: it loses no count, reaches the frame, and has either left the step alone or
-- moved it to one that begins at the frame or before.
pub record Advanced (frame : ℤ) (tc tc' : TriggerCounter) : Type 0 where
  pub same_total : total tc' ≡ total tc
  pub reached : frame ≤ℤ tc'.hi
  pub moved : ((tc'.lo ≡ tc.lo) × (tc'.hi ≡ tc.hi)) ⊎ ((tc'.lo ≤ℤ frame) × (tc.hi <ℤ frame))
  pub same_rate : tc'.counter_rate ≡ tc.counter_rate
  pub same_step : tc'.step_duration ≡ tc.step_duration

closer : (f a b : ℤ) → a <ℤ b → a <ℤ f → pos_part (f -ℤ b) < pos_part (f -ℤ a)
closer f a b up below = ground (arith, -ℤ_parts f a, -ℤ_parts f b)

module _ (ops : FloatOps) (frame : ℤ) where
  total-reset : (tc : TriggerCounter) → total (message_and_reset ops tc) ≡ total tc
  unfolding message_and_reset
  total-reset tc = omega (
    arith,
    reported-append tc.messages (record {
      message_hi_time = tc.hi_time;
      duration = tc.step_duration;
      counts = tc.counts_seen;
    }),
  )

  Advanced-reset :
      (tc tc' : TriggerCounter)
      → tc.hi <ℤ frame
      → Advanced frame (message_and_reset ops tc) tc'
      → Advanced frame tc tc'
  unfolding message_and_reset
  Advanced-reset tc tc' lt r = record {
    same_total = r.same_total ∙ total-reset tc;
    reached = r.reached;
    moved = elim r.moved [
      | inl (lo, hi) ↦ inr (rw lo (omega int_laws), lt)
      | inr (lo, hi) ↦ inr (lo, lt)
    ];
    same_rate = r.same_rate;
    same_step = r.same_step;
  }

  Advanced-stay : (tc : TriggerCounter) → frame ≤ℤ tc.hi → Advanced frame tc tc
  Advanced-stay tc le = record {
    same_total = refl;
    reached = le;
    moved = inl (refl, refl);
    same_rate = refl;
    same_step = refl;
  }

  -- The end of a step is where the rate puts it.
  abbrev OnGrid : TriggerCounter → Type 0
  OnGrid tc =
      tc.hi ≡ tc.counter_frame +ℤ ops.frames_of tc.counter_rate (tc.hi_time -ℤ tc.counter_time)

  hi-grows :
      (tc : TriggerCounter)
      → Steady ops tc.counter_rate tc.step_duration
      → OnGrid tc
      → tc.hi <ℤ (message_and_reset ops tc).hi
  unfolding message_and_reset
  hi-grows tc steady grid =
      let e : tc.hi_time +ℤ tc.step_duration -ℤ tc.counter_time
          ≡ tc.hi_time -ℤ tc.counter_time +ℤ tc.step_duration =
        omega int_laws in
      let lt = steady (tc.hi_time -ℤ tc.counter_time) in rw (grid, e) (omega int_laws)

  advance-grid :
      (fuel : ℕ) (tc : TriggerCounter)
      → Steady ops tc.counter_rate tc.step_duration
      → OnGrid tc
      → pos_part (frame -ℤ tc.hi) < fuel
      → (tc' : TriggerCounter) × (advance fuel ops frame tc ≡ ok tc') × Advanced frame tc tc'
  unfolding advance message_and_reset
  advance-grid zero tc steady grid more = absurd (omega arith)
  advance-grid (suc fuel) tc steady grid more =
      let grows = hi-grows tc steady grid in
      elim (Bool-cases (ltb_ℤ tc.hi frame)) [
        | inl past ↦
            let lt : tc.hi <ℤ frame = ground arith in
            let less : pos_part (frame -ℤ (message_and_reset ops tc).hi) < fuel =
              omega (arith, closer frame tc.hi (message_and_reset ops tc).hi grows lt) in
            let (tc', e, r) = advance-grid fuel (message_and_reset ops tc) steady refl less in
            (tc', rw (past, e), Advanced-reset tc tc' lt r)
        | inr stop ↦ (tc, rw stop, Advanced-stay tc (ground arith))
      ]

  pub advance-Advanced :
      (tc : TriggerCounter)
      → Steady ops tc.counter_rate tc.step_duration
      → (tc' : TriggerCounter) × (advance (rounds ops frame tc) ops frame tc ≡ ok tc')
        × Advanced frame tc tc'
  unfolding advance message_and_reset
  advance-Advanced tc steady = elim (Bool-cases (ltb_ℤ tc.hi frame)) [
    | inl past ↦
        let n : ℕ = pos_part (frame -ℤ (message_and_reset ops tc).hi) in
        let (tc', e, r) =
          advance-grid (n + 1) (message_and_reset ops tc) steady refl (omega arith) in
        let two : n + 2 ≡ suc (n + 1) = omega arith in
        (tc', rw (two, past, e), Advanced-reset tc tc' (ground arith) r)
    | inr stop ↦
        let n : ℕ = pos_part (frame -ℤ (message_and_reset ops tc).hi) in
        let two : n + 2 ≡ suc (n + 1) = omega arith in
        (tc, rw (two, stop), Advanced-stay tc (ground arith))
  ]

-- In ascending order, from `m` on.
abbrev pub Ascending : ℤ → List ℤ → Type 0
Ascending m [] = Unit {0}
Ascending m (f ∷ fs) = (m ≤ℤ f) × Ascending f fs

-- The frames from `lo` on.
abbrev pub how_many : ℤ → List ℤ → ℕ
how_many lo [] = 0
how_many lo (f ∷ fs) = (if leb_ℤ lo f then 1 else 0) + how_many lo fs

-- A step may be empty, but not the wrong way round.
abbrev pub IsOrdered : TriggerCounter → Type 0
IsOrdered tc = tc.lo ≤ℤ tc.hi +ℤ pos 1

Advanced-IsOrdered :
    (f : ℤ) (tc tc' : TriggerCounter) → IsOrdered tc → Advanced f tc tc' → IsOrdered tc'
Advanced-IsOrdered f tc tc' h r = elim r.moved [
  | inl (lo, hi) ↦ rw (lo, hi) h
  | inr (lo, lt) ↦ let up = r.reached in omega int_laws
]

-- From the frame on, the old and the new step begin alike.
Advanced-alike :
    (f g : ℤ) (tc tc' : TriggerCounter)
    → IsOrdered tc
    → Advanced f tc tc'
    → f ≤ℤ g
    → leb_ℤ tc'.lo g ≡ leb_ℤ tc.lo g
Advanced-alike f g tc tc' h r le = elim r.moved [
  | inl (lo, hi) ↦ rw lo
  | inr (lo, lt) ↦ both tc.lo tc.hi tc'.lo h lo lt
]
  where
    both : (a b c : ℤ) → a ≤ℤ b +ℤ pos 1 → c ≤ℤ f → b <ℤ f → leb_ℤ c g ≡ leb_ℤ a g
    both a b c h lo lt =
        let old : a ≤ℤ g = omega int_laws in let new : c ≤ℤ g = omega int_laws in ground arith

module _ (ops : FloatOps) (first : ℤ) where
  -- `first` is where the step began before the call.
  abbrev Alike : ℤ → TriggerCounter → Type 0
  Alike m tc = (g : ℤ) → m ≤ℤ g → leb_ℤ tc.lo g ≡ leb_ℤ first g

  -- One more trigger, if it lies in the step.
  abbrev tally : ℤ → TriggerCounter → TriggerCounter
  tally f tc = if leb_ℤ tc.lo f then record tc { counts_seen = tc.counts_seen + 1 } else tc

  record Tallied (f : ℤ) (tc tc' : TriggerCounter) : Type 0 where
    pub more : total tc' ≡ total tc + (if leb_ℤ first f then 1 else 0)
    pub ordered : IsOrdered tc'
    pub alike : Alike f tc'
    pub rate : tc'.counter_rate ≡ tc.counter_rate
    pub step : tc'.step_duration ≡ tc.step_duration

  tally-Tallied :
      (m f : ℤ) (tc tc' : TriggerCounter)
      → m ≤ℤ f
      → IsOrdered tc
      → Alike m tc
      → Advanced f tc tc'
      → Tallied f tc (tally f tc')
  tally-Tallied m f tc tc' le h a r =
      let same = Advanced-alike f f tc tc' h r (omega int_laws) ∙ a f le in
      let later : Alike f tc' = λ g up. Advanced-alike f g tc tc' h r up ∙ a g (omega int_laws) in
      let ord = Advanced-IsOrdered f tc tc' h r in
      elim (Bool-cases (leb_ℤ tc'.lo f)) [
        | inl yes_in ↦ rw yes_in (record {
          more = rw (sym same ∙ yes_in) (omega (arith, r.same_total));
          ordered = ord;
          alike = later;
          rate = r.same_rate;
          step = r.same_step;
        })
        | inr no_out ↦ rw no_out (record {
          more = rw (sym same ∙ no_out) (omega (arith, r.same_total));
          ordered = ord;
          alike = later;
          rate = r.same_rate;
          step = r.same_step;
        })
      ]

  count_frames-total :
      (m : ℤ) (fs : List ℤ) (tc : TriggerCounter)
      → Steady ops tc.counter_rate tc.step_duration
      → Ascending m fs
      → IsOrdered tc
      → Alike m tc
      → (tc' : TriggerCounter) × (count_frames ops fs tc ≡ ok tc')
        × (total tc' ≡ total tc + how_many first fs)
        × IsOrdered tc'
        × (tc'.counter_rate ≡ tc.counter_rate)
        × (tc'.step_duration ≡ tc.step_duration)
  unfolding count_frames
  count_frames-total m [] tc steady asc h a = (tc, refl, omega arith, h, refl, refl)
  count_frames-total m (f ∷ fs) tc steady asc h a =
      let (tc₁, e, r) = advance-Advanced ops f tc steady in
      let t = tally-Tallied m f tc tc₁ asc.0 h a r in
      let still : Steady ops (tally f tc₁).counter_rate (tally f tc₁).step_duration =
        rw (t.rate, t.step) steady in
      let (tc₂, e₂, n, o, p, q) =
        count_frames-total f fs (tally f tc₁) still asc.1 t.ordered t.alike in
      (tc₂, rw (e, e₂), omega (arith, n, t.more), o, p ∙ t.rate, q ∙ t.step)

ready-ok :
    (tc : TriggerCounter) (other : Outcome TriggerCounter)
    → tc.initialized ≡ true
    → (if tc.initialized then ok tc else other) ≡ ok tc
ready-ok tc other on = go tc.initialized on
  where
    go : (b : Bool) → b ≡ true → (if b then ok tc else other) ≡ ok tc
    go true e = refl
    go false e = cc

-- For a running counter with a valid rate at which every step holds a frame, and triggers in
-- ascending order: the call ends without running out, every trigger from the first frame of the
-- current step on is counted exactly once, in a message or in the step then open, the others are
-- not, and the open step then reaches the first frame that cannot trigger.
pub count_new_triggers-total :
    (ops : FloatOps) (tc : TriggerCounter) (l : TriggerList) (m : ℤ)
    → tc.initialized ≡ true
    → ops.rate_invalid l.list_rate ≡ false
    → Steady ops l.list_rate tc.step_duration
    → IsOrdered tc
    → Ascending m l.frames
    → (tc' : TriggerCounter) × (count_new_triggers ops tc l ≡ ok tc')
      × (total tc' ≡ total tc + how_many tc.lo l.frames)
      × (l.first_frame_that_cannot_trigger ≤ℤ tc'.hi)
      × IsOrdered tc'
unfolding count_new_triggers
count_new_triggers-total ops tc l m running rate steady h asc =
    let known : TriggerCounter = record tc {
      counter_frame = l.key_frame;
      counter_time = l.key_time;
      counter_rate = l.list_rate;
    } in
    let (tc₁, e, n, o, p, q) =
      count_frames-total ops tc.lo m l.frames known steady asc h (λ g le. refl) in
    let still : Steady ops tc₁.counter_rate tc₁.step_duration = rw (p, q) steady in
    let end = l.first_frame_that_cannot_trigger in
    let (tc₂, e₂, r) = advance-Advanced ops end tc₁ still in
    (
      tc₂,
      rw (rate, ready-ok known (initialize ops known) running, e, e₂),
      r.same_total ∙ n,
      r.reached,
      Advanced-IsOrdered end tc₁ tc₂ o r,
    )
