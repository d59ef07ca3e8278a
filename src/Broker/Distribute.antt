-- ===== src/Broker/Distribute.antt =====
-- Distribute of TriggerBroker.
pub mod Delivery
use dastard.Base.{
  ℕ, zero, suc, ◌+◌, Bool, true, false, ◌||◌, ◌==◌, List, [], ◌∷◌, ◌++◌, Option, some, none,
  if◌then◌else◌, get_elem?, set, length, replicate, Outcome, ok, fault, stuck, ◌>>=◌, index, ltb,
}
use dastard.Base.Int.{ℤ, pos, leb_ℤ, eqb_ℤ}
use dastard.Floats.{FloatOps}
use dastard.Trigger.{TriggerList}
use dastard.Broker.{TriggerBroker}
use dastard.Broker.Counter.{TriggerCounter, count_new_triggers}

-- A sort of frame numbers. `sort.Sort` promises a sorted permutation and no more; this is one.
unfoldable pub insert_frame : ℤ → List ℤ → List ℤ
insert_frame x [] = x ∷ []
insert_frame x (y ∷ l) = let rest = insert_frame x l in if leb_ℤ x y then x ∷ y ∷ l else y ∷ rest

unfoldable pub sort_indices : List ℤ → List ℤ
unfolding insert_frame
sort_indices [] = []
sort_indices (x ∷ l) = insert_frame x (sort_indices l)

-- The first loop: each channel's primaries stored and counted. A channel that is not the broker's
-- is a panic. The error of the count is always nil.
unfoldable pub store_primaries :
    FloatOps → List (ℕ × TriggerList) → TriggerBroker → Outcome TriggerBroker
unfolding count_new_triggers
store_primaries ops [] b = ok b
store_primaries ops ((i, l) ∷ ls) b = do
  counter ← elim (get_elem? b.trigger_counters i) [ none ↦ fault | some tc ↦ ok tc ]
  counted ← count_new_triggers ops counter l
  store_primaries ops ls (record b {
    latest_primaries = set b.latest_primaries i l.frames;
    trigger_counters = set b.trigger_counters i counted;
  })

abbrev pub nprimaries : List (ℕ × TriggerList) → ℕ
nprimaries [] = 0
nprimaries (l ∷ ls) = length l.1.frames + nprimaries ls

-- The primaries of all sources of one receiver. A source that is not a channel is a panic.
unfoldable pub gather : List (List ℤ) → List ℤ → Outcome (List ℤ)
gather latest [] = ok []
gather latest (s ∷ ss) = do
  i ← index s
  frames ← elim (get_elem? latest i) [ none ↦ fault | some l ↦ ok l ]
  rest ← gather latest ss
  ok (frames ++ rest)

-- For each channel the secondary triggers, `none` where the map has no entry.
unfoldable pub receive : List (List ℤ) → List (List ℤ) → Outcome (List (Option (List ℤ)))
unfolding gather sort_indices
receive latest [] = ok []
receive latest (sources ∷ ls) = do
  frames ← gather latest sources
  rest ← receive latest ls
  ok ((if ltb 0 (length sources) then some (sort_indices frames) else none) ∷ rest)

-- The part of Distribute after the first loop, for the given count of primaries.
unfoldable pub deliver : ℕ → TriggerBroker → Outcome (List (Option (List ℤ)))
unfolding receive
deliver n b =
    let received = receive b.latest_primaries b.sources in
    if (n == 0) || eqb_ℤ b.nconnections (pos 0) then ok (replicate b.nchannels none) else received

unfoldable pub distribute :
    FloatOps
    → List (ℕ × TriggerList)
    → TriggerBroker
    → Outcome (TriggerBroker × List (Option (List ℤ)))
unfolding store_primaries deliver
distribute ops primaries b = do
  b' ← store_primaries ops primaries b
  secondaries ← deliver (nprimaries primaries) b'
  ok (b', secondaries)
