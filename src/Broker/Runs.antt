-- ===== src/Broker/Runs.antt =====
-- Runs of the broker and its counters, and their theorems at concrete inputs.
use dastard.Base.{
  ℕ, ◌+◌, ◌≡◌, ◌≢◌, refl, arith, true, false, ◌&&◌, ◌||◌, not, List, [], ◌∷◌, Option, some, none,
  get_or, ok,
}
use dastard.Base.Int.{ℤ, pos, ◌≤ℤ◌, eqb_ℤ, int_laws}
use dastard.Floats.{FloatOps}
use dastard.Trigger.{TriggerList}
use dastard.Broker.{
  TriggerBroker, new_trigger_broker, add_connection, delete_connection, is_connected,
}
use dastard.Broker.Requests.{add, delete, stop, serve, requests-IsCounted}
use dastard.Broker.Connections.{IsCounted}
use dastard.Broker.Effects.{connections_after}
use dastard.Broker.Counter.{TriggerCounter, count_new_triggers}
use dastard.Broker.Counter.Total.{total, how_many, IsOrdered, count_new_triggers-total}
use dastard.Broker.Distribute.{deliver}
use dastard.Broker.Distribute.Delivery.{Sorted, received, occurrences, sent, deliver-Delivered}

-- Stand-ins for the floating-point code: a frame for each time unit.
abbrev ops : FloatOps
ops = record {
  period_of_rate = λ r. r;
  delay_samples = λ delay rate. delay;
  kink_x2 = λ samples k. (0, false);
  float_lt = λ x y. false;
  max_float = 0;
  frames_of = λ rate delay. delay;
  rate_invalid = λ r. false;
  round_time = λ t d. t;
}

-- Two connections to channel 1 of three, and a request that is in error.
abbrev linked : TriggerBroker
linked = record {
  nchannels = 3;
  nconnections = pos 2;
  sources = [] ∷ (pos 2 ∷ pos 0 ∷ []) ∷ [] ∷ [];
  latest_primaries = (pos 10 ∷ pos 30 ∷ []) ∷ (pos 15 ∷ []) ∷ (pos 20 ∷ []) ∷ [];
  trigger_counters = [];
}

links :
    (serve
      (new_trigger_broker 3)
      (add (pos 0) (pos 1) ∷ add (pos 2) (pos 1) ∷ add (pos 0) (pos 3) ∷ [])).sources
    ≡ linked.sources
unfolding new_trigger_broker add_connection
links = refl

delivered : deliver 4 linked ≡ ok (none ∷ some (pos 10 ∷ pos 20 ∷ pos 30 ∷ []) ∷ none ∷ [])
unfolding deliver
delivered = refl

requests-IsCounted_example :
    IsCounted
      (serve (new_trigger_broker 3) (add (pos 0) (pos 1) ∷ delete (pos 0) (pos 1) ∷ stop ∷ []))
requests-IsCounted_example =
    requests-IsCounted 3 (add (pos 0) (pos 1) ∷ delete (pos 0) (pos 1) ∷ stop ∷ [])

linked-IsCounted : IsCounted linked
linked-IsCounted = record {
  counted = refl;
  each_channel = refl;
  no_dup = (tt, ((refl, (refl, tt)), (tt, tt)));
}

connections_after_example :
    ((pos 1 ≢ pos 0)
      → (b' : TriggerBroker) × (add_connection linked (pos 1) (pos 0) ≡ some b')
        × ((s' r' : ℤ)
            → is_connected b' s' r'
              ≡ (eqb_ℤ (pos 0) r' && eqb_ℤ s' (pos 1)) || is_connected linked s' r'))
    × ((b' : TriggerBroker) × (delete_connection linked (pos 1) (pos 0) ≡ some b')
        × ((s' r' : ℤ)
            → is_connected b' s' r'
              ≡ not (eqb_ℤ (pos 0) r' && eqb_ℤ (pos 1) s') && is_connected linked s' r'))
connections_after_example = connections_after linked (pos 1) (pos 0) linked-IsCounted refl

deliver-Delivered_example :
    (m : List (Option (List ℤ))) × (deliver 4 linked ≡ ok m)
    × ((r : ℕ)
        → Sorted (received m r)
          × ((f : ℤ)
              → occurrences f (received m r)
                ≡ sent linked.latest_primaries f (get_or linked.sources r [])))
deliver-Delivered_example =
    deliver-Delivered 4 linked linked-IsCounted refl refl
      (tt, (((omega arith, omega arith), ((omega arith, omega arith), tt)), (tt, tt)))

-- Steps of ten frames, the first one up to frame 100.
abbrev counter : TriggerCounter
counter = record {
  counter_channel = 0;
  hi = pos 100;
  lo = pos 91;
  hi_time = pos 100;
  counts_seen = 2;
  step_duration = pos 10;
  counter_rate = 1;
  counter_time = pos 0;
  counter_frame = pos 0;
  initialized = true;
  messages = [];
}

abbrev primaries : TriggerList
primaries = record {
  list_channel = 0;
  frames = pos 95 ∷ pos 104 ∷ pos 131 ∷ [];
  key_frame = pos 0;
  key_time = pos 0;
  list_rate = 1;
  first_frame_that_cannot_trigger = pos 140;
}

count_new_triggers-total_example :
    (tc' : TriggerCounter) × (count_new_triggers ops counter primaries ≡ ok tc')
    × (total tc' ≡ total counter + how_many counter.lo primaries.frames)
    × (primaries.first_frame_that_cannot_trigger ≤ℤ tc'.hi)
    × IsOrdered tc'
count_new_triggers-total_example =
    count_new_triggers-total ops counter primaries (pos 0) refl refl (λ x. omega int_laws)
      (omega int_laws) (omega arith, (omega arith, (omega arith, tt)))
