-- ===== src/Broker/Messages.antt =====
-- GenerateTriggerMessages and computeGroupTriggerState of group_trigger.go. A time is in ns, and
-- Nanosecond() is its part below a second.
use dastard.Base.{
  ℕ, zero, suc, ◌+◌, ◌-◌, ◌%◌, ◌==◌, Bool, true, not, ◌&&◌, List, [], ◌∷◌, ◌++◌, Option, none, some,
  if◌then◌else◌, get_elem?, length, Outcome, ok, fault, ◌>>=◌,
}
use dastard.Base.Int.{ℤ, pos, negsuc, eqb_ℤ}
use dastard.Broker.{TriggerBroker}
use dastard.Broker.Counter.{TriggerCounter, CounterMessage}

pub record TriggerRateMessage : Type 0 where
  pub rate_hi_time : ℤ
  pub rate_duration : ℤ
  pub rate_counts : List ℕ

abbrev pub nanosecond : ℤ → ℕ
nanosecond (pos n) = n % 1000000000
nanosecond (negsuc n) = 999999999 - n % 1000000000

-- Every counter holds `n` messages.
abbrev pub all_hold : ℕ → List TriggerCounter → Bool
all_hold n [] = true
all_hold n (c ∷ cs) = length c.messages == n && all_hold n cs

-- The counts of message `i` of each counter, each in step with the first one.
unfoldable pub counts_of : ℕ → CounterMessage → List TriggerCounter → Outcome (List ℕ)
counts_of i first [] = ok []
counts_of i first (c ∷ cs) =
    let rest = counts_of i first cs in
    elim (get_elem? c.messages i) [
      | none ↦ fault
      | some m ↦
          if nanosecond m.message_hi_time == nanosecond first.message_hi_time
            && eqb_ℤ m.duration first.duration
          then (do ns ← rest; ok (m.counts ∷ ns))
          else fault
    ]

abbrev pub rate_message :
    ℕ → List TriggerCounter → Option CounterMessage → Outcome TriggerRateMessage
rate_message i cs none = fault
rate_message i cs (some m) = do
  ns ← counts_of i m cs
  ok (record { rate_hi_time = m.message_hi_time; rate_duration = m.duration; rate_counts = ns })

-- The messages from number `i` on, `k` of them.
unfoldable pub rate_messages :
    List CounterMessage → List TriggerCounter → ℕ → ℕ → Outcome (List TriggerRateMessage)
unfolding counts_of
rate_messages first cs i zero = ok []
rate_messages first cs i (suc k) = do
  m ← rate_message i cs (get_elem? first i)
  ms ← rate_messages first cs (i + 1) k
  ok (m ∷ ms)

abbrev pub released : List TriggerCounter → List TriggerCounter
released [] = []
released (c ∷ cs) = record c { messages = [] } ∷ released cs

-- A broker without channels panics.
abbrev pub generate_from :
    TriggerBroker → List TriggerCounter → Outcome (TriggerBroker × List TriggerRateMessage)
generate_from b [] = fault
generate_from b (c ∷ cs) = if not (all_hold (length c.messages) cs) then fault else (do
  ms ← rate_messages c.messages (c ∷ cs) 0 (length c.messages)
  ok (record b { trigger_counters = released (c ∷ cs) }, ms))

-- What is sent to the clients, and the broker with its messages released.
unfoldable pub generate_trigger_messages :
    TriggerBroker → Outcome (TriggerBroker × List TriggerRateMessage)
unfolding rate_messages counts_of
generate_trigger_messages b = generate_from b b.trigger_counters

-- The receivers of each source, as an association list.
abbrev pub add_receiver : ℤ → ℕ → List (ℤ × List ℕ) → List (ℤ × List ℕ)
add_receiver source rx [] = (source, rx ∷ []) ∷ []
add_receiver source rx ((s, rxs) ∷ conns) =
    if eqb_ℤ s source
    then (s, rxs ++ (rx ∷ [])) ∷ conns
    else (s, rxs) ∷ add_receiver source rx conns

abbrev pub add_sources : List ℤ → ℕ → List (ℤ × List ℕ) → List (ℤ × List ℕ)
add_sources [] rx conns = conns
add_sources (s ∷ ss) rx conns = add_sources ss rx (add_receiver s rx conns)

abbrev pub connections_from : List (List ℤ) → ℕ → List (ℤ × List ℕ) → List (ℤ × List ℕ)
connections_from [] rx conns = conns
connections_from (ss ∷ sss) rx conns = connections_from sss (rx + 1) (add_sources ss rx conns)

abbrev pub compute_group_trigger_state : TriggerBroker → List (ℤ × List ℕ)
compute_group_trigger_state b = connections_from b.sources 0 []
