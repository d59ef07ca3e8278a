-- ===== src/Broker/Counter.antt =====
-- TriggerCounter of group_trigger.go: the triggers of one channel, counted over steps of a fixed
-- duration.
pub mod Total
use dastard.Base.{
  ℕ, zero, suc, ◌+◌, Bool, true, false, List, [], ◌∷◌, ◌++◌, if◌then◌else◌, Outcome, ok, stuck,
  ◌>>=◌,
}
use dastard.Base.Int.{ℤ, pos, ◌+ℤ◌, ◌-ℤ◌, ltb_ℤ, leb_ℤ, pos_part}
use dastard.Floats.{FloatOps}
use dastard.Trigger.{TriggerList}

pub record CounterMessage : Type 0 where
  pub message_hi_time : ℤ
  pub duration : ℤ
  pub counts : ℕ

-- `lo` and `hi` are the first and the last frame of the step that is being counted.
pub record TriggerCounter : Type 0 where
  pub counter_channel : ℕ
  pub hi : ℤ
  pub lo : ℤ
  pub hi_time : ℤ
  pub counts_seen : ℕ
  pub step_duration : ℤ
  pub counter_rate : ℕ
  pub counter_time : ℤ
  pub counter_frame : ℤ
  pub initialized : Bool
  pub messages : List CounterMessage

unfoldable pub new_trigger_counter : ℕ → ℤ → TriggerCounter
new_trigger_counter channel step = record {
  counter_channel = channel;
  hi = pos 0;
  lo = pos 0;
  hi_time = pos 0;
  counts_seen = 0;
  step_duration = step;
  counter_rate = 0;
  counter_time = pos 0;
  counter_frame = pos 0;
  initialized = false;
  messages = [];
}

-- `for hiTime.Before(keyTime) { hiTime = hiTime.Add(stepDuration) }`
unfoldable pub round_up : ℕ → ℤ → ℤ → ℤ → Outcome ℤ
round_up zero step key t = stuck
round_up (suc fuel) step key t =
    let later = round_up fuel step key (t +ℤ step) in if ltb_ℤ t key then later else ok t

unfoldable pub initialize : FloatOps → TriggerCounter → Outcome TriggerCounter
unfolding round_up
initialize ops tc = do
  let rounded = ops.round_time tc.counter_time tc.step_duration
  time ←
      round_up (pos_part (tc.counter_time -ℤ rounded) + 1) tc.step_duration tc.counter_time rounded
  let end : ℤ = tc.counter_frame +ℤ ops.frames_of tc.counter_rate (time -ℤ tc.counter_time)
  ok (record tc {
    hi_time = time;
    hi = end;
    lo = end -ℤ ops.frames_of tc.counter_rate tc.step_duration +ℤ pos 1;
    initialized = true;
  })

unfoldable pub message_and_reset : FloatOps → TriggerCounter → TriggerCounter
message_and_reset ops tc =
    let time : ℤ = tc.hi_time +ℤ tc.step_duration in
    let message : CounterMessage = record {
      message_hi_time = tc.hi_time;
      duration = tc.step_duration;
      counts = tc.counts_seen;
    } in
    record tc {
      messages = tc.messages ++ (message ∷ []);
      counts_seen = 0;
      hi_time = time;
      lo = tc.hi +ℤ pos 1;
      hi = tc.counter_frame +ℤ ops.frames_of tc.counter_rate (time -ℤ tc.counter_time);
    }

-- `for frame > tc.hi { tc.messageAndReset() }`
unfoldable pub advance : ℕ → FloatOps → ℤ → TriggerCounter → Outcome TriggerCounter
unfolding message_and_reset
advance zero ops frame tc = stuck
advance (suc fuel) ops frame tc =
    let next = advance fuel ops frame (message_and_reset ops tc) in
    if ltb_ℤ tc.hi frame then next else ok tc

-- The first reset can set `hi` back, when the clock was corrected; each later one moves it on.
abbrev pub rounds : FloatOps → ℤ → TriggerCounter → ℕ
unfolding message_and_reset
rounds ops frame tc = pos_part (frame -ℤ (message_and_reset ops tc).hi) + 2

unfoldable pub count_frames : FloatOps → List ℤ → TriggerCounter → Outcome TriggerCounter
unfolding advance
count_frames ops [] tc = ok tc
count_frames ops (f ∷ fs) tc = do
  tc' ← advance (rounds ops f tc) ops f tc
  count_frames ops fs
      (if leb_ℤ tc'.lo f then record tc' { counts_seen = tc'.counts_seen + 1 } else tc')

unfoldable pub count_new_triggers : FloatOps → TriggerCounter → TriggerList → Outcome TriggerCounter
unfolding initialize count_frames
count_new_triggers ops tc l =
    let known : TriggerCounter = record tc {
      counter_frame = l.key_frame;
      counter_time = l.key_time;
      counter_rate = l.list_rate;
    } in
    let ready = if known.initialized then ok known else initialize ops known in
    let count = (do
      start ← ready
      counted ← count_frames ops l.frames start
      advance (rounds ops l.first_frame_that_cannot_trigger counted) ops
          l.first_frame_that_cannot_trigger counted) in
    if ops.rate_invalid l.list_rate then ok known else count
