-- ===== src/Files/AsyncFile.antt =====
-- internal/asyncbufio/asyncbufio.go: a channel of chunks, emptied by a goroutine into a buffer that
-- goes to the file. The buffer is bufio's: it may also pass on what it has at any time.
pub mod Kept
use dastard.Base.{
  ℕ, ◌+◌, Bool, true, false, List, [], ◌∷◌, ◌++◌, if◌then◌else◌, ltb, length, take, drop,
}

pub record AsyncWriter : Type 0 where
  pub depth : ℕ
  pub queue : List (List ℕ)
  pub buffered : List ℕ
  pub on_disk : List ℕ

-- NewWriter, with the channel's depth.
unfoldable pub new_writer : ℕ → AsyncWriter
new_writer depth = record { depth = depth; queue = []; buffered = []; on_disk = [] }

-- Write: `true` is the error of a full channel.
unfoldable pub write : AsyncWriter → List ℕ → AsyncWriter × Bool
write w p =
    if ltb (length w.queue) w.depth
    then (record w { queue = w.queue ++ (p ∷ []) }, false)
    else (w, true)

abbrev pub after_take : AsyncWriter → List (List ℕ) → AsyncWriter
after_take w [] = w
after_take w (p ∷ ps) = record w { queue = ps; buffered = w.buffered ++ p }

-- writeLoop takes a chunk from the channel.
unfoldable pub take_chunk : AsyncWriter → AsyncWriter
take_chunk w = after_take w w.queue

abbrev pub joined : List (List ℕ) → List ℕ
joined [] = []
joined (p ∷ ps) = p ++ joined ps

-- flush: the loop that empties the channel, and the flush of the buffer. Flush, Close and the
-- ticker make it.
unfoldable pub flush_loop : AsyncWriter → List (List ℕ) → AsyncWriter
flush_loop w [] = record w { queue = []; buffered = []; on_disk = w.on_disk ++ w.buffered }
flush_loop w (p ∷ ps) = flush_loop (record w { buffered = w.buffered ++ p }) ps

unfoldable pub flush : AsyncWriter → AsyncWriter
flush w = flush_loop w w.queue

-- The steps of the writer's users, of its goroutine and of its buffer, in any order.
pub data Event : Type 0 where
  writes : List ℕ → Event
  takes : Event
  flushes : Event
  spills : ℕ → Event

unfoldable pub step_event : AsyncWriter → Event → AsyncWriter
step_event w (writes p) = (write w p).0
step_event w takes = take_chunk w
step_event w flushes = flush w
step_event w (spills n) = record w {
  buffered = drop n w.buffered;
  on_disk = w.on_disk ++ take n w.buffered;
}

unfoldable pub run_events : AsyncWriter → List Event → AsyncWriter
run_events w [] = w
run_events w (e ∷ es) = run_events (step_event w e) es
