-- ===== src/Files/AsyncFile/Kept.antt =====
-- The writer loses no chunk that it has accepted, and keeps their order.
use dastard.Base.{
  ℕ, ◌≡◌, refl, sym, ap, ◌∙◌, List, [], ◌∷◌, ◌++◌, if◌then◌else◌, ltb, length, take, drop,
  append-nil, append_assoc, take-append-drop, Bool-cases, inl, inr,
}
use dastard.Files.AsyncFile.{
  AsyncWriter, write, take_chunk, after_take, joined, flush_loop, flush, Event, writes, takes,
  flushes, spills, step_event, run_events,
}

-- All that the writer has accepted, in the file or on its way.
abbrev pub content : AsyncWriter → List ℕ
content w = w.on_disk ++ (w.buffered ++ joined w.queue)

-- The bytes of the writes that are accepted in a run.
unfoldable pub accepted : AsyncWriter → List Event → List ℕ
accepted w [] = []
accepted w (writes p ∷ es) =
    (if (write w p).1 then [] else p) ++ accepted (step_event w (writes p)) es
accepted w (takes ∷ es) = accepted (step_event w takes) es
accepted w (flushes ∷ es) = accepted (step_event w flushes) es
accepted w (spills n ∷ es) = accepted (step_event w (spills n)) es

joined-append : (xs ys : List (List ℕ)) → joined (xs ++ ys) ≡ joined xs ++ joined ys
joined-append [] ys = refl
joined-append (x ∷ xs) ys = rw (joined-append xs ys) (sym (append_assoc x (joined xs) (joined ys)))

pub content-write :
    (w : AsyncWriter) (p : List ℕ)
    → content (write w p).0 ≡ content w ++ (if (write w p).1 then [] else p)
unfolding write
content-write w p = elim (Bool-cases (ltb (length w.queue) w.depth)) [
  | inl e ↦ rw e (simp (joined-append, append-nil, append_assoc))
  | inr e ↦ rw e (sym (append-nil (content w)))
]

content-take :
    (w : AsyncWriter) (q : List (List ℕ)) → w.queue ≡ q → content (after_take w q) ≡ content w
content-take w [] e = refl
content-take w (p ∷ ps) e = rw e (simp append_assoc)

flush-content :
    (w : AsyncWriter) (q : List (List ℕ))
    → (flush_loop w q).on_disk ≡ w.on_disk ++ (w.buffered ++ joined q)
unfolding flush_loop
flush-content w [] = rw (append-nil w.buffered)
flush-content w (p ∷ ps) =
    flush-content (record w { buffered = w.buffered ++ p }) ps ∙ simp append_assoc

flush-empty :
    (w : AsyncWriter) (q : List (List ℕ))
    → ((flush_loop w q).buffered ≡ []) × ((flush_loop w q).queue ≡ [])
unfolding flush_loop
flush-empty w [] = (refl, refl)
flush-empty w (p ∷ ps) = flush-empty (record w { buffered = w.buffered ++ p }) ps

-- A flush puts all that was accepted into the file, in its order.
pub on_disk-flush :
    (w : AsyncWriter) → ((flush w).on_disk ≡ content w) × (content (flush w) ≡ content w)
unfolding flush
on_disk-flush w =
    let all = flush-content w w.queue in
    let (b, q) = flush-empty w w.queue in
    (all, rw (b, q) (append-nil (flush_loop w w.queue).on_disk ∙ all))

content-spill : (w : AsyncWriter) (n : ℕ) → content (step_event w (spills n)) ≡ content w
unfolding step_event
content-spill w n =
    append_assoc w.on_disk (take n w.buffered) (drop n w.buffered ++ joined w.queue)
    ∙ ap (λ (l : List ℕ). w.on_disk ++ l)
        (sym (append_assoc (take n w.buffered) (drop n w.buffered) (joined w.queue))
          ∙ ap (λ (l : List ℕ). l ++ joined w.queue) (take-append-drop n w.buffered))

content-writes :
    (w : AsyncWriter) (p : List ℕ)
    → content (step_event w (writes p)) ≡ content w ++ (if (write w p).1 then [] else p)
unfolding step_event
content-writes = content-write

content-takes : (w : AsyncWriter) → content (step_event w takes) ≡ content w
unfolding step_event take_chunk
content-takes w = content-take w w.queue refl

content-flushes : (w : AsyncWriter) → content (step_event w flushes) ≡ content w
unfolding step_event
content-flushes w = (on_disk-flush w).1

pub content-run_events :
    (w : AsyncWriter) (es : List Event) → content (run_events w es) ≡ content w ++ accepted w es
unfolding run_events accepted
content-run_events w [] = sym (append-nil (content w))
content-run_events w (writes p ∷ es) =
    content-run_events (step_event w (writes p)) es
    ∙ ap (λ (l : List ℕ). l ++ accepted (step_event w (writes p)) es) (content-writes w p)
    ∙ append_assoc (content w) (if (write w p).1 then [] else p)
        (accepted (step_event w (writes p)) es)
content-run_events w (takes ∷ es) =
    content-run_events (step_event w takes) es
    ∙ ap (λ (l : List ℕ). l ++ accepted (step_event w takes) es) (content-takes w)
content-run_events w (flushes ∷ es) =
    content-run_events (step_event w flushes) es
    ∙ ap (λ (l : List ℕ). l ++ accepted (step_event w flushes) es) (content-flushes w)
content-run_events w (spills n ∷ es) =
    content-run_events (step_event w (spills n)) es
    ∙ ap (λ (l : List ℕ). l ++ accepted (step_event w (spills n)) es) (content-spill w n)

run_events-append :
    (w : AsyncWriter) (es fs : List Event)
    → run_events w (es ++ fs) ≡ run_events (run_events w es) fs
unfolding run_events
run_events-append w [] fs = refl
run_events-append w (e ∷ es) fs = run_events-append (step_event w e) es fs

-- Whatever the order of writes, of the goroutine's steps, of the buffer's and of flushes: a flush
-- at the end leaves in the file just the bytes of the accepted writes, in their order, after what
-- was there and on its way before.
pub run_events-flush :
    (w : AsyncWriter) (es : List Event)
    → (run_events w (es ++ (flushes ∷ []))).on_disk ≡ content w ++ accepted w es
unfolding run_events step_event
run_events-flush w es =
    rw (run_events-append w es (flushes ∷ []))
      ((on_disk-flush (run_events w es)).0 ∙ content-run_events w es)
