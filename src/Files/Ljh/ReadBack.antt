-- ===== src/Files/Ljh/ReadBack.antt =====
-- What is written to an LJH file is read back.
use dastard.Base.{
  ◌^◌, ℕ, ◌+◌, ◌*◌, ◌≤◌, ◌<◌, ◌≡◌, refl, sym, ap, ◌∙◌, true, false, List, [], ◌∷◌, ◌++◌, none, some,
  ltb, length, length-append, take, drop, take-append, drop-append, append_assoc, append-nil, arith,
  ==_iff, lt→ltb, ge→ltb,
}
use dastard.Base.Int.{ℤ, pos, negsuc}
use dastard.Packets.Words.{le_word, bytes_of}
use dastard.Packets.Words.Swapped.{
  Below, le_word-le_bytes, length-le_bytes, length-bytes_of, words_of16-bytes_of,
}
use dastard.Files.AsyncFile.{AsyncWriter, write, joined}
use dastard.Files.AsyncFile.Kept.{content, content-write}
use dastard.Files.Ljh.{
  bits64, int64, from_int64, write_chunks, LjhWriter, short_write, subframe_count_of, chunks_of,
  write_record, read_bytes, next_pulse,
}

abbrev pub IsInt64 : ℤ → Type 0
IsInt64 (pos n) = n < 0x8000_0000_0000_0000
IsInt64 (negsuc n) = n < 0x8000_0000_0000_0000

int64-bits64 : (z : ℤ) → IsInt64 z → (int64 (bits64 z) ≡ z) × (bits64 z < 256 ^ 8)
unfolding int64 bits64
int64-bits64 (pos n) h = (ground arith, omega arith)
int64-bits64 (negsuc n) h = (ground arith, omega arith)

length-from_int64 : (z : ℤ) → length (from_int64 z) ≡ 8
unfolding from_int64
length-from_int64 z = length-le_bytes 8 (bits64 z)

int64-from_int64 : (z : ℤ) → IsInt64 z → int64 (le_word (from_int64 z)) ≡ z
unfolding from_int64
int64-from_int64 z h =
    ap int64 (le_word-le_bytes 8 (bits64 z) (int64-bits64 z h).1) ∙ (int64-bits64 z h).0

read_bytes-append :
    (n : ℕ) (b rest : List ℕ) → length b ≡ n → read_bytes n (b ++ rest) ≡ some (b, rest)
read_bytes-append n b rest h =
    let room : ltb (length (b ++ rest)) n ≡ false = ground (arith, length-append b rest) in
    let front : take n (b ++ rest) ≡ b = rw (← h) (take-append b rest) in
    let back : drop n (b ++ rest) ≡ rest = rw (← h) (drop-append b rest) in
    rw (room, front, back) refl

-- The bytes of a record.
abbrev pub record_bytes : ℤ → ℤ → List ℕ → List ℕ
record_bytes count timestamp samples =
    from_int64 count ++ (from_int64 timestamp ++ bytes_of 2 samples)

next_pulse-record :
    (count timestamp : ℤ) (samples rest : List ℕ)
    → IsInt64 count
    → IsInt64 timestamp
    → Below 65536 samples
    → next_pulse (length samples) (record_bytes count timestamp samples ++ rest)
      ≡ some (record { time_code = timestamp; subframe_count = count; pulse = samples }, rest)
unfolding next_pulse
next_pulse-record count timestamp samples rest hc ht hs =
    let whole : record_bytes count timestamp samples ++ rest
        ≡ from_int64 count ++ (from_int64 timestamp ++ (bytes_of 2 samples ++ rest)) =
      simp append_assoc in
    rw
      (
        whole,
        read_bytes-append 8 (from_int64 count)
            (from_int64 timestamp ++ (bytes_of 2 samples ++ rest)) (length-from_int64 count),
        read_bytes-append 8 (from_int64 timestamp) (bytes_of 2 samples ++ rest)
            (length-from_int64 timestamp),
        read_bytes-append (2 * length samples) (bytes_of 2 samples) rest
            (length-bytes_of 2 samples),
        int64-from_int64 count hc,
        int64-from_int64 timestamp ht,
        words_of16-bytes_of samples hs,
      )
      refl

-- A chunk that finds room is added to the content.
write_room :
    (w : AsyncWriter) (p : List ℕ)
    → length w.queue < w.depth
    → ((write w p).1 ≡ false)
      × (length (write w p).0.queue ≡ length w.queue + 1)
      × ((write w p).0.depth ≡ w.depth)
      × (content (write w p).0 ≡ content w ++ p)
write_room w p h =
    let room : ltb (length w.queue) w.depth ≡ true = lt→ltb (length w.queue) w.depth h in
    let ok : (write w p).1 ≡ false = unfold write in rw room refl in
    let more : length (write w p).0.queue ≡ length w.queue + 1 =
      unfold write in rw room (length-append w.queue (p ∷ [])) in
    let same : (write w p).0.depth ≡ w.depth = unfold write in rw room refl in
    (ok, more, same, rw ok at (content-write w p))

write_full : (w : AsyncWriter) (p : List ℕ) → w.depth ≤ length w.queue → write w p ≡ (w, true)
unfolding write
write_full w p h = rw (ge→ltb (length w.queue) w.depth h) refl

write_chunks-content :
    (w : AsyncWriter) (ps : List (List ℕ))
    → length w.queue + length ps ≤ w.depth
    → ((write_chunks w ps).1 ≡ false) × (content (write_chunks w ps).0 ≡ content w ++ joined ps)
unfolding write_chunks
write_chunks-content w [] h = (refl, sym (append-nil (content w)))
write_chunks-content w (p ∷ ps) h =
    let (ok, more, same, c) = write_room w p (omega (arith, h)) in
    let (e, c') = write_chunks-content (write w p).0 ps (omega (arith, h, more, same)) in
    (
      rw ok e,
      rw ok (c' ∙ ap (λ (l : List ℕ). l ++ joined ps) c ∙ append_assoc (content w) p (joined ps)),
    )

-- A record of the file's length that finds room for its three chunks is accepted and counted, its
-- bytes are added to what the writer has accepted before, and NextPulse reads from these bytes the
-- same subframe count, time and samples and leaves the rest of the file.
pub write_record-next_pulse :
    (w : LjhWriter) (framecount timestamp : ℤ) (samples rest : List ℕ)
    → length samples ≡ w.samples
    → length w.writer.queue + 3 ≤ w.writer.depth
    → IsInt64 (subframe_count_of w framecount)
    → IsInt64 timestamp
    → Below 65536 samples
    → (w' : LjhWriter) × (bytes : List ℕ) × (write_record w framecount timestamp samples
        ≡ (w', none))
      × (w'.records_written ≡ w.records_written + 1)
      × (content w'.writer ≡ content w.writer ++ bytes)
      × (next_pulse w.samples (bytes ++ rest)
          ≡ some (
            record {
              time_code = timestamp;
              subframe_count = subframe_count_of w framecount;
              pulse = samples;
            },
            rest,
          ))
unfolding write_record
write_record-next_pulse w framecount timestamp samples rest hl hq hc ht hs =
    let chunks = chunks_of w framecount timestamp samples in
    let (e, c) = write_chunks-content w.writer chunks (omega (arith, hq)) in
    let done = (write_chunks w.writer chunks).0 in
    let whole : write_chunks w.writer chunks ≡ (done, false) = λ i. (done, e i) in
    let count = subframe_count_of w framecount in
    (
      record w { writer = done; records_written = w.records_written + 1 },
      record_bytes count timestamp samples,
      rw ((==_iff (length samples) w.samples).1 hl, whole) refl,
      refl,
      c
          ∙ ap
              (λ (l : List ℕ).
                content w.writer ++ (from_int64 count ++ (from_int64 timestamp ++ l)))
              (append-nil (bytes_of 2 samples)),
      rw (← hl) (next_pulse-record count timestamp samples rest hc ht hs),
    )

-- A record that finds room for its first chunk only is refused, is not counted, and leaves the
-- eight bytes of its subframe count among the accepted ones.
pub write_record-tears :
    (w : LjhWriter) (framecount timestamp : ℤ) (samples : List ℕ)
    → length samples ≡ w.samples
    → length w.writer.queue + 1 ≡ w.writer.depth
    → let (w', problem) = write_record w framecount timestamp samples in
      (problem ≡ some short_write)
      × (w'.records_written ≡ w.records_written)
      × (content w'.writer ≡ content w.writer ++ from_int64 (subframe_count_of w framecount))
unfolding write_record write_chunks
write_record-tears w framecount timestamp samples hl hq =
    let p = from_int64 (subframe_count_of w framecount) in
    let (ok, more, same, c) = write_room w.writer p (omega (arith, hq)) in
    let full =
      write_full (write w.writer p).0 (from_int64 timestamp) (omega (arith, hq, more, same)) in
    rw ((==_iff (length samples) w.samples).1 hl, ok, full) (refl, refl, c)
