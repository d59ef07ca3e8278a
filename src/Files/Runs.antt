-- ===== src/Files/Runs.antt =====
-- Runs of the file writers at concrete records.
use dastard.Base.{ℕ, ◌≡◌, refl, true, List, [], ◌∷◌, ◌++◌, some, none, arith}
use dastard.Base.Int.{pos, ◌+ℤ◌, ◌*ℤ◌}
use dastard.Files.AsyncFile.{
  AsyncWriter, Event, writes, takes, flushes, spills, run_events, step_event, write, take_chunk,
}
use dastard.Packets.Words.{le_bytes}
use dastard.Files.AsyncFile.Kept.{content, accepted, run_events-flush}
use dastard.Files.Ljh.{LjhWriter, short_write, bits64, write_record, next_pulse, from_int64}
use dastard.Files.Ljh.ReadBack.{write_record-next_pulse, write_record-tears}

-- A writer for two chunks.
abbrev two_deep : AsyncWriter
two_deep = record { depth = 2; queue = []; buffered = []; on_disk = 9 ∷ [] }

-- The third write finds the channel full.
abbrev busy : List Event
busy =
    writes (1 ∷ 2 ∷ [])
    ∷ (writes (3 ∷ []) ∷ (writes (4 ∷ []) ∷ (takes ∷ (writes (5 ∷ []) ∷ (spills 1 ∷ [])))))

run_events-flush_example :
    (run_events two_deep (busy ++ (flushes ∷ []))).on_disk ≡ 9 ∷ 1 ∷ 2 ∷ 3 ∷ 5 ∷ []
unfolding accepted step_event write take_chunk
run_events-flush_example = run_events-flush two_deep busy

abbrev ljh_to : AsyncWriter → LjhWriter
ljh_to f = record {
  samples = 3;
  subframe_divisions = 64;
  subframe_offset = 5;
  header_written = true;
  records_written = 7;
  writer = f;
}

abbrev wide : AsyncWriter
wide = record two_deep { depth = 1000 }

write_record-next_pulse_example :
    (w' : LjhWriter) × (bytes : List ℕ) × (write_record
        (ljh_to wide)
        (pos 100)
        (pos 1700000000)
        (10 ∷ 65535 ∷ 30 ∷ [])
      ≡ (w', none))
    × (w'.records_written ≡ 8)
    × (content w'.writer ≡ content wide ++ bytes)
    × (next_pulse 3 (bytes ++ (1 ∷ []))
        ≡ some (
          record {
            time_code = pos 1700000000;
            subframe_count = pos 6405;
            pulse = 10 ∷ 65535 ∷ 30 ∷ [];
          },
          1 ∷ [],
        ))
unfolding ◌+ℤ◌ ◌*ℤ◌
write_record-next_pulse_example =
    write_record-next_pulse (ljh_to wide) (pos 100) (pos 1700000000) (10 ∷ 65535 ∷ 30 ∷ []) (1 ∷ [])
      refl (omega arith) (omega arith) (omega arith) (omega arith)

abbrev nearly_full : AsyncWriter
nearly_full = record two_deep { queue = (1 ∷ []) ∷ [] }

write_record-tears_example :
    let (w', problem) =
      write_record (ljh_to nearly_full) (pos 100) (pos 1700000000) (10 ∷ 20 ∷ 30 ∷ []) in
    (problem ≡ some short_write)
    × (w'.records_written ≡ 7)
    × (content w'.writer ≡ 9 ∷ 1 ∷ 5 ∷ 25 ∷ 0 ∷ 0 ∷ 0 ∷ 0 ∷ 0 ∷ 0 ∷ [])
unfolding ◌+ℤ◌ ◌*ℤ◌ from_int64 bits64 le_bytes
write_record-tears_example =
    write_record-tears (ljh_to nearly_full) (pos 100) (pos 1700000000) (10 ∷ 20 ∷ 30 ∷ []) refl refl
