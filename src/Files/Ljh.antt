-- ===== src/Files/Ljh.antt =====
-- The records of internal/ljh/ljh.go: Writer and Writer3, and the reader's NextPulse and version
-- number. The headers are text and stand outside, but for the flag that they are written.
pub mod ReadBack
use dastard.Base.{
  ℕ, zero, suc, ◌+◌, ◌-◌, ◌*◌, ◌/◌, ◌%◌, ◌==◌, Bool, true, false, not, ◌&&◌, List, [], ◌∷◌, ◌++◌,
  Option, none, some, if◌then◌else◌, ltb, length, take, drop,
}
use dastard.Base.Int.{ℤ, pos, negsuc, ◌+ℤ◌, ◌*ℤ◌}
use dastard.Packets.Words.{le_bytes, le_word, bytes_of, words_of16}
use dastard.Files.AsyncFile.{AsyncWriter, write}

-- The bit pattern of an int64, and the int64 of a bit pattern; the same for int32.
unfoldable pub bits64 : ℤ → ℕ
bits64 (pos n) = n % 0x1_0000_0000_0000_0000
bits64 (negsuc n) = 0xffff_ffff_ffff_ffff - n % 0x1_0000_0000_0000_0000

unfoldable pub int64 : ℕ → ℤ
int64 v = if ltb v 0x8000_0000_0000_0000 then pos v else negsuc (0xffff_ffff_ffff_ffff - v)

unfoldable pub bits32 : ℤ → ℕ
bits32 (pos n) = n % 0x1_0000_0000
bits32 (negsuc n) = 0xffff_ffff - n % 0x1_0000_0000

-- getbytes.FromInt64 and FromInt32.
unfoldable pub from_int64 : ℤ → List ℕ
from_int64 z = le_bytes 8 (bits64 z)

unfoldable pub from_int32 : ℤ → List ℕ
from_int32 z = le_bytes 4 (bits32 z)

-- The chunks of a record, one after another up to the first that the channel refuses.
unfoldable pub write_chunks : AsyncWriter → List (List ℕ) → AsyncWriter × Bool
write_chunks w [] = (w, false)
write_chunks w (p ∷ ps) =
    let rest = write_chunks (write w p).0 ps in if (write w p).1 then write w p else rest

pub record LjhWriter : Type 0 where
  pub samples : ℕ
  pub subframe_divisions : ℕ
  pub subframe_offset : ℕ
  pub header_written : Bool
  pub records_written : ℕ
  pub writer : AsyncWriter

pub data LjhError : Type 0 where
  wrong_length short_write header_again : LjhError

abbrev pub subframe_count_of : LjhWriter → ℤ → ℤ
subframe_count_of w framecount = framecount *ℤ pos w.subframe_divisions +ℤ pos w.subframe_offset

abbrev pub chunks_of : LjhWriter → ℤ → ℤ → List ℕ → List (List ℕ)
chunks_of w framecount timestamp samples =
    from_int64 (subframe_count_of w framecount) ∷ (from_int64 timestamp ∷ (bytes_of 2 samples ∷ []))

abbrev pub after_chunks : LjhWriter → AsyncWriter × Bool → LjhWriter × Option LjhError
after_chunks w (f, true) = (record w { writer = f }, some short_write)
after_chunks w (f, false) = (record w { writer = f; records_written = w.records_written + 1 }, none)

-- WriteRecord of Writer.
unfoldable pub write_record : LjhWriter → ℤ → ℤ → List ℕ → LjhWriter × Option LjhError
write_record w framecount timestamp samples =
    if length samples == w.samples
    then after_chunks w (write_chunks w.writer (chunks_of w framecount timestamp samples))
    else (w, some wrong_length)

pub record Ljh3File : Type 0 where
  pub header_written3 : Bool
  pub records_written3 : ℕ
  pub writer3 : AsyncWriter

abbrev pub after_chunks3 : Ljh3File → AsyncWriter × Bool → Ljh3File × Option LjhError
after_chunks3 w (f, true) = (record w { writer3 = f }, some short_write)
after_chunks3 w (f, false) =
    (record w { writer3 = f; records_written3 = w.records_written3 + 1 }, none)

-- WriteRecord of Writer3, for data of any length.
unfoldable pub write_record3 : Ljh3File → ℤ → ℤ → ℤ → List ℕ → Ljh3File × Option LjhError
write_record3 w first_rising framecount timestamp samples = after_chunks3 w (
    write_chunks w.writer3 (
      from_int32 (pos (length samples))
      ∷ (from_int32 first_rising
          ∷ (from_int64 framecount ∷ (from_int64 timestamp ∷ (bytes_of 2 samples ∷ []))))))

abbrev pub header_chunks : Ljh3File → AsyncWriter × Bool → Ljh3File × Option LjhError
header_chunks w (f, true) = (record w { writer3 = f }, some short_write)
header_chunks w (f, false) = (record w { writer3 = f; header_written3 = true }, none)

-- WriteHeader of Writer3, with the header's text.
unfoldable pub write_header3 : Ljh3File → List ℕ → Ljh3File × Option LjhError
write_header3 w json =
    if w.header_written3
    then (w, some header_again)
    else header_chunks w (write_chunks w.writer3 (json ∷ ((10 ∷ []) ∷ [])))

pub record PulseRecord : Type 0 where
  pub time_code : ℤ
  pub subframe_count : ℤ
  pub pulse : List ℕ

-- `binary.Read` of `n` bytes in little-endian order: fewer bytes are an error.
abbrev pub read_bytes : ℕ → List ℕ → Option (List ℕ × List ℕ)
read_bytes n b = if ltb (length b) n then none else some (take n b, drop n b)

infixl 5 ◌>>=◌
abbrev pub ◌>>=◌ {ℓ κ} : {A : Type ℓ} {B : Type κ} → Option A → (A → Option B) → Option B
none >>= f = none
some a >>= f = f a

-- NextPulse: the record and the rest of the file, or the error.
unfoldable pub next_pulse : ℕ → List ℕ → Option (PulseRecord × List ℕ)
next_pulse samples b = do
  count ← read_bytes 8 b
  time ← read_bytes 8 count.1
  words ← read_bytes (2 * samples) time.1
  some (
    record {
      time_code = int64 (le_word time.0);
      subframe_count = int64 (le_word count.0);
      pulse = words_of16 words.0;
    },
    words.1,
  )
