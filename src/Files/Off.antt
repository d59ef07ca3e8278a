-- ===== src/Files/Off.antt =====
-- The records of internal/off/off.go. Floats are their bit patterns; the header's text and the
-- memory of its two matrices are given.
use dastard.Base.{
  ℕ, ◌+◌, ◌==◌, Bool, true, false, List, [], ◌∷◌, Option, none, some, if◌then◌else◌, length,
}
use dastard.Base.Int.{ℤ}
use dastard.Packets.Words.{le_bytes, bytes_of}
use dastard.Files.AsyncFile.{AsyncWriter}
use dastard.Files.Ljh.{from_int32, from_int64, write_chunks}

pub record OffFile : Type 0 where
  pub number_of_bases : ℕ
  pub header_written : Bool
  pub records_written : ℕ
  pub writer : AsyncWriter

pub data OffError : Type 0 where
  wrong_bases short_write header_again : OffError

abbrev pub counted_record : OffFile → AsyncWriter × Bool → OffFile × Option OffError
counted_record w (f, true) = (record w { writer = f }, some short_write)
counted_record w (f, false) =
    (record w { writer = f; records_written = w.records_written + 1 }, none)

-- What one record says: its lengths, its place and time, and three floats.
pub record OffRecord : Type 0 where
  pub record_samples : ℤ
  pub record_pre_samples : ℤ
  pub framecount : ℤ
  pub timestamp : ℤ
  pub pretrigger_mean : ℕ
  pub pretrigger_delta : ℕ
  pub residual_std_dev : ℕ
  pub coefficients : List ℕ

abbrev pub off_chunks : OffRecord → List (List ℕ)
off_chunks r =
    from_int32 r.record_samples
    ∷ (from_int32 r.record_pre_samples
        ∷ (from_int64 r.framecount
            ∷ (from_int64 r.timestamp
                ∷ (le_bytes 4 r.pretrigger_mean
                    ∷ (le_bytes 4 r.pretrigger_delta
                        ∷ (le_bytes 4 r.residual_std_dev ∷ (bytes_of 4 r.coefficients ∷ [])))))))

-- WriteRecord.
unfoldable pub write_off_record : OffFile → OffRecord → OffFile × Option OffError
write_off_record w r =
    if length r.coefficients == w.number_of_bases
    then counted_record w (write_chunks w.writer (off_chunks r))
    else (w, some wrong_bases)

abbrev pub headed : OffFile → AsyncWriter × Bool → OffFile × Option OffError
headed w (f, true) = (record w { writer = f }, some short_write)
headed w (f, false) = (record w { writer = f; header_written = true }, none)

-- WriteHeader: the JSON text, a line break, and the projectors and the basis as floats of 8 bytes.
unfoldable pub write_off_header : OffFile → List ℕ → List ℕ → List ℕ → OffFile × Option OffError
write_off_header w json projectors basis =
    if w.header_written
    then (w, some header_again)
    else headed w (
        write_chunks w.writer
          (json ∷ ((10 ∷ []) ∷ (bytes_of 8 projectors ∷ (bytes_of 8 basis ∷ [])))))
