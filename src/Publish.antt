-- ===== src/Publish.antt =====
-- publish_data.go: DataPublisher, which sends a channel's records to two ports and into files of
-- three formats. A file is the list of the records in it, whole or in part; of its header only
-- whether it is there. A write goes to the queue of the file's goroutine, which may be full.
mod Files
pub mod Written
mod Runs
pub use Files.*
use dastard.Base.{
  ℕ, suc, ◌+◌, ◌==◌, Bool, true, false, not, ◌||◌, ◌&&◌, List, [], ◌∷◌, ◌++◌, Option, none, some,
  if◌then◌else◌, length,
}
use dastard.Trigger.{DataRecord}

-- The writers of each format: `samples` is the record length of LJH22, `bases` the number of
-- coefficients of OFF.
pub record Ljh22Writer : Type 0 where
  pub ljh22_file : FileState
  pub samples : ℕ

pub record Ljh3Writer : Type 0 where
  pub ljh3_file : FileState

pub record OffWriter : Type 0 where
  pub off_file : FileState
  pub bases : ℕ

pub data Sink : Type 0 where
  to_ljh22 to_ljh3 to_off : Sink

-- For each format: whether os.Create succeeds, whether the queue takes the whole header, and what
-- it takes of each record of a call, by its number in the call. And how many model coefficients
-- the analysis has given a record.
pub record DiskOps : Type 0 where
  pub creates : Sink → Bool
  pub takes_header : Sink → Bool
  pub accepts : Sink → ℕ → Accepted
  pub coefficients : DataRecord → ℕ

pub record DataPublisher : Type 0 where
  pub pub_records : Bool
  pub pub_summaries : Bool
  pub ljh22 : Option Ljh22Writer
  pub ljh3 : Option Ljh3Writer
  pub off : Option OffWriter
  pub writing_paused : Bool
  pub number_written : ℕ

abbrev pub is_some {ℓ} : {A : Type ℓ} → Option A → Bool
is_some none = false
is_some (some a) = true

-- SetPause. Its flush adds no record to a file.
abbrev pub set_pause : DataPublisher → Bool → DataPublisher
set_pause dp pause = record dp { writing_paused = pause }

abbrev pub set_ljh22 : DataPublisher → ℕ → DataPublisher
set_ljh22 dp n = record dp {
  ljh22 = some (record { ljh22_file = new_file; samples = n });
  writing_paused = false;
  number_written = 0;
}

abbrev pub remove_ljh22 : DataPublisher → DataPublisher
remove_ljh22 dp = record dp { ljh22 = none; number_written = 0 }

abbrev pub set_ljh3 : DataPublisher → DataPublisher
set_ljh3 dp = record dp {
  ljh3 = some (record { ljh3_file = new_file });
  writing_paused = false;
  number_written = 0;
}

abbrev pub remove_ljh3 : DataPublisher → DataPublisher
remove_ljh3 dp = record dp { ljh3 = none; number_written = 0 }

-- SetOFF leaves the pause as it is.
abbrev pub set_off : DataPublisher → ℕ → DataPublisher
set_off dp n = record dp {
  off = some (record { off_file = new_file; bases = n });
  number_written = 0;
}

abbrev pub remove_off : DataPublisher → DataPublisher
remove_off dp = record dp { off = none; number_written = 0 }

abbrev pub has_writer : DataPublisher → Bool
has_writer dp = is_some dp.ljh22 || is_some dp.ljh3 || is_some dp.off

-- One format of PublishData: the writer after it, and the error that ends the call.
abbrev pub written_ljh22 :
    (ℕ → Accepted)
    → Ljh22Writer
    → List DataRecord
    → Option FileState
    → Option Ljh22Writer × Option PublishError
written_ljh22 accepts w rs none = (some w, some no_file)
written_ljh22 accepts w rs (some f) =
    (some (record w { ljh22_file = put_ljh22 w.samples accepts f rs }), none)

unfoldable pub publish_ljh22 :
    DiskOps → List DataRecord → Option Ljh22Writer → Option Ljh22Writer × Option PublishError
publish_ljh22 ops rs none = (none, none)
publish_ljh22 ops rs (some w) =
    written_ljh22 (ops.accepts to_ljh22) w rs
      (opened (ops.creates to_ljh22) true (ops.takes_header to_ljh22) w.ljh22_file)

abbrev pub written_ljh3 :
    (ℕ → Accepted)
    → Ljh3Writer
    → List DataRecord
    → Option FileState
    → Option Ljh3Writer × Option PublishError
written_ljh3 accepts w rs none = (some w, some no_file)
written_ljh3 accepts w rs (some f) = (some (record w { ljh3_file = put_ljh3 accepts f rs }), none)

unfoldable pub publish_ljh3 :
    DiskOps → List DataRecord → Option Ljh3Writer → Option Ljh3Writer × Option PublishError
publish_ljh3 ops rs none = (none, none)
publish_ljh3 ops rs (some w) =
    written_ljh3 (ops.accepts to_ljh3) w rs (
      opened (ops.creates to_ljh3) (ops.takes_header to_ljh3) (ops.takes_header to_ljh3)
        w.ljh3_file)

abbrev pub written_off :
    (DataRecord → ℕ)
    → (ℕ → Accepted)
    → OffWriter
    → List DataRecord
    → Option FileState
    → Option OffWriter × Option PublishError
written_off coefficients accepts w rs none = (some w, some no_file)
written_off coefficients accepts w rs (some f) =
    let done = put_off coefficients w.bases accepts f rs in
    (some (record w { off_file = done.0 }), done.1)

unfoldable pub publish_off :
    DiskOps → List DataRecord → Option OffWriter → Option OffWriter × Option PublishError
publish_off ops rs none = (none, none)
publish_off ops rs (some w) =
    written_off ops.coefficients (ops.accepts to_off) w rs
      (opened (ops.creates to_off) (ops.takes_header to_off) (ops.takes_header to_off) w.off_file)

-- An early return with an error, or the rest of the call.
abbrev pub unless_failed :
    Option PublishError
    → DataPublisher
    → DataPublisher × Option PublishError
    → DataPublisher × Option PublishError
unless_failed none dp rest = rest
unless_failed (some e) dp rest = (dp, some e)

unfoldable pub write_files :
    DiskOps → List DataRecord → DataPublisher → DataPublisher × Option PublishError
unfolding publish_ljh22 publish_ljh3 publish_off
write_files ops rs dp =
    let a = publish_ljh22 ops rs dp.ljh22 in
    let after_a = record dp { ljh22 = a.0 } in
    let b = publish_ljh3 ops rs dp.ljh3 in
    let after_b = record after_a { ljh3 = b.0 } in
    let c = publish_off ops rs dp.off in
    let after_c = record after_b { off = c.0 } in
    unless_failed a.1 after_a (
      unless_failed b.1 after_b (
        unless_failed c.1 after_c
          (record after_c { number_written = dp.number_written + length rs }, none)))

-- What a call sends to the ports, what it leaves, and the error it returns.
pub record Published : Type 0 where
  pub sent_records : List DataRecord
  pub sent_summaries : List DataRecord
  pub publisher : DataPublisher
  pub publish_error : Option PublishError

unfoldable pub publish_data : DiskOps → DataPublisher → List DataRecord → Published
unfolding write_files
publish_data ops dp [] = record {
  sent_records = [];
  sent_summaries = [];
  publisher = dp;
  publish_error = none;
}
publish_data ops dp (r ∷ rs) =
    let files =
      if dp.writing_paused || not (has_writer dp)
      then (dp, none)
      else write_files ops (r ∷ rs) dp in
    record {
      sent_records = if dp.pub_records then r ∷ rs else [];
      sent_summaries = if dp.pub_summaries then r ∷ rs else [];
      publisher = files.0;
      publish_error = files.1;
    }
