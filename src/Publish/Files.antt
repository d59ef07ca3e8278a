-- ===== src/Publish/Files.antt =====
-- The files of publish_data.go: their creation, and the records that the writers of internal/ljh
-- and internal/off put into the queue of a file's goroutine, which may be full.
use dastard.Base.{
  ℕ, suc, ◌==◌, Bool, true, false, not, ◌||◌, List, [], ◌∷◌, ◌++◌, Option, none, some,
  if◌then◌else◌, length,
}
use dastard.Trigger.{DataRecord}

-- What WriteRecord leaves of a record: it puts the parts into the queue one after another, and
-- returns an error at the first that finds the queue full.
pub data Accepted : Type 0 where
  taken torn refused : Accepted

pub data Entry : Type 0 where
  whole part : DataRecord → Entry

-- The writers of internal/ljh and internal/off: is the file open, the writer's flag that the
-- header was written, is it in the file, and which records are.
pub record FileState : Type 0 where
  pub file_open : Bool
  pub header_written : Bool
  pub header_in : Bool
  pub written : List Entry

abbrev pub new_file : FileState
new_file = record { file_open = false; header_written = false; header_in = false; written = [] }

pub data PublishError : Type 0 where
  no_file wrong_bases queue_full : PublishError

-- A file that has no header yet is created and given one; CreateFile refuses a file that is open.
-- The error of WriteHeader is dropped; `flag` is what it leaves in the writer.
abbrev pub opened : Bool → Bool → Bool → FileState → Option FileState
opened creates flag takes f =
    if f.header_written
    then some f
    else if f.file_open || not creates
    then none
    else some (record f { file_open = true; header_written = flag; header_in = takes })

abbrev pub put_record : FileState → DataRecord → Accepted → FileState
put_record f r taken = record f { written = f.written ++ (whole r ∷ []) }
put_record f r torn = record f { written = f.written ++ (part r ∷ []) }
put_record f r refused = f

-- The answers for the records after the first.
abbrev pub later : (ℕ → Accepted) → ℕ → Accepted
later accepts i = accepts (suc i)

-- LJH22 refuses a record of another length. The caller drops this error, and that of the queue.
abbrev pub put_ljh22 : ℕ → (ℕ → Accepted) → FileState → List DataRecord → FileState
put_ljh22 n accepts f [] = f
put_ljh22 n accepts f (r ∷ rs) =
    put_ljh22 n (later accepts)
      (if length r.record_data == n then put_record f r (accepts 0) else f) rs

abbrev pub put_ljh3 : (ℕ → Accepted) → FileState → List DataRecord → FileState
put_ljh3 accepts f [] = f
put_ljh3 accepts f (r ∷ rs) = put_ljh3 (later accepts) (put_record f r (accepts 0)) rs

-- OFF stops at a record with another number of coefficients, and when the queue is full.
abbrev pub off_record :
    Accepted
    → FileState
    → DataRecord
    → FileState × Option PublishError
    → FileState × Option PublishError
off_record taken f r rest = rest
off_record torn f r rest = (put_record f r torn, some queue_full)
off_record refused f r rest = (f, some queue_full)

abbrev pub put_off :
    (DataRecord → ℕ)
    → ℕ
    → (ℕ → Accepted)
    → FileState
    → List DataRecord
    → FileState × Option PublishError
put_off coefficients n accepts f [] = (f, none)
put_off coefficients n accepts f (r ∷ rs) =
    let rest = put_off coefficients n (later accepts) (put_record f r taken) rs in
    if coefficients r == n then off_record (accepts 0) f r rest else (f, some wrong_bases)
