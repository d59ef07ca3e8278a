-- ===== src/Publish/Written.antt =====
-- What PublishData puts into the files.
use dastard.Base.{
  ℕ, suc, ◌+◌, ◌==◌, ◌<◌, ◌≡◌, refl, sym, ap, ◌∙◌, true, false, List, [], ◌∷◌, ◌++◌, append_assoc,
  append-nil, Option, none, some, if◌then◌else◌, length, All, arith, Bool-cases, inl, inr,
}
use dastard.Trigger.{DataRecord}
use dastard.Publish.{
  Accepted, taken, Entry, whole, later, FileState, Ljh22Writer, Ljh3Writer, OffWriter, Sink,
  to_ljh22, to_ljh3, to_off, DiskOps, DataPublisher, has_writer, opened, put_record, put_ljh22,
  put_ljh3, put_off, publish_ljh22, publish_ljh3, publish_off, write_files, publish_data,
}

-- The records of a length.
abbrev pub of_length : ℕ → List DataRecord → List DataRecord
of_length n [] = []
of_length n (r ∷ rs) = if length r.record_data == n then r ∷ of_length n rs else of_length n rs

-- Every record finds room in the queue.
abbrev pub AllTaken : (ℕ → Accepted) → Type 0
AllTaken accepts = (i : ℕ) → accepts i ≡ taken

abbrev pub wholes : List DataRecord → List Entry
wholes [] = []
wholes (r ∷ rs) = whole r ∷ wholes rs

put_ljh3-written :
    (accepts : ℕ → Accepted) (f : FileState) (rs : List DataRecord)
    → AllTaken accepts
    → (put_ljh3 accepts f rs).written ≡ f.written ++ wholes rs
put_ljh3-written accepts f [] h = sym (append-nil f.written)
put_ljh3-written accepts f (r ∷ rs) h =
    ap (λ (a : Accepted). (put_ljh3 (later accepts) (put_record f r a) rs).written) (h 0)
    ∙ put_ljh3-written (later accepts) (put_record f r taken) rs (λ i. h (suc i))
    ∙ append_assoc f.written (whole r ∷ []) (wholes rs)

put_ljh22-written :
    (n : ℕ) (accepts : ℕ → Accepted) (f : FileState) (rs : List DataRecord)
    → AllTaken accepts
    → (put_ljh22 n accepts f rs).written ≡ f.written ++ wholes (of_length n rs)
put_ljh22-written n accepts f [] h = sym (append-nil f.written)
put_ljh22-written n accepts f (r ∷ rs) h = elim (Bool-cases (length r.record_data == n)) [
  | inl e ↦
      let kept : (if length r.record_data == n then put_record f r (accepts 0) else f)
          ≡ put_record f r taken =
        rw (e, h 0) refl in
      let counted : (if length r.record_data == n then r ∷ of_length n rs else of_length n rs)
          ≡ r ∷ of_length n rs =
        rw e refl in
      ap (λ (g : FileState). (put_ljh22 n (later accepts) g rs).written) kept
      ∙ put_ljh22-written n (later accepts) (put_record f r taken) rs (λ i. h (suc i))
      ∙ append_assoc f.written (whole r ∷ []) (wholes (of_length n rs))
      ∙ ap (λ (l : List DataRecord). f.written ++ wholes l) (sym counted)
  | inr e ↦
      let kept : (if length r.record_data == n then put_record f r (accepts 0) else f) ≡ f =
        rw e refl in
      let counted : (if length r.record_data == n then r ∷ of_length n rs else of_length n rs)
          ≡ of_length n rs =
        rw e refl in
      ap (λ (g : FileState). (put_ljh22 n (later accepts) g rs).written) kept
      ∙ put_ljh22-written n (later accepts) f rs (λ i. h (suc i))
      ∙ ap (λ (l : List DataRecord). f.written ++ wholes l) (sym counted)
]

abbrev Fits : (DataRecord → ℕ) → ℕ → List DataRecord → Type 0
Fits coefficients n rs = All (λ (r : DataRecord). coefficients r ≡ n) rs

put_off-written :
    (c : DataRecord → ℕ) (n : ℕ) (accepts : ℕ → Accepted) (f : FileState) (rs : List DataRecord)
    → AllTaken accepts
    → Fits c n rs
    → ((put_off c n accepts f rs).0.written ≡ f.written ++ wholes rs)
      × ((put_off c n accepts f rs).1 ≡ none)
put_off-written c n accepts f [] t h = (sym (append-nil f.written), refl)
put_off-written c n accepts f (r ∷ rs) t h =
    let (a, b) =
      put_off-written c n (later accepts) (put_record f r taken) rs (λ i. t (suc i)) h.1 in
    let same : (c r == n) ≡ true = ground arith in
    rw (same, t 0) (a ∙ append_assoc f.written (whole r ∷ []) (wholes rs), b)

-- A file that is open exactly when it has its header: PublishData leaves no other.
abbrev pub IsWhole : FileState → Type 0
IsWhole f = f.file_open ≡ f.header_written

opened-whole :
    (f : FileState)
    → IsWhole f
    → (g : FileState) × (opened true true true f ≡ some g) × (g.written ≡ f.written)
opened-whole f h = elim (Bool-cases f.header_written) [
  | inl e ↦ (f, rw e refl, refl)
  | inr e ↦
      (record f { file_open = true; header_written = true; header_in = true }, rw (h, e) refl, refl)
]

-- The files of a publisher, and whether they are whole.
abbrev pub in_ljh22 : Option Ljh22Writer → List Entry
in_ljh22 none = []
in_ljh22 (some w) = w.ljh22_file.written

abbrev pub in_ljh3 : Option Ljh3Writer → List Entry
in_ljh3 none = []
in_ljh3 (some w) = w.ljh3_file.written

abbrev pub in_off : Option OffWriter → List Entry
in_off none = []
in_off (some w) = w.off_file.written

-- What each format takes of the records.
abbrev pub for_ljh22 : Option Ljh22Writer → List DataRecord → List DataRecord
for_ljh22 none rs = []
for_ljh22 (some w) rs = of_length w.samples rs

abbrev pub for_writer {ℓ} : {A : Type ℓ} → Option A → List DataRecord → List DataRecord
for_writer none rs = []
for_writer (some w) rs = rs

abbrev pub Whole22 : Option Ljh22Writer → Type 0
Whole22 none = Unit {0}
Whole22 (some w) = IsWhole w.ljh22_file

abbrev pub Whole3 : Option Ljh3Writer → Type 0
Whole3 none = Unit {0}
Whole3 (some w) = IsWhole w.ljh3_file

abbrev pub WholeOff : (DataRecord → ℕ) → List DataRecord → Option OffWriter → Type 0
WholeOff c rs none = Unit {0}
WholeOff c rs (some w) = IsWhole w.off_file × Fits c w.bases rs

-- One format: no error, and the file with what it takes.
publish_ljh22-written :
    (ops : DiskOps) (rs : List DataRecord) (w : Option Ljh22Writer)
    → ops.creates to_ljh22 ≡ true
    → ops.takes_header to_ljh22 ≡ true
    → AllTaken (ops.accepts to_ljh22)
    → Whole22 w
    → ((publish_ljh22 ops rs w).1 ≡ none)
      × (in_ljh22 (publish_ljh22 ops rs w).0 ≡ in_ljh22 w ++ wholes (for_ljh22 w rs))
unfolding publish_ljh22
publish_ljh22-written ops rs none c d t h = (refl, refl)
publish_ljh22-written ops rs (some w) c d t h =
    let (g, o, s) = opened-whole w.ljh22_file h in
    rw (c, d, o)
      (
        refl,
        put_ljh22-written w.samples (ops.accepts to_ljh22) g rs t
            ∙ ap (λ (l : List Entry). l ++ wholes (of_length w.samples rs)) s,
      )

publish_ljh3-written :
    (ops : DiskOps) (rs : List DataRecord) (w : Option Ljh3Writer)
    → ops.creates to_ljh3 ≡ true
    → ops.takes_header to_ljh3 ≡ true
    → AllTaken (ops.accepts to_ljh3)
    → Whole3 w
    → ((publish_ljh3 ops rs w).1 ≡ none)
      × (in_ljh3 (publish_ljh3 ops rs w).0 ≡ in_ljh3 w ++ wholes (for_writer w rs))
unfolding publish_ljh3
publish_ljh3-written ops rs none c d t h = (refl, refl)
publish_ljh3-written ops rs (some w) c d t h =
    let (g, o, s) = opened-whole w.ljh3_file h in
    rw (c, d, o)
      (
        refl,
        put_ljh3-written (ops.accepts to_ljh3) g rs t ∙ ap (λ (l : List Entry). l ++ wholes rs) s,
      )

publish_off-written :
    (ops : DiskOps) (rs : List DataRecord) (w : Option OffWriter)
    → ops.creates to_off ≡ true
    → ops.takes_header to_off ≡ true
    → AllTaken (ops.accepts to_off)
    → WholeOff ops.coefficients rs w
    → ((publish_off ops rs w).1 ≡ none)
      × (in_off (publish_off ops rs w).0 ≡ in_off w ++ wholes (for_writer w rs))
unfolding publish_off
publish_off-written ops rs none c d t h = (refl, refl)
publish_off-written ops rs (some w) c d t h =
    let (g, o, s) = opened-whole w.off_file h.0 in
    let (a, b) = put_off-written ops.coefficients w.bases (ops.accepts to_off) g rs t h.1 in
    rw (c, d, o) (b, a ∙ ap (λ (l : List Entry). l ++ wholes rs) s)

-- For a publisher that is not paused and has a writer, when its files are whole, every file can be
-- created, the queues take every header and record whole, and each record has as many coefficients
-- as the OFF file wants: PublishData returns no error, each LJH3 and OFF file gets all the records
-- whole at its end, and an LJH22 file those that have its length; the count grows by all of them.
pub publish_data-written :
    (ops : DiskOps) (dp : DataPublisher) (rs : List DataRecord)
    → 0 < length rs
    → dp.writing_paused ≡ false
    → has_writer dp ≡ true
    → ((s : Sink) → ops.creates s ≡ true)
    → ((s : Sink) → ops.takes_header s ≡ true)
    → ((s : Sink) → AllTaken (ops.accepts s))
    → Whole22 dp.ljh22
    → Whole3 dp.ljh3
    → WholeOff ops.coefficients rs dp.off
    → let p = publish_data ops dp rs in
      (p.publish_error ≡ none)
      × (in_ljh22 p.publisher.ljh22 ≡ in_ljh22 dp.ljh22 ++ wholes (for_ljh22 dp.ljh22 rs))
      × (in_ljh3 p.publisher.ljh3 ≡ in_ljh3 dp.ljh3 ++ wholes (for_writer dp.ljh3 rs))
      × (in_off p.publisher.off ≡ in_off dp.off ++ wholes (for_writer dp.off rs))
      × (p.publisher.number_written ≡ dp.number_written + length rs)
unfolding publish_data write_files
publish_data-written ops dp [] h p w c q t h22 h3 ho = absurd (omega (arith, h))
publish_data-written ops dp (r ∷ rs) h p w c q t h22 h3 ho =
    let (a, fa) =
      publish_ljh22-written ops (r ∷ rs) dp.ljh22 (c to_ljh22) (q to_ljh22) (t to_ljh22) h22 in
    let (b, fb) =
      publish_ljh3-written ops (r ∷ rs) dp.ljh3 (c to_ljh3) (q to_ljh3) (t to_ljh3) h3 in
    let (d, fd) = publish_off-written ops (r ∷ rs) dp.off (c to_off) (q to_off) (t to_off) ho in
    rw (p, w, a, b, d) (refl, fa, fb, fd, refl)
