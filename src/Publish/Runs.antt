-- ===== src/Publish/Runs.antt =====
-- Runs of the publisher with files of two formats.
use dastard.Base.{ℕ, ◌≡◌, refl, true, false, List, [], ◌∷◌, none, some, arith, if◌then◌else◌, ◌==◌}
use dastard.Base.Int.{pos}
use dastard.Trigger.{DataRecord}
use dastard.Publish.{
  taken, torn, whole, part, to_off, queue_full, DataPublisher, DiskOps, new_file, publish_data,
}
use dastard.Publish.Written.{in_ljh22, in_ljh3, in_off, publish_data-written}

abbrev record_with : List ℕ → DataRecord
record_with samples = record {
  record_data = samples;
  trig_frame = pos 10;
  trig_time = pos 20;
  record_signed = false;
  record_channel = 0;
  presamples = 1;
  record_volts = 0;
  samp_period = 0;
}

abbrev two_files : DataPublisher
two_files = record {
  pub_records = true;
  pub_summaries = false;
  ljh22 = some (record { ljh22_file = new_file; samples = 2 });
  ljh3 = some (record { ljh3_file = new_file });
  off = none;
  writing_paused = false;
  number_written = 5;
}

abbrev all_created : DiskOps
all_created = record {
  creates = λ s. true;
  takes_header = λ s. true;
  accepts = λ s i. taken;
  coefficients = λ r. 3;
}

-- A long record is missing from the LJH22 file, and is counted.
publish_data-written_example :
    let p =
      publish_data all_created two_files
        (record_with (1 ∷ 2 ∷ []) ∷ record_with (1 ∷ 2 ∷ 3 ∷ []) ∷ []) in
    (p.publish_error ≡ none)
    × (in_ljh22 p.publisher.ljh22 ≡ whole (record_with (1 ∷ 2 ∷ [])) ∷ [])
    × (in_ljh3 p.publisher.ljh3
        ≡ whole (record_with (1 ∷ 2 ∷ [])) ∷ whole (record_with (1 ∷ 2 ∷ 3 ∷ [])) ∷ [])
    × (in_off p.publisher.off ≡ [])
    × (p.publisher.number_written ≡ 7)
publish_data-written_example =
    publish_data-written all_created two_files
      (record_with (1 ∷ 2 ∷ []) ∷ record_with (1 ∷ 2 ∷ 3 ∷ []) ∷ []) (omega arith) refl refl
      (λ s. refl) (λ s. refl) (λ s i. refl) refl refl tt

-- The queue of an OFF file is full in the second record: the call ends with an error, a part of the
-- record is in the file, and neither record is counted. The LJH3 file has both.
abbrev full_at_second : DiskOps
full_at_second = record all_created {
  accepts = λ s i. elim s [ to_off ↦ if i == 1 then torn else taken | _ ↦ taken ];
}

off_stops :
    let p =
      publish_data full_at_second
        (record two_files { ljh22 = none; off = some (record { off_file = new_file; bases = 3 }) })
        (record_with (1 ∷ []) ∷ record_with (2 ∷ []) ∷ []) in
    (p.publish_error ≡ some queue_full)
    × (in_off p.publisher.off ≡ whole (record_with (1 ∷ [])) ∷ part (record_with (2 ∷ [])) ∷ [])
    × (in_ljh3 p.publisher.ljh3 ≡ whole (record_with (1 ∷ [])) ∷ whole (record_with (2 ∷ [])) ∷ [])
    × (p.publisher.number_written ≡ 5)
unfolding publish_data
off_stops = (refl, refl, refl, refl)
