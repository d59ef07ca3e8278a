-- ===== src/Control/Request/Runs.antt =====
-- Requests to a source of one channel with projectors.
use dastard.Base.{
  ◌++◌, ◌≡◌, refl, Bool, true, false, List, [], ◌∷◌, Option, none, some, Outcome, ok, ◌>>=◌,
}
use dastard.Base.Int.{pos}
use dastard.Publish.{DataPublisher}
use dastard.Control.{
  Text, WritingState, WriteConfig, WriteError, Disk, TextOps, Channel, Writing, start_text,
  stop_text,
}
use dastard.Control.Start.{write_control_start, any_writer}
use dastard.Control.Start.Started.{
  AllStarted, write_control_start-AllStarted, Settled, write_control_start-Settled,
}
use dastard.Control.Request.{write_control, pause_text}
use dastard.Control.Request.Stopped.{IsOff, write_control-IsOff}

abbrev idle_publisher : DataPublisher
idle_publisher = record {
  pub_records = true;
  pub_summaries = false;
  ljh22 = none;
  ljh3 = none;
  off = none;
  writing_paused = false;
  number_written = 0;
}

abbrev idle_state : WritingState
idle_state = record {
  active = false;
  paused = false;
  base_path = 47 ∷ [];
  filename_pattern = [];
  write_ljh22 = false;
  write_off = false;
  write_ljh3 = false;
  flush_also_syncs = false;
  experiment_file = none;
  experiment_filename = [];
  experiment_label = [];
  label_time = pos 0;
  event_filename = [];
  events_observed = 0;
  event_file = none;
  drop_filename = [];
  drops_observed = 0;
  drop_file = none;
  drop_message_sent = false;
}

abbrev one_channel : Writing
one_channel = record {
  channels =
      record {
        publisher = idle_publisher;
        has_projectors = true;
        record_samples = 4;
        nbases = 2;
        channel_number = pos 1;
      }
      ∷ [];
  writing_state = idle_state;
  channels_per_pixel = 1;
}

abbrev good_disk : Disk
good_disk = record {
  make_directory = λ base. some (base ++ (37 ∷ 115 ∷ []));
  creates_label = true;
  writes_header = true;
  writes_line = true;
  closes_label = true;
  creates_log = true;
  writes_log = true;
  flushes_events = true;
  closes_events = true;
  flushes_drops = true;
  closes_drops = true;
}

abbrev plain_text : TextOps
plain_text = record {
  to_upper = λ t. t;
  file_name = λ pattern name suffix. pattern ++ name ++ suffix;
  now = pos 1000;
}

abbrev off_config : Text → WriteConfig
off_config request = record {
  request = request;
  path = [];
  want_ljh22 = false;
  want_off = true;
  want_ljh3 = false;
  want_syncs = false;
  map_pixels = none;
}

abbrev requests : List Text → Writing → Outcome Writing
requests [] w = ok w
requests (t ∷ ts) w = do r ← write_control plain_text good_disk (off_config t) w; requests ts r.0

abbrev paused_flags : Outcome Writing → Bool × List Bool
paused_flags (ok w) = (w.writing_state.paused, flags w.channels)
  where
    flags : List Channel → List Bool
    flags [] = []
    flags (c ∷ cs) = c.publisher.writing_paused ∷ flags cs
paused_flags _ = (true, [])

-- After START, PAUSE, STOP and START with OFF files only, the state says that writing is not
-- paused, and the publisher is.
paused_after_restart :
    paused_flags (requests (start_text ∷ pause_text ∷ stop_text ∷ start_text ∷ []) one_channel)
    ≡ (false, true ∷ [])
unfolding write_control
paused_after_restart = refl

-- A map of one pixel for a channel numbered 0 panics.
map_without_pixel :
    write_control_start plain_text good_disk
      (record (off_config start_text) { map_pixels = some 1 })
      (record one_channel {
        channels =
            record {
              publisher = idle_publisher;
              has_projectors = true;
              record_samples = 4;
              nbases = 2;
              channel_number = pos 0;
            }
            ∷ [];
      })
    ≡ Outcome.fault
unfolding write_control_start
map_without_pixel = refl

-- A map of one pixel for the channel numbered 1.
abbrev mapped_config : WriteConfig
mapped_config = record (off_config start_text) { map_pixels = some 1 }

write_control_start-AllStarted_example :
    (w' : Writing) × (write_control_start plain_text good_disk mapped_config one_channel
      ≡ ok (w', none))
    × (w'.writing_state.active ≡ true)
    × (w'.writing_state.paused ≡ false)
    × AllStarted mapped_config one_channel.channels w'.channels
write_control_start-AllStarted_example =
    write_control_start-AllStarted plain_text good_disk mapped_config one_channel
      (47 ∷ 37 ∷ 115 ∷ []) refl refl refl refl (refl, tt) refl
      (record { label_created = refl; header_written = refl; line_written = refl })

write_control_start-Settled_example : Settled one_channel (
    write_control_start plain_text
      (record good_disk { creates_label = false })
      (off_config start_text)
      one_channel)
write_control_start-Settled_example =
    write_control_start-Settled plain_text (record good_disk { creates_label = false })
      (off_config start_text) one_channel

write_control-IsOff_example :
    (w' : Writing) × (e : Option WriteError) × (write_control plain_text good_disk
        (off_config stop_text)
        one_channel
      ≡ ok (w', e))
    × (any_writer w'.channels ≡ false)
    × IsOff w'.writing_state
write_control-IsOff_example =
    write_control-IsOff plain_text good_disk (off_config stop_text) one_channel refl
