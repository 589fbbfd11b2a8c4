-- ===== src/Probes/SmartRecord/Tests.antt =====
-- Runs of the handler on a source that a person enters.
use vms_engine.Common.Map.{find, insert, erase}
use vms_engine.Common.{
  ℕ, ◌+◌, ◌≡◌, refl, true, false, Option, some, none, List, [], ◌∷◌, codes, pos, ◌+ℤ◌, ◌≤ℤ◌,
  to_unsigned, text_beq, contains, arith, not, ltb, ◌-◌, ◌*◌, if◌then◌else◌, nat_eq,
}
use vms_engine.Probes.SmartRecord.{
  Handler, Elements, RecordingSession, SourceRecordingState, count_active, count_active_recordings,
  clock_sub, seconds_ns, can_start_recording, adopt, rediscover, find_cached, find_nvurisrcbin,
  start_on, start_recording, is_overdue, keep_session, cleanup_states, cleanup_expired_sessions,
  second,
}
use vms_engine.Probes.SmartRecord.Batch.{
  FrameMeta, accepts, process_objects, process_frames, process_batch, on_buffer, find_source_of,
  source_of_element, clear_found, clear_for, on_recording_done,
}
use vms_engine.Probes.SmartRecord.Limit.Runs.{start, buffer, Reach-InLimit}
use vms_engine.Probes.SmartRecord.Expiry.{deadline, cleanup_expired_sessions_lem}
use vms_engine.Probes.SmartRecord.Interval.{
  IsConfigured, can_start-start_recording, can_start-start_recording_within,
}

-- What a run of the handler unfolds.
program : Unit {0}
unfolding find insert erase ◌+ℤ◌ to_unsigned text_beq contains count_active count_active_recordings
    clock_sub seconds_ns can_start_recording adopt rediscover find_cached find_nvurisrcbin start_on
    start_recording is_overdue keep_session cleanup_states cleanup_expired_sessions accepts
    process_objects process_frames process_batch on_buffer find_source_of source_of_element
    clear_found on_recording_done
program = tt

-- The values that the handler has by default, with a limit of recordings.
abbrev limited : Handler
limited = record {
  label_filter = codes "person" ∷ [];
  pre_event_sec = pos 2;
  post_event_sec = pos 20;
  min_interval_sec = pos 2;
  max_concurrent_recordings = pos 1;
  shutting_down = false;
  source_states = [];
  source_bins = [];
  source_id_data = [];
}

abbrev unlimited_handler : Handler
unlimited_handler = record limited { max_concurrent_recordings = pos 0 }

abbrev elements : Elements
elements = record {
  has_root = true;
  is_bin = true;
  is_child = λ e. true;
  discover = λ source_id. some (100 + source_id);
  connect = λ e. 9;
  start_sr = λ e from_ total. 77;
}

abbrev frame : ℕ → FrameMeta
frame source_id = record {
  source_id = source_id;
  obj_labels = some (codes "car") ∷ some (codes "person") ∷ [];
}

abbrev both : Option (Option (List (Option FrameMeta)))
both = some (some (some (frame 1) ∷ some (frame 2) ∷ []))

abbrev recording : Handler
recording = on_buffer elements limited (10 * second) both

-- Two sources trigger, the limit of one lets the first record.
one_records : count_active_recordings recording ≡ pos 1
unfolding program
one_records = refl

limit_is_one : pos 1 ≤ℤ recording.max_concurrent_recordings
unfolding program
limit_is_one = omega arith

Reach-InLimit_example : count_active_recordings recording ≤ℤ recording.max_concurrent_recordings
Reach-InLimit_example =
    Reach-InLimit limited recording (buffer limited elements (10 * second) both (start refl))
      limit_is_one

abbrev session : RecordingSession
session = record { session_id = 77; source_id = 1; start_time = 10 * second; duration_sec = 22 }

abbrev state : SourceRecordingState
state = record {
  last_record_time = 8 * second;
  active_session = some session;
  signal_handler_id = 9;
}

abbrev at_one : Handler
at_one = record limited { source_states = (1, state) ∷ [] }

cleanup_expired_sessions_lem_example :
    find 1 (cleanup_expired_sessions at_one (38 * second)).source_states
    ≡ some (record state {
      active_session = if ltb (deadline session) (38 * second) then none else some session;
    })
unfolding program
cleanup_expired_sessions_lem_example =
    cleanup_expired_sessions_lem at_one (38 * second) 1 state session refl refl (omega arith)

defaults : IsConfigured 2 2 unlimited_handler
defaults = record { pre = refl; interval = refl; unlimited = omega arith }

can_start-start_recording_example :
    (can_start_recording
      (clear_for (start_recording elements unlimited_handler 1 (10 * second)) (some 1))
      1
      (11 * second)).0
    ≡ not (ltb (11 * second - (10 * second - 2 * second)) (2 * second))
unfolding program
can_start-start_recording_example =
    can_start-start_recording 2 2 elements unlimited_handler 1 (10 * second) (11 * second) 101
      defaults refl (omega arith) (omega arith) (omega arith) (omega arith)

can_start-start_recording_within_example :
    (can_start_recording
      (clear_for (start_recording elements unlimited_handler 1 (10 * second)) (some 1))
      1
      (10 * second)).0
    ≡ true
unfolding program
can_start-start_recording_within_example =
    can_start-start_recording_within 2 2 elements unlimited_handler 1 (10 * second) (10 * second)
      101 (omega arith) defaults refl (omega arith) (omega arith) (omega arith)
