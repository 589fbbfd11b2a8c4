-- ===== src/Probes/SmartRecord/Batch.antt =====
-- pipeline/src/probes/smart_record_probe_handler.cpp: what the handler does with a batch, and with
-- the end of a recording. A null frame or object is `none`.
use vms_engine.Common.Map.{Map, find}
use vms_engine.Common.{
  ℕ, zero, suc, Bool, ◌||◌, Option, none, some, List, [], ◌∷◌, Text, nat_eq, text_eq, ◌==◌,
  if◌then◌else◌, is_empty, contains,
}
use vms_engine.Probes.SmartRecord.{
  Handler, Elements, SourceRecordingState, set_state, can_start_recording, start_recording,
  cleanup_expired_sessions,
}

pub record FrameMeta : Type 0 where
  pub source_id : ℕ
  pub obj_labels : List (Option Text)

abbrev pub start_if : Elements → ℕ → ℕ → Bool × Handler → Handler
start_if g source_id now (possible, h) = if possible then start_recording g h source_id now else h

unfoldable pub accepts : Handler → Text → Bool
accepts h label = is_empty h.label_filter || contains label h.label_filter

-- The loop on the objects of a frame, up to the first that the filter accepts.
unfoldable pub process_objects : Elements → Handler → ℕ → ℕ → List (Option Text) → Handler
process_objects g h source_id now [] = h
process_objects g h source_id now (none ∷ labels) = process_objects g h source_id now labels
process_objects g h source_id now (some label ∷ labels) =
    let rest = process_objects g h source_id now labels in
    if accepts h label then start_if g source_id now (can_start_recording h source_id now) else rest

unfoldable pub process_frames : Elements → Handler → ℕ → List (Option FrameMeta) → Handler
process_frames g h now [] = h
process_frames g h now (none ∷ frames) = process_frames g h now frames
process_frames g h now (some frame ∷ frames) =
    process_frames g (process_objects g h frame.source_id now frame.obj_labels) now frames

unfoldable pub process_batch : Elements → Handler → ℕ → Option (List (Option FrameMeta)) → Handler
process_batch g h now none = h
process_batch g h now (some frames) = process_frames g (cleanup_expired_sessions h now) now frames

-- The buffer of the probe may be missing, and then its batch metadata.
unfoldable pub on_buffer :
    Elements → Handler → ℕ → Option (Option (List (Option FrameMeta))) → Handler
on_buffer g h now none = h
on_buffer g h now (some buf) = if h.shutting_down then h else process_batch g h now buf

-- The search for the element in the cache.
unfoldable pub find_source_of : ℕ → Map ℕ ℕ → Option ℕ
find_source_of element [] = none
find_source_of element ((source_id, e) ∷ bins) =
    if e == element then some source_id else find_source_of element bins

-- A source id of 0 is stored as a null pointer, which reads as no data.
abbrev pub data_or : Option ℕ → Option ℕ → Option ℕ
data_or none other = other
data_or (some zero) other = other
data_or (some (suc n)) other = some (suc n)

unfoldable pub source_of_element : Handler → ℕ → Option ℕ
source_of_element h element =
    data_or (find element h.source_id_data) (find_source_of element h.source_bins)

abbrev pub clear_session : SourceRecordingState → SourceRecordingState
clear_session state = record state { active_session = none }

unfoldable pub clear_found : Handler → ℕ → Option SourceRecordingState → Handler
clear_found h source_id none = h
clear_found h source_id (some state) = set_state h source_id (clear_session state)

abbrev pub clear_for : Handler → Option ℕ → Handler
clear_for h none = h
clear_for h (some source_id) = clear_found h source_id (find source_id h.source_states)

-- The handler after a recording of the element ended.
unfoldable pub on_recording_done : Handler → ℕ → Handler
on_recording_done h nvurisrcbin =
    if h.shutting_down then h else clear_for h (source_of_element h nvurisrcbin)
