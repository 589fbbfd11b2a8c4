-- ===== src/Probes/SmartRecord/Limit/Runs.antt =====
-- No run of the handler goes over the limit of recordings.
use vms_engine.Common.Map.{find, insert, erase}
use vms_engine.Common.{
  ℕ, ◌≡◌, ap, Bool, false, ◌&&◌, ◌||◌, not, Option, none, some, List, [], ◌∷◌, Text, nat_eq, ◌==◌,
  arith, ltb, if_keep, if_split, pos, ◌≤ℤ◌, ltb_ℤ, leb_ℤ,
}
use vms_engine.Probes.SmartRecord.{
  Handler, Elements, SourceRecordingState, state_of, set_state, is_active, seconds_ns, clock_sub,
  clock_time_none, count_active, count_active_recordings, can_start_recording, start_recording,
  start_on, adopt, rediscover, find_cached, find_nvurisrcbin, cleanup_expired_sessions,
}
use vms_engine.Probes.SmartRecord.Batch.{
  FrameMeta, start_if, process_objects, process_frames, process_batch, on_buffer, clear_found,
  clear_for, on_recording_done, accepts, source_of_element,
}
use vms_engine.Probes.SmartRecord.Limit.{
  InLimit, Room, InLimit-set, Room-set, InLimit-start, count-cleanup, count-insert,
}

-- The lookup of the element leaves the room for the recording.
record RoomAfter (k : ℕ) (r : Option ℕ × Handler) : Type 0 where
  after : Room r.1 k

adopt-RoomAfter :
    (g : Elements) (h : Handler) (k : ℕ) (o : Option ℕ) → Room h k → RoomAfter k (adopt g h k o)
unfolding adopt
adopt-RoomAfter g h k none r = record { after = r }
adopt-RoomAfter g h k (some e) r = record {
  after =
      Room-set
        (record h {
          source_bins = insert k e h.source_bins;
          source_id_data = insert e k h.source_id_data;
        })
        k _
        (if_keep (λ (s : SourceRecordingState). is_active s ≡ 0)
          ((state_of h k).signal_handler_id == 0) _ _ r.idle r.idle)
        (record { idle = r.idle; room = r.room });
}

rediscover-RoomAfter :
    (g : Elements) (h : Handler) (k : ℕ) → Room h k → RoomAfter k (rediscover g h k)
unfolding rediscover
rediscover-RoomAfter g h k r =
    if_keep (RoomAfter k) (not g.has_root) _ _ (record { after = r })
      (adopt-RoomAfter g h k (g.discover k) r)

find_cached-RoomAfter :
    (g : Elements) (h : Handler) (k : ℕ) (o : Option ℕ)
    → Room h k
    → RoomAfter k (find_cached g h k o)
unfolding find_cached
find_cached-RoomAfter g h k none r = rediscover-RoomAfter g h k r
find_cached-RoomAfter g h k (some e) r =
    if_keep (RoomAfter k) (not (g.has_root && g.is_bin) || g.is_child e) _ _ (record { after = r })
      (rediscover-RoomAfter g (record h { source_bins = erase k h.source_bins }) k
        (record { idle = r.idle; room = r.room }))

start_on-InLimit :
    (g : Elements) (k now : ℕ) (r : Option ℕ × Handler)
    → RoomAfter k r
    → InLimit (start_on g k now r)
unfolding start_on count_active_recordings
start_on-InLimit g k now (none, h) r = record { within = λ p. ground (arith, r.after.room p) }
start_on-InLimit g k now (some e, h) r = InLimit-start h k _ (omega arith) r.after

start_recording-InLimit :
    (g : Elements) (h : Handler) (k now : ℕ) → Room h k → InLimit (start_recording g h k now)
unfolding start_recording find_nvurisrcbin
start_recording-InLimit g h k now r =
    start_on-InLimit g k now _ (find_cached-RoomAfter g h k (find k h.source_bins) r)

Room-of_tests :
    (h : Handler) (k : ℕ)
    → not (is_active (state_of h k) == 0) ≡ false
    → (ltb_ℤ (pos 0) h.max_concurrent_recordings
        && leb_ℤ h.max_concurrent_recordings
            (count_active_recordings (set_state h k (state_of h k))))
      ≡ false
    → Room (set_state h k (state_of h k)) k
unfolding count_active_recordings
Room-of_tests h k idle room =
    let zero_here : is_active (state_of h k) ≡ 0 = ground arith in
    Room-set h k (state_of h k) zero_here (record {
      idle = zero_here;
      room = λ p. ground (arith, count-insert k (state_of h k) h.source_states);
    })

-- Starting where `can_start_recording` allows it.
started-InLimit :
    (g : Elements) (h : Handler) (k now : ℕ)
    → InLimit h
    → InLimit (start_if g k now (can_start_recording h k now))
unfolding can_start_recording
started-InLimit g h k now l =
    let P = λ (r : Bool × Handler). InLimit (start_if g k now r) in
    let h' = set_state h k (state_of h k) in
    let same : InLimit h' = InLimit-set h k (state_of h k) (omega arith) l in
    if_split P (not (is_active (state_of h k) == 0)) _ _ (λ e. same)
      (λ idle.
        if_split P
          (ltb_ℤ (pos 0) h.max_concurrent_recordings
            && leb_ℤ h.max_concurrent_recordings (count_active_recordings h'))
          _ _ (λ e. same)
          (λ room.
            if_keep P
              (not ((state_of h k).last_record_time == clock_time_none)
                && ltb (clock_sub now (state_of h k).last_record_time)
                    (seconds_ns h.min_interval_sec))
              _ _ same (start_recording-InLimit g h' k now (Room-of_tests h k idle room))))

process_objects-InLimit :
    (g : Elements) (h : Handler) (k now : ℕ) (labels : List (Option Text))
    → InLimit h
    → InLimit (process_objects g h k now labels)
unfolding process_objects
process_objects-InLimit g h k now [] l = l
process_objects-InLimit g h k now (none ∷ labels) l = process_objects-InLimit g h k now labels l
process_objects-InLimit g h k now (some label ∷ labels) l =
    if_keep InLimit (accepts h label) _ _ (started-InLimit g h k now l)
      (process_objects-InLimit g h k now labels l)

process_frames-InLimit :
    (g : Elements) (h : Handler) (now : ℕ) (frames : List (Option FrameMeta))
    → InLimit h
    → InLimit (process_frames g h now frames)
unfolding process_frames
process_frames-InLimit g h now [] l = l
process_frames-InLimit g h now (none ∷ frames) l = process_frames-InLimit g h now frames l
process_frames-InLimit g h now (some f ∷ frames) l =
    process_frames-InLimit g (process_objects g h f.source_id now f.obj_labels) now frames
      (process_objects-InLimit g h f.source_id now f.obj_labels l)

cleanup-InLimit : (h : Handler) (now : ℕ) → InLimit h → InLimit (cleanup_expired_sessions h now)
unfolding cleanup_expired_sessions count_active_recordings
cleanup-InLimit h now l = record {
  within = λ p. ground (arith, count-cleanup now h.source_states, l.within p);
}

process_batch-InLimit :
    (g : Elements) (h : Handler) (now : ℕ) (frames : Option (List (Option FrameMeta)))
    → InLimit h
    → InLimit (process_batch g h now frames)
unfolding process_batch
process_batch-InLimit g h now none l = l
process_batch-InLimit g h now (some frames) l =
    process_frames-InLimit g _ now frames (cleanup-InLimit h now l)

on_buffer-InLimit :
    (g : Elements) (h : Handler) (now : ℕ) (buf : Option (Option (List (Option FrameMeta))))
    → InLimit h
    → InLimit (on_buffer g h now buf)
unfolding on_buffer
on_buffer-InLimit g h now none l = l
on_buffer-InLimit g h now (some buf) l =
    if_keep InLimit h.shutting_down _ _ l (process_batch-InLimit g h now buf l)

clear_found-InLimit :
    (h : Handler) (k : ℕ) (o : Option SourceRecordingState)
    → InLimit h
    → InLimit (clear_found h k o)
unfolding clear_found
clear_found-InLimit h k none l = l
clear_found-InLimit h k (some s) l = InLimit-set h k _ (omega arith) l

clear_for-InLimit : (h : Handler) (o : Option ℕ) → InLimit h → InLimit (clear_for h o)
clear_for-InLimit h none l = l
clear_for-InLimit h (some k) l = clear_found-InLimit h k (find k h.source_states) l

on_recording_done-InLimit :
    (h : Handler) (element : ℕ) → InLimit h → InLimit (on_recording_done h element)
unfolding on_recording_done
on_recording_done-InLimit h element l =
    if_keep InLimit h.shutting_down _ _ l (clear_for-InLimit h (source_of_element h element) l)

-- A handler as configured, before any buffer, and after buffers and ends of recordings in any
-- order, whatever GStreamer answers.
pub data Reach (h : Handler) : Handler → Type 0 where
  start : h.source_states ≡ [] → Reach h h
  buffer :
      (m : Handler) (g : Elements) (now : ℕ) (buf : Option (Option (List (Option FrameMeta))))
      → Reach h m
      → Reach h (on_buffer g m now buf)
  done : (m : Handler) (element : ℕ) → Reach h m → Reach h (on_recording_done m element)

new-InLimit : (h : Handler) → h.source_states ≡ [] → InLimit h
unfolding count_active_recordings count_active
new-InLimit h e = record { within = λ p. ground (arith, ap count_active e) }

Reach-within : (h m : Handler) → Reach h m → InLimit m
Reach-within h m (start e) = new-InLimit h e
Reach-within h m (buffer n g now buf r) = on_buffer-InLimit g n now buf (Reach-within h n r)
Reach-within h m (done n element r) = on_recording_done-InLimit n element (Reach-within h n r)

-- Whatever buffers and ends of recordings come in whatever order, and whatever GStreamer answers,
-- at most `max_concurrent_recordings` recordings are active, where that is a limit at all.
pub Reach-InLimit :
    (h m : Handler)
    → Reach h m
    → pos 1 ≤ℤ m.max_concurrent_recordings
    → count_active_recordings m ≤ℤ m.max_concurrent_recordings
Reach-InLimit h m r p = (Reach-within h m r).within p
