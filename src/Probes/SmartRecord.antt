-- ===== src/Probes/SmartRecord.antt =====
-- pipeline/src/probes/smart_record_probe_handler.cpp: recordings that detections start. Clock times
-- and their differences are modulo 2 ^ 64. What GStreamer answers is an argument; an element is a
-- handle. The published messages and the source's name in them are left out: they do not change
-- what the handler decides.
pub mod Batch
pub mod Limit
pub mod Interval
pub mod Expiry
mod Tests
use vms_engine.Common.Map.{Map, find, insert, erase}
use vms_engine.Common.{
  ℕ, zero, suc, ◌+◌, ◌-◌, ◌*◌, ◌%◌, Bool, true, false, ◌||◌, ◌&&◌, not, Option, none, some, List,
  [], ◌∷◌, Text, nat_eq, text_eq, ◌==◌, ltb, leb, if◌then◌else◌, is_empty, contains, ℤ, pos, ◌+ℤ◌,
  ltb_ℤ, leb_ℤ, to_unsigned, to_int, u32,
}

abbrev pub u64 : ℕ
u64 = 18446744073709551616

-- GST_CLOCK_TIME_NONE, GST_SECOND and kSessionGracePeriodNs.
abbrev pub clock_time_none : ℕ
clock_time_none = 18446744073709551615

abbrev pub second : ℕ
second = 1000000000

abbrev pub session_grace_period_ns : ℕ
session_grace_period_ns = 5000000000

pub record RecordingSession : Type 0 where
  pub session_id : ℕ
  pub source_id : ℕ
  pub start_time : ℕ
  pub duration_sec : ℕ

pub record SourceRecordingState : Type 0 where
  pub last_record_time : ℕ
  pub active_session : Option RecordingSession
  pub signal_handler_id : ℕ

-- `source_id_data` is the data that the handler puts on elements.
pub record Handler : Type 0 where
  pub label_filter : List Text
  pub pre_event_sec : ℤ
  pub post_event_sec : ℤ
  pub min_interval_sec : ℤ
  pub max_concurrent_recordings : ℤ
  pub shutting_down : Bool
  pub source_states : Map ℕ SourceRecordingState
  pub source_bins : Map ℕ ℕ
  pub source_id_data : Map ℕ ℕ

-- What GStreamer answers during one batch: whether there is a source root and it is a bin, whether
-- an element is still the root's child of its name, the source element of a source, the id of a
-- new signal connection, and the session that `start-sr` begins.
pub record Elements : Type 0 where
  pub has_root : Bool
  pub is_bin : Bool
  pub is_child : ℕ → Bool
  pub discover : ℕ → Option ℕ
  pub connect : ℕ → ℕ
  pub start_sr : ℕ → ℕ → ℕ → ℕ

abbrev pub new_state : SourceRecordingState
new_state = record {
  last_record_time = clock_time_none;
  active_session = none;
  signal_handler_id = 0;
}

abbrev pub state_or_new : Option SourceRecordingState → SourceRecordingState
state_or_new none = new_state
state_or_new (some state) = state

-- source_states_[source_id], which makes a state where there is none.
abbrev pub state_of : Handler → ℕ → SourceRecordingState
state_of h source_id = state_or_new (find source_id h.source_states)

abbrev pub set_state : Handler → ℕ → SourceRecordingState → Handler
set_state h source_id state = record h { source_states = insert source_id state h.source_states }

abbrev pub is_active : SourceRecordingState → ℕ
is_active state = elim state.active_session [ none ↦ 0 | some session ↦ 1 ]

unfoldable pub count_active : Map ℕ SourceRecordingState → ℕ
count_active [] = 0
count_active ((source_id, state) ∷ states) = is_active state + count_active states

unfoldable pub count_active_recordings : Handler → ℤ
count_active_recordings h = pos (count_active h.source_states)

-- The difference of two clock times.
unfoldable pub clock_sub : ℕ → ℕ → ℕ
clock_sub now then_ = (now + u64 - then_) % u64

-- A number of seconds, given as an int, in nanoseconds.
unfoldable pub seconds_ns : ℤ → ℕ
seconds_ns sec = (to_unsigned u64 sec * second) % u64

unfoldable pub can_start_recording : Handler → ℕ → ℕ → Bool × Handler
can_start_recording h source_id now =
    let state = state_of h source_id in
    let h' = set_state h source_id state in
    if not (is_active state == 0)
    then (false, h')
    else if ltb_ℤ (pos 0) h.max_concurrent_recordings
        && leb_ℤ h.max_concurrent_recordings (count_active_recordings h')
    then (false, h')
    else if not (state.last_record_time == clock_time_none)
        && ltb (clock_sub now state.last_record_time) (seconds_ns h.min_interval_sec)
    then (false, h')
    else (true, h')

-- The end of `find_nvurisrcbin`: the element is kept, named and connected.
unfoldable pub adopt : Elements → Handler → ℕ → Option ℕ → Option ℕ × Handler
adopt g h source_id none = (none, h)
adopt g h source_id (some element) =
    let state = state_of h source_id in
    let h' = record h {
      source_bins = insert source_id element h.source_bins;
      source_id_data = insert element source_id h.source_id_data;
    } in
    (
      some element,
      set_state h' source_id (
          if state.signal_handler_id == 0
          then record state { signal_handler_id = g.connect element }
          else state),
    )

unfoldable pub rediscover : Elements → Handler → ℕ → Option ℕ × Handler
rediscover g h source_id =
    if not g.has_root then (none, h) else adopt g h source_id (g.discover source_id)

unfoldable pub find_cached : Elements → Handler → ℕ → Option ℕ → Option ℕ × Handler
find_cached g h source_id none = rediscover g h source_id
find_cached g h source_id (some cached) =
    if not (g.has_root && g.is_bin) || g.is_child cached
    then (some cached, h)
    else rediscover g (record h { source_bins = erase source_id h.source_bins }) source_id

unfoldable pub find_nvurisrcbin : Elements → Handler → ℕ → Option ℕ × Handler
find_nvurisrcbin g h source_id = find_cached g h source_id (find source_id h.source_bins)

unfoldable pub start_on : Elements → ℕ → ℕ → Option ℕ × Handler → Handler
start_on g source_id now (none, h) = h
start_on g source_id now (some urisrcbin, h) =
    let total_duration = to_unsigned u32 (h.pre_event_sec +ℤ h.post_event_sec) in
    let start_time_sec = to_unsigned u32 h.pre_event_sec in
    let pre_event_ns = seconds_ns h.pre_event_sec in
    set_state h source_id (record (state_of h source_id) {
      last_record_time = if ltb pre_event_ns now then now - pre_event_ns else 0;
      active_session = some (record {
        session_id = g.start_sr urisrcbin start_time_sec total_duration;
        source_id = source_id;
        start_time = now;
        duration_sec = total_duration;
      });
    })

unfoldable pub start_recording : Elements → Handler → ℕ → ℕ → Handler
start_recording g h source_id now = start_on g source_id now (find_nvurisrcbin g h source_id)

unfoldable pub is_overdue : ℕ → RecordingSession → Bool
is_overdue now session =
    not (session.start_time == clock_time_none)
    && ltb
        ((session.start_time + (session.duration_sec * second) % u64 + session_grace_period_ns)
          % u64)
        now

unfoldable pub keep_session : ℕ → Option RecordingSession → Option RecordingSession
keep_session now none = none
keep_session now (some session) = if is_overdue now session then none else some session

unfoldable pub cleanup_states : ℕ → Map ℕ SourceRecordingState → Map ℕ SourceRecordingState
cleanup_states now [] = []
cleanup_states now ((source_id, state) ∷ states) =
    (source_id, record state { active_session = keep_session now state.active_session })
    ∷ cleanup_states now states

unfoldable pub cleanup_expired_sessions : Handler → ℕ → Handler
cleanup_expired_sessions h now = record h { source_states = cleanup_states now h.source_states }
