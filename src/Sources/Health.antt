-- ===== src/Sources/Health.antt =====
-- pipeline/src/runtime_stream_manager.cpp: the activity and the health of the streams, and their
-- list. Each call holds the mutex, so it is one step; the monotonic clock is an argument.
pub mod Shown
mod Tests
use vms_engine.Common.Map.{Map, find, insert}
use vms_engine.Common.{
  ℕ, ◌*◌, Bool, true, false, ◌||◌, ◌&&◌, not, Option, none, some, List, [], ◌∷◌, Text, codes,
  nat_eq, text_eq, ◌==◌, ltb, if◌then◌else◌, ℤ, pos, pos_part, ◌-ℤ◌, ltb_ℤ, leb_ℤ, is_empty,
}
use vms_engine.Sources.Slots.{
  SourcesConfig, StreamSlot, Manager, switch_slot_to_live, switch_slot_to_placeholder, at_least_one,
}
use vms_engine.Sources.Streams.{SourceInfo, is_null}

-- kMinimumStallTimeoutUs, and the timeout in microseconds.
abbrev pub minimum_stall_timeout_us : ℕ
minimum_stall_timeout_us = 1500000

unfoldable pub stream_stall_timeout_us : SourcesConfig → ℕ
stream_stall_timeout_us c =
    let latency_timeout = at_least_one c.latency * 4 * 1000 in
    if ltb minimum_stall_timeout_us latency_timeout
    then latency_timeout
    else minimum_stall_timeout_us

-- The first stream with the index, and its key.
unfoldable pub find_stream_by_source_index : ℕ → Map Text StreamSlot → Option (Text × StreamSlot)
find_stream_by_source_index i [] = none
find_stream_by_source_index i ((k, s) ∷ streams) =
    let rest = find_stream_by_source_index i streams in
    if s.source_index == i then some (k, s) else rest

-- The switch to the live pad, after the time of the buffer was kept.
unfoldable pub restore_live : Text → StreamSlot → Bool × Manager → Manager
restore_live k s (switched, m) =
    if switched
    then record m {
      streams = insert k (record s { using_placeholder = false; state = codes "active" }) m.streams;
    }
    else m

unfoldable pub note_found : Manager → ℤ → Option (Text × StreamSlot) → Manager
note_found m now none = m
note_found m now (some (k, s)) =
    let s' = record s { last_buffer_time_us = now } in
    let m' = record m { streams = insert k s' m.streams } in
    if s.using_placeholder then restore_live k s' (switch_slot_to_live m' s.source_index) else m'

unfoldable pub note_stream_activity : Manager → ℕ → ℤ → Manager
note_stream_activity m i now = note_found m now (find_stream_by_source_index i m.streams)

-- Whether the poll leaves the stream as it is.
unfoldable pub is_healthy : SourcesConfig → ℤ → StreamSlot → Bool
is_healthy c now s =
    (is_null s.source || s.using_placeholder)
    || (leb_ℤ s.last_buffer_time_us (pos 0)
        || ltb_ℤ (now -ℤ s.last_buffer_time_us) (pos (stream_stall_timeout_us c)))

unfoldable pub stall_switched : Text → StreamSlot → Bool × Manager → Manager
stall_switched k s (switched, m) =
    if switched
    then record m {
      streams =
          insert k (record s { using_placeholder = true; state = codes "recovering" }) m.streams;
    }
    else m

unfoldable pub poll_stream : ℤ → Text → StreamSlot → Manager → Manager
poll_stream now k s m =
    if is_healthy m.config now s
    then m
    else stall_switched k s (switch_slot_to_placeholder m s.source_index)

-- The loop over the streams as they are at its start: a turn changes no other stream.
unfoldable pub poll_streams : ℤ → Map Text StreamSlot → Manager → Manager
poll_streams now [] m = m
poll_streams now ((k, s) ∷ streams) m = poll_streams now streams (poll_stream now k s m)

unfoldable pub poll_stream_health : Manager → ℤ → Manager
poll_stream_health m now = poll_streams now m.streams m
