-- ===== src/Sources/Health/Tests.antt =====
-- The camera that the manager's tests add, when its buffers come and when they stop.
use vms_engine.Common.{pos}
use vms_engine.Sources.Slots.{Manager}
use vms_engine.Sources.Streams.Tests.{gate_added, gate_added-IsWell}
use vms_engine.Sources.Streams.Preservation.{IsWellManaged}
use vms_engine.Sources.Health.{note_stream_activity, poll_stream_health}
use vms_engine.Sources.Health.Shown.Calls.{note_stream_activity-IsWell, poll_stream_health-IsWell}

abbrev live : Manager
live = note_stream_activity gate_added 0 (pos 2000)

note_stream_activity-IsWell_example : IsWellManaged (note_stream_activity gate_added 0 (pos 2000))
note_stream_activity-IsWell_example =
    note_stream_activity-IsWell gate_added 0 (pos 2000) gate_added-IsWell

live-IsWell : IsWellManaged live
live-IsWell = note_stream_activity-IsWell gate_added 0 (pos 2000) gate_added-IsWell

poll_stream_health-IsWell_example : IsWellManaged (poll_stream_health live (pos 9000000))
poll_stream_health-IsWell_example = poll_stream_health-IsWell live (pos 9000000) live-IsWell
