-- ===== src/Probes/FrameEvents/Emission/Reasons.antt =====
-- When a frame is published: at the latest with the heartbeat, and at once after an empty frame.
use vms_engine.Common.{
  ◌≡◌, refl, true, false, List, [], ◌∷◌, Text, text_eq, text_beq, codes, int_eq, nat_eq, is_empty,
  ℤ, pos, ltb_ℤ, leb_ℤ, ◌-ℤ◌, arith, contains,
}
use vms_engine.Probes.FrameEvents.{FrameEventObject, PerSourceEmitState, FrameEventsConfig, Floats}
use vms_engine.Probes.FrameEvents.Votes.{Iterate, apply_label_majority_vote}
use vms_engine.Probes.FrameEvents.Emission.{
  reset_source_state, elapsed_since, is_suppressed, change_reasons, emit_reasons, decide,
  should_emit,
}
use vms_engine.Probes.FrameEvents.Emission.Gap.{should_emit-IsTimed}

-- A frame that is published has objects and a reason, whatever `emit_empty_frames` says, and its
-- time becomes that of the last message.
pub should_emit_sound :
    (fl : Floats) (iterate : Iterate) (g : FrameEventsConfig) (state : PerSourceEmitState)
    (objects : List FrameEventObject) (now : ℤ)
    → (should_emit fl iterate g state objects now).emits ≡ true
    → (is_empty objects ≡ false)
      × (is_empty (should_emit fl iterate g state objects now).reasons ≡ false)
      × ((should_emit fl iterate g state objects now).state.last_emit_ms ≡ now)
unfolding should_emit
should_emit_sound fl iterate g state [] now h = absurd (cc)
should_emit_sound fl iterate g state (o ∷ os) now h =
    let timed = should_emit-IsTimed fl iterate g state (o ∷ os) now in
    (refl, timed.filled h, timed.noted h)

-- A frame with objects is published if the last message of its source is as long ago as the
-- heartbeat and the gap, whether or not anything changed.
pub should_emit_heartbeat :
    (fl : Floats) (iterate : Iterate) (g : FrameEventsConfig) (state : PerSourceEmitState)
    (objects : List FrameEventObject) (now : ℤ)
    → is_empty objects ≡ false
    → ltb_ℤ (pos 0) state.last_emit_ms ≡ true
    → leb_ℤ g.heartbeat_interval_ms (now -ℤ state.last_emit_ms) ≡ true
    → leb_ℤ g.min_emit_gap_ms (now -ℤ state.last_emit_ms) ≡ true
    → (should_emit fl iterate g state objects now).emits ≡ true
unfolding should_emit decide is_suppressed elapsed_since emit_reasons apply_label_majority_vote
should_emit_heartbeat fl iterate g state objects now filled seen beat gap = ground arith

filled :
    (reason : Text) (reasons : List Text)
    → contains reason reasons ≡ true
    → is_empty reasons ≡ false
unfolding contains
filled reason [] h = absurd (cc)
filled reason (r ∷ rs) h = refl

first_reason :
    (fl : Floats) (iterate : Iterate) (g : FrameEventsConfig) (state : PerSourceEmitState)
    (objects : List FrameEventObject) (now : ℤ)
    → g.emit_on_first_frame ≡ true
    → state.had_detection ≡ false
    → contains (codes "first_frame") (emit_reasons fl iterate g state objects now) ≡ true
unfolding emit_reasons change_reasons contains text_beq
first_reason fl iterate g state objects now first new = rw (first, new) refl

-- A reason is enough where the gap allows it.
decide_reason :
    (fl : Floats) (iterate : Iterate) (g : FrameEventsConfig) (state : PerSourceEmitState)
    (objects : List FrameEventObject) (now : ℤ) (reason : Text)
    → contains reason (emit_reasons fl iterate g state objects now) ≡ true
    → leb_ℤ g.min_emit_gap_ms (now -ℤ state.last_emit_ms) ≡ true
    → let d = decide fl iterate g (state, objects) now in
      (d.emits ≡ true) × (contains reason d.reasons ≡ true)
unfolding decide is_suppressed elapsed_since
decide_reason fl iterate g state objects now reason has gap =
    let some_reason = filled reason (emit_reasons fl iterate g state objects now) has in
    ground arith

-- After a frame without objects, the next frame with objects is published as the first one if
-- that is configured, unless the gap forbids it.
pub should_emit-empty :
    (fl : Floats) (iterate : Iterate) (g : FrameEventsConfig) (state : PerSourceEmitState)
    (o : FrameEventObject) (os : List FrameEventObject) (before now : ℤ)
    → g.emit_on_first_frame ≡ true
    → leb_ℤ g.min_emit_gap_ms (now -ℤ state.last_emit_ms) ≡ true
    → let d =
        should_emit fl iterate g (should_emit fl iterate g state [] before).state (o ∷ os) now in
      (d.emits ≡ true) × (contains (codes "first_frame") d.reasons ≡ true)
unfolding should_emit apply_label_majority_vote reset_source_state
should_emit-empty fl iterate g state o os before now first gap =
    let r = apply_label_majority_vote iterate g (reset_source_state state) (o ∷ os) in
    decide_reason fl iterate g r.0 r.1 now (codes "first_frame")
      (first_reason fl iterate g r.0 r.1 now first refl) gap
