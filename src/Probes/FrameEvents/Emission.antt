-- ===== src/Probes/FrameEvents/Emission.antt =====
-- pipeline/src/probes/frame_events_probe_handler.cpp: whether a frame is published, and why.
pub mod Gap
pub mod Reasons
pub mod Quiet
use vms_engine.Common.Map.{Map, find, insert}
use vms_engine.Common.{
  ℕ, Bool, true, false, not, ◌&&◌, ◌||◌, Option, none, some, List, [], ◌∷◌, ◌++◌, Text, codes,
  text_eq, nat_eq, ◌==◌, is_empty, if◌then◌else◌, ℤ, pos, ltb_ℤ, leb_ℤ, int_eq, ◌-ℤ◌,
}
use vms_engine.Probes.FrameEvents.{
  FrameEventObject, LastEmittedObjectState, PerSourceEmitState, FrameEventsConfig, Floats,
  new_source,
}
use vms_engine.Probes.FrameEvents.Signatures.{build_signature}
use vms_engine.Probes.FrameEvents.Votes.{Iterate, apply_label_majority_vote}

-- The answer of `should_emit_message`, with the state and the objects that it leaves behind.
pub record Decision : Type 0 where
  pub state : PerSourceEmitState
  pub objects : List FrameEventObject
  pub reasons : List Text
  pub emits : Bool

module _ (fl : Floats) where
  unfoldable pub compute_iou : LastEmittedObjectState → FrameEventObject → ℕ
  compute_iou previous current =
      let previous_right = fl.f_add previous.left previous.width in
      let previous_bottom = fl.f_add previous.top previous.height in
      let current_right = fl.f_add current.left current.width in
      let current_bottom = fl.f_add current.top current.height in
      let inter_left = fl.f_max previous.left current.left in
      let inter_top = fl.f_max previous.top current.top in
      let inter_right = fl.f_min previous_right current_right in
      let inter_bottom = fl.f_min previous_bottom current_bottom in
      let inter_width = fl.f_max fl.f_zero (fl.f_sub inter_right inter_left) in
      let inter_height = fl.f_max fl.f_zero (fl.f_sub inter_bottom inter_top) in
      let inter_area = fl.f_mul inter_width inter_height in
      let previous_area = fl.f_mul previous.width previous.height in
      let current_area = fl.f_mul current.width current.height in
      let union_area = fl.f_sub (fl.f_add previous_area current_area) inter_area in
      if fl.f_le union_area fl.f_zero
      then fl.d_zero
      else fl.to_double (fl.f_div inter_area union_area)

  abbrev pub center : ℕ → ℕ → ℕ
  center start extent = fl.d_add (fl.to_double start) (fl.d_div (fl.to_double extent) fl.d_two)

  unfoldable pub center_shifted :
      FrameEventsConfig → LastEmittedObjectState → FrameEventObject → Bool
  center_shifted g previous object =
      let shift =
        fl.d_hypot
          (fl.d_sub (center object.left object.width) (center previous.left previous.width))
          (fl.d_sub (center object.top object.height) (center previous.top previous.height)) in
      let diag = fl.d_hypot (fl.to_double previous.width) (fl.to_double previous.height) in
      fl.d_lt fl.d_zero diag && fl.d_le g.center_shift_ratio_threshold (fl.d_div shift diag)

  unfoldable pub motion_changed :
      FrameEventsConfig → LastEmittedObjectState → FrameEventObject → Bool
  motion_changed g previous object =
      g.emit_on_motion_change
      && (fl.d_lt (compute_iou previous object) g.motion_iou_threshold
          || center_shifted g previous object)

unfoldable pub label_changed : FrameEventsConfig → LastEmittedObjectState → FrameEventObject → Bool
label_changed g previous object =
    g.emit_on_label_change
    && (not (previous.object_type == object.object_type)
        || (not (previous.class_id == object.class_id)
            || not (previous.label_signature == object.label_signature)))

unfoldable pub parent_changed : FrameEventsConfig → LastEmittedObjectState → FrameEventObject → Bool
parent_changed g previous object =
    g.emit_on_parent_change && not (previous.parent_object_id == object.parent_object_id)

-- A test of one object against what was last emitted of it, if anything was.
abbrev pub against :
    (LastEmittedObjectState → FrameEventObject → Bool)
    → Option LastEmittedObjectState
    → FrameEventObject
    → Bool
against changed none object = false
against changed (some previous) object = changed previous object

-- A flag of the loop on the objects.
unfoldable pub any_changed :
    (LastEmittedObjectState → FrameEventObject → Bool)
    → Map ℕ LastEmittedObjectState
    → List FrameEventObject
    → Bool
any_changed changed before [] = false
any_changed changed before (o ∷ os) =
    against changed (find o.object_id before) o || any_changed changed before os

abbrev pub reason_if : Bool → Text → List Text
reason_if b reason = if b then reason ∷ [] else []

unfoldable pub last_emitted : FrameEventObject → LastEmittedObjectState
last_emitted o = record {
  object_type = o.object_type;
  label_signature = o.label_signature;
  class_id = o.class_id;
  parent_object_id = o.parent_object_id;
  left = o.left;
  top = o.top;
  width = o.width;
  height = o.height;
}

unfoldable pub remember :
    Map ℕ LastEmittedObjectState → List FrameEventObject → Map ℕ LastEmittedObjectState
remember before [] = before
remember before (o ∷ os) = remember (insert o.object_id (last_emitted o) before) os

unfoldable pub reset_source_state : PerSourceEmitState → PerSourceEmitState
reset_source_state state = record state {
  had_detection = false;
  label_votes = [];
  objects = [];
  last_object_signature = [];
}

unfoldable pub elapsed_since : PerSourceEmitState → ℤ → ℤ
elapsed_since state emitted_at_ms =
    if ltb_ℤ (pos 0) state.last_emit_ms then emitted_at_ms -ℤ state.last_emit_ms else pos 0

-- The last test before a message, with the reasons that were found.
unfoldable pub is_suppressed : FrameEventsConfig → PerSourceEmitState → ℤ → List Text → Bool
is_suppressed g state emitted_at_ms reasons =
    (ltb_ℤ (pos 0) state.last_emit_ms
      && ltb_ℤ (elapsed_since state emitted_at_ms) g.min_emit_gap_ms)
    || is_empty reasons

module _ (fl : Floats) (iterate : Iterate) (g : FrameEventsConfig) where
  unfoldable pub change_reasons : PerSourceEmitState → List FrameEventObject → List Text
  change_reasons state objects =
      reason_if (g.emit_on_first_frame && not state.had_detection) (codes "first_frame")
      ++ (reason_if
            (g.emit_on_object_set_change
              && not (build_signature objects == state.last_object_signature))
            (codes "object_set_change")
          ++ (reason_if (any_changed (label_changed g) state.objects objects) (codes "label_change")
              ++ (reason_if (any_changed (parent_changed g) state.objects objects)
                    (codes "parent_change")
                  ++ reason_if
                      (g.emit_on_motion_change
                        && any_changed (motion_changed fl g) state.objects objects)
                      (codes "motion_change"))))

  unfoldable pub emit_reasons : PerSourceEmitState → List FrameEventObject → ℤ → List Text
  emit_reasons state objects emitted_at_ms =
      let reasons = change_reasons state objects in
      if is_empty reasons && leb_ℤ g.heartbeat_interval_ms (elapsed_since state emitted_at_ms)
      then codes "heartbeat" ∷ []
      else reasons

  unfoldable pub note_emitted : PerSourceEmitState → List FrameEventObject → ℤ → PerSourceEmitState
  note_emitted state objects emitted_at_ms = record state {
    last_emit_ms = emitted_at_ms;
    had_detection = true;
    last_object_signature = build_signature objects;
    objects = remember [] objects;
  }

  -- From the end of the vote on.
  unfoldable pub decide : PerSourceEmitState × List FrameEventObject → ℤ → Decision
  decide (state, objects) emitted_at_ms =
      let reasons = emit_reasons state objects emitted_at_ms in
      if is_suppressed g state emitted_at_ms reasons
      then record { state = state; objects = objects; reasons = reasons; emits = false }
      else record {
        state = note_emitted state objects emitted_at_ms;
        objects = objects;
        reasons = reasons;
        emits = true;
      }

  unfoldable pub should_emit : PerSourceEmitState → List FrameEventObject → ℤ → Decision
  should_emit state objects emitted_at_ms =
      if is_empty objects
      then record {
        state = reset_source_state state;
        objects = objects;
        reasons = [];
        emits = false;
      }
      else decide (apply_label_majority_vote iterate g state objects) emitted_at_ms

abbrev pub or_unseen : Option PerSourceEmitState → PerSourceEmitState
or_unseen none = new_source
or_unseen (some state) = state

module _ (fl : Floats) (iterate : Iterate) (g : FrameEventsConfig) where
  -- On the map of all sources.
  unfoldable pub should_emit_message :
      Map ℤ PerSourceEmitState → ℤ → List FrameEventObject → ℤ → Map ℤ PerSourceEmitState × Decision
  should_emit_message sources source_id objects emitted_at_ms =
      let d = should_emit fl iterate g (or_unseen (find source_id sources)) objects emitted_at_ms in
      (insert source_id d.state sources, d)
