-- ===== src/Probes/FrameEvents.antt =====
-- pipeline/src/probes/frame_events_probe_handler.cpp and its header: the objects of a frame and
-- what the handler remembers of each source. A float is carried as its bit pattern, and its
-- arithmetic is `Floats`: the names tell binary32 (`f`) from binary64 (`d`).
pub mod Signatures
pub mod Votes
pub mod Emission
pub mod Frames
pub mod Tests
use vms_engine.Common.Map.{Map}
use vms_engine.Common.{ℕ, Bool, false, List, [], Text, ℤ, pos}

pub record FrameEventObject : Type 0 where
  pub object_key : Text
  pub instance_key : Text
  pub crop_ref : Text
  pub object_id : ℕ
  pub tracker_id : ℕ
  pub class_id : ℤ
  pub object_type : Text
  pub confidence : ℕ
  pub labels : List Text
  pub label_signature : Text
  pub left : ℕ
  pub top : ℕ
  pub width : ℕ
  pub height : ℕ
  pub parent_object_key : Text
  pub parent_instance_key : Text
  pub parent_object_id : ℤ

pub record LastEmittedObjectState : Type 0 where
  pub object_type : Text
  pub label_signature : Text
  pub class_id : ℤ
  pub parent_object_id : ℤ
  pub left : ℕ
  pub top : ℕ
  pub width : ℕ
  pub height : ℕ

pub record LabelVoteSample : Type 0 where
  pub signature : Text
  pub labels : List Text

pub record LabelVoteState : Type 0 where
  pub samples : List LabelVoteSample
  pub provisional_initialized : Bool
  pub provisional_labels : List Text
  pub committed_signature : Text
  pub committed_labels : List Text

pub record PerSourceEmitState : Type 0 where
  pub last_emit_ms : ℤ
  pub had_detection : Bool
  pub objects : Map ℕ LastEmittedObjectState
  pub label_votes : Map ℕ LabelVoteState
  pub last_object_signature : Text

pub record FrameEventsConfig : Type 0 where
  pub heartbeat_interval_ms : ℤ
  pub min_emit_gap_ms : ℤ
  pub motion_iou_threshold : ℕ
  pub center_shift_ratio_threshold : ℕ
  pub emit_on_motion_change : Bool
  pub emit_on_first_frame : Bool
  pub emit_on_object_set_change : Bool
  pub emit_on_label_change : Bool
  pub label_vote_window_frames : ℤ
  pub emit_on_parent_change : Bool
  pub emit_empty_frames : Bool

-- The arithmetic of the machine.
pub record Floats : Type 0 where
  pub f_zero : ℕ
  pub f_add : ℕ → ℕ → ℕ
  pub f_sub : ℕ → ℕ → ℕ
  pub f_mul : ℕ → ℕ → ℕ
  pub f_div : ℕ → ℕ → ℕ
  pub f_min : ℕ → ℕ → ℕ
  pub f_max : ℕ → ℕ → ℕ
  pub f_le : ℕ → ℕ → Bool
  pub to_double : ℕ → ℕ
  pub d_zero : ℕ
  pub d_two : ℕ
  pub d_add : ℕ → ℕ → ℕ
  pub d_sub : ℕ → ℕ → ℕ
  pub d_div : ℕ → ℕ → ℕ
  pub d_hypot : ℕ → ℕ → ℕ
  pub d_lt : ℕ → ℕ → Bool
  pub d_le : ℕ → ℕ → Bool

-- A source that was not seen before.
abbrev pub new_source : PerSourceEmitState
new_source = record {
  last_emit_ms = pos 0;
  had_detection = false;
  objects = [];
  label_votes = [];
  last_object_signature = [];
}

abbrev pub new_votes : LabelVoteState
new_votes = record {
  samples = [];
  provisional_initialized = false;
  provisional_labels = [];
  committed_signature = [];
  committed_labels = [];
}
