-- ===== src/Probes/Crops/Publish.antt =====
-- pipeline/src/probes/crop_object_handler.cpp: the publication of one object of a frame. `encode`
-- is the answer of the encoder to each of its calls, `uuid` what the generator gives each time,
-- and `payload_hash` stands for compute_payload_hash, which is made of std::hash. The calls of the
-- external processing are left out.
pub mod Paths
pub mod Object
pub mod Chain
mod Tests
use vms_engine.Common.Map.{Map, find, insert}
use vms_engine.Common.{
  ℕ, zero, suc, ◌+◌, Bool, true, false, not, ◌&&◌, ◌||◌, Option, none, some, List, [], ◌∷◌, ◌++◌,
  Text, codes, text_eq, nat_eq, ◌==◌, is_empty, contains, ltb, length, if◌then◌else◌, ℤ, pos,
  int_to_string, nat_to_string,
}
use vms_engine.Sources.Naming.{is_alnum}
use vms_engine.Probes.Crops.{
  PubDecisionType, nothing, first_seen, bypass, heartbeat, exit, ObjectPubState, CropConfig,
  Objects, compose_key, decide_capture, new_pub_state,
}

pub record CropObject : Type 0 where
  pub object_id : ℕ
  pub class_id : ℤ
  pub obj_label : Text
  pub sgie_labels : Text
  pub confidence : ℕ
  pub left : ℕ
  pub top : ℕ
  pub width : ℕ
  pub height : ℕ
  pub parent : Option ℕ

pub record FrameProcessContext : Type 0 where
  pub source_id : ℕ
  pub source_name : Text
  pub frame_num : ℕ
  pub frame_pts : ℕ
  pub timestamp_ms : ℤ
  pub realtime_str : Text
  pub source_frame_width : ℤ
  pub source_frame_height : ℤ

pub record CropSettings : Type 0 where
  pub decision : CropConfig
  pub label_filter : List Text
  pub save_dir_base : Text
  pub current_day_dir : Text
  pub save_full_frame : Bool
  pub pipeline_width : ℤ
  pub pipeline_height : ℤ

pub record CropMachine : Type 0 where
  pub uuid : ℕ → Text
  pub encode : ℕ → Text → Bool
  pub payload_hash : CropObject → Text → ℕ

-- `inst_keys` is the cache of the frame, `ff_paths` that of the batch; `uuids` and `encodes`
-- count the calls.
pub record Publisher : Type 0 where
  pub objects : Objects
  pub inst_keys : Map ℕ Text
  pub ff_paths : Map ℕ Text
  pub uuids : ℕ
  pub encodes : ℕ

pub record PendingMessage : Type 0 where
  pub context : FrameProcessContext
  pub object : CropObject
  pub object_key : Text
  pub instance_key : Text
  pub parent_object_key : Text
  pub parent_instance_key : Text
  pub parent_id_str : Text
  pub labels : Text
  pub fname : Text
  pub fname_ff : Text
  pub message_id : Text
  pub prev_message_id : Text
  pub pub_type : PubDecisionType
  pub pub_reason : Text
  pub heartbeat_seq : ℕ
  pub pipeline_width : ℤ
  pub pipeline_height : ℤ

-- How `process_object_for_publish` is called: the decision where it is forced, and the texts
-- that take the place of the object's own labels.
pub record Role : Type 0 where
  pub is_parent_role : Bool
  pub parent_tid_hint : Option ℕ
  pub forced_decision : Option PubDecisionType
  pub sgie_labels_override : Option Text
  pub decision_signature_override : Option Text
  pub skip_heartbeat_dedup : Bool

abbrev pub untracked_object_id : ℕ
untracked_object_id = 18446744073709551615

abbrev pub or_text : Option Text → Text → Text
or_text none t = t
or_text (some s) t = s

abbrev pub or_unpublished : Option ObjectPubState → ObjectPubState
or_unpublished none = new_pub_state
or_unpublished (some s) = s

unfoldable pub pub_reason_for_type : PubDecisionType → Text
pub_reason_for_type first_seen = codes "first_detection"
pub_reason_for_type bypass = codes "burst_capture"
pub_reason_for_type heartbeat = codes "interval"
pub_reason_for_type exit = codes "stale_expired"
pub_reason_for_type nothing = []

unfoldable pub generate_message_id : ℕ → ℕ → ℤ → Text
generate_message_id source_id frame_num timestamp_ms =
    codes "src_"
    ++ (nat_to_string source_id
        ++ (codes "_f" ++ (nat_to_string frame_num ++ (codes "_" ++ int_to_string timestamp_ms))))

-- The loop of `sanitize_label`, with room for `room` more characters.
unfoldable pub sanitize_from : ℕ → Text → Text
sanitize_from room [] = []
sanitize_from zero (c ∷ cs) = []
sanitize_from (suc room) (c ∷ cs) =
    (if is_alnum c || (c == b'-' || c == b'_') then c else b'_') ∷ sanitize_from room cs

unfoldable pub sanitize_label : Text → Text
sanitize_label label =
    if is_empty (sanitize_from 30 label) then codes "unknown" else sanitize_from 30 label
