-- ===== src/Probes/Crops/Publish/Tests.antt =====
-- Two publications of an object, and the theorem on them.
use vms_engine.Common.{ℕ, ◌≡◌, refl, true, false, none, [], ◌∷◌, codes, pos, nat_eq}
use vms_engine.Probes.Crops.{PubDecisionType, first_seen, heartbeat, compose_key, no_objects}
use vms_engine.Probes.Crops.Publish.{
  CropObject, FrameProcessContext, CropSettings, CropMachine, Publisher, Role,
}
use vms_engine.Probes.Crops.Publish.Object.{publish_object}
use vms_engine.Probes.Crops.Publish.Chain.{
  Publication, publish, publish_all, concerns, prev-publish_all,
}

abbrev machine : CropMachine
machine = record { uuid = λ n. n ∷ []; encode = λ n path. true; payload_hash = λ o labels. 5 }

abbrev settings : CropSettings
settings = record {
  decision = record {
    capture_interval_ns = 1000;
    burst_max = pos 1;
    k_on_frames = 1;
    k_off_frames = 2;
    k_label_frames = 1;
    token_refill_ns = 100;
    bypass_min_gap_ns = 10;
    stale_timeout_ns = 500;
  };
  label_filter = [];
  save_dir_base = codes "/rec";
  current_day_dir = codes "/rec/20250101";
  save_full_frame = true;
  pipeline_width = pos 1920;
  pipeline_height = pos 1080;
}

abbrev start : Publisher
start = record { objects = no_objects; inst_keys = []; ff_paths = []; uuids = 0; encodes = 0 }

abbrev context : ℕ → FrameProcessContext
context frame_num = record {
  source_id = 0;
  source_name = codes "cam";
  frame_num = frame_num;
  frame_pts = 100;
  timestamp_ms = pos 50;
  realtime_str = codes "now";
  source_frame_width = pos 1920;
  source_frame_height = pos 1080;
}

abbrev object : ℕ → CropObject
object id = record {
  object_id = id;
  class_id = pos 0;
  obj_label = codes "car";
  sgie_labels = [];
  confidence = 0;
  left = 0;
  top = 0;
  width = 1;
  height = 1;
  parent = none;
}

abbrev parent_role : Role
parent_role = record {
  is_parent_role = true;
  parent_tid_hint = none;
  forced_decision = none;
  sgie_labels_override = none;
  decision_signature_override = none;
  skip_heartbeat_dedup = false;
}

abbrev publication : ℕ → ℕ → PubDecisionType → Publication
publication frame_num id decision = record {
  ctx = context frame_num;
  role = parent_role;
  object = object id;
  decision = decision;
  labels = [];
  signature = [];
}

-- Two objects of one frame get messages with one id.
ids_shared :
    (publish machine settings start (publication 1 7 first_seen)).1.message_id
    ≡ (publish machine settings
        (publish machine settings start (publication 1 7 first_seen)).0
        (publication 1 8 first_seen)).1.message_id
unfolding publish publish_object
ids_shared = refl

other_key : concerns 7 (publication 1 8 first_seen ∷ []) ≡ false
unfolding concerns compose_key
other_key = refl

key_seven : compose_key 0 7 ≡ 7
unfolding compose_key
key_seven = refl

prev-publish_all_example :
    (publish machine settings
      (publish_all machine settings
        (publish machine settings start (publication 1 7 first_seen)).0
        (publication 1 8 first_seen ∷ []))
      (publication 2 7 heartbeat)).1.prev_message_id
    ≡ (publish machine settings start (publication 1 7 first_seen)).1.message_id
unfolding compose_key
prev-publish_all_example =
    prev-publish_all machine settings start (publication 1 7 first_seen) (publication 2 7 heartbeat)
      (publication 1 8 first_seen ∷ []) refl other_key
