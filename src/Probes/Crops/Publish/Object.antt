-- ===== src/Probes/Crops/Publish/Object.antt =====
-- pipeline/src/probes/crop_object_handler.cpp: the steps of process_object_for_publish.
use vms_engine.Common.Map.{find, insert}
use vms_engine.Common.{
  ℕ, ◌+◌, Bool, true, false, not, ◌&&◌, ◌||◌, Option, none, some, [], ◌++◌, Text, codes, text_eq,
  nat_eq, ◌==◌, is_empty, contains, if◌then◌else◌, nat_to_string,
}
use vms_engine.Probes.Crops.{
  PubDecisionType, nothing, first_seen, bypass, heartbeat, exit, ObjectPubState, compose_key,
  decide_capture,
}
use vms_engine.Probes.Crops.Publish.{
  CropObject, FrameProcessContext, CropSettings, CropMachine, Publisher, PendingMessage, Role,
  untracked_object_id, or_text, or_unpublished, pub_reason_for_type, generate_message_id,
}
use vms_engine.Probes.Crops.Publish.Paths.{relative_path, crop_path_of}

unfoldable pub update_object_last_seen : Publisher → ℕ → ℕ → ℕ → Publisher
update_object_last_seen p source_id tracker_id pts = record p {
  objects = record p.objects {
    object_last_seen = insert (compose_key source_id tracker_id) pts p.objects.object_last_seen;
  };
}

unfoldable pub get_or_create_object_key : CropMachine → Publisher → ℕ → ℕ → Publisher × Text
get_or_create_object_key machine p source_id tracker_id =
    let key = compose_key source_id tracker_id in
    elim (find key p.objects.object_keys) [
      | some object_key ↦ (p, object_key)
      | none ↦ (
        record p {
          objects = record p.objects {
            object_keys = insert key (machine.uuid p.uuids) p.objects.object_keys;
          };
          uuids = p.uuids + 1;
        },
        machine.uuid p.uuids,
      )
    ]

unfoldable pub parent_of : Option ℕ → Option ℕ → Option ℕ
parent_of (some hint) parent = some hint
parent_of none none = none
parent_of none (some parent) = if parent == untracked_object_id then none else some parent

-- The parent's object key, its instance key and its id in the message.
unfoldable pub link_parent :
    CropMachine → Publisher → FrameProcessContext → Option ℕ → Publisher × Text × Text × Text
link_parent machine p ctx none = (p, [], [], [])
link_parent machine p ctx (some parent_tid) =
    let r = get_or_create_object_key machine p ctx.source_id parent_tid in
    elim (find parent_tid r.0.inst_keys) [
      | some instance_key ↦ (
        update_object_last_seen r.0 ctx.source_id parent_tid ctx.frame_pts,
        r.1,
        instance_key,
        nat_to_string parent_tid,
      )
      | none ↦ (
        update_object_last_seen
            (record r.0 {
              inst_keys = insert parent_tid (machine.uuid r.0.uuids) r.0.inst_keys;
              uuids = r.0.uuids + 1;
            })
            ctx.source_id parent_tid ctx.frame_pts,
        r.1,
        machine.uuid r.0.uuids,
        nat_to_string parent_tid,
      )
    ]

unfoldable pub link :
    CropMachine
    → Publisher
    → FrameProcessContext
    → Role
    → CropObject
    → Text
    → Publisher × Text × Text × Text
link machine p ctx role o instance_key =
    if role.is_parent_role
    then (record p { inst_keys = insert o.object_id instance_key p.inst_keys }, [], [], [])
    else link_parent machine p ctx (parent_of role.parent_tid_hint o.parent)

-- The sequence number of the message, which is also kept.
unfoldable pub next_seq : PubDecisionType → ℕ → ℕ
next_seq first_seen n = 0
next_seq heartbeat n = n + 1
next_seq bypass n = n
next_seq exit n = n
next_seq nothing n = n

unfoldable pub note_published :
    ObjectPubState → PubDecisionType → ℕ → ℕ → Text → Text → Text → ObjectPubState
note_published s decision pts payload_hash message_id instance_key signature = record s {
  heartbeat_seq = next_seq decision s.heartbeat_seq;
  last_publish_pts = pts;
  last_payload_hash = payload_hash;
  last_message_id = message_id;
  last_instance_key = instance_key;
  last_sgie_labels = signature;
}

abbrev pub set_pub_state : Publisher → ℕ → ObjectPubState → Publisher
set_pub_state p key s = record p {
  objects = record p.objects { pub_state = insert key s p.objects.pub_state };
}

-- One call of the encoder; its answer for a crop is only logged.
unfoldable pub encode_crop : Publisher → Publisher
encode_crop p = record p { encodes = p.encodes + 1 }

unfoldable pub encode_full_frame :
    CropMachine → CropSettings → Publisher → FrameProcessContext → Publisher × Text
encode_full_frame machine g p ctx =
    let path =
      g.current_day_dir
      ++ (codes "/s"
          ++ (nat_to_string ctx.source_id
              ++ (codes "_RT" ++ (ctx.realtime_str ++ codes "_frame_ff.jpg")))) in
    let called = record p { encodes = p.encodes + 1 } in
    if not g.save_full_frame then (p, []) else elim (find ctx.frame_num p.ff_paths) [
      | some path ↦ (p, path)
      | none ↦
          if machine.encode p.encodes path
          then (record called { ff_paths = insert ctx.frame_num path p.ff_paths }, path)
          else (called, [])
    ]

-- From the dedup test on, with the decision, the labels and the signature.
unfoldable pub publish_object :
    CropMachine
    → CropSettings
    → Publisher
    → FrameProcessContext
    → Role
    → CropObject
    → PubDecisionType
    → Text
    → Text
    → Publisher × PendingMessage
publish_object machine g p0 ctx role o decision labels signature =
    let key = compose_key ctx.source_id o.object_id in
    let keyed = get_or_create_object_key machine p0 ctx.source_id o.object_id in
    let instance_key = machine.uuid keyed.0.uuids in
    let p1 = record keyed.0 {
      uuids = keyed.0.uuids + 1;
      objects = record keyed.0.objects {
        last_capture_pts = insert key ctx.frame_pts keyed.0.objects.last_capture_pts;
      };
    } in
    let linked = link machine p1 ctx role o instance_key in
    let old = or_unpublished (find key linked.0.objects.pub_state) in
    let message_id = generate_message_id ctx.source_id ctx.frame_num ctx.timestamp_ms in
    let new =
      note_published old decision ctx.frame_pts (machine.payload_hash o labels) message_id
        instance_key signature in
    let full = encode_full_frame machine g (encode_crop (set_pub_state linked.0 key new)) ctx in
    (
      full.0,
      record {
        context = ctx;
        object = o;
        object_key = keyed.1;
        instance_key = instance_key;
        parent_object_key = linked.1;
        parent_instance_key = linked.2;
        parent_id_str = linked.3;
        labels = labels;
        fname = relative_path g.save_dir_base (crop_path_of g ctx o);
        fname_ff = relative_path g.save_dir_base full.1;
        message_id = message_id;
        prev_message_id = old.last_message_id;
        pub_type = decision;
        pub_reason = pub_reason_for_type decision;
        heartbeat_seq = new.heartbeat_seq;
        pipeline_width = g.pipeline_width;
        pipeline_height = g.pipeline_height;
      },
    )

unfoldable pub decide_object :
    CropSettings
    → Publisher
    → FrameProcessContext
    → ℕ
    → Text
    → Option PubDecisionType
    → Publisher × PubDecisionType
decide_object g p ctx key signature (some decision) = (p, decision)
decide_object g p ctx key signature none =
    let r =
      decide_capture g.decision (or_unpublished (find key p.objects.pub_state)) signature
        ctx.frame_pts ctx.frame_num (find key p.objects.last_capture_pts) in
    (set_pub_state p key r.0, r.1)

abbrev pub is_nothing : PubDecisionType → Bool
is_nothing nothing = true
is_nothing first_seen = false
is_nothing bypass = false
is_nothing heartbeat = false
is_nothing exit = false

abbrev pub is_heartbeat : PubDecisionType → Bool
is_heartbeat heartbeat = true
is_heartbeat nothing = false
is_heartbeat first_seen = false
is_heartbeat bypass = false
is_heartbeat exit = false

-- With the decision, which is not to publish nothing.
unfoldable pub publish_decided :
    CropMachine
    → CropSettings
    → Publisher
    → FrameProcessContext
    → Role
    → CropObject
    → PubDecisionType
    → Text
    → Text
    → Publisher × Option PendingMessage
publish_decided machine g p ctx role o decision labels signature =
    let key = compose_key ctx.source_id o.object_id in
    let s = or_unpublished (find key p.objects.pub_state) in
    let r = publish_object machine g p ctx role o decision labels signature in
    if not role.skip_heartbeat_dedup
      && (is_heartbeat decision && machine.payload_hash o labels == s.last_payload_hash)
    then (set_pub_state p key s, none)
    else (r.0, some r.1)

unfoldable pub process_object_for_publish :
    CropMachine
    → CropSettings
    → Publisher
    → FrameProcessContext
    → Role
    → CropObject
    → Publisher × Option PendingMessage
process_object_for_publish machine g p ctx role o =
    let seen = update_object_last_seen p ctx.source_id o.object_id ctx.frame_pts in
    let labels = or_text role.sgie_labels_override o.sgie_labels in
    let signature = or_text role.decision_signature_override labels in
    let d =
      decide_object g seen ctx (compose_key ctx.source_id o.object_id) signature
        role.forced_decision in
    if is_empty o.obj_label || o.object_id == untracked_object_id
    then (p, none)
    else if not (is_empty g.label_filter) && not (contains o.obj_label g.label_filter)
    then (seen, none)
    else if is_nothing d.1
    then (d.0, none)
    else publish_decided machine g d.0 ctx role o d.1 labels signature
