-- ===== src/Probes/FrameEvents/Frames.antt =====
-- pipeline/src/probes/frame_events_probe_handler.cpp: from the metadata of a buffer to the
-- published messages and the frame cache. A null pointer is `none`; the lists of DeepStream have
-- no null elements. `reads` counts the readings of the clock. The calls of the external processing
-- are left out.
pub mod Buffer
pub mod Published
mod Tests
use vms_engine.Common.Map.{Map, find, insert}
use vms_engine.Common.{
  ℕ, ◌+◌, Bool, true, false, not, ◌&&◌, ◌||◌, Option, none, some, List, [], ◌∷◌, ◌++◌, Text, codes,
  text_eq, nat_eq, ◌==◌, is_empty, contains, if◌then◌else◌, ℤ, pos, negsuc, ltb_ℤ, int_eq,
  int_of_u32, int64_of_u64, int_to_string, nat_to_string, map,
}
use vms_engine.Sources.Registry.{Root, lookup_runtime_source_name}
use vms_engine.Evidence.Cache.{
  BatchSurface, Cache, Metadata, ObjectSnapshot, SurfaceApi, store_frame,
}
use vms_engine.Evidence.Output.{sanitize_ref_component}
use vms_engine.Probes.FrameEvents.{FrameEventObject, PerSourceEmitState, FrameEventsConfig, Floats}
use vms_engine.Probes.FrameEvents.Votes.{Iterate}
use vms_engine.Probes.FrameEvents.Emission.{Decision, should_emit_message}

pub record LabelInfo : Type 0 where
  pub result_label : Option Text
  pub label_id : ℕ
  pub result_prob : ℕ

-- `parent` is the id of the parent object, `classifiers` the labels of each classifier.
pub record ObjectMeta : Type 0 where
  pub object_id : ℕ
  pub class_id : ℤ
  pub obj_label : Option Text
  pub confidence : ℕ
  pub classifiers : List (List LabelInfo)
  pub left : ℕ
  pub top : ℕ
  pub width : ℕ
  pub height : ℕ
  pub parent : Option ℕ

pub record FrameMeta : Type 0 where
  pub source_id : ℕ
  pub frame_num : ℕ
  pub batch_id : ℕ
  pub obj_meta_list : List ObjectMeta

-- What the handler reads of the machine: `print_prob` writes a float with two decimals, and
-- `surface_size` is the size of an item of the batch.
pub record Machine : Type 0 where
  pub floats : Floats
  pub iterate : Iterate
  pub surfaces : SurfaceApi
  pub clock : ℕ → ℤ
  pub print_prob : ℕ → Text
  pub surface_size : ℕ → ℤ × ℤ

pub record Handler : Type 0 where
  pub pipeline_id : Text
  pub broker_channel : Text
  pub config : FrameEventsConfig
  pub label_filter : List Text
  pub source_id_to_name : Map ℤ Text
  pub source_root : Option Root
  pub source_width : ℤ
  pub source_height : ℤ
  pub has_producer : Bool
  pub emit_state : Map ℤ PerSourceEmitState
  pub cache : Option Cache
  pub reads : ℕ

-- What `publish_frame_message` writes.
pub record Message : Type 0 where
  pub meta : Metadata
  pub emit_reason : List Text
  pub objects : List FrameEventObject
  pub frame_width : ℤ
  pub frame_height : ℤ

abbrev pub untracked_object_id : ℕ
untracked_object_id = 18446744073709551615

unfoldable pub make_object_key : Text → Text → ℕ → Text
make_object_key pipeline_id source_name object_id =
    pipeline_id ++ (codes ":" ++ (source_name ++ (codes ":" ++ nat_to_string object_id)))

unfoldable pub make_frame_key : Text → Text → ℕ → ℤ → Text
make_frame_key pipeline_id source_name frame_num frame_ts_ms =
    pipeline_id
    ++ (codes ":"
        ++ (source_name
            ++ (codes ":"
                ++ (nat_to_string frame_num ++ (codes ":" ++ int_to_string frame_ts_ms)))))

-- What both kinds of references begin with.
abbrev pub ref_of : Metadata → Text → Text
ref_of meta rest =
    sanitize_ref_component meta.pipeline_id
    ++ (codes "_"
        ++ (sanitize_ref_component meta.source_name
            ++ (codes "_"
                ++ (nat_to_string meta.frame_num
                    ++ (codes "_" ++ (int_to_string meta.frame_ts_ms ++ rest))))))

unfoldable pub build_overview_ref : Metadata → Text
build_overview_ref meta = ref_of meta (codes "_overview.jpg")

unfoldable pub build_crop_ref : Metadata → FrameEventObject → Text
build_crop_ref meta o = ref_of meta (codes "_crop_" ++ (nat_to_string o.object_id ++ codes ".jpg"))

abbrev pub or_blank : Option Text → Text
or_blank none = []
or_blank (some t) = t

unfoldable pub label_text : Machine → LabelInfo → Text
label_text machine l =
    or_blank l.result_label
    ++ (codes ":" ++ (nat_to_string l.label_id ++ (codes ":" ++ machine.print_prob l.result_prob)))

unfoldable pub collect_sgie_labels : Machine → List (List LabelInfo) → List Text
collect_sgie_labels machine [] = []
collect_sgie_labels machine (c ∷ cs) = map (label_text machine) c ++ collect_sgie_labels machine cs

-- The object without its parent.
unfoldable pub object_of : Machine → Handler → Text → Text → ObjectMeta → FrameEventObject
object_of machine h source_name frame_key o = record {
  object_key = make_object_key h.pipeline_id source_name o.object_id;
  instance_key = frame_key ++ (codes ":" ++ nat_to_string o.object_id);
  crop_ref = [];
  object_id = o.object_id;
  tracker_id = o.object_id;
  class_id = o.class_id;
  object_type = or_blank o.obj_label;
  confidence = o.confidence;
  labels = collect_sgie_labels machine o.classifiers;
  label_signature = [];
  left = o.left;
  top = o.top;
  width = o.width;
  height = o.height;
  parent_object_key = [];
  parent_instance_key = [];
  parent_object_id = negsuc 0;
}

unfoldable pub with_parent : Handler → Text → Text → Option ℕ → FrameEventObject → FrameEventObject
with_parent h source_name frame_key none o = o
with_parent h source_name frame_key (some parent) o =
    if parent == untracked_object_id then o else record o {
      parent_object_id = int64_of_u64 parent;
      parent_object_key = make_object_key h.pipeline_id source_name parent;
      parent_instance_key = frame_key ++ (codes ":" ++ nat_to_string parent);
    }

unfoldable pub is_collected : Handler → ObjectMeta → Bool
is_collected h o =
    not (o.object_id == untracked_object_id)
    && (is_empty h.label_filter || contains (or_blank o.obj_label) h.label_filter)

unfoldable pub collect_frame_objects :
    Machine → Handler → Text → Text → List ObjectMeta → List FrameEventObject
collect_frame_objects machine h source_name frame_key [] = []
collect_frame_objects machine h source_name frame_key (o ∷ os) =
    let rest = collect_frame_objects machine h source_name frame_key os in
    if is_collected h o
    then with_parent h source_name frame_key o.parent (object_of machine h source_name frame_key o)
      ∷ rest
    else rest

unfoldable pub name_or : Option Text → ℤ → Text
name_or none source_id = codes "source_" ++ int_to_string source_id
name_or (some []) source_id = codes "source_" ++ int_to_string source_id
name_or (some (c ∷ cs)) source_id = c ∷ cs

unfoldable pub resolve_source_name : Handler → ℤ → Text
resolve_source_name h source_id =
    let name = lookup_runtime_source_name h.source_root source_id in
    if not (is_empty name) then name else name_or (find source_id h.source_id_to_name) source_id

unfoldable pub to_snapshot : FrameEventObject → ObjectSnapshot
to_snapshot o = record {
  object_key = o.object_key;
  instance_key = o.instance_key;
  crop_ref = o.crop_ref;
  object_id = o.object_id;
  tracker_id = o.tracker_id;
  class_id = o.class_id;
  object_type = o.object_type;
  confidence = o.confidence;
  left = o.left;
  top = o.top;
  width = o.width;
  height = o.height;
  parent_object_key = o.parent_object_key;
  parent_instance_key = o.parent_instance_key;
  parent_object_id = o.parent_object_id;
}

abbrev pub size_in : Machine → Option BatchSurface → ℕ → ℤ × ℤ
size_in machine none batch_id = (pos 0, pos 0)
size_in machine (some b) batch_id =
    if ltb_ℤ (pos batch_id) b.num_filled then machine.surface_size batch_id else (pos 0, pos 0)
