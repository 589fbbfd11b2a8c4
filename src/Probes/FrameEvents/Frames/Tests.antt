-- ===== src/Probes/FrameEvents/Frames/Tests.antt =====
-- A buffer at a concrete frame, and the theorem on it at inputs that meet its hypotheses.
use vms_engine.Common.{
  ℕ, ◌≡◌, refl, true, Option, none, some, List, [], ◌∷◌, nat_eq, Text, codes, text_eq, pos,
  int_of_u32, int64_of_u64,
}
use vms_engine.Evidence.Cache.{
  Cache, BatchSurface, SurfaceApi, copy_item, clone_surface_batch_item, make_source_key, is_expired,
  is_over_limit, prune_loop, put_back, prune_locked, add_entry, store_cloned, store_frame, init,
}
use vms_engine.Evidence.Output.{sanitize_char, sanitize_ref_component}
use vms_engine.Probes.FrameEvents.Votes.{ids_of}
use vms_engine.Probes.FrameEvents.Frames.{
  ObjectMeta, FrameMeta, Machine, Handler, Message, make_object_key, make_frame_key,
  build_overview_ref, build_crop_ref, label_text, collect_sgie_labels, object_of, with_parent,
  is_collected, collect_frame_objects, name_or, resolve_source_name, to_snapshot,
}
use vms_engine.Probes.FrameEvents.Frames.Buffer.{
  capture_meta_of, with_crop_ref, cache_frame, publish_frame_message, finish_frame, process_frame,
  on_buffer,
}
use vms_engine.Sources.Naming.{is_alnum}
use vms_engine.Sources.Registry.{lookup_runtime_source_name}
use vms_engine.Probes.FrameEvents.Tests.{fl, in_order, g, object_with, decision}

-- What a buffer unfolds.
program : Unit {0}
unfolding decision int_of_u32 int64_of_u64 copy_item clone_surface_batch_item make_source_key
    is_expired is_over_limit prune_loop put_back prune_locked add_entry store_cloned store_frame
    init sanitize_char sanitize_ref_component is_alnum make_object_key make_frame_key
    build_overview_ref build_crop_ref label_text collect_sgie_labels object_of with_parent
    is_collected collect_frame_objects name_or resolve_source_name to_snapshot capture_meta_of
    with_crop_ref cache_frame publish_frame_message finish_frame process_frame on_buffer
    lookup_runtime_source_name
program = tt

abbrev working : SurfaceApi
working = record { create = λ b i. some 9; copy = λ b i d. true }

abbrev machine : Machine
machine = record {
  floats = fl;
  iterate = in_order;
  surfaces = working;
  clock = λ n. pos 500;
  print_prob = λ p. codes "0.50";
  surface_size = λ i. (pos 1920, pos 1080);
}

abbrev empty_cache : Cache
empty_cache = init (record {
  cache_on_frame_events = true;
  frame_cache_ttl_ms = pos 1000;
  max_frames_per_source = pos 2;
  max_frame_gap_ms = pos 250;
})

abbrev handler : Handler
handler = record {
  pipeline_id = codes "p";
  broker_channel = codes "events";
  config = g;
  label_filter = codes "car" ∷ [];
  source_id_to_name = [];
  source_root = none;
  source_width = pos 0;
  source_height = pos 0;
  has_producer = true;
  emit_state = [];
  cache = some empty_cache;
  reads = 0;
}

abbrev batch : BatchSurface
batch = record { address = 1; num_filled = pos 1 }

abbrev meta_with : ℕ → Text → ObjectMeta
meta_with id label = record {
  object_id = id;
  class_id = pos 0;
  obj_label = some label;
  confidence = 0;
  classifiers = [];
  left = 0;
  top = 0;
  width = 0;
  height = 0;
  parent = none;
}

abbrev frame : FrameMeta
frame = record {
  source_id = 0;
  frame_num = 1;
  batch_id = 0;
  obj_meta_list = meta_with 7 (codes "car") ∷ meta_with 8 (codes "dog") ∷ [];
}

abbrev message_or : Message → Option Message → Message
message_or m none = m
message_or m (some n) = n

abbrev published_ids : Option Message → List ℕ
published_ids none = []
published_ids (some m) = ids_of m.objects

-- The label filter leaves one of two objects.
filtered : published_ids (process_frame machine handler (some batch) frame).1 ≡ 7 ∷ []
unfolding program
filtered = refl

abbrev message : Message
message = record {
  meta = record {
    pipeline_id = codes "p";
    source_id = pos 0;
    source_name = codes "source_0";
    frame_num = 1;
    frame_ts_ms = pos 500;
    emitted_at_ms = pos 500;
    frame_key = codes "p:source_0:1:500";
    overview_ref = codes "p_source_0_1_500_overview.jpg";
    width = pos 1920;
    height = pos 1080;
  };
  emit_reason = codes "first_frame" ∷ codes "object_set_change" ∷ [];
  objects =
      record (object_with 7 []) {
        object_key = codes "p:source_0:7";
        instance_key = codes "p:source_0:1:500:7";
        crop_ref = codes "p_source_0_1_500_crop_7.jpg";
      }
      ∷ [];
  frame_width = pos 1920;
  frame_height = pos 1080;
}
