-- ===== src/Probes/FrameEvents/Frames/Buffer.antt =====
-- pipeline/src/probes/frame_events_probe_handler.cpp: the callback for a buffer. A batch without
-- metadata, or a buffer that cannot be mapped, has no frames for it.
use vms_engine.Common.{
  ◌+◌, not, ◌||◌, Option, none, some, List, [], ◌∷◌, Text, is_empty, if◌then◌else◌, ℤ, pos, ltb_ℤ,
  int_eq, int_of_u32, map,
}
use vms_engine.Evidence.Cache.{BatchSurface, Cache, Metadata, store_frame}
use vms_engine.Probes.FrameEvents.{FrameEventObject}
use vms_engine.Probes.FrameEvents.Emission.{Decision, should_emit_message}
use vms_engine.Probes.FrameEvents.Frames.{
  FrameMeta, Machine, Handler, Message, make_frame_key, build_overview_ref, build_crop_ref,
  collect_frame_objects, resolve_source_name, to_snapshot, size_in,
}

unfoldable pub capture_meta_of :
    Machine → Handler → Option BatchSurface → FrameMeta → Text → Text → ℤ → Metadata
capture_meta_of machine h batch f source_name frame_key emitted_at_ms =
    let size = size_in machine batch f.batch_id in
    let meta : Metadata = record {
      pipeline_id = h.pipeline_id;
      source_id = int_of_u32 f.source_id;
      source_name = source_name;
      frame_num = f.frame_num;
      frame_ts_ms = emitted_at_ms;
      emitted_at_ms = emitted_at_ms;
      frame_key = frame_key;
      overview_ref = [];
      width = size.0;
      height = size.1;
    } in
    record meta { overview_ref = build_overview_ref meta }

unfoldable pub with_crop_ref : Metadata → FrameEventObject → FrameEventObject
with_crop_ref meta o = record o { crop_ref = build_crop_ref meta o }

-- The frame in the cache, if there is one and the buffer has a surface.
unfoldable pub cache_frame :
    Machine
    → Handler
    → Option BatchSurface
    → FrameMeta
    → Metadata
    → List FrameEventObject
    → Option Cache
    → Handler
cache_frame machine h none f meta objects cache = h
cache_frame machine h (some b) f meta objects none = h
cache_frame machine h (some b) f meta objects (some c) =
    let r =
      store_frame machine.surfaces c meta (map to_snapshot objects) (some b) (int_of_u32 f.batch_id)
        (machine.clock h.reads) in
    record h { cache = some r.0; reads = h.reads + 1 }

abbrev pub positive_or : ℤ → ℤ → ℤ
positive_or a b = if ltb_ℤ (pos 0) a then a else b

unfoldable pub publish_frame_message :
    Handler → Metadata → List Text → List FrameEventObject → Option Message
publish_frame_message h meta emit_reason objects =
    if not h.has_producer || is_empty h.broker_channel
    then none
    else some (record {
      meta = meta;
      emit_reason = emit_reason;
      objects = objects;
      frame_width = positive_or h.source_width meta.width;
      frame_height = positive_or h.source_height meta.height;
    })

-- From the decision on.
unfoldable pub finish_frame :
    Machine
    → Handler
    → Option BatchSurface
    → FrameMeta
    → Metadata
    → Decision
    → Handler × Option Message
finish_frame machine h batch f meta d =
    let objects = map (with_crop_ref meta) d.objects in
    if not d.emits then (h, none) else (
      cache_frame machine h batch f meta objects h.cache,
      publish_frame_message h meta d.reasons objects,
    )

unfoldable pub process_frame :
    Machine → Handler → Option BatchSurface → FrameMeta → Handler × Option Message
process_frame machine h batch f =
    let source_id = int_of_u32 f.source_id in
    let source_name = resolve_source_name h source_id in
    let now = machine.clock h.reads in
    let frame_key = make_frame_key h.pipeline_id source_name f.frame_num now in
    let objects = collect_frame_objects machine h source_name frame_key f.obj_meta_list in
    let r =
      should_emit_message machine.floats machine.iterate h.config h.emit_state source_id objects
        now in
    finish_frame machine (record h { emit_state = r.0; reads = h.reads + 1 }) batch f
      (capture_meta_of machine h batch f source_name frame_key now) r.1

unfoldable pub on_buffer :
    Machine → Handler → Option BatchSurface → List FrameMeta → Handler × List (Option Message)
on_buffer machine h batch [] = (h, [])
on_buffer machine h batch (f ∷ fs) =
    let r = process_frame machine h batch f in
    let rest = on_buffer machine r.0 batch fs in (rest.0, r.1 ∷ rest.1)
