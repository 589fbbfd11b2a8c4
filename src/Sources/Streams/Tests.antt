-- ===== src/Sources/Streams/Tests.antt =====
-- Runs of the manager with two slots, and the theorems at inputs that meet their hypotheses.
use vms_engine.Common.Map.{find, insert, erase}
use vms_engine.Common.{
  int_of_u32, ℕ, ◌<◌, ◌≡◌, refl, true, false, some, none, [], ◌∷◌, codes, arith, pos, nat_eq,
  text_eq, text_beq, In,
}
use vms_engine.Sources.Slots.{
  Camera, SourcesConfig, FixedSlot, Manager, no_pad, sort, insert_sorted, max_active,
  max_slots_from_config, allocate_next, allocate_source_index, release_source_index,
  switch_slot_to_placeholder,
}
use vms_engine.Sources.Registry.{
  get_or_create_registry, register_runtime_source_name, unregister_runtime_source_name,
}
use vms_engine.Sources.Streams.{
  AddAnswers, attach_probe_to, attach_stream_probe, remove_child, cleanup_failed_add, added_result,
  add_switched, add_linked, add_built, add_allocated, add_stream_detailed, info_of, remove_switched,
  remove_found, remove_stream_detailed, make_result,
}
use vms_engine.Sources.Streams.Preservation.{
  IsWellManaged, LimitFits, add_stream_detailed-IsWell, remove_stream_detailed-IsWell,
}
use vms_engine.Sources.Streams.Atomic.{add_stream_detailed_atomic}
use vms_engine.Sources.Streams.Undo.{Undone, remove-add_stream_detailed}
use vms_engine.Sources.Streams.Limits.{past_slots, no_slot_result, add_stream_detailed_overrun}

-- What a run of the manager unfolds.
program : Unit {0}
unfolding find insert erase text_beq sort insert_sorted int_of_u32 max_active max_slots_from_config
    allocate_next allocate_source_index release_source_index switch_slot_to_placeholder
    get_or_create_registry register_runtime_source_name unregister_runtime_source_name
    attach_probe_to attach_stream_probe remove_child cleanup_failed_add added_result add_switched
    add_linked add_built add_allocated add_stream_detailed info_of remove_switched remove_found
    remove_stream_detailed make_result
program = tt

abbrev two_sources : SourcesConfig
two_sources = record {
  latency = pos 200;
  max_batch_size = pos 8;
  mux_batch_size = pos 4;
  mux_max_sources = pos 2;
  cameras = [];
}

abbrev ready_slot : FixedSlot
ready_slot = record {
  slot_bin = true;
  selector = true;
  placeholder_sink_pad = true;
  live_sink_pad = true;
  active_pad = no_pad;
}

-- No stream yet: both slots are free.
abbrev idle_manager : Manager
idle_manager = record {
  root = some none;
  muxer = true;
  config = two_sources;
  fixed_slots = (0, ready_slot) ∷ (1, ready_slot) ∷ [];
  streams = [];
  free_source_indexes = 0 ∷ 1 ∷ [];
  next_source_index = 2;
  children = [];
}

abbrev gate : Camera
gate = record { id = codes "gate"; uri = codes "rtsp://gate" }

abbrev all_well : AddAnswers
all_well = record {
  built = some 40;
  linked = true;
  root_has_parent = true;
  synced = true;
  src_pad = some 41;
  probe_id = 42;
  now = pos 1000;
}

abbrev not_linked : AddAnswers
not_linked = record all_well { linked = false }

idle_manager-free : (i : ℕ) → In i (0 ∷ 1 ∷ []) → i < 2
idle_manager-free i h = ground arith

idle_manager-ready :
    (i : ℕ) → i < 2 → find i ((0, ready_slot) ∷ (1, ready_slot) ∷ []) ≡ some ready_slot
unfolding find
idle_manager-ready i h = ground arith

idle_manager-IsWell : IsWellManaged idle_manager
unfolding find max_slots_from_config
idle_manager-IsWell = record {
  sorted = ground arith;
  free_range = idle_manager-free;
  used_range = λ k s h. absurd (cc);
  used_once = λ k s h. absurd (cc);
  named = λ k s h. absurd (cc);
  apart = λ j k s t h. absurd (cc);
  ready = λ i h. (ready_slot, idle_manager-ready i h, (refl, refl, refl, refl));
  shown = λ k s slot h. absurd (cc);
  distinct = tt;
  count = refl;
}

two_sources_fit : LimitFits two_sources
unfolding max_active max_slots_from_config
two_sources_fit = ground arith

abbrev pub gate_added : Manager
gate_added = (add_stream_detailed idle_manager gate all_well).0

-- The first addition gets index 0.
first_index : (add_stream_detailed idle_manager gate all_well).1.source_index ≡ pos 0
unfolding program
first_index = refl

-- The camera that is there already is refused.
duplicate_refused : (add_stream_detailed gate_added gate all_well).1.http_status ≡ 409
unfolding program
duplicate_refused = refl

pub gate_added-IsWell : IsWellManaged gate_added
gate_added-IsWell =
    add_stream_detailed-IsWell idle_manager gate all_well two_sources_fit idle_manager-IsWell

add_stream_detailed-IsWell_example : IsWellManaged gate_added
add_stream_detailed-IsWell_example =
    add_stream_detailed-IsWell idle_manager gate all_well two_sources_fit idle_manager-IsWell

remove_stream_detailed-IsWell_example :
    IsWellManaged (remove_stream_detailed gate_added (codes "gate")).0
remove_stream_detailed-IsWell_example =
    remove_stream_detailed-IsWell gate_added (codes "gate") gate_added-IsWell

add_stream_detailed_atomic_example :
    (add_stream_detailed idle_manager gate not_linked).0 ≡ idle_manager
unfolding program
add_stream_detailed_atomic_example =
    add_stream_detailed_atomic idle_manager gate not_linked two_sources_fit idle_manager-IsWell refl

remove-add_stream_detailed_example : Undone idle_manager (codes "gate") gate_added
unfolding program
remove-add_stream_detailed_example =
    remove-add_stream_detailed idle_manager gate all_well two_sources_fit idle_manager-IsWell refl

abbrev yard : Camera
yard = record { id = codes "yard"; uri = codes "rtsp://yard" }

abbrev lane : Camera
lane = record { id = codes "lane"; uri = codes "rtsp://lane" }

-- Two slots by the batch size, but a limit of eight sources.
abbrev wide_limit : SourcesConfig
wide_limit = record two_sources { mux_max_sources = pos 0; mux_batch_size = pos 2 }

abbrev full_manager : Manager
full_manager =
    record (add_stream_detailed gate_added yard (record all_well { built = some 50 })).0 {
      config = wide_limit;
    }

full_manager-IsWell : IsWellManaged full_manager
unfolding program
full_manager-IsWell =
    add_stream_detailed-IsWell gate_added yard (record all_well { built = some 50 }) two_sources_fit
      gate_added-IsWell

add_stream_detailed_overrun_example :
    add_stream_detailed full_manager lane all_well ≡ (past_slots full_manager, no_slot_result lane)
unfolding program
add_stream_detailed_overrun_example =
    add_stream_detailed_overrun full_manager lane all_well full_manager-IsWell (λ e. cc) (λ e. cc)
      refl refl refl refl refl refl
