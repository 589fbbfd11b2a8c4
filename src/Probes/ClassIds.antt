-- ===== src/Probes/ClassIds.antt =====
-- pipeline/src/probes/class_id_namespace_handler.cpp: class ids of different inference elements
-- are moved apart before the tracker and moved back behind it. A buffer is the list of its
-- frames, each the list of its objects, or `none` where it has no batch metadata.
pub mod Restore
pub mod Namespaces
mod Tests
use vms_engine.Common.Map.{Map, find}
use vms_engine.Common.{
  Bool, true, false, ◌&&◌, Option, none, some, List, [], ◌∷◌, map, ℤ, pos, ◌+ℤ◌, ◌-ℤ◌, leb_ℤ, ltb_ℤ,
  int_eq, ◌==◌, if◌then◌else◌, to_int, mul_int,
}

-- The fields of NvDsObjectMeta that the handler reads or writes.
pub record ObjectMeta : Type 0 where
  pub class_id : ℤ
  pub unique_component_id : ℤ
  pub misc_0 : ℤ
  pub misc_1 : ℤ
  pub misc_2 : ℤ

pub data Mode : Type 0 where
  offset_mode restore_mode : Mode

pub record ClassIdNamespaceHandler : Type 0 where
  pub mode : Mode
  pub base_no_offset : ℤ
  pub offset_step : ℤ
  pub explicit_offsets : Map ℤ ℤ

abbrev pub magic_marker : ℤ
magic_marker = pos 1280201793

-- As the class initialises its members.
abbrev pub new_handler : ClassIdNamespaceHandler
new_handler = record {
  mode = offset_mode;
  base_no_offset = pos 1;
  offset_step = pos 1000;
  explicit_offsets = [];
}

unfoldable pub configure : ClassIdNamespaceHandler → Mode → ℤ → ℤ → ClassIdNamespaceHandler
configure h mode base_no_offset offset_step = record h {
  mode = mode;
  base_no_offset = base_no_offset;
  offset_step = offset_step;
}

unfoldable pub set_explicit_offsets : ClassIdNamespaceHandler → Map ℤ ℤ → ClassIdNamespaceHandler
set_explicit_offsets h offsets = record h { explicit_offsets = offsets }

-- The override, or else the formula.
unfoldable pub offset_or : ClassIdNamespaceHandler → ℤ → Option ℤ → ℤ
offset_or h gie_unique_id (some offset) = offset
offset_or h gie_unique_id none =
    if leb_ℤ gie_unique_id h.base_no_offset
    then pos 0
    else mul_int (to_int (gie_unique_id -ℤ h.base_no_offset)) h.offset_step

unfoldable pub compute_offset : ClassIdNamespaceHandler → ℤ → ℤ
compute_offset h gie_unique_id = offset_or h gie_unique_id (find gie_unique_id h.explicit_offsets)

abbrev pub mark : ObjectMeta → ObjectMeta
mark o = record o { misc_0 = magic_marker; misc_1 = o.class_id; misc_2 = o.unique_component_id }

-- The body of the loop of `process_offset`.
unfoldable pub offset_object : ClassIdNamespaceHandler → ObjectMeta → ObjectMeta
offset_object h o =
    let offset = compute_offset h o.unique_component_id in
    if o.misc_0 == magic_marker
    then o
    else if ltb_ℤ (pos 0) offset
    then record (mark o) { class_id = to_int (offset +ℤ o.class_id) }
    else mark o

unfoldable pub process_offset :
    ClassIdNamespaceHandler → Option (List (List ObjectMeta)) → Option (List (List ObjectMeta))
process_offset h none = none
process_offset h (some frames) = some (map (map (offset_object h)) frames)

-- The body of the loop of `process_restore`.
unfoldable pub restore_object : ClassIdNamespaceHandler → ObjectMeta → ObjectMeta
restore_object h o =
    let offset = compute_offset h o.unique_component_id in
    if o.misc_0 == magic_marker
    then record {
      class_id = to_int o.misc_1;
      unique_component_id = to_int o.misc_2;
      misc_0 = pos 0;
      misc_1 = pos 0;
      misc_2 = pos 0;
    }
    else if ltb_ℤ (pos 0) offset && leb_ℤ offset o.class_id
    then record o { class_id = to_int (o.class_id -ℤ offset) }
    else o

unfoldable pub process_restore :
    ClassIdNamespaceHandler → Option (List (List ObjectMeta)) → Option (List (List ObjectMeta))
process_restore h none = none
process_restore h (some frames) = some (map (map (restore_object h)) frames)

-- The buffer of the probe after the callback, `none` where there is no buffer.
unfoldable pub on_buffer :
    ClassIdNamespaceHandler
    → Option (Option (List (List ObjectMeta)))
    → Option (Option (List (List ObjectMeta)))
on_buffer h none = none
on_buffer h (some buf) = elim h.mode [
  | offset_mode ↦ some (process_offset h buf)
  | restore_mode ↦ some (process_restore h buf)
]
