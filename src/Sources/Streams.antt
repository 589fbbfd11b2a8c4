-- ===== src/Sources/Streams.antt =====
-- pipeline/src/runtime_stream_manager.cpp: adding, removing and counting streams at run time. Each
-- call holds the mutex, so it is one step. What GStreamer and the source builder answer during a
-- call is an argument; waiting for a state only writes to the log. The fields of a result that
-- these calls leave at their defaults (dot file, warning, list of sources) are left out.
pub mod Invariant
pub mod Preservation
pub mod Atomic
pub mod Undo
pub mod Limits
pub mod Tests
use vms_engine.Common.Map.{Map, find, insert, erase}
use vms_engine.Common.{
  ℕ, zero, Bool, true, false, ◌||◌, ◌&&◌, not, Option, none, some, List, [], ◌∷◌, ◌++◌, Text, codes,
  nat_eq, int_of_u32, text_eq, ◌==◌, ltb, leb, if◌then◌else◌, ℤ, pos, negsuc, leb_ℤ, length,
  is_empty, contains,
}
use vms_engine.Sources.Registry.{register_runtime_source_name, unregister_runtime_source_name}
use vms_engine.Sources.Slots.{
  Camera, SourcesConfig, Pad, FixedSlot, StreamSlot, Manager, max_active, allocate_source_index,
  release_source_index, switch_slot_to_placeholder,
}

pub data ErrorCode : Type 0 where
  no_error invalid_request duplicate_camera_id camera_not_found max_sources_reached : ErrorCode
  build_source_failed link_source_failed internal_error : ErrorCode

pub record SourceInfo : Type 0 where
  pub camera_id : Text
  pub uri : Text
  pub source_index : ℕ
  pub is_seeded : Bool
  pub state : Text

pub record MutationResult : Type 0 where
  pub success : Bool
  pub http_status : ℕ
  pub error_code : ErrorCode
  pub camera_id : Text
  pub message : Text
  pub source_index : ℤ
  pub active_source_count : ℤ
  pub source : Option SourceInfo

unfoldable pub make_result : Bool → ℕ → ErrorCode → Text → Text → MutationResult
make_result success http_status error_code camera_id message = record {
  success = success;
  http_status = http_status;
  error_code = error_code;
  camera_id = camera_id;
  message = message;
  source_index = negsuc 0;
  active_source_count = pos 0;
  source = none;
}

-- What one `add_stream_detailed` is answered: the source bin that the builder made and put into
-- the source root, whether it linked, whether the root has a parent and the source followed its
-- state, the source's static pad, the id of the probe on it, and the time.
pub record AddAnswers : Type 0 where
  pub built : Option ℕ
  pub linked : Bool
  pub root_has_parent : Bool
  pub synced : Bool
  pub src_pad : Option ℕ
  pub probe_id : ℕ
  pub now : ℤ

unfoldable pub attach_probe_to : Option ℕ → ℕ → StreamSlot → StreamSlot
attach_probe_to none probe_id slot = slot
attach_probe_to (some pad) zero slot = slot
attach_probe_to (some pad) probe_id slot = record slot {
  source_src_pad = some pad;
  buffer_probe_id = probe_id;
}

abbrev pub is_null : Option ℕ → Bool
is_null none = true
is_null (some x) = false

unfoldable pub attach_stream_probe : Option ℕ → ℕ → StreamSlot → StreamSlot
attach_stream_probe src_pad probe_id slot =
    if is_null slot.source
      || (not (is_null slot.source_src_pad) || not (slot.buffer_probe_id == zero))
    then slot
    else attach_probe_to src_pad probe_id slot

-- gst_bin_remove, for an element that is in the bin.
unfoldable pub remove_child : ℕ → List ℕ → List ℕ
remove_child x [] = []
remove_child x (y ∷ ys) = if y == x then ys else y ∷ remove_child x ys

-- The lambda `cleanup_failed_add`.
unfoldable pub cleanup_failed_add :
    Manager → ℕ → ℕ → Text → ErrorCode → Text → Manager × MutationResult
cleanup_failed_add m source i camera_id error_code message = (
  release_source_index
      (record m {
        children =
            if contains source m.children then remove_child source m.children else m.children;
      })
      i,
  make_result false 500 error_code camera_id message,
)

abbrev pub new_slot : Camera → ℕ → ℕ → AddAnswers → StreamSlot
new_slot camera source i a = record {
  source_index = i;
  camera_id = camera.id;
  camera_uri = camera.uri;
  is_seeded = false;
  state = codes "warming_up";
  source = some source;
  source_src_pad = none;
  buffer_probe_id = 0;
  last_buffer_time_us = a.now;
  using_placeholder = true;
}

unfoldable pub added_result : Camera → ℕ → ℕ → MutationResult
added_result camera i count =
    record (make_result true 201 no_error camera.id (codes "camera added")) {
      source_index = int_of_u32 i;
      active_source_count = pos count;
      source = some (record {
        camera_id = camera.id;
        uri = camera.uri;
        source_index = i;
        is_seeded = false;
        state = codes "active";
      });
    }

-- From the switch to the placeholder on.
unfoldable pub add_switched :
    Camera → AddAnswers → ℕ → ℕ → Bool × Manager → Manager × MutationResult
add_switched camera a source i (switched, m) =
    let streams' =
      insert camera.id (attach_stream_probe a.src_pad a.probe_id (new_slot camera source i a))
        m.streams in
    if not switched
    then cleanup_failed_add m source i camera.id internal_error
        (codes "failed to activate placeholder source slot")
    else (
      record m {
        streams = streams';
        root = register_runtime_source_name m.root (int_of_u32 i) camera.id;
      },
      added_result camera i (length streams'),
    )

-- From the link on, with the built source in the root.
unfoldable pub add_linked : Manager → Camera → AddAnswers → ℕ → ℕ → Manager × MutationResult
add_linked m camera a source i =
    if not a.linked
    then cleanup_failed_add m source i camera.id link_source_failed
        (codes "failed to link source bin into fixed slot")
    else if a.root_has_parent && not a.synced
    then cleanup_failed_add m source i camera.id build_source_failed
        (codes "failed to sync source with parent state")
    else add_switched camera a source i (switch_slot_to_placeholder m i)

unfoldable pub add_built : Manager → Camera → AddAnswers → ℕ → Option ℕ → Manager × MutationResult
add_built m camera a i none = (
  release_source_index m i,
  make_result false 500 build_source_failed camera.id (codes "failed to build source bin"),
)
add_built m camera a i (some source) =
    add_linked (record m { children = source ∷ m.children }) camera a source i

abbrev pub no_slot : Option FixedSlot → Bool
no_slot none = true
no_slot (some slot) = not slot.slot_bin

unfoldable pub add_allocated : Camera → AddAnswers → ℕ × Manager → Manager × MutationResult
add_allocated camera a (i, m) =
    if no_slot (find i m.fixed_slots)
    then (
      release_source_index m i,
      make_result false 500 internal_error camera.id (codes "fixed source slot is unavailable"),
    )
    else add_built m camera a i a.built

abbrev pub is_some {ℓ} : {A : Type ℓ} → Option A → Bool
is_some none = false
is_some (some x) = true

unfoldable pub add_stream_detailed : Manager → Camera → AddAnswers → Manager × MutationResult
add_stream_detailed m camera a =
    if is_empty camera.id || is_empty camera.uri
    then (
      m,
      make_result false 400 invalid_request camera.id (codes "camera id and uri are required"),
    )
    else if not (is_some m.root) || not m.muxer
    then (
      m,
      make_result false 500 internal_error camera.id
          (codes "runtime stream manager is unavailable"),
    )
    else if is_some (find camera.id m.streams)
    then (m, make_result false 409 duplicate_camera_id camera.id (codes "camera id already exists"))
    else if leb_ℤ (max_active m.config) (pos (length m.streams))
    then (
      m,
      make_result false 507 max_sources_reached camera.id (codes "maximum active sources reached"),
    )
    else add_allocated camera a (allocate_source_index m)

unfoldable pub info_of : StreamSlot → SourceInfo
info_of slot = record {
  camera_id = slot.camera_id;
  uri = slot.camera_uri;
  source_index = slot.source_index;
  is_seeded = slot.is_seeded;
  state = slot.state;
}

abbrev pub without_source : Option ℕ → List ℕ → List ℕ
without_source none children = children
without_source (some source) children = remove_child source children

-- From the switch to the placeholder on, whatever that answered.
unfoldable pub remove_switched : StreamSlot → Text → Manager → Manager × MutationResult
remove_switched slot camera_id m =
    let streams' = erase camera_id m.streams in
    let m' =
      release_source_index
        (record m {
          children = without_source slot.source m.children;
          root = unregister_runtime_source_name m.root (int_of_u32 slot.source_index);
        })
        slot.source_index in
    (
      record m' { streams = streams' },
      record (make_result true 200 no_error camera_id (codes "camera removed")) {
        source_index = int_of_u32 slot.source_index;
        active_source_count = pos (length streams');
        source = some (info_of slot);
      },
    )

unfoldable pub remove_found : Manager → Text → Option StreamSlot → Manager × MutationResult
remove_found m camera_id none =
    (m, make_result false 404 camera_not_found camera_id (codes "camera id is not active"))
remove_found m camera_id (some slot) =
    if not (is_some (find slot.source_index m.fixed_slots))
    then (
      m,
      make_result false 500 internal_error camera_id (codes "fixed source slot is unavailable"),
    )
    else remove_switched slot camera_id (switch_slot_to_placeholder m slot.source_index).1

unfoldable pub remove_stream_detailed : Manager → Text → Manager × MutationResult
remove_stream_detailed m camera_id =
    if not (is_some m.root) || not m.muxer
    then (
      m,
      make_result false 500 internal_error camera_id
          (codes "runtime stream manager is unavailable"),
    )
    else remove_found m camera_id (find camera_id m.streams)

unfoldable pub get_active_stream_count : Manager → ℤ
get_active_stream_count m = pos (length m.streams)
