-- ===== src/Sources/Slots.antt =====
-- pipeline/src/runtime_stream_manager.cpp: the state of the manager, its fixed slots and the
-- indexes that it hands out. `free_source_indexes` is the vector read from its back, so that
-- `back`, `pop_back` and `push_back` are at the head. A GStreamer object is a handle, a null
-- pointer is `none`; uint32_t and int arithmetic is written with its width.
pub mod Indexes
use vms_engine.Common.Map.{Map, find, insert}
use vms_engine.Common.{
  ℕ, ◌+◌, ◌-◌, ◌%◌, ◌^◌, Bool, true, false, ◌||◌, ◌&&◌, not, Option, none, some, List, [], ◌∷◌,
  ◌++◌, Text, u32, codes, nat_eq, text_eq, ltb, leb, if◌then◌else◌, ℤ, pos, negsuc, pos_part,
  neg_part, ltb_ℤ, nat_to_string,
}
use vms_engine.Sources.Registry.{Root}

pub record Camera : Type 0 where
  pub id : Text
  pub uri : Text

-- The fields of `SourcesConfig` that the manager reads.
pub record SourcesConfig : Type 0 where
  pub latency : ℤ
  pub max_batch_size : ℤ
  pub mux_batch_size : ℤ
  pub mux_max_sources : ℤ
  pub cameras : List Camera

-- The active pad of a slot's selector.
pub data Pad : Type 0 where
  no_pad placeholder_pad live_pad : Pad

-- A pointer field is kept as the Boolean that it is not null.
pub record FixedSlot : Type 0 where
  pub slot_bin : Bool
  pub selector : Bool
  pub placeholder_sink_pad : Bool
  pub live_sink_pad : Bool
  pub active_pad : Pad

pub record StreamSlot : Type 0 where
  pub source_index : ℕ
  pub camera_id : Text
  pub camera_uri : Text
  pub is_seeded : Bool
  pub state : Text
  pub source : Option ℕ
  pub source_src_pad : Option ℕ
  pub buffer_probe_id : ℕ
  pub last_buffer_time_us : ℤ
  pub using_placeholder : Bool

-- `root` is the source root with its name registry, and `children` are the elements in it.
pub record Manager : Type 0 where
  pub root : Option Root
  pub muxer : Bool
  pub config : SourcesConfig
  pub fixed_slots : Map ℕ FixedSlot
  pub streams : Map Text StreamSlot
  pub free_source_indexes : List ℕ
  pub next_source_index : ℕ
  pub children : List ℕ

-- std::max(1, n), as an unsigned value.
abbrev pub at_least_one : ℤ → ℕ
at_least_one n = if ltb_ℤ (pos 1) n then pos_part n else 1

unfoldable pub max_slots_from_config : SourcesConfig → ℕ
max_slots_from_config c =
    if ltb_ℤ (pos 0) c.mux_max_sources
    then pos_part c.mux_max_sources
    else if ltb_ℤ (pos 0) c.mux_batch_size
    then pos_part c.mux_batch_size
    else at_least_one c.max_batch_size

-- The limit that `add_stream_detailed` tests.
unfoldable pub max_active : SourcesConfig → ℤ
max_active c = if ltb_ℤ (pos 0) c.mux_max_sources then c.mux_max_sources else c.max_batch_size

unfoldable pub make_slot_bin_name : ℕ → Text
make_slot_bin_name source_index = codes "source_slot_" ++ nat_to_string source_index

-- std::sort with std::greater on the vector, read from its back.
unfoldable pub insert_sorted : ℕ → List ℕ → List ℕ
insert_sorted i [] = i ∷ []
insert_sorted i (j ∷ js) = if leb i j then i ∷ j ∷ js else j ∷ insert_sorted i js

unfoldable pub sort : List ℕ → List ℕ
sort [] = []
sort (i ∷ is) = insert_sorted i (sort is)

unfoldable pub allocate_next : Manager → List ℕ → ℕ × Manager
allocate_next m [] =
    (m.next_source_index, record m { next_source_index = (m.next_source_index + 1) % u32 })
allocate_next m (i ∷ is) = (i, record m { free_source_indexes = is })

unfoldable pub allocate_source_index : Manager → ℕ × Manager
allocate_source_index m = allocate_next m m.free_source_indexes

unfoldable pub release_source_index : Manager → ℕ → Manager
release_source_index m i = record m { free_source_indexes = sort (i ∷ m.free_source_indexes) }

-- g_object_set(selector, "active-pad", ...) on the slot of an index.
abbrev pub set_active_pad : Manager → ℕ → FixedSlot → Pad → Manager
set_active_pad m i slot pad = record m {
  fixed_slots = insert i (record slot { active_pad = pad }) m.fixed_slots;
}

abbrev pub switch_if : Manager → ℕ → FixedSlot → Bool → Pad → Bool × Manager
switch_if m i slot possible pad =
    if possible then (true, set_active_pad m i slot pad) else (false, m)

unfoldable pub switch_slot_to_live : Manager → ℕ → Bool × Manager
switch_slot_to_live m i = elim (find i m.fixed_slots) [
  | none ↦ (false, m)
  | some slot ↦ switch_if m i slot (slot.selector && slot.live_sink_pad) live_pad
]

unfoldable pub switch_slot_to_placeholder : Manager → ℕ → Bool × Manager
switch_slot_to_placeholder m i = elim (find i m.fixed_slots) [
  | none ↦ (false, m)
  | some slot ↦ switch_if m i slot (slot.selector && slot.placeholder_sink_pad) placeholder_pad
]

unfoldable pub switch_slot_to_idle : Manager → ℕ → Bool × Manager
switch_slot_to_idle m i = elim (find i m.fixed_slots) [
  | none ↦ (false, m)
  | some slot ↦ switch_if m i slot slot.selector no_pad
]

-- `ensure_fixed_slots` asks for each index whether its slot is there or could be made, and with
-- which active pad. `todo` indexes are left from `source_index` on.
unfoldable pub ensure_slot : (ℕ → Option Pad) → Map ℕ FixedSlot → ℕ → Option (Map ℕ FixedSlot)
ensure_slot prepare slots i = elim (find i slots) [
  | some slot ↦ some slots
  | none ↦ elim (prepare i) [
    | none ↦ none
    | some pad ↦ some (
        insert i
          (record {
            slot_bin = true;
            selector = true;
            placeholder_sink_pad = true;
            live_sink_pad = true;
            active_pad = pad;
          })
          slots)
  ]
]

unfoldable pub ensure_from : (ℕ → Option Pad) → ℕ → ℕ → Map ℕ FixedSlot → Bool × Map ℕ FixedSlot
ensure_from prepare ℕ.zero i slots = (true, slots)
ensure_from prepare (ℕ.suc todo) i slots = elim (ensure_slot prepare slots i) [
  | none ↦ (false, slots)
  | some slots' ↦ ensure_from prepare todo (i + 1) slots'
]

unfoldable pub ensure_fixed_slots : (ℕ → Option Pad) → Manager → Bool × Manager
ensure_fixed_slots prepare m =
    let max_slots = max_slots_from_config m.config in
    let (done, slots) = ensure_from prepare max_slots 0 m.fixed_slots in
    elim m.root [
      | none ↦ (false, m)
      | some root ↦
          if not m.muxer
          then (false, m)
          else if done
          then (true, record m { fixed_slots = slots; next_source_index = max_slots })
          else (false, record m { fixed_slots = slots })
    ]
