-- ===== src/Evidence/Cache.antt =====
-- pipeline/src/evidence/frame_evidence_cache.cpp and its header: the bounded per-source cache of
-- emitted frames from which evidence requests are answered. The clock's value is an argument, the
-- mutex makes each call one step, and NvBufSurface is reached through `SurfaceApi`. A float is
-- carried as its bit pattern. The reference counts of the shared entries are not modelled.
pub mod Prune
pub mod Owned
pub mod Nearest
pub mod Resolve
pub mod Fresh
pub mod Store
pub mod Tests
use vms_engine.Common.Map.{Map, find, erase, insert}
use vms_engine.Common.{
  ℕ, Bool, true, false, not, ◌&&◌, ◌||◌, Option, none, some, List, [], ◌∷◌, ◌++◌, Text, codes,
  text_eq, int_eq, nat_eq, ◌==◌, length, is_empty, ltb, if◌then◌else◌, ℤ, pos, pos_part, ltb_ℤ,
  leb_ℤ, ◌-ℤ◌, ◌+ℤ◌, llabs, to_int64, int_to_string,
}

-- The fields of `EvidenceConfig` that the cache reads.
pub record EvidenceConfig : Type 0 where
  pub cache_on_frame_events : Bool
  pub frame_cache_ttl_ms : ℤ
  pub max_frames_per_source : ℤ
  pub max_frame_gap_ms : ℤ

pub record ObjectSnapshot : Type 0 where
  pub object_key : Text
  pub instance_key : Text
  pub crop_ref : Text
  pub object_id : ℕ
  pub tracker_id : ℕ
  pub class_id : ℤ
  pub object_type : Text
  pub confidence : ℕ
  pub left : ℕ
  pub top : ℕ
  pub width : ℕ
  pub height : ℕ
  pub parent_object_key : Text
  pub parent_instance_key : Text
  pub parent_object_id : ℤ

pub record Metadata : Type 0 where
  pub pipeline_id : Text
  pub source_id : ℤ
  pub source_name : Text
  pub frame_num : ℕ
  pub frame_ts_ms : ℤ
  pub emitted_at_ms : ℤ
  pub frame_key : Text
  pub overview_ref : Text
  pub width : ℤ
  pub height : ℤ

pub record Entry : Type 0 where
  pub meta : Metadata
  pub objects : List ObjectSnapshot
  pub surface : ℕ
  pub cached_at_ms : ℤ

pub record Cache : Type 0 where
  pub config : EvidenceConfig
  pub entries : Map Text Entry
  pub source_entries : Map Text (List Text)

-- The batched surface of a buffer, as far as the clone reads it, and the calls that copy one item.
pub record BatchSurface : Type 0 where
  pub address : ℕ
  pub num_filled : ℤ

-- `create` answers the new surface, or nothing if NvBufSurfaceCreate fails or gives a null one.
pub record SurfaceApi : Type 0 where
  pub create : BatchSurface → ℤ → Option ℕ
  pub copy : BatchSurface → ℤ → ℕ → Bool

unfoldable pub copy_item : SurfaceApi → BatchSurface → ℤ → Option ℕ → Option ℕ
copy_item api b i none = none
copy_item api b i (some destination) = if api.copy b i destination then some destination else none

-- `none` is the return value false, and a null batch surface is `none`.
unfoldable pub clone_surface_batch_item : SurfaceApi → Option BatchSurface → ℤ → Option ℕ
clone_surface_batch_item api none i = none
clone_surface_batch_item api (some b) i =
    if ltb_ℤ i (pos 0) || leb_ℤ b.num_filled i then none else copy_item api b i (api.create b i)

unfoldable pub make_source_key : Text → Text → ℤ → Text
make_source_key pipeline_id source_name source_id =
    pipeline_id ++ (codes "|" ++ (source_name ++ (codes "|" ++ int_to_string source_id)))

unfoldable pub route_matches : Entry → Text → Text → ℤ → Bool
route_matches e pipeline_id source_name source_id =
    e.meta.pipeline_id == pipeline_id
    && (e.meta.source_name == source_name && e.meta.source_id == source_id)

unfoldable pub is_expired : EvidenceConfig → ℤ → Entry → Bool
is_expired g now e = ltb_ℤ g.frame_cache_ttl_ms (now -ℤ e.cached_at_ms)

unfoldable pub is_over_limit : EvidenceConfig → List Text → Bool
is_over_limit g keys =
    ltb_ℤ (pos 0) g.max_frames_per_source && ltb (pos_part g.max_frames_per_source) (length keys)

-- The loop of `prune_locked` on the two things that it changes.
unfoldable pub prune_loop :
    EvidenceConfig → ℤ → Map Text Entry → List Text → Map Text Entry × List Text
prune_loop g now entries [] = (entries, [])
prune_loop g now entries (k ∷ ks) = elim (find k entries) [
  | none ↦ prune_loop g now entries ks
  | some e ↦ elim (is_expired g now e || is_over_limit g (k ∷ ks)) [
    | true ↦ prune_loop g now (erase k entries) ks
    | false ↦ (entries, k ∷ ks)
  ]
]

-- What `prune_locked` leaves behind: an emptied deque goes from the map.
unfoldable pub put_back : Cache → Text → Map Text Entry × List Text → Cache
put_back c s r = record c {
  entries = r.0;
  source_entries = if is_empty r.1 then erase s c.source_entries else insert s r.1 c.source_entries;
}

unfoldable pub prune_locked : Cache → Text → ℤ → Cache
prune_locked c s now = elim (find s c.source_entries) [
  | none ↦ c
  | some keys ↦ put_back c s (prune_loop c.config now c.entries keys)
]

abbrev pub or_empty : Option (List Text) → List Text
or_empty none = []
or_empty (some keys) = keys

-- Both maps with the new frame, before the pruning.
unfoldable pub add_entry : Cache → Text → Entry → Cache
add_entry c s e = record c {
  entries = insert e.meta.frame_key e c.entries;
  source_entries =
      insert s (or_empty (find s c.source_entries) ++ e.meta.frame_key ∷ []) c.source_entries;
}

unfoldable pub store_cloned : Cache → Metadata → List ObjectSnapshot → ℤ → Option ℕ → Cache × Bool
store_cloned c meta objects now none = (c, false)
store_cloned c meta objects now (some surface) =
    let s = make_source_key meta.pipeline_id meta.source_name meta.source_id in
    let e : Entry = record {
      meta = meta;
      objects = objects;
      surface = surface;
      cached_at_ms = now;
    } in
    (prune_locked (add_entry c s e) s now, true)

unfoldable pub store_frame :
    SurfaceApi → Cache → Metadata → List ObjectSnapshot → Option BatchSurface → ℤ → ℤ → Cache × Bool
store_frame api c meta objects batch_surface batch_index now =
    if not c.config.cache_on_frame_events
    then (c, false)
    else store_cloned c meta objects now (clone_surface_batch_item api batch_surface batch_index)

pub record Request : Type 0 where
  pub pipeline_id : Text
  pub source_name : Text
  pub source_id : ℤ
  pub frame_key : Text
  pub frame_ts_ms : ℤ

abbrev pub matches : Request → Entry → Bool
matches r e = route_matches e r.pipeline_id r.source_name r.source_id

-- The distance of a candidate's time from the time that was asked for, on 64 bits.
unfoldable pub delta : Request → Entry → ℤ
delta r e = llabs (to_int64 (e.meta.frame_ts_ms -ℤ r.frame_ts_ms))

unfoldable pub consider : EvidenceConfig → Request → ℤ × Option Entry → Entry → ℤ × Option Entry
consider g r (best_delta, best) e =
    if not (matches r e)
    then (best_delta, best)
    else if leb_ℤ (delta r e) g.max_frame_gap_ms && ltb_ℤ (delta r e) best_delta
    then (delta r e, some e)
    else (best_delta, best)

unfoldable pub consider_found :
    EvidenceConfig → Request → ℤ × Option Entry → Option Entry → ℤ × Option Entry
consider_found g r acc none = acc
consider_found g r acc (some e) = consider g r acc e

-- The loop over the candidates of a source.
unfoldable pub nearest :
    EvidenceConfig → Request → Map Text Entry → ℤ × Option Entry → List Text → ℤ × Option Entry
nearest g r entries acc [] = acc
nearest g r entries acc (k ∷ ks) = nearest g r entries (consider_found g r acc (find k entries)) ks

unfoldable pub fallback : Cache → Request → Option (List Text) → Option Entry
fallback c r none = none
fallback c r (some keys) =
    (nearest c.config r c.entries (c.config.max_frame_gap_ms +ℤ pos 1, none) keys).1

unfoldable pub pick : Cache → Request → Text → Option Entry → Option Entry
pick c r s none = fallback c r (find s c.source_entries)
pick c r s (some e) = if matches r e then some e else fallback c r (find s c.source_entries)

-- A lookup in the cache as it stands after the pruning.
unfoldable pub pick_from : Cache → Request → Text → Option Entry
pick_from c r s = pick c r s (find r.frame_key c.entries)

unfoldable pub resolve : Cache → Request → ℤ → Cache × Option Entry
resolve c r now =
    let s = make_source_key r.pipeline_id r.source_name r.source_id in
    let c' = prune_locked c s now in (c', pick_from c' r s)

-- One object against the three criteria, in the order of the code.
unfoldable pub object_matches : Text → Text → ℤ → ObjectSnapshot → Bool
object_matches object_key instance_key object_id o =
    (not (is_empty object_key) && o.object_key == object_key)
    || ((not (is_empty instance_key) && o.instance_key == instance_key)
        || (leb_ℤ (pos 0) object_id && o.object_id == pos_part object_id))

unfoldable pub find_object_in : Text → Text → ℤ → List ObjectSnapshot → Option ObjectSnapshot
find_object_in object_key instance_key object_id [] = none
find_object_in object_key instance_key object_id (o ∷ os) =
    if object_matches object_key instance_key object_id o
    then some o
    else find_object_in object_key instance_key object_id os

unfoldable pub find_object : Entry → Text → Text → ℤ → Option ObjectSnapshot
find_object e object_key instance_key object_id =
    find_object_in object_key instance_key object_id e.objects

unfoldable pub clear : Cache → Cache
clear c = record c { entries = []; source_entries = [] }

unfoldable pub size : Cache → ℕ
size c = length c.entries

unfoldable pub init : EvidenceConfig → Cache
init g = record { config = g; entries = []; source_entries = [] }
