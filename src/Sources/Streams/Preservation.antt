-- ===== src/Sources/Streams/Preservation.antt =====
-- Adding and removing streams keep the bookkeeping, on every branch.
use vms_engine.Common.Map.{find, insert, erase}
use vms_engine.Common.{
  ℕ, zero, suc, ◌≡◌, refl, sym, subst, inl, true, false, ◌&&◌, ◌||◌, not, Option, none, some, List,
  [], ◌∷◌, Text, nat_eq, text_eq, arith, length, if◌then◌else◌, if_keep, if_split, pos, ◌≤ℤ◌, leb_ℤ,
  is_empty, contains,
}
use vms_engine.Sources.Slots.{
  Camera, SourcesConfig, placeholder_pad, FixedSlot, StreamSlot, Manager, max_active,
  max_slots_from_config, allocate_next, allocate_source_index, release_source_index,
  switch_slot_to_placeholder,
}
use vms_engine.Sources.Slots.Indexes.{sort_fix, sort-cons}
use vms_engine.Sources.Streams.{
  AddAnswers, ErrorCode, MutationResult, attach_stream_probe, attach_probe_to, cleanup_failed_add,
  new_slot, add_switched, add_linked, add_built, add_allocated, add_stream_detailed, no_slot,
  is_some, remove_switched, remove_found, remove_stream_detailed, remove_child,
}
use vms_engine.Sources.Streams.Invariant.{IsReady, IsWell, IsWell-insert, IsWell-erase}

abbrev pub IsWellManaged : Manager → Type 0
IsWellManaged m =
    IsWell (max_slots_from_config m.config) m.free_source_indexes m.streams m.fixed_slots

-- The bookkeeping, but for the index `i` that was taken from the front of the free ones.
abbrev pub IsPartial : Manager → ℕ → Type 0
IsPartial m i =
    IsWell (max_slots_from_config m.config) (i ∷ m.free_source_indexes) m.streams m.fixed_slots

record KeepsWell (r : Manager × MutationResult) : Type 0 where
  well : IsWellManaged r.0

release-IsWell : (m : Manager) (i : ℕ) → IsPartial m i → IsWellManaged (release_source_index m i)
unfolding release_source_index
release-IsWell m i w =
    subst (λ free. IsWell (max_slots_from_config m.config) free m.streams m.fixed_slots)
      (sym (sort_fix (i ∷ m.free_source_indexes) w.sorted)) w

cleanup-IsWell :
    (m : Manager) (source i : ℕ) (camera_id : Text) (e : ErrorCode) (message : Text)
    → IsPartial m i
    → KeepsWell (cleanup_failed_add m source i camera_id e message)
unfolding cleanup_failed_add
cleanup-IsWell m source i camera_id e message w = record {
  well =
      release-IsWell
        (record m {
          children =
              if contains source m.children then remove_child source m.children else m.children;
        })
        i w;
}

-- A switch to the placeholder works on the slot of every index in range.
pub switch-placeholder :
    (m : Manager) (i : ℕ) (slot : FixedSlot)
    → find i m.fixed_slots ≡ some slot
    → IsReady slot
    → switch_slot_to_placeholder m i ≡ (
      true,
      record m {
        fixed_slots = insert i (record slot { active_pad = placeholder_pad }) m.fixed_slots;
      },
    )
unfolding switch_slot_to_placeholder
switch-placeholder m i slot f r =
    let possible : (slot.selector && slot.placeholder_sink_pad) ≡ true = ground arith in
    rw (f, switch_slot_to_placeholder) (rw possible)

-- What the bookkeeping reads of a stream.
abbrev pub SameStream : StreamSlot → StreamSlot → Type 0
SameStream s t =
    (s.source_index ≡ t.source_index)
    × (s.camera_id ≡ t.camera_id)
    × (s.using_placeholder ≡ t.using_placeholder)

attach_probe_to-SameStream :
    (pad : Option ℕ) (probe : ℕ) (s : StreamSlot) → SameStream (attach_probe_to pad probe s) s
unfolding attach_probe_to
attach_probe_to-SameStream none probe s = (refl, refl, refl)
attach_probe_to-SameStream (some pad) zero s = (refl, refl, refl)
attach_probe_to-SameStream (some pad) (suc n) s = (refl, refl, refl)

pub attach-SameStream :
    (pad : Option ℕ) (probe : ℕ) (s : StreamSlot) → SameStream (attach_stream_probe pad probe s) s
unfolding attach_stream_probe
attach-SameStream pad probe s =
    if_keep {A = StreamSlot} (λ t. SameStream t s) _ _ _ (refl, refl, refl)
      (attach_probe_to-SameStream pad probe s)

add_switched-IsWell :
    (camera : Camera) (a : AddAnswers) (source i : ℕ) (m : Manager)
    → IsPartial m i
    → find camera.id m.streams ≡ none
    → KeepsWell (add_switched camera a source i (switch_slot_to_placeholder m i))
unfolding add_switched
add_switched-IsWell camera a source i m w new =
    let (slot, f, r) = w.ready i (w.free_range i (inl refl)) in
    let s = attach_stream_probe a.src_pad a.probe_id (new_slot camera source i a) in
    let same = attach-SameStream a.src_pad a.probe_id (new_slot camera source i a) in
    rw (switch-placeholder m i slot f r) (record {
      well =
          IsWell-insert (max_slots_from_config m.config) i m.free_source_indexes m.streams
            m.fixed_slots camera.id s slot w new f same.0 same.1 same.2;
    })

add_linked-IsWell :
    (m : Manager) (camera : Camera) (a : AddAnswers) (source i : ℕ)
    → IsPartial m i
    → find camera.id m.streams ≡ none
    → KeepsWell (add_linked m camera a source i)
unfolding add_linked
add_linked-IsWell m camera a source i w new =
    if_keep KeepsWell (not a.linked) _ _ (cleanup-IsWell m source i camera.id _ _ w) (
      if_keep KeepsWell (a.root_has_parent && not a.synced) _ _
        (cleanup-IsWell m source i camera.id _ _ w) (add_switched-IsWell camera a source i m w new))

add_built-IsWell :
    (m : Manager) (camera : Camera) (a : AddAnswers) (i : ℕ) (built : Option ℕ)
    → IsPartial m i
    → find camera.id m.streams ≡ none
    → KeepsWell (add_built m camera a i built)
unfolding add_built
add_built-IsWell m camera a i none w new = record { well = release-IsWell m i w }
add_built-IsWell m camera a i (some source) w new =
    add_linked-IsWell (record m { children = source ∷ m.children }) camera a source i w new

add_allocated-IsWell :
    (m : Manager) (camera : Camera) (a : AddAnswers) (i : ℕ)
    → IsPartial m i
    → find camera.id m.streams ≡ none
    → KeepsWell (add_allocated camera a (i, m))
unfolding add_allocated
add_allocated-IsWell m camera a i w new =
    if_keep KeepsWell (no_slot (find i m.fixed_slots)) _ _ (record { well = release-IsWell m i w })
      (add_built-IsWell m camera a i a.built w new)

-- The limit of active streams is within the number of slots.
abbrev pub LimitFits : SourcesConfig → Type 0
LimitFits c = max_active c ≤ℤ pos (max_slots_from_config c)

allocate-IsWell :
    (m : Manager) (camera : Camera) (a : AddAnswers) (free : List ℕ)
    → m.free_source_indexes ≡ free
    → IsWellManaged m
    → find camera.id m.streams ≡ none
    → LimitFits m.config
    → leb_ℤ (max_active m.config) (pos (length m.streams)) ≡ false
    → KeepsWell (add_allocated camera a (allocate_next m free))
unfolding allocate_next
allocate-IsWell m camera a [] e w new fits room = absurd (ground (arith, w.count))
allocate-IsWell m camera a (i ∷ is) e w new fits room =
    add_allocated-IsWell (record m { free_source_indexes = is }) camera a i
      (subst (λ l. IsWell (max_slots_from_config m.config) l m.streams m.fixed_slots) e w) new

pub none_of_is_some {ℓ} : {A : Type ℓ} (o : Option A) → is_some o ≡ false → o ≡ none
none_of_is_some none h = refl
none_of_is_some (some x) h = cc

added :
    (m : Manager) (camera : Camera) (a : AddAnswers)
    → LimitFits m.config
    → IsWellManaged m
    → KeepsWell (add_stream_detailed m camera a)
unfolding add_stream_detailed allocate_source_index
added m camera a fits w =
    let unchanged : (e : MutationResult) → KeepsWell (m, e) = λ e. record { well = w } in
    let allocated =
      λ (new : is_some (find camera.id m.streams) ≡ false)
          (room : leb_ℤ (max_active m.config) (pos (length m.streams)) ≡ false).
        allocate-IsWell m camera a m.free_source_indexes refl w (none_of_is_some _ new) fits room in
    if_keep KeepsWell (is_empty camera.id || is_empty camera.uri) _ _ (unchanged _) (
      if_keep KeepsWell (not (is_some m.root) || not m.muxer) _ _ (unchanged _) (
        if_split KeepsWell (is_some (find camera.id m.streams)) _ _ (λ h. unchanged _)
          (λ new.
            if_split KeepsWell (leb_ℤ (max_active m.config) (pos (length m.streams))) _ _
              (λ h. unchanged _) (allocated new))))

-- Whatever GStreamer answers, adding a stream keeps the bookkeeping, also where it fails, if the
-- limit of active streams is within the number of slots.
pub add_stream_detailed-IsWell :
    (m : Manager) (camera : Camera) (a : AddAnswers)
    → LimitFits m.config
    → IsWellManaged m
    → IsWellManaged (add_stream_detailed m camera a).0
add_stream_detailed-IsWell m camera a fits w = (added m camera a fits w).well

remove_found-IsWell :
    (m : Manager) (camera_id : Text) (found : Option StreamSlot)
    → IsWellManaged m
    → find camera_id m.streams ≡ found
    → KeepsWell (remove_found m camera_id found)
unfolding remove_found remove_switched release_source_index
remove_found-IsWell m camera_id none w f = record { well = w }
remove_found-IsWell m camera_id (some s) w f =
    if_keep KeepsWell (not (is_some (find s.source_index m.fixed_slots))) _ _ (record { well = w })
      gone
  where
    gone : KeepsWell (remove_switched s camera_id (switch_slot_to_placeholder m s.source_index).1)
    gone =
        (let (slot, g, r) = w.ready s.source_index (w.used_range camera_id s f) in
          let max = max_slots_from_config m.config in
          rw (switch-placeholder m s.source_index slot g r) (record {
            well =
                subst
                  (λ free. IsWell max free (erase camera_id m.streams) (
                    insert s.source_index (record slot { active_pad = placeholder_pad })
                      m.fixed_slots))
                  (sym (sort-cons s.source_index m.free_source_indexes w.sorted))
                  (IsWell-erase max m.free_source_indexes m.streams m.fixed_slots camera_id s slot w
                    f g);
          }))

removed :
    (m : Manager) (camera_id : Text)
    → IsWellManaged m
    → KeepsWell (remove_stream_detailed m camera_id)
unfolding remove_stream_detailed
removed m camera_id w =
    let unchanged : (e : MutationResult) → KeepsWell (m, e) = λ e. record { well = w } in
    let found = remove_found-IsWell m camera_id (find camera_id m.streams) w refl in
    if_keep KeepsWell (not (is_some m.root) || not m.muxer) _ _ (unchanged _) found

-- Removing a stream keeps the bookkeeping, whether the camera is there or not.
pub remove_stream_detailed-IsWell :
    (m : Manager) (camera_id : Text)
    → IsWellManaged m
    → IsWellManaged (remove_stream_detailed m camera_id).0
remove_stream_detailed-IsWell m camera_id w = (removed m camera_id w).well
