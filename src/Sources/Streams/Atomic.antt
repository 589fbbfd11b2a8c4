-- ===== src/Sources/Streams/Atomic.antt =====
-- A call that fails leaves the manager as it was, and a removal undoes an addition.
use vms_engine.Common.Map.{find}
use vms_engine.Common.{
  ℕ, ◌≡◌, refl, sym, ◌∙◌, ap, subst, inl, false, ◌&&◌, ◌||◌, not, Option, none, some, List, [], ◌∷◌,
  Text, nat_eq, text_eq, arith, length, if◌then◌else◌, if_keep, if_split, pos, leb_ℤ, is_empty,
  contains,
}
use vms_engine.Sources.Slots.{
  Camera, Manager, max_active, max_slots_from_config, allocate_next, allocate_source_index,
  release_source_index, switch_slot_to_placeholder,
}
use vms_engine.Sources.Slots.Indexes.{Ascending, sort_fix}
use vms_engine.Sources.Streams.{
  AddAnswers, ErrorCode, MutationResult, make_result, cleanup_failed_add, added_result,
  add_switched, add_linked, add_built, add_allocated, add_stream_detailed, no_slot, is_some,
  remove_child,
}
use vms_engine.Sources.Streams.Invariant.{IsWell}
use vms_engine.Sources.Streams.Preservation.{
  IsWellManaged, IsPartial, LimitFits, switch-placeholder,
}

record Restores (m : Manager) (r : Manager × MutationResult) : Type 0 where
  undone : r.1.success ≡ false → r.0 ≡ m

-- The manager before the index `i` was taken.
abbrev with_index : Manager → ℕ → Manager
with_index m i = record m { free_source_indexes = i ∷ m.free_source_indexes }

release-with_index :
    (m : Manager) (i : ℕ)
    → Ascending (i ∷ m.free_source_indexes)
    → release_source_index m i ≡ with_index m i
unfolding release_source_index
release-with_index m i h =
    ap (λ free. record m { free_source_indexes = free }) (sort_fix (i ∷ m.free_source_indexes) h)

take_back :
    (source : ℕ) (cs : List ℕ)
    → (if contains source (source ∷ cs) then remove_child source (source ∷ cs) else source ∷ cs)
      ≡ cs
unfolding contains remove_child
take_back source cs = ground arith

cleanup-Restores :
    (m : Manager) (source i : ℕ) (camera_id : Text) (e : ErrorCode) (message : Text)
    → Ascending (i ∷ m.free_source_indexes)
    → Restores (with_index m i) (
        cleanup_failed_add
          (record m { children = source ∷ m.children })
          source
          i
          camera_id
          e
          message)
unfolding cleanup_failed_add
cleanup-Restores m source i camera_id e message h = record {
  undone = λ failed.
      ap (λ cs. release_source_index (record m { children = cs }) i) (take_back source m.children)
      ∙ release-with_index m i h;
}

add_switched-Restores :
    (camera : Camera) (a : AddAnswers) (source i : ℕ) (m before : Manager)
    → IsPartial m i
    → Restores before (add_switched camera a source i (switch_slot_to_placeholder m i))
unfolding add_switched added_result make_result
add_switched-Restores camera a source i m before w =
    let (slot, f, r) = w.ready i (w.free_range i (inl refl)) in
    rw (switch-placeholder m i slot f r) (record { undone = λ failed. cc })

add_linked-Restores :
    (m : Manager) (camera : Camera) (a : AddAnswers) (source i : ℕ)
    → IsPartial m i
    → Restores
        (with_index m i)
        (add_linked (record m { children = source ∷ m.children }) camera a source i)
unfolding add_linked
add_linked-Restores m camera a source i w =
    if_keep (Restores (with_index m i)) (not a.linked) _ _
      (cleanup-Restores m source i camera.id _ _ w.sorted)
      (if_keep (Restores (with_index m i)) (a.root_has_parent && not a.synced) _ _
        (cleanup-Restores m source i camera.id _ _ w.sorted)
        (add_switched-Restores camera a source i (record m { children = source ∷ m.children })
          (with_index m i) w))

add_built-Restores :
    (m : Manager) (camera : Camera) (a : AddAnswers) (i : ℕ) (built : Option ℕ)
    → IsPartial m i
    → Restores (with_index m i) (add_built m camera a i built)
unfolding add_built
add_built-Restores m camera a i none w = record {
  undone = λ failed. release-with_index m i w.sorted;
}
add_built-Restores m camera a i (some source) w = add_linked-Restores m camera a source i w

add_allocated-Restores :
    (m : Manager) (camera : Camera) (a : AddAnswers) (i : ℕ)
    → IsPartial m i
    → Restores (with_index m i) (add_allocated camera a (i, m))
unfolding add_allocated
add_allocated-Restores m camera a i w =
    if_keep (Restores (with_index m i)) (no_slot (find i m.fixed_slots)) _ _
      (record { undone = λ failed. release-with_index m i w.sorted })
      (add_built-Restores m camera a i a.built w)

allocate-Restores :
    (m : Manager) (camera : Camera) (a : AddAnswers) (free : List ℕ)
    → m.free_source_indexes ≡ free
    → IsWellManaged m
    → LimitFits m.config
    → leb_ℤ (max_active m.config) (pos (length m.streams)) ≡ false
    → Restores m (add_allocated camera a (allocate_next m free))
unfolding allocate_next
allocate-Restores m camera a [] e w fits room = absurd (ground (arith, w.count))
allocate-Restores m camera a (i ∷ is) e w fits room =
    let taken : Manager = record m { free_source_indexes = is } in
    let same : with_index taken i ≡ m = ap (λ l. record m { free_source_indexes = l }) (sym e) in
    subst (λ before. Restores before (add_allocated camera a (i, taken))) same
      (add_allocated-Restores taken camera a i
        (subst (λ l. IsWell (max_slots_from_config m.config) l m.streams m.fixed_slots) e w))

add-Restores :
    (m : Manager) (camera : Camera) (a : AddAnswers)
    → LimitFits m.config
    → IsWellManaged m
    → Restores m (add_stream_detailed m camera a)
unfolding add_stream_detailed allocate_source_index
add-Restores m camera a fits w =
    let same : (e : MutationResult) → Restores m (m, e) = λ e. record { undone = λ failed. refl } in
    let allocated = λ (room : leb_ℤ (max_active m.config) (pos (length m.streams)) ≡ false).
      allocate-Restores m camera a m.free_source_indexes refl w fits room in
    if_keep (Restores m) (is_empty camera.id || is_empty camera.uri) _ _ (same _) (
      if_keep (Restores m) (not (is_some m.root) || not m.muxer) _ _ (same _) (
        if_keep (Restores m) (is_some (find camera.id m.streams)) _ _ (same _) (
          if_split (Restores m) (leb_ℤ (max_active m.config) (pos (length m.streams))) _ _
            (λ h. same _) allocated)))

-- If the bookkeeping is in order and the limit of active streams is within the number of slots, an
-- addition that fails, for whatever reason and after whatever GStreamer has answered, leaves the
-- manager exactly as it was: the streams, the slots and their active pads, the free indexes in
-- their order, the names and the elements of the source root.
pub add_stream_detailed_atomic :
    (m : Manager) (camera : Camera) (a : AddAnswers)
    → LimitFits m.config
    → IsWellManaged m
    → (add_stream_detailed m camera a).1.success ≡ false
    → (add_stream_detailed m camera a).0 ≡ m
add_stream_detailed_atomic m camera a fits w failed = (add-Restores m camera a fits w).undone failed
