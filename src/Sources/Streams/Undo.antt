-- ===== src/Sources/Streams/Undo.antt =====
-- Removing a stream undoes its addition.
use vms_engine.Common.Map.{find, insert, find-insert, find-erase, find-insert_self}
use vms_engine.Common.{
  int_of_u32, ℕ, zero, suc, ◌≡◌, refl, sym, ◌∙◌, ap, subst, inl, Bool, true, false, ◌&&◌, ◌||◌, not,
  Option, none, some, List, [], ◌∷◌, Text, nat_eq, text_eq, text_beq_iff, arith, length, if_keep,
  if_split, ℤ, pos, leb_ℤ, is_empty,
}
use vms_engine.Sources.Registry.{Root, register_runtime_source_name}
use vms_engine.Sources.Slots.{
  Camera, placeholder_pad, FixedSlot, StreamSlot, Manager, sort, max_active, max_slots_from_config,
  allocate_next, allocate_source_index, release_source_index, switch_slot_to_placeholder,
}
use vms_engine.Sources.Slots.Indexes.{Ascending, sort_fix}
use vms_engine.Sources.Streams.{
  AddAnswers, MutationResult, attach_probe_to, attach_stream_probe, new_slot, make_result,
  cleanup_failed_add, add_switched, add_linked, add_built, add_allocated, add_stream_detailed,
  no_slot, is_some, remove_child, remove_found, remove_switched, remove_stream_detailed,
  without_source,
}
use vms_engine.Sources.Streams.Invariant.{IsReady, IsWell}
use vms_engine.Sources.Streams.Preservation.{
  IsWellManaged, IsPartial, LimitFits, switch-placeholder, none_of_is_some, attach-SameStream,
}

-- After `key` is removed from `m`, all is as it was in `before`.
pub record Undone (before : Manager) (key : Text) (m : Manager) : Type 0 where
  pub removes : (remove_stream_detailed m key).1.success ≡ true
  pub free : (remove_stream_detailed m key).0.free_source_indexes ≡ before.free_source_indexes
  pub streams : (k : Text) → find k (remove_stream_detailed m key).0.streams ≡ find k before.streams
  pub children : (remove_stream_detailed m key).0.children ≡ before.children

-- A removal whose stream, slot and pipeline are there.
remove-found :
    (m : Manager) (key : Text) (s : StreamSlot) (slot : FixedSlot)
    → (not (is_some m.root) || not m.muxer) ≡ false
    → find key m.streams ≡ some s
    → find s.source_index m.fixed_slots ≡ some slot
    → IsReady slot
    → remove_stream_detailed m key
      ≡ remove_switched s key (record m {
        fixed_slots =
            insert s.source_index (record slot { active_pad = placeholder_pad }) m.fixed_slots;
      })
unfolding remove_stream_detailed remove_found
remove-found m key s slot up here f r =
    rw (up, here, remove_found)
      (rw f (
        ap (λ (x : Bool × Manager). remove_switched s key x.1)
          (switch-placeholder m s.source_index slot f r)))

-- The manager with the stream `s` under `key` in it, at the index `i`.
abbrev with_stream : Manager → Text → StreamSlot → ℕ → ℕ → FixedSlot → Manager
with_stream m key s source i slot = record m {
  streams = insert key s m.streams;
  fixed_slots = insert i (record slot { active_pad = placeholder_pad }) m.fixed_slots;
  root = register_runtime_source_name m.root (int_of_u32 i) key;
  children = source ∷ m.children;
}

abbrev with_index : Manager → ℕ → Manager
with_index m i = record m { free_source_indexes = i ∷ m.free_source_indexes }

remove_first : (x : ℕ) (ys : List ℕ) → remove_child x (x ∷ ys) ≡ ys
unfolding remove_child
remove_first x ys = ground arith

registered :
    (root : Option Root) (i : ℤ) (name : Text)
    → is_some root ≡ true
    → is_some (register_runtime_source_name root i name) ≡ true
unfolding register_runtime_source_name
registered none i name h = cc
registered (some r) i name h = refl

with_stream-Undone :
    (m : Manager) (key : Text) (s : StreamSlot) (source i : ℕ) (slot : FixedSlot)
    → Ascending (i ∷ m.free_source_indexes)
    → (not (is_some m.root) || not m.muxer) ≡ false
    → find key m.streams ≡ none
    → s.source_index ≡ i
    → s.source ≡ some source
    → IsReady slot
    → Undone (with_index m i) key (with_stream m key s source i slot)
unfolding remove_switched release_source_index make_result
with_stream-Undone m key s source i slot sorted up new at src r =
    let m' : Manager = with_stream m key s source i slot in
    let shown : FixedSlot = record slot { active_pad = placeholder_pad } in
    let up' : (not (is_some m'.root) || not m'.muxer) ≡ false =
      ground (arith, registered m.root (int_of_u32 i) key) in
    let there : find s.source_index m'.fixed_slots ≡ some shown =
      rw at (find-insert_self i shown m.fixed_slots) in
    let is = remove-found m' key s shown up' (find-insert_self key s m.streams) there r in
    record {
      removes = ap (λ (x : Manager × MutationResult). x.1.success) is;
      free =
          ap (λ (x : Manager × MutationResult). x.0.free_source_indexes) is
          ∙ ap (λ n. sort (n ∷ m.free_source_indexes)) at
          ∙ sort_fix (i ∷ m.free_source_indexes) sorted;
      streams = λ k.
          ap (λ (x : Manager × MutationResult). find k x.0.streams) is
          ∙ ground (
            arith,
            find-erase key k (insert key s m.streams),
            find-insert key k s m.streams,
            text_beq_iff key k,
          );
      children =
          ap (λ (x : Manager × MutationResult). x.0.children) is
          ∙ ap (λ o. without_source o (source ∷ m.children)) src
          ∙ remove_first source m.children;
    }

record Undoes (m : Manager) (key : Text) (r : Manager × MutationResult) : Type 0 where
  undo : r.1.success ≡ true → Undone m key r.0

failed :
    (m : Manager) (key : Text) (r : Manager × MutationResult) → r.1.success ≡ false → Undoes m key r
failed m key r h = record { undo = λ p. absurd (ground arith) }

-- `attach_stream_probe` leaves the source in its place.
attach-source :
    (pad : Option ℕ) (probe : ℕ) (s : StreamSlot)
    → (attach_stream_probe pad probe s).source ≡ s.source
unfolding attach_stream_probe attach_probe_to
attach-source pad probe s =
    if_keep {A = StreamSlot} (λ t. t.source ≡ s.source) _ _ _ refl (same pad probe)
  where
    same : (pad' : Option ℕ) (probe' : ℕ) → (attach_probe_to pad' probe' s).source ≡ s.source
    same none probe' = refl
    same (some p) zero = refl
    same (some p) (suc n) = refl

add_switched-Undoes :
    (camera : Camera) (a : AddAnswers) (source i : ℕ) (m : Manager)
    → IsPartial m i
    → (not (is_some m.root) || not m.muxer) ≡ false
    → find camera.id m.streams ≡ none
    → Undoes (with_index m i) camera.id (
        add_switched camera a source i
          (switch_slot_to_placeholder (record m { children = source ∷ m.children }) i))
unfolding add_switched
add_switched-Undoes camera a source i m w up new =
    let (slot, f, r) = w.ready i (w.free_range i (inl refl)) in
    let s = attach_stream_probe a.src_pad a.probe_id (new_slot camera source i a) in
    rw (switch-placeholder (record m { children = source ∷ m.children }) i slot f r) (record {
      undo = λ p.
          with_stream-Undone m camera.id s source i slot w.sorted up new
            (attach-SameStream a.src_pad a.probe_id (new_slot camera source i a)).0
            (attach-source a.src_pad a.probe_id (new_slot camera source i a)) r;
    })

add_built-Undoes :
    (m : Manager) (camera : Camera) (a : AddAnswers) (i : ℕ) (built : Option ℕ)
    → IsPartial m i
    → (not (is_some m.root) || not m.muxer) ≡ false
    → find camera.id m.streams ≡ none
    → Undoes (with_index m i) camera.id (add_built m camera a i built)
unfolding add_built add_linked cleanup_failed_add make_result
add_built-Undoes m camera a i none w up new = failed _ _ _ refl
add_built-Undoes m camera a i (some source) w up new =
    let P = Undoes (with_index m i) camera.id in
    if_keep P (not a.linked) _ _ (failed _ _ _ refl) (
      if_keep P (a.root_has_parent && not a.synced) _ _ (failed _ _ _ refl)
        (add_switched-Undoes camera a source i m w up new))

allocate-Undoes :
    (m : Manager) (camera : Camera) (a : AddAnswers) (free : List ℕ)
    → m.free_source_indexes ≡ free
    → IsWellManaged m
    → LimitFits m.config
    → (not (is_some m.root) || not m.muxer) ≡ false
    → find camera.id m.streams ≡ none
    → leb_ℤ (max_active m.config) (pos (length m.streams)) ≡ false
    → Undoes m camera.id (add_allocated camera a (allocate_next m free))
unfolding allocate_next add_allocated make_result
allocate-Undoes m camera a [] e w fits up new room = absurd (ground (arith, w.count))
allocate-Undoes m camera a (i ∷ is) e w fits up new room =
    let taken : Manager = record m { free_source_indexes = is } in
    let same : with_index taken i ≡ m = ap (λ l. record m { free_source_indexes = l }) (sym e) in
    let partial : IsPartial taken i =
      subst (λ l. IsWell (max_slots_from_config m.config) l m.streams m.fixed_slots) e w in
    subst (λ before. Undoes before camera.id (add_allocated camera a (i, taken))) same
      (if_keep (Undoes (with_index taken i) camera.id) (no_slot (find i taken.fixed_slots)) _ _
        (failed _ _ _ refl) (add_built-Undoes taken camera a i a.built partial up new))

add-Undoes :
    (m : Manager) (camera : Camera) (a : AddAnswers)
    → LimitFits m.config
    → IsWellManaged m
    → Undoes m camera.id (add_stream_detailed m camera a)
unfolding add_stream_detailed allocate_source_index make_result
add-Undoes m camera a fits w =
    let P = Undoes m camera.id in
    if_keep P (is_empty camera.id || is_empty camera.uri) _ _ (failed _ _ _ refl) (
      if_split P (not (is_some m.root) || not m.muxer) _ _ (λ h. failed _ _ _ refl)
        (λ up.
          if_split P (is_some (find camera.id m.streams)) _ _ (λ h. failed _ _ _ refl)
            (λ new.
              if_split P (leb_ℤ (max_active m.config) (pos (length m.streams))) _ _
                (λ h. failed _ _ _ refl)
                (allocate-Undoes m camera a m.free_source_indexes refl w fits up
                  (none_of_is_some _ new)))))

-- If the bookkeeping is in order and the limit of active streams is within the number of slots,
-- then after an addition that succeeded, removing the camera succeeds, and the streams, the free
-- indexes in their order and the elements of the source root are as they were before.
pub remove-add_stream_detailed :
    (m : Manager) (camera : Camera) (a : AddAnswers)
    → LimitFits m.config
    → IsWellManaged m
    → (add_stream_detailed m camera a).1.success ≡ true
    → Undone m camera.id (add_stream_detailed m camera a).0
remove-add_stream_detailed m camera a fits w added = (add-Undoes m camera a fits w).undo added
