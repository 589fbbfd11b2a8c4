-- ===== src/Sources/Streams/Limits.antt =====
-- Where the limit of active streams is above the number of slots.
use vms_engine.Common.Map.{find}
use vms_engine.Common.{
  u32, ℕ, ◌+◌, ◌%◌, codes, ap, ◌∙◌, ◌≡◌, ◌≢◌, refl, Bool, true, false, ◌||◌, not, Option, none,
  List, [], ◌∷◌, Text, nat_eq, text_eq, arith, length, if◌then◌else◌, pos, ◌≤ℤ◌, leb_ℤ, is_empty,
}
use vms_engine.Sources.Slots.{
  Camera, SourcesConfig, Manager, sort, insert_sorted, max_active, max_slots_from_config,
  allocate_next, allocate_source_index, release_source_index,
}
use vms_engine.Sources.Streams.{
  AddAnswers, internal_error, add_allocated, add_stream_detailed, is_some, make_result,
  MutationResult,
}
use vms_engine.Sources.Streams.Preservation.{IsWellManaged, LimitFits}

-- Without `max_sources` and with a batch size below the source limit there are fewer slots than
-- the limit admits.
pub LimitFits-iff_ordered :
    (c : SourcesConfig)
    → c.mux_max_sources ≤ℤ pos 0
    → pos 1 ≤ℤ c.mux_batch_size
    → (LimitFits c → c.max_batch_size ≤ℤ c.mux_batch_size)
      × (c.max_batch_size ≤ℤ c.mux_batch_size → LimitFits c)
unfolding max_active max_slots_from_config
LimitFits-iff_ordered c h k = (λ f. ground arith, λ f. ground arith)

no_free : (free : List ℕ) (n k : ℕ) → length free + n ≡ k → n ≡ k → free ≡ []
no_free [] n k h e = refl
no_free (i ∷ is) n k h e = absurd (omega arith)

pass_tests {ℓ} :
    {A : Type ℓ} (p q r t : Bool) (w x y z v : A)
    → p ≡ false
    → q ≡ false
    → r ≡ false
    → t ≡ false
    → (if p then w else if q then x else if r then y else if t then z else v) ≡ v
pass_tests p q r t w x y z v a b c d = rw (a, b, c, d)

filled : (xs : Text) → xs ≢ [] → is_empty xs ≡ false
filled [] h = absurd (h refl)
filled (x ∷ xs) h = refl

both_filled : (xs ys : Text) → xs ≢ [] → ys ≢ [] → (is_empty xs || is_empty ys) ≡ false
both_filled xs ys h k = let e = filled xs h in let f = filled ys k in ground arith

both_there : (p q : Bool) → p ≡ true → q ≡ true → (not p || not q) ≡ false
both_there p q h k = ground arith

absent {ℓ} : {A : Type ℓ} (o : Option A) → o ≡ none → is_some o ≡ false
absent o h = ap is_some h

-- The manager after an index past the slots was handed out and taken back.
abbrev pub past_slots : Manager → Manager
past_slots m = record m {
  free_source_indexes = m.next_source_index ∷ [];
  next_source_index = (m.next_source_index + 1) % u32;
}

abbrev pub no_slot_result : Camera → MutationResult
no_slot_result camera =
    make_result false 500 internal_error camera.id (codes "fixed source slot is unavailable")

add-no_slot :
    (m : Manager) (camera : Camera) (a : AddAnswers) (i : ℕ)
    → find i m.fixed_slots ≡ none
    → add_allocated camera a (i, m) ≡ (release_source_index m i, no_slot_result camera)
unfolding add_allocated
add-no_slot m camera a i past = rw (past)

release-empty :
    (m : Manager) (i : ℕ)
    → m.free_source_indexes ≡ []
    → release_source_index m i ≡ record m { free_source_indexes = i ∷ [] }
unfolding release_source_index sort insert_sorted
release-empty m i h = ap (λ l. record m { free_source_indexes = sort (i ∷ l) }) h

overrun_at :
    (m : Manager) (free : List ℕ) (camera : Camera) (a : AddAnswers)
    → m.free_source_indexes ≡ free
    → free ≡ []
    → find m.next_source_index m.fixed_slots ≡ none
    → add_allocated camera a (allocate_next m free) ≡ (past_slots m, no_slot_result camera)
unfolding allocate_next
overrun_at m [] camera a h e past =
    let taken = record m { next_source_index = (m.next_source_index + 1) % u32 } in
    add-no_slot taken camera a m.next_source_index past
    ∙ ap (λ after. (after, no_slot_result camera)) (release-empty taken m.next_source_index h)
overrun_at m (i ∷ is) camera a h e past = absurd (cc)

-- The manager is available and its bookkeeping in order, every slot has a stream but the limit is
-- not reached, and the next index has no slot: then a new camera with an id and a uri is refused
-- with an internal error instead of the error for a full pipeline, and the index past the last
-- slot is left among the free ones.
pub add_stream_detailed_overrun :
    (m : Manager) (camera : Camera) (a : AddAnswers)
    → IsWellManaged m
    → camera.id ≢ []
    → camera.uri ≢ []
    → is_some m.root ≡ true
    → m.muxer ≡ true
    → find camera.id m.streams ≡ none
    → length m.streams ≡ max_slots_from_config m.config
    → leb_ℤ (max_active m.config) (pos (length m.streams)) ≡ false
    → find m.next_source_index m.fixed_slots ≡ none
    → add_stream_detailed m camera a ≡ (past_slots m, no_slot_result camera)
unfolding add_stream_detailed allocate_source_index
add_stream_detailed_overrun m camera a w id uri root muxer new full room past =
    let empty : m.free_source_indexes ≡ [] = no_free _ _ _ w.count full in
    pass_tests _ _ _ _ _ _ _ _ _ (both_filled _ _ id uri) (both_there _ _ root muxer) (absent _ new)
      room
    ∙ overrun_at m m.free_source_indexes camera a refl empty past
