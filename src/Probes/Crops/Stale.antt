-- ===== src/Probes/Crops/Stale.antt =====
-- Which objects are forgotten, and that no trace of them is left.
use vms_engine.Common.Map.{Map, find, erase, find-erase}
use vms_engine.Common.{
  ℕ, ◌<◌, ◌≡◌, refl, sym, subst, ◌∙◌, true, false, Option, none, some, List, [], ◌∷◌, nat_eq, ◌==◌,
  if◌then◌else◌, if_keep, if_split, Bool-cases, inl, inr, none-ne-some, arith,
}
use vms_engine.Probes.Crops.{
  Objects, CropConfig, is_time, is_stale, forget, forget_stale, is_overfull, no_objects,
  cleanup_stale_objects, compose_key, source_of_key, tracker_of_key,
}

-- The maps have nothing under the key.
pub record IsForgotten (key : ℕ) (o : Objects) : Type 0 where
  pub keys : find key o.object_keys ≡ none
  pub seen : find key o.object_last_seen ≡ none
  pub captures : find key o.last_capture_pts ≡ none
  pub states : find key o.pub_state ≡ none
  pub parents : find key o.child_parent_oid_cache ≡ none

-- What `find` gives after an erasure was there, or is nothing.
erase-none : {V : Type 0} (k j : ℕ) (m : Map ℕ V) → (k == j) ≡ true → find j (erase k m) ≡ none
erase-none k j m h = rw (find-erase, h) refl

erase_kept : {V : Type 0} (k j : ℕ) (m : Map ℕ V) → find j m ≡ none → find j (erase k m) ≡ none
erase_kept k j m h = ground (arith, find-erase k j m)

erase-some :
    {V : Type 0} (k j : ℕ) (v : V) (m : Map ℕ V) → find j (erase k m) ≡ some v → find j m ≡ some v
erase-some k j v m h = ground (arith, find-erase k j m)

-- Nothing comes back.
forget-IsForgotten_kept : (k j : ℕ) (o : Objects) → IsForgotten j o → IsForgotten j (forget o k)
unfolding forget
forget-IsForgotten_kept k j o h = record {
  keys = erase_kept k j o.object_keys h.keys;
  seen = erase_kept k j o.object_last_seen h.seen;
  captures = erase_kept k j o.last_capture_pts h.captures;
  states = erase_kept k j o.pub_state h.states;
  parents = erase_kept k j o.child_parent_oid_cache h.parents;
}

forget-IsForgotten : (k j : ℕ) (o : Objects) → (k == j) ≡ true → IsForgotten j (forget o k)
unfolding forget
forget-IsForgotten k j o h = record {
  keys = erase-none k j o.object_keys h;
  seen = erase-none k j o.object_last_seen h;
  captures = erase-none k j o.last_capture_pts h;
  states = erase-none k j o.pub_state h;
  parents = erase-none k j o.child_parent_oid_cache h;
}

module _ (timeout now : ℕ) where
  forget_stale-kept :
      (j : ℕ) (seen : Map ℕ ℕ) (o : Objects)
      → IsForgotten j o
      → IsForgotten j (forget_stale timeout now seen o).0
  unfolding forget_stale
  forget_stale-kept j [] o h = h
  forget_stale-kept j ((k, t) ∷ seen) o h =
      if_keep (λ (r : Objects × List ℕ). IsForgotten j r.0) (is_stale timeout now t) _ _
        (forget_stale-kept j seen (forget o k) (forget-IsForgotten_kept k j o h))
        (forget_stale-kept j seen o h)

  -- A stale object is forgotten.
  forget_stale-IsForgotten :
      (j t : ℕ) (seen : Map ℕ ℕ) (o : Objects)
      → find j seen ≡ some t
      → is_stale timeout now t ≡ true
      → IsForgotten j (forget_stale timeout now seen o).0
  unfolding forget_stale find
  forget_stale-IsForgotten j t [] o e s = absurd (none-ne-some t e)
  forget_stale-IsForgotten j t ((k, u) ∷ seen) o e s =
      let P = λ (r : Objects × List ℕ). IsForgotten j r.0 in
      elim (Bool-cases (k == j)) [
        | inl q ↦
            if_split P (is_stale timeout now u) _ _
              (λ h. forget_stale-kept j seen (forget o k) (forget-IsForgotten k j o q))
              (λ h. absurd (ground arith))
        | inr q ↦
            let later : find j seen ≡ some t = ground arith in
            if_keep P (is_stale timeout now u) _ _
              (forget_stale-IsForgotten j t seen (forget o k) later s)
              (forget_stale-IsForgotten j t seen o later s)
      ]

  -- What is still seen was seen before.
  forget_stale-seen :
      (j t : ℕ) (seen : Map ℕ ℕ) (o : Objects)
      → find j (forget_stale timeout now seen o).0.object_last_seen ≡ some t
      → find j o.object_last_seen ≡ some t
  unfolding forget_stale forget
  forget_stale-seen j t [] o = λ e. e
  forget_stale-seen j t ((k, u) ∷ seen) o =
      if_keep
        (λ (r : Objects × List ℕ).
          find j r.0.object_last_seen ≡ some t → find j o.object_last_seen ≡ some t)
        (is_stale timeout now u) _ _
        (λ e. erase-some k j t o.object_last_seen (forget_stale-seen j t seen (forget o k) e))
        (forget_stale-seen j t seen o)

no_objects-IsForgotten : (j : ℕ) → IsForgotten j no_objects
unfolding find
no_objects-IsForgotten j = record {
  keys = refl;
  seen = refl;
  captures = refl;
  states = refl;
  parents = refl;
}

-- If the clean-up runs, then an object that was not seen for longer than the timeout, or whose
-- time is invalid, leaves nothing in any of the five maps.
pub cleanup_stale_objects-IsForgotten :
    (g : CropConfig) (o : Objects) (current_pts j t : ℕ)
    → (g.stale_timeout_ns == 0) ≡ false
    → is_time current_pts ≡ true
    → find j o.object_last_seen ≡ some t
    → is_stale g.stale_timeout_ns current_pts t ≡ true
    → IsForgotten j (cleanup_stale_objects g o current_pts).0
unfolding cleanup_stale_objects
cleanup_stale_objects-IsForgotten g o current_pts j t on valid seen stale =
    rw (on, valid)
      (if_keep (IsForgotten j) _ _ _ (no_objects-IsForgotten j) (
        forget_stale-IsForgotten g.stale_timeout_ns current_pts j t o.object_last_seen o seen
          stale))

cleaned :
    (g : CropConfig) (o : Objects) (current_pts : ℕ)
    → (g.stale_timeout_ns == 0) ≡ false
    → is_time current_pts ≡ true
    → let r = forget_stale g.stale_timeout_ns current_pts o.object_last_seen o in
      (cleanup_stale_objects g o current_pts).0 ≡ (if is_overfull r.0 then no_objects else r.0)
unfolding cleanup_stale_objects
cleaned g o current_pts on valid = rw (on, valid) refl

still_fresh :
    (g : CropConfig) (o : Objects) (current_pts j t : ℕ)
    → find j o.object_last_seen ≡ some t
    → find j (forget_stale g.stale_timeout_ns current_pts o.object_last_seen o).0.object_last_seen
      ≡ some t
    → is_stale g.stale_timeout_ns current_pts t ≡ false
still_fresh g o current_pts j t before e =
    elim (Bool-cases (is_stale g.stale_timeout_ns current_pts t)) [
      | inl stale ↦
          let gone =
            forget_stale-IsForgotten g.stale_timeout_ns current_pts j t o.object_last_seen o before
              stale in
          absurd (none-ne-some t (sym gone.seen ∙ e))
      | inr fresh ↦ fresh
    ]

-- What is seen of an object after a clean-up: nothing, or the time that was seen before, which is
-- not stale.
abbrev pub IsFreshAt : CropConfig → Objects → ℕ → ℕ → Option ℕ → Type 0
IsFreshAt g before current_pts j none = Unit
IsFreshAt g before current_pts j (some t) =
    (find j before.object_last_seen ≡ some t) × (is_stale g.stale_timeout_ns current_pts t ≡ false)

-- Of the loop alone.
forget_stale-IsFreshAt :
    (g : CropConfig) (o : Objects) (current_pts j : ℕ) (seen : Option ℕ)
    → find j (forget_stale g.stale_timeout_ns current_pts o.object_last_seen o).0.object_last_seen
      ≡ seen
    → IsFreshAt g o current_pts j seen
forget_stale-IsFreshAt g o current_pts j none e = tt
forget_stale-IsFreshAt g o current_pts j (some t) e =
    let before = forget_stale-seen g.stale_timeout_ns current_pts j t o.object_last_seen o e in
    (before, still_fresh g o current_pts j t before e)

-- The emergency limit after the loop.
limited :
    (g : CropConfig) (o : Objects) (current_pts j : ℕ)
    → let r = forget_stale g.stale_timeout_ns current_pts o.object_last_seen o in
      let after = if is_overfull r.0 then no_objects else r.0 in
      (is_overfull after ≡ false) × IsFreshAt g o current_pts j (find j after.object_last_seen)
unfolding find is_overfull
limited g o current_pts j =
    let r = forget_stale g.stale_timeout_ns current_pts o.object_last_seen o in
    let P = λ (x : Objects).
      (is_overfull x ≡ false) × IsFreshAt g o current_pts j (find j x.object_last_seen) in
    if_split P (is_overfull r.0) _ _ (λ h. (refl, tt))
      (λ h. (h, forget_stale-IsFreshAt g o current_pts j _ refl))

-- If the clean-up runs, then afterwards no map that is counted has more than the permitted number
-- of objects, and whatever object is still seen was seen at the same time before and is not stale.
pub cleanup_stale_objects_bounded :
    (g : CropConfig) (o : Objects) (current_pts j : ℕ)
    → (g.stale_timeout_ns == 0) ≡ false
    → is_time current_pts ≡ true
    → (is_overfull (cleanup_stale_objects g o current_pts).0 ≡ false)
      × IsFreshAt g o current_pts j
          (find j (cleanup_stale_objects g o current_pts).0.object_last_seen)
cleanup_stale_objects_bounded g o current_pts j on valid =
    let P = λ (x : Objects).
      (is_overfull x ≡ false) × IsFreshAt g o current_pts j (find j x.object_last_seen) in
    subst P (sym (cleaned g o current_pts on valid)) (limited g o current_pts j)

-- The parts of a key are those that it was made of, if the source fits in 16 bits and the
-- tracker's id in 48.
pub parts-compose_key :
    (source_id tracker_id : ℕ)
    → source_id < 65536
    → tracker_id < 281474976710656
    → (source_of_key (compose_key source_id tracker_id) ≡ source_id)
      × (tracker_of_key (compose_key source_id tracker_id) ≡ tracker_id)
unfolding compose_key source_of_key tracker_of_key
parts-compose_key source_id tracker_id h k = (omega arith, omega arith)
