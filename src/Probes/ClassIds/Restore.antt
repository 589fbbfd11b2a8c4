-- ===== src/Probes/ClassIds/Restore.antt =====
-- The restoring handler undoes the offsetting one, with the marker and without it.
use vms_engine.Common.{
  ◌≡◌, ◌≢◌, refl, ap, ap₂, ◌∙◌, true, false, Option, none, some, List, [], ◌∷◌, map, ℤ, pos, ◌+ℤ◌,
  ◌-ℤ◌, ◌≤ℤ◌, int_eq, leb_ℤ, int_laws, arith, All, FitsInt, to_int_fits, ltb_ℤ, if_split, if_keep,
  ◌==◌,
}
use vms_engine.Common.Int.{+ℤ_parts}
use vms_engine.Probes.ClassIds.{
  ObjectMeta, ClassIdNamespaceHandler, magic_marker, compute_offset, offset_object, process_offset,
  restore_object, process_restore, mark,
}

-- An object as the inference element made it: the values fit an `int`, and no marker is set.
pub record IsUnmarked (o : ObjectMeta) : Type 0 where
  pub fits : FitsInt o.class_id
  pub fits_id : FitsInt o.unique_component_id
  pub no_marker : o.misc_0 ≢ magic_marker

abbrev pub clear_misc : ObjectMeta → ObjectMeta
clear_misc o = record o { misc_0 = pos 0; misc_1 = pos 0; misc_2 = pos 0 }

map-cong {ℓ} :
    {A B : Type ℓ} (P : A → Type 0) (f g : A → B)
    → ((a : A) → P a → f a ≡ g a)
    → (xs : List A) → All P xs
    → map f xs ≡ map g xs
map-cong P f g e [] h = refl
map-cong P f g e (x ∷ xs) h = ap₂ ◌∷◌ (e x h.0) (map-cong P f g e xs h.1)

map-∘ {ℓ} :
    {A B C : Type ℓ} (f : A → B) (g : B → C) (xs : List A)
    → map g (map f xs) ≡ map (λ x. g (f x)) xs
map-∘ f g [] = refl
map-∘ f g (x ∷ xs) = ap (λ ys. g (f x) ∷ ys) (map-∘ f g xs)

-- The same for the frames of a buffer.
frames-cong :
    (P : ObjectMeta → Type 0) (f g k : ObjectMeta → ObjectMeta)
    → ((o : ObjectMeta) → P o → g (f o) ≡ k o)
    → (frames : List (List ObjectMeta)) → All (All P) frames
    → map (map g) (map (map f) frames) ≡ map (map k) frames
frames-cong P f g k e frames h =
    map-∘ (map f) (map g) frames
    ∙ map-cong (All P) _ _ (λ os p. map-∘ f g os ∙ map-cong P _ _ e os p) frames h

every {ℓ} : {A : Type ℓ} (P : A → Type 0) → ((a : A) → P a) → (xs : List A) → All P xs
every P p [] = tt
every P p (x ∷ xs) = (p x, every P p xs)

every_frame : (frames : List (List ObjectMeta)) → All {0, 0} (All {0, 0} (λ o. Unit {0})) frames
every_frame = every (All (λ o. Unit)) (every (λ o. Unit) (λ o. tt))

-- A marked object is restored from what the marker fields keep.
restore-marked :
    (h : ClassIdNamespaceHandler) (o : ObjectMeta) (class_id : ℤ)
    → FitsInt o.class_id
    → FitsInt o.unique_component_id
    → restore_object h (record (mark o) { class_id = class_id }) ≡ clear_misc o
unfolding restore_object
restore-marked h o class_id fits fits_id =
    rw (to_int_fits o.class_id fits, to_int_fits o.unique_component_id fits_id)

restore-offset_object :
    (h k : ClassIdNamespaceHandler) (o : ObjectMeta)
    → IsUnmarked o
    → restore_object k (offset_object h o) ≡ clear_misc o
unfolding offset_object
restore-offset_object h k o u =
    let P = λ (m : ObjectMeta). restore_object k m ≡ clear_misc o in
    let back = λ (c : ℤ). restore-marked k o c u.fits u.fits_id in
    if_split P (o.misc_0 == magic_marker) _ _
      (λ e. absurd (u.no_marker ((int_eq.same_iff _ _).0 e)))
      (λ e.
        if_keep P (ltb_ℤ (pos 0) (compute_offset h o.unique_component_id)) _ _ (back _) (back _))

-- Restoring after offsetting gives every object that was not marked and whose ids fit an `int`
-- back with the class id and the component id that it had and with the marker fields cleared,
-- whatever the two handlers' offsets are.
pub process_restore-process_offset :
    (h k : ClassIdNamespaceHandler) (frames : List (List ObjectMeta))
    → All (All IsUnmarked) frames
    → process_restore k (process_offset h (some frames)) ≡ some (map (map clear_misc) frames)
unfolding process_restore process_offset
process_restore-process_offset h k frames u = ap some (
    frames-cong IsUnmarked (offset_object h) (restore_object k) clear_misc
      (restore-offset_object h k) frames u)

offset-marked :
    (h : ClassIdNamespaceHandler) (o : ObjectMeta)
    → (o.misc_0 == magic_marker) ≡ true
    → offset_object h o ≡ o
unfolding offset_object
offset-marked h o e = rw (e)

offset-offset_object :
    (h k : ClassIdNamespaceHandler) (o : ObjectMeta)
    → offset_object k (offset_object h o) ≡ offset_object h o
unfolding offset_object
offset-offset_object h k o =
    let P = λ (m : ObjectMeta). offset_object k m ≡ m in
    if_split P (o.misc_0 == magic_marker) _ _ (offset-marked k o) (λ e.
      if_keep P (ltb_ℤ (pos 0) (compute_offset h o.unique_component_id)) _ _
        (offset-marked k _ refl) (offset-marked k _ refl))

-- A second offsetting handler, whatever its offsets are, changes nothing.
pub process_offset_idempotent :
    (h k : ClassIdNamespaceHandler) (buf : Option (List (List ObjectMeta)))
    → process_offset k (process_offset h buf) ≡ process_offset h buf
unfolding process_offset
process_offset_idempotent h k none = refl
process_offset_idempotent h k (some frames) = ap some (
    frames-cong (λ o. Unit) (offset_object h) (offset_object k) (offset_object h)
      (λ o u. offset-offset_object h k o) frames (every_frame frames))

abbrev unmarked : ℤ → ℤ → ObjectMeta
unmarked class_id unique_component_id = record {
  class_id = class_id;
  unique_component_id = unique_component_id;
  misc_0 = pos 0;
  misc_1 = pos 0;
  misc_2 = pos 0;
}

plus-minus : (a b : ℤ) → (a +ℤ b) -ℤ a ≡ b
plus-minus a b = grind int_laws

restore-moved :
    (h : ClassIdNamespaceHandler) (u c : ℤ)
    → ltb_ℤ (pos 0) (compute_offset h u) ≡ true
    → pos 0 ≤ℤ c
    → FitsInt c
    → restore_object h (unmarked (compute_offset h u +ℤ c) u) ≡ unmarked c u
unfolding restore_object
restore-moved h u c up k fits =
    let above : leb_ℤ (compute_offset h u) (compute_offset h u +ℤ c) ≡ true =
      ground (arith, +ℤ_parts (compute_offset h u) c) in
    rw (up, above, plus-minus (compute_offset h u) c, to_int_fits c fits)

restore-unmoved :
    (h : ClassIdNamespaceHandler) (u c : ℤ)
    → ltb_ℤ (pos 0) (compute_offset h u) ≡ false
    → restore_object h (unmarked c u) ≡ unmarked c u
unfolding restore_object
restore-unmoved h u c up = rw (up)

-- Where something clears the marker fields between the offsetting and the restoring handler, an
-- object that was not marked, whose ids fit an `int` and whose class id is not negative still gets
-- its class id back, if both handlers have the same offset for its component and the offset class
-- id did not overflow.
pub restore_object_fallback :
    (h k : ClassIdNamespaceHandler) (o : ObjectMeta)
    → compute_offset h o.unique_component_id ≡ compute_offset k o.unique_component_id
    → IsUnmarked o
    → pos 0 ≤ℤ o.class_id
    → FitsInt (compute_offset k o.unique_component_id +ℤ o.class_id)
    → restore_object k (clear_misc (offset_object h o)) ≡ clear_misc o
unfolding offset_object
restore_object_fallback h k o same u above fits =
    let P = λ (m : ObjectMeta). restore_object k (clear_misc m) ≡ clear_misc o in
    if_split P (o.misc_0 == magic_marker) _ _
      (λ e. absurd (u.no_marker ((int_eq.same_iff _ _).0 e)))
      (rw same (λ e.
        if_split P (ltb_ℤ (pos 0) (compute_offset k o.unique_component_id)) _ _
          (λ up.
            ap (λ c. restore_object k (unmarked c o.unique_component_id)) (to_int_fits _ fits)
            ∙ restore-moved k o.unique_component_id o.class_id up above u.fits)
          (restore-unmoved k o.unique_component_id o.class_id)))
