-- ===== src/Probes/ClassIds/Namespaces.antt =====
-- The namespaces of different inference elements do not meet.
use vms_engine.Common.Map.{find}
use vms_engine.Common.{
  ℕ, zero, suc, ◌+◌, ◌*◌, ◌<◌, ◌≤◌, ◌-◌, ◌≡◌, ◌≢◌, refl, ap, sym, ◌∙◌, ℤ, pos, ◌-ℤ◌, ◌+ℤ◌, leb_ℤ,
  int_eq, arith, to_int, to_int_fits, mul_int, if_split, if◌then◌else◌, subst, ap₂, pos_part, ltb_ℤ,
  ◌==◌,
}
use vms_engine.Probes.ClassIds.{
  ObjectMeta, Mode, new_handler, configure, ClassIdNamespaceHandler, magic_marker, compute_offset,
  offset_or, offset_object,
}

-- The block and the place in it determine each other.
block-place : (s a b c d : ℕ) → c < s → d < s → a * s + c ≡ b * s + d → (a ≡ b) × (c ≡ d)
block-place s zero zero c d p q e = (refl, grind arith)
block-place s zero (suc b) c d p q e = absurd (grind arith)
block-place s (suc a) zero c d p q e = absurd (grind arith)
block-place s (suc a) (suc b) c d p q e =
    let same = block-place s a b c d p q (grind arith) in (ap suc same.0, same.1)

-- The class id of an object that is not marked.
namespaced_class : ClassIdNamespaceHandler → ℤ → ℤ → ℤ
namespaced_class h u c =
    let offset = compute_offset h u in if ltb_ℤ (pos 0) offset then to_int (offset +ℤ c) else c

class-offset_object :
    (h : ClassIdNamespaceHandler) (o : ObjectMeta)
    → o.misc_0 ≢ magic_marker
    → (offset_object h o).class_id ≡ namespaced_class h o.unique_component_id o.class_id
unfolding offset_object namespaced_class
class-offset_object h o n =
    let P = λ (m : ObjectMeta). m.class_id ≡ namespaced_class h o.unique_component_id o.class_id in
    if_split P (o.misc_0 == magic_marker) _ _ (λ e. absurd (n ((int_eq.same_iff _ _).0 e)))
      (λ e.
        if_split P (ltb_ℤ (pos 0) (compute_offset h o.unique_component_id)) _ _ (λ up. rw (up))
          (λ up. rw (up)))

minus-pos : (u b : ℕ) → b ≤ u → pos u -ℤ pos b ≡ pos (u - b)
unfolding ◌-ℤ◌
minus-pos u b h = ground arith

plus-pos : (a b : ℕ) → pos a +ℤ pos b ≡ pos (a + b)
unfolding ◌+ℤ◌
plus-pos a b = ground arith

times-pos : (a b : ℕ) → a * b < 2147483648 → mul_int (pos a) (pos b) ≡ pos (a * b)
unfolding mul_int
times-pos a b h = to_int_fits (pos (a * b)) (omega arith, omega arith)

no_block : (u b s : ℕ) → u ≤ b → 0 ≡ (u - b) * s
no_block u b s h = let e : u - b ≡ 0 = omega arith in rw (e) (grind arith)

formula :
    (m : Mode) (b s u : ℕ)
    → b ≤ u
    → u < 2147483648
    → (u - b) * s < 2147483648
    → compute_offset (configure new_handler m (pos b) (pos s)) (pos u) ≡ pos ((u - b) * s)
unfolding compute_offset offset_or configure find
formula m b s u h k fits =
    let P = λ (o : ℤ). o ≡ pos ((u - b) * s) in
    if_split P (leb_ℤ (pos u) (pos b)) _ _ (λ e. ap pos (no_block u b s (ground arith)))
      (λ e.
        ap (λ d. mul_int (to_int d) (pos s)) (minus-pos u b h)
        ∙ ap (λ d. mul_int d (pos s)) (to_int_fits (pos (u - b)) (omega arith, omega arith))
        ∙ times-pos (u - b) s fits)

namespaced-value :
    (m : Mode) (b s u c : ℕ)
    → b ≤ u
    → u < 2147483648
    → (u - b) * s + c < 2147483648
    → namespaced_class (configure new_handler m (pos b) (pos s)) (pos u) (pos c)
      ≡ pos ((u - b) * s + c)
unfolding namespaced_class
namespaced-value m b s u c h k fits =
    let offset = formula m b s u h k (omega arith) in
    let P =
      λ (o : ℤ). (if ltb_ℤ (pos 0) o then to_int (o +ℤ pos c) else pos c) ≡ pos ((u - b) * s + c) in
    subst P (sym offset) (
      if_split (λ (o : ℤ). o ≡ pos ((u - b) * s + c)) (ltb_ℤ (pos 0) (pos ((u - b) * s))) _ _
        (λ up. ap to_int (plus-pos _ c) ∙ to_int_fits _ (omega arith, omega arith))
        (λ down. ap pos (ground arith)))

-- An object that an inference element of id `u` gave class `c`, below the step and within `int`.
pub record IsDetected (b s u c : ℕ) (o : ObjectMeta) : Type 0 where
  pub no_marker : o.misc_0 ≢ magic_marker
  pub class_is : o.class_id ≡ pos c
  pub id_is : o.unique_component_id ≡ pos u
  pub above : b ≤ u
  pub id_fits : u < 2147483648
  pub class_below : c < s
  pub class_fits : (u - b) * s + c < 2147483648

detected-value :
    (m : Mode) (b s u c : ℕ) (o : ObjectMeta)
    → IsDetected b s u c o
    → (offset_object (configure new_handler m (pos b) (pos s)) o).class_id ≡ pos ((u - b) * s + c)
detected-value m b s u c o d =
    let h = configure new_handler m (pos b) (pos s) in
    class-offset_object h o d.no_marker
    ∙ ap₂ (namespaced_class h) d.id_is d.class_is
    ∙ namespaced-value m b s u c d.above d.id_fits d.class_fits

-- With the formula alone, unmarked objects that get the same class id came from the same inference
-- element with the same class, if classes are below the step, ids are not below the base, and the
-- new class ids fit an `int`.
pub offset_object_injective :
    (m : Mode) (b s u c v d : ℕ) (x y : ObjectMeta)
    → IsDetected b s u c x
    → IsDetected b s v d y
    → (offset_object (configure new_handler m (pos b) (pos s)) x).class_id
      ≡ (offset_object (configure new_handler m (pos b) (pos s)) y).class_id
    → (u ≡ v) × (c ≡ d)
offset_object_injective m b s u c v d x y f g e =
    let same : (u - b) * s + c ≡ (v - b) * s + d =
      ap pos_part (sym (detected-value m b s u c x f) ∙ e ∙ detected-value m b s v d y g) in
    let split = block-place s (u - b) (v - b) c d f.class_below g.class_below same in
    (ground (arith, split.0, f.above, g.above), split.1)
