-- ===== src/Probes/ClassIds/Tests.antt =====
-- Runs of the handler on a buffer with a vehicle of the first element and one of the second.
use vms_engine.Common.Map.{find}
use vms_engine.Common.{
  ℕ, ◌<◌, ◌≡◌, refl, some, List, [], ◌∷◌, map, pos, ◌+ℤ◌, ◌-ℤ◌, to_int, mul_int, int_of_u32, arith,
  All,
}
use vms_engine.Probes.ClassIds.{
  ObjectMeta, offset_mode, new_handler, configure, compute_offset, offset_or, offset_object,
  process_offset, restore_object, process_restore,
}
use vms_engine.Probes.ClassIds.Restore.{
  IsUnmarked, clear_misc, process_restore-process_offset, restore_object_fallback,
}
use vms_engine.Probes.ClassIds.Namespaces.{IsDetected, offset_object_injective}

-- What a run of the handler unfolds.
program : Unit {0}
unfolding find ◌+ℤ◌ ◌-ℤ◌ to_int mul_int int_of_u32 configure compute_offset offset_or offset_object
    process_offset restore_object process_restore
program = tt

abbrev detected : ℕ → ℕ → ObjectMeta
detected u c = record {
  class_id = pos c;
  unique_component_id = pos u;
  misc_0 = pos 0;
  misc_1 = pos 0;
  misc_2 = pos 0;
}

abbrev frames : List (List ObjectMeta)
frames = (detected 1 2 ∷ detected 2 2 ∷ []) ∷ [] ∷ []

-- The second element's class 2 becomes 1002.
second_offset : (offset_object new_handler (detected 2 2)).class_id ≡ pos 1002
unfolding program
second_offset = refl

detected-IsUnmarked : (u c : ℕ) → u < 10 → c < 1000 → IsUnmarked (detected u c)
detected-IsUnmarked u c h k = record {
  fits = (omega arith, omega arith);
  fits_id = (omega arith, omega arith);
  no_marker = λ e. ground arith;
}

frames-IsUnmarked : All (All IsUnmarked) frames
frames-IsUnmarked = (
  (
    detected-IsUnmarked 1 2 (omega arith) (omega arith),
    (detected-IsUnmarked 2 2 (omega arith) (omega arith), tt),
  ),
  (tt, tt),
)

process_restore-process_offset_example :
    process_restore new_handler (process_offset new_handler (some frames))
    ≡ some (map (map clear_misc) frames)
process_restore-process_offset_example =
    process_restore-process_offset new_handler new_handler frames frames-IsUnmarked

restore_object_fallback_example :
    restore_object new_handler (clear_misc (offset_object new_handler (detected 2 2)))
    ≡ clear_misc (detected 2 2)
unfolding program
restore_object_fallback_example =
    restore_object_fallback new_handler new_handler (detected 2 2) refl
      (detected-IsUnmarked 2 2 (omega arith) (omega arith)) (omega arith) (omega arith, omega arith)

detected-IsDetected : IsDetected 1 1000 2 2 (detected 2 2)
detected-IsDetected = record {
  no_marker = λ e. ground arith;
  class_is = refl;
  id_is = refl;
  above = omega arith;
  id_fits = omega arith;
  class_below = omega arith;
  class_fits = omega arith;
}

offset_object_injective_example : (◌≡◌ {A = ℕ} 2 2) × (◌≡◌ {A = ℕ} 2 2)
offset_object_injective_example =
    offset_object_injective offset_mode 1 1000 2 2 2 2 (detected 2 2) (detected 2 2)
      detected-IsDetected detected-IsDetected refl
