-- ===== src/Sources/Tests.antt =====
-- The names of sources at concrete camera ids.
use vms_engine.Common.{◌≡◌, refl, [], codes, some, none, pos, int_eq, ◌==◌, if◌then◌else◌, inl, inr}
use vms_engine.Sources.Naming.{
  SameShape, is_alnum, normalize_char, normalize_camera_id_for_element_name, make_source_bin_name,
  make_source_bin_name_collide, or_camera,
}
use vms_engine.Sources.Registry.{
  lookup_runtime_source_name, register_runtime_source_name, unregister_runtime_source_name,
  lookup-register,
}

dash_normalized : normalize_camera_id_for_element_name (codes "cam-1") ≡ codes "cam_1"
unfolding normalize_camera_id_for_element_name or_camera normalize_char is_alnum
dash_normalized = refl

dash_dot-SameShape : SameShape (codes "c-1") (codes "c.1")
unfolding is_alnum
dash_dot-SameShape = (inl refl, (inr (refl, refl), (inl refl, tt)))

make_source_bin_name_collide_example :
    make_source_bin_name (codes "c-1") ≡ make_source_bin_name (codes "c.1")
make_source_bin_name_collide_example =
    make_source_bin_name_collide (codes "c-1") (codes "c.1") dash_dot-SameShape

lookup-register_example :
    (lookup_runtime_source_name
        (register_runtime_source_name (some none) (pos 1) (codes "gate"))
        (pos 1)
      ≡ (if pos 1 == pos 1 then codes "gate" else lookup_runtime_source_name (some none) (pos 1)))
    × (lookup_runtime_source_name (unregister_runtime_source_name (some none) (pos 1)) (pos 1)
        ≡ (if pos 1 == pos 1 then [] else lookup_runtime_source_name (some none) (pos 1)))
lookup-register_example = lookup-register none (pos 1) (pos 1) (codes "gate")
