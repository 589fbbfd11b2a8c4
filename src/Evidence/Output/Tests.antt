-- ===== src/Evidence/Output/Tests.antt =====
-- Output paths of concrete references.
use vms_engine.Common.{
  ◌≡◌, ◌≢◌, refl, true, false, [], ◌∷◌, ◌++◌, codes, text_beq, text_eq, contains,
}
use vms_engine.Evidence.Output.{
  done, failed, FilePath, names_from, drop_empty, path_of, pop_name, push_name, push_names,
  lexically_normal, append_path, base_dir_of, resolve_output_path,
}
use vms_engine.Evidence.Output.Inside.{without_dots, resolve_output_path_inside}

-- What the path of a reference unfolds.
program : Unit {0}
unfolding text_beq contains names_from drop_empty path_of pop_name push_name push_names
    lexically_normal append_path base_dir_of resolve_output_path
program = tt

abbrev target : FilePath
target = record { rooted = true; names = codes "a" ∷ codes "c" ∷ codes "x.jpg" ∷ [] }

resolved : resolve_output_path (λ p. true) (codes "/a/b/../c/") (codes "./x.jpg") ≡ done target
unfolding program
resolved = refl

upward_refused :
    resolve_output_path (λ p. true) (codes "/a") (codes "x/../../y")
    ≡ failed (codes "invalid_output_ref")
unfolding program
upward_refused = refl

resolve_output_path_inside_example :
    (codes "./x.jpg" ≢ [])
    × ((path_of (codes "./x.jpg")).rooted ≡ false)
    × (target.rooted ≡ (base_dir_of (codes "/a/b/../c/")).rooted)
    × (target.names
        ≡ (lexically_normal (base_dir_of (codes "/a/b/../c/"))).names
          ++ without_dots (path_of (codes "./x.jpg")).names)
resolve_output_path_inside_example =
    resolve_output_path_inside (λ p. true) (codes "/a/b/../c/") (codes "./x.jpg") target resolved
