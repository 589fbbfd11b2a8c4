-- ===== src/Evidence/Output.antt =====
-- pipeline/src/evidence/evidence_request_service.cpp: the file that a reference stands for. A path
-- of std::filesystem is whether it begins at the root and its names between slashes; a trailing
-- slash is left out.
pub mod Inside
mod Tests
use vms_engine.Common.{
  ℕ, ◌≡◌, refl, Bool, true, false, not, ◌&&◌, ◌||◌, Option, none, some, List, [], ◌∷◌, ◌++◌, Text,
  codes, text_eq, nat_eq, ◌==◌, is_empty, contains, if◌then◌else◌, ℤ, int_to_string, nat_to_string,
  map, reverse,
}
use vms_engine.Sources.Naming.{is_alnum}
use vms_engine.Evidence.Cache.{Metadata}

-- `false` with the failure reason that the call wrote, or `true` with its results.
pub data Outcome (A : Type 0) : Type 0 where
  done : A → Outcome A
  failed : Text → Outcome A

abbrev pub outcome : {A B : Type 0} → Outcome A → (Text → B) → (A → B) → B
outcome (done a) f g = g a
outcome (failed reason) f g = f reason

-- What holds after both results.
pub outcome_split {κ} :
    {A B : Type 0} (P : B → Type κ) (o : Outcome A) (f : Text → B) (g : A → B)
    → ((reason : Text) → o ≡ failed reason → P (f reason))
    → ((a : A) → o ≡ done a → P (g a))
    → P (outcome o f g)
outcome_split P (done a) f g p q = q a refl
outcome_split P (failed reason) f g p q = p reason refl

pub record FilePath : Type 0 where
  pub rooted : Bool
  pub names : List Text

-- The names of `s`, where the name `name` has begun.
unfoldable pub names_from : Text → Text → List Text
names_from name [] = name ∷ []
names_from name (c ∷ cs) =
    let split = name ∷ names_from [] cs in
    let more = names_from (name ++ c ∷ []) cs in if c == b'/' then split else more

unfoldable pub drop_empty : List Text → List Text
drop_empty [] = []
drop_empty (n ∷ ns) = if is_empty n then drop_empty ns else n ∷ drop_empty ns

abbrev pub begins_at_root : Text → Bool
begins_at_root [] = false
begins_at_root (c ∷ cs) = c == b'/'

unfoldable pub path_of : Text → FilePath
path_of s = record { rooted = begins_at_root s; names = drop_empty (names_from [] s) }

-- The names that are kept, the last one first, after `..`.
unfoldable pub pop_name : Bool → List Text → List Text
pop_name rooted [] = if rooted then [] else codes ".." ∷ []
pop_name rooted (n ∷ ns) = if n == codes ".." then codes ".." ∷ n ∷ ns else ns

unfoldable pub push_name : Bool → List Text → Text → List Text
push_name rooted kept n =
    if n == codes "." then kept else if n == codes ".." then pop_name rooted kept else n ∷ kept

unfoldable pub push_names : Bool → List Text → List Text → List Text
push_names rooted kept [] = kept
push_names rooted kept (n ∷ ns) = push_names rooted (push_name rooted kept n) ns

-- fs::path::lexically_normal
unfoldable pub lexically_normal : FilePath → FilePath
lexically_normal p = record p { names = reverse (push_names p.rooted [] p.names) }

-- base / ref, for a reference that does not begin at the root.
unfoldable pub append_path : FilePath → FilePath → FilePath
append_path base ref = record base { names = base.names ++ ref.names }

unfoldable pub base_dir_of : Text → FilePath
base_dir_of save_dir =
    if is_empty save_dir then path_of (codes "/opt/vms_engine/dev/rec/frames") else path_of save_dir

-- `make_dirs` tells whether the directories above the file could be made.
unfoldable pub resolve_output_path : (FilePath → Bool) → Text → Text → Outcome FilePath
resolve_output_path make_dirs save_dir ref =
    let ref_path = path_of ref in
    let full_path = lexically_normal (append_path (base_dir_of save_dir) ref_path) in
    if is_empty ref
    then failed (codes "missing_output_ref")
    else if ref_path.rooted
    then failed (codes "absolute_output_ref_not_allowed")
    else if contains (codes "..") ref_path.names
    then failed (codes "invalid_output_ref")
    else if not (make_dirs full_path)
    then failed (codes "create_output_dir_failed")
    else done full_path

unfoldable pub sanitize_char : ℕ → ℕ
sanitize_char c = if is_alnum c || (c == b'-' || (c == b'_' || c == b'.')) then c else b'_'

abbrev pub or_unknown : Text → Text
or_unknown [] = codes "unknown"
or_unknown (c ∷ cs) = c ∷ cs

unfoldable pub sanitize_ref_component : Text → Text
sanitize_ref_component value = or_unknown (map sanitize_char value)

unfoldable pub build_default_crop_ref : Metadata → ℕ → Text
build_default_crop_ref meta crop_index =
    sanitize_ref_component meta.pipeline_id
    ++ (codes "_"
        ++ (sanitize_ref_component meta.source_name
            ++ (codes "_"
                ++ (nat_to_string meta.frame_num
                    ++ (codes "_"
                        ++ (int_to_string meta.frame_ts_ms
                            ++ (codes "_crop_req_"
                                ++ (nat_to_string crop_index ++ codes ".jpg"))))))))
