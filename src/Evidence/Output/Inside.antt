-- ===== src/Evidence/Output/Inside.antt =====
-- Output files stay below the base directory.
use mathlib.Core.List.{reverse-cons, append-nil, append_assoc}
use vms_engine.Common.{
  ◌≡◌, ◌≢◌, refl, sym, ap, ◌∙◌, subst, Bool-cases, inl, inr, Bool, false, not, List, [], ◌∷◌, ◌++◌,
  Text, codes, text_eq, ◌==◌, is_empty, contains, if◌then◌else◌, if_keep, if_split, reverse, arith,
}
use vms_engine.Evidence.Output.{
  Outcome, done, failed, FilePath, path_of, push_name, push_names, lexically_normal, append_path,
  base_dir_of, resolve_output_path,
}

-- The names but for the dots.
unfoldable pub without_dots : List Text → List Text
without_dots [] = []
without_dots (n ∷ ns) = if n == codes "." then without_dots ns else n ∷ without_dots ns

push_names-append :
    (rooted : Bool) (kept ms ns : List Text)
    → push_names rooted kept (ms ++ ns) ≡ push_names rooted (push_names rooted kept ms) ns
unfolding push_names
push_names-append rooted kept [] ns = refl
push_names-append rooted kept (m ∷ ms) ns = push_names-append rooted (push_name rooted kept m) ms ns

-- A name that is not `..` is put on top, or is a dot.
push_name-plain :
    (rooted : Bool) (kept : List Text) (n : Text)
    → (n == codes "..") ≡ false
    → push_name rooted kept n ≡ (if n == codes "." then kept else n ∷ kept)
unfolding push_name
push_name-plain rooted kept n h = rw h

-- Names without `..` are only put on top.
push_names-plain :
    (rooted : Bool) (kept ns : List Text)
    → contains (codes "..") ns ≡ false
    → reverse (push_names rooted kept ns) ≡ reverse kept ++ without_dots ns
unfolding push_names without_dots contains
push_names-plain rooted kept [] h = sym (append-nil (reverse kept))
push_names-plain rooted kept (n ∷ ns) h =
    let up : (n == codes "..") ≡ false = ground arith in
    let rest : contains (codes "..") ns ≡ false = ground arith in
    elim (Bool-cases (n == codes ".")) [
      | inl q ↦ rw (push_name-plain rooted kept n up) (rw q (push_names-plain rooted kept ns rest))
      | inr q ↦ rw (push_name-plain rooted kept n up) (
          rw q (
            push_names-plain rooted (n ∷ kept) ns rest
            ∙ ap (λ l. l ++ without_dots ns) (reverse-cons n kept)
            ∙ append_assoc (reverse kept) (n ∷ []) (without_dots ns)))
    ]

-- A path below a directory that has no `..` of its own stays below that directory.
lexically_normal-append_path :
    (base ref : FilePath)
    → contains (codes "..") ref.names ≡ false
    → (lexically_normal (append_path base ref)).names
      ≡ (lexically_normal base).names ++ without_dots ref.names
unfolding lexically_normal append_path
lexically_normal-append_path base ref h =
    ap reverse (push_names-append base.rooted [] base.names ref.names)
    ∙ push_names-plain base.rooted (push_names base.rooted [] base.names) ref.names h

-- What a successful call may answer.
record IsInside (save_dir ref : Text) (p : FilePath) : Type 0 where
  named : ref ≢ []
  relative : (path_of ref).rooted ≡ false
  same_root : p.rooted ≡ (base_dir_of save_dir).rooted
  below :
      p.names ≡ (lexically_normal (base_dir_of save_dir)).names ++ without_dots (path_of ref).names

-- `done` with a path that is inside, or `failed`.
abbrev Answers : Text → Text → Outcome FilePath → Type 0
Answers save_dir ref (done p) = IsInside save_dir ref p
Answers save_dir ref (failed reason) = Unit

filled : (ref : Text) → is_empty ref ≡ false → ref ≢ []
filled [] h = absurd (cc)
filled (c ∷ cs) h = λ e. cc

resolve_output_path-Answers :
    (make_dirs : FilePath → Bool) (save_dir ref : Text)
    → Answers save_dir ref (resolve_output_path make_dirs save_dir ref)
unfolding resolve_output_path lexically_normal append_path
resolve_output_path-Answers make_dirs save_dir ref =
    let P = λ (o : Outcome FilePath). Answers save_dir ref o in
    let full_path = lexically_normal (append_path (base_dir_of save_dir) (path_of ref)) in
    if_split P (is_empty ref) _ _ (λ e. tt)
      (λ named.
        if_split P (path_of ref).rooted _ _ (λ e. tt)
          (λ relative.
            if_split P (contains (codes "..") (path_of ref).names) _ _ (λ e. tt)
              (λ plain. if_keep P (not (make_dirs full_path)) _ _ tt (record {
                named = filled ref named;
                relative = relative;
                same_root = refl;
                below = lexically_normal-append_path (base_dir_of save_dir) (path_of ref) plain;
              }))))

-- If a reference is accepted, then it is not empty and not absolute, and its file is in the base
-- directory or below: the names of its path are those of the base directory, made normal, and
-- then those of the reference but for single dots.
pub resolve_output_path_inside :
    (make_dirs : FilePath → Bool) (save_dir ref : Text) (p : FilePath)
    → resolve_output_path make_dirs save_dir ref ≡ done p
    → (ref ≢ [])
      × ((path_of ref).rooted ≡ false)
      × (p.rooted ≡ (base_dir_of save_dir).rooted)
      × (p.names
          ≡ (lexically_normal (base_dir_of save_dir)).names ++ without_dots (path_of ref).names)
resolve_output_path_inside make_dirs save_dir ref p e =
    let i : IsInside save_dir ref p =
      subst (Answers save_dir ref) e (resolve_output_path-Answers make_dirs save_dir ref) in
    (i.named, i.relative, i.same_root, i.below)
