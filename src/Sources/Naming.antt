-- ===== src/Sources/Naming.antt =====
-- pipeline/include/engine/pipeline/source_naming.hpp: element names made from camera ids.
use vms_engine.Common.{
  ℕ, ◌≡◌, refl, ap₂, Bool, true, false, ◌||◌, ◌&&◌, [], ◌∷◌, ◌++◌, Text, codes, leb, if◌then◌else◌,
  arith, is_empty, ◌⊎◌, inl, inr, ◌≢◌, All, map, not, sym, ◌∙◌, Bool-cases,
}

-- std::isalnum in the "C" locale.
unfoldable pub is_alnum : ℕ → Bool
is_alnum c = (leb 48 c && leb c 57) || ((leb 65 c && leb c 90) || (leb 97 c && leb c 122))

unfoldable pub normalize_char : ℕ → ℕ
normalize_char c = if is_alnum c then c else 95

unfoldable pub or_camera : Text → Text
or_camera [] = codes "camera"
or_camera (c ∷ cs) = c ∷ cs

unfoldable pub normalize_camera_id_for_element_name : Text → Text
normalize_camera_id_for_element_name camera_id = or_camera (map normalize_char camera_id)

unfoldable pub make_source_element_name : Text → Text
make_source_element_name camera_id =
    codes "nvurisrcbin_" ++ normalize_camera_id_for_element_name camera_id

unfoldable pub make_source_branch_element_name : Text → Text → Text → Text
make_source_branch_element_name camera_id element_id element_type =
    let suffix = if not (is_empty element_id) then element_id else element_type in
    normalize_camera_id_for_element_name camera_id
    ++ (codes "__" ++ normalize_camera_id_for_element_name suffix)

unfoldable pub make_source_bin_name : Text → Text
make_source_bin_name camera_id = codes "srcbin_" ++ normalize_camera_id_for_element_name camera_id

-- The bytes that a name may hold: letters, digits and the underscore.
abbrev pub IsNameByte : ℕ → Type 0
IsNameByte c = (is_alnum c ≡ true) ⊎ (c ≡ 95)

normalize_char-IsNameByte : (c : ℕ) → IsNameByte (normalize_char c)
unfolding normalize_char
normalize_char-IsNameByte c = elim (Bool-cases (is_alnum c)) [
  | inl h ↦ inl (rw (h, normalize_char) h)
  | inr h ↦ inr (rw (h, normalize_char))
]

normalize_char_fix : (c : ℕ) → IsNameByte c → normalize_char c ≡ c
unfolding normalize_char is_alnum
normalize_char_fix c h = ground arith

All-map-normalize : (s : Text) → All IsNameByte (map normalize_char s)
All-map-normalize [] = tt
All-map-normalize (c ∷ cs) = (normalize_char-IsNameByte c, All-map-normalize cs)

map-normalize_fix : (s : Text) → All IsNameByte s → map normalize_char s ≡ s
map-normalize_fix [] h = refl
map-normalize_fix (c ∷ cs) h = ap₂ ◌∷◌ (normalize_char_fix c h.0) (map-normalize_fix cs h.1)

-- A normalised id is never empty, and holds letters, digits and underscores only; normalising it
-- again changes nothing.
pub normalize_lem :
    (s : Text)
    → (normalize_camera_id_for_element_name s ≢ [])
      × All IsNameByte (normalize_camera_id_for_element_name s)
      × (normalize_camera_id_for_element_name (normalize_camera_id_for_element_name s)
          ≡ normalize_camera_id_for_element_name s)
unfolding normalize_camera_id_for_element_name or_camera is_alnum normalize_char
normalize_lem [] = (λ e. cc, ground arith, refl)
normalize_lem (c ∷ cs) = (
  λ e. cc,
  All-map-normalize (c ∷ cs),
  map-normalize_fix (map normalize_char (c ∷ cs)) (All-map-normalize (c ∷ cs)),
)

-- The ids have the same length, and the same letters and digits at the same places.
abbrev pub SameShape : Text → Text → Type 0
SameShape [] [] = Unit
SameShape [] (d ∷ ds) = ⊥
SameShape (c ∷ cs) [] = ⊥
SameShape (c ∷ cs) (d ∷ ds) =
    ((c ≡ d) ⊎ ((is_alnum c ≡ false) × (is_alnum d ≡ false))) × SameShape cs ds

map-normalize_collide : (s t : Text) → SameShape s t → map normalize_char s ≡ map normalize_char t
unfolding normalize_char
map-normalize_collide [] [] h = refl
map-normalize_collide [] (d ∷ ds) h = elim h [ ]
map-normalize_collide (c ∷ cs) [] h = elim h [ ]
map-normalize_collide (c ∷ cs) (d ∷ ds) h = ap₂ ◌∷◌ (ground arith) (map-normalize_collide cs ds h.1)

-- Two ids of the same length that differ only in bytes that are no letters and no digits get the
-- same source bin name.
pub make_source_bin_name_collide :
    (s t : Text) → SameShape s t → make_source_bin_name s ≡ make_source_bin_name t
unfolding make_source_bin_name normalize_camera_id_for_element_name
make_source_bin_name_collide s t h = rw (map-normalize_collide s t h)

-- Ids that are not empty and hold letters, digits and underscores only keep their own names: two
-- source bin names are the same only if the ids are.
pub make_source_bin_name_injective :
    (s t : Text)
    → s ≢ []
    → t ≢ []
    → All IsNameByte s
    → All IsNameByte t
    → make_source_bin_name s ≡ make_source_bin_name t
    → s ≡ t
unfolding make_source_bin_name normalize_camera_id_for_element_name or_camera
make_source_bin_name_injective [] t n m hs ht e = absurd (n refl)
make_source_bin_name_injective (c ∷ cs) [] n m hs ht e = absurd (m refl)
make_source_bin_name_injective (c ∷ cs) (d ∷ ds) n m hs ht e =
    let same : map normalize_char (c ∷ cs) ≡ map normalize_char (d ∷ ds) = cc e in
    sym (map-normalize_fix (c ∷ cs) hs) ∙ same ∙ map-normalize_fix (d ∷ ds) ht
