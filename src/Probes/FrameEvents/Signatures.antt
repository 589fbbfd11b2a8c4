-- ===== src/Probes/FrameEvents/Signatures.antt =====
-- pipeline/src/probes/frame_events_probe_handler.cpp: the signature of an object's labels and that
-- of a frame's objects. `std::sort` on strings is written as an insertion sort.
pub mod Order
use vms_engine.Common.{
  ℕ, Bool, true, false, List, [], ◌∷◌, ◌++◌, Text, codes, nat_eq, ◌==◌, ltb, leb, ◌&&◌, ◌||◌,
  if◌then◌else◌, int_to_string, nat_to_string, map,
}
use vms_engine.Probes.FrameEvents.{FrameEventObject}

-- operator<= of std::string, which compares bytes.
unfoldable pub text_leb : Text → Text → Bool
text_leb [] t = true
text_leb (a ∷ s) [] = false
text_leb (a ∷ s) (b ∷ t) = ltb a b || (a == b && text_leb s t)

unfoldable pub insert_text : Text → List Text → List Text
insert_text t [] = t ∷ []
insert_text t (u ∷ us) = if text_leb t u then t ∷ u ∷ us else u ∷ insert_text t us

unfoldable pub sort_texts : List Text → List Text
sort_texts [] = []
sort_texts (t ∷ ts) = insert_text t (sort_texts ts)

-- What `joined` holds after the first part.
unfoldable pub join_rest : ℕ → List Text → Text
join_rest separator [] = []
join_rest separator (t ∷ ts) = separator ∷ (t ++ join_rest separator ts)

unfoldable pub join : ℕ → List Text → Text
join separator [] = []
join separator (t ∷ ts) = t ++ join_rest separator ts

-- part.substr(0, part.find(':')), or all of it.
unfoldable pub label_part : Text → Text
label_part [] = []
label_part (c ∷ cs) = let rest = label_part cs in if c == b':' then [] else c ∷ rest

unfoldable pub build_label_signature : List Text → Text
build_label_signature labels = join b'|' (sort_texts (map label_part labels))

unfoldable pub object_part : FrameEventObject → Text
object_part o =
    nat_to_string o.object_id
    ++ (codes "|"
        ++ (int_to_string o.class_id
            ++ (codes "|" ++ (o.object_type ++ (codes "|" ++ int_to_string o.parent_object_id)))))

unfoldable pub build_signature : List FrameEventObject → Text
build_signature objects = join b';' (sort_texts (map object_part objects))
