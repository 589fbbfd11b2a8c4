-- ===== src/Evidence/Cache/Store.antt =====
-- A frame that was stored is the one that the request for its key gets, and objects are found in
-- the order of the frame.
use vms_engine.Common.Map.{Map, find}
use vms_engine.Common.{
  ℕ, ◌≡◌, refl, ap, true, ◌⊎◌, inl, inr, not, Option, none, some, List, [], ◌∷◌, ◌++◌, Text,
  text_eq, text_beq_iff, int_eq, ◌==◌, In, nat_eq, leb_ℤ, pos_part, ◌≢◌, ◌&&◌, Bool-cases, arith, ℤ,
  pos, negsuc, Decides, Decides-or, Decides-and, Decides-iff, All, is_empty,
}
use vms_engine.Evidence.Cache.{
  ObjectSnapshot, Metadata, Entry, Cache, Request, object_matches, find_object, find_object_in,
}

-- The key `k` stands last in the deque, and only there, with the entry `e`.
abbrev pub IsLast : Map Text Entry → List Text → Text → Entry → Type 0
IsLast entries ks k e =
    (l : List Text) × (ks ≡ l ++ k ∷ []) × (¬ In k l) × (find k entries ≡ some e)

-- The key stands last in the deque of the source.
abbrev pub IsNewest : Cache → Text → Text → Entry → Type 0
IsNewest c s k e = (ks : List Text) × (find s c.source_entries ≡ some ks) × IsLast c.entries ks k e

-- The entry that `store_frame` makes.
abbrev pub entry_of : Metadata → List ObjectSnapshot → ℤ → ℕ → Entry
entry_of meta objects now surface = record {
  meta = meta;
  objects = objects;
  surface = surface;
  cached_at_ms = now;
}

-- The request for a frame's own key and source.
abbrev pub own_request : Metadata → ℤ → Request
own_request meta frame_ts_ms = record {
  pipeline_id = meta.pipeline_id;
  source_name = meta.source_name;
  source_id = meta.source_id;
  frame_key = meta.frame_key;
  frame_ts_ms = frame_ts_ms;
}

-- What a request for an object asks for: an object key, an instance key or an object id, where an
-- empty key and a negative id ask for nothing.
abbrev pub Meets : Text → Text → ℤ → ObjectSnapshot → Type 0
Meets object_key instance_key object_id o =
    ((object_key ≢ []) × (o.object_key ≡ object_key))
    ⊎ (((instance_key ≢ []) × (o.instance_key ≡ instance_key)) ⊎ (object_id ≡ pos o.object_id))

key_test : (key own : Text) → Decides (not (is_empty key) && own == key) ((key ≢ []) × (own ≡ key))
key_test [] own = (λ h. cc, λ h p. p.0 refl)
key_test (c ∷ cs) own =
    Decides-and {P = (c ∷ cs) ≢ []} {Q = own ≡ c ∷ cs} true (own == (c ∷ cs)) (λ h e. cc, λ h. cc)
      (Decides-iff (own == (c ∷ cs)) (text_beq_iff own (c ∷ cs)))

id_test : (n : ℤ) (own : ℕ) → Decides (leb_ℤ (pos 0) n && own == pos_part n) (n ≡ pos own)
id_test (pos m) own = (λ h. ground arith, λ h p. ground arith)
id_test (negsuc m) own = (λ h. ground arith, λ h p. cc)

object_matches-Meets :
    (k i : Text) (n : ℤ) (o : ObjectSnapshot) → Decides (object_matches k i n o) (Meets k i n o)
unfolding object_matches
object_matches-Meets k i n o =
    Decides-or _ _ (key_test k o.object_key)
      (Decides-or _ _ (key_test i o.instance_key) (id_test n o.object_id))

-- The first object of the list that meets the request, or none if no object does.
abbrev pub IsFirst : Text → Text → ℤ → List ObjectSnapshot → Option ObjectSnapshot → Type 0
IsFirst object_key instance_key object_id os none =
    All (λ o. ¬ Meets object_key instance_key object_id o) os
IsFirst object_key instance_key object_id os (some o) =
    (before : List ObjectSnapshot) × (after : List ObjectSnapshot) × (os ≡ before ++ o ∷ after)
    × All (λ o. ¬ Meets object_key instance_key object_id o) before
    × Meets object_key instance_key object_id o

find_object_in-IsFirst :
    (object_key instance_key : Text) (object_id : ℤ) (os : List ObjectSnapshot)
    → IsFirst object_key instance_key object_id os
        (find_object_in object_key instance_key object_id os)
unfolding find_object_in
find_object_in-IsFirst k i n [] = tt
find_object_in-IsFirst k i n (o ∷ os) = elim (Bool-cases (object_matches k i n o)) [
  | inl h ↦ rw h ([], os, refl, tt, (object_matches-Meets k i n o).0 h)
  | inr h ↦ rw h (
      go (find_object_in k i n os) ((object_matches-Meets k i n o).1 h)
        (find_object_in-IsFirst k i n os))
]
  where
    go :
        (r : Option ObjectSnapshot)
        → ¬ Meets k i n o
        → IsFirst k i n os r
        → IsFirst k i n (o ∷ os) r
    go none h f = (h, f)
    go (some x) h (before, after, e, b, m) = (o ∷ before, after, ap (◌∷◌ o) e, (h, b), m)

-- `find_object` gives the first object of the frame with the object key asked for, the instance
-- key asked for or the non-negative object id asked for, where an empty key asks for nothing; and
-- it gives none only if no object of the frame has one of them.
pub find_object-IsFirst :
    (e : Entry) (object_key instance_key : Text) (object_id : ℤ)
    → IsFirst object_key instance_key object_id e.objects
        (find_object e object_key instance_key object_id)
unfolding find_object
find_object-IsFirst e k i n = find_object_in-IsFirst k i n e.objects
