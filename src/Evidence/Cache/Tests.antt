-- ===== src/Evidence/Cache/Tests.antt =====
-- Runs of the frame cache at concrete frames, and the theorems at inputs that meet their hypotheses.
use vms_engine.Common.Map.{find, insert, erase}
use vms_engine.Common.{
  ℕ, ◌≡◌, refl, true, false, Option, some, List, [], ◌∷◌, Text, codes, arith, pos, negsuc, ◌-ℤ◌,
  ◌+ℤ◌, abs, llabs, to_int64, int64_of_u64, int_to_string, text_beq, text_eq,
}
use vms_engine.Evidence.Cache.{
  EvidenceConfig, ObjectSnapshot, Metadata, BatchSurface, SurfaceApi, Request, copy_item,
  clone_surface_batch_item, make_source_key, route_matches, is_expired, is_over_limit, prune_loop,
  put_back, prune_locked, add_entry, store_cloned, store_frame, delta, consider, consider_found,
  nearest, fallback, pick, pick_from, resolve, object_matches, find_object_in, find_object, clear,
  size, init,
}
use vms_engine.Evidence.Cache.Owned.{Call, stores, run, step, IsSound, run-init-IsSound}
use vms_engine.Evidence.Cache.Nearest.{distance}
use vms_engine.Evidence.Cache.Resolve.{IsInRange, Answer, key_of, resolve-Answer}
use vms_engine.Evidence.Cache.Fresh.{Reach, Reach-fresh}
use vms_engine.Evidence.Cache.Store.{entry_of, own_request, IsFirst, find_object-IsFirst}

-- What a run of the cache unfolds.
program : Unit {0}
unfolding find insert erase ◌-ℤ◌ ◌+ℤ◌ abs llabs to_int64 int64_of_u64 int_to_string text_beq
    copy_item clone_surface_batch_item make_source_key route_matches is_expired is_over_limit
    prune_loop put_back prune_locked add_entry store_cloned store_frame delta consider
    consider_found nearest fallback pick pick_from resolve object_matches find_object_in find_object
    clear size init run step
program = tt

abbrev g : EvidenceConfig
g = record {
  cache_on_frame_events = true;
  frame_cache_ttl_ms = pos 1000;
  max_frames_per_source = pos 2;
  max_frame_gap_ms = pos 250;
}

-- Both calls of the surface library succeed.
abbrev working : SurfaceApi
working = record { create = λ b i. some 7; copy = λ b i d. true }

abbrev batch : Option BatchSurface
batch = some (record { address = 1; num_filled = pos 4 })

abbrev frame : ℕ → Text → Metadata
frame ts key = record {
  pipeline_id = codes "p";
  source_id = pos 0;
  source_name = codes "cam";
  frame_num = ts;
  frame_ts_ms = pos ts;
  emitted_at_ms = pos ts;
  frame_key = key;
  overview_ref = [];
  width = pos 1920;
  height = pos 1080;
}

abbrev person : ObjectSnapshot
person = record {
  object_key = codes "o1";
  instance_key = codes "i1";
  crop_ref = [];
  object_id = 5;
  tracker_id = 5;
  class_id = pos 0;
  object_type = codes "person";
  confidence = 0;
  left = 0;
  top = 0;
  width = 0;
  height = 0;
  parent_object_key = [];
  parent_instance_key = [];
  parent_object_id = negsuc 0;
}

abbrev three : List Call
three =
    stores (frame 100 (codes "a")) (person ∷ []) batch (pos 0) (pos 100)
    ∷ stores (frame 200 (codes "b")) [] batch (pos 1) (pos 200)
    ∷ stores (frame 300 (codes "c")) [] batch (pos 2) (pos 300)
    ∷ []

-- The limit of two frames drops the oldest of three.
three_leaves_two : size (run working (init g) three) ≡ 2
unfolding program
three_leaves_two = refl

-- A request for the dropped frame gets the nearest one in time.
nearest_answers :
    (resolve
      (run working (init g) three)
      (own_request (frame 100 (codes "a")) (pos 190))
      (pos 400)).1
    ≡ some (entry_of (frame 200 (codes "b")) [] (pos 200) 7)
unfolding program
nearest_answers = refl

-- An index past the filled part of the batch is refused.
index_refused :
    (store_frame working (init g) (frame 100 (codes "a")) [] batch (pos 4) (pos 100)).1 ≡ false
unfolding program
index_refused = refl

run-init-IsSound_example : IsSound (run working (init g) three)
run-init-IsSound_example = run-init-IsSound working g three

abbrev wanted : Request
wanted = own_request (frame 100 (codes "a")) (pos 190)

three-IsInRange : IsInRange (run working (init g) three) wanted
unfolding program
three-IsInRange = (omega arith, (omega arith, tt))

resolve-Answer_example :
    Answer distance
      (resolve (run working (init g) three) wanted (pos 400)).0
      wanted
      (key_of wanted)
      (resolve (run working (init g) three) wanted (pos 400)).1
resolve-Answer_example =
    resolve-Answer (run working (init g) three) wanted (pos 400) three-IsInRange

-- A request whose time is so far off that the difference overflows to the smallest number gets a
-- frame all the same.
abbrev far_off : Request
far_off = own_request (frame 100 (codes "a")) (negsuc 9223372036854775507)

far_off_answered :
    (resolve (run working (init g) three) far_off (pos 400)).1
    ≡ some (entry_of (frame 300 (codes "c")) [] (pos 300) 7)
unfolding program
far_off_answered = refl

init-IsNew : (x s : Text) (ks : List Text) → find s (init g).source_entries ≡ some ks → ⊥
unfolding init find
init-IsNew x s ks p = cc

Reach-fresh_example :
    is_expired g (pos 1100) (entry_of (frame 100 (codes "a")) (person ∷ []) (pos 100) 7) ≡ false
unfolding program
Reach-fresh_example =
    Reach-fresh working g
      (store_frame working (init g) (frame 100 (codes "a")) (person ∷ []) batch (pos 0) (pos 100)).0
      (pos 100) (pos 1100) (own_request (frame 100 (codes "a")) (pos 5000))
      (entry_of (frame 100 (codes "a")) (person ∷ []) (pos 100) 7)
      (Reach.stores (init g) (pos 0) (pos 100) (frame 100 (codes "a")) (person ∷ []) batch (pos 0)
        (Reach.begin (pos 0)) (omega arith) (λ s ks p m. init-IsNew [] s ks p))
      refl

find_object-IsFirst_example : IsFirst [] (codes "i1") (negsuc 0) (person ∷ []) (
    find_object
      (entry_of (frame 100 (codes "a")) (person ∷ []) (pos 100) 7)
      []
      (codes "i1")
      (negsuc 0))
find_object-IsFirst_example =
    find_object-IsFirst (entry_of (frame 100 (codes "a")) (person ∷ []) (pos 100) 7) [] (codes "i1")
      (negsuc 0)
