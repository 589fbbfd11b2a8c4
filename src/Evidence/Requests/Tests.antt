-- ===== src/Evidence/Requests/Tests.antt =====
-- Jobs of the evidence service, and the theorems at inputs that meet their hypotheses.
use vms_engine.Common.Map.{find, insert, erase}
use vms_engine.Common.{
  ◌≡◌, refl, true, false, Option, none, some, List, [], ◌∷◌, Text, codes, text_beq, text_eq, ◌==◌,
  contains, pos, ◌-ℤ◌, ◌+ℤ◌, abs, llabs, to_int64, int_to_string, nat_to_string, Bool, int64_of_u64,
}
use vms_engine.Evidence.Cache.{
  EvidenceConfig, Metadata, SurfaceApi, copy_item, clone_surface_batch_item, make_source_key,
  route_matches, is_expired, is_over_limit, prune_loop, put_back, prune_locked, add_entry,
  store_cloned, store_frame, delta, consider, consider_found, nearest, fallback, pick, pick_from,
  resolve, object_matches, find_object_in, find_object, init as init_cache,
}
use vms_engine.Evidence.Cache.Owned.{Call, stores, step, empty-IsSound}
use vms_engine.Evidence.Recent.{
  empty, build_recent_ref_key, is_stale, is_crowded, prune_refs, prune_recently_encoded_locked,
  was_recently_encoded, put_ref, mark_recently_encoded,
}
use vms_engine.Evidence.Recent.Found.Kept.{empty-IsKept}
use vms_engine.Evidence.Output.{
  names_from, drop_empty, path_of, pop_name, push_name, push_names, lexically_normal, append_path,
  base_dir_of, resolve_output_path, sanitize_char, sanitize_ref_component, build_default_crop_ref,
}
use vms_engine.Evidence.Requests.{
  RequestObject, Job, ServiceConfig, World, Service, Ready, wants_type, was_encoded, mark_encoded,
  publish_ready, overview_known, crops_known_from, crops_known, written,
}
use vms_engine.Evidence.Requests.Encode.{
  encode_at, encode_overview, encode_crop, crop_step, encode_crops_from, encode_crops, objects_of,
  crop_ref_of, crop_of, to_request,
}
use vms_engine.Evidence.Requests.Process.{
  publish_encoded, process_crops, process_entry, resolve_entry, process_job,
}
use vms_engine.Evidence.Requests.Kept.{IsWell}
use vms_engine.Evidence.Requests.Complete.{has_evidence}
use vms_engine.Evidence.Requests.Pictures.Answer.{HasPictures, process_job_complete}
use vms_engine.Evidence.Requests.Queue.{
  Queue, init, start_from, start, enqueue_request, stop, join_from, join, take_job, work_from, work,
  Event, starts, enqueues, works, caches, handle, run,
}
use vms_engine.Evidence.Requests.Queue.Order.{all_jobs, brought, run-init_fifo}
use vms_engine.Evidence.Requests.Queue.Sound.{run-IsWell}

-- What a run of the cache, the ledger and the paths unfolds.
parts : Unit {0}
unfolding find insert erase ◌-ℤ◌ ◌+ℤ◌ abs llabs to_int64 int_to_string nat_to_string int64_of_u64
    text_beq contains copy_item clone_surface_batch_item make_source_key route_matches is_expired
    is_over_limit prune_loop put_back prune_locked add_entry store_cloned store_frame delta consider
    consider_found nearest fallback pick pick_from resolve object_matches find_object_in find_object
    build_recent_ref_key is_stale is_crowded prune_refs prune_recently_encoded_locked
    was_recently_encoded put_ref mark_recently_encoded names_from drop_empty path_of pop_name
    push_name push_names lexically_normal append_path base_dir_of resolve_output_path sanitize_char
    sanitize_ref_component build_default_crop_ref init_cache step
parts = tt

-- What a run of the service unfolds.
program : Unit {0}
unfolding parts wants_type was_encoded mark_encoded publish_ready overview_known crops_known_from
    crops_known written encode_at encode_overview encode_crop crop_step encode_crops_from
    encode_crops objects_of crop_ref_of crop_of to_request publish_encoded process_crops
    process_entry resolve_entry process_job init start_from start enqueue_request stop join_from
    join take_job work_from work handle run
program = tt

abbrev g : ServiceConfig
g = record {
  recent = record { encode_dedupe_ttl_ms = pos 1000; max_recent_encoded_refs = pos 100 };
  save_dir = codes "/rec";
  ready_channel = codes "ready";
}

-- Directories can be made and images written, and the clock stands still.
abbrev w : World
w = record {
  clock = λ n. pos 50;
  make_dirs = λ p. true;
  encode_overview_to_file = λ e p. none;
  encode_crop_to_file = λ e c p. none;
}

abbrev cache_config : EvidenceConfig
cache_config = record {
  cache_on_frame_events = true;
  frame_cache_ttl_ms = pos 1000;
  max_frames_per_source = pos 2;
  max_frame_gap_ms = pos 250;
}

abbrev working : SurfaceApi
working = record { create = λ b i. some 7; copy = λ b i d. true }

abbrev frame : Metadata
frame = record {
  pipeline_id = codes "p";
  source_id = pos 0;
  source_name = codes "cam";
  frame_num = 1;
  frame_ts_ms = pos 40;
  emitted_at_ms = pos 40;
  frame_key = codes "f";
  overview_ref = codes "o.jpg";
  width = pos 1920;
  height = pos 1080;
}

abbrev fresh : Service
fresh = record { cache = init_cache cache_config; ledger = empty; reads = 0 }

abbrev frame_stored : Call
frame_stored = stores frame [] (some (record { address = 1; num_filled = pos 1 })) (pos 0) (pos 40)

abbrev object : RequestObject
object = record {
  object_key = codes "k";
  instance_key = [];
  crop_ref = codes "c.jpg";
  object_id = pos 3;
  has_bbox = true;
  left = 0;
  top = 0;
  width = 1;
  height = 1;
}

abbrev job_of : Text → List Text → Job
job_of id types = record {
  request_id = id;
  route = record {
    pipeline_id = codes "p";
    source_name = codes "cam";
    source_id = pos 0;
    frame_key = codes "f";
  };
  frame_ts_ms = pos 40;
  overview_ref = codes "o.jpg";
  evidence_types = types;
  objects = object ∷ [];
}

abbrev crop_job : Job
crop_job = job_of (codes "r1") (codes "crop" ∷ [])

abbrev both_job : Job
both_job = job_of (codes "r2") (codes "overview" ∷ codes "crop" ∷ [])

abbrev requested : List Event
requested = starts true ∷ caches frame_stored ∷ enqueues crop_job ∷ works ∷ enqueues both_job ∷ []

abbrev crop_refs_of : Option Ready → List Text
crop_refs_of none = []
crop_refs_of (some m) = m.crop_refs

abbrev has_status : Text → Option Ready → Bool
has_status status none = false
has_status status (some m) = m.status == status

-- The service when the first of two jobs is in the worker's hand.
abbrev requested_queue : Queue
requested_queue = run working g w (init fresh) requested

abbrev after_crop : Service
after_crop = (work g w requested_queue).service

crop_written :
    crop_refs_of (process_job g w requested_queue.service crop_job).1 ≡ codes "c.jpg" ∷ []
unfolding program
crop_written = refl

-- A job whose crops are all known and whose overview is not gets each crop's reference twice.
crop_doubled :
    crop_refs_of (process_job g w after_crop both_job).1 ≡ codes "c.jpg" ∷ codes "c.jpg" ∷ []
unfolding program
crop_doubled = refl

-- A frame that the cache has not got is reported.
frame_missing : has_status (codes "not_found") (process_job g w fresh crop_job).1 ≡ true
unfolding program
frame_missing = refl

fresh-IsWell : IsWell g fresh
unfolding program
fresh-IsWell = record { kept = empty-IsKept g.recent; sound = empty-IsSound cache_config }

abbrev answer : Ready
answer = record {
  request = crop_job;
  status = codes "ok";
  overview_ref = [];
  crop_refs = codes "c.jpg" ∷ [];
  failure_reason = [];
  encode_reason = codes "encoded";
  generated_at_ms = pos 50;
}

answer_given : (process_job g w requested_queue.service crop_job).1 ≡ some answer
unfolding program
answer_given = refl

process_job_complete_example :
    (has_evidence crop_job answer.overview_ref answer.crop_refs ≡ true)
    × HasPictures g w requested_queue.service crop_job answer.overview_ref answer.crop_refs
unfolding text_beq
process_job_complete_example =
    process_job_complete g w requested_queue.service crop_job answer answer_given refl

run-init_fifo_example : all_jobs requested_queue ≡ brought requested
run-init_fifo_example = run-init_fifo working g w fresh requested

run-IsWell_example : IsWell g (run working g w (init fresh) requested).service
unfolding init
run-IsWell_example = run-IsWell working g w (init fresh) requested fresh-IsWell
