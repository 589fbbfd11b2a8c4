-- ===== src/Evidence/Requests/Encode.antt =====
-- pipeline/src/evidence/evidence_request_service.cpp: the overview image and the crops of a frame.
use vms_engine.Common.{
  ℕ, ◌+◌, Bool, true, false, not, ◌&&◌, ◌||◌, Option, none, some, List, [], ◌∷◌, ◌++◌, Text, codes,
  text_eq, is_empty, if◌then◌else◌, pos, int64_of_u64, map,
}
use vms_engine.Evidence.Cache.{Entry, ObjectSnapshot, find_object}
use vms_engine.Evidence.Output.{
  Outcome, outcome, done, failed, FilePath, resolve_output_path, build_default_crop_ref,
}
use vms_engine.Evidence.Requests.{
  RequestObject, Job, ServiceConfig, Crop, World, Service, was_encoded, written,
}

-- A reference with its path, and an encoder for that path.
unfoldable pub encode_at :
    ServiceConfig
    → World
    → Service
    → Job
    → Text
    → (FilePath → Option Text)
    → Outcome FilePath
    → Service × Outcome (Text × Bool)
encode_at g w s job ref encoder (failed reason) = (s, failed reason)
encode_at g w s job ref encoder (done path) =
    let (s', known) = was_encoded g w s job ref in
    if known then (s', done (ref, false)) else written g w s' job ref (encoder path)

unfoldable pub encode_overview :
    ServiceConfig → World → Service → Entry → Job → Service × Outcome (Text × Bool)
encode_overview g w s entry job =
    let ref =
      if not (is_empty job.overview_ref) then job.overview_ref else entry.meta.overview_ref in
    encode_at g w s job ref (w.encode_overview_to_file entry)
      (resolve_output_path w.make_dirs g.save_dir ref)

unfoldable pub to_request : ObjectSnapshot → RequestObject
to_request o = record {
  object_key = o.object_key;
  instance_key = o.instance_key;
  crop_ref = o.crop_ref;
  object_id = int64_of_u64 o.object_id;
  has_bbox = true;
  left = o.left;
  top = o.top;
  width = o.width;
  height = o.height;
}

-- With no objects in the job, all that the frame has.
unfoldable pub objects_of : Job → Entry → List RequestObject
objects_of job entry = if is_empty job.objects then map to_request entry.objects else job.objects

unfoldable pub crop_of : RequestObject → Option ObjectSnapshot → Crop
crop_of o none = record {
  left = o.left;
  top = o.top;
  width = o.width;
  height = o.height;
  class_id = pos 0;
  object_id = 0;
}
crop_of o (some c) = record {
  left = c.left;
  top = c.top;
  width = c.width;
  height = c.height;
  class_id = c.class_id;
  object_id = c.object_id;
}

abbrev pub cached_ref : Option ObjectSnapshot → Text
cached_ref none = []
cached_ref (some c) = c.crop_ref

unfoldable pub crop_ref_of : Entry → ℕ → RequestObject → Option ObjectSnapshot → Text
crop_ref_of entry crop_index o cached =
    if not (is_empty o.crop_ref)
    then o.crop_ref
    else if not (is_empty (cached_ref cached))
    then cached_ref cached
    else build_default_crop_ref entry.meta crop_index

abbrev pub is_missing : Option ObjectSnapshot → Bool
is_missing none = true
is_missing (some c) = false

-- A round of the loop of `encode_crops` for an object that was not known by its own reference.
unfoldable pub encode_crop :
    ServiceConfig
    → World
    → Service
    → Entry
    → Job
    → ℕ
    → RequestObject
    → Option ObjectSnapshot
    → Service × Outcome (Text × Bool)
encode_crop g w s entry job crop_index o cached =
    let ref = crop_ref_of entry crop_index o cached in
    if is_missing cached && not o.has_bbox
    then (s, failed (codes "requested_object_not_found"))
    else encode_at g w s job ref (w.encode_crop_to_file entry (crop_of o cached))
        (resolve_output_path w.make_dirs g.save_dir ref)

unfoldable pub crop_step :
    ServiceConfig
    → World
    → Service
    → Entry
    → Job
    → ℕ
    → RequestObject
    → Service × Outcome (Text × Bool)
crop_step g w s entry job crop_index o =
    let (s', known) = was_encoded g w s job o.crop_ref in
    let cached = find_object entry o.object_key o.instance_key o.object_id in
    if is_empty o.crop_ref
    then encode_crop g w s entry job crop_index o cached
    else if known
    then (s', done (o.crop_ref, false))
    else encode_crop g w s' entry job crop_index o cached

-- The loop of `encode_crops`: every round that goes on counts `crop_index` up.
unfoldable pub encode_crops_from :
    ServiceConfig
    → World
    → Entry
    → Job
    → Service
    → List RequestObject
    → ℕ
    → List Text × Bool
    → Service × Outcome (List Text × Bool)
encode_crops_from g w entry job s [] crop_index refs = (s, done refs)
encode_crops_from g w entry job s (o ∷ os) crop_index refs =
    let step = crop_step g w s entry job crop_index o in
    outcome step.1 (λ reason. (step.0, failed reason))
      (λ r.
        encode_crops_from g w entry job step.0 os (crop_index + 1)
          (refs.0 ++ r.0 ∷ [], refs.1 || r.1))

-- `refs` are the references that the caller's list holds already.
unfoldable pub encode_crops :
    ServiceConfig → World → Service → Entry → Job → List Text → Service × Outcome (List Text × Bool)
encode_crops g w s entry job refs =
    encode_crops_from g w entry job s (objects_of job entry) 0 (refs, false)
