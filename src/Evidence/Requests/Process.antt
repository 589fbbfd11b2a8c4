-- ===== src/Evidence/Requests/Process.antt =====
-- pipeline/src/evidence/evidence_request_service.cpp: one job, from the lookup of its frame to the
-- published message.
use vms_engine.Common.{
  ◌+◌, Bool, false, not, ◌&&◌, ◌||◌, Option, none, some, List, [], ◌∷◌, Text, codes, text_eq,
  if◌then◌else◌,
}
use vms_engine.Evidence.Cache.{Entry, Request, resolve}
use vms_engine.Evidence.Output.{outcome}
use vms_engine.Evidence.Requests.{
  Job, ServiceConfig, World, Service, Ready, wants_type, publish_ready, overview_known, crops_known,
}
use vms_engine.Evidence.Requests.Encode.{encode_overview, encode_crops}

abbrev pub request_of : Job → Request
request_of job = record {
  pipeline_id = job.route.pipeline_id;
  source_name = job.route.source_name;
  source_id = job.route.source_id;
  frame_key = job.route.frame_key;
  frame_ts_ms = job.frame_ts_ms;
}

abbrev pub or_default : Text → Text → Text
or_default [] other = other
or_default (c ∷ cs) other = c ∷ cs

-- The end of `process_job`.
unfoldable pub publish_encoded :
    ServiceConfig → World → Service → Job → Bool → Text → List Text → Bool → Service × Option Ready
publish_encoded g w s job needs overview_ref crop_refs encoded =
    publish_ready g w s job (codes "ok") overview_ref crop_refs []
      (if needs && not encoded then codes "already_encoded" else codes "encoded")

-- From the crops on, with the overview done.
unfoldable pub process_crops :
    ServiceConfig
    → World
    → Entry
    → Job
    → Bool
    → Bool
    → List Text
    → Service
    → Text
    → Bool
    → Service × Option Ready
process_crops g w entry job needs_overview needs_crops crop_refs s overview_ref overview_encoded =
    let r = encode_crops g w s entry job crop_refs in
    if needs_crops
    then outcome r.1 (λ reason. publish_ready g w r.0 job (codes "error") overview_ref [] reason [])
        (λ d.
          publish_encoded g w r.0 job (needs_overview || needs_crops) overview_ref d.0
            (overview_encoded || d.1))
    else publish_encoded g w s job (needs_overview || needs_crops) overview_ref crop_refs
        overview_encoded

-- With the frame from the cache, if there is one.
unfoldable pub process_entry :
    ServiceConfig
    → World
    → Job
    → Bool
    → Bool
    → Text
    → List Text
    → Service × Option Entry
    → Service × Option Ready
process_entry g w job needs_overview needs_crops overview_ref crop_refs (s, none) =
    publish_ready g w s job (codes "not_found") [] [] (codes "frame_not_in_cache") []
process_entry g w job needs_overview needs_crops overview_ref crop_refs (s, some entry) =
    let r = encode_overview g w s entry job in
    if needs_overview
    then outcome r.1
        (λ reason.
          publish_ready g w r.0 job (codes "error") [] []
            (or_default reason (codes "overview_encode_failed")) [])
        (λ d. process_crops g w entry job needs_overview needs_crops crop_refs r.0 d.0 d.1)
    else process_crops g w entry job needs_overview needs_crops crop_refs s overview_ref false

unfoldable pub resolve_entry : World → Service → Job → Service × Option Entry
resolve_entry w s job =
    let (c, entry) = resolve s.cache (request_of job) (w.clock s.reads) in
    (record s { cache = c; reads = s.reads + 1 }, entry)

-- For a service that has a cache and a producer.
unfoldable pub process_job : ServiceConfig → World → Service → Job → Service × Option Ready
process_job g w s job =
    let needs_overview = wants_type job.evidence_types (codes "overview") in
    let needs_crops = wants_type job.evidence_types (codes "crop") in
    let (s1, overview_ref, overview_done) = overview_known g w s job needs_overview in
    let (s2, crop_refs, crops_done) = crops_known g w s1 job needs_crops in
    if overview_done && crops_done
    then publish_ready g w s2 job (codes "ok") overview_ref crop_refs [] (codes "already_encoded")
    else process_entry g w job needs_overview needs_crops overview_ref crop_refs
        (resolve_entry w s2 job)
