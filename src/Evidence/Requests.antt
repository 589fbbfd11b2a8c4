-- ===== src/Evidence/Requests.antt =====
-- pipeline/src/evidence/evidence_request_service.cpp: the jobs of the evidence requests, and the calls
-- that one job makes of the ledger and the producer. The service's clock is read once per call that needs the time: `reads`
-- counts the readings, and `clock` gives each. The image encoder answers with no reason if it wrote
-- the file, or with its failure reason. A float is carried as its bit pattern.
pub mod Encode
pub mod Process
pub mod Kept
pub mod Complete
pub mod Pictures
pub mod Queue
mod Tests
use vms_engine.Common.{
  ℕ, ◌+◌, Bool, true, false, not, ◌&&◌, ◌||◌, Option, none, some, List, [], ◌∷◌, ◌++◌, Text, codes,
  text_eq, ◌==◌, is_empty, contains, if◌then◌else◌, ℤ, pos, int64_of_u64, map,
}
use vms_engine.Evidence.Cache.{Cache, Entry, ObjectSnapshot, Request, resolve, find_object}
use vms_engine.Evidence.Recent.{
  RecentConfig, Ledger, FrameRoute, is_unkept, was_recently_encoded, mark_recently_encoded,
}
use vms_engine.Evidence.Output.{
  Outcome, done, failed, FilePath, resolve_output_path, build_default_crop_ref,
}

pub record RequestObject : Type 0 where
  pub object_key : Text
  pub instance_key : Text
  pub crop_ref : Text
  pub object_id : ℤ
  pub has_bbox : Bool
  pub left : ℕ
  pub top : ℕ
  pub width : ℕ
  pub height : ℕ

pub record Job : Type 0 where
  pub request_id : Text
  pub route : FrameRoute
  pub frame_ts_ms : ℤ
  pub overview_ref : Text
  pub evidence_types : List Text
  pub objects : List RequestObject

-- The fields of `EvidenceConfig` that the service reads.
pub record ServiceConfig : Type 0 where
  pub recent : RecentConfig
  pub save_dir : Text
  pub ready_channel : Text

-- What is to be cut out of a frame.
pub record Crop : Type 0 where
  pub left : ℕ
  pub top : ℕ
  pub width : ℕ
  pub height : ℕ
  pub class_id : ℤ
  pub object_id : ℕ

pub record World : Type 0 where
  pub clock : ℕ → ℤ
  pub make_dirs : FilePath → Bool
  pub encode_overview_to_file : Entry → FilePath → Option Text
  pub encode_crop_to_file : Entry → Crop → FilePath → Option Text

pub record Service : Type 0 where
  pub cache : Cache
  pub ledger : Ledger
  pub reads : ℕ

-- The published message. Its request is told by the fields of the job.
pub record Ready : Type 0 where
  pub request : Job
  pub status : Text
  pub overview_ref : Text
  pub crop_refs : List Text
  pub failure_reason : Text
  pub encode_reason : Text
  pub generated_at_ms : ℤ

unfoldable pub wants_type : List Text → Text → Bool
wants_type evidence_types type =
    if is_empty evidence_types then type == codes "overview" else contains type evidence_types

-- The call on the ledger, with the time read where it is needed.
unfoldable pub was_encoded : ServiceConfig → World → Service → Job → Text → Service × Bool
was_encoded g w s job ref =
    let (l, known) = was_recently_encoded g.recent s.ledger job.route ref (w.clock s.reads) in
    (
      record s { ledger = l; reads = if is_unkept g.recent ref then s.reads else s.reads + 1 },
      known,
    )

unfoldable pub mark_encoded : ServiceConfig → World → Service → Job → Text → Service
mark_encoded g w s job ref = record s {
  ledger = mark_recently_encoded g.recent s.ledger job.route ref (w.clock s.reads);
  reads = if is_unkept g.recent ref then s.reads else s.reads + 1;
}

unfoldable pub publish_ready :
    ServiceConfig
    → World
    → Service
    → Job
    → Text
    → Text
    → List Text
    → Text
    → Text
    → Service × Option Ready
publish_ready g w s job status overview_ref crop_refs failure_reason encode_reason =
    if is_empty g.ready_channel then (s, none) else (
      record s { reads = s.reads + 1 },
      some (record {
        request = job;
        status = status;
        overview_ref = overview_ref;
        crop_refs = crop_refs;
        failure_reason = failure_reason;
        encode_reason = encode_reason;
        generated_at_ms = w.clock s.reads;
      }),
    )

-- The overview's reference where it is known already, and whether nothing is left to do for it.
unfoldable pub overview_known : ServiceConfig → World → Service → Job → Bool → Service × Text × Bool
overview_known g w s job needs_overview =
    let (s', known) = was_encoded g w s job job.overview_ref in
    if needs_overview && not (is_empty job.overview_ref)
    then (if known then (s', job.overview_ref, true) else (s', [], false))
    else (s, [], not needs_overview)

-- The loop over the objects of the job; `refs` are those that it has pushed.
unfoldable pub crops_known_from :
    ServiceConfig
    → World
    → Job
    → Service
    → List RequestObject
    → List Text
    → Service × List Text × Bool
crops_known_from g w job s [] refs = (s, refs, true)
crops_known_from g w job s (o ∷ os) refs =
    let (s', known) = was_encoded g w s job o.crop_ref in
    let rest = crops_known_from g w job s' os (refs ++ o.crop_ref ∷ []) in
    if is_empty o.crop_ref then (s, [], false) else if known then rest else (s', [], false)

unfoldable pub crops_known :
    ServiceConfig → World → Service → Job → Bool → Service × List Text × Bool
crops_known g w s job needs_crops =
    if needs_crops && not (is_empty job.objects)
    then crops_known_from g w job s job.objects []
    else (s, [], not needs_crops)

-- The result of an encoder's call: the reference, and that it was written now.
unfoldable pub written :
    ServiceConfig → World → Service → Job → Text → Option Text → Service × Outcome (Text × Bool)
written g w s job ref none = (mark_encoded g w s job ref, done (ref, true))
written g w s job ref (some reason) = (s, failed reason)
