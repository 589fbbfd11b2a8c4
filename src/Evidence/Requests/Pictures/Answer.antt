-- ===== src/Evidence/Requests/Pictures/Answer.antt =====
-- What an answer "ok" promises: the evidence that was wanted, with a picture behind each reference.
use vms_engine.Common.{
  ◌≡◌, refl, sym, subst, ◌∙◌, ◌⊎◌, inl, inr, Bool, true, false, ◌&&◌, Option, none, some, List, [],
  ◌∷◌, Text, codes, text_eq, text_beq, ◌==◌, is_empty, if_keep, if_split, All, arith, if◌then◌else◌,
  map,
}
use vms_engine.Evidence.Cache.{Entry, resolve}
use vms_engine.Evidence.Output.{outcome_split}
use vms_engine.Evidence.Requests.{
  Job, ServiceConfig, World, Service, Ready, wants_type, publish_ready, overview_known, crops_known,
}
use vms_engine.Evidence.Requests.Encode.{encode_overview, encode_crops, objects_of, to_request}
use vms_engine.Evidence.Requests.Process.{
  publish_encoded, process_crops, process_entry, resolve_entry, process_job, request_of,
}
use vms_engine.Evidence.Requests.Complete.{has_evidence, process_job-has_evidence}
use vms_engine.Evidence.Requests.Pictures.{IsFrame, IsPictured, IsBacked}
use vms_engine.Evidence.Requests.Pictures.Steps.{
  Covers, Shows, Collects, encode_overview-IsShown, encode_crops_from-Collects,
}
use vms_engine.Evidence.Requests.Pictures.Known.{
  cache-overview_known, cache-crops_known, overview_known-IsOverviewLooked,
  crops_known-IsCropsLooked,
}

-- What is wanted of the overview and of the crops.
abbrev wants_overview : Job → Bool
wants_overview job = wants_type job.evidence_types (codes "overview")

abbrev wants_crops : Job → Bool
wants_crops job = wants_type job.evidence_types (codes "crop")

-- The pictures of an answer: of the overview, if it was wanted; of each reference to a crop; and
-- of every object of the job that names its reference, if crops were wanted.
pub record HasPictures (g : ServiceConfig) (w : World) (s : Service) (job : Job)
    (overview_ref : Text) (crop_refs : List Text) : Type 0 where
  pub overview :
      (wants_type job.evidence_types (codes "overview") ≡ false) ⊎ IsPictured g w s job overview_ref
  pub crops : All (IsPictured g w s job) crop_refs
  pub objects :
      (wants_type job.evidence_types (codes "crop") ≡ false) ⊎ Covers job.objects crop_refs

module _ (g : ServiceConfig) (w : World) (job : Job) (s : Service) where
  -- Where the message is "ok", it has its pictures.
  abbrev IsAnswered : Option Ready → Type 0
  IsAnswered none = Unit
  IsAnswered (some m) =
      ((m.status == codes "ok") ≡ false) ⊎ HasPictures g w s job m.overview_ref m.crop_refs

  publish_ready-IsAnswered :
      (t : Service) (status overview_ref : Text) (crop_refs : List Text) (failure reason : Text)
      → ((status == codes "ok") ≡ false) ⊎ HasPictures g w s job overview_ref crop_refs
      → IsAnswered (publish_ready g w t job status overview_ref crop_refs failure reason).1
  unfolding publish_ready
  publish_ready-IsAnswered t status overview_ref crop_refs failure reason h =
      if_keep (λ (r : Service × Option Ready). IsAnswered r.1) (is_empty g.ready_channel) _ _ tt h

  -- All objects of the frame are more than the job's.
  objects_of-Covers :
      (entry : Entry) (refs : List Text)
      → Covers (objects_of job entry) refs
      → Covers job.objects refs
  unfolding objects_of
  objects_of-Covers entry refs =
      elim job.objects
        as (λ os.
          Covers (if is_empty os then map to_request entry.objects else os) refs → Covers os refs) [
            | [] ↦ λ h. tt
            | o ∷ os ↦ λ h. h
          ]

  process_crops-IsAnswered :
      (entry : Entry) (crop_refs : List Text) (t : Service) (overview_ref : Text) (encoded : Bool)
      → IsFrame s.cache job entry
      → IsBacked g w job s t.ledger
      → (wants_overview job ≡ false) ⊎ IsPictured g w s job overview_ref
      → All (IsPictured g w s job) crop_refs
      → IsAnswered
          (process_crops g w entry job
            (wants_overview job)
            (wants_crops job)
            crop_refs
            t
            overview_ref
            encoded).1
  unfolding process_crops publish_encoded encode_crops text_beq
  process_crops-IsAnswered entry crop_refs t overview_ref encoded from b overview crops =
      let P = λ (x : Service × Option Ready). IsAnswered x.1 in
      let all =
        encode_crops_from-Collects g w job s entry t (objects_of job entry) 0 (crop_refs, false)
          from b crops in
      if_split P (wants_crops job) _ _
        (λ c.
          outcome_split P (encode_crops g w t entry job crop_refs).1 _ _
            (λ reason e. publish_ready-IsAnswered _ (codes "error") _ _ _ _ (inl refl))
            (λ d e.
              let collected = subst (Collects g w job s (objects_of job entry) crop_refs) e all in
              publish_ready-IsAnswered _ _ _ _ _ _ (
                inr (record {
                  overview = overview;
                  crops = collected.pictured;
                  objects = inr (objects_of-Covers entry d.0 collected.covers);
                }))))
        (λ c.
          publish_ready-IsAnswered _ _ _ _ _ _
            (inr (record { overview = overview; crops = crops; objects = inl c })))

  process_entry-IsAnswered :
      (overview_ref : Text) (crop_refs : List Text) (r : Service × Option Entry)
      → ((entry : Entry) → r.1 ≡ some entry → IsFrame s.cache job entry)
      → IsBacked g w job s r.0.ledger
      → All (IsPictured g w s job) crop_refs
      → IsAnswered
          (process_entry g w job (wants_overview job) (wants_crops job) overview_ref crop_refs r).1
  unfolding process_entry text_beq
  process_entry-IsAnswered overview_ref crop_refs (t, none) from b crops =
      publish_ready-IsAnswered _ (codes "not_found") _ _ _ _ (inl refl)
  process_entry-IsAnswered overview_ref crop_refs (t, some entry) from b crops =
      let P = λ (x : Service × Option Ready). IsAnswered x.1 in
      let (ref, shown) = encode_overview-IsShown g w job s t entry (from entry refl) b in
      if_split P (wants_overview job) _ _
        (λ o.
          outcome_split P (encode_overview g w t entry job).1 _ _
            (λ reason e. publish_ready-IsAnswered _ (codes "error") _ _ _ _ (inl refl))
            (λ d e.
              let shows = subst (Shows g w job s ref) e shown.shows in
              process_crops-IsAnswered entry crop_refs _ d.0 d.1 (from entry refl) shown.backed
                (inr shows.1) crops))
        (λ o.
          process_crops-IsAnswered entry crop_refs t overview_ref false (from entry refl) b (inl o)
            crops)

  resolve_entry-IsFrame :
      (t : Service) (entry : Entry)
      → t.cache ≡ s.cache
      → (resolve_entry w t job).1 ≡ some entry
      → IsFrame s.cache job entry
  unfolding resolve_entry
  resolve_entry-IsFrame t entry same e = (
    w.clock t.reads,
    subst (λ c. (resolve c (request_of job) (w.clock t.reads)).1 ≡ some entry) same e,
  )

  resolve_entry-ledger : (t : Service) → (resolve_entry w t job).0.ledger ≡ t.ledger
  unfolding resolve_entry
  resolve_entry-ledger t = refl

  process_job-IsAnswered : IsAnswered (process_job g w s job).1
  unfolding process_job
  process_job-IsAnswered =
      let P = λ (x : Service × Option Ready). IsAnswered x.1 in
      let r1 = overview_known g w s job (wants_overview job) in
      let r2 = crops_known g w r1.0 job (wants_crops job) in
      let overview = overview_known-IsOverviewLooked g w job s (wants_overview job) in
      let crops = crops_known-IsCropsLooked g w job s r1.0 (wants_crops job) overview.backed in
      let same : r2.0.cache ≡ s.cache =
        cache-crops_known g w job r1.0 (wants_crops job)
        ∙ cache-overview_known g w job s (wants_overview job) in
      if_split P (r1.2 && r2.2) _ _
        (λ both. publish_ready-IsAnswered _ _ _ _ _ _ (
          inr (record {
            overview = overview.pictured (ground arith);
            crops = crops.pictured;
            objects = crops.covers (ground arith);
          })))
        (λ more.
          process_entry-IsAnswered _ _ _ (λ entry e. resolve_entry-IsFrame r2.0 entry same e)
            (subst (IsBacked g w job s) (sym (resolve_entry-ledger r2.0)) crops.backed)
            crops.pictured)

answered :
    (g : ServiceConfig) (w : World) (s : Service) (job : Job) (m : Ready)
    → IsAnswered g w job s (some m)
    → (m.status == codes "ok") ≡ true
    → HasPictures g w s job m.overview_ref m.crop_refs
answered g w s job m (inl other) ok = absurd (cc)
answered g w s job m (inr pictures) ok = pictures

-- A job that is answered "ok" has what it wanted, whatever the encoder and the clock answer: an
-- overview's reference if an overview was wanted, at least one crop's reference for each of its
-- objects if crops were wanted, with the reference of every object that names one among them, and
-- no empty reference. Behind each of these references stands a picture: either the ledger had it
-- before the job, or the encoder wrote a picture of the frame that the cache has for the job, or
-- of a crop of that frame, to the file of the reference.
pub process_job_complete :
    (g : ServiceConfig) (w : World) (s : Service) (job : Job) (m : Ready)
    → (process_job g w s job).1 ≡ some m
    → (m.status == codes "ok") ≡ true
    → (has_evidence job m.overview_ref m.crop_refs ≡ true)
      × HasPictures g w s job m.overview_ref m.crop_refs
process_job_complete g w s job m e ok = (
  process_job-has_evidence g w s job m e ok,
  answered g w s job m (subst (IsAnswered g w job s) e (process_job-IsAnswered g w job s)) ok,
)
