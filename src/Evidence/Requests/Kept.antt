-- ===== src/Evidence/Requests/Kept.antt =====
-- The ledger and the frame cache stay in order while the service works.
use vms_engine.Common.{
  ℕ, Bool, false, not, ◌&&◌, Option, none, some, List, [], ◌∷◌, ◌++◌, Text, is_empty, if_keep,
}
use vms_engine.Evidence.Cache.{ObjectSnapshot, find_object, Entry}
use vms_engine.Evidence.Cache.Owned.{IsSound, resolve-IsSound}
use vms_engine.Evidence.Recent.Found.Kept.{
  IsKept, was_recently_encoded-IsKept, mark_recently_encoded-IsKept,
}
use vms_engine.Evidence.Output.{Outcome, outcome_split, done, failed, FilePath}
use vms_engine.Evidence.Requests.{
  RequestObject, Job, ServiceConfig, World, Service, Ready, wants_type, was_encoded, mark_encoded,
  publish_ready, overview_known, crops_known_from, crops_known, written,
}
use vms_engine.Evidence.Requests.Encode.{
  is_missing, encode_at, encode_overview, encode_crop, crop_step, encode_crops_from, encode_crops,
  objects_of,
}
use vms_engine.Evidence.Requests.Process.{
  publish_encoded, process_crops, process_entry, resolve_entry, process_job, request_of,
}

-- What holds between jobs.
pub record IsWell (g : ServiceConfig) (s : Service) : Type 0 where
  pub kept : IsKept g.recent s.ledger
  pub sound : IsSound s.cache

-- The service that a call leaves behind is in order.
abbrev pub Leaves {ℓ} : {A : Type ℓ} → ServiceConfig → Service × A → Type 0
Leaves g r = IsWell g r.0

module _ (g : ServiceConfig) (w : World) (job : Job) where
  was_encoded-IsWell :
      (s : Service) (ref : Text) → IsWell g s → IsWell g (was_encoded g w s job ref).0
  unfolding was_encoded
  was_encoded-IsWell s ref h = record {
    kept = was_recently_encoded-IsKept g.recent s.ledger job.route ref _ h.kept;
    sound = h.sound;
  }

  mark_encoded-IsWell :
      (s : Service) (ref : Text) → IsWell g s → IsWell g (mark_encoded g w s job ref)
  unfolding mark_encoded
  mark_encoded-IsWell s ref h = record {
    kept = mark_recently_encoded-IsKept g.recent s.ledger job.route ref _ h.kept;
    sound = h.sound;
  }

  publish_ready-IsWell :
      (s : Service) (status overview_ref : Text) (crop_refs : List Text) (failure reason : Text)
      → IsWell g s
      → IsWell g (publish_ready g w s job status overview_ref crop_refs failure reason).0
  unfolding publish_ready
  publish_ready-IsWell s status overview_ref crop_refs failure reason h =
      if_keep {A = Service × Option Ready} (Leaves g) (is_empty g.ready_channel) _ _ h
        (record { kept = h.kept; sound = h.sound })

  overview_known-IsWell :
      (s : Service) (needs : Bool) → IsWell g s → IsWell g (overview_known g w s job needs).0
  unfolding overview_known
  overview_known-IsWell s needs h =
      let h' = was_encoded-IsWell s job.overview_ref h in
      if_keep (λ (x : Service × Text × Bool). IsWell g x.0)
        (needs && not (is_empty job.overview_ref)) _ _
        (if_keep (λ (x : Service × Text × Bool). IsWell g x.0)
          (was_encoded g w s job job.overview_ref).1 _ _ h' h')
        h

  crops_known_from-IsWell :
      (s : Service) (os : List RequestObject) (refs : List Text)
      → IsWell g s
      → IsWell g (crops_known_from g w job s os refs).0
  unfolding crops_known_from
  crops_known_from-IsWell s [] refs h = h
  crops_known_from-IsWell s (o ∷ os) refs h =
      let h' = was_encoded-IsWell s o.crop_ref h in
      let rest =
        crops_known_from-IsWell (was_encoded g w s job o.crop_ref).0 os (refs ++ o.crop_ref ∷ [])
          h' in
      if_keep (λ (x : Service × List Text × Bool). IsWell g x.0) (is_empty o.crop_ref) _ _ h
        (if_keep (λ (x : Service × List Text × Bool). IsWell g x.0)
          (was_encoded g w s job o.crop_ref).1 _ _ rest h')

  crops_known-IsWell :
      (s : Service) (needs : Bool) → IsWell g s → IsWell g (crops_known g w s job needs).0
  unfolding crops_known
  crops_known-IsWell s needs h =
      if_keep (λ (x : Service × List Text × Bool). IsWell g x.0)
        (needs && not (is_empty job.objects)) _ _ (crops_known_from-IsWell s job.objects [] h) h

  written-IsWell :
      (s : Service) (ref : Text) (answer : Option Text)
      → IsWell g s
      → IsWell g (written g w s job ref answer).0
  unfolding written
  written-IsWell s ref none h = mark_encoded-IsWell s ref h
  written-IsWell s ref (some reason) h = h

  encode_at-IsWell :
      (s : Service) (ref : Text) (encoder : FilePath → Option Text) (o : Outcome FilePath)
      → IsWell g s
      → IsWell g (encode_at g w s job ref encoder o).0
  unfolding encode_at
  encode_at-IsWell s ref encoder (failed reason) h = h
  encode_at-IsWell s ref encoder (done path) h =
      let h' = was_encoded-IsWell s ref h in
      if_keep {A = Service × Outcome (Text × Bool)} (Leaves g) (was_encoded g w s job ref).1 _ _ h'
        (written-IsWell _ ref (encoder path) h')

  encode_overview-IsWell :
      (s : Service) (entry : Entry) → IsWell g s → IsWell g (encode_overview g w s entry job).0
  unfolding encode_overview
  encode_overview-IsWell s entry h = encode_at-IsWell s _ _ _ h

  encode_crop-IsWell :
      (s : Service) (entry : Entry) (crop_index : ℕ) (o : RequestObject)
      (cached : Option ObjectSnapshot)
      → IsWell g s
      → IsWell g (encode_crop g w s entry job crop_index o cached).0
  unfolding encode_crop
  encode_crop-IsWell s entry crop_index o cached h =
      let P : Service × Outcome (Text × Bool) → Type 0 = Leaves g in
      if_keep P (is_missing cached && not o.has_bbox) _ _ h (encode_at-IsWell s _ _ _ h)

  crop_step-IsWell :
      (s : Service) (entry : Entry) (crop_index : ℕ) (o : RequestObject)
      → IsWell g s
      → IsWell g (crop_step g w s entry job crop_index o).0
  unfolding crop_step
  crop_step-IsWell s entry crop_index o h =
      let P : Service × Outcome (Text × Bool) → Type 0 = Leaves g in
      let h' = was_encoded-IsWell s o.crop_ref h in
      let cached = find_object entry o.object_key o.instance_key o.object_id in
      if_keep P (is_empty o.crop_ref) _ _ (encode_crop-IsWell s entry crop_index o cached h) (
        if_keep P (was_encoded g w s job o.crop_ref).1 _ _ h'
          (encode_crop-IsWell _ entry crop_index o cached h'))

  encode_crops_from-IsWell :
      (entry : Entry) (s : Service) (os : List RequestObject) (crop_index : ℕ)
      (refs : List Text × Bool)
      → IsWell g s
      → IsWell g (encode_crops_from g w entry job s os crop_index refs).0
  unfolding encode_crops_from
  encode_crops_from-IsWell entry s [] crop_index refs h = h
  encode_crops_from-IsWell entry s (o ∷ os) crop_index refs h =
      let h' = crop_step-IsWell s entry crop_index o h in
      outcome_split {B = Service × Outcome (List Text × Bool)} (Leaves g)
        (crop_step g w s entry job crop_index o).1 _ _ (λ reason e. h')
        (λ r e. encode_crops_from-IsWell entry (crop_step g w s entry job crop_index o).0 os _ _ h')

  process_crops-IsWell :
      (entry : Entry) (needs_overview needs_crops : Bool) (crop_refs : List Text) (s : Service)
      (overview_ref : Text) (encoded : Bool)
      → IsWell g s
      → IsWell g
          (process_crops g w entry job needs_overview needs_crops crop_refs s overview_ref
            encoded).0
  unfolding process_crops publish_encoded encode_crops
  process_crops-IsWell entry needs_overview needs_crops crop_refs s overview_ref encoded h =
      let h' = encode_crops_from-IsWell entry s (objects_of job entry) 0 (crop_refs, false) h in
      let P : Service × Option Ready → Type 0 = Leaves g in
      if_keep P needs_crops _ _
        (outcome_split P (encode_crops g w s entry job crop_refs).1 _ _
          (λ reason e. publish_ready-IsWell _ _ _ _ _ _ h')
          (λ d e. publish_ready-IsWell _ _ _ _ _ _ h'))
        (publish_ready-IsWell _ _ _ _ _ _ h)

  process_entry-IsWell :
      (needs_overview needs_crops : Bool) (overview_ref : Text) (crop_refs : List Text)
      (r : Service × Option Entry)
      → IsWell g r.0
      → IsWell g (process_entry g w job needs_overview needs_crops overview_ref crop_refs r).0
  unfolding process_entry
  process_entry-IsWell needs_overview needs_crops overview_ref crop_refs (s, none) h =
      publish_ready-IsWell _ _ _ _ _ _ h
  process_entry-IsWell needs_overview needs_crops overview_ref crop_refs (s, some entry) h =
      let h' = encode_overview-IsWell s entry h in
      let P : Service × Option Ready → Type 0 = Leaves g in
      if_keep P needs_overview _ _
        (outcome_split P (encode_overview g w s entry job).1 _ _
          (λ reason e. publish_ready-IsWell _ _ _ _ _ _ h')
          (λ d e. process_crops-IsWell entry _ _ _ _ _ _ h'))
        (process_crops-IsWell entry _ _ _ _ _ _ h)

  resolve_entry-IsWell : (s : Service) → IsWell g s → IsWell g (resolve_entry w s job).0
  unfolding resolve_entry
  resolve_entry-IsWell s h = record {
    kept = h.kept;
    sound = resolve-IsSound s.cache (request_of job) (w.clock s.reads) h.sound;
  }

-- Whatever the encoder, the file system and the clock answer, a job leaves the ledger and the
-- frame cache in order if they were: both bounds are kept, and every record can be reached by the
-- pruning.
pub process_job-IsWell :
    (g : ServiceConfig) (w : World) (s : Service) (job : Job)
    → IsWell g s
    → IsWell g (process_job g w s job).0
unfolding process_job
process_job-IsWell g w s job h =
    let needs_overview = wants_type job.evidence_types _ in
    let h1 = overview_known-IsWell g w job s needs_overview h in
    let h2 = crops_known-IsWell g w job _ (wants_type job.evidence_types _) h1 in
    let P : Service × Option Ready → Type 0 = Leaves g in
    if_keep P _ _ _ (publish_ready-IsWell g w job _ _ _ _ _ _ h2)
      (process_entry-IsWell g w job _ _ _ _ _ (resolve_entry-IsWell g w job _ h2))
