-- ===== src/Evidence/Requests/Complete.antt =====
-- How many references an answer "ok" has.
use vms_engine.Common.{
  ℕ, ◌≡◌, ◌≤◌, ◌≢◌, refl, subst, ◌+◌, Bool, true, false, not, ◌&&◌, ◌||◌, Option, none, some, List,
  [], ◌∷◌, ◌++◌, Text, codes, text_eq, text_beq, ◌==◌, is_empty, if_keep, if_split, length,
  length-append, leb, arith, if◌then◌else◌, map,
}
use vms_engine.Evidence.Cache.{ObjectSnapshot, find_object, Entry}
use vms_engine.Evidence.Output.{Outcome, outcome_split, done, failed, FilePath, resolve_output_path}
use vms_engine.Evidence.Output.Inside.{resolve_output_path_inside}
use vms_engine.Evidence.Requests.{
  RequestObject, Job, ServiceConfig, World, Service, Ready, wants_type, was_encoded, publish_ready,
  overview_known, crops_known_from, crops_known, written,
}
use vms_engine.Evidence.Requests.Encode.{
  is_missing, encode_at, encode_overview, encode_crop, crop_step, encode_crops_from, encode_crops,
  objects_of, to_request,
}
use vms_engine.Evidence.Requests.Process.{
  publish_encoded, process_crops, process_entry, process_job,
}

abbrev pub all_named : List Text → Bool
all_named [] = true
all_named (r ∷ rs) = not (is_empty r) && all_named rs

-- The evidence that the job wants is in the message: an overview, and a crop for each object.
unfoldable pub has_evidence : Job → Text → List Text → Bool
has_evidence job overview_ref crop_refs =
    (not (wants_type job.evidence_types (codes "overview")) || not (is_empty overview_ref))
    && ((not (wants_type job.evidence_types (codes "crop"))
          || leb (length job.objects) (length crop_refs))
        && all_named crop_refs)

unfoldable is_answer : Job → Ready → Bool
is_answer job m = not (m.status == codes "ok") || has_evidence job m.overview_ref m.crop_refs

abbrev Answers : Job → Option Ready → Type 0
Answers job none = Unit
Answers job (some m) = is_answer job m ≡ true

all_named-append :
    (rs : List Text) (r : Text)
    → all_named rs ≡ true
    → is_empty r ≡ false
    → all_named (rs ++ r ∷ []) ≡ true
all_named-append [] r h n = ground arith
all_named-append (x ∷ rs) r h n = ground (arith, all_named-append rs r)

-- The reference of a result is not empty.
abbrev IsNamed : Outcome (Text × Bool) → Type 0
IsNamed (done d) = is_empty d.0 ≡ false
IsNamed (failed reason) = Unit

-- As many references as the loop has gone round, none of them empty.
abbrev Counts : ℕ → Outcome (List Text × Bool) → Type 0
Counts n (done d) = (length d.0 ≡ n) × (all_named d.0 ≡ true)
Counts n (failed reason) = Unit

Counts-of : {m n : ℕ} → m ≡ n → (o : Outcome (List Text × Bool)) → Counts m o → Counts n o
Counts-of e o h = subst (λ k. Counts k o) e h

filled : (ref : Text) → ref ≢ [] → is_empty ref ≡ false
filled [] n = absurd (n refl)
filled (c ∷ cs) n = refl

-- The references that are known, one for each of `n` objects if nothing is left to do.
record IsKnown (n : ℕ) (r : Service × List Text × Bool) : Type 0 where
  named : all_named r.1 ≡ true
  counted : r.2 ≡ true → length r.1 ≡ n

IsKnown-of : {m n : ℕ} → m ≡ n → {r : Service × List Text × Bool} → IsKnown m r → IsKnown n r
IsKnown-of e {r} h = subst (λ k. IsKnown k r) e h

nothing-IsKnown : (n : ℕ) (s : Service) → IsKnown n (s, [], false)
nothing-IsKnown n s = record { named = refl; counted = λ e. absurd (cc) }

-- What the first look at the crops promises.
record IsDone (needs : Bool) (os : List RequestObject) (r : Service × List Text × Bool)
    : Type 0 where
  named : all_named r.1 ≡ true
  covered : r.2 ≡ true → (not needs || leb (length os) (length r.1)) ≡ true

module _ (g : ServiceConfig) (w : World) (job : Job) where
  written-IsNamed :
      (s : Service) (ref : Text) (answer : Option Text)
      → is_empty ref ≡ false
      → IsNamed (written g w s job ref answer).1
  unfolding written
  written-IsNamed s ref none h = h
  written-IsNamed s ref (some reason) h = tt

  encode_at-IsNamed :
      (s : Service) (ref : Text) (encoder : FilePath → Option Text) (o : Outcome FilePath)
      → ((p : FilePath) → o ≡ done p → is_empty ref ≡ false)
      → IsNamed (encode_at g w s job ref encoder o).1
  unfolding encode_at
  encode_at-IsNamed s ref encoder (failed reason) h = tt
  encode_at-IsNamed s ref encoder (done p) h =
      if_keep (λ (x : Service × Outcome (Text × Bool)). IsNamed x.1) (was_encoded g w s job ref).1 _
        _ (h p refl) (written-IsNamed _ ref (encoder p) (h p refl))

  resolved-named :
      (ref : Text) (p : FilePath)
      → resolve_output_path w.make_dirs g.save_dir ref ≡ done p
      → is_empty ref ≡ false
  resolved-named ref p e = filled ref (resolve_output_path_inside w.make_dirs g.save_dir ref p e).0

  encode_overview-IsNamed :
      (s : Service) (entry : Entry) → IsNamed (encode_overview g w s entry job).1
  unfolding encode_overview
  encode_overview-IsNamed s entry = encode_at-IsNamed s _ _ _ (resolved-named _)

  encode_crop-IsNamed :
      (s : Service) (entry : Entry) (crop_index : ℕ) (o : RequestObject)
      (cached : Option ObjectSnapshot)
      → IsNamed (encode_crop g w s entry job crop_index o cached).1
  unfolding encode_crop
  encode_crop-IsNamed s entry crop_index o cached =
      if_keep (λ (x : Service × Outcome (Text × Bool)). IsNamed x.1)
        (is_missing cached && not o.has_bbox) _ _ tt (encode_at-IsNamed s _ _ _ (resolved-named _))

  crop_step-IsNamed :
      (s : Service) (entry : Entry) (crop_index : ℕ) (o : RequestObject)
      → IsNamed (crop_step g w s entry job crop_index o).1
  unfolding crop_step
  crop_step-IsNamed s entry crop_index o =
      let P = λ (x : Service × Outcome (Text × Bool)). IsNamed x.1 in
      let cached = find_object entry o.object_key o.instance_key o.object_id in
      if_split P (is_empty o.crop_ref) _ _ (λ e. encode_crop-IsNamed s entry crop_index o cached)
        (λ e.
          if_keep P (was_encoded g w s job o.crop_ref).1 _ _ e
            (encode_crop-IsNamed _ entry crop_index o cached))

  encode_crops_from-Counts :
      (entry : Entry) (s : Service) (os : List RequestObject) (crop_index : ℕ)
      (refs : List Text × Bool)
      → all_named refs.0 ≡ true
      → Counts (length refs.0 + length os) (encode_crops_from g w entry job s os crop_index refs).1
  unfolding encode_crops_from
  encode_crops_from-Counts entry s [] crop_index refs h = (omega arith, h)
  encode_crops_from-Counts entry s (o ∷ os) crop_index refs h =
      let n = length refs.0 + length (o ∷ os) in
      outcome_split (λ (x : Service × Outcome (List Text × Bool)). Counts n x.1)
        (crop_step g w s entry job crop_index o).1 _ _ (λ reason e. tt)
        (λ r e.
          let named = subst IsNamed e (crop_step-IsNamed s entry crop_index o) in
          let count : length (refs.0 ++ r.0 ∷ []) + length os ≡ n =
            omega (arith, length-append refs.0 (r.0 ∷ [])) in
          Counts-of count _ (
            encode_crops_from-Counts entry (crop_step g w s entry job crop_index o).0 os
              (crop_index + 1) (refs.0 ++ r.0 ∷ [], refs.1 || r.1)
              (all_named-append refs.0 r.0 h named)))

  crops_known_from-IsKnown :
      (s : Service) (os : List RequestObject) (refs : List Text)
      → all_named refs ≡ true
      → IsKnown (length refs + length os) (crops_known_from g w job s os refs)
  unfolding crops_known_from
  crops_known_from-IsKnown s [] refs h = record { named = h; counted = λ e. omega arith }
  crops_known_from-IsKnown s (o ∷ os) refs h =
      let n = length refs + length (o ∷ os) in
      let s' = (was_encoded g w s job o.crop_ref).0 in
      let count : length (refs ++ o.crop_ref ∷ []) + length os ≡ n =
        omega (arith, length-append refs (o.crop_ref ∷ [])) in
      if_split (IsKnown n) (is_empty o.crop_ref) _ _ (λ e. nothing-IsKnown n s)
        (λ e.
          if_keep (IsKnown n) (was_encoded g w s job o.crop_ref).1 _ _
            (IsKnown-of count (
              crops_known_from-IsKnown s' os (refs ++ o.crop_ref ∷ [])
                (all_named-append refs o.crop_ref h e)))
            (nothing-IsKnown n s'))

  overview_known-IsDone :
      (s : Service) (needs : Bool)
      → (overview_known g w s job needs).2 ≡ true
      → (not needs || not (is_empty (overview_known g w s job needs).1)) ≡ true
  unfolding overview_known
  overview_known-IsDone s needs h = ground arith

  crops_known-IsDone :
      (s : Service) (needs : Bool) → IsDone needs job.objects (crops_known g w s job needs)
  unfolding crops_known
  crops_known-IsDone s needs =
      let known = crops_known_from-IsKnown s job.objects [] refl in
      if_split (IsDone needs job.objects) (needs && not (is_empty job.objects)) _ _
        (λ e. record { named = known.named; covered = λ d. ground (arith, known.counted d) })
        (λ e. record { named = refl; covered = λ d. ground arith })

  publish_ready-Answers :
      (s : Service) (status overview_ref : Text) (crop_refs : List Text) (failure reason : Text)
      → (not (status == codes "ok") || has_evidence job overview_ref crop_refs) ≡ true
      → Answers job (publish_ready g w s job status overview_ref crop_refs failure reason).1
  unfolding publish_ready is_answer
  publish_ready-Answers s status overview_ref crop_refs failure reason h =
      if_keep (λ (r : Service × Option Ready). Answers job r.1) (is_empty g.ready_channel) _ _ tt h

  publish_other-Answers :
      (s : Service) (status overview_ref : Text) (crop_refs : List Text) (failure reason : Text)
      → (status == codes "ok") ≡ false
      → Answers job (publish_ready g w s job status overview_ref crop_refs failure reason).1
  publish_other-Answers s status overview_ref crop_refs failure reason h =
      publish_ready-Answers s status overview_ref crop_refs failure reason (ground arith)

  abbrev wants_overview : Bool
  wants_overview = wants_type job.evidence_types (codes "overview")

  abbrev wants_crops : Bool
  wants_crops = wants_type job.evidence_types (codes "crop")

  objects_of-length : (entry : Entry) → length job.objects ≤ length (objects_of job entry)
  unfolding objects_of
  objects_of-length entry =
      elim job.objects
        as (λ os. length os ≤ length (if is_empty os then map to_request entry.objects else os)) [
          | [] ↦ omega arith
          | o ∷ os ↦ omega arith
        ]

  process_crops-Answers :
      (entry : Entry) (crop_refs : List Text) (s : Service) (overview_ref : Text) (encoded : Bool)
      → (not wants_overview || not (is_empty overview_ref)) ≡ true
      → all_named crop_refs ≡ true
      → Answers job
          (process_crops g w entry job wants_overview wants_crops crop_refs s overview_ref
            encoded).1
  unfolding process_crops publish_encoded encode_crops has_evidence text_beq
  process_crops-Answers entry crop_refs s overview_ref encoded h named =
      let P = λ (x : Service × Option Ready). Answers job x.1 in
      let refs =
        encode_crops_from-Counts entry s (objects_of job entry) 0 (crop_refs, false) named in
      if_split P wants_crops _ _
        (λ c.
          outcome_split P (encode_crops g w s entry job crop_refs).1 _ _
            (λ reason e. publish_other-Answers _ (codes "error") _ _ _ _ refl)
            (λ d e.
              let count =
                subst (Counts (length crop_refs + length (objects_of job entry))) e refs in
              publish_ready-Answers _ _ _ _ _ _
                (ground (arith, count.0, count.1, objects_of-length entry))))
        (λ c. publish_ready-Answers _ _ _ _ _ _ (ground arith))

  process_entry-Answers :
      (overview_ref : Text) (crop_refs : List Text) (r : Service × Option Entry)
      → all_named crop_refs ≡ true
      → Answers job (process_entry g w job wants_overview wants_crops overview_ref crop_refs r).1
  unfolding process_entry text_beq
  process_entry-Answers overview_ref crop_refs (s, none) named =
      publish_other-Answers _ (codes "not_found") _ _ _ _ refl
  process_entry-Answers overview_ref crop_refs (s, some entry) named =
      let P = λ (x : Service × Option Ready). Answers job x.1 in
      if_split P wants_overview _ _
        (λ o.
          outcome_split P (encode_overview g w s entry job).1 _ _
            (λ reason e. publish_other-Answers _ (codes "error") _ _ _ _ refl)
            (λ d e.
              let filled = subst IsNamed e (encode_overview-IsNamed s entry) in
              process_crops-Answers entry crop_refs _ d.0 d.1 (ground arith) named))
        (λ o. process_crops-Answers entry crop_refs s overview_ref false (ground arith) named)

  process_job-Answers : (s : Service) → Answers job (process_job g w s job).1
  unfolding process_job has_evidence
  process_job-Answers s =
      let P = λ (x : Service × Option Ready). Answers job x.1 in
      let s1 = (overview_known g w s job wants_overview).0 in
      let done = crops_known-IsDone s1 wants_crops in
      if_split P
        ((overview_known g w s job wants_overview).2 && (crops_known g w s1 job wants_crops).2) _ _
        (λ both.
          publish_ready-Answers _ _ _ _ _ _
            (ground (arith, overview_known-IsDone s wants_overview, done.covered, done.named)))
        (λ more. process_entry-Answers _ _ _ done.named)

-- An answer "ok" has as many references as were wanted, and no empty one.
pub process_job-has_evidence :
    (g : ServiceConfig) (w : World) (s : Service) (job : Job) (m : Ready)
    → (process_job g w s job).1 ≡ some m
    → (m.status == codes "ok") ≡ true
    → has_evidence job m.overview_ref m.crop_refs ≡ true
unfolding is_answer
process_job-has_evidence g w s job m e ok =
    let answer = subst (Answers job) e (process_job-Answers g w job s) in ground arith
