-- ===== src/Evidence/Requests/Pictures/Steps.antt =====
-- The pictures behind the references that the loops of a job collect.
use vms_engine.Common.{
  ℕ, ◌≡◌, refl, sym, ◌∙◌, subst, ◌+◌, ◌⊎◌, inl, inr, Bool, true, false, not, ◌&&◌, ◌||◌, Option,
  none, some, List, [], ◌∷◌, ◌++◌, Text, is_empty, if_keep, if_split, In, In-append_left,
  In-append_right, All, Bool-cases, if◌then◌else◌,
}
use vms_engine.Evidence.Cache.{Entry, ObjectSnapshot, find_object}
use vms_engine.Evidence.Output.{Outcome, outcome_split, done, failed, FilePath}
use vms_engine.Evidence.Requests.{
  RequestObject, Job, ServiceConfig, World, Service, was_encoded, crops_known_from, written,
}
use vms_engine.Evidence.Requests.Encode.{
  is_missing, encode_at, encode_overview, crop_of, crop_ref_of, encode_crop, crop_step,
  encode_crops_from,
}
use vms_engine.Evidence.Requests.Pictures.{
  IsFrame, Written, IsPictured, IsBacked, was_encoded-IsBacked, was_encoded-IsPictured,
  mark_encoded-IsBacked,
}

-- Every object that names a reference has it among `refs`.
abbrev pub Covers : List RequestObject → List Text → Type 0
Covers os refs = All (λ o. (is_empty o.crop_ref ≡ true) ⊎ In o.crop_ref refs) os

All-append_one :
    (P : Text → Type 0) (xs : List Text) (x : Text) → All P xs → P x → All P (xs ++ x ∷ [])
All-append_one P [] x h p = (p, tt)
All-append_one P (y ∷ xs) x h p = (h.0, All-append_one P xs x h.1 p)

module _ (g : ServiceConfig) (w : World) (job : Job) (s : Service) where
  -- The reference of a result is `ref`, and has its picture.
  abbrev pub Shows : Text → Outcome (Text × Bool) → Type 0
  Shows ref (done d) = (d.0 ≡ ref) × IsPictured g w s job d.0
  Shows ref (failed reason) = Unit

  pub record IsShown (ref : Text) (x : Service × Outcome (Text × Bool)) : Type 0 where
    pub backed : IsBacked g w job s x.0.ledger
    pub shows : Shows ref x.1

  written-IsShown :
      (t : Service) (ref : Text) (answer : Option Text)
      → IsBacked g w job s t.ledger
      → (answer ≡ none → Written g w s.cache job ref)
      → IsShown ref (written g w t job ref answer)
  unfolding written
  written-IsShown t ref none b new = record {
    backed = mark_encoded-IsBacked g w job s t ref (new refl) b;
    shows = (refl, inr (new refl));
  }
  written-IsShown t ref (some reason) b new = record { backed = b; shows = tt }

  encode_at-IsShown :
      (t : Service) (ref : Text) (encoder : FilePath → Option Text) (o : Outcome FilePath)
      → IsBacked g w job s t.ledger
      → ((p : FilePath) → o ≡ done p → encoder p ≡ none → Written g w s.cache job ref)
      → IsShown ref (encode_at g w t job ref encoder o)
  unfolding encode_at
  encode_at-IsShown t ref encoder (failed reason) b new = record { backed = b; shows = tt }
  encode_at-IsShown t ref encoder (done p) b new =
      let b' = was_encoded-IsBacked g w job s t ref b in
      if_split {A = Service × Outcome (Text × Bool)} (IsShown ref) (was_encoded g w t job ref).1 _ _
        (λ e. record { backed = b'; shows = (refl, was_encoded-IsPictured g w job s t ref b e) })
        (λ e. written-IsShown _ ref (encoder p) b' (new p refl))

  pub encode_overview-IsShown :
      (t : Service) (entry : Entry)
      → IsFrame s.cache job entry
      → IsBacked g w job s t.ledger
      → (ref : Text) × IsShown ref (encode_overview g w t entry job)
  unfolding encode_overview
  encode_overview-IsShown t entry from b = (
    if not (is_empty job.overview_ref) then job.overview_ref else entry.meta.overview_ref,
    encode_at-IsShown t _ _ _ b (λ p e ok. (p, entry, e, from, inl ok)),
  )

  encode_crop-IsShown :
      (t : Service) (entry : Entry) (crop_index : ℕ) (o : RequestObject)
      (cached : Option ObjectSnapshot)
      → IsFrame s.cache job entry
      → IsBacked g w job s t.ledger
      → IsShown
          (crop_ref_of entry crop_index o cached)
          (encode_crop g w t entry job crop_index o cached)
  unfolding encode_crop
  encode_crop-IsShown t entry crop_index o cached from b =
      if_keep {A = Service × Outcome (Text × Bool)} (IsShown _)
        (is_missing cached && not o.has_bbox) _ _ (record { backed = b; shows = tt })
        (encode_at-IsShown t _ _ _ b (λ p e ok. (p, entry, e, from, inr (crop_of o cached, ok))))

  own_ref :
      (entry : Entry) (crop_index : ℕ) (o : RequestObject) (cached : Option ObjectSnapshot)
      → is_empty o.crop_ref ≡ false
      → o.crop_ref ≡ crop_ref_of entry crop_index o cached
  unfolding crop_ref_of
  own_ref entry crop_index o cached e = rw e refl

  crop_step-IsShown :
      (t : Service) (entry : Entry) (crop_index : ℕ) (o : RequestObject)
      → IsFrame s.cache job entry
      → IsBacked g w job s t.ledger
      → IsShown
          (crop_ref_of entry crop_index o
            (find_object entry o.object_key o.instance_key o.object_id))
          (crop_step g w t entry job crop_index o)
  unfolding crop_step
  crop_step-IsShown t entry crop_index o from b =
      let cached = find_object entry o.object_key o.instance_key o.object_id in
      let P = λ (x : Service × Outcome (Text × Bool)).
        IsShown (crop_ref_of entry crop_index o cached) x in
      let b' = was_encoded-IsBacked g w job s t o.crop_ref b in
      if_split P (is_empty o.crop_ref) _ _
        (λ e. encode_crop-IsShown t entry crop_index o cached from b)
        (λ own.
          if_split P (was_encoded g w t job o.crop_ref).1 _ _
            (λ e. record {
              backed = b';
              shows = (
                own_ref entry crop_index o cached own,
                was_encoded-IsPictured g w job s t o.crop_ref b e,
              );
            })
            (λ e. encode_crop-IsShown _ entry crop_index o cached from b'))

  -- What the loops have collected: pictures, those of `os` among them, and all of `refs`.
  pub record IsCollected (os : List RequestObject) (refs : List Text) (all : List Text)
      : Type 0 where
    pub pictured : All (IsPictured g w s job) all
    pub covers : Covers os all
    pub grown : (x : Text) → In x refs → In x all

  -- One more object, whose reference is `ref`.
  IsCollected-step :
      (o : RequestObject) (os : List RequestObject) (refs all : List Text) (ref : Text)
      → (is_empty o.crop_ref ≡ false → ref ≡ o.crop_ref)
      → IsCollected os (refs ++ ref ∷ []) all
      → IsCollected (o ∷ os) refs all
  IsCollected-step o os refs all ref own h = record {
    pictured = h.pictured;
    covers = (
      elim (Bool-cases (is_empty o.crop_ref)) [
        | inl e ↦ inl e
        | inr e ↦ inr (
            subst (λ x. In x all) (own e)
              (h.grown ref (In-append_right ref refs (ref ∷ []) (inl refl))))
      ],
      h.covers,
    );
    grown = λ x m. h.grown x (In-append_left x refs (ref ∷ []) m);
  }

  abbrev pub Collects : List RequestObject → List Text → Outcome (List Text × Bool) → Type 0
  Collects os refs (done d) = IsCollected os refs d.0
  Collects os refs (failed reason) = Unit

  Collects-step :
      (o : RequestObject) (os : List RequestObject) (refs : List Text) (ref : Text)
      (r : Outcome (List Text × Bool))
      → (is_empty o.crop_ref ≡ false → ref ≡ o.crop_ref)
      → Collects os (refs ++ ref ∷ []) r
      → Collects (o ∷ os) refs r
  Collects-step o os refs ref (done d) own h = IsCollected-step o os refs d.0 ref own h
  Collects-step o os refs ref (failed reason) own h = tt

  pub encode_crops_from-Collects :
      (entry : Entry) (t : Service) (os : List RequestObject) (crop_index : ℕ)
      (refs : List Text × Bool)
      → IsFrame s.cache job entry
      → IsBacked g w job s t.ledger
      → All (IsPictured g w s job) refs.0
      → Collects os refs.0 (encode_crops_from g w entry job t os crop_index refs).1
  unfolding encode_crops_from
  encode_crops_from-Collects entry t [] crop_index refs from b h = record {
    pictured = h;
    covers = tt;
    grown = λ x m. m;
  }
  encode_crops_from-Collects entry t (o ∷ os) crop_index refs from b h =
      let shown = crop_step-IsShown t entry crop_index o from b in
      let cached = find_object entry o.object_key o.instance_key o.object_id in
      outcome_split (λ (x : Service × Outcome (List Text × Bool)). Collects (o ∷ os) refs.0 x.1)
        (crop_step g w t entry job crop_index o).1 _ _ (λ reason e. tt)
        (λ r e.
          let shows = subst (Shows (crop_ref_of entry crop_index o cached)) e shown.shows in
          Collects-step o os refs.0 r.0 _
            (λ own. shows.0 ∙ sym (own_ref entry crop_index o cached own))
            (encode_crops_from-Collects entry (crop_step g w t entry job crop_index o).0 os
              (crop_index + 1) (refs.0 ++ r.0 ∷ [], refs.1 || r.1) from shown.backed
              (All-append_one (IsPictured g w s job) refs.0 r.0 h shows.1)))

  -- What the first look at the crops leaves: if nothing is left to do, then all of them.
  pub record IsLooked (os : List RequestObject) (refs : List Text) (x : Service × List Text × Bool)
      : Type 0 where
    pub backed : IsBacked g w job s x.0.ledger
    pub pictured : All (IsPictured g w s job) x.1
    pub collected : x.2 ≡ true → IsCollected os refs x.1

  pub nothing-IsLooked :
      (os : List RequestObject) (refs : List Text) (t : Service)
      → IsBacked g w job s t.ledger
      → IsLooked os refs (t, [], false)
  nothing-IsLooked os refs t b = record { backed = b; pictured = tt; collected = λ e. absurd (cc) }

  pub crops_known_from-IsLooked :
      (t : Service) (os : List RequestObject) (refs : List Text)
      → IsBacked g w job s t.ledger
      → All (IsPictured g w s job) refs
      → IsLooked os refs (crops_known_from g w job t os refs)
  unfolding crops_known_from
  crops_known_from-IsLooked t [] refs b h = record {
    backed = b;
    pictured = h;
    collected = λ e. record { pictured = h; covers = tt; grown = λ x m. m };
  }
  crops_known_from-IsLooked t (o ∷ os) refs b h =
      let P = IsLooked (o ∷ os) refs in
      let b' = was_encoded-IsBacked g w job s t o.crop_ref b in
      if_split P (is_empty o.crop_ref) _ _ (λ e. nothing-IsLooked (o ∷ os) refs t b)
        (λ own.
          if_split P (was_encoded g w t job o.crop_ref).1 _ _
            (λ known.
              let rest =
                crops_known_from-IsLooked (was_encoded g w t job o.crop_ref).0 os
                  (refs ++ o.crop_ref ∷ []) b'
                  (All-append_one (IsPictured g w s job) refs o.crop_ref h
                    (was_encoded-IsPictured g w job s t o.crop_ref b known)) in
              record {
                backed = rest.backed;
                pictured = rest.pictured;
                collected =
                    λ e. IsCollected-step o os refs _ o.crop_ref (λ x. refl) (rest.collected e);
              })
            (λ unknown. nothing-IsLooked (o ∷ os) refs _ b'))
