-- ===== src/Evidence/Requests/Pictures/Known.antt =====
-- The pictures behind the references that are known before the frame is looked up.
use vms_engine.Common.{
  ◌≡◌, refl, ◌⊎◌, inl, inr, Bool, true, false, not, ◌&&◌, List, [], ◌∷◌, ◌++◌, Text, text_eq,
  is_empty, if_keep, if_split, All, arith,
}
use vms_engine.Evidence.Requests.{
  RequestObject, Job, ServiceConfig, World, Service, was_encoded, overview_known, crops_known_from,
  crops_known,
}
use vms_engine.Evidence.Requests.Pictures.{
  IsPictured, IsBacked, start-IsBacked, was_encoded-IsBacked, was_encoded-IsPictured,
}
use vms_engine.Evidence.Requests.Pictures.Steps.{Covers, crops_known_from-IsLooked}

pub cache-overview_known :
    (g : ServiceConfig) (w : World) (job : Job) (s : Service) (needs : Bool)
    → (overview_known g w s job needs).0.cache ≡ s.cache
unfolding overview_known was_encoded
cache-overview_known g w job s needs = ground arith

cache-crops_known_from :
    (g : ServiceConfig) (w : World) (job : Job) (s : Service) (os : List RequestObject)
    (refs : List Text)
    → (crops_known_from g w job s os refs).0.cache ≡ s.cache
unfolding crops_known_from was_encoded
cache-crops_known_from g w job s [] refs = refl
cache-crops_known_from g w job s (o ∷ os) refs =
    let P = λ (x : Service × List Text × Bool). x.0.cache ≡ s.cache in
    if_keep P (is_empty o.crop_ref) _ _ refl (
      if_keep P (was_encoded g w s job o.crop_ref).1 _ _
        (cache-crops_known_from g w job (was_encoded g w s job o.crop_ref).0 os
          (refs ++ o.crop_ref ∷ []))
        refl)

pub cache-crops_known :
    (g : ServiceConfig) (w : World) (job : Job) (s : Service) (needs : Bool)
    → (crops_known g w s job needs).0.cache ≡ s.cache
unfolding crops_known
cache-crops_known g w job s needs =
    if_keep (λ (x : Service × List Text × Bool). x.0.cache ≡ s.cache)
      (needs && not (is_empty job.objects)) _ _ (cache-crops_known_from g w job s job.objects [])
      refl

module _ (g : ServiceConfig) (w : World) (job : Job) (s : Service) where
  -- The overview before the frame is looked up.
  pub record IsOverviewLooked (needs : Bool) (x : Service × Text × Bool) : Type 0 where
    pub backed : IsBacked g w job s x.0.ledger
    pub pictured : x.2 ≡ true → (needs ≡ false) ⊎ IsPictured g w s job x.1

  pub overview_known-IsOverviewLooked :
      (needs : Bool) → IsOverviewLooked needs (overview_known g w s job needs)
  unfolding overview_known
  overview_known-IsOverviewLooked needs =
      let P = IsOverviewLooked needs in
      let b = start-IsBacked g w job s in
      let b' = was_encoded-IsBacked g w job s s job.overview_ref b in
      if_split P (needs && not (is_empty job.overview_ref)) _ _
        (λ e.
          if_split P (was_encoded g w s job job.overview_ref).1 _ _
            (λ known. record {
              backed = b';
              pictured = λ d. inr (was_encoded-IsPictured g w job s s job.overview_ref b known);
            })
            (λ unknown. record { backed = b'; pictured = λ d. absurd (cc) }))
        (λ e. record { backed = b; pictured = λ d. inl (ground arith) })

  -- The crops before the frame is looked up.
  pub record IsCropsLooked (needs : Bool) (x : Service × List Text × Bool) : Type 0 where
    pub backed : IsBacked g w job s x.0.ledger
    pub pictured : All (IsPictured g w s job) x.1
    pub covers : x.2 ≡ true → (needs ≡ false) ⊎ Covers job.objects x.1

  pub crops_known-IsCropsLooked :
      (t : Service) (needs : Bool)
      → IsBacked g w job s t.ledger
      → IsCropsLooked needs (crops_known g w t job needs)
  unfolding crops_known
  crops_known-IsCropsLooked t needs b =
      let looked = crops_known_from-IsLooked g w job s t job.objects [] b tt in
      if_split (IsCropsLooked needs) (needs && not (is_empty job.objects)) _ _
        (λ e. record {
          backed = looked.backed;
          pictured = looked.pictured;
          covers = λ d. inr ((looked.collected d).covers);
        })
        (λ e. record { backed = b; pictured = tt; covers = λ d. inl (ground arith) })
