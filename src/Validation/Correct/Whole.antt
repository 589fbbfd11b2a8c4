-- ===== src/Validation/Correct/Whole.antt =====
-- The whole validation.
use vms_engine.Common.{◌≡◌, ◌≢◌, refl, ap, ◌⊎◌, ◌↔◌, true, false, [], text_eq, nat_eq, All}
use vms_engine.Validation.{
  PipelineConfig, validate_pipeline_meta, validate_sources, validate_processing, validate_visuals,
  validate_outputs, validate_handlers, validate,
}
use vms_engine.Validation.Correct.{Checks, Checks-then, Checks-require, Checks-as, is_empty_iff}
use vms_engine.Validation.Correct.Parts.{
  IsValidSources, IsValidProcessing, IsValidOutputs, IsValidHandler, sources-Checks,
  processing-Checks, visuals-Checks, outputs-Checks, handlers-Checks,
}

-- A configuration as it should be.
pub record IsValid (c : PipelineConfig) : Type 0 where
  pub id : c.pipeline_id ≢ []
  pub sources : IsValidSources c.sources
  pub processing : IsValidProcessing [] c.processing_elements
  pub visuals : (c.visuals_enable ≡ false) ⊎ All (λ id. id ≢ []) c.visuals_elements
  pub outputs : IsValidOutputs [] c.outputs
  pub handlers : All IsValidHandler c.event_handlers

validate_from :
    (c : PipelineConfig)
    → Checks
        (λ v. validate_handlers c.event_handlers (
          validate_outputs [] c.outputs (
            validate_visuals c.visuals_enable c.visuals_elements (
              validate_processing [] c.processing_elements
                (validate_sources c.sources (validate_pipeline_meta c.pipeline_id v))))))
        (IsValid c)
unfolding validate_pipeline_meta
validate_from c =
    Checks-as _ _ _
      (λ p. record {
        id = p.0.0.0.0.0;
        sources = p.0.0.0.0.1;
        processing = p.0.0.0.1;
        visuals = p.0.0.1;
        outputs = p.0.1;
        handlers = p.1;
      })
      (λ q. (((((q.id, q.sources), q.processing), q.visuals), q.outputs), q.handlers))
      (Checks-then _ _ _ _
        (Checks-then _ _ _ _
          (Checks-then _ _ _ _
            (Checks-then _ _ _ _
              (Checks-then _ _ _ _ (Checks-require _ _ _ (is_empty_iff c.pipeline_id))
                (sources-Checks c.sources))
              (processing-Checks [] c.processing_elements))
            (visuals-Checks c.visuals_enable c.visuals_elements))
          (outputs-Checks [] c.outputs))
        (handlers-Checks c.event_handlers))

-- The validator answers true exactly if every part of the configuration is as it should be, and it
-- reports no error exactly if it answers true.
pub validate_lem :
    (c : PipelineConfig)
    → (((validate c).0 ≡ true) ↔ IsValid c) × (((validate c).0 ≡ true) ↔ ((validate c).1 ≡ []))
unfolding validate
validate_lem c =
    let checks = validate_from c in
    let holds = λ (e : (validate c).0 ≡ true). (checks.holds (true, []) e).1 in
    let told = λ (e : (validate c).1 ≡ []). (checks.told (true, []) e).1 in
    let passes = λ (p : IsValid c). checks.passes (true, []) refl p in
    (
      (holds, λ p. ap (λ v. v.0) (passes p)),
      (λ e. ap (λ v. v.1) (passes (holds e)), λ e. ap (λ v. v.0) (passes (told e))),
    )
