-- ===== src/Validation/Tests.antt =====
-- A configuration with one camera, and one whose outputs share an id.
use vms_engine.Common.{
  ◌≡◌, ◌↔◌, refl, true, false, [], ◌∷◌, codes, pos, text_beq, contains, to_unsigned,
}
use vms_engine.Validation.{
  PipelineConfig, require, validate_pipeline_meta, validate_branch_element, validate_branch,
  validate_manual, validate_sources, validate_processing, validate_visuals_elements,
  validate_visuals, validate_outputs, validate_handler, validate_handlers, validate,
}
use vms_engine.Validation.Correct.Whole.{IsValid, validate_lem}

-- What a validation unfolds.
program : Unit {0}
unfolding text_beq contains to_unsigned require validate_pipeline_meta validate_branch_element
    validate_branch validate_manual validate_sources validate_processing validate_visuals_elements
    validate_visuals validate_outputs validate_handler validate_handlers validate
program = tt

abbrev one_camera : PipelineConfig
one_camera = record {
  pipeline_id = codes "p";
  sources = record {
    type = codes "nvurisrcbin";
    max_batch_size = pos 4;
    width = pos 1920;
    height = pos 1080;
    mux_implementation = codes "new";
    mux_batch_size = pos 0;
    mux_max_sources = pos 0;
    mux_max_latency_ns = 40000000;
    branch_elements = [];
    camera_ids = codes "gate" ∷ [];
  };
  processing_elements = record { id = codes "pgie"; type = codes "nvinfer" } ∷ [];
  visuals_enable = false;
  visuals_elements = [];
  outputs = record { id = codes "out"; elements = codes "fakesink" ∷ [] } ∷ [];
  event_handlers = [];
}

one_camera_valid : (validate one_camera).0 ≡ true
unfolding program
one_camera_valid = refl

two_outputs_refused :
    validate (record one_camera {
      outputs =
          record { id = codes "out"; elements = codes "fakesink" ∷ [] }
          ∷ record { id = codes "out"; elements = codes "filesink" ∷ [] }
          ∷ [];
    })
    ≡ (false, codes "duplicate output id: out" ∷ [])
unfolding program
two_outputs_refused = refl

validate_lem_example :
    (((validate one_camera).0 ≡ true) ↔ IsValid one_camera)
    × (((validate one_camera).0 ≡ true) ↔ ((validate one_camera).1 ≡ []))
validate_lem_example = validate_lem one_camera
