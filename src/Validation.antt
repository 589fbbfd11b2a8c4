-- ===== src/Validation.antt =====
-- pipeline/src/config_validator.cpp: what the validator says of a configuration. A validation
-- takes the errors so far and gives its answer and the errors, the latest at the end.
pub mod Correct
mod Tests
use vms_engine.Common.{
  ℕ, Bool, true, false, ◌||◌, ◌&&◌, not, Option, none, some, List, [], ◌∷◌, ◌++◌, Text, codes,
  text_eq, nat_eq, ◌==◌, ltb, leb, if◌then◌else◌, length, is_empty, contains, ℤ, pos, ltb_ℤ, leb_ℤ,
  to_unsigned,
}

-- The fields of the configuration that the validator reads.
pub record BranchElement : Type 0 where
  pub type : Text
  pub enabled : Bool
  pub caps : Text

pub record SourcesConfig : Type 0 where
  pub type : Text
  pub max_batch_size : ℤ
  pub width : ℤ
  pub height : ℤ
  pub mux_implementation : Text
  pub mux_batch_size : ℤ
  pub mux_max_sources : ℤ
  pub mux_max_latency_ns : ℕ
  pub branch_elements : List BranchElement
  pub camera_ids : List Text

pub record ProcessingElement : Type 0 where
  pub id : Text
  pub type : Text

-- An output with the types of its elements.
pub record OutputConfig : Type 0 where
  pub id : Text
  pub elements : List Text

pub record EventHandlerConfig : Type 0 where
  pub id : Text
  pub enable : Bool
  pub type : Text
  pub probe_element : Text

pub record PipelineConfig : Type 0 where
  pub pipeline_id : Text
  pub sources : SourcesConfig
  pub processing_elements : List ProcessingElement
  pub visuals_enable : Bool
  pub visuals_elements : List Text
  pub outputs : List OutputConfig
  pub event_handlers : List EventHandlerConfig

-- One check: the answer so far and the errors so far.
abbrev pub Verdict : Type 0
Verdict = Bool × List Text

-- `if (wrong) { errors_.push_back(message); ok = false; }`
unfoldable pub require : Bool → Text → Verdict → Verdict
require wrong message (ok, errors) = if wrong then (false, errors ++ message ∷ []) else (ok, errors)

unfoldable pub validate_pipeline_meta : Text → Verdict → Verdict
validate_pipeline_meta id v = require (is_empty id) (codes "pipeline.id is required") v

abbrev pub batch_size_of : SourcesConfig → ℤ
batch_size_of s = if ltb_ℤ (pos 0) s.mux_batch_size then s.mux_batch_size else s.max_batch_size

abbrev pub max_sources_of : SourcesConfig → ℤ
max_sources_of s = if ltb_ℤ (pos 0) s.mux_max_sources then s.mux_max_sources else batch_size_of s

-- static_cast<size_t>
abbrev pub size_of_int : ℤ → ℕ
size_of_int n = to_unsigned 18446744073709551616 n

unfoldable pub validate_branch_element : BranchElement → Verdict → Verdict
validate_branch_element e v =
    require (e.type == codes "capsfilter" && (e.enabled && is_empty e.caps))
      (codes "enabled sources.branch capsfilter requires a caps string")
      (require
        (not (e.type == codes "nvvideoconvert")
          && (not (e.type == codes "capsfilter") && not (e.type == codes "queue")))
        (codes "sources.branch.elements only support 'nvvideoconvert', 'capsfilter', or 'queue'") v)

unfoldable pub validate_branch : List BranchElement → Verdict → Verdict
validate_branch [] v = v
validate_branch (e ∷ es) v = validate_branch es (validate_branch_element e v)

-- What is checked of a source of type nvurisrcbin alone.
unfoldable pub validate_manual : SourcesConfig → Verdict → Verdict
validate_manual s v =
    if s.type == codes "nvurisrcbin"
    then validate_branch s.branch_elements (
        require
          (not (s.mux_implementation == codes "new")
            && not (s.mux_implementation == codes "legacy"))
          (codes "sources.mux.implementation must be 'new' or 'legacy'") v)
    else v

unfoldable pub validate_sources : SourcesConfig → Verdict → Verdict
validate_sources s v =
    require (s.mux_max_latency_ns == 0 && s.type == codes "nvurisrcbin")
      (codes "sources.mux.max_latency_ns should be > 0 for standalone nvstreammux")
      (validate_manual s (
        require (ltb (size_of_int (max_sources_of s)) (length s.camera_ids))
          (codes "sources.cameras cannot exceed sources.mux.max_sources")
          (require (leb_ℤ s.width (pos 0) || leb_ℤ s.height (pos 0))
            (codes "sources.width and sources.height must be > 0")
            (require (ltb_ℤ (batch_size_of s) (pos 1))
              (codes "sources.mux.batch_size (or sources.max_batch_size) must be >= 1")
              (require
                (not (s.type == codes "nvmultiurisrcbin") && not (s.type == codes "nvurisrcbin"))
                (codes "sources.type must be 'nvmultiurisrcbin' or 'nvurisrcbin'") v)))))

-- `ids` are the ids that the loop has put into its set.
unfoldable pub validate_processing : List Text → List ProcessingElement → Verdict → Verdict
validate_processing ids [] v = v
validate_processing ids (e ∷ es) v = validate_processing (e.id ∷ ids) es (
    require (is_empty e.type) (codes "processing element '" ++ (e.id ++ codes "' has empty type")) (
      require (contains e.id ids) (codes "duplicate processing element id: " ++ e.id)
        (require (is_empty e.id) (codes "processing element has empty id") v)))

unfoldable pub validate_visuals_elements : List Text → Verdict → Verdict
validate_visuals_elements [] v = v
validate_visuals_elements (id ∷ ids) v =
    validate_visuals_elements ids (require (is_empty id) (codes "visuals element has empty id") v)

unfoldable pub validate_visuals : Bool → List Text → Verdict → Verdict
validate_visuals enable ids v = if not enable then v else validate_visuals_elements ids v

unfoldable pub validate_outputs : List Text → List OutputConfig → Verdict → Verdict
validate_outputs ids [] v = v
validate_outputs ids (o ∷ os) v = validate_outputs (o.id ∷ ids) os (
    require (is_empty o.elements) (codes "output '" ++ (o.id ++ codes "' has no elements")) (
      require (contains o.id ids) (codes "duplicate output id: " ++ o.id)
        (require (is_empty o.id) (codes "output has empty id") v)))

unfoldable pub validate_handler : EventHandlerConfig → Verdict → Verdict
validate_handler h v =
    if not h.enable
    then v
    else require (is_empty h.probe_element)
        (codes "event handler '" ++ (h.id ++ codes "' has empty probe_element"))
        (require (is_empty h.type) (codes "event handler '" ++ (h.id ++ codes "' has empty type"))
          (require (is_empty h.id) (codes "event handler has empty id") v))

unfoldable pub validate_handlers : List EventHandlerConfig → Verdict → Verdict
validate_handlers [] v = v
validate_handlers (h ∷ hs) v = validate_handlers hs (validate_handler h v)

-- The answer, and what `errors` gives afterwards.
unfoldable pub validate : PipelineConfig → Verdict
validate c = validate_handlers c.event_handlers (
    validate_outputs [] c.outputs (
      validate_visuals c.visuals_enable c.visuals_elements (
        validate_processing [] c.processing_elements
          (validate_sources c.sources (validate_pipeline_meta c.pipeline_id (true, []))))))
