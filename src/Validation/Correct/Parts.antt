-- ===== src/Validation/Correct/Parts.antt =====
-- What each part of a configuration should be, and that the check of the part accepts that.
use vms_engine.Common.{
  ℕ, ◌≤◌, ◌≡◌, ◌≢◌, refl, ◌⊎◌, ◌↔◌, Bool, false, List, [], ◌∷◌, Text, codes, text_eq, nat_eq, ◌==◌,
  ltb, length, is_empty, arith, In, All, ℤ, pos, ◌≤ℤ◌, ltb_ℤ, leb_ℤ, nat_beq_iff,
}
use vms_engine.Validation.{
  BranchElement, SourcesConfig, ProcessingElement, OutputConfig, EventHandlerConfig, batch_size_of,
  max_sources_of, size_of_int, validate_branch_element, validate_branch, validate_manual,
  validate_sources, validate_processing, validate_visuals_elements, validate_visuals,
  validate_outputs, validate_handler, validate_handlers,
}
use vms_engine.Validation.Correct.{
  Checks, Checks-none, Checks-then, Checks-require, Checks-as, is_empty_iff, contains_iff,
  not_text_iff, text_iff, and_iff, or_iff, Checks-when, Checks-unless,
}

-- A branch element has a known type, and an enabled capsfilter has caps.
abbrev pub IsValidBranchElement : BranchElement → Type 0
IsValidBranchElement e =
    ((e.type ≡ codes "nvvideoconvert") ⊎ ((e.type ≡ codes "capsfilter") ⊎ (e.type ≡ codes "queue")))
    × ((e.type ≢ codes "capsfilter") ⊎ ((e.enabled ≡ false) ⊎ (e.caps ≢ [])))

abbrev pub IsValidManual : SourcesConfig → Type 0
IsValidManual s =
    ((s.mux_implementation ≡ codes "new") ⊎ (s.mux_implementation ≡ codes "legacy"))
    × All IsValidBranchElement s.branch_elements

pub record IsValidSources (s : SourcesConfig) : Type 0 where
  pub known_type : (s.type ≡ codes "nvmultiurisrcbin") ⊎ (s.type ≡ codes "nvurisrcbin")
  pub batch : pos 1 ≤ℤ batch_size_of s
  pub sizes : (pos 1 ≤ℤ s.width) × (pos 1 ≤ℤ s.height)
  pub cameras : length s.camera_ids ≤ size_of_int (max_sources_of s)
  pub manual : (s.type ≢ codes "nvurisrcbin") ⊎ IsValidManual s
  pub latency : (s.mux_max_latency_ns ≢ 0) ⊎ (s.type ≢ codes "nvurisrcbin")

-- Elements with an id that is new and a type; `ids` are the ids before.
abbrev pub IsValidProcessing : List Text → List ProcessingElement → Type 0
IsValidProcessing ids [] = Unit
IsValidProcessing ids (e ∷ es) =
    (e.id ≢ []) × (¬ In e.id ids) × (e.type ≢ []) × IsValidProcessing (e.id ∷ ids) es

abbrev pub IsValidOutputs : List Text → List OutputConfig → Type 0
IsValidOutputs ids [] = Unit
IsValidOutputs ids (o ∷ os) =
    (o.id ≢ []) × (¬ In o.id ids) × (o.elements ≢ []) × IsValidOutputs (o.id ∷ ids) os

abbrev pub IsValidHandler : EventHandlerConfig → Type 0
IsValidHandler h = (h.enable ≡ false) ⊎ ((h.id ≢ []) × (h.type ≢ []) × (h.probe_element ≢ []))

branch_element-Checks :
    (e : BranchElement) → Checks (validate_branch_element e) (IsValidBranchElement e)
unfolding validate_branch_element
branch_element-Checks e =
    Checks-then _ _ _ _
      (Checks-require _ _ _ (
        and_iff _ _ _ _ (not_text_iff e.type (codes "nvvideoconvert")) (
          and_iff _ _ _ _ (not_text_iff e.type (codes "capsfilter"))
            (not_text_iff e.type (codes "queue")))))
      (Checks-require _ _ _ (
        and_iff _ _ _ _ (text_iff e.type (codes "capsfilter"))
          (and_iff _ _ _ _ (λ h. h, λ h. h) (is_empty_iff e.caps))))

branch-Checks :
    (es : List BranchElement) → Checks (validate_branch es) (All IsValidBranchElement es)
unfolding validate_branch
branch-Checks [] = Checks-none
branch-Checks (e ∷ es) = Checks-then _ _ _ _ (branch_element-Checks e) (branch-Checks es)

pub processing-Checks :
    (ids : List Text) (es : List ProcessingElement)
    → Checks (validate_processing ids es) (IsValidProcessing ids es)
unfolding validate_processing
processing-Checks ids [] = Checks-none
processing-Checks ids (e ∷ es) =
    Checks-as _ _ _ (λ p. (p.0.0.0, p.0.0.1, p.0.1, p.1)) (λ q. (((q.0, q.1), q.2), q.3))
      (Checks-then _ _ _ _
        (Checks-then _ _ _ _
          (Checks-then _ _ _ _ (Checks-require _ _ _ (is_empty_iff e.id))
            (Checks-require _ _ _ (contains_iff e.id ids)))
          (Checks-require _ _ _ (is_empty_iff e.type)))
        (processing-Checks (e.id ∷ ids) es))

no_elements_iff : (es : List Text) → (is_empty es ≡ false) ↔ (es ≢ [])
no_elements_iff [] = (λ e. absurd (cc), λ n. absurd (n refl))
no_elements_iff (e ∷ es) = (λ h f. cc, λ n. refl)

pub outputs-Checks :
    (ids : List Text) (os : List OutputConfig)
    → Checks (validate_outputs ids os) (IsValidOutputs ids os)
unfolding validate_outputs
outputs-Checks ids [] = Checks-none
outputs-Checks ids (o ∷ os) =
    Checks-as _ _ _ (λ p. (p.0.0.0, p.0.0.1, p.0.1, p.1)) (λ q. (((q.0, q.1), q.2), q.3))
      (Checks-then _ _ _ _
        (Checks-then _ _ _ _
          (Checks-then _ _ _ _ (Checks-require _ _ _ (is_empty_iff o.id))
            (Checks-require _ _ _ (contains_iff o.id ids)))
          (Checks-require _ _ _ (no_elements_iff o.elements)))
        (outputs-Checks (o.id ∷ ids) os))

visuals_elements-Checks :
    (ids : List Text) → Checks (validate_visuals_elements ids) (All (λ id. id ≢ []) ids)
unfolding validate_visuals_elements
visuals_elements-Checks [] = Checks-none
visuals_elements-Checks (id ∷ ids) =
    Checks-then _ _ _ _ (Checks-require _ _ _ (is_empty_iff id)) (visuals_elements-Checks ids)

pub visuals-Checks :
    (enable : Bool) (ids : List Text)
    → Checks (validate_visuals enable ids) ((enable ≡ false) ⊎ All (λ id. id ≢ []) ids)
unfolding validate_visuals
visuals-Checks enable ids =
    Checks-unless enable (validate_visuals_elements ids) _ (visuals_elements-Checks ids)

handler-Checks : (h : EventHandlerConfig) → Checks (validate_handler h) (IsValidHandler h)
unfolding validate_handler
handler-Checks h = Checks-unless h.enable _ _ (
    Checks-as _ _ _ (λ p. (p.0.0, p.0.1, p.1)) (λ q. ((q.0, q.1), q.2))
      (Checks-then _ _ _ _
        (Checks-then _ _ _ _ (Checks-require _ _ _ (is_empty_iff h.id))
          (Checks-require _ _ _ (is_empty_iff h.type)))
        (Checks-require _ _ _ (is_empty_iff h.probe_element))))

pub handlers-Checks :
    (hs : List EventHandlerConfig) → Checks (validate_handlers hs) (All IsValidHandler hs)
unfolding validate_handlers
handlers-Checks [] = Checks-none
handlers-Checks (h ∷ hs) = Checks-then _ _ _ _ (handler-Checks h) (handlers-Checks hs)

manual-Checks :
    (s : SourcesConfig)
    → Checks (validate_manual s) ((s.type ≢ codes "nvurisrcbin") ⊎ IsValidManual s)
unfolding validate_manual
manual-Checks s = Checks-when _ _ _ _ (text_iff s.type (codes "nvurisrcbin")) (
    Checks-then _ _ _ _
      (Checks-require _ _ _ (
        and_iff _ _ _ _ (not_text_iff s.mux_implementation (codes "new"))
          (not_text_iff s.mux_implementation (codes "legacy"))))
      (branch-Checks s.branch_elements))

positive_iff : (n : ℤ) → (leb_ℤ n (pos 0) ≡ false) ↔ (pos 1 ≤ℤ n)
positive_iff n = (λ h. ground arith, λ h. ground arith)

at_least_one_iff : (n : ℤ) → (ltb_ℤ n (pos 1) ≡ false) ↔ (pos 1 ≤ℤ n)
at_least_one_iff n = (λ h. ground arith, λ h. ground arith)

at_most_iff : (a b : ℕ) → (ltb a b ≡ false) ↔ (b ≤ a)
at_most_iff a b = (λ h. ground arith, λ h. ground arith)

not_zero_iff : (n : ℕ) → ((n == 0) ≡ false) ↔ (n ≢ 0)
not_zero_iff n = ground (arith, nat_beq_iff n 0)

-- The checks of the sources in the order of the code.
pub sources-Checks : (s : SourcesConfig) → Checks (validate_sources s) (IsValidSources s)
unfolding validate_sources
sources-Checks s =
    Checks-as _ _ _
      (λ p. record {
        known_type = p.0.0.0.0.0;
        batch = p.0.0.0.0.1;
        sizes = p.0.0.0.1;
        cameras = p.0.0.1;
        manual = p.0.1;
        latency = p.1;
      })
      (λ q. (((((q.known_type, q.batch), q.sizes), q.cameras), q.manual), q.latency))
      (Checks-then _ _ _ _
        (Checks-then _ _ _ _
          (Checks-then _ _ _ _
            (Checks-then _ _ _ _
              (Checks-then _ _ _ _
                (Checks-require _ _ _ (
                  and_iff _ _ _ _ (not_text_iff s.type (codes "nvmultiurisrcbin"))
                    (not_text_iff s.type (codes "nvurisrcbin"))))
                (Checks-require _ _ _ (at_least_one_iff (batch_size_of s))))
              (Checks-require _ _ _
                (or_iff _ _ _ _ (positive_iff s.width) (positive_iff s.height))))
            (Checks-require _ _ _
              (at_most_iff (size_of_int (max_sources_of s)) (length s.camera_ids))))
          (manual-Checks s))
        (Checks-require _ _ _ (
          and_iff _ _ _ _ (not_zero_iff s.mux_max_latency_ns)
            (text_iff s.type (codes "nvurisrcbin")))))
