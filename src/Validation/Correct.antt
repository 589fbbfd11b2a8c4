-- ===== src/Validation/Correct.antt =====
-- What a check accepts: the equivalence of its tests with what they mean.
pub mod Parts
pub mod Whole
use vms_engine.Common.{
  ℕ, ◌≤◌, ◌≡◌, ◌≢◌, refl, sym, ◌∙◌, ap, ◌⊎◌, inl, inr, ◌↔◌, Bool, true, false, ◌||◌, ◌&&◌, not,
  List, [], ◌∷◌, ◌++◌, Text, codes, text_eq, nat_eq, ◌==◌, ltb, if◌then◌else◌, length, is_empty,
  contains, arith, In, All, ℤ, pos, ◌≤ℤ◌, ltb_ℤ, leb_ℤ, text_beq_iff, nat_beq_iff, Bool-cases,
}
use vms_engine.Validation.{
  BranchElement, SourcesConfig, ProcessingElement, OutputConfig, EventHandlerConfig, PipelineConfig,
  Verdict, require, batch_size_of, max_sources_of, size_of_int, validate_pipeline_meta,
  validate_branch_element, validate_branch, validate_manual, validate_sources, validate_processing,
  validate_visuals_elements, validate_visuals, validate_outputs, validate_handler,
  validate_handlers, validate,
}

-- The validation `f` lets a verdict stand exactly if `P` holds, and both its answer and its errors
-- tell if it does not.
pub record Checks (f : Verdict → Verdict) (P : Type 0) : Type 0 where
  pub passes : (v : Verdict) → v.0 ≡ true → P → f v ≡ v
  pub holds : (v : Verdict) → (f v).0 ≡ true → (v.0 ≡ true) × P
  pub told : (v : Verdict) → (f v).1 ≡ [] → (v.1 ≡ []) × P

pub Checks-none : Checks (λ v. v) Unit
Checks-none = record { passes = λ v e p. refl; holds = λ v e. (e, tt); told = λ v e. (e, tt) }

pub Checks-then :
    (f g : Verdict → Verdict) (P Q : Type 0)
    → Checks f P
    → Checks g Q
    → Checks (λ v. g (f v)) (P × Q)
Checks-then f g P Q c d = record {
  passes = λ v e p. let same = c.passes v e p.0 in ap g same ∙ d.passes v e p.1;
  holds = λ v e. let q = d.holds (f v) e in let p = c.holds v q.0 in (p.0, (p.1, q.1));
  told = λ v e. let q = d.told (f v) e in let p = c.told v q.0 in (p.0, (p.1, q.1));
}

require_passes : (wrong : Bool) (m : Text) (v : Verdict) → wrong ≡ false → require wrong m v ≡ v
unfolding require
require_passes wrong m (ok, es) e = rw (e)

require_holds :
    (wrong : Bool) (m : Text) (v : Verdict)
    → (require wrong m v).0 ≡ true
    → (v.0 ≡ true) × (wrong ≡ false)
unfolding require
require_holds true m (ok, es) e = absurd (cc)
require_holds false m (ok, es) e = (e, refl)

append-nonempty : (es : List Text) (m : Text) → (es ++ m ∷ []) ≢ []
append-nonempty [] m e = cc
append-nonempty (x ∷ es) m e = cc

require_told :
    (wrong : Bool) (m : Text) (v : Verdict)
    → (require wrong m v).1 ≡ []
    → (v.1 ≡ []) × (wrong ≡ false)
unfolding require
require_told true m (ok, es) e = absurd (append-nonempty es m e)
require_told false m (ok, es) e = (e, refl)

pub Checks-require :
    (wrong : Bool) (m : Text) (P : Type 0) → (wrong ≡ false) ↔ P → Checks (require wrong m) P
Checks-require wrong m P e = record {
  passes = λ v h p. require_passes wrong m v (e.1 p);
  holds = λ v h. let r = require_holds wrong m v h in (r.0, e.0 r.1);
  told = λ v h. let r = require_told wrong m v h in (r.0, e.0 r.1);
}

pub is_empty_iff : (s : Text) → (is_empty s ≡ false) ↔ (s ≢ [])
is_empty_iff [] = (λ e. absurd (cc), λ n. absurd (n refl))
is_empty_iff (c ∷ cs) = (λ e f. cc, λ n. refl)

pub contains_iff : (x : Text) (ids : List Text) → (contains x ids ≡ false) ↔ (¬ In x ids)
unfolding contains
contains_iff x [] = (λ e h. elim h [ ], λ n. refl)
contains_iff x (y ∷ ys) = (
  λ e. ground (arith, text_beq_iff y x, contains_iff x ys),
  λ n. ground (arith, text_beq_iff y x, contains_iff x ys),
)

pub not_text_iff : (x y : Text) → (not (x == y) ≡ false) ↔ (x ≡ y)
not_text_iff x y = ground (arith, text_beq_iff x y)

pub text_iff : (x y : Text) → ((x == y) ≡ false) ↔ (x ≢ y)
text_iff x y = ground (arith, text_beq_iff x y)

-- A conjunction of tests is false if one of them is, a disjunction if both are.
pub and_iff :
    (a b : Bool) (P Q : Type 0) → (a ≡ false) ↔ P → (b ≡ false) ↔ Q → ((a && b) ≡ false) ↔ (P ⊎ Q)
and_iff true b P Q e f =
    (λ h. inr (f.0 h), λ s. elim s [ inl p ↦ absurd (cc (e.1 p)) | inr q ↦ f.1 q ])
and_iff false b P Q e f = (λ h. inl (e.0 refl), λ s. refl)

pub or_iff :
    (a b : Bool) (P Q : Type 0) → (a ≡ false) ↔ P → (b ≡ false) ↔ Q → ((a || b) ≡ false) ↔ (P × Q)
or_iff true b P Q e f = (λ h. absurd (cc), λ s. absurd (cc (e.1 s.0)))
or_iff false b P Q e f = (λ h. (e.0 refl, f.0 h), λ s. f.1 s.1)

-- Reorders what is checked.
pub Checks-as : (f : Verdict → Verdict) (P Q : Type 0) → (P → Q) → (Q → P) → Checks f P → Checks f Q
Checks-as f P Q a b c = record {
  passes = λ v e q. c.passes v e (b q);
  holds = λ v e. let r = c.holds v e in (r.0, a r.1);
  told = λ v e. let r = c.told v e in (r.0, a r.1);
}

-- A check that is made only if a test holds.
pub Checks-when :
    (b : Bool) (f : Verdict → Verdict) (N P : Type 0)
    → (b ≡ false) ↔ N
    → Checks f P
    → Checks (λ v. if b then f v else v) (N ⊎ P)
Checks-when true f N P e c =
    Checks-as f P (N ⊎ P) inr (λ s. elim s [ inl n ↦ absurd (cc (e.1 n)) | inr p ↦ p ]) c
Checks-when false f N P e c =
    Checks-as (λ v. v) Unit (N ⊎ P) (λ p. inl (e.0 refl)) (λ s. tt) Checks-none

-- A check that is left out if a flag is off.
pub Checks-unless :
    (enable : Bool) (f : Verdict → Verdict) (P : Type 0)
    → Checks f P
    → Checks (λ v. if not enable then v else f v) ((enable ≡ false) ⊎ P)
Checks-unless true f P c = Checks-when true f (true ≡ false) P (λ h. h, λ h. h) c
Checks-unless false f P c = Checks-when false f (false ≡ false) P (λ h. h, λ h. h) c
