-- ===== src/Probes/FrameEvents/Emission/Gap.antt =====
-- The time between two messages of a source, and what every message has.
use vms_engine.Common.Map.{Map, find, insert, find-insert}
use vms_engine.Common.{
  ◌≡◌, refl, Bool, true, false, ◌&&◌, ◌||◌, List, [], ◌∷◌, int_eq, ◌==◌, is_empty, if◌then◌else◌,
  if_split, ℤ, pos, leb_ℤ, ◌-ℤ◌, arith, int_beq_iff,
}
use vms_engine.Probes.FrameEvents.{FrameEventObject, PerSourceEmitState, FrameEventsConfig, Floats}
use vms_engine.Probes.FrameEvents.Votes.{Iterate, apply_label_majority_vote}
use vms_engine.Probes.FrameEvents.Emission.{
  Decision, reset_source_state, elapsed_since, is_suppressed, emit_reasons, note_emitted, decide,
  should_emit, or_unseen, should_emit_message,
}

-- What one decision means for the time of the last message.
pub record IsTimed (g : FrameEventsConfig) (state : PerSourceEmitState) (now : ℤ) (d : Decision)
    : Type 0 where
  pub silent : d.emits ≡ false → d.state.last_emit_ms ≡ state.last_emit_ms
  pub noted : d.emits ≡ true → d.state.last_emit_ms ≡ now
  pub spaced :
      d.emits ≡ true
      → (leb_ℤ state.last_emit_ms (pos 0) || leb_ℤ g.min_emit_gap_ms (now -ℤ state.last_emit_ms))
        ≡ true
  pub filled : d.emits ≡ true → is_empty d.reasons ≡ false

module _ (fl : Floats) (iterate : Iterate) (g : FrameEventsConfig) where
  decide-IsTimed :
      (state : PerSourceEmitState) (objects : List FrameEventObject) (now : ℤ)
      → IsTimed g state now (decide fl iterate g (state, objects) now)
  unfolding decide note_emitted is_suppressed elapsed_since
  decide-IsTimed state objects now =
      let reasons = emit_reasons fl iterate g state objects now in
      if_split (IsTimed g state now) (is_suppressed g state now reasons) _ _
        (λ h. record {
          silent = λ e. refl;
          noted = λ e. absurd (cc);
          spaced = λ e. absurd (cc);
          filled = λ e. absurd (cc);
        })
        (λ h. record {
          silent = λ e. absurd (cc);
          noted = λ e. refl;
          spaced = λ e. ground arith;
          filled = λ e. ground arith;
        })

  pub should_emit-IsTimed :
      (state : PerSourceEmitState) (objects : List FrameEventObject) (now : ℤ)
      → IsTimed g state now (should_emit fl iterate g state objects now)
  unfolding should_emit reset_source_state apply_label_majority_vote
  should_emit-IsTimed state [] now = record {
    silent = λ e. refl;
    noted = λ e. absurd (cc);
    spaced = λ e. absurd (cc);
    filled = λ e. absurd (cc);
  }
  should_emit-IsTimed state (o ∷ os) now =
      let t =
        decide-IsTimed (apply_label_majority_vote iterate g state (o ∷ os)).0
          (apply_label_majority_vote iterate g state (o ∷ os)).1 now in
      record { silent = t.silent; noted = t.noted; spaced = t.spaced; filled = t.filled }

-- A frame of a source with the objects that were collected, at the time of its buffer.
pub record Frame : Type 0 where
  pub source_id : ℤ
  pub objects : List FrameEventObject
  pub at : ℤ

module _ (fl : Floats) (iterate : Iterate) (g : FrameEventsConfig) (i : ℤ) where
  -- The times of the messages of source `i` in a run over the frames of all sources.
  unfoldable pub emissions : Map ℤ PerSourceEmitState → List Frame → List ℤ
  emissions sources [] = []
  emissions sources (f ∷ fs) =
      let r = should_emit_message fl iterate g sources f.source_id f.objects f.at in
      let rest = emissions r.0 fs in if f.source_id == i && r.1.emits then f.at ∷ rest else rest

-- Every time is at least the gap after the one before it, if that is positive.
unfoldable pub is_spaced : FrameEventsConfig → ℤ → List ℤ → Bool
is_spaced g last [] = true
is_spaced g last (t ∷ ts) =
    (leb_ℤ last (pos 0) || leb_ℤ g.min_emit_gap_ms (t -ℤ last)) && is_spaced g t ts

module _ (fl : Floats) (iterate : Iterate) (g : FrameEventsConfig) (i : ℤ) where
  last_of : Map ℤ PerSourceEmitState → ℤ
  last_of sources = (or_unseen (find i sources)).last_emit_ms

  emissions-is_spaced :
      (sources : Map ℤ PerSourceEmitState) (fs : List Frame)
      → is_spaced g (last_of sources) (emissions fl iterate g i sources fs) ≡ true
  unfolding emissions is_spaced should_emit_message last_of
  emissions-is_spaced sources [] = refl
  emissions-is_spaced sources (f ∷ fs) =
      let old = or_unseen (find f.source_id sources) in
      let d = should_emit fl iterate g old f.objects f.at in
      let timed = should_emit-IsTimed fl iterate g old f.objects f.at in
      let rest = emissions-is_spaced (insert f.source_id d.state sources) fs in
      ground (
        arith,
        timed.silent,
        timed.noted,
        timed.spaced,
        rest,
        find-insert f.source_id i d.state sources,
        int_beq_iff f.source_id i,
      )

-- In a run over frames of any sources, from the start of the handler, two messages of a source
-- that follow each other are at least `min_emit_gap_ms` apart, if the time of the first is
-- positive, whatever the objects are and even if the clock goes back.
pub emissions_spaced :
    (fl : Floats) (iterate : Iterate) (g : FrameEventsConfig) (i : ℤ) (fs : List Frame)
    → is_spaced g (pos 0) (emissions fl iterate g i [] fs) ≡ true
unfolding last_of find
emissions_spaced fl iterate g i fs = emissions-is_spaced fl iterate g i [] fs
