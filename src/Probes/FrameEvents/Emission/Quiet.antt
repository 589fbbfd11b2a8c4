-- ===== src/Probes/FrameEvents/Emission/Quiet.antt =====
-- Nothing is published while nothing changes.
use vms_engine.Common.Map.{Map, find}
use vms_engine.Common.{
  ℕ, ◌≡◌, Bool, true, not, ◌&&◌, some, List, [], ◌∷◌, text_eq, int_eq, nat_eq, ℤ, contains, All,
}
use vms_engine.Probes.FrameEvents.{
  FrameEventObject, LastEmittedObjectState, LabelVoteState, PerSourceEmitState, FrameEventsConfig,
  Floats,
}
use vms_engine.Probes.FrameEvents.Votes.{Iterate}
use vms_engine.Probes.FrameEvents.Emission.{note_emitted, last_emitted}

-- Every object was last emitted as it is now.
abbrev AllFound : Map ℕ LastEmittedObjectState → List FrameEventObject → Type 0
AllFound before os = All (λ o. find o.object_id before ≡ some (last_emitted o)) os

unfoldable pub all_distinct : List ℕ → Bool
all_distinct [] = true
all_distinct (n ∷ ns) = not (contains n ns) && all_distinct ns

-- The state after a message, with the votes of later frames.
abbrev emitted_state :
    Floats
    → Iterate
    → FrameEventsConfig
    → PerSourceEmitState
    → List FrameEventObject
    → ℤ
    → Map ℕ LabelVoteState
    → PerSourceEmitState
emitted_state fl iterate g state objects at votes =
    record (note_emitted fl iterate g state objects at) { label_votes = votes }
